-- ===== src/DashSim/Told.antt =====
-- tools/vmc-dash-sim/main.c and apps/thinclient/main.c: a response that tells its length, as the
-- client reads it.
use remote_avapps.Base.{
  ℕ, zero, suc, ◌+◌, ◌-◌, ◌^◌, ◌≤◌, ◌<◌, ◌≡◌, ◌∙◌, refl, sym, ap, ltb, ltb-false, ◌==◌, leb, arith,
  Bool, true, false, ◌&&◌, ◌||◌, if◌then◌else◌, Bool-cases, inl, inr, List, [], ◌∷◌, ◌++◌, length,
  length-append, append_assoc, drop, drop-append, take, take_long, take_all, Option, none, some,
}
use remote_avapps.Base.Int.{ℤ, pos}
use remote_avapps.Base.Text.{
  codes, crlf, is_decimal, format_decimal, starts_with, starts_with_case, to_lower,
}
use remote_avapps.Client.Http.Chunked.{Fetched, fetched}
use remote_avapps.Client.Http.Response.{
  BodyForm, strtol10, header_end, header_value, scan_at, scan_headers, body_of, plain_body,
  body_length, behind_header, parse_response,
}
use remote_avapps.DashSim.Delivery.{untold_form}
use remote_avapps.DashSim.{Length, told, length_line, http_headers, content_type}
use remote_avapps.DashSim.Decimal.{AllDecimal, format_decimal-le, format_decimal_digits, told_value}

abbrev shift : ℕ → Option ℕ → Option ℕ
shift i none = none
shift i (some n) = some (i + n)

header_end-shift : (i j : ℕ) (s : List ℕ) → header_end (i + j) s ≡ shift i (header_end j s)
unfolding header_end
header_end-shift i j [] = refl
header_end-shift i j (c ∷ s) = elim (Bool-cases (starts_with (crlf ++ crlf) (c ∷ s))) [
  | inl found ↦ rw found (ap some (omega arith))
  | inr later ↦
      let e : i + j + 1 ≡ i + (j + 1) = omega arith in rw (later, e) (header_end-shift i (j + 1) s)
]

header_end-digits :
    (i : ℕ) (d s : List ℕ) → AllDecimal d → header_end i (d ++ s) ≡ header_end (i + length d) s
unfolding header_end starts_with
header_end-digits i [] s h = let e : i ≡ i + 0 = omega arith in ap (λ k. header_end k s) e
header_end-digits i (c ∷ d) s h =
    let e : (13 == c) ≡ false = ground (arith, h.0) in
    let k : i + 1 + length d ≡ i + suc (length d) = omega arith in
    rw e (header_end-digits (i + 1) d s h.1 ∙ ap (λ j. header_end j s) k)

-- No header starts with a digit.
scan_at-digit :
    (left c : ℕ) (s : List ℕ) (form : BodyForm)
    → is_decimal c ≡ true
    → scan_at left (c ∷ s) form ≡ form
unfolding scan_at starts_with_case to_lower
scan_at-digit left c s form h =
    let l : (leb 65 c && leb c 90) ≡ false = ground (arith, h) in
    let t : (116 == c) ≡ false = ground (arith, h) in
    let n : (99 == c) ≡ false = ground (arith, h) in
    rw (l, t, n)
      (ap (λ b. record { chunked = b; content_length = form.content_length })
        (or_false form.chunked))
  where
    or_false : (b : Bool) → (b || false) ≡ b
    or_false true = refl
    or_false false = refl

scan_headers-digits :
    (t : ℕ) (d s : List ℕ) (form : BodyForm)
    → AllDecimal d
    → scan_headers (length d + t) (d ++ s) form ≡ scan_headers t s form
unfolding scan_headers
scan_headers-digits t [] s form h =
    let e : 0 + t ≡ t = omega arith in ap (λ k. scan_headers k s form) e
scan_headers-digits t (c ∷ d) s form h =
    let e : suc (length d) + t ≡ suc (length d + t) = omega arith in
    rw e (
      ap (λ f. scan_headers (length d + t) (d ++ s) f)
        (scan_at-digit (suc (length d + t) + 18) c (d ++ s) form h.0)
      ∙ scan_headers-digits t d s form h.1)

-- The parts of the header before and after the digits of the length.
abbrev before : Bool → List ℕ
before mpd =
    codes "HTTP/1.1 200 OK\r\nContent-Type: "
    ++ ((if mpd then codes "application/dash+xml" else codes "video/iso.segment")
        ++ codes "\r\nContent-Length: ")

abbrev access : List ℕ
access =
    codes "Cache-Control: no-cache\r\nConnection: close\r\nAccess-Control-Allow-Origin: *\r\n\r\n"

abbrev after : List ℕ
after = crlf ++ access

length_line-told :
    (n : ℕ)
    → n < 10 ^ 13
    → length_line (told n) ≡ codes "Content-Length: " ++ (format_decimal n ++ crlf)
unfolding length_line
length_line-told n h =
    take_long 31 (codes "Content-Length: " ++ (format_decimal n ++ crlf))
      (omega (arith, format_decimal-le n h, length-append (format_decimal n) crlf))

http_headers_line :
    (mpd : Bool) (len : Length) (digits : List ℕ)
    → length_line len ≡ codes "Content-Length: " ++ (digits ++ crlf)
    → http_headers 200 (content_type mpd) len ≡ before mpd ++ (digits ++ after)
unfolding http_headers content_type format_decimal
http_headers_line true len digits e = rw (e, append_assoc digits crlf access) refl
http_headers_line false len digits e = rw (e, append_assoc digits crlf access) refl

http_headers-told :
    (mpd : Bool) (n : ℕ)
    → n < 10 ^ 13
    → http_headers 200 (content_type mpd) (told n) ≡ before mpd ++ (format_decimal n ++ after)
http_headers-told mpd n h = http_headers_line mpd (told n) (format_decimal n) (length_line-told n h)

-- So many successors, for a count that is a numeral.
abbrev more : ℕ → ℕ → ℕ
more zero t = t
more (suc k) t = suc (more k t)

more_lem : (k t : ℕ) → more k t ≡ k + t
more_lem zero t = omega arith
more_lem (suc k) t = omega (arith, more_lem k t)

header_end-before :
    (mpd : Bool) (s : List ℕ) → header_end 0 (before mpd ++ s) ≡ header_end (length (before mpd)) s
unfolding header_end
header_end-before true s = refl
header_end-before false s = refl

header_end-after : (s : List ℕ) → header_end 0 (after ++ s) ≡ some (length after)
unfolding header_end
header_end-after s = refl

scan_headers-before :
    (mpd : Bool) (t : ℕ) (s : List ℕ)
    → (left : ℕ) × (2 ≤ left)
      × (scan_headers (more (length (before mpd)) t) (before mpd ++ s) (untold_form)
          ≡ scan_headers t s
              (record { chunked = false; content_length = strtol10 (header_value left (32 ∷ s)) }))
unfolding scan_headers
scan_headers-before true t s = (more 16 t + 18 - 15, omega arith, refl)
scan_headers-before false t s = (more 16 t + 18 - 15, omega arith, refl)

scan_headers-after :
    (s : List ℕ) (n : ℤ)
    → scan_headers (length after - 18) (after ++ s) (record { chunked = false; content_length = n })
      ≡ record { chunked = false; content_length = n }
unfolding scan_headers
scan_headers-after s n = refl

plain_body-told :
    (gives : ℕ → Bool) (n : ℕ) (body : List ℕ)
    → ((k : ℕ) → gives k ≡ true)
    → plain_body gives (pos n) body ≡ fetched (take n body)
unfolding plain_body body_length
plain_body-told gives n body all = elim (Bool-cases (ltb n (length body))) [
  | inl more_came ↦ rw (more_came, all n) (some_body n body)
  | inr less ↦
      let whole : take n body ≡ body = take_long n body (ground (arith, less)) in
      rw (less, all (length body), whole, take_all body) (some_body' body)
]
  where
    some_body :
        (n : ℕ) (body : List ℕ)
        → ◌≡◌ {A = Fetched}
            (if n == 0 then fetched [] else fetched (take n body))
            (fetched (take n body))
    some_body zero body = refl
    some_body (suc n) body = let e : (suc n == 0) ≡ false = ground arith in rw e refl

    some_body' :
        (body : List ℕ)
        → ◌≡◌ {A = Fetched} (if length body == 0 then fetched [] else fetched body) (fetched body)
    some_body' [] = refl
    some_body' (b ∷ body) = let e : (suc (length body) == 0) ≡ false = ground arith in rw e refl

module _ (mpd : Bool) (n : ℕ) (small : n < 10 ^ 13) (body : List ℕ) where
  header_end-told :
      header_end 0 (before mpd ++ (format_decimal n ++ (after ++ body)))
      ≡ some (length (before mpd) + (length (format_decimal n) + length after))
  header_end-told =
      let b = length (before mpd) in
      let d = length (format_decimal n) in
      let e : b + d + 0 ≡ b + d = omega arith in
      header_end-before mpd (format_decimal n ++ (after ++ body))
      ∙ header_end-digits b (format_decimal n) (after ++ body) (format_decimal_digits n)
      ∙ ap (λ k. header_end k (after ++ body)) (sym e)
      ∙ header_end-shift (b + d) 0 (after ++ body)
      ∙ ap (shift (b + d)) (header_end-after body)
      ∙ ap some (omega arith)

  scan_headers-told :
      scan_headers
        (length (before mpd) + (length (format_decimal n) + length after) - 18)
        (before mpd ++ (format_decimal n ++ (after ++ body)))
        untold_form
      ≡ record { chunked = false; content_length = pos n }
  scan_headers-told =
      let d = length (format_decimal n) in
      let rest = format_decimal n ++ (after ++ body) in
      let turns = d + (length after - 18) in
      let (left, two, read) = scan_headers-before mpd turns rest in
      let count : length (before mpd) + (d + length after) - 18 ≡ more (length (before mpd)) turns =
        omega (arith, more_lem (length (before mpd)) turns) in
      ap (λ k. scan_headers k (before mpd ++ rest) untold_form) count
      ∙ read
      ∙ ap (λ v. scan_headers turns rest (record { chunked = false; content_length = v }))
          (told_value left n _ two (omega (arith, small)))
      ∙ scan_headers-digits (length after - 18) (format_decimal n) (after ++ body) _
          (format_decimal_digits n)
      ∙ scan_headers-after body (pos n)

  -- A response that tells its length is fetched as the bytes that came, up to that length.
  pub parse_response-told :
      (gives : ℕ → Bool)
      → ((k : ℕ) → gives k ≡ true)
      → parse_response gives (http_headers 200 (content_type mpd) (told n) ++ body)
        ≡ fetched (take n body)
  unfolding parse_response behind_header body_of
  parse_response-told gives all =
      let d = format_decimal n in
      let header = before mpd ++ (d ++ after) in
      let e : header ++ body ≡ before mpd ++ (d ++ (after ++ body)) =
        append_assoc (before mpd) (d ++ after) body
        ∙ ap (λ t. before mpd ++ t) (append_assoc d after body) in
      let size : length header ≡ length (before mpd) + (length d + length after) =
        length-append (before mpd) (d ++ after)
        ∙ ap (λ k. length (before mpd) + k) (length-append d after) in
      let long : ltb (length (before mpd ++ (d ++ (after ++ body)))) 12 ≡ false =
        ltb-false _ 12 (omega (arith, ap length e, length-append header body, size)) in
      let dropped : drop (length (before mpd) + (length d + length after))
            (before mpd ++ (d ++ (after ++ body)))
          ≡ body =
        ap (λ k. drop k (before mpd ++ (d ++ (after ++ body)))) (sym size)
        ∙ ap (drop (length header)) (sym e)
        ∙ drop-append header body in
      ap (λ h. parse_response gives (h ++ body)) (http_headers-told mpd n small)
      ∙ ap (parse_response gives) e
      ∙ rw (long, header_end-told, scan_headers-told, dropped) (plain_body-told gives n body all)
