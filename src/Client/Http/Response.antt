-- ===== src/Client/Http/Response.antt =====
-- apps/thinclient/main.c: what `http_get` makes of the bytes of a response. The response is a list
-- of bytes, and a position in it the list of the bytes from there on.
use remote_avapps.Base.{
  ℕ, zero, suc, ◌+◌, ◌-◌, ltb, leb, ◌==◌, if◌then◌else◌, min, u32, Bool, false, ◌&&◌, ◌||◌, List,
  [], ◌∷◌, ◌++◌, length, take, drop, Option, none, some,
}
use remote_avapps.Base.Int.{ℤ, pos, negsuc, signed32}
use remote_avapps.Base.Text.{codes, crlf, starts_with, starts_with_case, decimal_from, long_max}
use remote_avapps.Client.Http.Chunked.{Fetched, fetched, failed, decode_body}

abbrev negative : ℕ → ℤ
negative zero = pos 0
negative (suc n) = negsuc (min long_max n)

-- `strtol(s, NULL, 10)`: white space, a sign, and digits, cut to the range of a `long`.
unfoldable pub strtol10 : List ℕ → ℤ
unfolding decimal_from
strtol10 [] = pos 0
strtol10 (c ∷ s) =
    let rest = strtol10 s in
    if c == 32 || leb 9 c && leb c 13
    then rest
    else if c == 45
    then negative (decimal_from 0 s)
    else pos (min long_max (decimal_from 0 (if c == 43 then s else c ∷ s)))

-- The conversion to an `int`.
abbrev int_of : ℤ → ℤ
int_of (pos n) = signed32 (u32 n)
int_of (negsuc n) = signed32 (4294967295 - u32 n)

-- `atoi`, which cuts that to an `int`.
unfoldable pub atoi : List ℕ → ℤ
unfolding strtol10
atoi s = int_of (strtol10 s)

-- The status code, 0 for what is not a status line.
unfoldable pub status_of : List ℕ → ℤ
unfolding starts_with atoi
status_of raw =
    if starts_with (codes "HTTP/1.1 ") raw || starts_with (codes "HTTP/1.0 ") raw
    then atoi (drop 9 raw)
    else pos 0

-- The end of the header, behind its empty line, as an index from `i` on.
unfoldable pub header_end : ℕ → List ℕ → Option ℕ
unfolding starts_with
header_end i [] = none
header_end i (c ∷ s) =
    let later = header_end (i + 1) s in
    if starts_with (crlf ++ crlf) (c ∷ s) then some (i + 4) else later

-- The value of a header, with at most `left` bytes of separators before it.
unfoldable pub header_value : ℕ → List ℕ → List ℕ
header_value zero s = s
header_value (suc left) [] = []
header_value (suc left) (c ∷ s) =
    let rest = header_value left s in if c == 32 || c == 9 || c == 58 then rest else c ∷ s

-- What the header tells: whether the body is chunked, and its length, negative when not told.
pub record BodyForm : Type 0 where
  pub chunked : Bool
  pub content_length : ℤ

-- The tests at one position, `left` bytes before the end of the header.
unfoldable pub scan_at : ℕ → List ℕ → BodyForm → BodyForm
unfolding starts_with_case header_value strtol10
scan_at left s form =
    let coded = starts_with_case (codes "transfer-encoding:") s in
    let measured = starts_with_case (codes "content-length:") s in
    record {
      chunked =
          form.chunked
          || coded && starts_with_case (codes "chunked") (header_value (left - 18) (drop 18 s));
      content_length =
          if measured then strtol10 (header_value (left - 15) (drop 15 s)) else form.content_length;
    }

-- The loop over the positions more than 18 bytes before the end of the header, for the number of
-- these.
unfoldable pub scan_headers : ℕ → List ℕ → BodyForm → BodyForm
unfolding scan_at
scan_headers zero s form = form
scan_headers (suc turns) s form = scan_headers turns (drop 1 s) (scan_at (suc turns + 18) s form)

-- The length of a body that is not chunked.
unfoldable pub body_length : ℤ → ℕ → ℕ
body_length (pos n) came = if ltb n came then n else came
body_length (negsuc n) came = came

-- A body that is not chunked: what came of it, at most as much as the header told.
unfoldable pub plain_body : (ℕ → Bool) → ℤ → List ℕ → Fetched
unfolding body_length
plain_body gives content_length s =
    let n = body_length content_length (length s) in
    if n == 0 then fetched [] else if gives n then fetched (take n s) else failed

unfoldable pub body_of : (ℕ → Bool) → BodyForm → List ℕ → Fetched
unfolding plain_body decode_body
body_of gives form s =
    if form.chunked then decode_body gives s else plain_body gives form.content_length s

unfoldable pub behind_header : (ℕ → Bool) → List ℕ → Option ℕ → Fetched
unfolding scan_headers body_of
behind_header gives raw none = failed
behind_header gives raw (some hdr_end) =
    body_of gives
      (scan_headers (hdr_end - 18) raw (record { chunked = false; content_length = negsuc 0 }))
      (drop hdr_end raw)

abbrev is_200 : ℤ → Bool
is_200 (pos n) = n == 200
is_200 (negsuc n) = false

-- `http_get` from the end of the connection on. `gives` answers the requests for memory.
unfoldable pub parse_response : (ℕ → Bool) → List ℕ → Fetched
unfolding status_of header_end behind_header
parse_response gives raw =
    if ltb (length raw) 12
    then failed
    else if is_200 (status_of raw)
    then behind_header gives raw (header_end 0 raw)
    else failed
