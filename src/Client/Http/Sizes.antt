-- ===== src/Client/Http/Sizes.antt =====
-- apps/thinclient/main.c: the line that a chunk starts with, as the client reads it.
use native.Mathlib.Nat.{pow-suc}
use remote_avapps.Base.{
  ℕ, zero, suc, ◌+◌, ◌*◌, ◌/◌, ◌%◌, ◌^◌, ◌≤◌, ◌<◌, ◌≡◌, ◌∙◌, refl, ap, ltb, arith, Bool, true,
  false, Bool-cases, inl, inr, List, [], ◌∷◌, ◌++◌, length, ◌==◌, ◌||◌,
}
use remote_avapps.Base.Text.{
  crlf, is_hex, hex_digit, hex_from, hex_char, hex_onto, format_hex, strtol16, long_max,
}
use remote_avapps.Client.Http.Chunked.{
  take_hex, skip_crlf, skip_line, Chunks, sized, size_line, chunk_turn,
}

-- Every byte is a hexadecimal digit.
abbrev pub AllHex : List ℕ → Type 0
AllHex [] = Unit {0}
AllHex (c ∷ s) = (is_hex c ≡ true) × AllHex s

hex_char_lem : (d : ℕ) → d < 16 → (is_hex (hex_char d) ≡ true) × (hex_digit (hex_char d) ≡ d)
unfolding hex_char hex_digit
hex_char_lem d h = ground arith

-- A size that is written is hexadecimal digits, no more than the fuel.
hex_onto_digits :
    (f n : ℕ) (s : List ℕ)
    → AllHex s
    → AllHex (hex_onto f n s) × (length (hex_onto f n s) ≤ f + length s)
unfolding hex_onto
hex_onto_digits zero n s h = (h, omega arith)
hex_onto_digits (suc f) n s h = elim (Bool-cases (ltb n 16)) [
  | inl small ↦ rw small (((hex_char_lem n (ground arith)).0, h), omega arith)
  | inr big ↦
      let (a, b) =
        hex_onto_digits f (n / 16) (hex_char (n % 16) ∷ s)
          ((hex_char_lem (n % 16) (omega arith)).0, h) in
      rw big (a, omega (arith, b))
]

-- Reading it back gives the number.
hex_from-hex_onto : (f n : ℕ) (s : List ℕ) → n < 16 ^ f → hex_from 0 (hex_onto f n s) ≡ hex_from n s
unfolding hex_onto hex_from
hex_from-hex_onto zero n s h = let e : n ≡ 0 = omega arith in rw e refl
hex_from-hex_onto (suc f) n s h = elim (Bool-cases (ltb n 16)) [
  | inl small ↦
      let e : 0 * 16 + hex_digit (hex_char n) ≡ n =
        omega (arith, (hex_char_lem n (ground arith)).1) in
      rw small (ap (λ k. hex_from k s) e)
  | inr big ↦
      let e : n / 16 * 16 + hex_digit (hex_char (n % 16)) ≡ n =
        omega (arith, (hex_char_lem (n % 16) (omega arith)).1) in
      let p : 16 ^ suc f ≡ 16 ^ f * 16 = pow-suc 16 f in
      rw big (
        hex_from-hex_onto f (n / 16) (hex_char (n % 16) ∷ s) (omega (arith, p))
        ∙ ap (λ k. hex_from k s) e)
]

-- The digits of a size are read up to the first byte that is none.
take_hex-append :
    (n : ℕ) (hex : List ℕ) (c : ℕ) (s : List ℕ)
    → AllHex hex
    → length hex ≤ n
    → is_hex c ≡ false
    → take_hex n (hex ++ c ∷ s) ≡ (hex, c ∷ s)
unfolding take_hex
take_hex-append zero [] c s h l e = refl
take_hex-append zero (x ∷ hex) c s h l e = absurd (omega arith)
take_hex-append (suc n) [] c s h l e = rw e refl
take_hex-append (suc n) (x ∷ hex) c s h l e =
    rw (h.0, take_hex-append n hex c s h.1 (omega arith) e) refl

skip_crlf-digits :
    (hex : List ℕ) (s : List ℕ) → AllHex hex → 0 < length hex → skip_crlf (hex ++ s) ≡ hex ++ s
unfolding skip_crlf
skip_crlf-digits [] s h l = absurd (omega arith)
skip_crlf-digits (c ∷ hex) s h l =
    let e : (c == 13 || c == 10) ≡ false = ground (arith, h.0) in rw e refl

-- A turn reads the size and goes on behind its line.
pub size_turn :
    (gives : ℕ → Bool) (buf : List ℕ) (cap : ℕ) (hex s : List ℕ)
    → AllHex hex
    → 0 < length hex
    → length hex ≤ 31
    → let st : Chunks = record { buf = buf; cap = cap; rest = hex ++ (crlf ++ s) } in
      chunk_turn gives st ≡ sized gives st s (strtol16 hex)
unfolding chunk_turn size_line skip_line
size_turn gives buf cap [] s h l m = absurd (omega arith)
size_turn gives buf cap (c ∷ hex) s h l m =
    rw
      (
        skip_crlf-digits (c ∷ hex) (crlf ++ s) h l,
        take_hex-append 31 (c ∷ hex) 13 (10 ∷ s) h m refl,
      )
      refl

hex_onto_some : (f n : ℕ) (s : List ℕ) → 0 < length (hex_onto (suc f) n s)
unfolding hex_onto
hex_onto_some zero n s = elim (Bool-cases (ltb n 16)) [
  | inl small ↦ rw small (omega arith)
  | inr big ↦ rw big (omega arith)
]
hex_onto_some (suc f) n s = elim (Bool-cases (ltb n 16)) [
  | inl small ↦ rw small (omega arith)
  | inr big ↦ rw big (hex_onto_some f (n / 16) (hex_char (n % 16) ∷ s))
]

-- The size that a chunk starts with.
pub format_hex_digits :
    (n : ℕ) → AllHex (format_hex n) × (0 < length (format_hex n)) × (length (format_hex n) ≤ 31)
unfolding format_hex
format_hex_digits n =
    let (a, b) = hex_onto_digits 16 n [] tt in (a, hex_onto_some 15 n [], omega (arith, b))

pub strtol16-format_hex : (n : ℕ) → n ≤ long_max → strtol16 (format_hex n) ≡ n
unfolding strtol16 format_hex
strtol16-format_hex n h =
    let e : hex_from 0 (hex_onto 16 n []) ≡ n = hex_from-hex_onto 16 n [] (omega arith) in
    rw e (omega arith)
