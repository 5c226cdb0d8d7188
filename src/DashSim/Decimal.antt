-- ===== src/DashSim/Decimal.antt =====
-- tools/vmc-dash-sim/main.c and apps/thinclient/main.c: a length in decimal digits, as the server
-- writes it and the client reads it.
use native.Mathlib.Nat.{pow-suc}
use remote_avapps.Base.{
  ℕ, zero, suc, ◌+◌, ◌-◌, ◌*◌, ◌/◌, ◌%◌, ◌^◌, ◌≤◌, ◌<◌, ◌≡◌, ◌∙◌, refl, ap, ltb, ◌==◌, leb, arith,
  true, false, ◌&&◌, ◌||◌, Bool-cases, inl, inr, List, [], ◌∷◌, ◌++◌, length,
}
use remote_avapps.Base.Int.{pos}
use remote_avapps.Base.Text.{is_decimal, decimal_from, decimal_onto, format_decimal, long_max}
use remote_avapps.Client.Http.Response.{strtol10, header_value}

abbrev pub AllDecimal : List ℕ → Type 0
AllDecimal [] = Unit {0}
AllDecimal (c ∷ s) = (is_decimal c ≡ true) × AllDecimal s

decimal_onto_digits : (f n : ℕ) (s : List ℕ) → AllDecimal s → AllDecimal (decimal_onto f n s)
unfolding decimal_onto
decimal_onto_digits zero n s h = h
decimal_onto_digits (suc f) n s h = elim (Bool-cases (ltb n 10)) [
  | inl small ↦ rw small (ground arith, h)
  | inr big ↦ rw big (decimal_onto_digits f (n / 10) ((n % 10 + 48) ∷ s) (ground arith, h))
]

decimal_onto-le :
    (f k n : ℕ) (s : List ℕ) → n < 10 ^ suc k → length (decimal_onto f n s) ≤ suc k + length s
unfolding decimal_onto
decimal_onto-le zero k n s h = omega arith
decimal_onto-le (suc f) zero n s h = let e : ltb n 10 ≡ true = ground arith in rw e (omega arith)
decimal_onto-le (suc f) (suc k) n s h = elim (Bool-cases (ltb n 10)) [
  | inl small ↦ rw small (omega arith)
  | inr big ↦ rw big (
      omega (
        arith,
        decimal_onto-le f k (n / 10) ((n % 10 + 48) ∷ s) (omega (arith, h, pow-suc 10 (suc k))),
      ))
]

decimal_from-onto :
    (f n : ℕ) (s t : List ℕ)
    → n < 10 ^ f
    → decimal_from 0 (decimal_onto f n s ++ t) ≡ decimal_from n (s ++ t)
unfolding decimal_onto decimal_from
decimal_from-onto zero n s t h = let e : n ≡ 0 = omega arith in rw e refl
decimal_from-onto (suc f) n s t h = elim (Bool-cases (ltb n 10)) [
  | inl small ↦
      let d : is_decimal (n + 48) ≡ true = ground arith in
      let e : 0 * 10 + (n + 48 - 48) ≡ n = omega arith in
      rw (small, d) (ap (λ k. decimal_from k (s ++ t)) e)
  | inr big ↦
      let d : is_decimal (n % 10 + 48) ≡ true = ground arith in
      let e : n / 10 * 10 + (n % 10 + 48 - 48) ≡ n = omega arith in
      rw big (
        decimal_from-onto f (n / 10) ((n % 10 + 48) ∷ s) t (omega (arith, h, pow-suc 10 f))
        ∙ rw d (ap (λ k. decimal_from k (s ++ t)) e))
]

decimal_onto_some : (f n : ℕ) (s : List ℕ) → 0 < length (decimal_onto (suc f) n s)
unfolding decimal_onto
decimal_onto_some zero n s = elim (Bool-cases (ltb n 10)) [
  | inl small ↦ rw small (omega arith)
  | inr big ↦ rw big (omega arith)
]
decimal_onto_some (suc f) n s = elim (Bool-cases (ltb n 10)) [
  | inl small ↦ rw small (omega arith)
  | inr big ↦ rw big (decimal_onto_some f (n / 10) ((n % 10 + 48) ∷ s))
]

-- Digits behind a space are read as the number they stand for.
digits_value :
    (left : ℕ) (d s : List ℕ) (n : ℕ)
    → 2 ≤ left
    → n ≤ long_max
    → AllDecimal d
    → 0 < length d
    → decimal_from 0 (d ++ s) ≡ n
    → strtol10 (header_value left (32 ∷ (d ++ s))) ≡ pos n
unfolding header_value strtol10
digits_value left [] s n h m a l e = absurd (omega arith)
digits_value zero (c ∷ d) s n h m a l e = absurd (omega arith)
digits_value (suc zero) (c ∷ d) s n h m a l e = absurd (omega arith)
digits_value (suc (suc left)) (c ∷ d) s n h m a l e =
    let sep : (c == 32 || c == 9 || c == 58) ≡ false = ground (arith, a.0) in
    let space : (c == 32 || leb 9 c && leb c 13) ≡ false = ground (arith, a.0) in
    let minus : (c == 45) ≡ false = ground (arith, a.0) in
    let plus : (c == 43) ≡ false = ground (arith, a.0) in
    rw (sep, space, minus, plus, e) (ap pos (omega (arith, m)))

pub format_decimal-le : (n : ℕ) → n < 10 ^ 13 → length (format_decimal n) ≤ 13
unfolding format_decimal
format_decimal-le n h = omega (arith, decimal_onto-le 20 12 n [] h)

pub format_decimal_digits : (n : ℕ) → AllDecimal (format_decimal n)
unfolding format_decimal
format_decimal_digits n = decimal_onto_digits 20 n [] tt

-- The client reads the length that is told.
pub told_value :
    (left n : ℕ) (s : List ℕ)
    → 2 ≤ left
    → n ≤ long_max
    → strtol10 (header_value left (32 ∷ (format_decimal n ++ 13 ∷ s))) ≡ pos n
unfolding format_decimal decimal_from
told_value left n s h m =
    digits_value left (decimal_onto 20 n []) (13 ∷ s) n h m (decimal_onto_digits 20 n [] tt)
      (decimal_onto_some 19 n []) (decimal_from-onto 20 n [] (13 ∷ s) (omega arith))
