-- ===== src/Base/Bits.antt =====
-- Facts on the bit operations at variables, from the digit recursion that they stand for.
use Prim.Native.Nat.{ℕ, zero, suc, ◌+◌, ◌-◌, ◌*◌, ◌/◌, ◌%◌, ◌^◌, ◌≤◌, ◌<◌, min, max}
use Prim.Native.Nat.{bit_and, bit_or, bit_xor, digits, bitwise, differ}
use Prim.Native.Nat.{bit_and-bitwise, bit_or-bitwise, bit_xor-bitwise}
use mathlib.Core.Path.{◌≡◌, refl, ap, sym, ◌∙◌}
use native.Mathlib.Nat.{pow-suc, one-le-pow, div-div-eq-div-mul}
use native.Mathlib.Omega.{arith}

-- What `digits` computes does not depend on its fuel, from the first number on.
module _ (rest : ℕ → ℕ) (digit : ℕ → ℕ → ℕ) where
  digits_fuel :
      (x y fuel more : ℕ)
      → x ≤ fuel
      → x ≤ more
      → digits rest digit fuel x y ≡ digits rest digit more x y
  digits_fuel zero y zero zero h k = refl
  digits_fuel zero y zero (suc more) h k = refl
  digits_fuel zero y (suc fuel) zero h k = refl
  digits_fuel zero y (suc fuel) (suc more) h k = refl
  digits_fuel (suc x) y zero more h k = absurd (omega arith)
  digits_fuel (suc x) y (suc fuel) zero h k = absurd (omega arith)
  digits_fuel (suc x) y (suc fuel) (suc more) h k =
      let halved = digits_fuel (suc x / 2) (y / 2) fuel more (omega arith) (omega arith) in
      omega (arith, halved)

  last_digit :
      (x y : ℕ)
      → bitwise rest digit (suc x) y
        ≡ digit (suc x % 2) (y % 2) + 2 * bitwise rest digit (suc x / 2) (y / 2)
  last_digit x y =
      let halved = digits_fuel (suc x / 2) (y / 2) x (suc x / 2) (omega arith) (omega arith) in
      omega (arith, halved)

pub bit_and_digit : (a b : ℕ) → bit_and a b ≡ bit_and (a / 2) (b / 2) * 2 + min (a % 2) (b % 2)
bit_and_digit zero b = simp bit_and-bitwise (omega arith)
bit_and_digit (suc a) b = simp bit_and-bitwise (omega (arith, last_digit (λ y. 0) min a b))

bit_or_digit : (a b : ℕ) → bit_or a b ≡ bit_or (a / 2) (b / 2) * 2 + max (a % 2) (b % 2)
bit_or_digit zero b = simp bit_or-bitwise (omega arith)
bit_or_digit (suc a) b = simp bit_or-bitwise (omega (arith, last_digit (λ y. y) max a b))

bit_xor_zero : (b : ℕ) → bit_xor 0 b ≡ b
bit_xor_zero b = simp bit_xor-bitwise

bit_xor_digit : (a b : ℕ) → bit_xor a b ≡ bit_xor (a / 2) (b / 2) * 2 + differ (a % 2) (b % 2)
bit_xor_digit zero b = rw (bit_xor_zero b, bit_xor_zero (b / 2)) (omega arith)
bit_xor_digit (suc a) b = simp bit_xor-bitwise (omega (arith, last_digit (λ y. y) differ a b))

shift_suc : (k q : ℕ) → q * 2 ^ suc k ≡ 2 * (q * 2 ^ k)
shift_suc k q = let scaled = ap (λ (t : ℕ). q * t) (pow-suc 2 k) in omega (arith, scaled)

-- `r | (q << k)` is a sum when `r` fits `k` bits.
pub bit_or_fields : (k q r : ℕ) → r < 2 ^ k → bit_or r (q * 2 ^ k) ≡ q * 2 ^ k + r
bit_or_fields zero q zero fits = simp bit_or-bitwise (omega arith)
bit_or_fields zero q (suc r) fits = absurd (omega arith)
bit_or_fields (suc k) q r fits = ground (
  arith,
  bit_or_digit r (q * 2 ^ suc k),
  shift_suc k q,
  pow-suc 2 k,
  bit_or_fields k q (r / 2) (omega (arith, pow-suc 2 k)),
)

bit_and_fields : (k q r : ℕ) → r < 2 ^ k → bit_and (q * 2 ^ k + r) (2 ^ k - 1) ≡ r
bit_and_fields zero q r fits = and_zero (q * 2 ^ 0 + r) (omega arith)
  where
    and_zero : (a : ℕ) → r ≡ 0 → bit_and a (2 ^ 0 - 1) ≡ r
    and_zero a e = go a a (omega arith) ∙ sym e
      where
        go : (n x : ℕ) → x ≤ n → bit_and x 0 ≡ 0
        go zero zero p = refl
        go zero (suc x) p = absurd (omega arith)
        go (suc n) x p = omega (arith, bit_and_digit x 0, go n (x / 2) (omega arith))
bit_and_fields (suc k) q r fits = ground (
  arith,
  bit_and_digit (q * 2 ^ suc k + r) (2 ^ suc k - 1),
  shift_suc k q,
  pow-suc 2 k,
  one-le-pow k 2,
  bit_and_fields k q (r / 2) (omega (arith, pow-suc 2 k)),
)

-- A mask of `k` ones is the remainder by `2 ^ k`.
pub bit_and_mask : (k a : ℕ) → bit_and a (2 ^ k - 1) ≡ a % 2 ^ k
bit_and_mask k a = ground (arith, one-le-pow k 2, bit_and_fields k (a / 2 ^ k) (a % 2 ^ k))

differ_bits : (x y : ℕ) → x < 2 → y < 2 → (differ x y < 2) × (differ (differ x y) y ≡ x)
differ_bits zero y p q = (q, self y q)
  where
    self : (z : ℕ) → z < 2 → differ z z ≡ 0
    self zero h = refl
    self (suc zero) h = refl
    self (suc (suc z)) h = absurd (omega arith)
differ_bits (suc zero) zero p q = (omega arith, refl)
differ_bits (suc zero) (suc zero) p q = (omega arith, refl)
differ_bits (suc zero) (suc (suc y)) p q = absurd (omega arith)
differ_bits (suc (suc x)) y p q = absurd (omega arith)

cancel_upto : (n a b : ℕ) → a ≤ n → b ≤ n → bit_xor (bit_xor a b) b ≡ a
cancel_upto zero zero zero p q = refl
cancel_upto zero zero (suc b) p q = absurd (omega arith)
cancel_upto zero (suc a) b p q = absurd (omega arith)
cancel_upto (suc n) a b p q = ground (
  arith,
  bit_xor_digit a b,
  bit_xor_digit (bit_xor a b) b,
  differ_bits (a % 2) (b % 2) (omega arith) (omega arith),
  cancel_upto n (a / 2) (b / 2) (omega arith) (omega arith),
)

-- Exclusive or with the same word twice gives the first word back.
pub bit_xor_cancel : (a b : ℕ) → bit_xor (bit_xor a b) b ≡ a
bit_xor_cancel a b = cancel_upto (a + b) a b (omega arith) (omega arith)

comm_upto : (n a b : ℕ) → a ≤ n → b ≤ n → bit_xor a b ≡ bit_xor b a
comm_upto zero zero zero p q = refl
comm_upto zero zero (suc b) p q = absurd (omega arith)
comm_upto zero (suc a) b p q = absurd (omega arith)
comm_upto (suc n) a b p q = ground (
  arith,
  bit_xor_digit a b,
  bit_xor_digit b a,
  differ_comm (a % 2) (b % 2),
  comm_upto n (a / 2) (b / 2) (omega arith) (omega arith),
)
  where
    differ_comm : (x y : ℕ) → differ x y ≡ differ y x
    differ_comm zero zero = refl
    differ_comm zero (suc y) = refl
    differ_comm (suc x) zero = refl
    differ_comm (suc x) (suc y) = differ_comm x y

pub bit_xor_comm : (a b : ℕ) → bit_xor a b ≡ bit_xor b a
bit_xor_comm a b = comm_upto (a + b) a b (omega arith) (omega arith)

-- Exclusive or keeps words of `k` bits within `k` bits.
pub bit_xor-lt : (k a b : ℕ) → a < 2 ^ k → b < 2 ^ k → bit_xor a b < 2 ^ k
bit_xor-lt zero zero zero p q = p
bit_xor-lt zero zero (suc b) p q = absurd (omega arith)
bit_xor-lt zero (suc a) b p q = absurd (omega arith)
bit_xor-lt (suc k) a b p q = omega (
  arith,
  bit_xor_digit a b,
  pow-suc 2 k,
  differ_bits (a % 2) (b % 2) (omega arith) (omega arith),
  bit_xor-lt k (a / 2) (b / 2) (omega (arith, pow-suc 2 k)) (omega (arith, pow-suc 2 k)),
)

and_none : (n x : ℕ) → x ≤ n → bit_and x 0 ≡ 0
and_none zero zero p = refl
and_none zero (suc x) p = absurd (omega arith)
and_none (suc n) x p = omega (arith, bit_and_digit x 0, and_none n (x / 2) (omega arith))

-- A mask of one bit picks that binary digit.
pub bit_and_high : (k a : ℕ) → bit_and a (2 ^ k) ≡ a / 2 ^ k % 2 * 2 ^ k
bit_and_high zero a = omega (arith, bit_and_digit a 1, and_none (a / 2) (a / 2) (omega arith))
bit_and_high (suc k) a =
    let doubled : 2 ^ suc k ≡ 2 * 2 ^ k = omega (arith, pow-suc 2 k) in
    let halved : a / 2 / 2 ^ k ≡ a / 2 ^ suc k =
      div-div-eq-div-mul a 2 (2 ^ k) ∙ ap (λ t. a / t) (sym doubled) in
    ground (
      arith,
      doubled,
      halved,
      bit_and_digit a (2 ^ suc k),
      bit_and_high k (a / 2),
      one-le-pow k 2,
      ap (λ (t : ℕ). a / 2 ^ suc k % 2 * t) doubled,
      ap (λ (t : ℕ). t % 2 * 2 ^ k) halved,
    )

self_upto : (n a : ℕ) → a ≤ n → bit_and a a ≡ a
self_upto zero zero p = refl
self_upto zero (suc a) p = absurd (omega arith)
self_upto (suc n) a p = omega (arith, bit_and_digit a a, self_upto n (a / 2) (omega arith))

pub bit_and_self : (a : ℕ) → bit_and a a ≡ a
bit_and_self a = self_upto a a (omega arith)
