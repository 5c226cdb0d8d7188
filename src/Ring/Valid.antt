-- ===== src/Ring/Valid.antt =====
-- src/core/ringbuf.c: the representation invariant of the ring, what it says of the masked offsets,
-- and that `vmc_ringbuf_init` accepts powers of two only.
use remote_avapps.Base.{
  ℕ, zero, suc, ◌+◌, ◌-◌, ◌/◌, ◌%◌, ◌^◌, ◌<◌, ◌≤◌, ◌≡◌, ◌≢◌, ◌↔◌, refl, sym, arith, true, bit_and,
  u64, sub64, List, length, some, ap, ap₂, ◌∙◌,
}
use remote_avapps.Base.Bits.{bit_and_mask, bit_and_digit, bit_and_self}
use Prim.Native.Nat.{◌∣◌}
use native.Mathlib.Nat.{
  pow-suc, pow-le-pow_right, one-le-pow, dvd_refl, dvd-mul_right_of_dvd, mod-mod_of_dvd, mod_self,
}
use native.Mathlib.Decide.{dec_lt}
use remote_avapps.Status.{ok}
use remote_avapps.Ring.{RingBuf, rb_mask, is_pow2_or_zero, init, capacity, free}

-- The capacity is a power of two that the storage holds, and the head runs `count` bytes ahead of
-- the tail, round the range of `sz_t`.
pub record IsValid (rb : RingBuf) : Type 0 where
  pub bits : ℕ
  pub bits_small : bits < 64
  pub power : rb.mask + 1 ≡ 2 ^ bits
  pub storage : rb.mask + 1 ≤ length rb.bytes
  pub count_in : rb.count ≤ rb.mask + 1
  pub head_ahead : rb.head ≡ u64 (rb.tail + rb.count)

pow-dvd-pow : (k n : ℕ) → k ≤ n → 2 ^ k ∣ 2 ^ n
pow-dvd-pow zero zero h = dvd_refl (2 ^ 0)
pow-dvd-pow (suc k) zero h = absurd (omega arith)
pow-dvd-pow k (suc n) h = elim (dec_lt k (suc n)) [
  | yes p ↦ rw (pow-suc 2 n) (dvd-mul_right_of_dvd (2 ^ k) (pow-dvd-pow k n (omega arith)) 2)
  | no p ↦ let e : k ≡ suc n = omega arith in rw e (dvd_refl (2 ^ suc n))
]

module _ (rb : RingBuf) (v : IsValid rb) where
  pub cap_small : rb.mask + 1 ≤ 2 ^ 63
  cap_small =
      let below : v.bits ≤ 63 = omega (arith, v) in
      omega (arith, v.power, pow-le-pow_right {n = 2} (omega arith) below)

  pub capacity_lem : capacity rb ≡ rb.mask + 1
  unfolding capacity
  capacity_lem = omega (arith, cap_small)

  pub free_lem : free rb ≡ rb.mask + 1 - rb.count
  unfolding free
  free_lem = omega (arith, capacity_lem, cap_small, v)

  -- Masking an offset is the remainder by the capacity.
  pub rb_mask_lem : (x : ℕ) → rb_mask rb x ≡ x % (rb.mask + 1)
  unfolding rb_mask
  rb_mask_lem x =
      let e : rb.mask ≡ 2 ^ v.bits - 1 = omega (arith, v.power) in
      ap (bit_and x) e ∙ bit_and_mask v.bits x ∙ ap (λ m. x % m) (sym v.power)

  -- The wrap of `sz_t` does not disturb it.
  pub u64-mod : (x : ℕ) → u64 x % (rb.mask + 1) ≡ x % (rb.mask + 1)
  u64-mod x = mod-mod_of_dvd (rb.mask + 1) x (rw v.power (pow-dvd-pow v.bits 64 (omega (arith, v))))

-- A number that has no binary digit in common with its predecessor is a power of two.
power_upto : (fuel n : ℕ) → n ≤ fuel → 0 < n → bit_and n (n - 1) ≡ 0 → (k : ℕ) × (n ≡ 2 ^ k)
power_upto zero n h p e = absurd (omega arith)
power_upto (suc fuel) n h p e = elim (dec_lt 0 (n % 2)) [
  | yes odd ↦
      let same : (n - 1) / 2 ≡ n / 2 = omega arith in
      let halves : bit_and (n / 2) ((n - 1) / 2) ≡ n / 2 =
        ap (bit_and (n / 2)) same ∙ bit_and_self (n / 2) in
      (0, omega (arith, bit_and_digit n (n - 1), halves))
  | no even ↦
      let same : (n - 1) / 2 ≡ n / 2 - 1 = omega arith in
      let halves : bit_and (n / 2) ((n - 1) / 2) ≡ bit_and (n / 2) (n / 2 - 1) =
        ap (bit_and (n / 2)) same in
      let d : bit_and (n / 2) (n / 2 - 1) ≡ 0 = omega (arith, bit_and_digit n (n - 1), halves) in
      let (k, q) = power_upto fuel (n / 2) (omega arith) (omega arith) d in
      (suc k, omega (arith, pow-suc 2 k))
]

power_tested : (k : ℕ) → (2 ^ k ≢ 0) × (bit_and (2 ^ k) (2 ^ k - 1) ≡ 0)
power_tested k = (omega (arith, one-le-pow k 2), bit_and_mask k (2 ^ k) ∙ mod_self (2 ^ k))

pow2_of_test : (n : ℕ) → n < 2 ^ 64 → is_pow2_or_zero n ≡ true → (k : ℕ) × (n ≡ 2 ^ k)
unfolding is_pow2_or_zero
pow2_of_test n small h =
    let nonzero : 0 < n = ground arith in
    let less : sub64 n 1 ≡ n - 1 = omega arith in
    let clear : bit_and n (sub64 n 1) ≡ 0 = ground arith in
    power_upto n n (omega arith) nonzero (ap (bit_and n) (sym less) ∙ clear)

test_of_pow2 : (n k : ℕ) → n < 2 ^ 64 → n ≡ 2 ^ k → is_pow2_or_zero n ≡ true
unfolding is_pow2_or_zero
test_of_pow2 n k small e =
    let less : sub64 n 1 ≡ n - 1 = omega (arith, power_tested k) in
    let clear : bit_and n (sub64 n 1) ≡ 0 =
      ap (bit_and n) less ∙ ap₂ (λ a b. bit_and a (b - 1)) e e ∙ (power_tested k).1 in
    ground (arith, power_tested k)

-- `is_pow2_or_zero` holds exactly of the powers of two (and not of zero, in spite of its name).
pub is_pow2_or_zero_iff :
    (n : ℕ) → n < 2 ^ 64 → (is_pow2_or_zero n ≡ true) ↔ ((k : ℕ) × (n ≡ 2 ^ k))
is_pow2_or_zero_iff n small = (pow2_of_test n small, λ p. test_of_pow2 n p.0 small p.1)

below_64 : (k n : ℕ) → n < 2 ^ 64 → n ≡ 2 ^ k → k < 64
below_64 k n small e = elim (dec_lt k 64) [
  | yes p ↦ p
  | no p ↦
      let above : 64 ≤ k = omega arith in
      absurd (omega (arith, pow-le-pow_right {n = 2} (omega arith) above))
]

-- With storage for a capacity that is a `sz_t`, what `vmc_ringbuf_init` accepts is a valid and
-- empty ring of that capacity.
pub ring_init-IsValid :
    (rb : RingBuf) (storage : List ℕ) (cap : ℕ)
    → cap < 2 ^ 64
    → cap ≤ length storage
    → (init rb (some storage) cap).0 ≡ ok
    → IsValid (init rb (some storage) cap).1
      × (capacity (init rb (some storage) cap).1 ≡ cap)
      × ((init rb (some storage) cap).1.count ≡ 0)
ring_init-IsValid rb storage cap small fits e =
    let test : is_pow2_or_zero cap ≡ true = unfold init in ground arith in
    let (k, q) = pow2_of_test cap small test in
    let less : sub64 cap 1 + 1 ≡ cap = omega (arith, one-le-pow k 2) in
    unfold init in
    rw test (
      (record {
        bits = k;
        bits_small = below_64 k cap small q;
        power = less ∙ q;
        storage = omega (arith, less);
        count_in = omega (arith, less);
        head_ahead = refl;
      }),
      unfold capacity in omega (arith, less),
      refl,
    )
