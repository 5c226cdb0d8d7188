-- ===== src/Ring/Contents.antt =====
-- src/core/ringbuf.c: the bytes that a ring holds, oldest first, and where they lie.
use remote_avapps.Base.{
  ℕ, ◌+◌, ◌-◌, ◌%◌, ◌<◌, ◌≤◌, ◌≡◌, sym, arith, ltb, if◌then◌else◌, List, ap, ◌∙◌,
}
use native.Mathlib.Nat.{mod-eq_of_lt, mod-eq-sub-mod, mod-add-mod, mod-lt}
use native.Mathlib.Decide.{dec_lt}
use remote_avapps.Base.Blocks.{tabulate}
use remote_avapps.Wire.{byte_at}
use remote_avapps.Ring.{RingBuf, rb_mask, room_from}
use remote_avapps.Ring.Valid.{IsValid, cap_small, capacity_lem, rb_mask_lem, u64-mod}

-- The place of the `i`th byte that is held.
abbrev pub place : RingBuf → ℕ → ℕ
place rb i = (rb.tail + i) % (rb.mask + 1)

abbrev pub contents : RingBuf → List ℕ
contents rb = tabulate rb.count (λ i. byte_at rb.bytes (place rb i))

-- A number below twice the modulus.
pub wrap_once : (a m : ℕ) → a < m + m → a % m ≡ (if ltb a m then a else a - m)
wrap_once a m h = elim (dec_lt a m) [
  | yes p ↦ ground (arith, mod-eq_of_lt p)
  | no p ↦
      let above : m ≤ a = omega arith in
      let below : a - m < m = omega arith in
      ground (arith, mod-eq-sub-mod above, mod-eq_of_lt below)
]

module _ (rb : RingBuf) (v : IsValid rb) where
  -- The place of the oldest byte.
  pub start : ℕ
  start = rb.tail % (rb.mask + 1)

  pub start-lt : start < rb.mask + 1
  unfolding start
  start-lt = mod-lt rb.tail (omega arith)

  pub place_lem :
      (i : ℕ)
      → i ≤ rb.mask + 1
      → place rb i
        ≡ (if ltb (start + i) (rb.mask + 1) then start + i else start + i - (rb.mask + 1))
  unfolding start
  place_lem i h =
      sym (mod-add-mod rb.tail (rb.mask + 1) i)
      ∙ wrap_once (rb.tail % (rb.mask + 1) + i) (rb.mask + 1) (omega (arith, start-lt))

  -- The masked head is the place behind the newest byte, and the masked tail that of the oldest.
  pub head_place : rb_mask rb rb.head ≡ place rb rb.count
  head_place =
      rb_mask_lem rb v rb.head
      ∙ ap (λ x. x % (rb.mask + 1)) v.head_ahead
      ∙ u64-mod rb v (rb.tail + rb.count)

  pub tail_place : rb_mask rb rb.tail ≡ start
  unfolding start
  tail_place = rb_mask_lem rb v rb.tail

  pub room_from_lem :
      (x : ℕ) → rb_mask rb x < rb.mask + 1 → room_from rb x ≡ rb.mask + 1 - rb_mask rb x
  unfolding room_from
  room_from_lem x h = omega (arith, capacity_lem rb v, cap_small rb v)
