-- ===== src/Client/Timeline/Clock.antt =====
-- apps/thinclient/main.c: the clock of the presentation and the order of the deadlines.
use remote_avapps.Base.{ℕ, ◌+◌, ◌≤◌, arith}
use native.Mathlib.Nat.{mul-le-mul_right}
use remote_avapps.Base.Int.{ℤ, pos, pos_part, neg_part, ◌+ℤ◌, ◌*ℤ◌}
use remote_avapps.Client.Timeline.{
  Timeline, clamp, frame_period_us, base_us, segment_offset, au_deadline,
}

-- The order of the integers.
abbrev le : ℤ → ℤ → Type 0
le c d = pos_part c + neg_part d ≤ pos_part d + neg_part c

clamp_mono : (c d : ℤ) → le c d → clamp c ≤ clamp d
unfolding clamp
clamp_mono c d h = ground arith

add_left : (b c d : ℤ) → le c d → le (b +ℤ c) (b +ℤ d)
add_left b c d h = ground arith

add_right : (c d a : ℤ) → le c d → le (c +ℤ a) (d +ℤ a)
add_right c d a h = ground arith

times_mono : (i k p : ℕ) → i ≤ k → le (pos i *ℤ pos p) (pos k *ℤ pos p)
times_mono i k p h = let scaled = mul-le-mul_right p h in ground (arith, scaled)

-- The deadlines of the frames of a segment are in the order of the frames.
pub au_deadline_mono :
    (t : Timeline) (seg : ℤ) (i k : ℕ)
    → i ≤ k
    → au_deadline t seg (pos i) ≤ au_deadline t seg (pos k)
unfolding au_deadline
au_deadline_mono t seg i k h =
    let at : ℕ → ℤ = λ n. pos n *ℤ pos (frame_period_us t) in
    let offset : ℤ = pos (segment_offset t seg) in
    let adj = t.timeline_adj_us in
    let framed = add_left offset (at i) (at k) (times_mono i k (frame_period_us t) h) in
    let adjusted = add_right (offset +ℤ at i) (offset +ℤ at k) adj framed in
    let low : ℤ = offset +ℤ at i +ℤ adj in
    let high : ℤ = offset +ℤ at k +ℤ adj in
    clamp_mono (base_us t +ℤ low) (base_us t +ℤ high) (add_left (base_us t) low high adjusted)
