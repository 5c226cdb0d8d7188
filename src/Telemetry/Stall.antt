-- ===== src/Telemetry/Stall.antt =====
-- src/core/telemetry.c: what follows a line that was dropped because the ring was full.
use remote_avapps.Base.{
  ℕ, zero, suc, ◌+◌, ◌%◌, ◌<◌, ◌≡◌, refl, arith, sym, ap, ◌∙◌, u32, u64, sub32, Bool-cases, inl,
  inr, List, [], ◌∷◌, length, get_or-set_ne, take, get_or,
}
use remote_avapps.Telemetry.{
  Telemetry, TlmSlot, empty, filled, ring_slots, is_empty, is_filled, slot_at, no_line, put_line,
  drain, drain_all,
}
use remote_avapps.Telemetry.Lines.{
  Waiting, contents, removed, removed-Waiting, drain-contents, here,
}

-- Lines that are put one after the other.
abbrev pub put_all : Telemetry → List (List ℕ) → Telemetry
put_all t [] = t
put_all t (line ∷ lines) = put_all (put_line t line) lines

-- The slot at the tail is empty, although `k + 1` cursors lie before the head.
pub record Stalled (k : ℕ) (t : Telemetry) : Type 0 where
  pub tail_32 : t.tail < 4294967296
  pub head_at : t.head ≡ u32 (t.tail + suc k)
  pub nothing : (slot_at t.slots t.tail).state ≡ empty

-- The writer waits for the slot at the tail.
drain-Stalled : (n k : ℕ) (t : Telemetry) → Stalled k t → drain n t ≡ ([], t)
unfolding drain
drain-Stalled zero k t s = refl
drain-Stalled (suc n) k t s = rw s.nothing refl

-- A line does not go to the slot at the tail before the head has come round.
put_line-Stalled :
    (k : ℕ) (t : Telemetry) (line : List ℕ)
    → Stalled k t
    → suc k < ring_slots
    → Stalled (suc k) (put_line t line)
unfolding put_line
put_line-Stalled k t line s room = elim (Bool-cases (is_empty (slot_at t.slots t.head).state)) [
  | inl e ↦ rw e (record {
    tail_32 = s.tail_32;
    head_at = omega (arith, s.head_at);
    nothing =
        ap (λ (x : TlmSlot). x.state)
          (get_or-set_ne t.slots (t.head % ring_slots) (t.tail % ring_slots) _ no_line
            (λ q. absurd (omega (arith, q, s.head_at, s.tail_32, room))))
        ∙ s.nothing;
  })
  | inr e ↦
      rw e (record { tail_32 = s.tail_32; head_at = omega (arith, s.head_at); nothing = s.nothing })
]

put_all-Stalled :
    (k : ℕ) (t : Telemetry) (lines : List (List ℕ))
    → Stalled k t
    → k + length lines < ring_slots
    → (drain_all (put_all t lines)).0 ≡ []
unfolding drain_all
put_all-Stalled k t [] s room =
    ap (λ (r : List (List ℕ) × Telemetry). r.0) (drain-Stalled (sub32 t.head t.tail) k t s)
put_all-Stalled k t (line ∷ lines) s room =
    put_all-Stalled (suc k) (put_line t line) lines
      (put_line-Stalled k t line s (omega (arith, room))) (omega (arith, room))

-- The head and the count of drops, as a dropped line leaves them.
abbrev skipped : Telemetry → Telemetry
skipped t = record t { head = u32 (t.head + 1); dropped = u64 (t.dropped + 1) }

drain-skipped :
    (n : ℕ) (t : Telemetry) → drain n (skipped t) ≡ ((drain n t).0, skipped (drain n t).1)
unfolding drain
drain-skipped zero t = refl
drain-skipped (suc n) t = elim (Bool-cases (is_filled (slot_at t.slots t.tail).state)) [
  | inl e ↦ rw e (
      ap
        (λ (r : List (List ℕ) × Telemetry).
          ((take (slot_at t.slots t.tail).len (slot_at t.slots t.tail).buf ∷ r.0), r.1))
        (drain-skipped n (removed t)))
  | inr e ↦ rw e refl
]

-- Beyond the lines that wait there is nothing for the writer.
drain_extra : (n : ℕ) (t : Telemetry) → Waiting n t → drain (suc n) t ≡ drain n t
unfolding drain
drain_extra zero t w =
    rw
      (ap (λ j. (slot_at t.slots j).state) (sym (at_tail t w))
        ∙ w.rest 0 (omega arith) (omega arith))
      refl
  where
    at_tail : (t : Telemetry) → Waiting 0 t → u32 (t.tail + 0) ≡ t.tail
    at_tail t w = omega (arith, w.tail_32)
drain_extra (suc n) t w =
    let at : (slot_at t.slots t.tail).state ≡ filled =
      ap (λ j. (slot_at t.slots j).state) (sym (here n t w)) ∙ w.full 0 (omega arith) in
    rw at (
      ap
        (λ (r : List (List ℕ) × Telemetry).
          (take (slot_at t.slots t.tail).len (slot_at t.slots t.tail).buf ∷ r.0, r.1))
        (drain_extra n (removed t) (removed-Waiting n t w)))

skipped-Stalled : (d : Telemetry) → Waiting 0 d → Stalled 0 (skipped d)
skipped-Stalled d w = record {
  tail_32 = w.tail_32;
  head_at = omega (arith, w.head_at);
  nothing =
      ap (λ j. (slot_at d.slots j).state) (omega (arith, w.tail_32))
      ∙ w.rest 0 (omega arith) (omega arith);
}

put_line-skipped :
    (n : ℕ) (t : Telemetry) (line : List ℕ)
    → n ≡ ring_slots
    → Waiting n t
    → put_line t line ≡ skipped t
unfolding put_line
put_line-skipped n t line e w =
    let round : t.head % ring_slots ≡ u32 (t.tail + 0) % ring_slots = omega (arith, w.head_at, e) in
    let full : (slot_at t.slots t.head).state ≡ filled =
      ap (λ j. (get_or t.slots j no_line).state) round ∙ w.full 0 (omega (arith, e)) in
    rw full refl

drain_all-skipped :
    (n : ℕ) (t : Telemetry)
    → n ≡ ring_slots
    → Waiting n t
    → drain_all (skipped t) ≡ ((drain n t).0, skipped (drain n t).1)
unfolding drain_all
drain_all-skipped n t e w =
    let turns : sub32 (u32 (t.head + 1)) t.tail ≡ suc n = omega (arith, w.head_at, w.tail_32, e) in
    ap (λ k. drain k (skipped t)) turns
    ∙ drain-skipped (suc n) t
    ∙ ap (λ (r : List (List ℕ) × Telemetry). (r.0, skipped r.1)) (drain_extra n t w)

-- A line is put while as many lines wait as the ring has slots, and then the writer runs: it sends
-- out the lines that waited, and one line is counted as dropped. Of the lines that are put next,
-- fewer than the ring has slots, the writer sends out none: it waits at the slot that was skipped.
pub drain-overflow :
    (n : ℕ) (t : Telemetry) (line : List ℕ) (more : List (List ℕ))
    → n ≡ ring_slots
    → Waiting n t
    → length more < ring_slots
    → let (lines, t1) = drain_all (put_line t line) in
      (lines ≡ contents n t)
      × (t1.dropped ≡ u64 ((drain n t).1.dropped + 1))
      × ((drain_all (put_all t1 more)).0 ≡ [])
drain-overflow n t line more e w few =
    let (lines, waits, head) = drain-contents n t w in
    rw (put_line-skipped n t line e w, drain_all-skipped n t e w)
      (
        lines,
        refl,
        put_all-Stalled 0 (skipped (drain n t).1) more (skipped-Stalled _ waits)
            (omega (arith, few)),
      )
