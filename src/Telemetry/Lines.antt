-- ===== src/Telemetry/Lines.antt =====
-- src/core/telemetry.c: the lines that wait in the ring.
use remote_avapps.Base.{
  ℕ, zero, suc, ◌+◌, ◌%◌, ◌<◌, ◌≤◌, ◌≡◌, ◌≢◌, refl, arith, sym, ap, ap₂, ◌∙◌, u16, u32, inl, inr,
  ◌⊎◌, List, [], ◌∷◌, ◌++◌, length, take, set, get_or, length-set, get_or-set_self, get_or-set_ne,
}
use remote_avapps.Base.Blocks.{
  store, take-store, tabulate, tabulate_ext, tabulate-suc, length-store,
}
use native.Mathlib.Decide.{ℕ_discrete}
use remote_avapps.Telemetry.{
  Telemetry, TlmSlot, empty, filled, ring_slots, slot_cap, no_line, slot_at, fill_line, put_line,
  drain,
}

-- The line of a slot.
abbrev pub line_of : TlmSlot → List ℕ
line_of s = take s.len s.buf

-- `n` lines wait, from the tail on: their slots are filled, the others are empty.
pub record Waiting (n : ℕ) (t : Telemetry) : Type 0 where
  pub size : length t.slots ≡ ring_slots
  pub tail_32 : t.tail < 4294967296
  pub head_at : t.head ≡ u32 (t.tail + n)
  pub few : n ≤ ring_slots
  pub full : (k : ℕ) → k < n → (slot_at t.slots (u32 (t.tail + k))).state ≡ filled
  pub rest : (k : ℕ) → n ≤ k → k < ring_slots → (slot_at t.slots (u32 (t.tail + k))).state ≡ empty
  pub bufs : (i : ℕ) → i < ring_slots → length (get_or t.slots i no_line).buf ≡ slot_cap

abbrev pub contents : ℕ → Telemetry → List (List ℕ)
contents n t = tabulate n (λ k. line_of (slot_at t.slots (u32 (t.tail + k))))

slot_at-set_ne :
    (slots : List TlmSlot) (a b : ℕ) (s : TlmSlot)
    → a % ring_slots ≢ b % ring_slots
    → slot_at (set slots (a % ring_slots) s) b ≡ slot_at slots b
slot_at-set_ne slots a b s h = get_or-set_ne slots (a % ring_slots) (b % ring_slots) s no_line h

slot_at-set_self :
    (slots : List TlmSlot) (a : ℕ) (s : TlmSlot)
    → length slots ≡ ring_slots
    → slot_at (set slots (a % ring_slots) s) a ≡ s
slot_at-set_self slots a s h = get_or-set_self slots (a % ring_slots) s no_line (omega (arith, h))

-- Cursors less than a round apart stand for different slots.
apart :
    (tail j k : ℕ)
    → tail < 4294967296
    → j < k
    → k < j + ring_slots
    → u32 (tail + j) % ring_slots ≢ u32 (tail + k) % ring_slots
apart tail j k h p q e = absurd (omega arith)

put_buf :
    (slots : List TlmSlot) (j : ℕ) (s : TlmSlot)
    → length slots ≡ ring_slots
    → length s.buf ≡ slot_cap
    → ((i : ℕ) → i < ring_slots → length (get_or slots i no_line).buf ≡ slot_cap)
    → (i : ℕ) → i < ring_slots
    → length (get_or (set slots j s) i no_line).buf ≡ slot_cap
put_buf slots j s size e h i p = elim (ℕ_discrete j i) [
  | yes q ↦
      ap (λ (x : TlmSlot). length x.buf)
        (ap (λ k. get_or (set slots j s) k no_line) (sym q)
          ∙ get_or-set_self slots j s no_line (omega (arith, size, q)))
      ∙ e
  | no q ↦ ap (λ (x : TlmSlot). length x.buf) (get_or-set_ne slots j i s no_line q) ∙ h i p
]

-- The ring after a line was put at the end of `n` lines that wait.
abbrev added : ℕ → Telemetry → List ℕ → Telemetry
added n t line = record t {
  head = u32 (u32 (t.tail + n) + 1);
  slots =
      set t.slots (u32 (t.tail + n) % ring_slots)
        (fill_line line (slot_at t.slots (u32 (t.tail + n))));
}

module _ (n : ℕ) (t : Telemetry) (line : List ℕ) (w : Waiting n t) (room : n < ring_slots)
    (short : length line < slot_cap) where
  put_line-added : put_line t line ≡ added n t line
  unfolding put_line
  put_line-added = rw (w.head_at, w.rest n (omega arith) room) refl

  old_slot :
      (k : ℕ)
      → k ≢ n
      → k < ring_slots
      → slot_at (added n t line).slots (u32 (t.tail + k)) ≡ slot_at t.slots (u32 (t.tail + k))
  old_slot k h p =
      slot_at-set_ne t.slots (u32 (t.tail + n)) (u32 (t.tail + k)) _ (differ (lt_or_gt k n))
    where
      lt_or_gt : (a b : ℕ) → (a < b) ⊎ (b ≤ a)
      lt_or_gt a b = ground arith

      differ : (k < n) ⊎ (n ≤ k) → u32 (t.tail + n) % ring_slots ≢ u32 (t.tail + k) % ring_slots
      differ (inl q) e = apart t.tail k n w.tail_32 q (omega arith) (sym e)
      differ (inr q) e =
          let above : n < k = ground (arith, q) in apart t.tail n k w.tail_32 above (omega arith) e

  new_slot :
      slot_at (added n t line).slots (u32 (t.tail + n))
      ≡ fill_line line (slot_at t.slots (u32 (t.tail + n)))
  new_slot = slot_at-set_self t.slots (u32 (t.tail + n)) _ w.size

  added-Waiting : Waiting (n + 1) (added n t line)
  unfolding fill_line
  added-Waiting = record {
    size = length-set t.slots _ _ ∙ w.size;
    tail_32 = w.tail_32;
    head_at = omega arith;
    few = omega arith;
    full = λ k p. elim (ℕ_discrete k n) [
      | yes q ↦
          ap (λ j. (slot_at (added n t line).slots (u32 (t.tail + j))).state) q
          ∙ ap (λ (s : TlmSlot). s.state) new_slot
      | no q ↦
          let below : k < n = grind arith in
          ap (λ (s : TlmSlot). s.state) (old_slot k q (omega (arith, below, room))) ∙ w.full k below
    ];
    rest = λ k p q.
        let differs : k ≢ n = λ e. absurd (omega (arith, e, p)) in
        ap (λ (s : TlmSlot). s.state) (old_slot k differs q) ∙ w.rest k (omega (arith, p)) q;
    bufs =
        put_buf t.slots (u32 (t.tail + n) % ring_slots) _ w.size
          (length-store (slot_at t.slots (u32 (t.tail + n))).buf 0 line
            ∙ w.bufs (u32 (t.tail + n) % ring_slots) (omega arith))
          w.bufs;
  }

  added-contents : contents (n + 1) (added n t line) ≡ contents n t ++ (line ∷ [])
  unfolding fill_line
  added-contents =
      tabulate-suc n (λ k. line_of (slot_at (added n t line).slots (u32 (t.tail + k))))
      ∙ ap₂ (λ l x. l ++ (x ∷ []))
          (tabulate_ext n _ _ (λ i p.
            ap line_of (old_slot i (λ e. absurd (omega (arith, e, p))) (omega (arith, p, room)))))
          (ap line_of new_slot ∙ copied)
    where
      copied :
          take (u16 (length line)) (store (slot_at t.slots (u32 (t.tail + n))).buf 0 line) ≡ line
      copied =
          let size : u16 (length line) ≡ 0 + length line = omega (arith, short) in
          let held = w.bufs (u32 (t.tail + n) % ring_slots) (omega arith) in
          ap (λ k. take k (store (slot_at t.slots (u32 (t.tail + n))).buf 0 line)) size
          ∙ take-store (slot_at t.slots (u32 (t.tail + n))).buf 0 line (omega (arith, held, short))

-- A line that is put while fewer lines than slots wait goes to the end, and none is dropped.
pub put_line-contents :
    (n : ℕ) (t : Telemetry) (line : List ℕ)
    → Waiting n t
    → n < ring_slots
    → length line < slot_cap
    → Waiting (n + 1) (put_line t line)
      × (contents (n + 1) (put_line t line) ≡ contents n t ++ (line ∷ []))
      × ((put_line t line).dropped ≡ t.dropped)
put_line-contents n t line w room short =
    rw (put_line-added n t line w room short)
      (added-Waiting n t line w room short, added-contents n t line w room short, refl)

-- The ring after the line at the tail went out.
abbrev pub removed : Telemetry → Telemetry
removed t = record t {
  slots = set t.slots (t.tail % ring_slots) (record (slot_at t.slots t.tail) { state = empty });
  tail = u32 (t.tail + 1);
}

module _ (n : ℕ) (t : Telemetry) (w : Waiting (suc n) t) where
  moved : (k : ℕ) → u32 (u32 (t.tail + 1) + k) ≡ u32 (t.tail + suc k)
  moved k = omega arith

  pub here : u32 (t.tail + 0) ≡ t.tail
  here = omega (arith, w.tail_32)

  kept_slot :
      (k : ℕ)
      → suc k < ring_slots
      → slot_at (removed t).slots (u32 (u32 (t.tail + 1) + k))
        ≡ slot_at t.slots (u32 (t.tail + suc k))
  kept_slot k p =
      ap (slot_at (removed t).slots) (moved k)
      ∙ slot_at-set_ne t.slots t.tail (u32 (t.tail + suc k)) _ (λ e.
        apart t.tail 0 (suc k) w.tail_32 (omega arith) (omega (arith, p))
          (ap (λ j. j % ring_slots) here ∙ e))

  round : (k : ℕ) → suc k ≡ ring_slots → u32 (t.tail + suc k) % ring_slots ≡ t.tail % ring_slots
  round k e = omega (arith, e, w.tail_32)

  pub removed-Waiting : Waiting n (removed t)
  removed-Waiting = record {
    size = length-set t.slots _ _ ∙ w.size;
    tail_32 = omega arith;
    head_at = w.head_at ∙ sym (moved n);
    few = omega (arith, w.few);
    full = λ k p.
        ap (λ (s : TlmSlot). s.state) (kept_slot k (omega (arith, p, w.few)))
        ∙ w.full (suc k) (omega (arith, p));
    rest = λ k p q. elim (ℕ_discrete (suc k) ring_slots) [
      | yes e ↦
          ap (λ j. (get_or (removed t).slots j no_line).state)
            (ap (λ j. j % ring_slots) (moved k) ∙ round k e)
          ∙ ap (λ (s : TlmSlot). s.state) (slot_at-set_self t.slots t.tail _ w.size)
      | no e ↦
          let below : suc k < ring_slots = grind arith in
          ap (λ (s : TlmSlot). s.state) (kept_slot k below)
          ∙ w.rest (suc k) (omega (arith, p)) below
    ];
    bufs =
        put_buf t.slots (t.tail % ring_slots) _ w.size (w.bufs (t.tail % ring_slots) (omega arith))
          w.bufs;
  }

  removed-contents : contents (suc n) t ≡ line_of (slot_at t.slots t.tail) ∷ contents n (removed t)
  removed-contents =
      ap₂ (λ x l. x ∷ l) (ap (λ j. line_of (slot_at t.slots j)) here)
        (tabulate_ext n _ _ (λ i p. ap line_of (sym (kept_slot i (omega (arith, p, w.few))))))

-- The writer sends out the lines that wait, in their order, and leaves an empty ring.
pub drain-contents :
    (n : ℕ) (t : Telemetry)
    → Waiting n t
    → ((drain n t).0 ≡ contents n t) × Waiting 0 (drain n t).1 × ((drain n t).1.head ≡ t.head)
unfolding drain
drain-contents zero t w = (refl, w, refl)
drain-contents (suc n) t w =
    let at : (slot_at t.slots t.tail).state ≡ filled =
      ap (λ j. (slot_at t.slots j).state) (sym (here n t w)) ∙ w.full 0 (omega arith) in
    let (lines, waits, head) = drain-contents n (removed t) (removed-Waiting n t w) in
    rw at (
      ap (λ l. line_of (slot_at t.slots t.tail) ∷ l) lines ∙ sym (removed-contents n t w),
      waits,
      head,
    )
