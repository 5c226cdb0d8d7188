-- ===== src/Jitter/Valid.antt =====
-- src/transport/jitter_buffer.c: the operations that set a buffer up, and the flush.
use remote_avapps.Base.{
  ℕ, zero, suc, ◌≡◌, ◌==◌, refl, arith, ltb, true, false, ◌&&◌, List, [], ◌∷◌, length, map,
  replicate, none, some, ◌∙◌, ◌⊎◌, inl, inr, Bool-cases, sub32,
}
use remote_avapps.Base.Int.{pos, ltb_ℤ}
use remote_avapps.Status.{ok}
use remote_avapps.Jitter.{
  Slot, Buffer, Packet, init, reset, push, admit, rebase, free_slot, outside_window, seq_cmp,
  find_slot, is_null, flush_before, flushed, max_slots, zero_slot,
}
use remote_avapps.Jitter.Slots.{Fresh, Distinct, Fresh-find_slot, Distinct-flushed, length-flushed}
use remote_avapps.Jitter.Push.{IsValid}

pub Distinct-empty : (n : ℕ) → Distinct (replicate n zero_slot)
Distinct-empty zero = tt
Distinct-empty (suc n) = (inl refl, Distinct-empty n)

pub Fresh-empty : (seq n : ℕ) → Fresh seq (replicate n zero_slot)
Fresh-empty seq zero = tt
Fresh-empty seq (suc n) = (inl refl, Fresh-empty seq n)

-- No slot in use precedes the number.
abbrev pub NoneBefore : ℕ → List Slot → Type 0
NoneBefore seq [] = Unit {0}
NoneBefore seq (s ∷ ss) =
    ((s.valid ≡ false) ⊎ (ltb_ℤ (seq_cmp s.seq seq) (pos 0) ≡ false)) × NoneBefore seq ss

NoneBefore-flushed : (seq : ℕ) (ss : List Slot) → NoneBefore seq (map (flushed seq) ss)
NoneBefore-flushed seq [] = tt
NoneBefore-flushed seq (s ∷ ss) = (
  elim (Bool-cases (s.valid && ltb_ℤ (seq_cmp s.seq seq) (pos 0))) [
    | inl h ↦ rw h (inl refl)
    | inr h ↦ rw h (before_or h)
  ],
  NoneBefore-flushed seq ss,
)
  where
    before_or :
        s.valid && ltb_ℤ (seq_cmp s.seq seq) (pos 0) ≡ false
        → (s.valid ≡ false) ⊎ (ltb_ℤ (seq_cmp s.seq seq) (pos 0) ≡ false)
    before_or h = elim (Bool-cases s.valid) [ inr idle ↦ inl idle | inl busy ↦ inr (rw busy at h) ]

-- A flush keeps a buffer valid; after it no slot in use precedes the number, and the number is not
-- after the play position.
pub flush_before_lem :
    (jb : Buffer) (seq : ℕ)
    → IsValid jb
    → IsValid (flush_before jb seq)
      × NoneBefore seq (flush_before jb seq).slots
      × (ltb_ℤ (pos 0) (seq_cmp seq (flush_before jb seq).next_seq) ≡ false)
unfolding flush_before
flush_before_lem jb seq v = elim (Bool-cases (ltb_ℤ (pos 0) (seq_cmp seq jb.next_seq))) [
  | inl h ↦
      rw h
        (record { size = size; distinct = distinct }, NoneBefore-flushed seq jb.slots, ground arith)
  | inr h ↦ rw h (record { size = size; distinct = distinct }, NoneBefore-flushed seq jb.slots, h)
]
  where
    size : length (map (flushed seq) jb.slots) ≡ max_slots
    size = length-flushed seq jb.slots ∙ v.size

    distinct : Distinct (map (flushed seq) jb.slots)
    distinct = Distinct-flushed seq jb.slots v.distinct

-- A number is in the window that starts at it.
window_self : (n : ℕ) → outside_window n n ≡ false
unfolding outside_window
window_self n = let e : sub32 n n ≡ 0 = omega arith in rw e refl

-- The first push on a buffer with an idle slot.
first_push :
    (jb : Buffer) (p : Packet) (i : ℕ)
    → jb.stats_pushed ≡ 0
    → find_slot jb.slots p.seq ≡ none
    → free_slot jb.slots ≡ some i
    → is_null p.payload ≡ false
    → ((push jb p).0 ≡ ok)
      × ((push jb p).1.next_seq ≡ p.seq)
      × ((push jb p).1.target_delay_us ≡ jb.target_delay_us)
unfolding push rebase admit
first_push jb p i none_yet absent idle given =
    let passed : (ltb 0 p.len && is_null p.payload) ≡ false = ground (arith, given) in
    let first : (jb.stats_pushed == 0) ≡ true = rw none_yet refl in
    let near = window_self p.seq in
    rw passed (rw first (rw absent (rw near (rw idle (refl, refl, refl)))))

-- Whatever number a reset is given, the first push after it with a payload is accepted with any
-- number, and the play position becomes its number; the target delay is lost.
pub reset-push :
    (jb : Buffer) (first_seq : ℕ) (p : Packet)
    → is_null p.payload ≡ false
    → ((push (reset jb first_seq) p).0 ≡ ok)
      × ((push (reset jb first_seq) p).1.next_seq ≡ p.seq)
      × ((push (reset jb first_seq) p).1.target_delay_us ≡ 0)
unfolding reset
reset-push jb first_seq p given =
    first_push (reset jb first_seq) p 0 refl
      (Fresh-find_slot (replicate max_slots zero_slot) p.seq (Fresh-empty p.seq max_slots)) idle
      given
  where
    idle : free_slot (replicate max_slots zero_slot) ≡ some 0
    idle = unfold free_slot in refl

-- A buffer that is set up or reset is valid.
pub init-reset-IsValid : (jb : Buffer) (n : ℕ) → IsValid (init n).1 × IsValid (reset jb n)
unfolding init reset
init-reset-IsValid jb n = (
  record { size = refl; distinct = Distinct-empty max_slots },
  record { size = refl; distinct = Distinct-empty max_slots },
)
