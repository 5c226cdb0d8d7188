-- ===== src/Jitter/Slots.antt =====
-- src/transport/jitter_buffer.c: the searches over the slots, and what a write to the slot found
-- does to the sequence numbers in use.
use remote_avapps.Base.{
  ℕ, zero, suc, ◌+◌, ◌≡◌, ◌≢◌, ◌==◌, refl, sym, arith, if◌then◌else◌, true, false, ◌&&◌, List, [],
  ◌∷◌, length, Option, none, some, map, ap, ◌∙◌, ◌⊎◌, inl, inr, Bool-cases,
}
use remote_avapps.Jitter.{Slot, find_slot, free_slot, shift_index, modify, release, flushed}

-- No slot in use has this sequence number.
abbrev pub Fresh : ℕ → List Slot → Type 0
Fresh seq [] = Unit {0}
Fresh seq (s ∷ ss) = ((s.valid ≡ false) ⊎ (s.seq ≢ seq)) × Fresh seq ss

-- No two slots in use have one sequence number.
abbrev pub Distinct : List Slot → Type 0
Distinct [] = Unit {0}
Distinct (s ∷ ss) = ((s.valid ≡ false) ⊎ Fresh s.seq ss) × Distinct ss

-- The number of slots in use.
abbrev pub used : List Slot → ℕ
used [] = 0
used (s ∷ ss) = (if s.valid then 1 else 0) + used ss

pub length-modify : (ss : List Slot) (i : ℕ) (f : Slot → Slot) → length (modify ss i f) ≡ length ss
length-modify [] i f = refl
length-modify (s ∷ ss) zero f = refl
length-modify (s ∷ ss) (suc i) f = ap suc (length-modify ss i f)

shift_index-none : (o : Option ℕ) → shift_index o ≡ none → o ≡ none
shift_index-none none h = refl
shift_index-none (some i) h = cc

shift_index-some :
    (o : Option ℕ) (i : ℕ) → shift_index o ≡ some i → (j : ℕ) × (o ≡ some j) × (i ≡ suc j)
shift_index-some none i h = cc
shift_index-some (some j) i h = (j, refl, ground arith)

-- The search fails exactly when the number is not in use.
pub find_slot-none : (ss : List Slot) (seq : ℕ) → find_slot ss seq ≡ none → Fresh seq ss
unfolding find_slot
find_slot-none [] seq h = tt
find_slot-none (s ∷ ss) seq h = elim (Bool-cases (s.valid && s.seq == seq)) [
  | inl hit ↦ absurd (clash (rw hit at h))
  | inr miss ↦ (ground arith, find_slot-none ss seq (shift_index-none _ (rw miss at h)))
]
  where
    clash : ◌≡◌ {A = Option ℕ} (some 0) none → ⊥
    clash e = cc

pub Fresh-find_slot : (ss : List Slot) (seq : ℕ) → Fresh seq ss → find_slot ss seq ≡ none
unfolding find_slot
Fresh-find_slot [] seq h = refl
Fresh-find_slot (s ∷ ss) seq h = ground (arith, Fresh-find_slot ss seq h.1)

-- A step of a search: the first slot is found, or the index lies one further on.
find_slot_step :
    (s : Slot) (ss : List Slot) (seq i : ℕ)
    → find_slot (s ∷ ss) seq ≡ some i
    → ((s.valid ≡ true) × (s.seq ≡ seq) × (i ≡ 0))
      ⊎ (((s.valid ≡ false) ⊎ (s.seq ≢ seq))
          × ((j : ℕ) × (find_slot ss seq ≡ some j) × (i ≡ suc j)))
unfolding find_slot
find_slot_step s ss seq i h = elim (Bool-cases (s.valid && s.seq == seq)) [
  | inl hit ↦ let h' = rw hit at h in inl (ground arith)
  | inr miss ↦ inr (ground arith, shift_index-some (find_slot ss seq) i (rw miss at h))
]

free_slot_step :
    (s : Slot) (ss : List Slot) (i : ℕ)
    → free_slot (s ∷ ss) ≡ some i
    → ((s.valid ≡ false) × (i ≡ 0))
      ⊎ ((s.valid ≡ true) × ((j : ℕ) × (free_slot ss ≡ some j) × (i ≡ suc j)))
unfolding free_slot
free_slot_step s ss i h = elim (Bool-cases s.valid) [
  | inr idle ↦ let h' = rw idle at h in inl (ground arith)
  | inl busy ↦ inr (busy, shift_index-some (free_slot ss) i (rw busy at h))
]

Fresh-modify :
    (ss : List Slot) (i : ℕ) (f : Slot → Slot) (seq : ℕ)
    → ((s : Slot) → ((f s).valid ≡ false) ⊎ ((f s).seq ≢ seq))
    → Fresh seq ss
    → Fresh seq (modify ss i f)
Fresh-modify [] i f seq h fr = fr
Fresh-modify (s ∷ ss) zero f seq h fr = (h s, fr.1)
Fresh-modify (s ∷ ss) (suc i) f seq h fr = (fr.0, Fresh-modify ss i f seq h fr.1)

-- Filling a slot that is not in use with a number that is not in use.
module _ (f : Slot → Slot) (seq : ℕ)
    (fills : (s : Slot) → ((f s).valid ≡ true) × ((f s).seq ≡ seq)) where
  pub Distinct-fill :
      (ss : List Slot) (i : ℕ)
      → free_slot ss ≡ some i
      → Fresh seq ss
      → Distinct ss
      → Distinct (modify ss i f) × (used (modify ss i f) ≡ used ss + 1)
  Distinct-fill [] i h fr d = absurd (none_found h)
    where
      none_found : free_slot [] ≡ some i → ⊥
      none_found e = unfold free_slot in cc
  Distinct-fill (s ∷ ss) i h fr d = elim (free_slot_step s ss i h) [
    | inl (idle, first) ↦ rw first ((inr (rw ((fills s).1) fr.1), d.1), ground (arith, fills s))
    | inr (busy, (j, found, next)) ↦
        let (d', more) = Distinct-fill ss j found fr.1 d.1 in
        rw next ((kept s d.0 fr.0 busy j, d'), omega (arith, more))
  ]
    where
      kept :
          (s : Slot)
          → (s.valid ≡ false) ⊎ Fresh s.seq ss
          → (s.valid ≡ false) ⊎ (s.seq ≢ seq)
          → s.valid ≡ true
          → (j : ℕ) → (s.valid ≡ false) ⊎ Fresh s.seq (modify ss j f)
      kept s (inl idle) other busy j = inl idle
      kept s (inr fresh) (inl idle) busy j = inl idle
      kept s (inr fresh) (inr other) busy j =
          inr (Fresh-modify ss j f s.seq (λ t. inr (λ e. other (sym e ∙ (fills t).1))) fresh)

  -- The number is then in use.
  pub Fresh-fill : (ss : List Slot) (i : ℕ) → free_slot ss ≡ some i → Fresh seq (modify ss i f) → ⊥
  Fresh-fill [] i h fr = none_found h
    where
      none_found : free_slot [] ≡ some i → ⊥
      none_found e = unfold free_slot in cc
  Fresh-fill (s ∷ ss) i h fr = elim (free_slot_step s ss i h) [
    | inl (idle, first) ↦ filled (rw first at fr)
    | inr (busy, (j, found, next)) ↦ Fresh-fill ss j found (later j (rw next at fr))
  ]
    where
      filled : Fresh seq (f s ∷ ss) → ⊥
      filled here = ground (arith, here.0, fills s)

      later : (j : ℕ) → Fresh seq (s ∷ modify ss j f) → Fresh seq (modify ss j f)
      later j here = here.1

-- Releasing the slot that a search has found.
pub Distinct-release :
    (ss : List Slot) (seq i : ℕ)
    → find_slot ss seq ≡ some i
    → Distinct ss
    → Distinct (modify ss i release)
      × (used (modify ss i release) + 1 ≡ used ss)
      × Fresh seq (modify ss i release)
Distinct-release [] seq i h d = absurd (none_found h)
  where
    none_found : find_slot [] seq ≡ some i → ⊥
    none_found e = unfold find_slot in cc
Distinct-release (s ∷ ss) seq i h d = elim (find_slot_step s ss seq i h) [
  | inl (busy, same, first) ↦
      rw first ((inl refl, d.1), ground arith, (inl refl, rest s d.0 busy same))
  | inr (other, (j, found, next)) ↦
      let (d', fewer, fresh) = Distinct-release ss seq j found d.1 in
      rw next ((kept s d.0 j, d'), omega (arith, fewer), (other, fresh))
]
  where
    rest :
        (s : Slot)
        → (s.valid ≡ false) ⊎ Fresh s.seq ss
        → s.valid ≡ true
        → s.seq ≡ seq
        → Fresh seq ss
    rest s (inl idle) busy same = cc
    rest s (inr fresh) busy same = rw (← same) fresh

    kept :
        (s : Slot)
        → (s.valid ≡ false) ⊎ Fresh s.seq ss
        → (j : ℕ) → (s.valid ≡ false) ⊎ Fresh s.seq (modify ss j release)
    kept s (inl idle) j = inl idle
    kept s (inr fresh) j = inr (Fresh-modify ss j release s.seq (λ t. inl refl) fresh)

-- A search for a free slot fails exactly when all are in use.
pub free_slot-none : (ss : List Slot) → free_slot ss ≡ none → used ss ≡ length ss
unfolding free_slot
free_slot-none [] h = refl
free_slot-none (s ∷ ss) h = elim (Bool-cases s.valid) [
  | inr idle ↦ absurd (clash (rw idle at h))
  | inl busy ↦
      let rest = free_slot-none ss (shift_index-none (free_slot ss) (rw busy at h)) in
      rw busy (omega (arith, rest))
]
  where
    clash : ◌≡◌ {A = Option ℕ} (some 0) none → ⊥
    clash e = cc

-- Releasing some of the slots.
pub Distinct-flushed : (seq : ℕ) (ss : List Slot) → Distinct ss → Distinct (map (flushed seq) ss)
Distinct-flushed seq [] d = tt
Distinct-flushed seq (s ∷ ss) d = (ground (arith, kept, smaller), Distinct-flushed seq ss d.1)
  where
    Fresh-flushed : (n : ℕ) (ts : List Slot) → Fresh n ts → Fresh n (map (flushed seq) ts)
    Fresh-flushed n [] fr = tt
    Fresh-flushed n (t ∷ ts) fr = (ground arith, Fresh-flushed n ts fr.1)

    kept : Fresh s.seq ss → Fresh s.seq (map (flushed seq) ss)
    kept fr = Fresh-flushed s.seq ss fr

    smaller : (s.valid ≡ false) ⊎ Fresh s.seq ss
    smaller = d.0

pub length-flushed : (seq : ℕ) (ss : List Slot) → length (map (flushed seq) ss) ≡ length ss
length-flushed seq [] = refl
length-flushed seq (s ∷ ss) = ap suc (length-flushed seq ss)
