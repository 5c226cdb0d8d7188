-- ===== src/Client/Slots/Pick.antt =====
-- apps/thinclient/main.c: which slot `decode_worker` decodes next.
use remote_avapps.Base.{
  ℕ, zero, suc, ◌+◌, ◌<◌, ◌≤◌, ◌≡◌, ◌⊎◌, inl, inr, refl, arith, ltb, true, false, ◌&&◌, List, [],
  ◌∷◌, get_elem?, Option, none, some, Bool-cases, ap, ◌∙◌, sym,
}
use mathlib.Core.Option.{some-injective}
use remote_avapps.Client.Slots.{
  FrameSlot, SlotState, free, ready, decoding, writing, is_ready, pick, best_ready,
}

-- A slot that waits for the worker.
abbrev pub ReadyAt : List FrameSlot → ℕ → FrameSlot → Type 0
ReadyAt ss k t = (get_elem? ss k ≡ some t) × (t.state ≡ ready)

-- The slot at an index comes before every ready slot, by its deadline and then by its index.
abbrev First : List FrameSlot → ℕ → FrameSlot → Type 0
First ss j s =
    (k : ℕ) (t : FrameSlot)
    → ReadyAt ss k t
    → (s.deadline_us < t.deadline_us) ⊎ ((s.deadline_us ≡ t.deadline_us) × (j ≤ k))

-- No ready slot has a deadline below the bound.
abbrev NoneBelow : List FrameSlot → ℕ → Type 0
NoneBelow ss best = (k : ℕ) (t : FrameSlot) → ReadyAt ss k t → best ≤ t.deadline_us

is_ready-true : (st : SlotState) → is_ready st ≡ true → st ≡ ready
is_ready-true free h = cc
is_ready-true ready h = refl
is_ready-true decoding h = cc
is_ready-true writing h = cc

-- The head of the list meets the test exactly when it is ready with a deadline below the bound.
hit_fact :
    (s : FrameSlot) (best : ℕ)
    → is_ready s.state && ltb s.deadline_us best ≡ true
    → (s.state ≡ ready) × (s.deadline_us < best)
hit_fact s best h = (is_ready-true s.state (ground arith), ground arith)

miss_fact :
    (s : FrameSlot) (best : ℕ)
    → is_ready s.state && ltb s.deadline_us best ≡ false
    → s.state ≡ ready
    → best ≤ s.deadline_us
miss_fact s best h e = let r : is_ready s.state ≡ true = ap is_ready e in ground arith

NoneBelow-cons :
    (s : FrameSlot) (ss : List FrameSlot) (best : ℕ)
    → (s.state ≡ ready → best ≤ s.deadline_us)
    → NoneBelow ss best
    → NoneBelow (s ∷ ss) best
NoneBelow-cons s ss best head rest zero t (e, r) =
    let same = some-injective s t e in
    let low = head (ap (λ u. u.state) same ∙ r) in omega (arith, low, ap (λ u. u.deadline_us) same)
NoneBelow-cons s ss best head rest (suc k) t h = rest k t h

First-head : (s : FrameSlot) (ss : List FrameSlot) → NoneBelow ss s.deadline_us → First (s ∷ ss) 0 s
First-head s ss none_below zero t (e, r) =
    inr (ap (λ u. u.deadline_us) (some-injective s t e), omega arith)
First-head s ss none_below (suc k) t h = let low = none_below k t h in omega (arith, low)

First-cons :
    (s : FrameSlot) (ss : List FrameSlot) (j : ℕ) (m : FrameSlot)
    → (s.state ≡ ready → m.deadline_us < s.deadline_us)
    → First ss j m
    → First (s ∷ ss) (suc j) m
First-cons s ss j m head first zero t (e, r) =
    let same = some-injective s t e in
    let low = head (ap (λ u. u.state) same ∙ r) in
    inl (omega (arith, low, ap (λ u. u.deadline_us) same))
First-cons s ss j m head first (suc k) t h = elim (first k t h) [
  | inl lower ↦ inl lower
  | inr (same, earlier) ↦ inr (same, omega arith)
]

nothing : (t : FrameSlot) → ◌≡◌ {A = Option FrameSlot} none (some t) → ⊥
nothing t e = cc

pick_lem :
    (ss : List FrameSlot) (i best : ℕ) (idx : Option ℕ)
    → ((pick ss i best idx ≡ idx) × NoneBelow ss best)
      ⊎ ((j : ℕ) × (s : FrameSlot) × (pick ss i best idx ≡ some (i + j))
          × ReadyAt ss j s
          × (s.deadline_us < best)
          × First ss j s)
unfolding pick
pick_lem [] i best idx = inl (refl, λ k t h. absurd (nothing t h.0))
pick_lem (s ∷ ss) i best idx = elim (Bool-cases (is_ready s.state && ltb s.deadline_us best)) [
  | inl hit ↦ rw hit (elim (pick_lem ss (i + 1) s.deadline_us (some i)) [
    | inl (e, none_below) ↦
        let (is, low) = hit_fact s best hit in
        inr (0, s, e ∙ ap some (omega arith), (refl, is), low, First-head s ss none_below)
    | inr (j, m, e, at, below, first) ↦
        let (is, low) = hit_fact s best hit in
        inr (
          suc j,
          m,
          e ∙ ap some (omega arith),
          at,
          omega arith,
          First-cons s ss j m (λ r. below) first,
        )
  ])
  | inr miss ↦ rw miss (elim (pick_lem ss (i + 1) best idx) [
    | inl (e, none_below) ↦ inl (e, NoneBelow-cons s ss best (miss_fact s best miss) none_below)
    | inr (j, m, e, at, below, first) ↦ inr (
      suc j,
      m,
      e ∙ ap some (omega arith),
      at,
      below,
      First-cons s ss j m (λ r. let high = miss_fact s best miss r in omega arith) first,
    )
  ])
]

pub best_ready-ReadyAt :
    (ss : List FrameSlot) (i : ℕ) → best_ready ss ≡ some i → (s : FrameSlot) × ReadyAt ss i s
unfolding best_ready
best_ready-ReadyAt ss i h = elim (pick_lem ss 0 18446744073709551615 none) [
  | inl (e, none_below) ↦ absurd (clash (sym e ∙ h))
  | inr (j, s, e, is, below, first) ↦
      let same : j ≡ i = omega (arith, some-injective (0 + j) i (sym e ∙ h)) in (s, rw (← same) is)
]
  where
    clash : ◌≡◌ {A = Option ℕ} none (some i) → ⊥
    clash e = cc

-- The slot picked is ready, and it comes before every other ready slot: its deadline is smaller, or
-- it is the same and its index is smaller or the same. Of slots with one deadline it is therefore
-- the first of the array, whenever they were published.
pub best_ready-IsFirst :
    (ss : List FrameSlot) (i k : ℕ) (t : FrameSlot)
    → best_ready ss ≡ some i
    → ReadyAt ss k t
    → (s : FrameSlot) × ReadyAt ss i s
      × ((s.deadline_us < t.deadline_us) ⊎ ((s.deadline_us ≡ t.deadline_us) × (i ≤ k)))
unfolding best_ready
best_ready-IsFirst ss i k t h at = elim (pick_lem ss 0 18446744073709551615 none) [
  | inl (e, none_below) ↦ absurd (clash (sym e ∙ h))
  | inr (j, s, e, is, below, first) ↦
      let same : j ≡ i = omega (arith, some-injective (0 + j) i (sym e ∙ h)) in
      (s, rw (← same) is, rw (← same) (first k t at))
]
  where
    clash : ◌≡◌ {A = Option ℕ} none (some i) → ⊥
    clash e = cc

-- The worker waits only if no ready slot has a deadline below UINT64_MAX.
pub best_ready-waits :
    (ss : List FrameSlot) (k : ℕ) (t : FrameSlot)
    → best_ready ss ≡ none
    → ReadyAt ss k t
    → 18446744073709551615 ≤ t.deadline_us
unfolding best_ready
best_ready-waits ss k t h at = elim (pick_lem ss 0 18446744073709551615 none) [
  | inl (e, none_below) ↦ none_below k t at
  | inr (j, s, e, is, below, first) ↦ absurd (clash j (sym h ∙ e))
]
  where
    clash : (j : ℕ) → ◌≡◌ {A = Option ℕ} none (some (0 + j)) → ⊥
    clash j e = cc
