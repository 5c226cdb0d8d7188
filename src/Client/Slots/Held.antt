-- ===== src/Client/Slots/Held.antt =====
-- apps/thinclient/main.c: what the operations on the pool do to a slot that a thread holds.
use remote_avapps.Base.{
  ℕ, zero, suc, ◌≡◌, ◌≢◌, inl, inr, refl, true, List, [], ◌∷◌, map, get_elem?, get_elem?-map,
  Option, none, some, Bool-cases, Option-cases, ap, ◌∙◌, sym,
}
use mathlib.Core.Option.{some-injective}
use remote_avapps.Client.Slots.{
  FrameSlot, SlotState, free, ready, decoding, writing, is_free, update, find_free, mark,
  take_write,
}

-- The slot that a thread holds is in the state that the thread gave it.
abbrev pub Held : List FrameSlot → SlotState → Option ℕ → Type 0
Held ss st none = Unit {0}
Held ss st (some i) = (s : FrameSlot) × (get_elem? ss i ≡ some s) × (s.state ≡ st)

pub get_elem?-update_self :
    (ss : List FrameSlot) (i : ℕ) (g : FrameSlot → FrameSlot) (s : FrameSlot)
    → get_elem? ss i ≡ some s
    → get_elem? (update ss i g) i ≡ some (g s)
get_elem?-update_self [] i g s h = cc
get_elem?-update_self (t ∷ ss) zero g s h = ap (λ u. some (g u)) (some-injective t s h)
get_elem?-update_self (t ∷ ss) (suc i) g s h = get_elem?-update_self ss i g s h

pub get_elem?-update_ne :
    (ss : List FrameSlot) (i k : ℕ) (g : FrameSlot → FrameSlot)
    → i ≢ k
    → get_elem? (update ss i g) k ≡ get_elem? ss k
get_elem?-update_ne [] i k g h = refl
get_elem?-update_ne (t ∷ ss) zero zero g h = absurd (h refl)
get_elem?-update_ne (t ∷ ss) zero (suc k) g h = refl
get_elem?-update_ne (t ∷ ss) (suc i) zero g h = refl
get_elem?-update_ne (t ∷ ss) (suc i) (suc k) g h = get_elem?-update_ne ss i k g (λ e. h (ap suc e))

is_free-true : (st : SlotState) → is_free st ≡ true → st ≡ free
is_free-true free h = refl
is_free-true ready h = cc
is_free-true decoding h = cc
is_free-true writing h = cc

-- The index found belongs to a slot that is free.
find_free-is_free :
    (ss : List FrameSlot) (i : ℕ)
    → find_free ss ≡ some i
    → (s : FrameSlot) × (get_elem? ss i ≡ some s) × (s.state ≡ free)
unfolding find_free
find_free-is_free [] i h = cc
find_free-is_free (t ∷ ss) i h = elim (Bool-cases (is_free t.state)) [
  | inl hit ↦
      let first : i ≡ 0 = sym (some-injective 0 i (rw hit at h)) in
      rw first (t, refl, is_free-true t.state hit)
  | inr miss ↦ elim (Option-cases (find_free ss)) [
    | inl e ↦ absurd (nowhere (rw (miss, e) at h))
    | inr (j, e) ↦
        let later : i ≡ suc j = sym (some-injective (suc j) i (rw (miss, e) at h)) in
        rw later (find_free-is_free ss j e)
  ]
]
  where
    nowhere : ◌≡◌ {A = Option ℕ} none (some i) → ⊥
    nowhere e = cc

-- A slot in one state and a slot in another are two.
pub apart :
    (ss : List FrameSlot) (i k : ℕ) (s t : FrameSlot)
    → get_elem? ss i ≡ some s
    → get_elem? ss k ≡ some t
    → s.state ≢ t.state
    → i ≢ k
apart ss i k s t hi hk differ e =
    differ (ap (λ u. u.state) (some-injective s t (sym hi ∙ ap (get_elem? ss) e ∙ hk)))

-- An update of a slot leaves what another thread holds alone.
pub Held-update :
    (ss : List FrameSlot) (st : SlotState) (o : Option ℕ) (i : ℕ) (g : FrameSlot → FrameSlot)
    (s : FrameSlot)
    → get_elem? ss i ≡ some s
    → s.state ≢ st
    → Held ss st o
    → Held (update ss i g) st o
Held-update ss st none i g s at differ held = tt
Held-update ss st (some k) i g s at differ (t, tat, is) =
    let ne = apart ss i k s t at tat (λ e. differ (e ∙ is)) in
    (t, get_elem?-update_ne ss i k g ne ∙ tat, is)

-- What the reader takes was free.
pub take_write_inv :
    (ss ss' : List FrameSlot) (i : ℕ)
    → take_write ss ≡ some (i, ss')
    → (ss' ≡ update ss i (mark writing))
      × ((s : FrameSlot) × (get_elem? ss i ≡ some s) × (s.state ≡ free))
unfolding take_write
take_write_inv ss ss' i h = elim (Option-cases (find_free ss)) [
  | inl e ↦ absurd (waits (rw (e, take_write) at h))
  | inr (j, e) ↦
      let taken =
        some-injective (j, update ss j (mark writing)) (i, ss') (rw (e, take_write) at h) in
      let same : j ≡ i = ap (λ p. p.0) taken in
      (
        sym (ap (λ p. p.1) taken) ∙ ap (λ n. update ss n (mark writing)) same,
        rw (← same) (find_free-is_free ss j e),
      )
]
  where
    waits : ◌≡◌ {A = Option (ℕ × List FrameSlot)} none (some (i, ss')) → ⊥
    waits e = cc

pub free_ne_ready : free ≢ ready
free_ne_ready e = cc

pub ready_ne_writing : ready ≢ writing
ready_ne_writing e = cc

-- New deadlines leave what a thread holds alone.
pub Held-map :
    (ss : List FrameSlot) (st : SlotState) (o : Option ℕ) (g : FrameSlot → FrameSlot)
    → ((s : FrameSlot) → (g s).state ≡ s.state)
    → Held ss st o
    → Held (map g ss) st o
Held-map ss st none g keeps held = tt
Held-map ss st (some i) g keeps (s, at, is) = (g s, get_elem?-map ss i g s at, keeps s ∙ is)
