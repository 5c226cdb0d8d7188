-- ===== src/Batch/Push.antt =====
-- src/input/batch.c: the events that a batch holds, and pushing.
use remote_avapps.Base.{
  ℕ, zero, suc, ◌+◌, ◌<◌, ◌≤◌, ◌≡◌, refl, arith, leb, List, [], ◌∷◌, ◌++◌, length, set, get_or,
  take, ap, ◌∙◌, length-set, get_or-set_self, get_or-set_ne, u16, some, ◌⊎◌, inl, inr, Bool-cases,
  leb→le,
}
use native.Mathlib.Decide.{dec_lt}
use remote_avapps.Status.{ok, overrun}
use remote_avapps.Batch.{InputEvent, Batch, no_event, max_events, push, full}

-- The fields of an event are of the widths that input.h declares.
pub record FitsEvent (e : InputEvent) : Type 0 where
  pub kind_16 : e.kind < 65536
  pub slot_16 : e.slot < 65536
  pub x_16 : e.x < 65536
  pub y_16 : e.y < 65536
  pub pressure_16 : e.pressure < 65536
  pub buttons_16 : e.buttons < 65536
  pub ts_us_32 : e.ts_us < 4294967296

-- The array has its size, the count stays within it, and the events counted fit their widths.
pub record IsValid (b : Batch) : Type 0 where
  pub array : length b.events ≡ max_events
  pub count_in : b.count ≤ max_events
  pub fit : (i : ℕ) → i < b.count → FitsEvent (get_or b.events i no_event)

-- The events that a batch holds.
abbrev pub live : Batch → List InputEvent
live b = take b.count b.events

take-set :
    (xs : List InputEvent) (n : ℕ) (v : InputEvent)
    → n < length xs
    → take (suc n) (set xs n v) ≡ take n xs ++ (v ∷ [])
take-set [] n v h = absurd (omega arith)
take-set (x ∷ xs) zero v h = refl
take-set (x ∷ xs) (suc n) v h = ap (λ l. x ∷ l) (take-set xs n v (omega arith))

-- Pushing an event that fits its widths keeps a batch valid; it appends the event while fewer than
-- 32 are held, and is refused with an overrun, leaving the batch alone, when the batch is full.
pub push_lem :
    (b : Batch) (ev : InputEvent)
    → IsValid b
    → FitsEvent ev
    → IsValid (push b (some ev)).1
      × (((push b (some ev)).0 ≡ ok)
            × (b.count < max_events)
            × (live (push b (some ev)).1 ≡ live b ++ (ev ∷ []))
          ⊎ (push b (some ev) ≡ (overrun, b)) × (b.count ≡ max_events))
unfolding push full
push_lem b ev v w = elim (Bool-cases (leb max_events b.count)) [
  | inl over ↦ rw over (v, inr (refl, (omega (arith, v.count_in, leb→le max_events b.count over))))
  | inr room ↦
      let below : b.count < max_events = ground arith in
      let next : u16 (b.count + 1) ≡ suc b.count = omega arith in
      rw room (
        record {
          array = length-set b.events b.count ev ∙ v.array;
          count_in = omega arith;
          fit = λ i h. fit_set below i (omega arith);
        },
        inl (
          refl,
          below,
          ap (λ k. take k (set b.events b.count ev)) next
              ∙ take-set b.events b.count ev (omega (arith, v.array)),
        ),
      )
]
  where
    fit_set :
        b.count < max_events
        → (i : ℕ) → i < suc b.count
        → FitsEvent (get_or (set b.events b.count ev) i no_event)
    fit_set below i h = elim (dec_lt i b.count) [
      | yes p ↦
          let other : get_or (set b.events b.count ev) i no_event ≡ get_or b.events i no_event =
            get_or-set_ne b.events b.count i ev no_event (omega arith) in
          rw other (v.fit i p)
      | no p ↦
          let e : i ≡ b.count = omega arith in
          let self : get_or (set b.events b.count ev) i no_event ≡ ev =
            ap (λ k. get_or (set b.events b.count ev) k no_event) e
            ∙ get_or-set_self b.events b.count ev no_event (omega (arith, v.array, v.count_in)) in
          rw self w
    ]
