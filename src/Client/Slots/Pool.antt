-- ===== src/Client/Slots/Pool.antt =====
-- apps/thinclient/main.c: the reader and the decode worker on one pool of slots. A step is what a
-- thread does while it has the mutex `g_fmu`, or, for the copy of a unit, without it to the slot
-- that it holds: who holds which slot, and what the others may do to it.
use remote_avapps.Base.{
  ℕ, ◌≡◌, ◌≢◌, ◌⊎◌, inl, inr, refl, List, map, get_elem?-map, Option, none, some, ap, ◌∙◌, sym,
}
use mathlib.Core.Path.{subst}
use native.Mathlib.Decide.{ℕ_discrete}
use remote_avapps.Client.Slots.{
  FrameSlot, Frame, SlotState, free, ready, decoding, writing, mark, fill, store_unit, update,
  take_write, publish, release, best_ready, start_decoding,
}
use remote_avapps.Client.Slots.Pick.{ReadyAt, best_ready-ReadyAt}
use remote_avapps.Client.Slots.Held.{
  Held, get_elem?-update_self, get_elem?-update_ne, apart, Held-update, Held-map, take_write_inv,
  free_ne_ready, ready_ne_writing,
}

-- What the decode worker does: it waits; it has found a slot, which is not marked yet; or it
-- decodes a slot.
pub data Work : Type 0 where
  waits : Work
  found : ℕ → Work
  decodes : ℕ → Work

abbrev pub work_slot : Work → Option ℕ
work_slot waits = none
work_slot (found i) = some i
work_slot (decodes i) = some i

-- The state of the slot of the worker: one that it has only found is still ready.
abbrev pub work_state : Work → SlotState
work_state (found i) = ready
work_state _ = decoding

-- The slots, the slot that the reader writes, and what the worker does.
pub record Pool : Type 0 where
  pub slots : List FrameSlot
  pub reader : Option ℕ
  pub worker : Work

-- New deadlines, as `dash_resync` stores them.
abbrev pub with_deadline : (FrameSlot → ℕ) → FrameSlot → FrameSlot
with_deadline d s = record s { deadline_us = d s }

pub data Move : Pool → Pool → Type 0 where
  -- `slot_take_write` returns.
  takes :
      {ss ss' : List FrameSlot} {w : Work} (i : ℕ)
      → take_write ss ≡ some (i, ss')
      → Move
          (record { slots = ss; reader = none; worker = w })
          (record { slots = ss'; reader = some i; worker = w })
  -- The `memcpy` of `dash_publish_au`, which has no mutex.
  copies :
      {ss : List FrameSlot} {w : Work} (i : ℕ) (bytes : List ℕ)
      → Move
          (record { slots = ss; reader = some i; worker = w })
          (record { slots = update ss i (store_unit bytes); reader = some i; worker = w })
  -- `slot_publish`
  publishes :
      {ss : List FrameSlot} {w : Work} (i : ℕ) (f : Frame)
      → Move
          (record { slots = ss; reader = some i; worker = w })
          (record { slots = publish ss i f; reader = none; worker = w })
  -- `dash_publish_au` gives up the slot for a unit that is too large.
  gives_up :
      {ss : List FrameSlot} {w : Work} (i : ℕ)
      → Move
          (record { slots = ss; reader = some i; worker = w })
          (record { slots = release ss i; reader = none; worker = w })
  -- `decode_worker` finds a slot, and unlocks the mutex.
  finds :
      {ss : List FrameSlot} {r : Option ℕ} (i : ℕ)
      → best_ready ss ≡ some i
      → Move
          (record { slots = ss; reader = r; worker = waits })
          (record { slots = ss; reader = r; worker = found i })
  -- It locks the mutex again, and marks the slot.
  marks :
      {ss : List FrameSlot} {r : Option ℕ} (i : ℕ)
      → Move
          (record { slots = ss; reader = r; worker = found i })
          (record { slots = start_decoding ss i; reader = r; worker = decodes i })
  -- It releases the slot that it decoded.
  finishes :
      {ss : List FrameSlot} {r : Option ℕ} (i : ℕ)
      → Move
          (record { slots = ss; reader = r; worker = decodes i })
          (record { slots = release ss i; reader = r; worker = waits })
  -- `dash_resync` shifts the deadlines.
  shifts :
      {ss : List FrameSlot} {r : Option ℕ} {w : Work} (d : FrameSlot → ℕ)
      → Move
          (record { slots = ss; reader = r; worker = w })
          (record { slots = map (with_deadline d) ss; reader = r; worker = w })

pub data Reach (p : Pool) : Pool → Type 0 where
  here : Reach p p
  next : {q r : Pool} → Reach p q → Move q r → Reach p r

pub record IsOwned (p : Pool) : Type 0 where
  pub reads : Held p.slots writing p.reader
  pub works : Held p.slots (work_state p.worker) (work_slot p.worker)

work_ne_free : (w : Work) → free ≢ work_state w
work_ne_free waits e = cc e
work_ne_free (found i) e = cc e
work_ne_free (decodes i) e = cc e

work_ne_writing : (w : Work) → writing ≢ work_state w
work_ne_writing waits e = cc e
work_ne_writing (found i) e = cc e
work_ne_writing (decodes i) e = cc e

decoding_ne_writing : decoding ≢ writing
decoding_ne_writing e = cc e

ready_ne_decoding : ready ≢ decoding
ready_ne_decoding e = cc e

-- What the reader does to the slot that it writes leaves the worker's slot alone.
works-update :
    (ss : List FrameSlot) (w : Work) (i : ℕ) (g : FrameSlot → FrameSlot)
    → Held ss writing (some i)
    → Held ss (work_state w) (work_slot w)
    → Held (update ss i g) (work_state w) (work_slot w)
works-update ss w i g (s, at, is) held =
    Held-update ss (work_state w) (work_slot w) i g s at (λ e. work_ne_writing w (sym is ∙ e)) held

-- Every step keeps to the states: the slot that the reader holds is being written, the one that the
-- worker has found is ready, and the one that it decodes is being decoded.
pub Move-IsOwned : {p q : Pool} → Move p q → IsOwned p → IsOwned q
unfolding start_decoding release publish
Move-IsOwned (takes {ss} {ss'} {w} i h) v =
    let (same, (s, at, is)) = take_write_inv ss ss' i h in
    rw same (record {
      reads = (mark writing s, get_elem?-update_self ss i (mark writing) s at, refl);
      works =
          Held-update ss (work_state w) (work_slot w) i (mark writing) s at
            (λ e. work_ne_free w (sym is ∙ e)) v.works;
    })
Move-IsOwned (copies {ss} {w} i bytes) v =
    let (s, at, is) = v.reads in
    record {
      reads = (store_unit bytes s, get_elem?-update_self ss i (store_unit bytes) s at, is);
      works = works-update ss w i (store_unit bytes) v.reads v.works;
    }
Move-IsOwned (publishes {ss} {w} i f) v = record {
  reads = tt;
  works = works-update ss w i (fill f) v.reads v.works;
}
Move-IsOwned (gives_up {ss} {w} i) v = record {
  reads = tt;
  works = works-update ss w i (mark free) v.reads v.works;
}
Move-IsOwned (finds {ss} {r} i h) v =
    let (s, (at, is)) = best_ready-ReadyAt ss i h in record { reads = v.reads; works = (s, at, is) }
Move-IsOwned (marks {ss} {r} i) v =
    let (s, at, is) = v.works in
    record {
      reads =
          Held-update ss writing r i (mark decoding) s at (λ e. ready_ne_writing (sym is ∙ e))
            v.reads;
      works = (mark decoding s, get_elem?-update_self ss i (mark decoding) s at, refl);
    }
Move-IsOwned (finishes {ss} {r} i) v =
    let (s, at, is) = v.works in
    record {
      reads =
          Held-update ss writing r i (mark free) s at (λ e. decoding_ne_writing (sym is ∙ e))
            v.reads;
      works = tt;
    }
Move-IsOwned (shifts {ss} {r} {w} d) v = record {
  reads = Held-map ss writing r (with_deadline d) (λ s. refl) v.reads;
  works = Held-map ss (work_state w) (work_slot w) (with_deadline d) (λ s. refl) v.works;
}

pub Reach-IsOwned : {p q : Pool} → IsOwned p → Reach p q → IsOwned q
Reach-IsOwned v here = v
Reach-IsOwned v (next r m) = Move-IsOwned m (Reach-IsOwned v r)

-- In every pool that is reached from one in which no thread holds a slot, the slot that the reader
-- writes and the slot that the worker has found or decodes are two. The first is marked as being
-- written; the second is still ready when the worker has not marked it yet, although the mutex was
-- free in between, and is marked as being decoded from then on.
pub Reach-apart :
    {p q : Pool} (i k : ℕ)
    → Reach p q
    → p.reader ≡ none
    → p.worker ≡ waits
    → q.reader ≡ some i
    → work_slot q.worker ≡ some k
    → (i ≢ k) × Held q.slots writing (some i) × Held q.slots (work_state q.worker) (some k)
Reach-apart {p} {q} i k r no_reader no_worker reads works =
    let start : IsOwned p = record { reads = rw no_reader tt; works = rw no_worker tt } in
    let v = Reach-IsOwned start r in
    let (s, at, is) = held reads v.reads in
    let (t, tat, tis) = held works v.works in
    (
      apart q.slots i k s t at tat (λ e. work_ne_writing q.worker (sym is ∙ e ∙ tis)),
      (s, at, is),
      (t, tat, tis),
    )
  where
    held :
        {st : SlotState} {o : Option ℕ} {n : ℕ}
        → o ≡ some n
        → Held q.slots st o
        → Held q.slots st (some n)
    held {st} e h = subst (λ o. Held q.slots st o) (e) h

-- What a published slot holds is kept by every step, until the worker marks the slot.
pub Move-ReadyAt :
    {p q : Pool} (k : ℕ) (s : FrameSlot)
    → Move p q
    → IsOwned p
    → ReadyAt p.slots k s
    → ((s' : FrameSlot) × ReadyAt q.slots k s' × (s'.buf ≡ s.buf) × (s'.len ≡ s.len))
      ⊎ (q.worker ≡ decodes k)
unfolding start_decoding release publish
Move-ReadyAt k s (takes {ss} {ss'} {w} i h) v (at, is) =
    let (same, (t, tat, tis)) = take_write_inv ss ss' i h in
    let ne = apart ss i k t s tat at (λ e. free_ne_ready (sym tis ∙ e ∙ is)) in
    inl (s, (rw same (get_elem?-update_ne ss i k (mark writing) ne ∙ at), is), refl, refl)
Move-ReadyAt k s (copies {ss} {w} i bytes) v (at, is) =
    let (t, tat, tis) = v.reads in
    let ne = apart ss i k t s tat at (λ e. ready_ne_writing (sym is ∙ sym e ∙ tis)) in
    inl (s, (get_elem?-update_ne ss i k (store_unit bytes) ne ∙ at, is), refl, refl)
Move-ReadyAt k s (publishes {ss} {w} i f) v (at, is) =
    let (t, tat, tis) = v.reads in
    let ne = apart ss i k t s tat at (λ e. ready_ne_writing (sym is ∙ sym e ∙ tis)) in
    inl (s, (get_elem?-update_ne ss i k (fill f) ne ∙ at, is), refl, refl)
Move-ReadyAt k s (gives_up {ss} {w} i) v (at, is) =
    let (t, tat, tis) = v.reads in
    let ne = apart ss i k t s tat at (λ e. ready_ne_writing (sym is ∙ sym e ∙ tis)) in
    inl (s, (get_elem?-update_ne ss i k (mark free) ne ∙ at, is), refl, refl)
Move-ReadyAt k s (finds i h) v (at, is) = inl (s, (at, is), refl, refl)
Move-ReadyAt k s (marks {ss} {r} i) v (at, is) = elim (ℕ_discrete i k) [
  | yes e ↦ inr (ap decodes e)
  | no ne ↦ inl (s, (get_elem?-update_ne ss i k (mark decoding) ne ∙ at, is), refl, refl)
]
Move-ReadyAt k s (finishes {ss} {r} i) v (at, is) =
    let (t, tat, tis) = v.works in
    let ne = apart ss i k t s tat at (λ e. ready_ne_decoding (sym is ∙ sym e ∙ tis)) in
    inl (s, (get_elem?-update_ne ss i k (mark free) ne ∙ at, is), refl, refl)
Move-ReadyAt k s (shifts {ss} {r} {w} d) v (at, is) =
    inl (with_deadline d s, (get_elem?-map ss k (with_deadline d) s at, is), refl, refl)
