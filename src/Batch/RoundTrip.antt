-- ===== src/Batch/RoundTrip.antt =====
-- src/input/batch.c: what `vmc_input_batch_serialize` writes, `vmc_input_batch_deserialize` reads
-- back.
use remote_avapps.Base.{
  ℕ, zero, suc, ◌+◌, ◌-◌, ◌*◌, ◌<◌, ◌≤◌, ◌≡◌, refl, sym, arith, ltb-false, List, length, set,
  get_or, drop, ◌++◌, get_or-drop, get_or-append_left, get_or-append_right, length-append,
  length-drop, ap, ◌∙◌, length-set, get_or-set_self, get_or-set_ne, get_or-take, get_or_ext,
  length-take, some, ◌⊎◌, inl, inr,
}
use native.Mathlib.Decide.{dec_lt}
use remote_avapps.Status.{ok}
use remote_avapps.Wire.{byte_at, rd16, wr16}
use remote_avapps.Wire.Laws.{rd16-wr16, rd16_same, rd32_same, length-wr16}
use remote_avapps.Batch.{
  InputEvent, Batch, no_event, event_size, max_events, put_event, put_events, serialize, written,
  get_event, get_events, deserialize,
}
use remote_avapps.Batch.Push.{FitsEvent, IsValid, live}
use remote_avapps.Batch.Event.{length-put_event, put_event_outside, get_event-put_event}

event : List InputEvent → ℕ → InputEvent
event events i = get_or events i no_event

pub get_event_same :
    (a b : List ℕ) (p : ℕ)
    → ((j : ℕ) → p ≤ j → j < p + event_size → byte_at a j ≡ byte_at b j)
    → get_event a p ≡ get_event b p
unfolding get_event
get_event_same a b p same = λ i. record {
  kind = rd16_same a b p (λ j l h. same j (omega arith) (omega arith)) i;
  slot = rd16_same a b (p + 2) (λ j l h. same j (omega arith) (omega arith)) i;
  x = rd16_same a b (p + 4) (λ j l h. same j (omega arith) (omega arith)) i;
  y = rd16_same a b (p + 6) (λ j l h. same j (omega arith) (omega arith)) i;
  pressure = rd16_same a b (p + 8) (λ j l h. same j (omega arith) (omega arith)) i;
  buttons = rd16_same a b (p + 10) (λ j l h. same j (omega arith) (omega arith)) i;
  ts_us = rd32_same a b (p + 12) (λ j l h. same j (omega arith) (omega arith)) i;
}

-- The loop writes from its offset on.
put_events_outside :
    (left : ℕ) (events : List InputEvent) (i : ℕ) (buf : List ℕ) (p j : ℕ)
    → j < p
    → byte_at (put_events left events i buf p) j ≡ byte_at buf j
unfolding put_events
put_events_outside zero events i buf p j h = refl
put_events_outside (suc left) events i buf p j h =
    put_events_outside left events (i + 1) (put_event buf p (get_or events i no_event))
      (p + event_size) j (omega arith)
    ∙ put_event_outside buf p (get_or events i no_event) j (inl h)

pub length-put_events :
    (left : ℕ) (events : List InputEvent) (i : ℕ) (buf : List ℕ) (p : ℕ)
    → length (put_events left events i buf p) ≡ length buf
unfolding put_events
length-put_events zero events i buf p = refl
length-put_events (suc left) events i buf p =
    length-put_events left events (i + 1) (put_event buf p (get_or events i no_event))
      (p + event_size)
    ∙ length-put_event buf p (get_or events i no_event)

-- Each event of the loop reads back at its place.
get_event-put_events :
    (left : ℕ) (events : List InputEvent) (i : ℕ) (buf : List ℕ) (p k : ℕ)
    → ((j : ℕ) → i ≤ j → j < i + left → FitsEvent (get_or events j no_event))
    → p + left * event_size ≤ length buf
    → k < left
    → get_event (put_events left events i buf p) (p + k * event_size)
      ≡ get_or events (i + k) no_event
unfolding put_events
get_event-put_events zero events i buf p k w fits h = absurd (omega arith)
get_event-put_events (suc left) events i buf p zero w fits h =
    let e : p + 0 * event_size ≡ p = omega arith in
    let e' : i ≡ i + 0 = omega arith in
    let ev : InputEvent = get_or events i no_event in
    ap (get_event (put_events left events (i + 1) (put_event buf p ev) (p + event_size))) e
    ∙ get_event_same (put_events left events (i + 1) (put_event buf p ev) (p + event_size))
        (put_event buf p ev) p
        (λ j low high.
          put_events_outside left events (i + 1) (put_event buf p ev) (p + event_size) j high)
    ∙ get_event-put_event buf p ev (w i (omega arith) (omega arith)) (omega arith)
    ∙ ap (λ k. get_or events k no_event) e'
get_event-put_events (suc left) events i buf p (suc k) w fits h =
    let ev : InputEvent = get_or events i no_event in
    let e : p + suc k * event_size ≡ p + event_size + k * event_size = omega arith in
    let e' : i + 1 + k ≡ i + suc k = omega arith in
    ap (get_event (put_events left events (i + 1) (put_event buf p ev) (p + event_size))) e
    ∙ get_event-put_events left events (i + 1) (put_event buf p ev) (p + event_size) k
        (λ j l r. w j (omega arith) (omega arith)) (omega (arith, length-put_event buf p ev))
        (omega arith)
    ∙ ap (λ k. get_or events k no_event) e'

-- The reading loop fills the array from its index on.
length-get_events :
    (left : ℕ) (buf : List ℕ) (p i : ℕ) (events : List InputEvent)
    → length (get_events left buf p i events) ≡ length events
unfolding get_events
length-get_events zero buf p i events = refl
length-get_events (suc left) buf p i events =
    length-get_events left buf (p + event_size) (i + 1) (set events i (get_event buf p))
    ∙ length-set events i (get_event buf p)

get_events_outside :
    (left : ℕ) (buf : List ℕ) (p i : ℕ) (events : List InputEvent) (j : ℕ)
    → (j < i) ⊎ (i + left ≤ j)
    → get_or (get_events left buf p i events) j no_event ≡ get_or events j no_event
unfolding get_events
get_events_outside zero buf p i events j h = refl
get_events_outside (suc left) buf p i events j h =
    get_events_outside left buf (p + event_size) (i + 1) (set events i (get_event buf p)) j
      (omega arith)
    ∙ get_or-set_ne events i j (get_event buf p) no_event (omega arith)

get_events_inside :
    (left : ℕ) (buf : List ℕ) (p i : ℕ) (events : List InputEvent) (k : ℕ)
    → i + left ≤ length events
    → k < left
    → get_or (get_events left buf p i events) (i + k) no_event ≡ get_event buf (p + k * event_size)
unfolding get_events
get_events_inside zero buf p i events k fits h = absurd (omega arith)
get_events_inside (suc left) buf p i events zero fits h =
    let e : i + 0 ≡ i = omega arith in
    let e' : p ≡ p + 0 * event_size = omega arith in
    let filled : List InputEvent = set events i (get_event buf p) in
    ap (λ k. get_or (get_events left buf (p + event_size) (i + 1) filled) k no_event) e
    ∙ get_events_outside left buf (p + event_size) (i + 1) filled i (inl (omega arith))
    ∙ get_or-set_self events i (get_event buf p) no_event (omega arith)
    ∙ ap (get_event buf) e'
get_events_inside (suc left) buf p i events (suc k) fits h =
    let e : i + suc k ≡ i + 1 + k = omega arith in
    let e' : p + event_size + k * event_size ≡ p + suc k * event_size = omega arith in
    let filled : List InputEvent = set events i (get_event buf p) in
    ap (λ k. get_or (get_events left buf (p + event_size) (i + 1) filled) k no_event) e
    ∙ get_events_inside left buf (p + event_size) (i + 1) filled k
        (omega (arith, length-set events i (get_event buf p))) (omega arith)
    ∙ ap (get_event buf) e'

module _ (b : Batch) (out : List ℕ) (v : IsValid b)
    (room : 2 + b.count * event_size ≤ length out) where
  wire : List ℕ
  wire = put_events b.count b.events 0 (wr16 out 0 b.count) 2

  count_back : rd16 wire 0 ≡ b.count
  unfolding wire
  count_back =
      rd16_same _ (wr16 out 0 b.count) 0
        (λ j l h. put_events_outside b.count b.events 0 (wr16 out 0 b.count) 2 j (omega arith))
      ∙ rd16-wr16 out 0 b.count (omega arith) (omega (arith, v.count_in))

  event_back :
      (k : ℕ) → k < b.count → get_event wire (2 + k * event_size) ≡ get_or b.events k no_event
  unfolding wire
  event_back k h =
      let e : 0 + k ≡ k = omega arith in
      get_event-put_events b.count b.events 0 (wr16 out 0 b.count) 2 k
        (λ j l r. v.fit j (omega arith)) (omega (arith, length-wr16 out 0 b.count)) h
      ∙ ap (λ i. get_or b.events i no_event) e

  -- The array that the reading loop leaves.
  events_back :
      (into : List InputEvent)
      → length into ≡ max_events
      → get_events b.count wire 2 0 into ≡ live b ++ drop b.count into
  events_back into array =
      get_or_ext no_event (get_events b.count wire 2 0 into) (live b ++ drop b.count into)
        (omega (
          arith,
          length-get_events b.count wire 2 0 into,
          length-append (live b) (drop b.count into),
          held,
          length-drop b.count into,
          v.count_in,
        ))
        pointwise
    where
      held : length (live b) ≡ b.count
      held = omega (arith, length-take b.count b.events, v.count_in, v.array)

      inside :
          (i : ℕ)
          → i < b.count
          → get_or (get_events b.count wire 2 0 into) i no_event
            ≡ get_or (live b ++ drop b.count into) i no_event
      inside i h =
          let e : i ≡ 0 + i = omega arith in
          ap (λ k. get_or (get_events b.count wire 2 0 into) k no_event) e
          ∙ get_events_inside b.count wire 2 0 into i (omega (arith, v.count_in)) h
          ∙ event_back i h
          ∙ sym (get_or-take b.count i b.events no_event h)
          ∙ sym (get_or-append_left (live b) (drop b.count into) i no_event (omega (arith, held)))

      behind :
          (i : ℕ)
          → get_or (get_events b.count wire 2 0 into) (b.count + i) no_event
            ≡ get_or (live b ++ drop b.count into) (b.count + i) no_event
      behind i =
          get_events_outside b.count wire 2 0 into (b.count + i) (inr (omega arith))
          ∙ sym (get_or-drop b.count i into no_event)
          ∙ sym (get_or-append_right (live b) (drop b.count into) i no_event)
          ∙ ap (λ k. get_or (live b ++ drop b.count into) (k + i) no_event) held

      pointwise :
          (i : ℕ)
          → i < length (get_events b.count wire 2 0 into)
          → get_or (get_events b.count wire 2 0 into) i no_event
            ≡ get_or (live b ++ drop b.count into) i no_event
      pointwise i h = elim (dec_lt i b.count) [
        | yes p ↦ inside i p
        | no p ↦
            let e : b.count + (i - b.count) ≡ i = omega arith in
            ap (λ k. get_or (get_events b.count wire 2 0 into) k no_event) (sym e)
            ∙ behind (i - b.count)
            ∙ ap (λ k. get_or (live b ++ drop b.count into) k no_event) e
      ]

  decoded :
      (into : Batch)
      → length into.events ≡ max_events
      → deserialize (some wire) (2 + b.count * event_size) into
        ≡ (ok, record { events = live b ++ drop b.count into.events; count = b.count })
  unfolding deserialize
  decoded into array =
      rw
        (
          ltb-false (2 + b.count * event_size) 2 (omega arith),
          count_back,
          ltb-false (2 + b.count * event_size) (2 + b.count * event_size) (omega arith),
          ltb-false max_events b.count v.count_in,
        )
        (ap (λ es. (ok, record { events = es; count = b.count })) (events_back into.events array))

-- A valid batch that is serialized into a buffer with room for it, and read back into a batch,
-- gives the same count and the same events; the slots behind them keep what they held.
pub deserialize-serialize :
    (b : Batch) (out : List ℕ) (cap : ℕ) (into : Batch)
    → IsValid b
    → 2 + b.count * event_size ≤ cap
    → cap ≤ length out
    → length into.events ≡ max_events
    → (bytes : List ℕ) × (serialize b (some out) cap ≡ written (2 + b.count * event_size) bytes)
      × (deserialize (some bytes) (2 + b.count * event_size) into
          ≡ (ok, record { events = live b ++ drop b.count into.events; count = b.count }))
unfolding serialize wire
deserialize-serialize b out cap into v room fits array = (
  wire b out v (omega arith),
  rw (ltb-false cap (2 + b.count * event_size) room),
  decoded b out v (omega arith) into array,
)
