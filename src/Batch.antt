-- ===== src/Batch.antt =====
-- src/input/batch.c, include/vmc/input/batch.h and input.h: batches of input events and their wire
-- format. The little-endian accessors of batch.c are those of protocol.c once more (`Wire`). A
-- pointer that the code tests for NULL is an option.
pub mod Push
pub mod Event
pub mod RoundTrip
pub mod Prefix
mod Tests
use remote_avapps.Base.{
  ℕ, zero, suc, ◌+◌, ◌*◌, ltb, leb, if◌then◌else◌, u16, u32, Bool, List, [], ◌∷◌, length, set,
  get_or, replicate, Option, none, some,
}
use remote_avapps.Status.{Status, ok, invalid_arg, no_mem, proto, overrun}
use remote_avapps.Wire.{rd16, rd32, wr16, wr32}

-- `vmc_input_event`: 16 bytes.
pub record InputEvent : Type 0 where
  pub kind : ℕ
  pub slot : ℕ
  pub x : ℕ
  pub y : ℕ
  pub pressure : ℕ
  pub buttons : ℕ
  pub ts_us : ℕ

-- `sizeof(vmc_input_event)`
abbrev pub event_size : ℕ
event_size = 16

-- `VMC_INPUT_BATCH_MAX_EVENTS`
abbrev pub max_events : ℕ
max_events = 32

abbrev pub no_event : InputEvent
no_event = record { kind = 0; slot = 0; x = 0; y = 0; pressure = 0; buttons = 0; ts_us = 0 }

-- `vmc_input_batch`
pub record Batch : Type 0 where
  pub events : List InputEvent
  pub count : ℕ

-- `vmc_input_batch_reset`
unfoldable pub reset : Batch → Batch
reset b = record b { count = 0 }

-- `vmc_input_batch_full`
unfoldable pub full : Batch → Bool
full b = leb max_events b.count

-- `vmc_input_batch_push`, on a batch that is not NULL.
unfoldable pub push : Batch → Option InputEvent → Status × Batch
unfolding full
push b none = (invalid_arg, b)
push b (some ev) =
    if full b
    then (overrun, b)
    else (ok, record { events = set b.events b.count ev; count = u16 (b.count + 1) })

-- The stores of one turn of the loop of `vmc_input_batch_serialize`.
unfoldable pub put_event : List ℕ → ℕ → InputEvent → List ℕ
put_event buf p e =
    let b0 = wr16 buf p e.kind in
    let b1 = wr16 b0 (p + 2) e.slot in
    let b2 = wr16 b1 (p + 4) e.x in
    let b3 = wr16 b2 (p + 6) e.y in
    let b4 = wr16 b3 (p + 8) e.pressure in
    let b5 = wr16 b4 (p + 10) e.buttons in wr32 b5 (p + 12) e.ts_us

-- The loop of `vmc_input_batch_serialize`: `left` events from index `i` on, to the offset `p`. The
-- counter is below `count`, a `u16`, so it does not wrap.
unfoldable pub put_events : ℕ → List InputEvent → ℕ → List ℕ → ℕ → List ℕ
put_events zero events i buf p = buf
put_events (suc left) events i buf p =
    put_events left events (i + 1) (put_event buf p (get_or events i no_event)) (p + event_size)

pub data Serialized : Type 0 where
  written : ℕ → List ℕ → Serialized
  failed : Status → Serialized

-- `vmc_input_batch_serialize`
unfoldable pub serialize : Batch → Option (List ℕ) → ℕ → Serialized
serialize b none cap = failed invalid_arg
serialize b (some out) cap =
    let need = 2 + b.count * event_size in
    if ltb cap need
    then failed no_mem
    else written need (put_events b.count b.events 0 (wr16 out 0 b.count) 2)

-- The reads of one turn of the loop of `vmc_input_batch_deserialize`.
unfoldable pub get_event : List ℕ → ℕ → InputEvent
get_event buf p = record {
  kind = rd16 buf p;
  slot = rd16 buf (p + 2);
  x = rd16 buf (p + 4);
  y = rd16 buf (p + 6);
  pressure = rd16 buf (p + 8);
  buttons = rd16 buf (p + 10);
  ts_us = rd32 buf (p + 12);
}

-- The loop of `vmc_input_batch_deserialize`.
unfoldable pub get_events : ℕ → List ℕ → ℕ → ℕ → List InputEvent → List InputEvent
get_events zero buf p i events = events
get_events (suc left) buf p i events =
    get_events left buf (p + event_size) (i + 1) (set events i (get_event buf p))

-- `vmc_input_batch_deserialize`, into a batch that is not NULL.
unfoldable pub deserialize : Option (List ℕ) → ℕ → Batch → Status × Batch
deserialize none len out = (invalid_arg, out)
deserialize (some buf) len out =
    if ltb len 2
    then (proto, out)
    else let count = rd16 buf 0 in
      let need = 2 + count * event_size in
      if ltb len need
      then (proto, out)
      else if ltb max_events count
      then (proto, out)
      else (ok, record { events = get_events count buf 2 0 out.events; count = count })
