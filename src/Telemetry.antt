-- ===== src/Telemetry.antt =====
-- src/core/telemetry.c: the ring of telemetry lines, its writer, and the datagrams of the lines. What
-- `snprintf` prints is an argument; a call of `vmc_tlm_emit` is one step, between two steps of the
-- writer.
mod Tests
pub mod Lines
pub mod Datagram
pub mod Stall
use remote_avapps.Base.{
  ℕ, zero, suc, ◌+◌, ◌%◌, ◌==◌, ltb, leb, if◌then◌else◌, bit_and, bit_xor, ◌>>◌, u8, u16, u32, u64,
  sub32, Bool, true, false, not, ◌&&◌, ◌||◌, ◌-◌, map, List, [], ◌∷◌, length, take, set, get_or,
  replicate, Option, none, some,
}
use remote_avapps.Base.Blocks.{store}
use remote_avapps.Wire.{byte_at}
use remote_avapps.Protocol.{crc8_bits}

-- `TLM_RING_SLOTS`
abbrev pub ring_slots : ℕ
ring_slots = 16384

-- `TLM_SLOT_CAP`
abbrev pub slot_cap : ℕ
slot_cap = 384

-- `TLM_SLOT_EMPTY`, `TLM_SLOT_CLAIMED` and `TLM_SLOT_FILLED`
pub data TlmState : Type 0 where
  empty claimed filled : TlmState

-- `tlm_slot`
pub record TlmSlot : Type 0 where
  pub buf : List ℕ
  pub len : ℕ
  pub state : TlmState

-- The globals of the ring.
pub record Telemetry : Type 0 where
  pub slots : List TlmSlot
  pub head : ℕ
  pub tail : ℕ
  pub seq : ℕ
  pub dropped : ℕ
  pub enabled : Bool

-- The answer to a read past the end, which no cursor makes.
abbrev pub no_line : TlmSlot
no_line = record { buf = []; len = 0; state = empty }

abbrev pub is_empty : TlmState → Bool
is_empty empty = true
is_empty _ = false

abbrev pub is_filled : TlmState → Bool
is_filled filled = true
is_filled _ = false

-- The slot at a cursor.
abbrev pub slot_at : List TlmSlot → ℕ → TlmSlot
slot_at slots cursor = get_or slots (cursor % ring_slots) no_line

-- The copy of a line into its slot.
unfoldable pub fill_line : List ℕ → TlmSlot → TlmSlot
fill_line line s = record { buf = store s.buf 0 line; len = u16 (length line); state = filled }

-- The reservation of a slot by `vmc_tlm_emit`, its claim and the copy. Between its load and its
-- compare-exchange no other step takes place here, so the exchange succeeds.
unfoldable pub put_line : Telemetry → List ℕ → Telemetry
unfolding fill_line
put_line t line =
    if is_empty (slot_at t.slots t.head).state
    then record t {
      head = u32 (t.head + 1);
      slots = set t.slots (t.head % ring_slots) (fill_line line (slot_at t.slots t.head));
    }
    else record t { head = u32 (t.head + 1); dropped = u64 (t.dropped + 1) }

-- `vmc_tlm_emit`: `fields` is the text of the fields or none when it could not be printed, and
-- `print` the line for a number.
unfoldable pub tlm_emit : Telemetry → Option (List ℕ) → (ℕ → Option (List ℕ)) → Telemetry
tlm_emit t none print = t
tlm_emit t (some fields) print =
    if not t.enabled || not (ltb (length fields) 288) then t else numbered (u64 (t.seq + 1))
  where
    numbered : ℕ → Telemetry
    numbered seq = elim (print seq) [
      | none ↦ record t { seq = seq }
      | some line ↦
          if ltb 0 (length line) && ltb (length line) slot_cap
          then put_line (record t { seq = seq }) line
          else record t { seq = seq }
    ]

-- The inner loop of `tlm_writer`, up to the head that it has read: the lines that go to the sinks,
-- and the ring. The fuel is the number of cursors before that head.
unfoldable pub drain : ℕ → Telemetry → List (List ℕ) × Telemetry
drain zero t = ([], t)
drain (suc left) t =
    let s = slot_at t.slots t.tail in
    let (more, t') = drain left (record t {
      slots = set t.slots (t.tail % ring_slots) (record s { state = empty });
      tail = u32 (t.tail + 1);
    }) in
    if is_filled s.state then (take s.len s.buf ∷ more, t') else ([], t)

unfoldable pub drain_all : Telemetry → List (List ℕ) × Telemetry
unfolding drain
drain_all t = drain (sub32 t.head t.tail) t

-- The stores of `tlm_write_sinks` before the CRC, at the time `now`.
unfoldable pub put_envelope : List ℕ → ℕ → ℕ → List ℕ
put_envelope p len now =
    let p0 = set p 0 0x43 in
    let p1 = set p0 1 0x56 in
    let p2 = set p1 2 1 in
    let p3 = set p2 3 0 in
    let p4 = set p3 4 4 in
    let p5 = set p4 5 0 in
    let p6 = set p5 6 (u8 (bit_and (u16 len) 0xff)) in
    let p7 = set p6 7 (u8 (u16 len >> 8)) in
    let p8 = set p7 8 0 in
    let p9 = set p8 9 0 in
    let p10 = set p9 10 0 in
    let p11 = set p10 11 0 in
    let p12 = set p11 12 (u8 (bit_and now 0xff)) in
    let p13 = set p12 13 (u8 (bit_and (now >> 8) 0xff)) in
    let p14 = set p13 14 (u8 (bit_and (now >> 16) 0xff)) in
    set p14 15 (u8 (bit_and (now >> 24) 0xff))

-- The loop over the header and the line: `left` bytes from offset `j` on.
unfoldable pub sink_crc : ℕ → ℕ → List ℕ → List ℕ → ℕ → ℕ
sink_crc zero j p line crc = crc
sink_crc (suc left) j p line crc =
    let b = if ltb j 16 then byte_at p j else byte_at line (j - 16) in
    sink_crc left (j + 1) p line (crc8_bits 8 (bit_xor crc b))

-- The datagram of a line in `tlm_write_sinks`, from the buffer `g_udp_buf`; none if the line is
-- empty or does not fit.
unfoldable pub sink_datagram : List ℕ → List ℕ → ℕ → Option (List ℕ)
unfolding put_envelope sink_crc
sink_datagram buf line now =
    if ltb 0 (length line) && ltb (length line + 17) 65552
    then (let p = put_envelope buf (length line) now in
        let stamped = set p 16 (sink_crc (16 + length line) 0 p line 0) in
        some (take (17 + length line) (store stamped 17 line)))
    else none

abbrev pub set_empty : TlmSlot → TlmSlot
set_empty s = record s { state = empty }

-- The stores of `vmc_tlm_init` before it starts the writer.
unfoldable pub tlm_start : Telemetry → Telemetry
tlm_start t = record t {
  head = 0;
  tail = 0;
  seq = 0;
  dropped = 0;
  slots = map set_empty t.slots;
  enabled = true;
}

-- `vmc_tlm_shutdown`, once the writer is joined and the sinks are closed.
unfoldable pub tlm_shutdown : Telemetry → Telemetry
tlm_shutdown t =
    if not t.enabled
    then t
    else record t { enabled = false; head = 0; tail = 0; seq = 0; slots = map set_empty t.slots }

-- The report of `tlm_writer` on the lines that were dropped: their count and the number that its
-- line carries, if there are any.
unfoldable pub report_dropped : Telemetry → Option (ℕ × ℕ) × Telemetry
report_dropped t =
    if ltb 0 t.dropped
    then (some (t.dropped, u64 (t.seq + 1)), record t { dropped = 0; seq = u64 (t.seq + 1) })
    else (none, t)

-- One turn of the loop of `tlm_writer` on the ring.
unfoldable pub writer_turn : Telemetry → List (List ℕ) × Option (ℕ × ℕ) × Telemetry
unfolding drain_all report_dropped
writer_turn t =
    let (lines, t1) = drain_all t in let (notice, t2) = report_dropped t1 in (lines, notice, t2)
