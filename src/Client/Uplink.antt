-- ===== src/Client/Uplink.antt =====
-- apps/thinclient/main.c: the input part of the main loop. The events that `vmc_input_poll` returns
-- before its first error are an argument; `pkt` and `batch_pkt` are the loop's buffers.
pub mod Flush
pub mod Sent
mod Tests
use remote_avapps.Base.{
  ℕ, ◌+◌, ◌-◌, ◌*◌, ltb, leb, if◌then◌else◌, u16, u32, u64, sub64, Bool, true, false, ◌&&◌, List,
  [], ◌∷◌, drop, take, Option, none, some,
}
use remote_avapps.Status.{Status, overrun}
use remote_avapps.Protocol.{Header, header_size, magic_value, version_value, Encoded, encode}
use remote_avapps.Protocol
use remote_avapps.Batch.{InputEvent, Batch, event_size, Serialized, serialize}
use remote_avapps.Batch

abbrev pub stream_input : ℕ
stream_input = 3

-- `sizeof(batch_pkt)`
abbrev pub batch_pkt_cap : ℕ
batch_pkt_cap = 531

-- `input_flush_ms`
abbrev pub input_flush_ms : ℕ
input_flush_ms = 4

-- What the loop keeps between its turns.
pub record Uplink : Type 0 where
  pub tx_seq : ℕ
  pub last_input_flush_ms : ℕ

abbrev pub is_overrun : Status → Bool
is_overrun overrun = true
is_overrun _ = false

-- The `while` loop over the events: the batch, and the events that are left. The event that a full
-- batch refuses is gone.
unfoldable pub collect : List InputEvent → Batch → Batch × List InputEvent
collect [] b = (b, [])
collect (ev ∷ evs) b =
    let (st, b') = Batch.push b (some ev) in
    let rest = collect evs b' in if is_overrun st then (b', evs) else rest

-- The header of a batch.
abbrev pub batch_header : ℕ → ℕ → ℕ → Header
batch_header count seq now_ms = record {
  magic = magic_value;
  version = version_value;
  flags = 0;
  stream = stream_input;
  reserved = 0;
  payload_len = u16 (2 + count * event_size);
  seq = seq;
  ts_us = u32 now_ms;
  crc = 0;
}

-- The datagram that goes to the transport.
abbrev pub datagram : Encoded → Option (List ℕ)
datagram (Protocol.failed st) = none
datagram (Protocol.written n out) = if ltb 0 n then some (take n out) else none

-- The batch behind the place of the header in `pkt`, of `cap` bytes; then the whole in `batch_pkt`.
abbrev pub framed : Serialized → List ℕ → Header → Option (List ℕ)
framed (Batch.failed st) batch_pkt h = none
framed (Batch.written n payload) batch_pkt h =
    if ltb 0 n
    then datagram (encode (some batch_pkt) batch_pkt_cap (some h) (some payload))
    else none

-- The input part of a turn of the loop: what is sent, the events that are left, and the state.
unfoldable pub flush_input :
    Uplink
    → List ℕ
    → List ℕ
    → Batch
    → List InputEvent
    → ℕ
    → Option (List ℕ) × List InputEvent × Uplink
unfolding collect
flush_input u pkt batch_pkt scratch evs now_ms =
    let (b, rest) = collect evs (Batch.reset scratch) in
    if leb input_flush_ms (sub64 now_ms u.last_input_flush_ms) && ltb 0 b.count
    then (
      framed (serialize b (some (drop header_size pkt)) (65552 - header_size)) batch_pkt
          (batch_header b.count (u32 u.tx_seq) now_ms),
      rest,
      record { tx_seq = u64 (u.tx_seq + 1); last_input_flush_ms = now_ms },
    )
    else (none, rest, u)
