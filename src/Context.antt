-- ===== src/Context.antt =====
-- src/session/session.c and include/vmc/session/session.h: a session over a transport. The clocks
-- are read by the caller and handed in, `clock_ms` and `clock_us` for `vmc_time_now_ms` and
-- `vmc_time_now_us`. What is handed to `vmc_transport_send` is returned as a list of packets; its
-- result is ignored by the code. The context is not NULL, and the borrowed pointer to the transport
-- is left out. `vmc_session_ctx_init` sets no callback, so the calls of a dispatch are left out too.
pub mod Keepalive
pub mod Link
mod Tests
use remote_avapps.Base.{
  ℕ, ◌+◌, ◌==◌, ltb, leb, if◌then◌else◌, u8, u32, u64, sub64, Bool, true, false, not, ◌&&◌, List,
  [], ◌∷◌, replicate, Option, none, some,
}
use remote_avapps.Status.{Status, ok, invalid_arg}
use remote_avapps.Protocol.{
  Header, magic_value, version_value, header_size, Encoded, written, failed, encode, DecodedHeader,
  header, no_header, decode_header,
}
use remote_avapps.Session.{
  Session, Event, Outcome, Callbacks, active, degraded, boot, user_terminate, link_lost, get_state,
  dispatch, init,
}

-- `VMC_PROTO_STREAM_CONTROL`
abbrev pub stream_control : ℕ
stream_control = 0

-- `vmc_session_config`
pub record Config : Type 0 where
  pub container_host : List ℕ
  pub container_port : ℕ
  pub keepalive_ms : ℕ
  pub link_timeout_ms : ℕ

-- `vmc_session_ctx`
pub record Context : Type 0 where
  pub sm : Session
  pub cfg : Config
  pub last_rx_ms : ℕ
  pub last_keepalive_ms : ℕ
  pub last_ka_send_us : ℕ
  pub tx_seq : ℕ
  pub keepalive_interval_ms : ℕ

abbrev pub no_callbacks : Callbacks
no_callbacks = record {
  on_state_change = false;
  on_quality_drop = false;
  on_session_lost = false;
  on_terminated = false;
}

-- `vmc_session_ctx_init`
unfoldable pub ctx_init : Config → ℕ → Status × Context
unfolding init
ctx_init cfg clock_ms =
    let (st, sm) = init no_callbacks in
    (
      st,
      record {
        sm = sm;
        cfg = cfg;
        last_rx_ms = clock_ms;
        last_keepalive_ms = clock_ms;
        last_ka_send_us = 0;
        tx_seq = 0;
        keepalive_interval_ms = if cfg.keepalive_ms == 0 then 2000 else cfg.keepalive_ms;
      },
    )

-- A dispatch on the machine of a context, after the packets sent.
unfoldable pub feed_event : Context → Event → List (List ℕ) → Status × Context × List (List ℕ)
feed_event sc ev sent = let (st, sm, calls) = dispatch sc.sm ev in (st, record sc { sm = sm }, sent)

-- `vmc_session_start`
unfoldable pub start : Context → Status × Context × List (List ℕ)
start sc = feed_event sc boot []

-- `vmc_session_stop`
unfoldable pub stop : Context → Status × Context × List (List ℕ)
stop sc = feed_event sc user_terminate []

-- The header that `send_keepalive` fills in.
abbrev pub keepalive_header : ℕ → ℕ → Header
keepalive_header tx_seq now_ms = record {
  magic = magic_value;
  version = version_value;
  flags = 0;
  stream = stream_control;
  reserved = 0;
  payload_len = 0;
  seq = u32 tx_seq;
  ts_us = u32 now_ms;
  crc = 0;
}

-- The end of `send_keepalive`, on the result of the encoding.
unfoldable pub transmit : Context → ℕ → Encoded → Context × List (List ℕ)
transmit sc clock_us (failed st) = (sc, [])
transmit sc clock_us (written n pkt) = (record sc { last_ka_send_us = clock_us }, pkt ∷ [])

-- `send_keepalive`; every byte of the local packet is written, whatever it held.
unfoldable pub send_keepalive : Context → ℕ → ℕ → Context × List (List ℕ)
send_keepalive sc now_ms clock_us =
    transmit (record sc { tx_seq = u64 (sc.tx_seq + 1) }) clock_us
      (encode (some (replicate header_size 0)) header_size
        (some (keepalive_header sc.tx_seq now_ms)) none)

-- The first `if` of `vmc_session_step`.
unfoldable pub keep_alive : Context → ℕ → ℕ → Context × List (List ℕ)
keep_alive sc now_ms clock_us =
    if leb sc.keepalive_interval_ms (sub64 now_ms sc.last_keepalive_ms)
    then (let (sc', sent) = send_keepalive sc now_ms clock_us in
        (record sc' { last_keepalive_ms = now_ms }, sent))
    else (sc, [])

-- The second `if`; its line for the log is left out.
unfoldable pub detect_loss : Context → ℕ → List (List ℕ) → Status × Context × List (List ℕ)
detect_loss sc now_ms sent =
    if ltb 0 sc.cfg.link_timeout_ms && ltb sc.cfg.link_timeout_ms (sub64 now_ms sc.last_rx_ms)
    then feed_event sc link_lost sent
    else (ok, sc, sent)

-- The two `case`s of `vmc_session_step` with a body.
unfoldable pub drive : Context → ℕ → ℕ → Status × Context × List (List ℕ)
drive sc now_ms clock_us =
    let (sc', sent) = keep_alive sc now_ms clock_us in detect_loss sc' now_ms sent

-- `vmc_session_step`
unfoldable pub step : Context → ℕ → ℕ → Status × Context × List (List ℕ)
step sc now_ms clock_us = elim (get_state (some sc.sm)) [
  | active ↦ drive sc now_ms clock_us
  | degraded ↦ drive sc now_ms clock_us
  | _ ↦ (ok, sc, [])
]

-- `vmc_session_on_rx` after the decoding of the header.
unfoldable pub received : Context → ℕ → DecodedHeader → Status × Context
received sc clock_ms (no_header st) = (st, sc)
received sc clock_ms (header h) =
    if h.stream == stream_control then (ok, record sc { last_rx_ms = clock_ms }) else (ok, sc)

-- `vmc_session_on_rx`
unfoldable pub on_rx : Context → Option (List ℕ) → ℕ → ℕ → Status × Context
on_rx sc none len clock_ms = (invalid_arg, sc)
on_rx sc (some packet) len clock_ms = received sc clock_ms (decode_header (some packet) len)
