-- ===== src/Client/Receive.antt =====
-- apps/thinclient/main.c: the receive part of the main loop. A datagram lies at the start of the
-- packet buffer, and its length is what the transport returned. The clocks are arguments.
use remote_avapps.Base.{ℕ, ◌==◌, if◌then◌else◌, bit_and, not, ◌&&◌, List, [], ◌∷◌, some}
use remote_avapps.Status.{is_ok}
use remote_avapps.Protocol.{Header, accepted, refused, decode}
use remote_avapps.Jitter.{Buffer, Packet}
use remote_avapps.Jitter
use remote_avapps.Ring.{RingBuf}
use remote_avapps.Ring
use remote_avapps.Context.{Context, on_rx, stream_control}
use remote_avapps.Client.Latency.{Latency, update_rtt}

abbrev pub stream_video : ℕ
stream_video = 1

abbrev pub stream_audio : ℕ
stream_audio = 2

-- `VMC_PROTO_FLAG_KEYFRAME`
abbrev pub keyframe_flag : ℕ
keyframe_flag = 2

-- What the loop keeps: the jitter buffer, the latency statistics, the queue of audio bytes and the
-- session.
pub record Receiver : Type 0 where
  pub jb : Buffer
  pub latency : Latency
  pub audio : RingBuf
  pub session : Context

-- The times at which one datagram is handled: of the two pushes, of the echo, and the session's.
pub record Clocks : Type 0 where
  pub push_us : ℕ
  pub again_us : ℕ
  pub echo_us : ℕ
  pub session_ms : ℕ

-- The arguments of `vmc_jb_push`.
abbrev pub packet : Header → List ℕ → ℕ → Packet
packet h payload now_us = record {
  seq = h.seq;
  ts_us = h.ts_us;
  stream = h.stream;
  flags = h.flags;
  payload = some payload;
  len = h.payload_len;
  recv_us = now_us;
}

-- A keyframe that is refused starts the playout over at its number.
unfoldable pub push_video : Buffer → Header → List ℕ → ℕ → ℕ → Buffer
push_video jb h payload push_us again_us =
    let (st, jb') = Jitter.push jb (packet h payload push_us) in
    if not (is_ok st) && not (bit_and h.flags keyframe_flag == 0)
    then (Jitter.push (Jitter.reset jb' h.seq) (packet h payload again_us)).1
    else jb'

-- The handling of a datagram that decodes.
unfoldable pub on_frame : Receiver → List ℕ → ℕ → Header → List ℕ → Clocks → Receiver
on_frame r pkt n h payload t = record {
  jb = if h.stream == stream_video then push_video r.jb h payload t.push_us t.again_us else r.jb;
  latency =
      if h.stream == stream_control
      then update_rtt r.latency r.session.last_ka_send_us t.echo_us h.ts_us
      else r.latency;
  audio =
      if h.stream == stream_audio then (Ring.write r.audio payload h.payload_len).1 else r.audio;
  session = (on_rx r.session (some pkt) n t.session_ms).1;
}

-- One turn of the loop.
unfoldable pub on_datagram : Receiver → List ℕ → ℕ → Clocks → Receiver
on_datagram r pkt n t = elim (decode (some pkt) n) [
  | refused st ↦ r
  | accepted h payload ↦ on_frame r pkt n h payload t
]

-- The loop, over the datagrams that the transport returns before its first error.
unfoldable pub receive_all : Receiver → List (List ℕ × ℕ × Clocks) → Receiver
receive_all r [] = r
receive_all r ((pkt, n, t) ∷ more) = receive_all (on_datagram r pkt n t) more
