-- ===== src/Sim/Answer.antt =====
-- tools/vmc_sim/main.c: the answers of the simulator to the datagrams of the client. The datagrams
-- that `recvfrom` returns before its first error are an argument, with the clock for each.
use remote_avapps.Base.{
  ℕ, ◌+◌, ◌<◌, ◌≡◌, ◌==◌, refl, arith, sym, ap, ltb, if◌then◌else◌, u32, u64, Bool, true, List, [],
  ◌∷◌, ◌++◌, take, replicate, none, some,
}
use mathlib.Core.Path.{subst}
use remote_avapps.Protocol.{
  Header, header_size, header_valid, magic_value, version_value, Decoded, accepted, refused,
  Encoded, written, failed, encode, decode,
}
use remote_avapps.Protocol.Encoding.{frame, encode_lem, FitsWidths}
use remote_avapps.Protocol.RoundTrip.{stamped, decode-frame}
use remote_avapps.Context.{stream_control}
use remote_avapps.Client.Uplink.{stream_input}

-- The counters of `sim_ctx`, and whether the address of a client is known.
pub record Answers : Type 0 where
  pub have_client : Bool
  pub control_rx : ℕ
  pub input_rx : ℕ

-- The header of an echo.
abbrev pub echo_header : ℕ → ℕ → Header
echo_header seq ts_us = record {
  magic = magic_value;
  version = version_value;
  flags = 0;
  stream = stream_control;
  reserved = 0;
  payload_len = 0;
  seq = seq;
  ts_us = ts_us;
  crc = 0;
}

-- What goes to `udp_send`.
abbrev pub echoed : Encoded → List (List ℕ)
echoed (failed st) = []
echoed (written n out) = if ltb 0 n then take n out ∷ [] else []

-- A datagram that decodes.
unfoldable pub answer_frame : Answers → Header → ℕ → List (List ℕ) × Answers
answer_frame a h now_us =
    if h.stream == stream_control
    then (
      echoed (
          encode (some (replicate header_size 0)) header_size
            (some (echo_header (u32 (h.seq + 1)) now_us)) none),
      record a { control_rx = u64 (a.control_rx + 1) },
    )
    else if h.stream == stream_input
    then ([], record a { input_rx = u64 (a.input_rx + 1) })
    else ([], a)

-- What `vmc_proto_decode` gave.
unfoldable pub answer_decoded : Answers → Decoded → ℕ → List (List ℕ) × Answers
unfolding answer_frame
answer_decoded a (refused st) now_us = ([], record a { have_client = true })
answer_decoded a (accepted h payload) now_us =
    answer_frame (record a { have_client = true }) h now_us

-- One turn of the loop of `drain_media`, on a datagram of `n` bytes in the receive buffer.
unfoldable pub answer : Answers → List ℕ → ℕ → ℕ → List (List ℕ) × Answers
unfolding answer_decoded
answer a rbuf n now_us = answer_decoded a (decode (some rbuf) n) now_us

-- The loop of `drain_media`.
unfoldable pub drain_media : Answers → List (List ℕ × ℕ × ℕ) → List (List ℕ) × Answers
drain_media a [] = ([], a)
drain_media a ((rbuf, n, now_us) ∷ more) =
    let (sent, a') = answer a rbuf n now_us in
    let (later, a'') = drain_media a' more in (sent ++ later, a'')

echo_lem :
    (seq ts : ℕ)
    → echoed (encode (some (replicate header_size 0)) header_size (some (echo_header seq ts)) none)
      ≡ frame (echo_header seq ts) [] ∷ []
unfolding header_valid
echo_lem seq ts = ap echoed (
    encode_lem (replicate header_size 0) header_size (echo_header seq ts) none [] refl refl refl
      (omega arith) (omega arith))

-- One datagram is sent: the echo of a control datagram with the number `seq`.
abbrev pub Echoes : Answers → ℕ → ℕ → List (List ℕ) × Answers → Type 0
Echoes a seq now_us (sent, a') =
    (d : List ℕ) × (sent ≡ d ∷ [])
    × (decode (some d) header_size ≡ accepted (stamped (echo_header (u32 (seq + 1)) now_us) []) [])
    × (a' ≡ record a { have_client = true; control_rx = u64 (a.control_rx + 1) })

answer_frame-control :
    (a : Answers) (h : Header) (now_us : ℕ)
    → h.stream ≡ stream_control
    → now_us < 4294967296
    → Echoes a h.seq now_us (answer_frame (record a { have_client = true }) h now_us)
unfolding answer_frame header_valid
answer_frame-control a h now_us control small =
    let g = echo_header (u32 (h.seq + 1)) now_us in
    let fits : FitsWidths g = omega (arith, small) in
    rw control (
      frame g [],
      echo_lem (u32 (h.seq + 1)) now_us,
      decode-frame g [] [] header_size fits refl refl (omega arith),
      refl,
    )

-- A control datagram is answered by one datagram, which decodes as a control datagram without
-- payload, with the next number and the simulator's time; it is counted. The time is 32-bit.
pub answer-control :
    (a : Answers) (rbuf : List ℕ) (n now_us : ℕ) (h : Header) (payload : List ℕ)
    → decode (some rbuf) n ≡ accepted h payload
    → h.stream ≡ stream_control
    → now_us < 4294967296
    → Echoes a h.seq now_us (answer a rbuf n now_us)
unfolding answer answer_decoded
answer-control a rbuf n now_us h payload e control small =
    subst (λ d. Echoes a h.seq now_us (answer_decoded a d now_us)) (sym e)
      (answer_frame-control a h now_us control small)
