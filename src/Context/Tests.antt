-- ===== src/Context/Tests.antt =====
-- Runs of src/session/session.c, and its theorems at concrete inputs.
use remote_avapps.Base.{ℕ, ◌≡◌, refl, arith, true, List, [], ◌∷◌, some, inl}
use remote_avapps.Status.{ok}
use remote_avapps.Protocol.{decode_header, header, read_header, header_valid}
use remote_avapps.Protocol.Decoding.{decode_header_ok}
use remote_avapps.Wire.{rd16, rd32}
use remote_avapps.Session.{active, reconnecting}
use remote_avapps.Context.{Context, no_callbacks, stream_control, step, on_rx}
use remote_avapps.Context.Link.{on_rx-step, step_behind}

abbrev streaming : Context
streaming = record {
  sm = record { state = active; cb = no_callbacks; retries = 0 };
  cfg = record {
    container_host = [];
    container_port = 7000;
    keepalive_ms = 0;
    link_timeout_ms = 5000;
  };
  last_rx_ms = 10000;
  last_keepalive_ms = 10000;
  last_ka_send_us = 0;
  tx_seq = 4294967295;
  keepalive_interval_ms = 2000;
}

-- The clock of the last datagram is one millisecond ahead of the step.
step_behind_example : (step streaming 9999 9999000).1.sm.state ≡ reconnecting
step_behind_example =
    step_behind streaming 9999 9999000 (inl refl) (omega arith) (omega arith) (omega arith)
      (omega arith)

abbrev packet : List ℕ
packet = 67 ∷ 86 ∷ 1 ∷ 0 ∷ 0 ∷ 0 ∷ 0 ∷ 0 ∷ 0 ∷ 0 ∷ 0 ∷ 0 ∷ 0 ∷ 0 ∷ 0 ∷ 0 ∷ 0 ∷ []

packet_header : decode_header (some packet) 17 ≡ header (read_header packet)
packet_header = decode_header_ok packet 17 (omega arith) valid
  where
    valid : header_valid (some (read_header packet)) ≡ true
    valid = unfold header_valid read_header rd16 rd32 in refl

on_rx-step_example :
    let sc' = (on_rx streaming (some packet) 17 12000).1 in
    ((step sc' 17000 17000000).0 ≡ ok) × ((step sc' 17000 17000000).1.sm.state ≡ active)
on_rx-step_example =
    on_rx-step streaming packet 17 (read_header packet) 12000 17000 17000000 (inl refl)
      packet_header control (omega arith) (omega arith) (omega arith)
  where
    control : (read_header packet).stream ≡ stream_control
    control = unfold read_header in refl
