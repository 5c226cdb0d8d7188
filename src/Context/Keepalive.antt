-- ===== src/Context/Keepalive.antt =====
-- src/session/session.c: the keepalives that `vmc_session_step` sends.
use remote_avapps.Base.{
  ℕ, ◌+◌, ◌≡◌, refl, arith, leb, if◌then◌else◌, u64, sub64, Bool, List, [], ◌∷◌, length, replicate,
  Bool-cases, inl, inr, sym, ap, ◌∙◌, some, none,
}
use remote_avapps.Status.{ok}
use remote_avapps.Protocol.{
  Header, header_size, header_valid, header, decode_header, decode, accepted,
}
use remote_avapps.Protocol.Encoding.{FitsWidths}
use remote_avapps.Protocol.Decoding.{decode-IsAccepted, decode_header_ok}
use remote_avapps.Protocol.RoundTrip.{stamped, decode-encode}
use remote_avapps.Context.{
  Context, keepalive_header, transmit, send_keepalive, keep_alive, detect_loss, feed_event, drive,
  step, received, on_rx,
}
use remote_avapps.Context.Link.{IsStreaming, is_late, step_drives}

keepalive-FitsWidths : (tx_seq now_ms : ℕ) → FitsWidths (keepalive_header tx_seq now_ms)
keepalive-FitsWidths tx_seq now_ms = record {
  magic_16 = omega arith;
  version_8 = omega arith;
  flags_8 = omega arith;
  stream_8 = omega arith;
  reserved_8 = omega arith;
  payload_len_16 = omega arith;
  seq_32 = omega arith;
  ts_us_32 = omega arith;
}

pub send_keepalive-decode :
    (sc : Context) (now_ms clock_us : ℕ)
    → (pkt : List ℕ) × (send_keepalive sc now_ms clock_us
        ≡ (record sc { tx_seq = u64 (sc.tx_seq + 1); last_ka_send_us = clock_us }, pkt ∷ []))
      × (decode (some pkt) header_size
          ≡ accepted (stamped (keepalive_header sc.tx_seq now_ms) []) [])
unfolding send_keepalive transmit header_valid
send_keepalive-decode sc now_ms clock_us =
    let (pkt, sent, read) =
      decode-encode (replicate header_size 0) header_size (keepalive_header sc.tx_seq now_ms) none
        [] (keepalive-FitsWidths sc.tx_seq now_ms) refl refl refl (omega arith) (omega arith) in
    (pkt, rw sent refl, read)

-- The check of the link sends nothing and keeps the times of the keepalives.
detect_loss_keeps :
    (sc : Context) (now_ms : ℕ) (packets : List (List ℕ))
    → let (st, sc', sent) = detect_loss sc now_ms packets in
      (sent ≡ packets)
      × (sc'.last_keepalive_ms ≡ sc.last_keepalive_ms)
      × (sc'.keepalive_interval_ms ≡ sc.keepalive_interval_ms)
unfolding detect_loss feed_event
detect_loss_keeps sc now_ms packets =
    elim (Bool-cases (is_late sc.cfg.link_timeout_ms sc.last_rx_ms now_ms)) [
      | inl h ↦ rw h (refl, refl, refl)
      | inr h ↦ rw h (refl, refl, refl)
    ]

-- When the next keepalive is due.
abbrev pub is_due : Context → ℕ → Bool
is_due sc now_ms = leb sc.keepalive_interval_ms (sub64 now_ms sc.last_keepalive_ms)

keep_alive_lem :
    (sc : Context) (now_ms clock_us : ℕ)
    → let (sc', sent) = keep_alive sc now_ms clock_us in
      (length sent ≡ (if is_due sc now_ms then 1 else 0))
      × (sc'.last_keepalive_ms ≡ (if is_due sc now_ms then now_ms else sc.last_keepalive_ms))
      × (sc'.keepalive_interval_ms ≡ sc.keepalive_interval_ms)
unfolding keep_alive
keep_alive_lem sc now_ms clock_us = elim (Bool-cases (is_due sc now_ms)) [
  | inl h ↦
      let (pkt, sent, read) = send_keepalive-decode sc now_ms clock_us in
      rw h (rw sent (refl, refl, refl))
  | inr h ↦ rw h (refl, refl, refl)
]

-- A step of a session that streams sends one packet when the interval has passed since the last
-- keepalive, and keeps the time of the step as that of the last keepalive; otherwise it sends none
-- and keeps the time that it has. The interval stays.
pub step-sends :
    (sc : Context) (now_ms clock_us : ℕ)
    → IsStreaming sc
    → let (st, sc', sent) = step sc now_ms clock_us in
      (length sent ≡ (if is_due sc now_ms then 1 else 0))
      × (sc'.last_keepalive_ms ≡ (if is_due sc now_ms then now_ms else sc.last_keepalive_ms))
      × (sc'.keepalive_interval_ms ≡ sc.keepalive_interval_ms)
unfolding drive
step-sends sc now_ms clock_us s =
    let (count, last, interval) = keep_alive_lem sc now_ms clock_us in
    let (sc', packets) = keep_alive sc now_ms clock_us in
    let (same, same_last, same_interval) = detect_loss_keeps sc' now_ms packets in
    rw (step_drives sc now_ms clock_us s)
      (ap length same ∙ count, same_last ∙ last, same_interval ∙ interval)

-- The header of an accepted datagram is what decoding the header alone gives.
decode_header-decode :
    (buf : List ℕ) (len : ℕ) (h : Header) (payload : List ℕ)
    → decode (some buf) len ≡ accepted h payload
    → decode_header (some buf) len ≡ header h
decode_header-decode buf len h payload e =
    let facts = decode-IsAccepted buf len h payload e in
    let valid = ap (λ g. header_valid (some g)) (sym facts.is_read) ∙ facts.is_valid in
    decode_header_ok buf len (omega (arith, facts.long_enough)) valid
    ∙ ap header (sym facts.is_read)

-- The packet of a keepalive, received by a session at a time of its clock, is accepted and becomes
-- the time of its last datagram.
pub on_rx-send_keepalive :
    (sc peer : Context) (now_ms clock_us clock_ms : ℕ)
    → (pkt : List ℕ) × ((send_keepalive sc now_ms clock_us).1 ≡ pkt ∷ [])
      × (on_rx peer (some pkt) header_size clock_ms ≡ (ok, record peer { last_rx_ms = clock_ms }))
unfolding on_rx received
on_rx-send_keepalive sc peer now_ms clock_us clock_ms =
    let (pkt, sent, read) = send_keepalive-decode sc now_ms clock_us in
    let head =
      decode_header-decode pkt header_size (stamped (keepalive_header sc.tx_seq now_ms) []) []
        read in
    (pkt, ap (λ r. r.1) sent, rw head refl)
