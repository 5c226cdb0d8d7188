-- ===== src/Context/Link.antt =====
-- src/session/session.c: when `vmc_session_step` reports the link lost.
use remote_avapps.Base.{
  ℕ, ◌+◌, ◌<◌, ◌≤◌, ◌≡◌, ◌⊎◌, inl, inr, refl, arith, ltb, leb, if◌then◌else◌, sub64, Bool, true,
  false, ◌&&◌, List, Bool-cases, ap, ◌∙◌, some,
}
use remote_avapps.Status.{ok}
use remote_avapps.Protocol.{Header, header, decode_header, Encoded, written, failed}
use remote_avapps.Session.{Session, active, degraded, reconnecting, link_lost, get_state}
use remote_avapps.Session.Graph.{dropped, dispatch_iff_Moves}
use remote_avapps.Context.{
  Context, Config, stream_control, feed_event, transmit, send_keepalive, keep_alive, detect_loss,
  drive, step, received, on_rx,
}

-- A session that streams.
abbrev pub IsStreaming : Context → Type 0
IsStreaming sc = (sc.sm.state ≡ active) ⊎ (sc.sm.state ≡ degraded)

-- A keepalive leaves the machine, the configuration and the time of the last datagram alone.
transmit_keeps :
    (sc : Context) (clock_us : ℕ) (e : Encoded)
    → let (sc', sent) = transmit sc clock_us e in
      (sc'.sm ≡ sc.sm) × (sc'.cfg ≡ sc.cfg) × (sc'.last_rx_ms ≡ sc.last_rx_ms)
unfolding transmit
transmit_keeps sc clock_us (failed st) = (refl, refl, refl)
transmit_keeps sc clock_us (written n pkt) = (refl, refl, refl)

keep_alive_keeps :
    (sc : Context) (now_ms clock_us : ℕ)
    → let (sc', sent) = keep_alive sc now_ms clock_us in
      (sc'.sm ≡ sc.sm) × (sc'.cfg ≡ sc.cfg) × (sc'.last_rx_ms ≡ sc.last_rx_ms)
unfolding keep_alive send_keepalive
keep_alive_keeps sc now_ms clock_us =
    elim (Bool-cases (leb sc.keepalive_interval_ms (sub64 now_ms sc.last_keepalive_ms))) [
      | inl h ↦ rw h (transmit_keeps _ clock_us _)
      | inr h ↦ rw h (refl, refl, refl)
    ]

-- What a step does to the link, by the time since the last datagram.
abbrev pub is_late : ℕ → ℕ → ℕ → Bool
is_late timeout last_rx_ms now_ms = ltb 0 timeout && ltb timeout (sub64 now_ms last_rx_ms)

-- A dispatch of a lost link on a session that streams.
lost :
    (sc : Context) (sent : List (List ℕ))
    → IsStreaming sc
    → ((feed_event sc link_lost sent).0 ≡ ok)
      × ((feed_event sc link_lost sent).1.sm.state ≡ reconnecting)
unfolding feed_event
lost sc sent s = (dispatch_iff_Moves sc.sm link_lost reconnecting).1 (dropped s)

loss :
    (sc : Context) (now_ms : ℕ) (sent : List (List ℕ))
    → IsStreaming sc
    → ((detect_loss sc now_ms sent).0 ≡ ok)
      × ((detect_loss sc now_ms sent).1.sm.state ≡ (
          if is_late sc.cfg.link_timeout_ms sc.last_rx_ms now_ms
          then reconnecting
          else sc.sm.state))
unfolding detect_loss
loss sc now_ms sent s = elim (Bool-cases (is_late sc.cfg.link_timeout_ms sc.last_rx_ms now_ms)) [
  | inl h ↦ rw h (lost sc sent s)
  | inr h ↦ rw h (refl, refl)
]

drive_lem :
    (sc : Context) (now_ms clock_us : ℕ)
    → IsStreaming sc
    → ((drive sc now_ms clock_us).0 ≡ ok)
      × ((drive sc now_ms clock_us).1.sm.state ≡ (
          if is_late sc.cfg.link_timeout_ms sc.last_rx_ms now_ms
          then reconnecting
          else sc.sm.state))
unfolding drive
drive_lem sc now_ms clock_us s =
    let (sm, cfg, rx) = keep_alive_keeps sc now_ms clock_us in
    let (sc', sent) = keep_alive sc now_ms clock_us in
    let (fine, state) = loss sc' now_ms sent (streams sc'.sm sm s) in
    (fine, state ∙ same sc'.sm sc'.cfg sc'.last_rx_ms sm cfg rx)
  where
    streams :
        (sm : Session) → sm ≡ sc.sm → IsStreaming sc → (sm.state ≡ active) ⊎ (sm.state ≡ degraded)
    streams sm e (inl h) = inl (ap (λ m. m.state) e ∙ h)
    streams sm e (inr h) = inr (ap (λ m. m.state) e ∙ h)

    same :
        (sm : Session) (cfg : Config) (rx : ℕ)
        → sm ≡ sc.sm
        → cfg ≡ sc.cfg
        → rx ≡ sc.last_rx_ms
        → (if is_late cfg.link_timeout_ms rx now_ms then reconnecting else sm.state) ≡ (
            if is_late sc.cfg.link_timeout_ms sc.last_rx_ms now_ms
            then reconnecting
            else sc.sm.state)
    same sm cfg rx e f g = rw (e, f, g) refl

pub step_drives :
    (sc : Context) (now_ms clock_us : ℕ)
    → IsStreaming sc
    → step sc now_ms clock_us ≡ drive sc now_ms clock_us
unfolding step get_state
step_drives sc now_ms clock_us s = ground (arith, s)

-- A step of a session that streams succeeds; it goes over to reconnecting exactly when a timeout is
-- set and more time than it has passed since the last datagram, modulo 2 ^ 64, and otherwise the
-- state stays.
pub step_lem :
    (sc : Context) (now_ms clock_us : ℕ)
    → IsStreaming sc
    → ((step sc now_ms clock_us).0 ≡ ok)
      × ((step sc now_ms clock_us).1.sm.state ≡ (
          if is_late sc.cfg.link_timeout_ms sc.last_rx_ms now_ms
          then reconnecting
          else sc.sm.state))
step_lem sc now_ms clock_us s =
    rw (step_drives sc now_ms clock_us s) (drive_lem sc now_ms clock_us s)

-- A datagram of the control stream, received at a time of the clock, keeps a session that streams
-- from losing its link in a step at that time or up to the timeout later.
pub on_rx-step :
    (sc : Context) (packet : List ℕ) (len : ℕ) (h : Header) (clock_ms now_ms clock_us : ℕ)
    → IsStreaming sc
    → decode_header (some packet) len ≡ header h
    → h.stream ≡ stream_control
    → clock_ms ≤ now_ms
    → now_ms ≤ clock_ms + sc.cfg.link_timeout_ms
    → now_ms < 18446744073709551616
    → let sc' = (on_rx sc (some packet) len clock_ms).1 in
      ((step sc' now_ms clock_us).0 ≡ ok) × ((step sc' now_ms clock_us).1.sm.state ≡ sc.sm.state)
unfolding on_rx received
on_rx-step sc packet len h clock_ms now_ms clock_us s e control since until fits =
    let streams : IsStreaming (record sc { last_rx_ms = clock_ms }) = s in
    let on_time : is_late sc.cfg.link_timeout_ms clock_ms now_ms ≡ false = ground arith in
    let stepped = step_lem (record sc { last_rx_ms = clock_ms }) now_ms clock_us streams in
    rw e (rw control (rw on_time at stepped))

-- A step whose time is before that of the last datagram takes the difference modulo 2 ^ 64, and so
-- loses the link of a session that streams, with any timeout of 32 bits but 0, when the time of the
-- last datagram is below 2 ^ 63.
pub step_behind :
    (sc : Context) (now_ms clock_us : ℕ)
    → IsStreaming sc
    → 0 < sc.cfg.link_timeout_ms
    → sc.cfg.link_timeout_ms < 4294967296
    → now_ms < sc.last_rx_ms
    → sc.last_rx_ms < 9223372036854775808
    → (step sc now_ms clock_us).1.sm.state ≡ reconnecting
step_behind sc now_ms clock_us s on small behind fits =
    let late : is_late sc.cfg.link_timeout_ms sc.last_rx_ms now_ms ≡ true = ground arith in
    (step_lem sc now_ms clock_us s).1 ∙ rw late refl
