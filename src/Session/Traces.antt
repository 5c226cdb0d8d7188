-- ===== src/Session/Traces.antt =====
-- src/session/state.c: what holds along every sequence of events.
use remote_avapps.Base.{
  ℕ, ◌+◌, ◌<◌, ◌≤◌, ◌≡◌, ◌≢◌, ◌⊎◌, inl, inr, refl, sym, arith, Bool, true, false, if◌then◌else◌,
  u32, List, [], ◌∷◌, ◌++◌, length,
}
use mathlib.Core.List.{Memᴰ}
use remote_avapps.Status.{ok}
use remote_avapps.Session.{
  State, offline, discover, connecting, active, degraded, reconnecting, terminating, Event, boot,
  mapper_resp, transport_up, link_ok, Session, Callbacks, Call, terminated, State-discrete,
  dispatch, init,
}
use remote_avapps.Session.Dispatch.{counts_timeout, dispatch-retries}

-- A sequence of events, each dispatched; the calls of all are collected.
abbrev pub run : Session → List Event → Session × List Call
run s [] = (s, [])
run s (e ∷ es) =
    let (st, s', calls) = dispatch s e in let (s'', later) = run s' es in (s'', calls ++ later)

abbrev pub is_streaming : State → Bool
is_streaming active = true
is_streaming degraded = true
is_streaming _ = false

-- States in which a transport has been up.
abbrev pub has_transport : State → Bool
has_transport active = true
has_transport degraded = true
has_transport reconnecting = true
has_transport terminating = true
has_transport _ = false

gains_transport :
    (s : Session) (e : Event)
    → has_transport s.state ≡ false
    → (e ≡ transport_up) ⊎ (has_transport (dispatch s e).1.state ≡ false)
unfolding dispatch State-discrete
gains_transport s e h = ground arith

has_transport_needs :
    (s : Session) (es : List Event)
    → has_transport s.state ≡ false
    → has_transport (run s es).0.state ≡ true
    → Memᴰ transport_up es
has_transport_needs s [] h l = cc
has_transport_needs s (e ∷ es) h l = elim (gains_transport s e h) [
  | inl p ↦ Memᴰ.head (sym p)
  | inr q ↦ Memᴰ.tail (has_transport_needs (dispatch s e).1 es q l)
]

-- From the initial machine, a state in which a transport has been up (streaming, reconnecting or
-- terminating) is reached only by a sequence that has the event of a transport coming up.
pub has_transport_needs_event :
    (cb : Callbacks) (es : List Event)
    → has_transport (run (init cb).1 es).0.state ≡ true
    → Memᴰ transport_up es
unfolding init
has_transport_needs_event cb es h = has_transport_needs _ es refl h

-- A terminated machine ignores every event: it stays as it is and calls nothing back.
pub terminating_absorbs :
    (s : Session) (es : List Event) → s.state ≡ terminating → run s es ≡ (s, [])
terminating_absorbs s [] h = refl
terminating_absorbs s (e ∷ es) h = rw (stays, terminating_absorbs s es h)
  where
    stays : dispatch s e ≡ (ok, s, [])
    stays = unfold dispatch in ground arith

-- How many timeouts of a sequence are handled.
abbrev pub timeouts : Session → List Event → ℕ
timeouts s [] = 0
timeouts s (e ∷ es) = (if counts_timeout s.state e then 1 else 0) + timeouts (dispatch s e).1 es

-- The counter `retries` counts the handled timeouts, modulo 2 ^ 32, from a counter that fits.
pub run-retries :
    (s : Session) (es : List Event)
    → s.retries < 4294967296
    → (run s es).0.retries ≡ u32 (s.retries + timeouts s es)
run-retries s [] h = omega arith
run-retries s (e ∷ es) h = ground (arith, dispatch-retries s e, run-retries (dispatch s e).1 es)

abbrev is_terminated_call : Call → ℕ
is_terminated_call (terminated st) = 1
is_terminated_call _ = 0

-- How often `on_terminated` is called.
abbrev pub terminations : List Call → ℕ
terminations [] = 0
terminations (c ∷ cs) = is_terminated_call c + terminations cs

terminations-append :
    (xs ys : List Call) → terminations (xs ++ ys) ≡ terminations xs + terminations ys
terminations-append [] ys = omega arith
terminations-append (x ∷ xs) ys = omega (arith, terminations-append xs ys)

abbrev pub is_over : State → Bool
is_over terminating = true
is_over _ = false

-- One dispatch calls `on_terminated` exactly when it enters the terminal state.
terminations_step :
    (s : Session) (e : Event)
    → s.cb.on_terminated ≡ true
    → ((dispatch s e).1.cb.on_terminated ≡ true)
      × (terminations (dispatch s e).2 + (if is_over s.state then 1 else 0)
          ≡ (if is_over (dispatch s e).1.state then 1 else 0))
unfolding dispatch State-discrete
terminations_step s e h = ground arith

-- With `on_terminated` set, a run from a machine that is not terminated calls it exactly once if it
-- ends terminated, and never if it does not.
pub terminations-run :
    (s : Session) (es : List Event)
    → s.cb.on_terminated ≡ true
    → is_over s.state ≡ false
    → terminations (run s es).1 ≡ (if is_over (run s es).0.state then 1 else 0)
terminations-run s es set fresh = ground (arith, balance s es set)
  where
    balance :
        (s : Session) (es : List Event)
        → s.cb.on_terminated ≡ true
        → terminations (run s es).1 + (if is_over s.state then 1 else 0)
          ≡ (if is_over (run s es).0.state then 1 else 0)
    balance s [] h = omega arith
    balance s (e ∷ es) h =
        let (set', one) = terminations_step s e h in
        omega (
          arith,
          one,
          balance (dispatch s e).1 es set',
          terminations-append (dispatch s e).2 (run (dispatch s e).1 es).1,
        )

-- A sequence of events that leads to streaming.
abbrev pub way_to_active : State → List Event
way_to_active offline = boot ∷ mapper_resp ∷ transport_up ∷ []
way_to_active discover = mapper_resp ∷ transport_up ∷ []
way_to_active connecting = transport_up ∷ []
way_to_active active = []
way_to_active degraded = link_ok ∷ []
way_to_active reconnecting = transport_up ∷ []
way_to_active terminating = []

-- Every state but the terminal one has a way to streaming, of three events at most.
pub run-way_to_active :
    (s : Session)
    → s.state ≢ terminating
    → ((run s (way_to_active s.state)).0.state ≡ active) × (length (way_to_active s.state) ≤ 3)
unfolding dispatch State-discrete
run-way_to_active s h = ground arith
