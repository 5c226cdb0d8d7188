-- ===== src/Session/Dispatch.antt =====
-- src/session/state.c: what one dispatch does, on every branch.
use remote_avapps.Base.{◌+◌, ◌≡◌, ◌⊎◌, arith, Bool, true, false, if◌then◌else◌, u32, List, [], ◌++◌}
use remote_avapps.Status.{ok, invalid_state}
use remote_avapps.Session.{
  State, discover, connecting, degraded, reconnecting, terminating, Event, timeout, Session,
  Callbacks, Call, state_change, quality_drop, session_lost, terminated, State-discrete, same_state,
  when, dispatch,
}

-- The calls that a change from one state to another makes: first the change itself, then those for
-- the state that is entered.
abbrev pub calls_between : Callbacks → State → State → List Call
calls_between cb from degraded =
    if same_state from degraded
    then []
    else when cb.on_state_change (state_change from degraded)
      ++ when cb.on_quality_drop quality_drop
calls_between cb from reconnecting =
    if same_state from reconnecting
    then []
    else when cb.on_state_change (state_change from reconnecting)
      ++ when cb.on_session_lost session_lost
calls_between cb from terminating =
    if same_state from terminating
    then []
    else when cb.on_state_change (state_change from terminating)
      ++ when cb.on_terminated (terminated terminating)
calls_between cb from to =
    if same_state from to then [] else when cb.on_state_change (state_change from to)

-- A dispatch makes exactly the calls that belong to its change of state, in order: none when the
-- state stays, and otherwise those of the set callbacks for the state entered.
pub dispatch-calls :
    (s : Session) (ev : Event)
    → let (st, s', calls) = dispatch s ev in calls ≡ calls_between s.cb s.state s'.state
unfolding dispatch State-discrete
dispatch-calls s ev = ground arith

-- A dispatch either succeeds, or it returns the status for an invalid state, leaves the machine as
-- it was and calls nothing back; the callbacks never change.
pub dispatch_refused :
    (s : Session) (ev : Event)
    → let (st, s', calls) = dispatch s ev in
      ((st ≡ ok) ⊎ ((st ≡ invalid_state) × (s' ≡ s) × (calls ≡ []))) × (s'.cb ≡ s.cb)
unfolding dispatch State-discrete
dispatch_refused s ev = ground arith

-- `retries` changes exactly by the timeouts that are handled: while discovering, connecting or
-- reconnecting.
abbrev pub counts_timeout : State → Event → Bool
counts_timeout discover timeout = true
counts_timeout connecting timeout = true
counts_timeout reconnecting timeout = true
counts_timeout _ _ = false

-- A dispatch raises the counter `retries`, modulo 2 ^ 32, for a timeout in the states that count
-- timeouts, and leaves it alone otherwise.
pub dispatch-retries :
    (s : Session) (ev : Event)
    → (dispatch s ev).1.retries
      ≡ (if counts_timeout s.state ev then u32 (s.retries + 1) else s.retries)
unfolding dispatch State-discrete
dispatch-retries s ev = ground arith
