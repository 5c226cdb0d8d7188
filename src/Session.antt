-- ===== src/Session.antt =====
-- src/session/state.c and include/vmc/session/state.h: the lifecycle state machine. The callbacks
-- are code of the application: a machine records which of them are set, and a dispatch returns the
-- calls that it makes, in order.
pub mod Graph
pub mod Dispatch
pub mod Traces
pub mod Paths
mod Tests
use remote_avapps.Base.{
  ℕ, ◌+◌, Bool, true, false, if◌then◌else◌, u32, List, [], ◌∷◌, ◌++◌, Option, none, some,
}
use remote_avapps.Status.{Status, ok, invalid_arg, invalid_state}

-- `vmc_session_state`
pub data State : Type 0 where
  offline discover connecting active degraded reconnecting terminating : State

-- `vmc_session_event`
pub data Event : Type 0 where
  boot mapper_resp transport_up link_ok link_degraded link_lost user_terminate security_term
        timeout :
      Event

pub State-discrete : Discrete State
State-discrete = hlevel

-- Which pointers of `vmc_session_callbacks` are not NULL.
pub record Callbacks : Type 0 where
  pub on_state_change : Bool
  pub on_quality_drop : Bool
  pub on_session_lost : Bool
  pub on_terminated : Bool

-- A call of a callback, with the states that it is given.
pub data Call : Type 0 where
  state_change : State → State → Call
  quality_drop : Call
  session_lost : Call
  terminated : State → Call

-- `vmc_session`; the opaque `user` pointer is handed through and is left out.
pub record Session : Type 0 where
  pub state : State
  pub cb : Callbacks
  pub retries : ℕ

-- A status, the machine afterwards, and the calls made on the way.
abbrev pub Outcome : Type 0
Outcome = Status × Session × List Call

-- `vmc_session_init`
unfoldable pub init : Callbacks → Status × Session
init cb = (ok, record { state = offline; cb = cb; retries = 0 })

-- `vmc_session_get_state`
unfoldable pub get_state : Option Session → State
get_state none = offline
get_state (some s) = s.state

abbrev when : Bool → Call → List Call
when set c = if set then c ∷ [] else []

-- The `switch (to)` of `transition`.
abbrev entry_calls : Callbacks → State → List Call
entry_calls cb degraded = when cb.on_quality_drop quality_drop
entry_calls cb reconnecting = when cb.on_session_lost session_lost
entry_calls cb _ = []

abbrev same_state : State → State → Bool
same_state a b = elim (State-discrete a b) [ yes _ ↦ true | no _ ↦ false ]

-- `transition`: the machine in its new state, and the calls made.
unfoldable pub transition : Session → State → Session × List Call
unfolding State-discrete
transition s to = if same_state s.state to then (s, []) else (
  record s { state = to },
  when s.cb.on_state_change (state_change s.state to) ++ entry_calls s.cb to,
)

-- `transition(s, to); return VMC_OK;`
unfoldable pub go : Session → State → Outcome
unfolding transition
go s to = let (s', calls) = transition s to in (ok, s', calls)

-- `s->retries++`, a `u32`.
unfoldable pub retry : Session → Session
retry s = record s { retries = u32 (s.retries + 1) }

-- The termination branches: the transition, and then `on_terminated` with the state reached.
unfoldable pub finish : Session → Outcome
unfolding transition
finish s =
    let (s', calls) = transition s terminating in
    (ok, s', calls ++ when s'.cb.on_terminated (terminated s'.state))

-- The nested `switch` and `if`s of `vmc_session_dispatch`; the last clause is the `break`s.
unfoldable pub handle : State → Event → Session → Outcome
unfolding go retry finish
handle offline boot s = go s discover
handle discover mapper_resp s = go s connecting
handle discover timeout s = (ok, retry s, [])
handle discover link_lost s = go s offline
handle connecting transport_up s = go s active
handle connecting timeout s = go (retry s) discover
handle connecting link_lost s = go s offline
handle active link_degraded s = go s degraded
handle active link_lost s = go s reconnecting
handle active user_terminate s = finish s
handle active security_term s = finish s
handle degraded link_ok s = go s active
handle degraded link_lost s = go s reconnecting
handle degraded user_terminate s = finish s
handle degraded security_term s = finish s
handle reconnecting transport_up s = go s active
handle reconnecting link_ok s = go s discover
handle reconnecting timeout s = go (retry s) offline
handle terminating _ s = (ok, s, [])
handle _ _ s = (invalid_state, s, [])

-- `vmc_session_dispatch` on a machine; on NULL it returns `invalid_arg`.
unfoldable pub dispatch : Session → Event → Outcome
unfolding handle
dispatch s ev = handle s.state ev s
