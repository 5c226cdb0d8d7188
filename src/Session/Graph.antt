-- ===== src/Session/Graph.antt =====
-- src/session/state.c: the diagram of the lifecycle, with the retry counter and the callbacks left
-- out, and that the dispatcher implements exactly this diagram.
use remote_avapps.Base.{◌≡◌, ◌⊎◌, refl, arith, ◌↔◌}
use mathlib.Core.Path.{subst}
use remote_avapps.Status.{ok}
use remote_avapps.Session.{
  State, offline, discover, connecting, active, degraded, reconnecting, terminating, Event, boot,
  mapper_resp, transport_up, link_ok, link_degraded, link_lost, user_terminate, security_term,
  timeout, Session, State-discrete, dispatch,
}

-- The two events that end a session.
pub data Ends : Event → Type 0 where
  by_user : Ends user_terminate
  by_security : Ends security_term

-- One arrow of the diagram, with its event.
pub data Moves : State → Event → State → Type 0 where
  power_up : Moves offline boot discover
  routed : Moves discover mapper_resp connecting
  search_again : Moves discover timeout discover
  search_lost : Moves discover link_lost offline
  opened : Moves connecting transport_up active
  open_again : Moves connecting timeout discover
  open_lost : Moves connecting link_lost offline
  impaired : Moves active link_degraded degraded
  restored : Moves degraded link_ok active
  dropped : {s : State} → (s ≡ active) ⊎ (s ≡ degraded) → Moves s link_lost reconnecting
  reopened : Moves reconnecting transport_up active
  rediscover : Moves reconnecting link_ok discover
  abandoned : Moves reconnecting timeout offline
  ended : {s : State} {e : Event} → (s ≡ active) ⊎ (s ≡ degraded) → Ends e → Moves s e terminating
  stays_ended : {e : Event} → Moves terminating e terminating

ruleset arrows = (
  power_up, routed, search_again, search_lost, opened, open_again, open_lost, impaired, restored,
  dropped, reopened, rediscover, abandoned, ended, stays_ended, by_user, by_security,
)

-- An accepted event follows an arrow.
pub dispatch-Moves :
    (s : Session) (e : Event) → (dispatch s e).0 ≡ ok → Moves s.state e (dispatch s e).1.state
unfolding dispatch State-discrete
dispatch-Moves s e h = grind (arith, arrows)

-- An arrow is followed.
Moves-dispatch :
    {a b : State} {e : Event} (m : Moves a e b) (s : Session)
    → s.state ≡ a
    → ((dispatch s e).0 ≡ ok) × ((dispatch s e).1.state ≡ b)
unfolding dispatch State-discrete
Moves-dispatch power_up s h = ground arith
Moves-dispatch routed s h = ground arith
Moves-dispatch search_again s h = ground arith
Moves-dispatch search_lost s h = ground arith
Moves-dispatch opened s h = ground arith
Moves-dispatch open_again s h = ground arith
Moves-dispatch open_lost s h = ground arith
Moves-dispatch impaired s h = ground arith
Moves-dispatch restored s h = ground arith
Moves-dispatch (dropped p) s h = ground arith
Moves-dispatch reopened s h = ground arith
Moves-dispatch rediscover s h = ground arith
Moves-dispatch abandoned s h = ground arith
Moves-dispatch (ended p by_user) s h = ground arith
Moves-dispatch (ended p by_security) s h = ground arith
Moves-dispatch stays_ended s h = ground arith

-- A dispatch succeeds and reaches a state exactly when the diagram has that arrow.
pub dispatch_iff_Moves :
    (s : Session) (e : Event) (b : State)
    → (((dispatch s e).0 ≡ ok) × ((dispatch s e).1.state ≡ b)) ↔ Moves s.state e b
dispatch_iff_Moves s e b =
    (λ h. subst (Moves s.state e) h.1 (dispatch-Moves s e h.0), λ m. Moves-dispatch m s refl)
