-- ===== src/Session/Paths.antt =====
-- src/session/state.c: the events without which no stream comes up.
use remote_avapps.Base.{◌≡◌, ◌⊎◌, inl, inr, refl, true, List, [], ◌∷◌}
use mathlib.Core.Path.{subst}
use remote_avapps.Session.{
  State, offline, discover, connecting, active, degraded, reconnecting, terminating, Event, boot,
  mapper_resp, transport_up, Session, Callbacks, dispatch, init,
}
use remote_avapps.Session.Dispatch.{dispatch_refused}
use remote_avapps.Session.Graph.{
  Moves, power_up, routed, search_again, search_lost, opened, open_again, open_lost, impaired,
  restored, dropped, reopened, rediscover, abandoned, ended, stays_ended, dispatch-Moves,
}
use remote_avapps.Session.Traces.{run, has_transport}

-- The first events are among the second ones, in their order.
abbrev pub InOrder : List Event → List Event → Type 0
InOrder [] es = Unit {0}
InOrder (p ∷ ps) [] = ⊥
InOrder (p ∷ ps) (e ∷ es) = ((p ≡ e) × InOrder ps es) ⊎ InOrder (p ∷ ps) es

-- The events that are still missing before a transport is up.
abbrev missing : State → List Event
missing offline = boot ∷ mapper_resp ∷ transport_up ∷ []
missing discover = mapper_resp ∷ transport_up ∷ []
missing connecting = transport_up ∷ []
missing _ = []

InOrder-later :
    (ps : List Event) (e : Event) (es : List Event) → InOrder ps es → InOrder ps (e ∷ es)
InOrder-later [] e es h = tt
InOrder-later (p ∷ ps) e es h = inr h

InOrder-rest : (p : Event) (ps es : List Event) → InOrder (p ∷ ps) es → InOrder ps es
InOrder-rest p ps [] h = absurd h
InOrder-rest p ps (e ∷ es) (inl (same, h)) = InOrder-later ps e es h
InOrder-rest p ps (e ∷ es) (inr h) = InOrder-later ps e es (InOrder-rest p ps es h)

missing-streaming : {s : State} → (s ≡ active) ⊎ (s ≡ degraded) → missing s ≡ []
missing-streaming (inl e) = rw e refl
missing-streaming (inr e) = rw e refl

nothing_missing :
    {s : State} (es : List Event) → (s ≡ active) ⊎ (s ≡ degraded) → InOrder (missing s) es
nothing_missing es p = rw (missing-streaming p) tt

-- An arrow of the diagram supplies at most the first of the missing events.
Moves-missing :
    {a b : State} {e : Event} (es : List Event)
    → Moves a e b
    → InOrder (missing b) es
    → InOrder (missing a) (e ∷ es)
Moves-missing es power_up h = inl (refl, h)
Moves-missing es routed h = inl (refl, h)
Moves-missing es search_again h = inr h
Moves-missing es search_lost h = inr (InOrder-rest boot (mapper_resp ∷ transport_up ∷ []) es h)
Moves-missing es opened h = inl (refl, tt)
Moves-missing es open_again h = inr (InOrder-rest mapper_resp (transport_up ∷ []) es h)
Moves-missing es open_lost h = inr (
    InOrder-rest mapper_resp (transport_up ∷ []) es
      (InOrder-rest boot (mapper_resp ∷ transport_up ∷ []) es h))
Moves-missing es impaired h = tt
Moves-missing es restored h = tt
Moves-missing {e} es (dropped p) h = nothing_missing (e ∷ es) p
Moves-missing es reopened h = tt
Moves-missing es rediscover h = tt
Moves-missing es abandoned h = tt
Moves-missing {e} es (ended p f) h = nothing_missing (e ∷ es) p
Moves-missing es stays_ended h = tt

dispatch-missing :
    (s : Session) (e : Event) (es : List Event)
    → InOrder (missing (dispatch s e).1.state) es
    → InOrder (missing s.state) (e ∷ es)
dispatch-missing s e es h = elim (dispatch_refused s e).0 [
  | inl accepted ↦ Moves-missing es (dispatch-Moves s e accepted) h
  | inr (st, same, calls) ↦
      InOrder-later (missing s.state) e es
        (subst (λ (t : Session). InOrder (missing t.state) es) same h)
]

connected : (s : State) → has_transport s ≡ true → InOrder (missing s) []
connected offline h = cc h
connected discover h = cc h
connected connecting h = cc h
connected active h = tt
connected degraded h = tt
connected reconnecting h = tt
connected terminating h = tt

run-missing :
    (s : Session) (es : List Event)
    → has_transport (run s es).0.state ≡ true
    → InOrder (missing s.state) es
run-missing s [] h = connected s.state h
run-missing s (e ∷ es) h = dispatch-missing s e es (run-missing (dispatch s e).1 es h)

-- A machine from `vmc_session_init` streams, reconnects or terminates only after the device has
-- booted, then the mapper has answered, and then the transport has come up: every sequence of
-- events that leads there has these three in this order, whatever comes between them.
pub run-InOrder :
    (cb : Callbacks) (es : List Event)
    → has_transport (run (init cb).1 es).0.state ≡ true
    → InOrder (boot ∷ mapper_resp ∷ transport_up ∷ []) es
unfolding init
run-InOrder cb es h = run-missing _ es h
