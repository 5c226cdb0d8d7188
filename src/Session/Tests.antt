-- ===== src/Session/Tests.antt =====
-- Runs of src/session/state.c, and its theorems at concrete inputs.
use remote_avapps.Base.{◌≡◌, refl, List, [], ◌∷◌, true, if◌then◌else◌}
use remote_avapps.Status.{invalid_state}
use remote_avapps.Session.{
  Session, Callbacks, Event, State-discrete, boot, mapper_resp, transport_up, link_lost, timeout,
  user_terminate, offline, active, connecting, reconnecting, init, dispatch, state_change,
  session_lost,
}
use remote_avapps.Session.Paths.{InOrder, run-InOrder}
use remote_avapps.Session.Traces.{run, terminations, terminations-run, is_over}

abbrev all_set : Callbacks
all_set = record {
  on_state_change = true;
  on_quality_drop = true;
  on_session_lost = true;
  on_terminated = true;
}

abbrev streaming : Session
streaming = record { state = active; cb = all_set; retries = 2 }

-- The order of the calls.
lost_calls : (dispatch streaming link_lost).2 ≡ state_change active reconnecting ∷ session_lost ∷ []
unfolding dispatch State-discrete
lost_calls = refl

-- A user cannot end a session that is still connecting.
terminate_refused :
    (dispatch (record streaming { state = connecting }) user_terminate).0 ≡ invalid_state
unfolding dispatch
terminate_refused = refl

abbrev session : List Event
session = boot ∷ timeout ∷ mapper_resp ∷ transport_up ∷ user_terminate ∷ boot ∷ []

abbrev powered_off : Session
powered_off = record streaming { state = offline; retries = 4294967295 }

terminations-run_example :
    terminations (run powered_off session).1
    ≡ (if is_over (run powered_off session).0.state then 1 else 0)
terminations-run_example = terminations-run powered_off session refl refl

run-InOrder_example : InOrder (boot ∷ mapper_resp ∷ transport_up ∷ []) session
unfolding dispatch init State-discrete
run-InOrder_example = run-InOrder all_set session refl
