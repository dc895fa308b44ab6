-- ===== src/Examples/Showing.antt =====
-- The theorem on pending confirmations and screens, applied to a run with a confirmation on the screen.
use pipa_personal_assistant.Prelude.{refl, true, false, none, List, [], ◌∷◌, arith}
use pipa_personal_assistant.Protocol.{wake, confirm}
use pipa_personal_assistant.Protocol.Server.{UiState}
use pipa_personal_assistant.Core.State.Guards.{is_waiting}
use pipa_personal_assistant.Core.State.Invariant.{
  Inv, Event, step, run, message, authenticates, challenges, opens,
}
use pipa_personal_assistant.Sessions.{NewSession, create, check_limits, prune, is_stale}
use pipa_personal_assistant.Core.State.{prune_stale, verify, authorized, create_challenge}
use pipa_personal_assistant.TrustedUnlock
use pipa_personal_assistant.TrustedUnlock.{
  verify_response, verify_found, check_response, check_signature,
}
use pipa_personal_assistant.TrustedUnlock.Data.{SignedChallenge, new_challenge}
use pipa_personal_assistant.Core.State.Shown.{screen_allowance, allowance, Shown}
use pipa_personal_assistant.Core.State.ShownRuns.{AreFresh, run-Shown}
use pipa_personal_assistant.Examples.{waiting_router, core, config, tick, later, draw}
use pipa_personal_assistant.Examples.Confirming.{one_confirmation-Inv}

waiting-Inv : Inv (core UiState.confirm true waiting_router)
waiting-Inv = record {
  confirmations = one_confirmation-Inv;
  sessions = record {
    unique = (refl, tt);
    filed = (refl, tt);
    bounded = omega arith;
    devices = λ d. ground arith;
  };
  memory = record { unique = tt; facts = tt; devices = omega arith };
}

waiting-Shown : Shown (core UiState.confirm true waiting_router)
unfolding allowance screen_allowance is_waiting
waiting-Shown = record { ownerless = refl; shown = λ o. ground arith }

abbrev answer : SignedChallenge
answer = record { challenge_id = "h1"; device_id = "d2"; signature = "sig" }

abbrev direct : NewSession
direct = record {
  device_id = "d3";
  firmware_version = none;
  capabilities = [];
  capabilities_initialized = false;
}

abbrev events : List Event
events =
    authenticates tick answer none []
    ∷ challenges draw "d2"
    ∷ opens later direct
    ∷ message later "s1" wake
    ∷ message later "s1" (confirm "c1" false)
    ∷ []

run-Shown_example : Shown (run config (core UiState.confirm true waiting_router) events)
unfolding AreFresh prune_stale prune is_stale step create_challenge authorized verify
    verify_response verify_found new_challenge check_response TrustedUnlock.prune check_signature
    create check_limits TrustedUnlock.authorization
run-Shown_example =
    run-Shown config (core UiState.confirm true waiting_router) events waiting-Inv
      ((refl, refl, refl), (tt, ((refl, refl, refl), (tt, (tt, tt))))) (refl, tt) waiting-Shown
