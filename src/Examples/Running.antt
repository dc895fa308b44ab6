-- ===== src/Examples/Running.antt =====
-- The theorems on the router and on runs of the Core, applied to the two tools.
use pipa_personal_assistant.Prelude.{◌≡◌, ◌⊎◌, refl, true, none, some, [], ◌∷◌, arith}
use pipa_personal_assistant.Prelude.Text.{strip, prefix, len}
use pipa_personal_assistant.Json.{dict, end}
use pipa_personal_assistant.Protocol.{tool_call, confirm}
use pipa_personal_assistant.Protocol.Server.{idle}
use pipa_personal_assistant.Confirmations.{
  create, prune, check_request, check_limits, is_call_id, is_optional_digest, is_owner_full,
  new_record,
}
use pipa_personal_assistant.Tools.{get_tool, validate_arguments, run_validator}
use pipa_personal_assistant.Tools.Router.{
  invoke, resolve_confirmation, as_dict, dispatch, ask, ask_with, prepare, create_pending,
}
use pipa_personal_assistant.Tools.Gate.{confirmed_as_previewed, in_world}
use pipa_personal_assistant.Tools.Effects.{IsConfirmedRun, resolve-IsConfirmedRun}
use pipa_personal_assistant.Core.State.Invariant.{Inv, run, run-IsValid, message, closes}
use pipa_personal_assistant.Examples.{
  setter, seven, pending, info, router, waiting_router, core, config, tick, later,
}
use pipa_personal_assistant.Examples.Confirming.{one_confirmation-Inv}

resolve-IsConfirmedRun_example :
    let w' = (resolve_confirmation 105 "c1" true (some "s1") waiting_router).1.world in
    (w' ≡ 3) ⊎ ((true ≡ true) × IsConfirmedRun 105 "c1" (some "s1") waiting_router w')
resolve-IsConfirmedRun_example = resolve-IsConfirmedRun 105 "c1" true (some "s1") waiting_router

confirmed_as_previewed_example :
    let s' = in_world 50 (invoke "setter" (dict seven) none info router).1 in
    (resolve_confirmation 120 "c1" true (some "s1") s').1.world ≡ 7
unfolding get_tool validate_arguments run_validator invoke dispatch ask ask_with prepare
    create_pending create prune check_request check_limits is_call_id is_optional_digest
    is_owner_full new_record strip prefix len as_dict
confirmed_as_previewed_example =
    confirmed_as_previewed "setter" (dict seven) info router 120 50 {d = setter} {values = seven}
      {snapshot = seven} {v = as_dict pending} refl refl refl refl refl refl (omega arith)

pub core-Inv : Inv (core idle true waiting_router)
core-Inv = record {
  confirmations = one_confirmation-Inv;
  sessions = record {
    unique = (refl, tt);
    filed = (refl, tt);
    bounded = omega arith;
    devices = λ d. ground arith;
  };
  memory = record { unique = tt; facts = tt; devices = omega arith };
}

run-IsValid_example : Inv (
    run config (core idle true waiting_router) (
      message tick "s1" (confirm "c1" true)
      ∷ message later "s1" (tool_call "counter" end none none)
      ∷ closes "s1"
      ∷ []))
run-IsValid_example =
    run-IsValid config (core idle true waiting_router)
      (message tick "s1" (confirm "c1" true)
        ∷ message later "s1" (tool_call "counter" end none none)
        ∷ closes "s1"
        ∷ [])
      core-Inv
