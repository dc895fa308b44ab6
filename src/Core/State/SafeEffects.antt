-- ===== src/Core/State/SafeEffects.antt =====
-- What running a tool without a confirmation may do to the world: `_run_tool`, `_route_transcript` and
-- the `tool_call` of backend/pipa_core/core.py.
use pipa_personal_assistant.Prelude.{
  ◌≡◌, refl, ◌⊎◌, inl, inr, String, false, Option, none, some, Result, ok, err, Result-cases,
  Bool-cases, ◌==◌,
}
use pipa_personal_assistant.Json.{str, dict, Fields, get_field}
use pipa_personal_assistant.Protocol.Server.{thinking}
use pipa_personal_assistant.Sessions.{DeviceSession, set_state}
use pipa_personal_assistant.Tools.{Exn, get_tool}
use pipa_personal_assistant.Memory.{MemoryError, Remembered, remember}
use pipa_personal_assistant.TextPolicy.{validate_bounded_text}
use pipa_personal_assistant.Tools.Router.{
  ToolRouter, CallInfo, needs_confirmation, completed, Invocation, invoke,
}
use pipa_personal_assistant.Tools.Effects.{IsSafeRun, invoke-IsSafeRun}
use pipa_personal_assistant.Core.State.{Core, Intent, Config, Tick, save, respond}
use pipa_personal_assistant.Core.State.Guards.{fact_text, find_intent, is_bound}
use pipa_personal_assistant.Core.State.RunTool.{
  run_remember, run_recall, lacks_display, invoked, remembered, run_router, run_registered,
  run_tool,
}
use pipa_personal_assistant.Core.State.Handle.{run_intent, route, route_transcript, call_tool}

-- The world is as it was, or as the handler of a safe tool leaves it.
abbrev pub IsSafeEffect : {W : Type 0} → ToolRouter W → ToolRouter W → Type 0
IsSafeEffect r r' = (r'.world ≡ r.world) ⊎ IsSafeRun r.catalog r.world r'.world

module _ {W : Type 0} where
  invoked-router :
      (name : String) (call_id : Option String) (r : Result Exn Invocation) (s : DeviceSession)
      (c : Core W)
      → (invoked name call_id r s c).1.router ≡ c.router
  unfolding invoked respond save
  invoked-router name call_id (ok (needs_confirmation v)) s c = refl
  invoked-router name call_id (ok (completed result)) s c = refl
  invoked-router name call_id (err e) s c = refl

  remembered-router :
      (r : Result MemoryError Remembered) (s : DeviceSession) (c : Core W)
      → (remembered r s c).1.router ≡ c.router
  unfolding remembered respond save
  remembered-router (ok r) s c = refl
  remembered-router (err e) s c = refl

  module _ (cfg : Config W) (t : Tick) where
    run_router-IsSafeEffect :
        (name : String) (arguments : Fields) (call_id digest : Option String) (s : DeviceSession)
        (c : Core W)
        → IsSafeEffect c.router (run_router t name arguments call_id digest s c).1.router
    unfolding run_router
    run_router-IsSafeEffect name arguments call_id digest s c =
        let info : CallInfo = record {
          now = t.now;
          fresh = t.fresh;
          owner_id = some s.session_id;
          call_id = call_id;
          request_digest = digest;
        } in
        let i = invoke name (dict arguments) none info c.router in
        rw (invoked-router name call_id i.0 s (record c { router = i.1 }))
          (invoke-IsSafeRun name (dict arguments) info c.router)

    run_remember-router :
        (fact : String) (s : DeviceSession) (c : Core W)
        → (run_remember fact s c).1.router ≡ c.router
    unfolding run_remember
    run_remember-router fact s c =
        let r = remember s.device_id fact c.memory in
        remembered-router r.0 s (record c { memory = r.1 })

    run_registered-IsSafeEffect :
        (name : String) (arguments : Fields) (call_id digest : Option String) (s : DeviceSession)
        (c : Core W)
        → IsSafeEffect c.router (run_registered t name arguments call_id digest s c).1.router
    unfolding run_registered respond save
    run_registered-IsSafeEffect name arguments call_id digest s c =
        elim (Bool-cases (lacks_display (get_tool name c.router.catalog) s)) [
          | inl e ↦ rw (run_registered, e) (inl refl)
          | inr e ↦
              rw (run_registered, e) (run_router-IsSafeEffect name arguments call_id digest s c)
        ]

    run_tool-IsSafeEffect :
        (name : String) (arguments : Fields) (call_id digest : Option String) (s : DeviceSession)
        (c : Core W)
        → IsSafeEffect c.router (run_tool cfg t name arguments call_id digest s c).1.router
    unfolding run_tool run_recall respond save
    run_tool-IsSafeEffect name arguments call_id digest s c =
        let s' = set_state thinking none s in
        elim (Bool-cases (name == "remember_fact")) [
          | inl e ↦
              rw
                (
                  run_tool,
                  e,
                  run_remember-router (fact_text cfg.show (get_field "fact" arguments)) s' c,
                )
                (inl refl)
          | inr e ↦ elim (Bool-cases (name == "recall_memory")) [
            | inl e' ↦ rw (run_tool, e, e') (inl refl)
            | inr e' ↦
                rw (run_tool, e, e')
                  (run_registered-IsSafeEffect name arguments call_id digest s' c)
          ]
        ]

    run_intent-IsSafeEffect :
        (i : Option Intent) (s : DeviceSession) (c : Core W)
        → IsSafeEffect c.router (run_intent cfg t i s c).1.router
    unfolding run_intent respond save
    run_intent-IsSafeEffect none s c = inl refl
    run_intent-IsSafeEffect (some i) s c =
        run_tool-IsSafeEffect i.tool_name i.arguments none none s c

    pub route_transcript-IsSafeEffect :
        (transcript : String) (s : DeviceSession) (c : Core W)
        → IsSafeEffect c.router (route_transcript cfg t transcript s c).1.router
    unfolding route_transcript route respond save
    route_transcript-IsSafeEffect transcript s c =
        elim (Result-cases (validate_bounded_text 4000 false (str transcript))) [
          | inl (bounded, e) ↦
              rw (route_transcript, e, route)
                (run_intent-IsSafeEffect (find_intent cfg bounded c.router.world) s c)
          | inr (x, e) ↦ rw (route_transcript, e, route) (inl refl)
        ]

    pub call_tool-IsSafeEffect :
        (name : String) (arguments : Fields) (call_id digest : Option String) (s : DeviceSession)
        (c : Core W)
        → IsSafeEffect c.router (call_tool cfg t name arguments call_id digest s c).1.router
    unfolding call_tool respond save
    call_tool-IsSafeEffect name arguments call_id digest s c =
        elim (Bool-cases (is_bound cfg name arguments digest)) [
          | inl e ↦ rw (call_tool, e) (run_tool-IsSafeEffect name arguments call_id digest s c)
          | inr e ↦ rw (call_tool, e) (inl refl)
        ]
