-- ===== src/Core/State/RunTool.antt =====
-- `_run_tool` of backend/pipa_core/core.py: memory, the test of the device's capabilities, the router,
-- and what each of its outcomes becomes on the screen.
use pipa_personal_assistant.Prelude.{
  String, Bool, false, ◌&&◌, ◌||◌, not, Option, none, some, ◌==◌, if◌then◌else◌, Result, ok, err,
}
use pipa_personal_assistant.Json.{dict, Fields, get_field}
use pipa_personal_assistant.Protocol.Server.{
  UiState, idle, thinking, ServerMessage, error_text, confirm_request, tool_result,
}
use pipa_personal_assistant.Memory.{MemoryError, Remembered, remember, recall}
use pipa_personal_assistant.Sessions.{DeviceSession, set_state}
use pipa_personal_assistant.Tools.{Exn, is_unsafe, ToolDefinition, get_tool}
use pipa_personal_assistant.Tools.Router.{
  ConfirmationView, Invocation, needs_confirmation, completed, invoke,
}
use pipa_personal_assistant.Core.Captions.{
  device_confirmation_summary, device_tool_result, safe_result_caption,
}
use pipa_personal_assistant.Core.State.{Core, Config, Tick, Reply, respond}
use pipa_personal_assistant.Core.State.Guards.{
  can_confirm, is_refusal, fact_text, remembered_fields, recalled_fields,
}

-- the `confirm_request` of a pending confirmation
unfoldable pub request_message : ConfirmationView → ServerMessage
request_message v = confirm_request (record {
  confirmation_id = v.confirmation_id;
  tool_name = v.tool_name;
  summary = device_confirmation_summary v.tool_name;
  expires_at = v.expires_at;
  call_id = v.call_id;
  request_digest = v.request_digest;
})

-- the tools that the Core runs itself
unfoldable pub is_memory_tool : String → Bool
is_memory_tool name = name == "remember_fact" || name == "recall_memory"

module _ {W : Type 0} where
  unfoldable pub remembered : Result MemoryError Remembered → DeviceSession → Core W → Reply W
  remembered (ok r) s c =
      respond idle none
        (tool_result
          (device_tool_result "remember_fact" "completed" (some (remembered_fields r)) none))
        s c
  remembered (err e) s c =
      respond idle (some "No se pudo guardar la memoria.")
        (error_text "memory_failed" "No se pudo guardar la memoria.") s c

  -- the branch of `remember_fact`
  unfoldable pub run_remember : String → DeviceSession → Core W → Reply W
  run_remember fact s c =
      let (r, m) = remember s.device_id fact c.memory in remembered r s (record c { memory = m })

  -- the branch of `recall_memory`
  unfoldable pub run_recall : DeviceSession → Core W → Reply W
  run_recall s c =
      respond idle none
        (tool_result (
          device_tool_result "recall_memory" "completed"
            (some (recalled_fields (recall s.device_id c.memory))) none))
        s c

  -- an unsafe tool on a device that cannot show and confirm
  unfoldable pub lacks_display : Result Exn (ToolDefinition W) → DeviceSession → Bool
  lacks_display (ok d) s = is_unsafe d.safety && not (can_confirm s)
  lacks_display (err e) s = false

  unfoldable pub invoked :
      String → Option String → Result Exn Invocation → DeviceSession → Core W → Reply W
  invoked name call_id (ok (needs_confirmation v)) s c =
      respond UiState.confirm none (request_message v) s c
  invoked name call_id (ok (completed result)) s c =
      respond idle (some (safe_result_caption name result))
        (tool_result (device_tool_result name "completed" (some result) call_id)) s c
  invoked name call_id (err e) s c =
      let text =
        if is_refusal e
        then "No he podido ejecutar esa acción."
        else "La herramienta ha fallado." in
      respond idle (some text) (error_text "tool_failed" text) s c

  -- `self.router.invoke(…)` and the rest
  unfoldable pub run_router :
      Tick → String → Fields → Option String → Option String → DeviceSession → Core W → Reply W
  run_router t name arguments call_id digest s c =
      let (r, router) =
        invoke name (dict arguments) none
          (record {
            now = t.now;
            fresh = t.fresh;
            owner_id = some s.session_id;
            call_id = call_id;
            request_digest = digest;
          })
          c.router in
      invoked name call_id r s (record c { router = router })

  unfoldable pub run_registered :
      Tick → String → Fields → Option String → Option String → DeviceSession → Core W → Reply W
  run_registered t name arguments call_id digest s c =
      if lacks_display (get_tool name c.router.catalog) s
      then respond idle (some "Falta la pantalla táctil de confirmación.")
          (error_text "confirmation_unavailable" "La acción requiere pantalla y toque disponibles.")
          s c
      else run_router t name arguments call_id digest s c

  -- `_run_tool`
  unfoldable pub run_tool :
      Config W
      → Tick
      → String
      → Fields
      → Option String
      → Option String
      → DeviceSession
      → Core W
      → Reply W
  run_tool cfg t name arguments call_id digest s c =
      let s' = set_state thinking none s in
      if name == "remember_fact"
      then run_remember (fact_text cfg.show (get_field "fact" arguments)) s' c
      else if name == "recall_memory"
      then run_recall s' c
      else run_registered t name arguments call_id digest s' c
