-- ===== src/Core/State/Handle.antt =====
-- `handle`, `handle_transcript` and `_route_transcript` of backend/pipa_core/core.py.
use pipa_personal_assistant.Prelude.{
  String, Bool, true, false, ◌&&◌, not, Option, none, some, List, [], ◌∷◌, if◌then◌else◌, Result,
  ok, err,
}
use pipa_personal_assistant.Prelude.Dict.{lookup}
use pipa_personal_assistant.Json.{str, Fields}
use pipa_personal_assistant.Protocol.{
  ClientMessage, device_hello, text_input, catalog_request, wake, hold_start, hold_end, audio_end,
  abort, ping, device_status, gesture, tool_call, confirm,
}
use pipa_personal_assistant.Protocol.Server.{
  UiState, idle, error, error_text, tool_result, ui_state, pong, status_ack, device_hello_ack,
  tts_aborted, gesture_ack,
}
use pipa_personal_assistant.TextPolicy.{TextError, validate_bounded_text}
use pipa_personal_assistant.Sessions.{DeviceSession, touch, set_state, ui_message}
use pipa_personal_assistant.Tools.{Exn}
use pipa_personal_assistant.Tools.Router.{
  Resolution, rejected, executed, resolve_confirmation, cancel_pending,
}
use pipa_personal_assistant.Core.Captions.{device_tool_result, safe_result_caption}
use pipa_personal_assistant.Core.State.{
  Core, Intent, Config, Tick, Reply, save, respond, prune_stale,
}
use pipa_personal_assistant.Core.State.Guards.{
  is_pre_hello, is_answer, is_waiting, is_refusal, hello_required, unknown_session,
  confirmation_required, find_intent, is_bound, type_of, commands_read, capabilities_read,
}
use pipa_personal_assistant.Core.Catalog.Response.{catalog_response}
use pipa_personal_assistant.Core.State.RunTool.{run_tool}

module _ {W : Type 0} where
  unfoldable pub cancel_own : DeviceSession → Core W → Core W
  cancel_own s c = record c { router = (cancel_pending s.session_id c.router).1 }

  -- the two `except` clauses of `confirm`, and its answers
  unfoldable pub resolved : Result Exn Resolution → DeviceSession → Core W → Reply W
  unfolding cancel_own
  resolved (ok (rejected name call_id)) s c =
      respond idle (some "Acción cancelada.")
        (tool_result (device_tool_result name "rejected" none call_id)) s c
  resolved (ok (executed name call_id result)) s c =
      respond idle (some (safe_result_caption name result))
        (tool_result (device_tool_result name "completed" (some result) call_id)) s c
  resolved (err e) s c =
      if is_refusal e
      then respond idle (some "La confirmación ha caducado o no es válida.")
          (error_text "confirmation_failed" "La confirmación ha caducado o no es válida.") s
          (cancel_own s c)
      else respond idle (some "La herramienta ha fallado.")
          (error_text "tool_failed" "La herramienta ha fallado.") s (cancel_own s c)

  unfoldable pub confirm_pending : Tick → String → Bool → DeviceSession → Core W → Reply W
  confirm_pending t id accepted s c =
      let (r, router) = resolve_confirmation t.now id accepted (some s.session_id) c.router in
      resolved r s (record c { router = router })

  unfoldable pub ui_only : UiState → DeviceSession → Core W → Reply W
  ui_only state s c = let s' = set_state state none s in (ui_state (ui_message s') ∷ [], save s' c)

  unfoldable pub voice_unavailable : DeviceSession → Core W → Reply W
  voice_unavailable s c =
      respond idle (some "La voz aún no está disponible.")
        (error_text "voice_unavailable" "La voz aún no está disponible.") s c

  module _ (cfg : Config W) (t : Tick) where
    unfoldable pub run_intent : Option Intent → DeviceSession → Core W → Reply W
    run_intent none s c =
        respond idle (some "Todavía no conozco ese comando.")
          (error_text "unsupported_text_intent"
            "Comando no reconocido; usa un tool_call o una frase compatible.")
          s c
    run_intent (some i) s c = run_tool cfg t i.tool_name i.arguments none none s c

    unfoldable pub route : Result TextError String → DeviceSession → Core W → Reply W
    route (ok bounded) s c = run_intent (find_intent cfg bounded c.router.world) s c
    route (err e) s c =
        respond idle (some "La transcripción no es válida.")
          (error_text "invalid_transcript" "La transcripción no es válida.") s c

    -- `_route_transcript`
    unfoldable pub route_transcript : String → DeviceSession → Core W → Reply W
    route_transcript transcript s c = route (validate_bounded_text 4000 false (str transcript)) s c

    -- the branch of `tool_call`
    unfoldable pub call_tool :
        String → Fields → Option String → Option String → DeviceSession → Core W → Reply W
    call_tool name arguments call_id digest s c =
        if is_bound cfg name arguments digest
        then run_tool cfg t name arguments call_id digest s c
        else respond idle (some "La solicitud no es válida.")
            (error_text "request_binding_failed" "La solicitud no es válida.") s c

    -- the branches after the test for a pending confirmation
    unfoldable pub act : ClientMessage → DeviceSession → Core W → Reply W
    unfolding call_tool confirm_pending
    act wake s c = ui_only UiState.listening s c
    act hold_start s c = ui_only UiState.listening s c
    act hold_end s c = voice_unavailable s c
    act audio_end s c = voice_unavailable s c
    act abort s c = respond idle none tts_aborted s (cancel_own s c)
    act (gesture g) s c = (gesture_ack g ∷ [], c)
    act (text_input text source) s c = route_transcript text s c
    act (tool_call name arguments call_id digest) s c = call_tool name arguments call_id digest s c
    act (confirm id accepted) s c = confirm_pending t id accepted s c
    act m s c = (error_text "unsupported_message" (type_of m) ∷ [], c)

    -- the test for a pending confirmation, and the rest
    unfoldable pub act_unless_waiting : ClientMessage → DeviceSession → Core W → Reply W
    unfolding act
    act_unless_waiting m s c =
        if is_waiting s.state && not (is_answer m)
        then (confirmation_required ∷ ui_state (ui_message s) ∷ [], c)
        else act m s c

    -- from the `catalog_request` on
    unfoldable pub serve : ClientMessage → DeviceSession → Core W → Reply W
    serve catalog_request s c = (
      catalog_response c.router.catalog (commands_read cfg c.router.world)
            (capabilities_read cfg c.router.world)
          ∷ [],
      c,
    )
    serve m s c = act_unless_waiting m s c

    -- the test for the first `device_hello`, and the rest
    unfoldable pub serve_if_ready : ClientMessage → DeviceSession → Core W → Reply W
    serve_if_ready m s c =
        if not s.capabilities_initialized && not (is_pre_hello m)
        then (hello_required ∷ [], c)
        else serve m s c

    -- the branch of `device_hello`
    unfoldable pub greet : Option String → List String → DeviceSession → Core W → Reply W
    greet firmware capabilities s c =
        if s.capabilities_initialized then (error "device_hello_not_expected" ∷ [], c) else (
          device_hello_ack ∷ [],
          save
              (record s {
                firmware_version = firmware;
                capabilities = capabilities;
                capabilities_initialized = true;
              })
              c,
        )

    -- the branches of a session that is known and touched
    unfoldable pub receive : ClientMessage → DeviceSession → Core W → Reply W
    receive (ping request_id) s c = (pong request_id ∷ [], c)
    receive (device_status audio battery wifi) s c = (
      status_ack ∷ [],
      save (record s { audio_state = audio; battery_percent = battery; wifi_rssi = wifi }) c,
    )
    receive (device_hello firmware capabilities) s c = greet firmware capabilities s c
    receive m s c = serve_if_ready m s c

    -- the session, touched
    unfoldable pub handle_known : ClientMessage → Option DeviceSession → Core W → Reply W
    handle_known m none c = (unknown_session ∷ [], c)
    handle_known m (some s) c = let s' = touch t.now s in receive m s' (save s' c)

    -- `handle`
    unfoldable pub handle : String → ClientMessage → Core W → Reply W
    handle id m c = let c' = prune_stale t.now c in handle_known m (lookup id c'.sessions) c'

    unfoldable pub listen : String → DeviceSession → Core W → Reply W
    listen transcript s c =
        if not s.capabilities_initialized
        then (hello_required ∷ [], c)
        else if is_waiting s.state
        then (confirmation_required ∷ ui_state (ui_message s) ∷ [], c)
        else route_transcript transcript s c

    unfoldable pub listen_known : String → Option DeviceSession → Core W → Reply W
    listen_known transcript none c = (unknown_session ∷ [], c)
    listen_known transcript (some s) c = let s' = touch t.now s in listen transcript s' (save s' c)

    -- `handle_transcript`
    unfoldable pub handle_transcript : String → String → Core W → Reply W
    handle_transcript id transcript c = listen_known transcript (lookup id c.sessions) c
