-- ===== src/Core/State/HandleKeeps.antt =====
-- What the steps of the Core keep, `handle` and `handle_transcript` of backend/pipa_core/core.py keep.
use pipa_personal_assistant.Prelude.{
  refl, inl, inr, String, ◌&&◌, not, Option, none, some, List, Bool-cases,
}
use pipa_personal_assistant.Protocol.{
  ClientMessage, device_hello, text_input, catalog_request, wake, hold_start, hold_end, audio_end,
  abort, ping, device_status, tool_call, confirm,
}
use pipa_personal_assistant.Protocol.Server.{UiState}
use pipa_personal_assistant.Sessions.{DeviceSession, set_state}
use pipa_personal_assistant.Core.State.{Core, Config, Tick}
use pipa_personal_assistant.Core.State.Guards.{is_waiting, is_answer, is_pre_hello}
use pipa_personal_assistant.Core.State.Handle.{
  cancel_own, confirm_pending, act, act_unless_waiting, serve, serve_if_ready, greet, receive,
  listen, ui_only, voice_unavailable,
}
use pipa_personal_assistant.Core.State.Keeps.{
  IsKept, respond-kept, cancel_own-kept, resolved-kept, route_transcript-kept, call_tool-kept,
}

module _ {W : Type 0} {P : Core W → Type 0} {Own : DeviceSession → Type 0} (k : IsKept P Own) where
  module _ (cfg : Config W) (t : Tick) where
    ui_only-kept :
        (state : UiState) (s : DeviceSession) (c : Core W) → Own s → P c → P (ui_only state s c).1
    unfolding ui_only set_state
    ui_only-kept state s c o p =
        let s' = set_state state none s in k.saved s' c (k.moved s s' (refl, refl) o) p

    act-kept :
        (m : ClientMessage) (s : DeviceSession) (c : Core W) → Own s → P c → P (act cfg t m s c).1
    unfolding act voice_unavailable confirm_pending
    act-kept (text_input text source) s c o p = route_transcript-kept k cfg t text s c o p
    act-kept (tool_call name arguments call_id digest) s c o p =
        call_tool-kept k cfg t name arguments call_id digest s c o p
    act-kept (confirm id accepted) s c o p =
        resolved-kept k _ s _ o (k.answered t.now id accepted (some s.session_id) c p)
    act-kept wake s c o p = ui_only-kept UiState.listening s c o p
    act-kept hold_start s c o p = ui_only-kept UiState.listening s c o p
    act-kept hold_end s c o p = respond-kept k _ _ _ s c o p
    act-kept audio_end s c o p = respond-kept k _ _ _ s c o p
    act-kept abort s c o p = respond-kept k _ _ _ s (cancel_own s c) o (cancel_own-kept k s c p)
    act-kept _ s c o p = p

    act_unless_waiting-kept :
        (m : ClientMessage) (s : DeviceSession) (c : Core W)
        → Own s
        → P c
        → P (act_unless_waiting cfg t m s c).1
    unfolding act_unless_waiting
    act_unless_waiting-kept m s c o p =
        elim (Bool-cases (is_waiting s.state && not (is_answer m))) [
          | inl e ↦ rw (act_unless_waiting, e) p
          | inr e ↦ rw (act_unless_waiting, e) (act-kept m s c o p)
        ]

    serve-kept :
        (m : ClientMessage) (s : DeviceSession) (c : Core W) → Own s → P c → P (serve cfg t m s c).1
    unfolding serve
    serve-kept catalog_request s c o p = p
    serve-kept m s c o p = act_unless_waiting-kept m s c o p

    serve_if_ready-kept :
        (m : ClientMessage) (s : DeviceSession) (c : Core W)
        → Own s
        → P c
        → P (serve_if_ready cfg t m s c).1
    unfolding serve_if_ready
    serve_if_ready-kept m s c o p =
        elim (Bool-cases (not s.capabilities_initialized && not (is_pre_hello m))) [
          | inl e ↦ rw (serve_if_ready, e) p
          | inr e ↦ rw (serve_if_ready, e) (serve-kept m s c o p)
        ]

    greet-kept :
        (firmware : Option String) (capabilities : List String) (s : DeviceSession) (c : Core W)
        → Own s
        → P c
        → P (greet cfg t firmware capabilities s c).1
    unfolding greet
    greet-kept firmware capabilities s c o p = elim (Bool-cases s.capabilities_initialized) [
      | inl e ↦ rw (greet, e) p
      | inr e ↦ rw (greet, e) (k.saved _ c (k.moved s _ (refl, refl) o) p)
    ]

    pub receive-kept :
        (m : ClientMessage) (s : DeviceSession) (c : Core W)
        → Own s
        → P c
        → P (receive cfg t m s c).1
    unfolding receive
    receive-kept (ping request_id) s c o p = p
    receive-kept (device_status audio battery wifi) s c o p =
        k.saved _ c (k.moved s _ (refl, refl) o) p
    receive-kept (device_hello firmware capabilities) s c o p =
        greet-kept firmware capabilities s c o p
    receive-kept m s c o p = serve_if_ready-kept m s c o p

    pub listen-kept :
        (transcript : String) (s : DeviceSession) (c : Core W)
        → Own s
        → P c
        → P (listen cfg t transcript s c).1
    unfolding listen
    listen-kept transcript s c o p = elim (Bool-cases (not s.capabilities_initialized)) [
      | inl e ↦ rw (listen, e) p
      | inr e ↦ elim (Bool-cases (is_waiting s.state)) [
        | inl e' ↦ rw (listen, e, e') p
        | inr e' ↦ rw (listen, e, e') (route_transcript-kept k cfg t transcript s c o p)
      ]
    ]
