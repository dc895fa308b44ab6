-- ===== src/Core/State/Keeps.antt =====
-- What the steps of the Core keep, running a tool keeps: `_run_tool` and the answers of
-- backend/pipa_core/core.py.
use pipa_personal_assistant.Prelude.{
  ℕ, ◌≡◌, refl, inl, inr, String, Bool, false, Option, none, some, Result, ok, err, Result-cases,
  Bool-cases, ◌==◌,
}
use pipa_personal_assistant.Json.{Value, str, dict, Fields, get_field}
use pipa_personal_assistant.Protocol.Server.{UiState, thinking, ServerMessage}
use pipa_personal_assistant.Sessions.{DeviceSession, set_state}
use pipa_personal_assistant.Tools.{Exn, get_tool}
use pipa_personal_assistant.Memory.{MemoryError, Remembered, remember}
use pipa_personal_assistant.TextPolicy.{validate_bounded_text}
use pipa_personal_assistant.Tools.Router.{
  CallInfo, needs_confirmation, completed, rejected, executed, Invocation, Resolution, invoke,
  resolve_confirmation, cancel_pending,
}
use pipa_personal_assistant.Core.State.{Core, Intent, Config, Tick, save, respond}
use pipa_personal_assistant.Core.State.Guards.{fact_text, find_intent, is_bound, is_refusal}
use pipa_personal_assistant.Core.State.RunTool.{
  run_remember, run_recall, lacks_display, invoked, remembered, run_router, run_registered,
  run_tool,
}
use pipa_personal_assistant.Core.State.Handle.{
  cancel_own, resolved, run_intent, route, route_transcript, call_tool,
}

-- `P` holds after each step that a handler takes for a session that is `Own`, if it held before.
pub record IsKept {W : Type 0} (P : Core W → Type 0) (Own : DeviceSession → Type 0) : Type 0 where
  pub saved : (s : DeviceSession) (c : Core W) → Own s → P c → P (save s c)
  pub moved :
      (s s' : DeviceSession)
      → (s'.session_id ≡ s.session_id) × (s'.device_id ≡ s.device_id)
      → Own s
      → Own s'
  pub called :
      (name : String) (arguments : Value) (info : CallInfo) (c : Core W)
      → P c
      → P (record c { router = (invoke name arguments none info c.router).1 })
  pub answered :
      (now : ℕ) (id : String) (accepted : Bool) (owner : Option String) (c : Core W)
      → P c
      → P (record c { router = (resolve_confirmation now id accepted owner c.router).1 })
  pub cancelled :
      (owner : String) (c : Core W)
      → P c
      → P (record c { router = (cancel_pending owner c.router).1 })
  pub learnt :
      (device fact : String) (c : Core W)
      → P c
      → P (record c { memory = (remember device fact c.memory).1 })

module _ {W : Type 0} {P : Core W → Type 0} {Own : DeviceSession → Type 0} (k : IsKept P Own) where
  pub respond-kept :
      (state : UiState) (caption : Option String) (m : ServerMessage) (s : DeviceSession)
      (c : Core W)
      → Own s
      → P c
      → P (respond state caption m s c).1
  unfolding respond set_state
  respond-kept state caption m s c o p =
      let s' = set_state state caption s in k.saved s' c (k.moved s s' (refl, refl) o) p

  pub cancel_own-kept : (s : DeviceSession) (c : Core W) → P c → P (cancel_own s c)
  unfolding cancel_own
  cancel_own-kept s c p = k.cancelled s.session_id c p

  invoked-kept :
      (name : String) (call_id : Option String) (r : Result Exn Invocation) (s : DeviceSession)
      (c : Core W)
      → Own s
      → P c
      → P (invoked name call_id r s c).1
  unfolding invoked
  invoked-kept name call_id (ok (needs_confirmation v)) s c o p = respond-kept _ _ _ s c o p
  invoked-kept name call_id (ok (completed result)) s c o p = respond-kept _ _ _ s c o p
  invoked-kept name call_id (err e) s c o p = respond-kept _ _ _ s c o p

  remembered-kept :
      (r : Result MemoryError Remembered) (s : DeviceSession) (c : Core W)
      → Own s
      → P c
      → P (remembered r s c).1
  unfolding remembered
  remembered-kept (ok r) s c o p = respond-kept _ _ _ s c o p
  remembered-kept (err e) s c o p = respond-kept _ _ _ s c o p

  pub resolved-kept :
      (r : Result Exn Resolution) (s : DeviceSession) (c : Core W)
      → Own s
      → P c
      → P (resolved r s c).1
  unfolding resolved
  resolved-kept (ok (rejected name call_id)) s c o p = respond-kept _ _ _ s c o p
  resolved-kept (ok (executed name call_id result)) s c o p = respond-kept _ _ _ s c o p
  resolved-kept (err e) s c o p = elim (Bool-cases (is_refusal e)) [
    | inl r ↦ rw (resolved, r) (respond-kept _ _ _ s (cancel_own s c) o (cancel_own-kept s c p))
    | inr r ↦ rw (resolved, r) (respond-kept _ _ _ s (cancel_own s c) o (cancel_own-kept s c p))
  ]

  module _ (cfg : Config W) (t : Tick) where
    run_router-kept :
        (name : String) (arguments : Fields) (call_id digest : Option String) (s : DeviceSession)
        (c : Core W)
        → Own s
        → P c
        → P (run_router t name arguments call_id digest s c).1
    unfolding run_router
    run_router-kept name arguments call_id digest s c o p =
        invoked-kept name call_id _ s _ o (k.called name (dict arguments) _ c p)

    run_registered-kept :
        (name : String) (arguments : Fields) (call_id digest : Option String) (s : DeviceSession)
        (c : Core W)
        → Own s
        → P c
        → P (run_registered t name arguments call_id digest s c).1
    unfolding run_registered
    run_registered-kept name arguments call_id digest s c o p =
        elim (Bool-cases (lacks_display (get_tool name c.router.catalog) s)) [
          | inl e ↦ rw (run_registered, e) (respond-kept _ _ _ s c o p)
          | inr e ↦ rw (run_registered, e) (run_router-kept name arguments call_id digest s c o p)
        ]

    run_remember-kept :
        (fact : String) (s : DeviceSession) (c : Core W) → Own s → P c → P (run_remember fact s c).1
    unfolding run_remember
    run_remember-kept fact s c o p = remembered-kept _ s _ o (k.learnt s.device_id fact c p)

    run_recall-kept : (s : DeviceSession) (c : Core W) → Own s → P c → P (run_recall s c).1
    unfolding run_recall
    run_recall-kept s c o p = respond-kept _ _ _ s c o p

    run_tool-kept :
        (name : String) (arguments : Fields) (call_id digest : Option String) (s : DeviceSession)
        (c : Core W)
        → Own s
        → P c
        → P (run_tool cfg t name arguments call_id digest s c).1
    unfolding run_tool set_state
    run_tool-kept name arguments call_id digest s c o p =
        let s' = set_state thinking none s in
        let o' : Own s' = k.moved s s' (refl, refl) o in
        elim (Bool-cases (name == "remember_fact")) [
          | inl e ↦
              rw (run_tool, e)
                (run_remember-kept (fact_text cfg.show (get_field "fact" arguments)) s' c o' p)
          | inr e ↦ elim (Bool-cases (name == "recall_memory")) [
            | inl e' ↦ rw (run_tool, e, e') (run_recall-kept s' c o' p)
            | inr e' ↦
                rw (run_tool, e, e') (run_registered-kept name arguments call_id digest s' c o' p)
          ]
        ]

    run_intent-kept :
        (i : Option Intent) (s : DeviceSession) (c : Core W)
        → Own s
        → P c
        → P (run_intent cfg t i s c).1
    unfolding run_intent
    run_intent-kept none s c o p = respond-kept _ _ _ s c o p
    run_intent-kept (some i) s c o p = run_tool-kept i.tool_name i.arguments none none s c o p

    pub route_transcript-kept :
        (transcript : String) (s : DeviceSession) (c : Core W)
        → Own s
        → P c
        → P (route_transcript cfg t transcript s c).1
    unfolding route_transcript route
    route_transcript-kept transcript s c o p =
        elim (Result-cases (validate_bounded_text 4000 false (str transcript))) [
          | inl (bounded, e) ↦
              rw (route_transcript, e, route)
                (run_intent-kept (find_intent cfg bounded c.router.world) s c o p)
          | inr (x, e) ↦ rw (route_transcript, e, route) (respond-kept _ _ _ s c o p)
        ]

    pub call_tool-kept :
        (name : String) (arguments : Fields) (call_id digest : Option String) (s : DeviceSession)
        (c : Core W)
        → Own s
        → P c
        → P (call_tool cfg t name arguments call_id digest s c).1
    unfolding call_tool
    call_tool-kept name arguments call_id digest s c o p =
        elim (Bool-cases (is_bound cfg name arguments digest)) [
          | inl e ↦ rw (call_tool, e) (run_tool-kept name arguments call_id digest s c o p)
          | inr e ↦ rw (call_tool, e) (respond-kept _ _ _ s c o p)
        ]
