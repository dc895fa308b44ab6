-- ===== src/Core/State/Effects.antt =====
-- What a message may do to the world, through `handle` of backend/pipa_core/core.py.
use pipa_personal_assistant.Prelude.{
  ℕ, ◌≡◌, refl, ◌⊎◌, inl, inr, String, Bool, true, ◌&&◌, not, Option, some, List, [], ◌∷◌, Result,
  arith, Option-cases, Bool-cases, subst, ap,
}
use pipa_personal_assistant.Prelude.Dict.{lookup, Each}
use pipa_personal_assistant.Prelude.Dict.Laws.{lookup-Each}
use pipa_personal_assistant.Protocol.{
  ClientMessage, device_hello, text_input, catalog_request, wake, hold_start, hold_end, audio_end,
  abort, ping, device_status, tool_call, confirm,
}
use pipa_personal_assistant.Sessions.{DeviceSession, prune, touch}
use pipa_personal_assistant.Sessions.Invariant.{IsFiled}
use pipa_personal_assistant.Tools.{Exn}
use pipa_personal_assistant.Tools.Router.{
  ToolRouter, Resolution, resolve_confirmation, cancel_pending,
}
use pipa_personal_assistant.Tools.Effects.{IsConfirmedRun, resolve-IsConfirmedRun}
use pipa_personal_assistant.Core.State.{Core, Config, Tick, save, respond, cancel_each, prune_stale}
use pipa_personal_assistant.Core.State.Guards.{is_waiting, is_answer, is_pre_hello}
use pipa_personal_assistant.Core.State.Handle.{
  cancel_own, resolved, confirm_pending, act, act_unless_waiting, serve, serve_if_ready, greet,
  receive, handle_known, handle, ui_only, voice_unavailable,
}
use pipa_personal_assistant.Core.State.SafeEffects.{
  IsSafeEffect, route_transcript-IsSafeEffect, call_tool-IsSafeEffect,
}

-- Or the message accepts a confirmation, and the world is as the confirmed tool leaves it.
abbrev pub IsEffect :
    {W : Type 0} → ℕ → String → ClientMessage → ToolRouter W → ToolRouter W → Type 0
IsEffect now owner m r r' =
    IsSafeEffect r r'
    ⊎ ((id : String) × (m ≡ confirm id true) × IsConfirmedRun now id (some owner) r r'.world)

module _ {W : Type 0} where
  cancel_each-world :
      (ids : List String) (r : ToolRouter W)
      → ((cancel_each ids r).world ≡ r.world) × ((cancel_each ids r).catalog ≡ r.catalog)
  unfolding cancel_each cancel_pending
  cancel_each-world [] r = (refl, refl)
  cancel_each-world (id ∷ ids) r = cancel_each-world ids (cancel_pending id r).1

  module _ (cfg : Config W) (t : Tick) where
    resolved-world :
        (r : Result Exn Resolution) (s : DeviceSession) (c : Core W)
        → (resolved r s c).1.router.world ≡ c.router.world
    unfolding resolved respond save cancel_own cancel_pending
    resolved-world r s c = ground arith

    confirm_pending-IsEffect :
        (id : String) (accepted : Bool) (s : DeviceSession) (c : Core W)
        → IsEffect t.now s.session_id
            (confirm id accepted)
            c.router
            (confirm_pending t id accepted s c).1.router
    unfolding confirm_pending
    confirm_pending-IsEffect id accepted s c =
        let x = resolve_confirmation t.now id accepted (some s.session_id) c.router in
        rw (resolved-world x.0 s (record c { router = x.1 }))
          (elim (resolve-IsConfirmedRun t.now id accepted (some s.session_id) c.router) [
            | inl e ↦ inl (inl e)
            | inr (e, run) ↦ inr (id, rw e refl, run)
          ])

    act-IsEffect :
        (m : ClientMessage) (s : DeviceSession) (c : Core W)
        → IsEffect t.now s.session_id m c.router (act cfg t m s c).1.router
    unfolding act respond save ui_only voice_unavailable cancel_own cancel_pending
    act-IsEffect (text_input text source) s c = inl (route_transcript-IsSafeEffect cfg t text s c)
    act-IsEffect (tool_call name arguments call_id digest) s c =
        inl (call_tool-IsSafeEffect cfg t name arguments call_id digest s c)
    act-IsEffect (confirm id accepted) s c = confirm_pending-IsEffect id accepted s c
    act-IsEffect wake s c = inl (inl refl)
    act-IsEffect hold_start s c = inl (inl refl)
    act-IsEffect hold_end s c = inl (inl refl)
    act-IsEffect audio_end s c = inl (inl refl)
    act-IsEffect abort s c = inl (inl refl)
    act-IsEffect _ s c = inl (inl refl)

    act_unless_waiting-IsEffect :
        (m : ClientMessage) (s : DeviceSession) (c : Core W)
        → IsEffect t.now s.session_id m c.router (act_unless_waiting cfg t m s c).1.router
    unfolding act_unless_waiting
    act_unless_waiting-IsEffect m s c =
        elim (Bool-cases (is_waiting s.state && not (is_answer m))) [
          | inl e ↦ rw (act_unless_waiting, e) (inl (inl refl))
          | inr e ↦ rw (act_unless_waiting, e) (act-IsEffect m s c)
        ]

    serve-IsEffect :
        (m : ClientMessage) (s : DeviceSession) (c : Core W)
        → IsEffect t.now s.session_id m c.router (serve cfg t m s c).1.router
    unfolding serve
    serve-IsEffect catalog_request s c = inl (inl refl)
    serve-IsEffect m s c = act_unless_waiting-IsEffect m s c

    serve_if_ready-IsEffect :
        (m : ClientMessage) (s : DeviceSession) (c : Core W)
        → IsEffect t.now s.session_id m c.router (serve_if_ready cfg t m s c).1.router
    unfolding serve_if_ready
    serve_if_ready-IsEffect m s c =
        elim (Bool-cases (not s.capabilities_initialized && not (is_pre_hello m))) [
          | inl e ↦ rw (serve_if_ready, e) (inl (inl refl))
          | inr e ↦ rw (serve_if_ready, e) (serve-IsEffect m s c)
        ]

    greet-router :
        (firmware : Option String) (capabilities : List String) (s : DeviceSession) (c : Core W)
        → (greet cfg t firmware capabilities s c).1.router ≡ c.router
    unfolding greet save
    greet-router firmware capabilities s c = elim (Bool-cases s.capabilities_initialized) [
      | inl e ↦ rw (greet, e) refl
      | inr e ↦ rw (greet, e) refl
    ]

    receive-IsEffect :
        (m : ClientMessage) (s : DeviceSession) (c : Core W)
        → IsEffect t.now s.session_id m c.router (receive cfg t m s c).1.router
    unfolding receive save
    receive-IsEffect (ping request_id) s c = inl (inl refl)
    receive-IsEffect (device_status audio battery wifi) s c = inl (inl refl)
    receive-IsEffect (device_hello firmware capabilities) s c =
        inl (inl (ap (λ r. r.world) (greet-router firmware capabilities s c)))
    receive-IsEffect m s c = serve_if_ready-IsEffect m s c

    -- Whatever a session sends, the call first drops stale sessions, which leaves the world and the
    -- catalog alone. Then the world stays as it was, or the handler of a registered safe tool has
    -- run, or the message accepted a confirmation that was pending, had not expired and was owned by
    -- this session or had no owner, and the tool of that confirmation has run on the arguments it was
    -- asked for. The sessions stand under their identifiers.
    pub handle-IsEffect :
        (id : String) (m : ClientMessage) (c : Core W)
        → Each IsFiled (prune_stale t.now c).sessions
        → let c' = prune_stale t.now c in
          (c'.router.world ≡ c.router.world)
          × (c'.router.catalog ≡ c.router.catalog)
          × IsEffect t.now id m c'.router (handle cfg t id m c).1.router
    unfolding prune_stale handle handle_known save touch
    handle-IsEffect id m c filed =
        let c' = prune_stale t.now c in
        let (w, k) = cancel_each-world (prune t.now c.sessions).0 c.router in
        elim (Option-cases (lookup id c'.sessions)) [
          | inl e ↦ (w, k, rw (handle, e) (inl (inl refl)))
          | inr (s, e) ↦
              let s' = touch t.now s in
              let f : s.session_id ≡ id = lookup-Each IsFiled id s c'.sessions filed e in
              (
                w,
                k,
                rw (handle, e, handle_known)
                    (subst
                      (λ owner.
                        IsEffect t.now owner m c'.router (receive cfg t m s' (save s' c')).1.router)
                      f (receive-IsEffect m s' (save s' c'))),
              )
        ]
