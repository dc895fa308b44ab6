-- ===== src/Core/State/ShownHandle.antt =====
-- A message leaves a confirmation pending only while its session shows it: `handle` and
-- `handle_transcript` of backend/pipa_core/core.py, for the session that they found.
use pipa_personal_assistant.Prelude.{
  ℕ, ◌≤◌, ◌≡◌, refl, inl, inr, String, Bool, false, ◌&&◌, not, Option, none, some, List, Result, ok,
  err, arith, Result-cases, Bool-cases, if◌then◌else◌,
}
use pipa_personal_assistant.Prelude.Text.{is_empty}
use pipa_personal_assistant.Prelude.Dict.{lookup}
use pipa_personal_assistant.Prelude.Dict.Counts.{
  count_where-drop_where, count_where-drop_where_self,
}
use pipa_personal_assistant.Protocol.{
  ClientMessage, device_hello, text_input, catalog_request, wake, hold_start, hold_end, audio_end,
  abort, ping, device_status, tool_call, confirm,
}
use pipa_personal_assistant.Protocol.Server.{UiState}
use pipa_personal_assistant.Sessions.{DeviceSession, set_state}
use pipa_personal_assistant.Confirmations.{is_owned_by, consume, cancel_for_owner}
use pipa_personal_assistant.Confirmations.Counts.{is_ok, consume-owned, consume-taken}
use pipa_personal_assistant.Tools.{Exn}
use pipa_personal_assistant.Tools.Asking.{resolve-consumes}
use pipa_personal_assistant.Tools.Router.{
  rejected, executed, Resolution, resolve_confirmation, cancel_pending,
}
use pipa_personal_assistant.Core.State.{Core, Config, Tick}
use pipa_personal_assistant.Core.State.Guards.{is_waiting, is_answer, is_pre_hello, is_refusal}
use pipa_personal_assistant.Core.State.Handle.{
  cancel_own, resolved, confirm_pending, act, act_unless_waiting, serve, serve_if_ready, greet,
  receive, ui_only, voice_unavailable, listen,
}
use pipa_personal_assistant.Core.State.Shown.{
  screen_allowance, Shown, Others, Others-of_Shown, save-Shown, respond-Shown,
}
use pipa_personal_assistant.Core.State.ShownTools.{route_transcript-Shown, call_tool-Shown}

allowance_one : (state : UiState) → screen_allowance state ≤ 1
unfolding screen_allowance
allowance_one state = ground arith

module _ {W : Type 0} (id : String) where
  cancelled-Others :
      (n : ℕ) (c : Core W)
      → is_empty id ≡ false
      → Others id n c
      → Others id 0 (record c { router = (cancel_pending id c.router).1 })
  unfolding cancel_pending cancel_for_owner
  cancelled-Others n c u v =
      let d = c.router.confirmations.pending in
      let p = is_owned_by (some id) in
      record {
        ownerless =
            rw (u, cancel_for_owner)
              (omega (arith, v.ownerless, count_where-drop_where (is_owned_by none) p d));
        others = λ o b.
            rw (u, cancel_for_owner)
              (omega (arith, v.others o b, count_where-drop_where (is_owned_by (some o)) p d));
        own = rw (u, cancel_for_owner) (omega (arith, count_where-drop_where_self p d));
        stored = v.stored;
        there = v.there;
      }

  cancel_own-Others :
      (n : ℕ) (s : DeviceSession) (c : Core W)
      → is_empty id ≡ false
      → s.session_id ≡ id
      → Others id n c
      → Others id 0 (cancel_own s c)
  unfolding cancel_own
  cancel_own-Others n s c u f v = rw f (cancelled-Others n c u v)

  consumed-Others :
      (now : ℕ) (k : String) (accepted : Bool) (c : Core W)
      → Others id 1 c
      → let (r, router) = resolve_confirmation now k accepted (some id) c.router in
        Others id (if is_ok r then 0 else 1) (record c { router = router })
  consumed-Others now k accepted c v =
      let m = c.router.confirmations in
      let (e, a) = resolve-consumes now k accepted (some id) c.router in
      record {
        ownerless = rw e (omega (arith, v.ownerless, consume-owned none now k (some id) m));
        others =
            λ o b. rw e (omega (arith, v.others o b, consume-owned (some o) now k (some id) m));
        own = rw e (elim a [
          | inr failed ↦ rw failed (omega (arith, v.own, consume-owned (some id) now k (some id) m))
          | inl taken ↦ elim (Result-cases (consume now k (some id) m).0) [
            | inl (r, x) ↦ omega (arith, v.own, consume-taken now k (some id) m v.ownerless x)
            | inr (y, x) ↦ absurd (cc)
          ]
        ]);
        stored = v.stored;
        there = v.there;
      }

  resolved-Shown :
      (r : Result Exn Resolution) (s : DeviceSession) (c : Core W)
      → is_empty id ≡ false
      → Others id (if is_ok r then 0 else 1) c
      → s.session_id ≡ id
      → Shown (resolved r s c).1
  unfolding resolved
  resolved-Shown (ok (rejected name call_id)) s c u v f =
      respond-Shown id 0 _ _ _ s c v f (omega arith)
  resolved-Shown (ok (executed name call_id result)) s c u v f =
      respond-Shown id 0 _ _ _ s c v f (omega arith)
  resolved-Shown (err e) s c u v f = elim (Bool-cases (is_refusal e)) [
    | inl b ↦
        rw (resolved, b)
          (respond-Shown id 0 _ _ _ s (cancel_own s c) (cancel_own-Others 1 s c u f v) f
            (omega arith))
    | inr b ↦
        rw (resolved, b)
          (respond-Shown id 0 _ _ _ s (cancel_own s c) (cancel_own-Others 1 s c u f v) f
            (omega arith))
  ]

  weaken : (m n : ℕ) (c : Core W) → m ≤ n → Others id m c → Others id n c
  weaken m n c h v = record {
    ownerless = v.ownerless;
    others = v.others;
    own = omega (arith, h, v.own);
    stored = v.stored;
    there = v.there;
  }

  module _ (cfg : Config W) (t : Tick) (u : is_empty id ≡ false) where
    confirm_pending-Shown :
        (k : String) (accepted : Bool) (s : DeviceSession) (c : Core W)
        → Others id 1 c
        → s.session_id ≡ id
        → Shown (confirm_pending t k accepted s c).1
    unfolding confirm_pending
    confirm_pending-Shown k accepted s c v f =
        resolved-Shown _ s _ u (rw f (consumed-Others t.now k accepted c v)) f

    act-Shown :
        (m : ClientMessage) (s : DeviceSession) (c : Core W)
        → Shown c
        → Others id 1 c
        → s.session_id ≡ id
        → (is_answer m ≡ false → Others id 0 c)
        → Shown (act cfg t m s c).1
    unfolding act ui_only voice_unavailable set_state is_answer
    act-Shown (text_input text source) s c w v f z =
        route_transcript-Shown id cfg t text s c (z refl) f
    act-Shown (tool_call name arguments call_id digest) s c w v f z =
        call_tool-Shown id cfg t name arguments call_id digest s c (z refl) f
    act-Shown (confirm k accepted) s c w v f z = confirm_pending-Shown k accepted s c v f
    act-Shown wake s c w v f z = save-Shown id 0 _ c (z refl) f (omega arith)
    act-Shown hold_start s c w v f z = save-Shown id 0 _ c (z refl) f (omega arith)
    act-Shown hold_end s c w v f z = respond-Shown id 0 _ _ _ s c (z refl) f (omega arith)
    act-Shown audio_end s c w v f z = respond-Shown id 0 _ _ _ s c (z refl) f (omega arith)
    act-Shown abort s c w v f z =
        respond-Shown id 0 _ _ _ s (cancel_own s c) (cancel_own-Others 1 s c u f v) f (omega arith)
    act-Shown _ s c w v f z = w

    -- the session as it is stored
    module _ (s : DeviceSession) (c : Core W) (w : Shown c) (f : s.session_id ≡ id)
        (e : lookup id c.sessions ≡ some s) where
      not_waiting : is_waiting s.state ≡ false → Others id 0 c
      unfolding screen_allowance
      not_waiting h = weaken _ 0 c (ground arith) (Others-of_Shown id c w e)

      act_unless_waiting-Shown : (m : ClientMessage) → Shown (act_unless_waiting cfg t m s c).1
      unfolding act_unless_waiting
      act_unless_waiting-Shown m = elim (Bool-cases (is_waiting s.state && not (is_answer m))) [
        | inl b ↦ rw (act_unless_waiting, b) w
        | inr b ↦
            rw (act_unless_waiting, b)
              (act-Shown m s c w (weaken _ 1 c (allowance_one s.state) (Others-of_Shown id c w e)) f
                λ a. not_waiting (ground arith))
      ]

      serve-Shown : (m : ClientMessage) → Shown (serve cfg t m s c).1
      unfolding serve
      serve-Shown catalog_request = w
      serve-Shown m = act_unless_waiting-Shown m

      serve_if_ready-Shown : (m : ClientMessage) → Shown (serve_if_ready cfg t m s c).1
      unfolding serve_if_ready
      serve_if_ready-Shown m =
          elim (Bool-cases (not s.capabilities_initialized && not (is_pre_hello m))) [
            | inl b ↦ rw (serve_if_ready, b) w
            | inr b ↦ rw (serve_if_ready, b) (serve-Shown m)
          ]

      greet-Shown :
          (firmware : Option String) (capabilities : List String)
          → Shown (greet cfg t firmware capabilities s c).1
      unfolding greet
      greet-Shown firmware capabilities = elim (Bool-cases s.capabilities_initialized) [
        | inl b ↦ rw (greet, b) w
        | inr b ↦
            rw (greet, b)
              (save-Shown id (screen_allowance s.state) _ c (Others-of_Shown id c w e) f
                (omega arith))
      ]

      pub receive-Shown : (m : ClientMessage) → Shown (receive cfg t m s c).1
      unfolding receive
      receive-Shown (ping request_id) = w
      receive-Shown (device_status audio battery wifi) =
          save-Shown id (screen_allowance s.state) _ c (Others-of_Shown id c w e) f (omega arith)
      receive-Shown (device_hello firmware capabilities) = greet-Shown firmware capabilities
      receive-Shown m = serve_if_ready-Shown m

      pub listen-Shown : (transcript : String) → Shown (listen cfg t transcript s c).1
      unfolding listen
      listen-Shown transcript = elim (Bool-cases (not s.capabilities_initialized)) [
        | inl b ↦ rw (listen, b) w
        | inr b ↦ elim (Bool-cases (is_waiting s.state)) [
          | inl b' ↦ rw (listen, b, b') w
          | inr b' ↦
              rw (listen, b, b') (route_transcript-Shown id cfg t transcript s c (not_waiting b') f)
        ]
      ]
