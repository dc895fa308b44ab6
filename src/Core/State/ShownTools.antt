-- ===== src/Core/State/ShownTools.antt =====
-- Running a tool leaves a confirmation pending only while its session shows it: `_run_tool` and
-- `_route_transcript` of backend/pipa_core/core.py.
use pipa_personal_assistant.Prelude.{
  ℕ, ◌≡◌, inl, inr, String, false, Option, none, some, Result, ok, err, arith, Result-cases,
  Bool-cases, if◌then◌else◌, ◌==◌, eq_refl, ap, ◌∙◌,
}
use pipa_personal_assistant.Json.{Value, str, dict, Fields, get_field}
use pipa_personal_assistant.Protocol.Server.{thinking}
use pipa_personal_assistant.TextPolicy.{validate_bounded_text}
use pipa_personal_assistant.Memory.{MemoryError, Remembered}
use pipa_personal_assistant.Sessions.{DeviceSession, set_state}
use pipa_personal_assistant.Confirmations.Counts.{create-owned}
use pipa_personal_assistant.Tools.{Exn, get_tool}
use pipa_personal_assistant.Tools.Asking.{is_asked, invoke-IsAsking}
use pipa_personal_assistant.Tools.Router.{
  CallInfo, needs_confirmation, completed, Invocation, invoke,
}
use pipa_personal_assistant.Core.State.{Core, Intent, Config, Tick}
use pipa_personal_assistant.Core.State.Guards.{fact_text, find_intent, is_bound, is_waiting}
use pipa_personal_assistant.Core.State.RunTool.{
  run_remember, run_recall, lacks_display, invoked, remembered, run_router, run_registered,
  run_tool,
}
use pipa_personal_assistant.Core.State.Handle.{run_intent, route, route_transcript, call_tool}
use pipa_personal_assistant.Core.State.Shown.{screen_allowance, Shown, Others, respond-Shown}

-- the confirmations that a result accounts for
abbrev pub asked_count : Result Exn Invocation → ℕ
asked_count r = if is_asked r then 1 else 0

module _ {W : Type 0} (id : String) where
  called-Others :
      (name : String) (arguments : Value) (info : CallInfo) (c : Core W)
      → info.owner_id ≡ some id
      → Others id 0 c
      → let (r, router) = invoke name arguments none info c.router in
        Others id (asked_count r) (record c { router = router })
  called-Others name arguments info c f v = elim (invoke-IsAsking name arguments info c.router) [
    | inl (e, a) ↦ record {
      ownerless = rw e v.ownerless;
      others = λ o b. rw e (v.others o b);
      own = rw e (omega (arith, v.own));
      stored = v.stored;
      there = v.there;
    }
    | inr (q, g, e, a) ↦
        let m = c.router.confirmations in
        let h : q.owner_id ≡ some id = g ∙ f in
        record {
          ownerless =
              rw e (ground (arith, h, create-owned none info.now info.fresh q m, v.ownerless));
          others = λ o b.
              rw e (ground (arith, h, create-owned (some o) info.now info.fresh q m, v.others o b));
          own =
              rw (e, a)
                (ground
                  (arith, h, create-owned (some id) info.now info.fresh q m, v.own, eq_refl id));
          stored = v.stored;
          there = v.there;
        }
  ]

  invoked-Shown :
      (name : String) (call_id : Option String) (r : Result Exn Invocation) (s : DeviceSession)
      (c : Core W)
      → Others id (asked_count r) c
      → s.session_id ≡ id
      → Shown (invoked name call_id r s c).1
  unfolding invoked is_asked screen_allowance is_waiting
  invoked-Shown name call_id (ok (needs_confirmation x)) s c v f =
      respond-Shown id 1 _ _ _ s c v f (omega arith)
  invoked-Shown name call_id (ok (completed x)) s c v f =
      respond-Shown id 0 _ _ _ s c v f (omega arith)
  invoked-Shown name call_id (err e) s c v f = respond-Shown id 0 _ _ _ s c v f (omega arith)

  remembered-Shown :
      (r : Result MemoryError Remembered) (s : DeviceSession) (c : Core W)
      → Others id 0 c
      → s.session_id ≡ id
      → Shown (remembered r s c).1
  unfolding remembered
  remembered-Shown (ok r) s c v f = respond-Shown id 0 _ _ _ s c v f (omega arith)
  remembered-Shown (err r) s c v f = respond-Shown id 0 _ _ _ s c v f (omega arith)

  module _ (cfg : Config W) (t : Tick) where
    run_router-Shown :
        (name : String) (arguments : Fields) (call_id digest : Option String) (s : DeviceSession)
        (c : Core W)
        → Others id 0 c
        → s.session_id ≡ id
        → Shown (run_router t name arguments call_id digest s c).1
    unfolding run_router
    run_router-Shown name arguments call_id digest s c v f =
        invoked-Shown name call_id _ s _ (called-Others name (dict arguments) _ c (ap some f) v) f

    run_registered-Shown :
        (name : String) (arguments : Fields) (call_id digest : Option String) (s : DeviceSession)
        (c : Core W)
        → Others id 0 c
        → s.session_id ≡ id
        → Shown (run_registered t name arguments call_id digest s c).1
    unfolding run_registered
    run_registered-Shown name arguments call_id digest s c v f =
        elim (Bool-cases (lacks_display (get_tool name c.router.catalog) s)) [
          | inl e ↦ rw (run_registered, e) (respond-Shown id 0 _ _ _ s c v f (omega arith))
          | inr e ↦ rw (run_registered, e) (run_router-Shown name arguments call_id digest s c v f)
        ]

    run_remember-Shown :
        (fact : String) (s : DeviceSession) (c : Core W)
        → Others id 0 c
        → s.session_id ≡ id
        → Shown (run_remember fact s c).1
    unfolding run_remember
    run_remember-Shown fact s c v f =
        remembered-Shown _ s _
          (record {
            ownerless = v.ownerless;
            others = v.others;
            own = v.own;
            stored = v.stored;
            there = v.there;
          })
          f

    run_recall-Shown :
        (s : DeviceSession) (c : Core W)
        → Others id 0 c
        → s.session_id ≡ id
        → Shown (run_recall s c).1
    unfolding run_recall
    run_recall-Shown s c v f = respond-Shown id 0 _ _ _ s c v f (omega arith)

    run_tool-Shown :
        (name : String) (arguments : Fields) (call_id digest : Option String) (s : DeviceSession)
        (c : Core W)
        → Others id 0 c
        → s.session_id ≡ id
        → Shown (run_tool cfg t name arguments call_id digest s c).1
    unfolding run_tool set_state
    run_tool-Shown name arguments call_id digest s c v f =
        let s' = set_state thinking none s in
        elim (Bool-cases (name == "remember_fact")) [
          | inl e ↦
              rw (run_tool, e)
                (run_remember-Shown (fact_text cfg.show (get_field "fact" arguments)) s' c v f)
          | inr e ↦ elim (Bool-cases (name == "recall_memory")) [
            | inl e' ↦ rw (run_tool, e, e') (run_recall-Shown s' c v f)
            | inr e' ↦
                rw (run_tool, e, e') (run_registered-Shown name arguments call_id digest s' c v f)
          ]
        ]

    run_intent-Shown :
        (i : Option Intent) (s : DeviceSession) (c : Core W)
        → Others id 0 c
        → s.session_id ≡ id
        → Shown (run_intent cfg t i s c).1
    unfolding run_intent
    run_intent-Shown none s c v f = respond-Shown id 0 _ _ _ s c v f (omega arith)
    run_intent-Shown (some i) s c v f = run_tool-Shown i.tool_name i.arguments none none s c v f

    pub route_transcript-Shown :
        (transcript : String) (s : DeviceSession) (c : Core W)
        → Others id 0 c
        → s.session_id ≡ id
        → Shown (route_transcript cfg t transcript s c).1
    unfolding route_transcript route
    route_transcript-Shown transcript s c v f =
        elim (Result-cases (validate_bounded_text 4000 false (str transcript))) [
          | inl (bounded, e) ↦
              rw (route_transcript, e, route)
                (run_intent-Shown (find_intent cfg bounded c.router.world) s c v f)
          | inr (x, e) ↦
              rw (route_transcript, e, route) (respond-Shown id 0 _ _ _ s c v f (omega arith))
        ]

    pub call_tool-Shown :
        (name : String) (arguments : Fields) (call_id digest : Option String) (s : DeviceSession)
        (c : Core W)
        → Others id 0 c
        → s.session_id ≡ id
        → Shown (call_tool cfg t name arguments call_id digest s c).1
    unfolding call_tool
    call_tool-Shown name arguments call_id digest s c v f =
        elim (Bool-cases (is_bound cfg name arguments digest)) [
          | inl e ↦ rw (call_tool, e) (run_tool-Shown name arguments call_id digest s c v f)
          | inr e ↦ rw (call_tool, e) (respond-Shown id 0 _ _ _ s c v f (omega arith))
        ]
