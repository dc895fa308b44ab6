-- ===== src/Tools/Asking.antt =====
-- What a call of the router does to the pending confirmations.
use pipa_personal_assistant.Prelude.{
  ℕ, ◌≡◌, refl, ◌⊎◌, inl, inr, String, Bool, true, false, Option, none, some, Result, ok, err,
  arith, Result-cases, Option-cases, Bool-cases,
}
use pipa_personal_assistant.Json.{Value, dict, Fields}
use pipa_personal_assistant.Confirmations.{
  PendingConfirmation, ConfirmationManager, Request, create, consume,
}
use pipa_personal_assistant.Confirmations.Counts.{is_ok}
use pipa_personal_assistant.Tools.{
  Exn, Safety, safe, unsafe, ToolDefinition, validate_arguments, get_tool,
}
use pipa_personal_assistant.Tools.Router.{
  ToolRouter, CallInfo, Invocation, needs_confirmation, completed, invoke, dispatch, run_tool,
  execute, ask, ask_with, pure, ◌>>=◌, prepare, create_pending, as_dict, request_of,
  resolve_confirmation, resolve_accepted, consume_pending,
}

-- the result asks for a confirmation
unfoldable pub is_asked : Result Exn Invocation → Bool
is_asked (ok (needs_confirmation v)) = true
is_asked (ok (completed r)) = false
is_asked (err e) = false

-- Nothing was created and the result asks for nothing, or `create` was called for the owner of the
-- call, and the result asks exactly if it returned.
abbrev pub IsAsking :
    CallInfo → ConfirmationManager → Result Exn Invocation → ConfirmationManager → Type 0
IsAsking info m r m' =
    ((m' ≡ m) × (is_asked r ≡ false))
    ⊎ ((q : Request) × (q.owner_id ≡ info.owner_id)
        × (m' ≡ (create info.now info.fresh q m).1)
        × (is_asked r ≡ is_ok (create info.now info.fresh q m).0))

module _ {W : Type 0} where
  prepare_keeps :
      (p : Option (Fields → W → Result Exn Value)) (values : Fields) (s : ToolRouter W)
      → (prepare p values s).1 ≡ s
  unfolding prepare
  prepare_keeps none values s = refl
  prepare_keeps (some p) values s = ground arith

  created-IsAsking :
      (name text : String) (info : CallInfo) (values : Fields) (prepared : Option Fields)
      (s : ToolRouter W)
      → let q : Request = request_of name info values text prepared in
        let m : Result Exn Invocation × ToolRouter W =
          (do
            pending ← create_pending info.now info.fresh q
            pure (needs_confirmation (as_dict pending)))
            s in
        IsAsking info s.confirmations m.0 m.1.confirmations
  unfolding create_pending is_asked
  created-IsAsking name text info values prepared s =
      let q : Request = request_of name info values text prepared in
      elim (Result-cases (create info.now info.fresh q s.confirmations).0) [
        | inl (r, e) ↦ inr (q, refl, rw (create_pending, e) refl, rw (create_pending, e) refl)
        | inr (x, e) ↦ inr (q, refl, rw (create_pending, e) refl, rw (create_pending, e) refl)
      ]

  ask_with-IsAsking :
      (name : String) (info : CallInfo) (f : Fields → W → Result Exn String) (d : ToolDefinition W)
      (values : Fields) (s : ToolRouter W)
      → let (r, s') = ask_with name info f d values s in
        IsAsking info s.confirmations r s'.confirmations
  unfolding ask_with is_asked
  ask_with-IsAsking name info f d values s =
      elim (Result-cases (prepare d.confirmation_preparer values s).0) [
        | inr (x, e) ↦ inl (
          rw (ask_with, e, prepare_keeps d.confirmation_preparer values s) refl,
          rw (ask_with, e) refl,
        )
        | inl (prepared, e) ↦ elim (Result-cases (f values s.world)) [
          | inr (x, g) ↦ inl (
            rw (ask_with, e, prepare_keeps d.confirmation_preparer values s, g) refl,
            rw (ask_with, e, prepare_keeps d.confirmation_preparer values s, g) refl,
          )
          | inl (text, g) ↦
              rw (ask_with, e, prepare_keeps d.confirmation_preparer values s, g)
                (created-IsAsking name text info values prepared s)
        ]
      ]

  ask-IsAsking :
      (name : String) (info : CallInfo) (d : ToolDefinition W) (values : Fields) (s : ToolRouter W)
      → let (r, s') = ask name info d values s in IsAsking info s.confirmations r s'.confirmations
  unfolding ask is_asked
  ask-IsAsking name info d values s = elim (Option-cases d.confirm_summary) [
    | inl e ↦ rw (ask, e) (inl (refl, refl))
    | inr (f, e) ↦ rw (ask, e) (ask_with-IsAsking name info f d values s)
  ]

  run_tool-IsAsking :
      (info : CallInfo) (d : ToolDefinition W) (values : Fields) (s : ToolRouter W)
      → let (r, s') = run_tool d values s in IsAsking info s.confirmations r s'.confirmations
  unfolding run_tool execute is_asked
  run_tool-IsAsking info d values s = elim (Result-cases (d.handler values s.world).0) [
    | inl (x, e) ↦ rw (run_tool, execute, e) (inl (refl, refl))
    | inr (x, e) ↦ rw (run_tool, execute, e) (inl (refl, refl))
  ]

  dispatch-IsAsking :
      (y : Safety) (name : String) (info : CallInfo) (d : ToolDefinition W) (values : Fields)
      (s : ToolRouter W)
      → let (r, s') = dispatch y none name info d values s in
        IsAsking info s.confirmations r s'.confirmations
  unfolding dispatch
  dispatch-IsAsking safe name info d values s = run_tool-IsAsking info d values s
  dispatch-IsAsking unsafe name info d values s = ask-IsAsking name info d values s

  pub invoke-IsAsking :
      (name : String) (arguments : Value) (info : CallInfo) (s : ToolRouter W)
      → let (r, s') = invoke name arguments none info s in
        IsAsking info s.confirmations r s'.confirmations
  unfolding invoke is_asked
  invoke-IsAsking name arguments info s = elim (Result-cases (get_tool name s.catalog)) [
    | inr (x, g) ↦ rw (invoke, g) (inl (refl, refl))
    | inl (d, g) ↦ elim (Result-cases (validate_arguments d arguments s.world)) [
      | inr (x, v) ↦ rw (invoke, g, v) (inl (refl, refl))
      | inl (values, v) ↦ rw (invoke, g, v) (dispatch-IsAsking d.safety name info d values s)
    ]
  ]

  resolve_accepted_keeps :
      (r : PendingConfirmation) (s : ToolRouter W)
      → (resolve_accepted r s).1.confirmations ≡ s.confirmations
  unfolding resolve_accepted execute
  resolve_accepted_keeps r s = elim (Result-cases (get_tool r.tool_name s.catalog)) [
    | inr (x, g) ↦ rw (resolve_accepted, g) refl
    | inl (d, g) ↦ elim (Option-cases r.execution_arguments) [
      | inr (values, e) ↦ elim (Result-cases (d.handler values s.world).0) [
        | inl (out, h) ↦ rw (resolve_accepted, g, e, execute, h) refl
        | inr (x, h) ↦ rw (resolve_accepted, g, e, execute, h) refl
      ]
      | inl e ↦ elim (Result-cases (validate_arguments d (dict r.arguments) s.world)) [
        | inr (x, v) ↦ rw (resolve_accepted, g, e, v) refl
        | inl (values, v) ↦ elim (Result-cases (d.handler values s.world).0) [
          | inl (out, h) ↦ rw (resolve_accepted, g, e, v, execute, h) refl
          | inr (x, h) ↦ rw (resolve_accepted, g, e, v, execute, h) refl
        ]
      ]
    ]
  ]

  -- An answer leaves what `consume` leaves, and returns only if `consume` did.
  pub resolve-consumes :
      (now : ℕ) (id : String) (accepted : Bool) (owner : Option String) (s : ToolRouter W)
      → let (r, s') = resolve_confirmation now id accepted owner s in
        (s'.confirmations ≡ (consume now id owner s.confirmations).1)
        × ((is_ok (consume now id owner s.confirmations).0 ≡ true) ⊎ (is_ok r ≡ false))
  unfolding resolve_confirmation consume_pending
  resolve-consumes now id accepted owner s =
      elim (Result-cases (consume now id owner s.confirmations).0) [
        | inr (x, e) ↦ rw (resolve_confirmation, consume_pending, e) (refl, inr refl)
        | inl (r, e) ↦ elim (Bool-cases accepted) [
          | inl b ↦
              rw (resolve_confirmation, consume_pending, e, b)
                (
                  resolve_accepted_keeps r
                      (record s { confirmations = (consume now id owner s.confirmations).1 }),
                  inl refl,
                )
          | inr b ↦ rw (resolve_confirmation, consume_pending, e, b) (refl, inl refl)
        ]
      ]
