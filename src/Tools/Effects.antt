-- ===== src/Tools/Effects.antt =====
-- What a call of the router may do to the world.
use pipa_personal_assistant.Prelude.{
  ℕ, ◌≡◌, refl, ◌⊎◌, inl, inr, String, Bool, true, false, Option, none, some, ok, err, Result-cases,
  Option-cases,
}
use pipa_personal_assistant.Prelude.Dict.{Dict, lookup}
use pipa_personal_assistant.Json.{Value, dict, Fields}
use pipa_personal_assistant.Confirmations.{PendingConfirmation, missing_or_expired, consume}
use pipa_personal_assistant.Confirmations.OneUse.{IsUsable, consume_iff}
use pipa_personal_assistant.Tools.{
  Exn, Safety, safe, unsafe, ToolDefinition, validate_arguments, get_tool,
}
use pipa_personal_assistant.Tools.Router.{
  ToolRouter, CallInfo, invoke, resolve_confirmation, resolve_accepted, consume_pending, execute,
  run_tool, dispatch,
}
use pipa_personal_assistant.Tools.Gate.{unsafe_waits, resolve_without_effect}

-- The world is what the handler of a safe tool leaves.
pub record IsSafeRun {W : Type 0} (catalog : Dict (ToolDefinition W)) (w w' : W) : Type 0 where
  pub name : String
  pub definition : ToolDefinition W
  pub values : Fields
  pub known : get_tool name catalog ≡ ok definition
  pub is_safe : definition.safety ≡ safe
  pub effect : w' ≡ (definition.handler values w).1

-- The arguments are the confirmation's snapshot, or where it has none the validated arguments.
abbrev pub IsPrepared : {W : Type 0} → PendingConfirmation → ToolDefinition W → W → Fields → Type 0
IsPrepared r d w values =
    (r.execution_arguments ≡ some values)
    ⊎ ((r.execution_arguments ≡ none) × (validate_arguments d (dict r.arguments) w ≡ ok values))

-- The world is what the handler of a confirmed tool leaves, on the arguments of the confirmation,
-- which was pending under the identifier, has not expired, and has this owner or none.
pub record IsConfirmedRun {W : Type 0} (now : ℕ) (id : String) (owner : Option String)
    (s : ToolRouter W) (w' : W) : Type 0 where
  pub pending : PendingConfirmation
  pub definition : ToolDefinition W
  pub values : Fields
  pub consumed : (consume now id owner s.confirmations).0 ≡ ok pending
  pub held : lookup id s.confirmations.pending ≡ some pending
  pub usable : IsUsable now owner pending
  pub known : get_tool pending.tool_name s.catalog ≡ ok definition
  pub prepared : IsPrepared pending definition s.world values
  pub effect : w' ≡ (definition.handler values s.world).1

safe_or_unsafe : (y : Safety) → (y ≡ safe) ⊎ (y ≡ unsafe)
safe_or_unsafe safe = inl refl
safe_or_unsafe unsafe = inr refl

module _ {W : Type 0} where
  safe_run :
      (name : String) (arguments : Value) (info : CallInfo) (s : ToolRouter W)
      {d : ToolDefinition W} {values : Fields}
      → get_tool name s.catalog ≡ ok d
      → d.safety ≡ safe
      → validate_arguments d arguments s.world ≡ ok values
      → (invoke name arguments none info s).1.world ≡ (d.handler values s.world).1
  unfolding invoke dispatch run_tool execute
  safe_run name arguments info s {d} {values} g y v =
      elim (Result-cases (d.handler values s.world).0) [
        | inl (x, e) ↦ rw (invoke, g, v, y, dispatch, run_tool, execute, e) refl
        | inr (x, e) ↦ rw (invoke, g, v, y, dispatch, run_tool, execute, e) refl
      ]

  refused_run :
      (name : String) (arguments : Value) (info : CallInfo) (s : ToolRouter W)
      {d : ToolDefinition W} {x : Exn}
      → get_tool name s.catalog ≡ ok d
      → validate_arguments d arguments s.world ≡ err x
      → (invoke name arguments none info s).1.world ≡ s.world
  unfolding invoke
  refused_run name arguments info s g v = rw (invoke, g, v) refl

  unknown_run :
      (name : String) (arguments : Value) (info : CallInfo) (s : ToolRouter W) {x : Exn}
      → get_tool name s.catalog ≡ err x
      → (invoke name arguments none info s).1.world ≡ s.world
  unfolding invoke
  unknown_run name arguments info s g = rw (invoke, g) refl

  -- A call without a confirmation leaves the world alone or is the run of a safe tool.
  pub invoke-IsSafeRun :
      (name : String) (arguments : Value) (info : CallInfo) (s : ToolRouter W)
      → ((invoke name arguments none info s).1.world ≡ s.world)
        ⊎ IsSafeRun s.catalog s.world (invoke name arguments none info s).1.world
  invoke-IsSafeRun name arguments info s = elim (Result-cases (get_tool name s.catalog)) [
    | inr (x, g) ↦ inl (unknown_run name arguments info s g)
    | inl (d, g) ↦ elim (safe_or_unsafe d.safety) [
      | inr y ↦ inl (unsafe_waits name arguments info s g y).0
      | inl y ↦ elim (Result-cases (validate_arguments d arguments s.world)) [
        | inr (x, v) ↦ inl (refused_run name arguments info s g v)
        | inl (values, v) ↦ inr (record {
          name = name;
          definition = d;
          values = values;
          known = g;
          is_safe = y;
          effect = safe_run name arguments info s g y v;
        })
      ]
    ]
  ]

  -- the outcome of a handler
  ran :
      (r : PendingConfirmation) (d : ToolDefinition W) (values : Fields) (s : ToolRouter W)
      → get_tool r.tool_name s.catalog ≡ ok d
      → IsPrepared r d s.world values
      → (resolve_accepted r s).1.world ≡ (d.handler values s.world).1
  unfolding resolve_accepted execute
  ran r d values s g (inl x) = elim (Result-cases (d.handler values s.world).0) [
    | inl (out, e) ↦ rw (resolve_accepted, g, x, execute, e) refl
    | inr (out, e) ↦ rw (resolve_accepted, g, x, execute, e) refl
  ]
  ran r d values s g (inr (x, v)) = elim (Result-cases (d.handler values s.world).0) [
    | inl (out, e) ↦ rw (resolve_accepted, g, x, v, execute, e) refl
    | inr (out, e) ↦ rw (resolve_accepted, g, x, v, execute, e) refl
  ]

  IsPrepared-or_refused :
      (r : PendingConfirmation) (d : ToolDefinition W) (w : W)
      → ((values : Fields) × IsPrepared r d w values)
        ⊎ ((r.execution_arguments ≡ none)
            × ((x : Exn) × (validate_arguments d (dict r.arguments) w ≡ err x)))
  IsPrepared-or_refused r d w = elim (Option-cases r.execution_arguments) [
    | inr (values, x) ↦ inl (values, inl x)
    | inl x ↦ elim (Result-cases (validate_arguments d (dict r.arguments) w)) [
      | inl (values, v) ↦ inl (values, inr (x, v))
      | inr (e, v) ↦ inr (x, (e, v))
    ]
  ]

  consumed_eq :
      (now : ℕ) (id : String) (owner : Option String) (s : ToolRouter W) {r : PendingConfirmation}
      → (consume now id owner s.confirmations).0 ≡ ok r
      → resolve_confirmation now id true owner s
        ≡ resolve_accepted r (record s { confirmations = (consume now id owner s.confirmations).1 })
  unfolding resolve_confirmation consume_pending
  consumed_eq now id owner s c = rw (resolve_confirmation, consume_pending, c) refl

  accepted_run :
      (now : ℕ) (id : String) (owner : Option String) (s : ToolRouter W) (r : PendingConfirmation)
      → (consume now id owner s.confirmations).0 ≡ ok r
      → let s' : ToolRouter W = record s {
        confirmations = (consume now id owner s.confirmations).1;
      } in
        ((resolve_accepted r s').1.world ≡ s.world)
        ⊎ ((true ≡ true) × IsConfirmedRun now id owner s (resolve_accepted r s').1.world)
  accepted_run now id owner s r c =
      let s' : ToolRouter W = record s {
        confirmations = (consume now id owner s.confirmations).1;
      } in
      elim (Result-cases (get_tool r.tool_name s.catalog)) [
        | inr (x, g) ↦ inl (unfold resolve_accepted in rw g refl)
        | inl (d, g) ↦ elim (IsPrepared-or_refused r d s.world) [
          | inr (x, (e, v)) ↦ inl (unfold resolve_accepted in rw (g, x, v) refl)
          | inl (values, p) ↦ inr (
            refl,
            record {
              pending = r;
              definition = d;
              values = values;
              consumed = c;
              held = ((consume_iff now id owner s.confirmations r).0 c).0;
              usable = ((consume_iff now id owner s.confirmations r).0 c).1;
              known = g;
              prepared = p;
              effect = ran r d values s' g p;
            },
          )
        ]
      ]

  -- An answer leaves the world alone, or it accepts a confirmation that the manager gives up to
  -- this owner and the world is what that confirmation's tool leaves.
  pub resolve-IsConfirmedRun :
      (now : ℕ) (id : String) (accepted : Bool) (owner : Option String) (s : ToolRouter W)
      → let w' = (resolve_confirmation now id accepted owner s).1.world in
        (w' ≡ s.world) ⊎ ((accepted ≡ true) × IsConfirmedRun now id owner s w')
  resolve-IsConfirmedRun now id false owner s =
      inl (resolve_without_effect now id false owner s {e = missing_or_expired} (inl refl))
  resolve-IsConfirmedRun now id true owner s =
      elim (Result-cases (consume now id owner s.confirmations).0) [
        | inr (e, c) ↦ inl (resolve_without_effect now id true owner s (inr c))
        | inl (r, c) ↦ rw (consumed_eq now id owner s c) (accepted_run now id owner s r c)
      ]
