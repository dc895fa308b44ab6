-- ===== src/Tools/Keeps.antt =====
-- What router actions keep, and that every call of the router keeps the confirmations valid.
use pipa_personal_assistant.Prelude.{
  ℕ, String, Bool, true, false, Option, none, some, if◌then◌else◌, Result, ok, err, Option-cases,
  inl, inr, arith, ◌==◌,
}
use pipa_personal_assistant.Json.{Value, dict, Fields}
use pipa_personal_assistant.Confirmations.{
  PendingConfirmation, ConfirmationManager, Request, create, consume,
}
use pipa_personal_assistant.Tools.{Exn, Safety, ToolDefinition, get_tool, validate_arguments}
use pipa_personal_assistant.Tools.Router.{
  ToolRouter, Action, continue, ◌>>=◌, CallInfo, create_pending, consume_pending, execute, prepare,
  ask_with, ask, snapshot_or, run_tool, run_confirmed, dispatch, invoke, resolve_accepted,
  resolve_confirmation,
}

-- Whether the action returns or raises, `P` holds after it if it held before.
pub record Keeps {W A : Type 0} (P : ToolRouter W → Type 0) (m : Action W A) : Type 0 where
  pub at : (s : ToolRouter W) → P s → P (m s).1

module _ {W A : Type 0} {P : ToolRouter W → Type 0} where
  pub Keeps-lift : (r : Result Exn A) → Keeps P (λ s. (r, s))
  Keeps-lift r = record { at = λ s h. h }

  pub Keeps-reads : (f : W → Result Exn A) → Keeps P (λ s. (f s.world, s))
  Keeps-reads f = record { at = λ s h. h }

  pub Keeps-if :
      (b : Bool) (m n : Action W A) → Keeps P m → Keeps P n → Keeps P (if b then m else n)
  Keeps-if true m n km kn = km
  Keeps-if false m n km kn = kn

module _ {W A B : Type 0} {P : ToolRouter W → Type 0} where
  continue_at :
      (r : Result Exn A) (f : A → Action W B) (s : ToolRouter W)
      → ((a : A) → Keeps P (f a))
      → P s
      → P (continue r f s).1
  continue_at (ok a) f s k h = (k a).at s h
  continue_at (err e) f s k h = h

  pub Keeps-bind :
      (m : Action W A) (f : A → Action W B)
      → Keeps P m
      → ((a : A) → Keeps P (f a))
      → Keeps P (m >>= f)
  Keeps-bind m f km kf = record { at = λ s h. continue_at (m s).0 f (m s).1 kf (km.at s h) }

-- What the managers' calls keep, the router's actions keep.
module _ {W : Type 0} {P : ConfirmationManager → Type 0}
    (created : (now : ℕ) (id : String) (q : Request) (m : ConfirmationManager)
      → P m
      → P (create now id q m).1)
    (consumed : (now : ℕ) (id : String) (owner : Option String) (m : ConfirmationManager)
      → P m
      → P (consume now id owner m).1) where
  abbrev On : ToolRouter W → Type 0
  On s = P s.confirmations

  create_pending-Keeps : (now : ℕ) (id : String) (q : Request) → Keeps On (create_pending now id q)
  unfolding create_pending
  create_pending-Keeps now id q = record { at = λ s v. created now id q s.confirmations v }

  consume_pending-Keeps :
      (now : ℕ) (id : String) (owner : Option String) → Keeps On (consume_pending now id owner)
  unfolding consume_pending
  consume_pending-Keeps now id owner = record {
    at = λ s v. consumed now id owner s.confirmations v;
  }

  execute-Keeps : (d : ToolDefinition W) (values : Fields) → Keeps On (execute d values)
  unfolding execute
  execute-Keeps d values = record { at = λ s v. v }

  prepare-Keeps :
      (p : Option (Fields → W → Result Exn Value)) (values : Fields) → Keeps On (prepare p values)
  unfolding prepare
  prepare-Keeps none values = record { at = λ s v. v }
  prepare-Keeps (some p) values = record { at = λ s v. ground arith }

  snapshot_or-Keeps :
      (o : Option Fields) (m : Action W Fields) → Keeps On m → Keeps On (snapshot_or o m)
  snapshot_or-Keeps none m k = k
  snapshot_or-Keeps (some values) m k = record { at = λ s v. v }

  run_tool-Keeps : (d : ToolDefinition W) (values : Fields) → Keeps On (run_tool d values)
  unfolding run_tool
  run_tool-Keeps d values = Keeps-bind _ _ (execute-Keeps d values) λ r. Keeps-lift (ok _)

  ask_with-Keeps :
      (name : String) (info : CallInfo) (f : Fields → W → Result Exn String) (d : ToolDefinition W)
      (values : Fields)
      → Keeps On (ask_with name info f d values)
  unfolding ask_with
  ask_with-Keeps name info f d values =
      Keeps-bind _ _ (prepare-Keeps d.confirmation_preparer values) λ prepared.
        Keeps-bind _ _ (Keeps-reads (f values))
          λ text. Keeps-bind _ _ (create_pending-Keeps info.now info.fresh _) λ r. Keeps-lift (ok _)

  ask-Keeps :
      (name : String) (info : CallInfo) (d : ToolDefinition W) (values : Fields)
      → Keeps On (ask name info d values)
  unfolding ask
  ask-Keeps name info d values = record {
    at = λ s v. elim (Option-cases d.confirm_summary) [
      | inl e ↦ rw (ask, e) v
      | inr (f, e) ↦ rw (ask, e) ((ask_with-Keeps name info f d values).at s v)
    ];
  }

  run_confirmed-Keeps :
      (name id : String) (info : CallInfo) (d : ToolDefinition W)
      → Keeps On (run_confirmed name id info d)
  unfolding run_confirmed
  run_confirmed-Keeps name id info d =
      Keeps-bind _ _ (consume_pending-Keeps info.now id info.owner_id) λ r.
        Keeps-bind _ _ (Keeps-if (r.tool_name == name) _ _ (Keeps-lift (ok _)) (Keeps-lift (err _)))
          λ _.
            Keeps-bind _ _ (snapshot_or-Keeps r.execution_arguments _ (Keeps-lift (ok _)))
              λ values. run_tool-Keeps d values

  dispatch-Keeps :
      (y : Safety) (id : Option String) (name : String) (info : CallInfo) (d : ToolDefinition W)
      (values : Fields)
      → Keeps On (dispatch y id name info d values)
  unfolding dispatch
  dispatch-Keeps Safety.safe id name info d values = run_tool-Keeps d values
  dispatch-Keeps Safety.unsafe none name info d values = ask-Keeps name info d values
  dispatch-Keeps Safety.unsafe (some id) name info d values = run_confirmed-Keeps name id info d

  pub invoke-Keeps :
      (name : String) (arguments : Value) (id : Option String) (info : CallInfo)
      → Keeps On (invoke name arguments id info)
  unfolding invoke
  invoke-Keeps name arguments id info = record {
    at = λ s v.
        (Keeps-bind (λ s'. (get_tool name s.catalog, s')) _ (Keeps-lift (get_tool name s.catalog))
            λ d.
              Keeps-bind _ _ (Keeps-reads (validate_arguments d arguments))
                λ values. dispatch-Keeps d.safety id name info d values).at
          s v;
  }

  resolve_accepted-Keeps : (r : PendingConfirmation) → Keeps On (resolve_accepted r)
  unfolding resolve_accepted
  resolve_accepted-Keeps r = record {
    at = λ s v.
        (Keeps-bind (λ s'. (get_tool r.tool_name s.catalog, s')) _
            (Keeps-lift (get_tool r.tool_name s.catalog))
            λ d.
              Keeps-bind _ _
                (snapshot_or-Keeps r.execution_arguments _
                  (Keeps-reads (validate_arguments d (dict r.arguments))))
                λ values. Keeps-bind _ _ (execute-Keeps d values) λ result. Keeps-lift (ok _)).at
          s v;
  }

  pub resolve_confirmation-Keeps :
      (now : ℕ) (id : String) (accepted : Bool) (owner : Option String)
      → Keeps On (resolve_confirmation now id accepted owner)
  unfolding resolve_confirmation
  resolve_confirmation-Keeps now id accepted owner =
      Keeps-bind _ _ (consume_pending-Keeps now id owner)
        λ r. Keeps-if accepted _ _ (resolve_accepted-Keeps r) (Keeps-lift (ok _))
