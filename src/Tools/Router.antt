-- ===== src/Tools/Router.antt =====
-- `ToolRouter` of backend/pipa_core/tools.py. A method is an action on the router and the world
-- that may raise; what was done before a raise stays done.
use pipa_personal_assistant.Prelude.{
  ℕ, String, Bool, Option, none, some, ◌==◌, if◌then◌else◌, Result, ok, err,
}
use pipa_personal_assistant.Prelude.Dict.{Dict}
use pipa_personal_assistant.Json.{Value, dict, Fields}
use pipa_personal_assistant.Confirmations.{
  PendingConfirmation, ConfirmationManager, ConfirmationError, Request, create, consume,
  cancel_for_owner,
}
use pipa_personal_assistant.Tools.{
  Exn, confirmation_error, summary_missing, execution_arguments_invalid, tool_mismatch, Safety,
  ToolDefinition, validate_arguments, get_tool,
}

pub record ToolRouter (W : Type 0) : Type 0 where
  pub catalog : Dict (ToolDefinition W)
  pub confirmations : ConfirmationManager
  pub world : W

abbrev pub Action : Type 0 → Type 0 → Type 0
Action W A = ToolRouter W → Result Exn A × ToolRouter W

-- `PendingConfirmation.as_dict`: neither the arguments nor the execution snapshot
pub record ConfirmationView : Type 0 where
  pub confirmation_id : String
  pub tool_name : String
  pub summary : String
  pub created_at : ℕ
  pub expires_at : ℕ
  pub call_id : Option String
  pub request_digest : Option String

unfoldable pub as_dict : PendingConfirmation → ConfirmationView
as_dict r = record {
  confirmation_id = r.confirmation_id;
  tool_name = r.tool_name;
  summary = r.summary;
  created_at = r.created_at;
  expires_at = r.expires_at;
  call_id = r.call_id;
  request_digest = r.request_digest;
}

-- the dict that `invoke` returns, by its `status`
pub data Invocation : Type 0 where
  needs_confirmation : ConfirmationView → Invocation
  completed : Fields → Invocation

-- the dict that `resolve_confirmation` returns, by its `status`: the tool, its `call_id`, the result
pub data Resolution : Type 0 where
  rejected : String → Option String → Resolution
  executed : String → Option String → Fields → Resolution

-- what a call gives besides the tool and its arguments, with the clock and the random source
pub record CallInfo : Type 0 where
  pub now : ℕ
  pub fresh : String
  pub owner_id : Option String
  pub call_id : Option String
  pub request_digest : Option String

abbrev pub lift_error : {A : Type 0} → Result ConfirmationError A → Result Exn A
lift_error (ok a) = ok a
lift_error (err e) = err (confirmation_error e)

-- `isinstance(prepared, Mapping)`
abbrev pub as_mapping : Value → Result Exn (Option Fields)
as_mapping (dict fs) = ok (some fs)
as_mapping _ = err execution_arguments_invalid

-- the arguments that `invoke` passes to `create`
abbrev pub request_of : String → CallInfo → Fields → String → Option Fields → Request
request_of name info values summary prepared = record {
  tool_name = name;
  arguments = values;
  summary = summary;
  owner_id = info.owner_id;
  call_id = info.call_id;
  request_digest = info.request_digest;
  execution_arguments = prepared;
}

module _ {W : Type 0} where
  abbrev pub pure : {A : Type 0} → A → Action W A
  pure a s = (ok a, s)

  abbrev pub raise : {A : Type 0} → Exn → Action W A
  raise e s = (err e, s)

  abbrev pub lift : {A : Type 0} → Result Exn A → Action W A
  lift r s = (r, s)

  -- a computation that reads the world
  abbrev pub reads : {A : Type 0} → (W → Result Exn A) → Action W A
  reads f s = (f s.world, s)

  abbrev pub continue : {A B : Type 0} → Result Exn A → (A → Action W B) → Action W B
  continue (ok a) f s = f a s
  continue (err e) f s = (err e, s)

  infixl 5 ◌>>=◌ ◌>>◌
  abbrev pub ◌>>=◌ : {A B : Type 0} → Action W A → (A → Action W B) → Action W B
  ◌>>=◌ m f s = let (r, s') = m s in continue r f s'

  abbrev pub ◌>>◌ : {A B : Type 0} → Action W A → Action W B → Action W B
  m >> k = m >>= λ _. k

  -- `self.confirmations.create(…)`
  unfoldable pub create_pending : ℕ → String → Request → Action W PendingConfirmation
  create_pending now fresh q s =
      let (r, m) = create now fresh q s.confirmations in
      (lift_error r, record s { confirmations = m })

  -- `self.confirmations.consume(…)`
  unfoldable pub consume_pending : ℕ → String → Option String → Action W PendingConfirmation
  consume_pending now id owner s =
      let (r, m) = consume now id owner s.confirmations in
      (lift_error r, record s { confirmations = m })

  -- `_execute`
  unfoldable pub execute : ToolDefinition W → Fields → Action W Fields
  execute d values s = let (r, w) = d.handler values s.world in (r, record s { world = w })

  unfoldable pub prepare :
      Option (Fields → W → Result Exn Value) → Fields → Action W (Option Fields)
  prepare none values = pure none
  prepare (some preparer) values = do v ← reads (preparer values); lift (as_mapping v)

  -- the rest of the branch, with the tool's summary function
  unfoldable pub ask_with :
      String
      → CallInfo
      → (Fields → W → Result Exn String)
      → ToolDefinition W
      → Fields
      → Action W Invocation
  unfolding prepare create_pending
  ask_with name info summarise d values = do
    prepared ← prepare d.confirmation_preparer values
    summary ← reads (summarise values)
    pending ← create_pending info.now info.fresh (request_of name info values summary prepared)
    pure (needs_confirmation (as_dict pending))

  -- the branch of `invoke` for an unsafe tool with no confirmation
  unfoldable pub ask : String → CallInfo → ToolDefinition W → Fields → Action W Invocation
  unfolding ask_with
  ask name info d values = elim d.confirm_summary [
    | none ↦ raise summary_missing
    | some summarise ↦ ask_with name info summarise d values
  ]

  -- the snapshot, or what stands for it where there is none
  abbrev pub snapshot_or : Option Fields → Action W Fields → Action W Fields
  snapshot_or (some values) other = pure values
  snapshot_or none other = other

  unfoldable pub run_tool : ToolDefinition W → Fields → Action W Invocation
  unfolding execute
  run_tool d values = do result ← execute d values; pure (completed result)

  -- the branch for an unsafe tool with a confirmation
  unfoldable pub run_confirmed : String → String → CallInfo → ToolDefinition W → Action W Invocation
  unfolding consume_pending
  run_confirmed name id info d = do
    pending ← consume_pending info.now id info.owner_id
    if pending.tool_name == name then pure (tt {0}) else raise tool_mismatch
    values ← snapshot_or pending.execution_arguments (pure pending.arguments)
    run_tool d values

  unfoldable pub dispatch :
      Safety → Option String → String → CallInfo → ToolDefinition W → Fields → Action W Invocation
  dispatch Safety.safe id name info d values = run_tool d values
  dispatch Safety.unsafe none name info d values = ask name info d values
  dispatch Safety.unsafe (some id) name info d values = run_confirmed name id info d

  -- `invoke(name, arguments, confirmation_id=…, …)`
  unfoldable pub invoke : String → Value → Option String → CallInfo → Action W Invocation
  unfolding dispatch
  invoke name arguments id info s =
      (do
        d ← lift (get_tool name s.catalog)
        values ← reads (validate_arguments d arguments)
        dispatch d.safety id name info d values)
        s

  unfoldable pub resolve_accepted : PendingConfirmation → Action W Resolution
  unfolding execute
  resolve_accepted pending s =
      (do
        d ← lift (get_tool pending.tool_name s.catalog)
        values ←
            snapshot_or pending.execution_arguments
              (reads (validate_arguments d (dict pending.arguments)))
        result ← execute d values
        pure (executed pending.tool_name pending.call_id result))
        s

  -- `resolve_confirmation(confirmation_id, accepted, owner_id=…)`
  unfoldable pub resolve_confirmation : ℕ → String → Bool → Option String → Action W Resolution
  resolve_confirmation now id accepted owner = do
    pending ← consume_pending now id owner
    if accepted then resolve_accepted pending else pure (rejected pending.tool_name pending.call_id)

  -- `cancel_pending`
  unfoldable pub cancel_pending : String → ToolRouter W → ℕ × ToolRouter W
  cancel_pending owner s =
      let (n, m) = cancel_for_owner owner s.confirmations in (n, record s { confirmations = m })
