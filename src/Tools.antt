-- ===== src/Tools.antt =====
-- backend/pipa_core/tools.py: tool definitions, the catalog and the router with its confirmation
-- gate. `W` is the world that handlers act on; a definition's callbacks are arguments of the model,
-- and a callback that only computes a summary, checks arguments or prepares them reads the world and
-- leaves it alone.
pub mod Router
pub mod Gate
pub mod Keeps
pub mod Effects
pub mod Asking
use pipa_personal_assistant.Prelude.{
  ℕ, String, Bool, true, false, ◌&&◌, not, Option, none, some, List, [], ◌∷◌, ◌++◌, if◌then◌else◌,
  is_none, Result, ok, err, ◌>>=◌, ◌>>◌, require,
}
use pipa_personal_assistant.Prelude.Dict.{Dict, lookup, has_key, insert}
use pipa_personal_assistant.Json.{Value, null, dict, Fields, end}
use pipa_personal_assistant.Confirmations.{ConfirmationError}

-- What a call into the router may raise: `KeyError`, `ValueError`, a `ConfirmationError` of the
-- manager or of the router itself, or any other exception of a handler.
pub data Exn : Type 0 where
  key_error value_error : Exn
  confirmation_error : ConfirmationError → Exn
  summary_missing execution_arguments_invalid tool_mismatch : Exn
  other_exception : Exn

pub data Safety : Type 0 where
  safe unsafe : Safety

abbrev pub is_unsafe : Safety → Bool
is_unsafe safe = false
is_unsafe unsafe = true

pub record ToolDefinition (W : Type 0) : Type 0 where
  pub name : String
  pub handler : Fields → W → Result Exn Fields × W
  pub safety : Safety
  pub confirm_summary : Option (Fields → W → Result Exn String)
  pub argument_validator : Option (Fields → W → Result Exn (Unit {0}))
  pub confirmation_preparer : Option (Fields → W → Result Exn Value)

module _ {W : Type 0} where
  -- `__post_init__`, whose test of the safety is the type's
  unfoldable pub post_init : ToolDefinition W → Result Exn (ToolDefinition W)
  post_init d = if is_unsafe d.safety && is_none d.confirm_summary then err value_error else ok d

  unfoldable pub run_validator :
      Option (Fields → W → Result Exn (Unit {0})) → Fields → W → Result Exn Fields
  run_validator none values w = ok values
  run_validator (some validate) values w = do validate values w; ok values

  -- `validate_arguments`; `null` is an argument left out
  unfoldable pub validate_arguments : ToolDefinition W → Value → W → Result Exn Fields
  unfolding run_validator
  validate_arguments d null w = run_validator d.argument_validator end w
  validate_arguments d (dict values) w = run_validator d.argument_validator values w
  validate_arguments d _ w = err value_error

  -- `ToolCatalog.register`
  unfoldable pub register :
      ToolDefinition W → Dict (ToolDefinition W) → Result Exn (Dict (ToolDefinition W))
  register d catalog =
      if has_key d.name catalog then err value_error else ok (insert d.name d catalog)

  -- `ToolCatalog(definitions)`: each definition passes `__post_init__` where it is built
  unfoldable pub register_all :
      List (ToolDefinition W) → Dict (ToolDefinition W) → Result Exn (Dict (ToolDefinition W))
  register_all [] catalog = ok catalog
  register_all (d ∷ ds) catalog = do
    d' ← post_init d
    catalog' ← register d' catalog
    register_all ds catalog'

  -- `ToolCatalog.get`
  unfoldable pub get_tool : String → Dict (ToolDefinition W) → Result Exn (ToolDefinition W)
  get_tool name catalog = elim (lookup name catalog) [ none ↦ err key_error | some d ↦ ok d ]
