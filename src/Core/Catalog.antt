-- ===== src/Core/Catalog.antt =====
-- The validation of the command catalog in backend/pipa_core/core.py:
-- the entries of `_catalog_response`.
pub mod Parameters
pub mod Capabilities
pub mod Response
pub mod Sound
use pipa_personal_assistant.Prelude.{
  ℕ, ltb, leb, between, nat_eq, String, Bool, true, false, ◌&&◌, ◌||◌, not, Option, none, some,
  List, [], ◌∷◌, ◌==◌, if◌then◌else◌, length, map, all, contains, distinct, Result, ok, err, ◌>>=◌,
  ◌>>◌, require,
}
use pipa_personal_assistant.Prelude.Int.{ℤ, pos, negsuc}
use pipa_personal_assistant.Prelude.Text.{len, is_empty, every, strip}
use Prim.Native.Char.{code}
use pipa_personal_assistant.Prelude.Dict.{Dict}
use pipa_personal_assistant.Json.{
  Value, null, bool, int, float, str, list, dict, Items, nil, cons, Fields, end, field, get_field,
  get_or, field_names, field_count, item_count, of_texts,
}
use pipa_personal_assistant.Protocol.Parse.{keys_outside}
use pipa_personal_assistant.Tools.{Safety, safe, unsafe, is_unsafe, ToolDefinition, get_tool}
use pipa_personal_assistant.Core.Captions.{get}
use pipa_personal_assistant.Core.Catalog.Parameters.{
  CatalogError, max_commands, max_field_length, max_parameters, max_options, max_parameter_text,
  is_safe_character, is_catalog_text, is_parameter_name, parameter_fields, parameter_kinds,
  Parameter, as_text, as_max_length, check_options, as_options, no_unknown_keys, validate_parameter,
  validate_each, validate_parameters, validate_arguments_from, validate_default_arguments,
  invalid_parameters, invalid_parameter_fields, invalid_parameter, invalid_options,
  invalid_default_arguments, invalid_default_argument, too_many_commands, invalid_entry_fields,
  fixed_and_editable, invalid_text, invalid_safety, unknown_tool, mismatched_tool, duplicate_id,
  invalid_groups, invalid_group, invalid_field, invalid_capability_text, invalid_capability_list,
  invalid_capability_value,
}

pub record Command : Type 0 where
  pub id : String
  pub tool_name : String
  pub phrase : String
  pub description : String
  pub safety : Safety
  pub requires_confirmation : Bool
  pub parameters : Option (List Parameter)
  pub default_arguments : Option Fields

abbrev pub command_fields : List String
command_fields =
    "id" ∷ "tool_name" ∷ "phrase" ∷ "description" ∷ "safety" ∷ "requires_confirmation"
    ∷ "parameters" ∷ "default_arguments" ∷ []

-- a validator that runs where the key is there
unfoldable pub if_present {ℓ} :
    {A : Type ℓ} → (Value → Result CatalogError A) → Option Value → Result CatalogError (Option A)
if_present f none = ok none
if_present f (some v) = do a ← f v; ok (some a)

-- one of the four texts of an entry
unfoldable pub command_text : Value → Result CatalogError String
command_text (str s) =
    if not (is_empty (strip s)) && not (ltb max_field_length (len s))
    then ok s
    else err invalid_text
command_text _ = err invalid_text

unfoldable pub as_safety : Value → Result CatalogError Safety
as_safety (str s) =
    if s == "safe" then ok safe else if s == "unsafe" then ok unsafe else err invalid_safety
as_safety _ = err invalid_safety

unfoldable pub as_flag : Value → Result CatalogError Bool
as_flag (bool b) = ok b
as_flag _ = err invalid_safety

-- `default_arguments is not None and parameters`
abbrev pub is_fixed_and_editable : Option Fields → Option (List Parameter) → Bool
is_fixed_and_editable (some _) (some (_ ∷ _)) = true
is_fixed_and_editable _ _ = false

abbrev pub same_flag : Bool → Bool → Bool
same_flag true b = b
same_flag false b = not b

module _ {W : Type 0} where
  -- `self.router.catalog.get(name)`
  unfoldable pub registered :
      String → Dict (ToolDefinition W) → Result CatalogError (ToolDefinition W)
  registered name catalog = elim (get_tool name catalog) [ ok d ↦ ok d | err _ ↦ err unknown_tool ]

  -- one turn of the loop in `_catalog_response`
  unfoldable pub validate_command :
      Dict (ToolDefinition W) → List String → Value → Result CatalogError Command
  validate_command catalog seen (dict c) = do
    no_unknown_keys invalid_entry_fields command_fields c
    parameters ← if_present validate_parameters (get_field "parameters" c)
    default_arguments ← if_present validate_default_arguments (get_field "default_arguments" c)
    require (not (is_fixed_and_editable default_arguments parameters)) fixed_and_editable
    id ← command_text (get "id" c)
    tool_name ← command_text (get "tool_name" c)
    phrase ← command_text (get "phrase" c)
    description ← command_text (get "description" c)
    safety ← as_safety (get "safety" c)
    requires_confirmation ← as_flag (get "requires_confirmation" c)
    d ← registered (strip tool_name) catalog
    require
        (same_flag (is_unsafe safety) (is_unsafe d.safety)
          && same_flag requires_confirmation (is_unsafe d.safety))
        mismatched_tool
    require (not (contains (strip id) seen)) duplicate_id
    ok (record {
      id = strip id;
      tool_name = strip tool_name;
      phrase = strip phrase;
      description = strip description;
      safety = safety;
      requires_confirmation = requires_confirmation;
      parameters = parameters;
      default_arguments = default_arguments;
    })
  validate_command catalog seen _ = err invalid_entry_fields

  unfoldable pub validate_commands_from :
      Dict (ToolDefinition W) → List String → List Value → Result CatalogError (List Command)
  validate_commands_from catalog seen [] = ok []
  validate_commands_from catalog seen (v ∷ vs) = do
    c ← validate_command catalog seen v
    rest ← validate_commands_from catalog (c.id ∷ seen) vs
    ok (c ∷ rest)

  -- the `try` block of `_catalog_response`
  unfoldable pub validate_commands :
      Dict (ToolDefinition W) → List Value → Result CatalogError (List Command)
  validate_commands catalog values = do
    require (not (ltb max_commands (length values))) too_many_commands
    validate_commands_from catalog [] values
