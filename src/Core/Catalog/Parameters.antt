-- ===== src/Core/Catalog/Parameters.antt =====
-- `_validate_catalog_parameters` and `_validate_catalog_default_arguments` of
-- backend/pipa_core/core.py, with the errors of all catalog validators.
use pipa_personal_assistant.Prelude.{
  ℕ, ltb, leb, between, nat_eq, String, Bool, false, ◌&&◌, ◌||◌, not, List, [], ◌∷◌, if◌then◌else◌,
  map, contains, distinct, Result, ok, err, ◌>>=◌, ◌>>◌, require,
}
use pipa_personal_assistant.Prelude.Int.{pos}
use pipa_personal_assistant.Prelude.Text.{len, is_empty, every, strip}
use Prim.Native.Char.{code}
use pipa_personal_assistant.Json.{
  Value, int, str, list, dict, Items, nil, cons, Fields, end, field, get_field, get_or, field_names,
  field_count, item_count,
}
use pipa_personal_assistant.Protocol.Parse.{keys_outside}
use pipa_personal_assistant.Core.Captions.{get}

-- The `ValueError`s of the validators, and the `KeyError` of an unknown tool.
pub data CatalogError : Type 0 where
  invalid_parameters invalid_parameter_fields invalid_parameter invalid_options : CatalogError
  invalid_default_arguments invalid_default_argument : CatalogError
  too_many_commands invalid_entry_fields fixed_and_editable invalid_text : CatalogError
  invalid_safety unknown_tool mismatched_tool duplicate_id : CatalogError
  invalid_groups invalid_group invalid_field invalid_capability_text : CatalogError
  invalid_capability_list invalid_capability_value : CatalogError

abbrev pub max_commands : ℕ
max_commands = 64

abbrev pub max_field_length : ℕ
max_field_length = 256

abbrev pub max_parameters : ℕ
max_parameters = 8

abbrev pub max_options : ℕ
max_options = 16

abbrev pub max_parameter_text : ℕ
max_parameter_text = 128

-- `_is_safe_catalog_text`, on one character
abbrev pub is_safe_character : ℕ → Bool
is_safe_character c = not (
    ltb c 0x20
    || between 0x7F 0x9F c
    || between 0x200B 0x200F c
    || between 0x202A 0x202E c
    || between 0x2060 0x2069 c
    || nat_eq c 0xFEFF)

-- not blank, of at most `n` characters, and safe
unfoldable pub is_catalog_text : ℕ → String → Bool
is_catalog_text n s = not (is_empty (strip s)) && not (ltb n (len s)) && every is_safe_character s

abbrev is_letter : ℕ → Bool
is_letter c = between b'A' b'Z' c || between b'a' b'z' c

abbrev is_name_character : ℕ → Bool
is_name_character c = is_letter c || between b'0' b'9' c || nat_eq c b'_' || nat_eq c b'-'

-- `_CATALOG_PARAMETER_NAME.fullmatch(name)`
unfoldable pub is_parameter_name : String → Bool
is_parameter_name String.[] = false
is_parameter_name (String.◌∷◌ c s) =
    is_letter (code c) && every is_name_character s && leb (len s) 63

abbrev pub parameter_fields : List String
parameter_fields = "name" ∷ "label" ∷ "kind" ∷ "max_length" ∷ "options" ∷ []

unfoldable pub parameter_kinds : List String
parameter_kinds =
    "text" ∷ "message" ∷ "phone" ∷ "integer" ∷ "queue" ∷ "action" ∷ "app" ∷ "contact" ∷ "channel_id"
    ∷ "guild_id" ∷ "url" ∷ []

pub record Parameter : Type 0 where
  pub name : String
  pub label : String
  pub kind : String
  pub max_length : ℕ
  pub options : List String

-- `isinstance(value, str)`
unfoldable pub as_text : CatalogError → Value → Result CatalogError String
as_text e (str s) = ok s
as_text e _ = err e

-- an `int` that is no `bool`, with `1 <= value <= 4096`
unfoldable pub as_max_length : Value → Result CatalogError ℕ
as_max_length (int (pos n)) = if between 1 4096 n then ok n else err invalid_parameter
as_max_length _ = err invalid_parameter

unfoldable pub check_options : Items → Result CatalogError (List String)
check_options nil = ok []
check_options (cons (str s) vs) = do
  require (is_catalog_text max_parameter_text s) invalid_options
  rest ← check_options vs
  ok (s ∷ rest)
check_options (cons _ vs) = err invalid_options

unfoldable pub as_options : Value → Result CatalogError (List String)
as_options (list vs) = do
  require (not (ltb max_options (item_count vs))) invalid_options
  options ← check_options vs
  require (distinct options) invalid_options
  ok (map strip options)
as_options _ = err invalid_options

unfoldable pub no_unknown_keys :
    CatalogError → List String → Fields → Result CatalogError (Unit {0})
no_unknown_keys e allowed fs = elim (keys_outside allowed (field_names fs)) [
  | [] ↦ ok tt
  | k ∷ ks ↦ err e
]

unfoldable pub validate_parameter : List String → Value → Result CatalogError Parameter
validate_parameter seen (dict p) = do
  no_unknown_keys invalid_parameter_fields parameter_fields p
  name ← as_text invalid_parameter (get "name" p)
  require (is_parameter_name name && not (contains name seen)) invalid_parameter
  label ← as_text invalid_parameter (get "label" p)
  require (is_catalog_text max_parameter_text label) invalid_parameter
  kind ← as_text invalid_parameter (get "kind" p)
  require (contains kind parameter_kinds) invalid_parameter
  max_length ← as_max_length (get "max_length" p)
  options ← as_options (get_or (get_field "options" p) (list nil))
  ok (record {
    name = name;
    label = strip label;
    kind = kind;
    max_length = max_length;
    options = options;
  })
validate_parameter seen _ = err invalid_parameter_fields

unfoldable pub validate_each : List String → Items → Result CatalogError (List Parameter)
validate_each seen nil = ok []
validate_each seen (cons v vs) = do
  p ← validate_parameter seen v
  rest ← validate_each (p.name ∷ seen) vs
  ok (p ∷ rest)

-- `_validate_catalog_parameters`
unfoldable pub validate_parameters : Value → Result CatalogError (List Parameter)
validate_parameters (list vs) = do
  require (not (ltb max_parameters (item_count vs))) invalid_parameters
  validate_each [] vs
validate_parameters _ = err invalid_parameters

unfoldable pub validate_arguments_from : Fields → Result CatalogError Fields
validate_arguments_from end = ok end
validate_arguments_from (field name (str s) fs) = do
  require (is_parameter_name name && is_catalog_text max_parameter_text s) invalid_default_argument
  rest ← validate_arguments_from fs
  ok (field name (str (strip s)) rest)
validate_arguments_from (field name _ fs) = err invalid_default_argument

-- `_validate_catalog_default_arguments`
unfoldable pub validate_default_arguments : Value → Result CatalogError Fields
validate_default_arguments (dict fs) = do
  require (between 1 max_parameters (field_count fs)) invalid_default_arguments
  validate_arguments_from fs
validate_default_arguments _ = err invalid_default_arguments
