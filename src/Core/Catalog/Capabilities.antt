-- ===== src/Core/Catalog/Capabilities.antt =====
-- The validation of the capability matrix: `_validate_capability_catalog` of
-- backend/pipa_core/core.py, with the tables of backend/pipa_core/capability_contract.py.
use pipa_personal_assistant.Prelude.{
  ℕ, ltb, nat_eq, String, Bool, ◌&&◌, ◌||◌, not, List, [], ◌∷◌, if◌then◌else◌, contains, Result, ok,
  err, ◌>>=◌, ◌>>◌, require,
}
use pipa_personal_assistant.Prelude.Text.{len, is_empty, every, strip}
use pipa_personal_assistant.Prelude.Dict.{Dict, insert}
use pipa_personal_assistant.Json.{
  Value, bool, str, list, dict, Items, nil, cons, Fields, end, field, field_count, item_count,
}
use pipa_personal_assistant.Core.Catalog.Parameters.{
  CatalogError, invalid_groups, invalid_group, invalid_field, invalid_capability_text,
  invalid_capability_list, invalid_capability_value,
}

abbrev pub max_groups : ℕ
max_groups = 16

abbrev pub max_fields : ℕ
max_fields = 16

abbrev pub max_key_length : ℕ
max_key_length = 64

abbrev pub max_text_length : ℕ
max_text_length = 128

unfoldable pub capability_groups : List String
capability_groups = "web_search" ∷ "apple_music" ∷ "whatsapp" ∷ "discord" ∷ "league" ∷ "codex" ∷ []

unfoldable pub boolean_fields : List String
boolean_fields =
    "available" ∷ "app_configured" ∷ "launcher_resolved" ∷ "search" ∷ "playback" ∷ "media_control"
    ∷ "requires_manual_selection" ∷ "open_web" ∷ "open_contact" ∷ "contact_aliases_configured"
    ∷ "prepare_message" ∷ "send_message" ∷ "requires_manual_send" ∷ "open_app" ∷ "open_channel"
    ∷ "start_call" ∷ "requires_manual_call" ∷ "client_ready" ∷ "open_client" ∷ "matchmaking"
    ∷ "cancel_matchmaking" ∷ "accept_match" ∷ "requires_manual_accept" ∷ "writes_to_chat"
    ∷ "requires_confirmation" ∷ []

unfoldable pub string_fields : List String
string_fields = "execution" ∷ []

unfoldable pub list_fields : List String
list_fields = "queues" ∷ []

-- A value of the matrix that the validation returns.
pub data Capability : Type 0 where
  flag : Bool → Capability
  text : String → Capability
  texts : List String → Capability

-- not blank and not long: a key of either level
abbrev pub is_key : String → Bool
is_key k = not (is_empty (strip k)) && not (ltb max_key_length (len k))

abbrev is_visible : ℕ → Bool
is_visible c = not (ltb c 0x20 || nat_eq c 0x7F)

unfoldable pub is_capability_text : String → Bool
is_capability_text s =
    not (is_empty (strip s)) && not (ltb max_text_length (len s)) && every is_visible s

unfoldable pub check_texts : Items → Result CatalogError (List String)
check_texts nil = ok []
check_texts (cons (str s) vs) = do
  require (is_capability_text s) invalid_capability_list
  rest ← check_texts vs
  ok (strip s ∷ rest)
check_texts (cons _ vs) = err invalid_capability_list

-- the ladder of tests on the stripped name of a field and the type of its value
unfoldable pub check_capability : String → Value → Result CatalogError Capability
check_capability name (bool b) =
    if contains name boolean_fields then ok (flag b) else err invalid_capability_value
check_capability name (str s) = do
  require (contains name string_fields) invalid_capability_value
  require (is_capability_text s) invalid_capability_text
  ok (text (strip s))
check_capability name (list vs) = do
  require (contains name list_fields) invalid_capability_value
  require (not (ltb max_fields (item_count vs))) invalid_capability_list
  ts ← check_texts vs
  ok (texts ts)
check_capability name _ = err invalid_capability_value

abbrev is_field_name : String → Bool
is_field_name name =
    contains name boolean_fields || contains name string_fields || contains name list_fields

-- the loop over the fields of a group, which fills `safe_fields`
unfoldable pub check_group : Fields → Dict Capability → Result CatalogError (Dict Capability)
check_group end safe_fields = ok safe_fields
check_group (field name v fs) safe_fields = do
  require (is_key name && is_field_name (strip name)) invalid_field
  c ← check_capability (strip name) v
  check_group fs (insert (strip name) c safe_fields)

-- the fields of a group, by the type of its value
unfoldable pub group_fields : Value → Result CatalogError Fields
group_fields (dict fs) = if ltb max_fields (field_count fs) then err invalid_group else ok fs
group_fields _ = err invalid_group

unfoldable pub check_groups :
    Fields → Dict (Dict Capability) → Result CatalogError (Dict (Dict Capability))
check_groups end validated = ok validated
check_groups (field name v gs) validated = do
  require (is_key name && contains (strip name) capability_groups) invalid_group
  fs ← group_fields v
  safe_fields ← check_group fs []
  check_groups gs (insert (strip name) safe_fields validated)

-- `_validate_capability_catalog`
unfoldable pub validate_capability_catalog : Value → Result CatalogError (Dict (Dict Capability))
validate_capability_catalog (dict gs) = do
  require (not (ltb max_groups (field_count gs))) invalid_groups
  check_groups gs []
validate_capability_catalog _ = err invalid_groups
