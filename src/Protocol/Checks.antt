-- ===== src/Protocol/Checks.antt =====
-- The field validators of backend/pipa_core/protocol.py.
use pipa_personal_assistant.Prelude.{
  ℕ, ltb, nat_eq, between, String, Bool, false, ◌&&◌, ◌||◌, not, Option, none, some, List, [], ◌∷◌,
  if◌then◌else◌, contains, distinct, Result, ok, err, ◌>>=◌, ◌>>◌, require,
}
use pipa_personal_assistant.Prelude.Int.{is_nat}
use pipa_personal_assistant.Prelude.Text.{len, is_empty, every, strip}
use pipa_personal_assistant.Json.{
  Value, null, bool, int, float, str, list, Items, nil, cons, Fields, end, field, get_field, get_or,
  item_count,
}
use pipa_personal_assistant.Protocol.{
  ProtocolError, duplicate_json_fields, unsupported_version, invalid_string, invalid_digest,
  invalid_capabilities, invalid_capability, duplicate_capabilities, max_capabilities,
}

-- `payload.get(name)`: `None` where the key is missing
abbrev pub value_at : String → Fields → Value
value_at name payload = get_or (get_field name payload) null

-- `ord(character) < 0x20 or ord(character) == 0x7F` does not hold
abbrev pub is_printable : ℕ → Bool
is_printable c = not (ltb c 0x20 || nat_eq c 0x7F)

-- the shared test of `_string` and `_capabilities`
unfoldable pub is_plain_text : ℕ → String → Bool
is_plain_text maximum s =
    not (is_empty (strip s)) && not (ltb maximum (len s)) && every is_printable s

unfoldable pub check_string : String → ℕ → Value → Result ProtocolError String
check_string name maximum (str s) =
    if is_plain_text maximum s then ok (strip s) else err (invalid_string name maximum)
check_string name maximum _ = err (invalid_string name maximum)

-- `_string`
abbrev pub string : String → ℕ → Fields → Result ProtocolError String
string name maximum payload = check_string name maximum (value_at name payload)

unfoldable pub check_optional_string : String → ℕ → Value → Result ProtocolError (Option String)
check_optional_string name maximum null = ok none
check_optional_string name maximum v = do s ← check_string name maximum v; ok (some s)

-- `_optional_string`
abbrev pub optional_string : String → ℕ → Fields → Result ProtocolError (Option String)
optional_string name maximum payload = check_optional_string name maximum (value_at name payload)

-- `version != PROTOCOL_VERSION` does not hold: Python finds `True` and `1.0` equal to 1
unfoldable pub equals_version : Value → Bool
equals_version (int n) = is_nat 1 n
equals_version (bool b) = b
equals_version (float x) = elim x.whole [ none ↦ false | some n ↦ is_nat 1 n ]
equals_version _ = false

-- `_protocol_version`
unfoldable pub protocol_version : Fields → Result ProtocolError (Unit {0})
protocol_version payload =
    require (equals_version (value_at "protocol_version" payload)) unsupported_version

abbrev pub is_hex_digit : ℕ → Bool
is_hex_digit c = between b'0' b'9' c || between b'a' b'f' c

-- `is_valid_request_digest`, and the test of `_optional_request_digest`
unfoldable pub is_digest : String → Bool
is_digest s = nat_eq (len s) 64 && every is_hex_digit s

unfoldable pub check_digest : Value → Result ProtocolError (Option String)
check_digest null = ok none
check_digest (str s) = if is_digest s then ok (some s) else err invalid_digest
check_digest _ = err invalid_digest

-- `_optional_request_digest`
abbrev pub optional_request_digest : Fields → Result ProtocolError (Option String)
optional_request_digest payload = check_digest (value_at "request_digest" payload)

unfoldable pub check_capability : Value → Result ProtocolError String
check_capability (str s) = if is_plain_text 32 s then ok (strip s) else err invalid_capability
check_capability _ = err invalid_capability

unfoldable pub check_capability_items : Items → Result ProtocolError (List String)
check_capability_items nil = ok []
check_capability_items (cons v vs) = do
  s ← check_capability v
  rest ← check_capability_items vs
  ok (s ∷ rest)

unfoldable pub check_capabilities : Value → Result ProtocolError (List String)
check_capabilities (list vs) = do
  require (not (ltb max_capabilities (item_count vs))) invalid_capabilities
  parsed ← check_capability_items vs
  require (distinct parsed) duplicate_capabilities
  ok parsed
check_capabilities _ = err invalid_capabilities

-- `_capabilities`: a missing key is `[]`, `None` is refused
abbrev pub capabilities : Fields → Result ProtocolError (List String)
capabilities payload = check_capabilities (get_or (get_field "capabilities" payload) (list nil))

-- `_reject_duplicate_fields`, on the pairs of one JSON object in the order of the text
unfoldable pub reject_duplicate_fields :
    List String → List (String × Value) → Result ProtocolError Fields
reject_duplicate_fields seen [] = ok end
reject_duplicate_fields seen ((k, v) ∷ pairs) = do
  require (not (contains k seen)) duplicate_json_fields
  rest ← reject_duplicate_fields (k ∷ seen) pairs
  ok (field k v rest)
