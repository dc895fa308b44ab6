-- ===== src/Protocol/Parse.antt =====
-- `parse_client_message` of backend/pipa_core/protocol.py.
pub mod Checked
pub mod Bounds
use pipa_personal_assistant.Prelude.{
  ℕ, ltb, String, Bool, true, false, ◌&&◌, ◌||◌, not, Option, none, some, List, [], ◌∷◌, ◌++◌, ◌==◌,
  if◌then◌else◌, contains, Result, ok, err, ◌>>=◌, ◌>>◌, require,
}
use pipa_personal_assistant.Prelude.Dict.{Dict, lookup}
use pipa_personal_assistant.Prelude.Int.{ℤ, in_range, in_negative_range}
use pipa_personal_assistant.Json.{
  Value, null, bool, int, float, str, list, dict, Items, nil, cons, Fields, end, field, get_field,
  get_or, field_names,
}
use pipa_personal_assistant.Json.Encode.{encoded_size}
use pipa_personal_assistant.Protocol.{
  ProtocolError, message_not_object, type_required, unsupported_type, unexpected_fields,
  unsupported_source, unsupported_gesture, invalid_audio_state, invalid_battery_percent,
  invalid_wifi_rssi, arguments_not_object, arguments_not_finite, arguments_too_large,
  accepted_not_boolean, ClientMessage, max_text_length, max_tool_name_length, max_arguments_bytes,
}
use pipa_personal_assistant.Protocol.Checks.{
  value_at, check_string, string, optional_string, protocol_version, optional_request_digest,
  capabilities,
}

-- the keys of `_MESSAGE_FIELDS`
pub data MessageType : Type 0 where
  challenge_request hello device_hello catalog_request text_input wake hold_start hold_end audio_end
        abort ping device_status gesture tool_call confirm :
      MessageType

abbrev pub message_types : Dict MessageType
message_types =
    ("challenge_request", challenge_request)
    ∷ ("hello", hello)
    ∷ ("device_hello", device_hello)
    ∷ ("catalog_request", catalog_request)
    ∷ ("text_input", text_input)
    ∷ ("wake", wake)
    ∷ ("hold_start", hold_start)
    ∷ ("hold_end", hold_end)
    ∷ ("audio_end", audio_end)
    ∷ ("abort", abort)
    ∷ ("ping", ping)
    ∷ ("device_status", device_status)
    ∷ ("gesture", gesture)
    ∷ ("tool_call", tool_call)
    ∷ ("confirm", confirm)
    ∷ []

-- the values of `_MESSAGE_FIELDS`
unfoldable pub message_fields : MessageType → List String
message_fields challenge_request = "device_id" ∷ []
message_fields hello =
    "device_id" ∷ "challenge_id" ∷ "signature" ∷ "firmware_version" ∷ "capabilities" ∷ []
message_fields device_hello = "firmware_version" ∷ "capabilities" ∷ []
message_fields text_input = "text" ∷ "source" ∷ []
message_fields ping = "request_id" ∷ []
message_fields device_status = "audio_state" ∷ "battery_percent" ∷ "wifi_rssi" ∷ []
message_fields gesture = "gesture" ∷ []
message_fields tool_call = "name" ∷ "arguments" ∷ "call_id" ∷ "request_digest" ∷ []
message_fields confirm = "confirmation_id" ∷ "accepted" ∷ []
message_fields _ = []

-- `set(keys) - set(allowed)`
unfoldable pub keys_outside : List String → List String → List String
keys_outside allowed [] = []
keys_outside allowed (k ∷ ks) =
    let rest = keys_outside allowed ks in if contains k allowed then rest else k ∷ rest

abbrev pub text_sources : List String
text_sources = "voice" ∷ "touch" ∷ "mobile" ∷ "debug" ∷ "unknown" ∷ []

abbrev pub audio_states : List String
audio_states = "disabled" ∷ "probe_only" ∷ "codec_ready" ∷ "listening" ∷ "draining" ∷ "error" ∷ []

abbrev pub gestures : List String
gestures = "tap" ∷ "double_tap" ∷ "swipe_left" ∷ "swipe_right" ∷ []

unfoldable pub check_source : Value → Result ProtocolError String
check_source (str s) = if contains s text_sources then ok s else err unsupported_source
check_source _ = err unsupported_source

unfoldable pub check_audio_state : Value → Result ProtocolError (Option String)
check_audio_state null = ok none
check_audio_state (str s) = if contains s audio_states then ok (some s) else err invalid_audio_state
check_audio_state _ = err invalid_audio_state

unfoldable pub check_battery : Value → Result ProtocolError (Option ℤ)
check_battery null = ok none
check_battery (int n) = if in_range 100 n then ok (some n) else err invalid_battery_percent
check_battery _ = err invalid_battery_percent

unfoldable pub check_rssi : Value → Result ProtocolError (Option ℤ)
check_rssi null = ok none
check_rssi (int n) = if in_negative_range 127 n then ok (some n) else err invalid_wifi_rssi
check_rssi _ = err invalid_wifi_rssi

unfoldable pub check_size : Option ℕ → Result ProtocolError (Unit {0})
check_size none = err arguments_not_finite
check_size (some n) = require (not (ltb max_arguments_bytes n)) arguments_too_large

unfoldable pub check_arguments : Value → Result ProtocolError Fields
unfolding check_size
check_arguments (dict fs) = do check_size (encoded_size (dict fs)); ok fs
check_arguments _ = err arguments_not_object

unfoldable pub check_accepted : Value → Result ProtocolError Bool
check_accepted (bool b) = ok b
check_accepted _ = err accepted_not_boolean

-- the `if`/`elif` chain on `message_type`
unfoldable pub parse_fields : MessageType → Fields → Result ProtocolError ClientMessage
parse_fields challenge_request p = do
  device_id ← string "device_id" 64 p
  ok (ClientMessage.challenge_request device_id)
parse_fields hello p = do
  device_id ← string "device_id" 64 p
  challenge_id ← string "challenge_id" 128 p
  signature ← string "signature" 256 p
  firmware_version ← optional_string "firmware_version" 32 p
  caps ← capabilities p
  ok (ClientMessage.hello device_id challenge_id signature firmware_version caps)
parse_fields device_hello p = do
  firmware_version ← optional_string "firmware_version" 32 p
  caps ← capabilities p
  ok (ClientMessage.device_hello firmware_version caps)
parse_fields text_input p = do
  text ← string "text" max_text_length p
  source ← check_source (get_or (get_field "source" p) (str "unknown"))
  ok (ClientMessage.text_input text source)
parse_fields catalog_request p = ok ClientMessage.catalog_request
parse_fields wake p = ok ClientMessage.wake
parse_fields hold_start p = ok ClientMessage.hold_start
parse_fields hold_end p = ok ClientMessage.hold_end
parse_fields audio_end p = ok ClientMessage.audio_end
parse_fields abort p = ok ClientMessage.abort
parse_fields ping p = do
  request_id ← optional_string "request_id" 64 p
  ok (ClientMessage.ping request_id)
parse_fields device_status p = do
  audio_state ← check_audio_state (value_at "audio_state" p)
  battery ← check_battery (value_at "battery_percent" p)
  rssi ← check_rssi (value_at "wifi_rssi" p)
  ok (ClientMessage.device_status audio_state battery rssi)
parse_fields gesture p = do
  g ← string "gesture" 32 p
  require (contains g gestures) unsupported_gesture
  ok (ClientMessage.gesture g)
parse_fields tool_call p = do
  name ← string "name" max_tool_name_length p
  arguments ← check_arguments (get_or (get_field "arguments" p) (dict end))
  call_id ← optional_string "call_id" 128 p
  request_digest ← optional_request_digest p
  ok (ClientMessage.tool_call name arguments call_id request_digest)
parse_fields confirm p = do
  confirmation_id ← string "confirmation_id" 128 p
  accepted ← check_accepted (value_at "accepted" p)
  ok (ClientMessage.confirm confirmation_id accepted)

-- the names in `unknown_fields`, if there are any, and otherwise the version and the fields
unfoldable pub check_fields :
    List String → MessageType → Fields → Result ProtocolError ClientMessage
check_fields [] t p = do protocol_version p; parse_fields t p
check_fields (k ∷ ks) t p = err (unexpected_fields (k ∷ ks))

abbrev pub unknown_fields : MessageType → Fields → List String
unknown_fields t p = keys_outside ("protocol_version" ∷ "type" ∷ message_fields t) (field_names p)

-- `_MESSAGE_FIELDS.get(message_type)`
unfoldable pub message_type : String → Option MessageType
message_type name = lookup name message_types

unfoldable pub check_type : Value → Fields → Result ProtocolError ClientMessage
check_type (str name) p = elim (message_type name) [
  | none ↦ err (unsupported_type name)
  | some t ↦ check_fields (unknown_fields t p) t p
]
check_type _ p = err type_required

-- a payload that is no mapping is refused before anything is read
unfoldable pub parse_client_message : Value → Result ProtocolError ClientMessage
parse_client_message (dict p) = check_type (value_at "type" p) p
parse_client_message _ = err message_not_object
