-- ===== src/Protocol/Server.antt =====
-- `server_message` of backend/pipa_core/protocol.py, and the envelopes that the program builds.
pub mod Contract
use pipa_personal_assistant.Prelude.{
  ℕ, String, Bool, true, false, Option, none, some, List, [], ◌∷◌, if◌then◌else◌, contains, Result,
  ok, err, ◌>>=◌, ◌>>◌, require, not, ◌||◌, ◌==◌,
}
use pipa_personal_assistant.Prelude.Dict.{Dict, lookup}
use pipa_personal_assistant.Prelude.Int.{pos}
use pipa_personal_assistant.Prelude.Text.{is_empty, strip}
use pipa_personal_assistant.Json.{
  Value, null, bool, int, str, list, dict, Items, Fields, end, field, field_names,
}
use pipa_personal_assistant.Protocol.Parse.{keys_outside}

-- the `ValueError`s of `server_message`
pub data ServerError : Type 0 where
  type_missing reserved_fields : ServerError
  unsupported_type : String → ServerError
  unexpected_fields missing_fields : List String → ServerError

-- an entry of `SERVER_MESSAGE_FIELDS` and of `SERVER_MESSAGE_REQUIRED_FIELDS`
pub record Shape : Type 0 where
  pub allowed : List String
  pub required : List String

abbrev shape : List String → List String → Shape
shape allowed required = record { allowed = allowed; required = required }

unfoldable pub server_shapes : Dict Shape
server_shapes =
    ("challenge", shape ("challenge" ∷ []) ("challenge" ∷ []))
    ∷ ("error", shape ("code" ∷ "message" ∷ []) ("code" ∷ []))
    ∷ ("ready", shape ("session_id" ∷ "ui_state" ∷ []) ("session_id" ∷ "ui_state" ∷ []))
    ∷ ("catalog", shape ("commands" ∷ "capabilities" ∷ []) ("commands" ∷ []))
    ∷ (
      "confirm_request",
      shape
          ("confirmation_id" ∷ "tool_name" ∷ "summary" ∷ "expires_at" ∷ "call_id" ∷ "request_digest"
            ∷ [])
          ("confirmation_id" ∷ "tool_name" ∷ "summary" ∷ "expires_at" ∷ []),
    )
    ∷ (
      "tool_result",
      shape ("tool_name" ∷ "status" ∷ "success" ∷ "call_id" ∷ [])
          ("tool_name" ∷ "status" ∷ "success" ∷ []),
    )
    ∷ ("ui_state", shape ("state" ∷ "caption" ∷ "focus_remaining" ∷ []) ("state" ∷ []))
    ∷ ("pong", shape ("request_id" ∷ []) [])
    ∷ ("status_ack", shape [] [])
    ∷ ("device_hello_ack", shape [] [])
    ∷ ("gesture_ack", shape ("gesture" ∷ []) ("gesture" ∷ []))
    ∷ ("tts_aborted", shape [] [])
    ∷ []

-- `MOBILE_SERVER_MESSAGE_TYPES`
abbrev pub mobile_server_types : List String
mobile_server_types =
    "device_hello_ack" ∷ "catalog" ∷ "confirm_request" ∷ "tool_result" ∷ "ui_state" ∷ "error"
    ∷ "pong" ∷ "status_ack" ∷ "gesture_ack" ∷ "tts_aborted" ∷ []

unfoldable pub check_names : List String → List String → Result ServerError (Unit {0})
check_names (k ∷ ks) missing = err (unexpected_fields (k ∷ ks))
check_names [] (k ∷ ks) = err (missing_fields (k ∷ ks))
check_names [] [] = ok tt

unfoldable pub check_shape : String → Option Shape → List String → Result ServerError (Unit {0})
check_shape name none names = err (unsupported_type name)
check_shape name (some s) names =
    check_names (keys_outside s.allowed names) (keys_outside names s.required)

unfoldable pub server_message : String → Fields → Result ServerError Fields
unfolding strip check_shape check_names server_shapes keys_outside contains field_names
server_message name fields = do
  require (not (is_empty (strip name))) type_missing
  let names = field_names fields
  require (not (contains "type" names || contains "protocol_version" names)) reserved_fields
  check_shape name (lookup name server_shapes) names
  ok (field "protocol_version" (int (pos 1)) (field "type" (str name) fields))

-- `UI_STATES`
pub data UiState : Type 0 where
  idle listening thinking confirm speaking focus dashboard : UiState

unfoldable pub ui_name : UiState → String
ui_name idle = "idle"
ui_name listening = "listening"
ui_name thinking = "thinking"
ui_name confirm = "confirm"
ui_name speaking = "speaking"
ui_name focus = "focus"
ui_name dashboard = "dashboard"

pub record UiMessage : Type 0 where
  pub state : UiState
  pub caption : Option String
  pub focus_remaining : Option ℕ

pub record ConfirmRequest : Type 0 where
  pub confirmation_id : String
  pub tool_name : String
  pub summary : String
  pub expires_at : ℕ
  pub call_id : Option String
  pub request_digest : Option String

pub record ToolResult : Type 0 where
  pub tool_name : String
  pub status : String
  pub success : Bool
  pub call_id : Option String

-- The envelopes that the Core and its transports build, with the arguments that they pass.
pub data ServerMessage : Type 0 where
  challenge : Fields → ServerMessage
  error : String → ServerMessage
  error_text : String → String → ServerMessage
  ready : String → UiMessage → ServerMessage
  catalog : Items → Option Fields → ServerMessage
  confirm_request : ConfirmRequest → ServerMessage
  tool_result : ToolResult → ServerMessage
  ui_state : UiMessage → ServerMessage
  pong : Option String → ServerMessage
  status_ack device_hello_ack tts_aborted : ServerMessage
  gesture_ack : String → ServerMessage

abbrev pub text_or_null : Option String → Value
text_or_null none = null
text_or_null (some s) = str s

abbrev pub nat_or_null : Option ℕ → Value
nat_or_null none = null
nat_or_null (some n) = int (pos n)

-- a field that is left out where its value is `None`
abbrev pub optional_field : String → Option String → Fields → Fields
optional_field k none fs = fs
optional_field k (some s) fs = field k (str s) fs

unfoldable pub ui_fields : UiMessage → Fields
unfolding ui_name
ui_fields u = field "state" (str (ui_name u.state)) (
    field "caption" (text_or_null u.caption)
      (field "focus_remaining" (nat_or_null u.focus_remaining) end))

abbrev pub envelope : String → Fields → Fields
envelope name fs = field "protocol_version" (int (pos 1)) (field "type" (str name) fs)

abbrev pub catalog_fields : Option Fields → Fields
catalog_fields none = end
catalog_fields (some caps) = field "capabilities" (dict caps) end

-- the first argument of `server_message`
unfoldable pub type_name : ServerMessage → String
type_name (challenge _) = "challenge"
type_name (error _) = "error"
type_name (error_text _ _) = "error"
type_name (ready _ _) = "ready"
type_name (catalog _ _) = "catalog"
type_name (confirm_request _) = "confirm_request"
type_name (tool_result _) = "tool_result"
type_name (ui_state _) = "ui_state"
type_name (pong _) = "pong"
type_name status_ack = "status_ack"
type_name device_hello_ack = "device_hello_ack"
type_name tts_aborted = "tts_aborted"
type_name (gesture_ack _) = "gesture_ack"

-- the keyword arguments of `server_message`
unfoldable pub keyword_fields : ServerMessage → Fields
unfolding ui_fields
keyword_fields (challenge c) = field "challenge" (dict c) end
keyword_fields (error code) = field "code" (str code) end
keyword_fields (error_text code message) =
    field "code" (str code) (field "message" (str message) end)
keyword_fields (ready session_id u) =
    field "session_id" (str session_id)
      (field "ui_state" (dict (envelope "ui_state" (ui_fields u))) end)
keyword_fields (catalog commands caps) = field "commands" (list commands) (catalog_fields caps)
keyword_fields (confirm_request c) = field "confirmation_id" (str c.confirmation_id) (
    field "tool_name" (str c.tool_name) (
      field "summary" (str c.summary) (
        field "expires_at" (int (pos c.expires_at)) (
          optional_field "call_id" c.call_id
            (optional_field "request_digest" c.request_digest end)))))
keyword_fields (tool_result r) = field "tool_name" (str r.tool_name) (
    field "status" (str r.status)
      (field "success" (bool r.success) (optional_field "call_id" r.call_id end)))
keyword_fields (ui_state u) = ui_fields u
keyword_fields (pong request_id) = field "request_id" (text_or_null request_id) end
keyword_fields (gesture_ack g) = field "gesture" (str g) end
keyword_fields _ = end
