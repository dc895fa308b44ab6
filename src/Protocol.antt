-- ===== src/Protocol.antt =====
-- backend/pipa_core/protocol.py: the messages of the device-to-core protocol.
-- `Checks` has the field validators, `Parse` the parser of client messages, `Server` the response
-- envelopes; the proofs are in `Parse/Bounds` and `Server/Contract`.
pub mod Checks
pub mod Parse
pub mod Server
use pipa_personal_assistant.Prelude.{ℕ, String, Bool, Option, List}
use pipa_personal_assistant.Prelude.Int.{ℤ}
use pipa_personal_assistant.Json.{Fields}

abbrev pub max_text_length : ℕ
max_text_length = 4000

abbrev pub max_tool_name_length : ℕ
max_tool_name_length = 80

abbrev pub max_arguments_bytes : ℕ
max_arguments_bytes = 4096

abbrev pub max_capabilities : ℕ
max_capabilities = 16

-- `ProtocolError`, a constructor for each `raise`
pub data ProtocolError : Type 0 where
  duplicate_json_fields : ProtocolError
  message_not_object type_required : ProtocolError
  unsupported_type : String → ProtocolError
  unexpected_fields : List String → ProtocolError
  unsupported_version : ProtocolError
  invalid_string : String → ℕ → ProtocolError
  invalid_digest : ProtocolError
  invalid_capabilities invalid_capability duplicate_capabilities : ProtocolError
  unsupported_source unsupported_gesture : ProtocolError
  invalid_audio_state invalid_battery_percent invalid_wifi_rssi : ProtocolError
  arguments_not_object arguments_not_finite arguments_too_large : ProtocolError
  accepted_not_boolean : ProtocolError

-- `ClientMessage`: its `type` is the constructor, its `fields` the arguments
pub data ClientMessage : Type 0 where
  challenge_request : String → ClientMessage
  hello : String → String → String → Option String → List String → ClientMessage
  device_hello : Option String → List String → ClientMessage
  text_input : String → String → ClientMessage
  catalog_request wake hold_start hold_end audio_end abort : ClientMessage
  ping : Option String → ClientMessage
  device_status : Option String → Option ℤ → Option ℤ → ClientMessage
  gesture : String → ClientMessage
  tool_call : String → Fields → Option String → Option String → ClientMessage
  confirm : String → Bool → ClientMessage
