-- ===== src/Core/State/Guards.antt =====
-- The conditions that the handlers of backend/pipa_core/core.py test, and the search for the intent
-- of a transcript.
use pipa_personal_assistant.Prelude.{
  String, Bool, true, false, Option, none, some, List, [], ◌∷◌, ◌==◌, if◌then◌else◌, any, all,
  contains,
}
use pipa_personal_assistant.Prelude.Int.{pos}
use pipa_personal_assistant.Json.{
  Value, bool, int, str, list, dict, Fields, end, field, get_field, of_texts,
}
use pipa_personal_assistant.Protocol.{
  ClientMessage, challenge_request, hello, device_hello, text_input, catalog_request, wake,
  hold_start, hold_end, audio_end, abort, ping, device_status, gesture, tool_call, confirm,
}
use pipa_personal_assistant.Protocol.Server.{UiState, ServerMessage, error_text}
use pipa_personal_assistant.Memory.{Remembered}
use pipa_personal_assistant.Sessions.{DeviceSession}
use pipa_personal_assistant.Tools.{Exn, other_exception}
use pipa_personal_assistant.Core.State.{Intent, Config}

-- `CONFIRMATION_CAPABILITIES`
abbrev pub confirmation_capabilities : List String
confirmation_capabilities = "display" ∷ "touch" ∷ []

-- `CONFIRMATION_CAPABILITIES.issubset(session.capabilities)`
unfoldable pub can_confirm : DeviceSession → Bool
can_confirm s = all (λ c. contains c s.capabilities) confirmation_capabilities

-- `_PRE_HELLO_MESSAGE_TYPES`
unfoldable pub is_pre_hello : ClientMessage → Bool
is_pre_hello (ping _) = true
is_pre_hello (device_status _ _ _) = true
is_pre_hello (device_hello _ _) = true
is_pre_hello abort = true
is_pre_hello _ = false

-- the messages that a session answers while it waits for a confirmation
unfoldable pub is_answer : ClientMessage → Bool
is_answer (ping _) = true
is_answer (device_status _ _ _) = true
is_answer abort = true
is_answer (confirm _ _) = true
is_answer _ = false

-- `state == "confirm"`
unfoldable pub is_waiting : UiState → Bool
is_waiting UiState.confirm = true
is_waiting _ = false

-- `isinstance(e, (KeyError, ValueError, ConfirmationError))`
unfoldable pub is_refusal : Exn → Bool
is_refusal other_exception = false
is_refusal _ = true

abbrev pub hello_required : ServerMessage
hello_required = error_text "device_hello_required" "El dispositivo aún no está listo."

abbrev pub unknown_session : ServerMessage
unknown_session = error_text "unknown_session" "Sesión desconocida."

abbrev pub confirmation_required : ServerMessage
confirmation_required =
    error_text "confirmation_required" "Responde a la confirmación pendiente antes de continuar."

-- `str(arguments.get("fact", ""))`
abbrev pub fact_text : (Value → String) → Option Value → String
fact_text show none = ""
fact_text show (some (str s)) = s
fact_text show (some v) = show v

-- the dict that `remember` returns
abbrev pub remembered_fields : Remembered → Fields
remembered_fields r =
    field "success" (bool true) (field "fact" (str r.fact) (field "count" (int (pos r.count)) end))

-- the dict that `recall` returns
abbrev pub recalled_fields : List String → Fields
recalled_fields facts = field "success" (bool true) (field "facts" (list (of_texts facts)) end)

abbrev is_named : String → Option Value → Bool
is_named name (some (str s)) = s == name
is_named name _ = false

-- `command.get("tool_name")` is the tool
unfoldable pub names_tool : String → Value → Bool
names_tool name (dict fs) = is_named name (get_field "tool_name" fs)
names_tool name _ = false

abbrev pub or_nothing : Option (List Value) → List Value
or_nothing none = []
or_nothing (some vs) = vs

abbrev pub filled : Option (Option (List Value)) → Option (List Value)
filled none = none
filled (some r) = some (or_nothing r)

-- a callback, where there is one
abbrev pub call : {W A : Type 0} → W → Option (W → A) → Option A
call w none = none
call w (some f) = some (f w)

abbrev pub or_else : Option Intent → Option Intent → Option Intent
or_else none j = j
or_else (some i) j = some i

-- the test against the enabled tools
unfoldable pub only_enabled : Bool → Option (List Value) → Option Intent → Option Intent
only_enabled true (some entries) (some i) =
    if any (names_tool i.tool_name) entries then some i else none
only_enabled _ _ i = i

-- `message.type`
unfoldable pub type_of : ClientMessage → String
type_of (challenge_request _) = "challenge_request"
type_of (hello _ _ _ _ _) = "hello"
type_of (device_hello _ _) = "device_hello"
type_of (text_input _ _) = "text_input"
type_of catalog_request = "catalog_request"
type_of wake = "wake"
type_of hold_start = "hold_start"
type_of hold_end = "hold_end"
type_of audio_end = "audio_end"
type_of abort = "abort"
type_of (ping _) = "ping"
type_of (device_status _ _ _) = "device_status"
type_of (gesture _) = "gesture"
type_of (tool_call _ _ _ _) = "tool_call"
type_of (confirm _ _) = "confirm"

module _ {W : Type 0} (cfg : Config W) where
  -- `self.command_catalog()`, where there is such a callback
  unfoldable pub commands_read : W → Option (Option (List Value))
  commands_read w = call w cfg.command_catalog

  -- `self.capability_catalog()`
  unfoldable pub capabilities_read : W → Option (Option Value)
  capabilities_read w = call w cfg.capability_catalog

  -- `catalog_commands` in `_route_transcript`
  unfoldable pub catalog_commands : W → Option (List Value)
  unfolding commands_read
  catalog_commands w = filled (commands_read w)

  unfoldable pub first_intent : String → Option (List Value) → Option Intent
  first_intent text none = cfg.text_intent text
  first_intent text (some entries) =
      or_else (cfg.catalog_intent text entries) (cfg.text_intent text)

  unfoldable pub find_intent : String → W → Option Intent
  find_intent text w =
      let entries = catalog_commands w in
      only_enabled cfg.command_catalog_authoritative entries (first_intent text entries)

  unfoldable pub is_digest_of : Option String → String → Bool
  is_digest_of none supplied = false
  is_digest_of (some expected) supplied = expected == supplied

  -- `supplied_digest is None`, or it is the digest of the call
  unfoldable pub is_bound : String → Fields → Option String → Bool
  is_bound name arguments none = true
  is_bound name arguments (some supplied) =
      is_digest_of (cfg.request_digest name arguments) supplied
