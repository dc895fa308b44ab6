-- ===== src/Examples.antt =====
-- Small concrete states, and the modules that apply the theorems to them: a world that is a number,
-- a safe tool that counts it up and an unsafe one that sets it.
pub mod Confirming
pub mod Running
pub mod Showing
pub mod Timing
pub mod Unlocking
pub mod Ticketing
pub mod Securing
pub mod Handshaking
pub mod Capturing
pub mod Devices
pub mod Messages
pub mod Connecting
use pipa_personal_assistant.Prelude.{
  ℕ, suc, String, Bool, true, false, Option, none, some, List, [], ◌∷◌, ok, ◌==◌,
}
use pipa_personal_assistant.Prelude.Dict.{Dict}
use pipa_personal_assistant.Prelude.Int.{pos}
use pipa_personal_assistant.Json.{Value, int, dict, Fields, end, field}
use pipa_personal_assistant.Confirmations.{PendingConfirmation, ConfirmationManager, Request}
use pipa_personal_assistant.Sessions.{DeviceSession}
use pipa_personal_assistant.Protocol.Server.{UiState, idle}
use pipa_personal_assistant.Tools.{safe, unsafe, ToolDefinition}
use pipa_personal_assistant.Tools.Router.{ToolRouter, CallInfo}
use pipa_personal_assistant.Core.State.{Core, Config, Tick, Draw}
use pipa_personal_assistant.Prelude.Bytes.{Bytes}
use pipa_personal_assistant.TrustedUnlock.{AuthorizationVerifier}
use pipa_personal_assistant.TrustedUnlock.Data.{new_challenge}

abbrev pub seven : Fields
seven = field "value" (int (pos 7)) end

abbrev pub counter : ToolDefinition ℕ
counter = record {
  name = "counter";
  handler = λ values w. (ok end, suc w);
  safety = safe;
  confirm_summary = none;
  argument_validator = none;
  confirmation_preparer = none;
}

abbrev pub setter : ToolDefinition ℕ
setter = record {
  name = "setter";
  handler = λ values w. (ok values, 7);
  safety = unsafe;
  confirm_summary = some (λ values w. ok "Set the world.");
  argument_validator = none;
  confirmation_preparer = some (λ values w. ok (dict values));
}

abbrev pub tools : Dict (ToolDefinition ℕ)
tools = ("counter", counter) ∷ ("setter", setter) ∷ []

abbrev pub no_confirmations : ConfirmationManager
no_confirmations = record { ttl_seconds = 30; pending = [] }

abbrev pub request : Request
request = record {
  tool_name = "setter";
  arguments = seven;
  summary = "Set the world.";
  owner_id = some "s1";
  call_id = none;
  request_digest = none;
  execution_arguments = some seven;
}

abbrev pub pending : PendingConfirmation
pending = record {
  confirmation_id = "c1";
  owner_id = some "s1";
  tool_name = "setter";
  arguments = seven;
  summary = "Set the world.";
  created_at = 100;
  expires_at = 130;
  call_id = none;
  request_digest = none;
  execution_arguments = some seven;
}

abbrev pub one_confirmation : ConfirmationManager
one_confirmation = record { ttl_seconds = 30; pending = ("c1", pending) ∷ [] }

abbrev pub info : CallInfo
info = record {
  now = 100;
  fresh = "c1";
  owner_id = some "s1";
  call_id = none;
  request_digest = none;
}

abbrev pub router : ToolRouter ℕ
router = record { catalog = tools; confirmations = no_confirmations; world = 3 }

abbrev pub waiting_router : ToolRouter ℕ
waiting_router = record { catalog = tools; confirmations = one_confirmation; world = 3 }

abbrev pub session : UiState → Bool → DeviceSession
session state initialized = record {
  session_id = "s1";
  device_id = "d1";
  connected_at = 90;
  state = state;
  caption = none;
  focus_remaining = none;
  firmware_version = none;
  capabilities = "display" ∷ "touch" ∷ [];
  capabilities_initialized = initialized;
  last_seen_at = some 95;
  audio_state = none;
  battery_percent = none;
  wifi_rssi = none;
}

-- one device is trusted, and one challenge waits for it
abbrev verifier : AuthorizationVerifier Bytes
verifier = record {
  trusted_devices = ("d2", 7 ∷ []) ∷ [];
  pending = ("h1", new_challenge 100 30 "h1" "nonce" "d2" "session") ∷ [];
  consumed = [];
  clock_skew_seconds = 5;
}

abbrev pub core : UiState → Bool → ToolRouter ℕ → Core ℕ
core state initialized r = record {
  router = r;
  sessions = ("s1", session state initialized) ∷ [];
  memory = [];
  verifier = verifier;
}

abbrev pub config : Config ℕ
config = record {
  verifies = λ key r c. r.signature == "sig";
  text_intent = λ text. none;
  catalog_intent = λ text entries. none;
  request_digest = λ name arguments. none;
  show = λ v. "";
  command_catalog = none;
  capability_catalog = none;
  command_catalog_authoritative = false;
}

abbrev pub tick : Tick
tick = record { now = 110; verified = 110; created = 111; fresh = "c2" }

abbrev pub draw : Draw
draw = record { drawn_at = 110; challenge_id = "h2"; nonce = "nonce" }

abbrev pub later : Tick
later = record { now = 115; verified = 115; created = 116; fresh = "c3" }
