-- ===== src/Sessions.antt =====
-- backend/pipa_core/state.py: authenticated device sessions and their screen state.
pub mod Invariant
use pipa_personal_assistant.Prelude.{
  ℕ, ◌-◌, ltb, leb, String, Bool, true, false, Option, none, some, List, [], ◌==◌, if◌then◌else◌,
  length, Result, ok, err, ◌>>=◌, ◌>>◌, require, not,
}
use pipa_personal_assistant.Prelude.Dict.{
  Dict, lookup, insert, erase, drop_where, keys_where, count_where, update,
}
use pipa_personal_assistant.Protocol.Server.{UiState, idle, UiMessage}
use pipa_personal_assistant.Prelude.Int.{ℤ}

abbrev pub max_sessions : ℕ
max_sessions = 32

abbrev pub max_sessions_per_device : ℕ
max_sessions_per_device = 2

abbrev pub max_session_idle_seconds : ℕ
max_session_idle_seconds = 900

-- `SessionLimitError`
pub data SessionLimitError : Type 0 where
  too_many_sessions too_many_for_device : SessionLimitError

pub record DeviceSession : Type 0 where
  pub session_id : String
  pub device_id : String
  pub connected_at : ℕ
  pub state : UiState
  pub caption : Option String
  pub focus_remaining : Option ℕ
  pub firmware_version : Option String
  pub capabilities : List String
  pub capabilities_initialized : Bool
  pub last_seen_at : Option ℕ
  pub audio_state : Option String
  pub battery_percent : Option ℤ
  pub wifi_rssi : Option ℤ

unfoldable pub touch : ℕ → DeviceSession → DeviceSession
touch now s = record s { last_seen_at = some now }

-- `set_state(state, caption=…)`: the type has the test of `UI_STATES`
unfoldable pub set_state : UiState → Option String → DeviceSession → DeviceSession
set_state state caption s = record s { state = state; caption = caption }

unfoldable pub ui_message : DeviceSession → UiMessage
ui_message s = record { state = s.state; caption = s.caption; focus_remaining = s.focus_remaining }

-- `SessionRegistry._sessions`
abbrev pub Registry : Type 0
Registry = Dict DeviceSession

-- `now - session.last_seen_at >= MAX_SESSION_IDLE_SECONDS`; a clock that went back gives a negative
-- number there and zero here, below the limit either way
unfoldable pub is_stale : ℕ → DeviceSession → Bool
is_stale now s = elim s.last_seen_at [
  | none ↦ false
  | some seen ↦ leb max_session_idle_seconds (now - seen)
]

-- `_prune`, and the identifiers that it returns
unfoldable pub prune : ℕ → Registry → List String × Registry
prune now d = (keys_where (is_stale now) d, drop_where (is_stale now) d)

abbrev pub is_of_device : String → DeviceSession → Bool
is_of_device device s = s.device_id == device

-- the arguments of `create`
pub record NewSession : Type 0 where
  pub device_id : String
  pub firmware_version : Option String
  pub capabilities : List String
  pub capabilities_initialized : Bool

unfoldable pub new_session : ℕ → String → NewSession → DeviceSession
new_session now id n = record {
  session_id = id;
  device_id = n.device_id;
  connected_at = now;
  state = idle;
  caption = none;
  focus_remaining = none;
  firmware_version = n.firmware_version;
  capabilities = n.capabilities;
  capabilities_initialized = n.capabilities_initialized;
  last_seen_at = some now;
  audio_state = none;
  battery_percent = none;
  wifi_rssi = none;
}

unfoldable pub check_limits : String → Registry → Result SessionLimitError (Unit {0})
check_limits device d = do
  require (not (leb max_sessions (length d))) too_many_sessions
  require (not (leb max_sessions_per_device (count_where (is_of_device device) d)))
      too_many_for_device

abbrev add_session :
    DeviceSession
    → Registry
    → Result SessionLimitError (Unit {0})
    → Result SessionLimitError DeviceSession × Registry
add_session s d (ok _) = (ok s, insert s.session_id s d)
add_session s d (err e) = (err e, d)

-- `create`: a refused session has still pruned
unfoldable pub create :
    ℕ → String → NewSession → Registry → Result SessionLimitError DeviceSession × Registry
unfolding prune new_session
create now id n d =
    let d' = (prune now d).1 in add_session (new_session now id n) d' (check_limits n.device_id d')
