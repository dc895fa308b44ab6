-- ===== src/Core/State.antt =====
-- The state of `PipaCore` (backend/pipa_core/core.py), what it is configured with, and the
-- life cycle of its sessions. A session object is stored under its own identifier, so a change of
-- it is a change of that entry of the registry.
pub mod Guards
pub mod RunTool
pub mod Handle
pub mod Hello
pub mod Greeting
pub mod Shown
pub mod ShownTools
pub mod ShownPruning
pub mod ShownHandle
pub mod Invariant
pub mod ShownRuns
pub mod Keeps
pub mod HandleKeeps
pub mod SafeEffects
pub mod Effects
use pipa_personal_assistant.Prelude.{
  ℕ, String, Bool, true, Option, none, some, List, [], ◌∷◌, Result, ok, err,
}
use pipa_personal_assistant.Prelude.Dict.{Dict, erase, update}
use pipa_personal_assistant.Json.{Value, Fields}
use pipa_personal_assistant.Protocol.Server.{UiState, ServerMessage, ui_state}
use pipa_personal_assistant.Memory.{Facts}
use pipa_personal_assistant.Sessions.{
  DeviceSession, Registry, NewSession, SessionLimitError, prune, create, set_state, ui_message,
}
use pipa_personal_assistant.Prelude.Bytes.{Bytes}
use pipa_personal_assistant.TrustedUnlock
use pipa_personal_assistant.TrustedUnlock.{AuthorizationVerifier, verify_response}
use pipa_personal_assistant.TrustedUnlock.Data.{
  TrustedUnlockError, Challenge, SignedChallenge, VerifiedAuthorization, default_ttl_seconds,
}
use pipa_personal_assistant.Tools.Router.{ToolRouter, cancel_pending}

-- `PipaCore`; the public key of a device is given by its bytes
pub record Core (W : Type 0) : Type 0 where
  pub router : ToolRouter W
  pub sessions : Registry
  pub memory : Facts
  pub verifier : AuthorizationVerifier Bytes

-- What a parser of backend/pipa_core/intents.py returns.
pub record Intent : Type 0 where
  pub tool_name : String
  pub arguments : Fields

-- What the Core calls and does not define here: the parsers of intents.py, the digest of
-- request_binding.py (nothing where it raises), `str` of a value that is no text, and the callbacks
-- that read the two catalogs. The command catalog is a list of dicts with texts under `tool_name`,
-- or nothing where the callback raises an `OSError` or a `ValueError`; the capability catalog is
-- nothing where it raises. `verifies` is the test of an Ed25519 signature, for which the verifier calls
-- the `cryptography` package.
pub record Config (W : Type 0) : Type 0 where
  pub verifies : Bytes → SignedChallenge → Challenge → Bool
  pub text_intent : String → Option Intent
  pub catalog_intent : String → List Value → Option Intent
  pub request_digest : String → Fields → Option String
  pub show : Value → String
  pub command_catalog : Option (W → Option (List Value))
  pub capability_catalog : Option (W → Option Value)
  pub command_catalog_authoritative : Bool

-- The clock and the random source of a call: the first reading of the clock, those that the verifier
-- and `sessions.create` make afterwards in `authenticate`, and the identifier that is drawn.
pub record Tick : Type 0 where
  pub now : ℕ
  pub verified : ℕ
  pub created : ℕ
  pub fresh : String

-- the clock and the random source of a challenge
pub record Draw : Type 0 where
  pub drawn_at : ℕ
  pub challenge_id : String
  pub nonce : String

-- the errors of `authenticate`
pub data AuthenticationError : Type 0 where
  session_limit : SessionLimitError → AuthenticationError
  not_authorized : AuthenticationError

unfoldable pub opened :
    Result SessionLimitError DeviceSession → Result AuthenticationError DeviceSession
opened (ok s) = ok s
opened (err e) = err (session_limit e)

-- the device that the verifier names
unfoldable pub authorized : Result TrustedUnlockError VerifiedAuthorization → Option String
authorized (ok a) = some a.device_id
authorized (err e) = none

abbrev pub Reply : Type 0 → Type 0
Reply W = List ServerMessage × Core W

module _ {W : Type 0} where
  unfoldable pub save : DeviceSession → Core W → Core W
  save s c = record c { sessions = update s.session_id (λ _. s) c.sessions }

  -- `session.set_state(…)`, then one message and the screen
  unfoldable pub respond :
      UiState → Option String → ServerMessage → DeviceSession → Core W → Reply W
  respond state caption m s c =
      let s' = set_state state caption s in (m ∷ ui_state (ui_message s') ∷ [], save s' c)

  unfoldable pub cancel_each : List String → ToolRouter W → ToolRouter W
  cancel_each [] r = r
  cancel_each (id ∷ ids) r = cancel_each ids (cancel_pending id r).1

  -- `_prune_stale_sessions`
  unfoldable pub prune_stale : ℕ → Core W → Core W
  unfolding cancel_each
  prune_stale now c =
      let (ids, d) = prune now c.sessions in
      record c { router = cancel_each ids c.router; sessions = d }

  -- `close`
  unfoldable pub close : String → Core W → Core W
  close id c = record c { router = (cancel_pending id c.router).1; sessions = erase id c.sessions }

  -- `create_challenge`
  unfoldable pub create_challenge :
      Draw → String → Core W → Result TrustedUnlockError Challenge × Core W
  create_challenge r device c =
      let (a, v) =
        TrustedUnlock.create_challenge r.drawn_at default_ttl_seconds r.challenge_id r.nonce device
          "session" c.verifier in
      (a, record c { verifier = v })

  -- what `authenticate` makes of the answer of the verifier, which names the device
  unfoldable pub open_session :
      Tick
      → Option String
      → Option String
      → List String
      → Core W
      → Result AuthenticationError DeviceSession × Core W
  open_session t none firmware capabilities c = (err not_authorized, c)
  open_session t (some device) firmware capabilities c =
      let (r, d) =
        create t.created t.fresh
          (record {
            device_id = device;
            firmware_version = firmware;
            capabilities = capabilities;
            capabilities_initialized = true;
          })
          c.sessions in
      (opened r, record c { sessions = d })

  -- `self.verifier.verify_response(…)`
  unfoldable pub verify :
      Config W
      → Tick
      → SignedChallenge
      → Core W
      → Result TrustedUnlockError VerifiedAuthorization × Core W
  verify cfg t r c =
      let (a, v) = verify_response cfg.verifies t.verified r c.verifier in
      (a, record c { verifier = v })

  unfoldable pub authenticate :
      Config W
      → Tick
      → SignedChallenge
      → Option String
      → List String
      → Core W
      → Result AuthenticationError DeviceSession × Core W
  unfolding open_session
  authenticate cfg t r firmware capabilities c =
      let (a, c') = verify cfg t r (prune_stale t.now c) in
      open_session t (authorized a) firmware capabilities c'
