-- ===== src/Connection.antt =====
-- backend/pipa_core/connection.py: the life of one authenticated connection to the Core. Its clock
-- is read once for each message and counts milliseconds.
pub mod Limits
pub mod Closing
pub mod BeforeHello
pub mod Challenges
pub mod Opening
use pipa_personal_assistant.Prelude.{
  ℕ, suc, ◌+◌, ◌-◌, ltb, leb, String, Bool, true, false, Option, none, some, List, [], ◌∷◌,
  if◌then◌else◌, Result, ok, err,
}
use pipa_personal_assistant.Protocol.{ClientMessage, challenge_request, hello}
use pipa_personal_assistant.Protocol.Server.{ServerMessage, error, challenge, ready}
use pipa_personal_assistant.Sessions.{DeviceSession, ui_message}
use pipa_personal_assistant.Core.State.{
  Core, Config, Tick, Draw, AuthenticationError, session_limit, not_authorized, authenticate,
  create_challenge, close,
}
use pipa_personal_assistant.TrustedUnlock.Data.{
  TrustedUnlockError, Challenge, SignedChallenge, as_dict,
}
use pipa_personal_assistant.Core.State.Handle.{handle}

abbrev pub max_auth_failures : ℕ
max_auth_failures = 3

abbrev pub min_challenge_interval : ℕ
min_challenge_interval = 1000

abbrev pub authentication_timeout : ℕ
authentication_timeout = 20000

abbrev pub session_idle : ℕ
session_idle = 600000

pub record ConnectionResult : Type 0 where
  pub responses : List ServerMessage
  pub close : Bool

pub record Connection : Type 0 where
  pub session_id : Option String
  pub auth_failures : ℕ
  pub last_challenge_at : Option ℕ
  pub connected_at : ℕ
  pub last_activity_at : ℕ

-- a message, with the connection's clock and the clocks and the random sources of the Core's calls
pub record Arrival : Type 0 where
  pub clock : ℕ
  pub tick : Tick
  pub draw : Draw
  pub message : ClientMessage

abbrev pub respond_with : ServerMessage → ConnectionResult
respond_with m = record { responses = m ∷ []; close = false }

-- `AuthenticatedConnection(core)`
unfoldable pub open_connection : ℕ → Connection
open_connection now = record {
  session_id = none;
  auth_failures = 0;
  last_challenge_at = none;
  connected_at = now;
  last_activity_at = now;
}

-- `_authentication_failure`
unfoldable pub authentication_failure : Connection → ConnectionResult × Connection
authentication_failure k = (
  record {
    responses = error "authentication_failed" ∷ [];
    close = leb max_auth_failures (k.auth_failures + 1);
  },
  record k { auth_failures = k.auth_failures + 1 },
)

-- `now - last_challenge_at < MIN_CHALLENGE_INTERVAL_SECONDS`; a clock that went back gives a negative
-- number there and zero here, below the interval either way
unfoldable pub is_too_soon : ℕ → Option ℕ → Bool
is_too_soon now none = false
is_too_soon now (some last) = ltb (now - last) min_challenge_interval

-- the `try` block of `_challenge`
unfoldable pub made_challenge :
    Result TrustedUnlockError Challenge → Connection → ConnectionResult × Connection
made_challenge (err e) k = authentication_failure k
made_challenge (ok c) k = (respond_with (challenge (as_dict c)), k)

-- the outcomes of `self.core.authenticate(…)`
unfoldable pub authenticated :
    Result AuthenticationError DeviceSession → Connection → ConnectionResult × Connection
authenticated (ok s) k = (
  respond_with (ready s.session_id (ui_message s)),
  record k { session_id = some s.session_id; auth_failures = 0 },
)
authenticated (err (session_limit e)) k =
    (record { responses = error "session_limit" ∷ []; close = true }, k)
authenticated (err not_authorized) k = authentication_failure k

module _ {W : Type 0} where
  abbrev pub with_core : {A B : Type 0} → A × B → Core W → A × B × Core W
  with_core (r, k) c = (r, k, c)

  -- `_challenge`
  unfoldable pub request_challenge :
      ℕ
      → Draw
      → String
      → Option String
      → Connection
      → Core W
      → ConnectionResult × Connection × Core W
  request_challenge now d device (some id) k c =
      (respond_with (error "already_authenticated"), k, c)
  request_challenge now d device none k c =
      if is_too_soon now k.last_challenge_at
      then (respond_with (error "rate_limited"), k, c)
      else (let (r, c') = create_challenge d device c in
          with_core (made_challenge r (record k { last_challenge_at = some now })) c')

  -- `_authenticate`
  unfoldable pub authenticate_connection :
      Config W → Tick → ClientMessage → Connection → Core W → ConnectionResult × Connection × Core W
  authenticate_connection cfg t (hello device challenge_id signature firmware capabilities) k c =
      let answer : SignedChallenge = record {
        challenge_id = challenge_id;
        device_id = device;
        signature = signature;
      } in
      let (r, c') = authenticate cfg t answer firmware capabilities c in
      with_core (authenticated r k) c'
  authenticate_connection cfg t m k c = (respond_with (error "authentication_required"), k, c)

  module _ (cfg : Config W) where
    unfoldable pub process_authenticated :
        Tick → String → ClientMessage → Connection → Core W → ConnectionResult × Connection × Core W
    process_authenticated t id (hello device challenge_id signature firmware capabilities) k c =
        (respond_with (error "already_authenticated"), k, c)
    process_authenticated t id m k c =
        let (responses, c') = handle cfg t id m c in
        (record { responses = responses; close = false }, k, c')

    unfoldable pub process_known :
        Tick
        → Option String
        → ClientMessage
        → Connection
        → Core W
        → ConnectionResult × Connection × Core W
    process_known t none m k c = authenticate_connection cfg t m k c
    process_known t (some id) m k c = process_authenticated t id m k c

    -- after the clock is read
    unfoldable pub process_message :
        ℕ
        → Tick
        → Draw
        → ClientMessage
        → Connection
        → Core W
        → ConnectionResult × Connection × Core W
    process_message now t d (challenge_request device) k c =
        request_challenge now d device k.session_id k c
    process_message now t d m k c = process_known t k.session_id m k c

    -- `process`
    unfoldable pub process : Arrival → Connection → Core W → ConnectionResult × Connection × Core W
    process i k c =
        process_message i.clock i.tick i.draw i.message (record k { last_activity_at = i.clock }) c

  unfoldable pub close_session : Option String → Core W → Core W
  close_session none c = c
  close_session (some id) c = close id c

  -- `close`
  unfoldable pub close_connection : Connection → Core W → Connection × Core W
  close_connection k c = (record k { session_id = none }, close_session k.session_id c)

-- `idle`
unfoldable pub is_idle : ℕ → Connection → Bool
is_idle now k = elim k.session_id [
  | none ↦ leb authentication_timeout (now - k.connected_at)
  | some id ↦ leb session_idle (now - k.last_activity_at)
]
