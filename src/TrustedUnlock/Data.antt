-- ===== src/TrustedUnlock/Data.antt =====
-- The challenges of windows-agent/trusted_unlock_protocol.py and their limits.
use pipa_personal_assistant.Prelude.{
  ℕ, ◌+◌, ltb, leb, between, nat_eq, String, Bool, ◌&&◌, ◌||◌, not, ◌==◌, Result, ◌>>◌, require,
}
use pipa_personal_assistant.Prelude.Int.{pos}
use pipa_personal_assistant.Json.{Fields, field, end, str, int}
use pipa_personal_assistant.Prelude.Text.{len, every}

abbrev pub protocol_version : ℕ
protocol_version = 1

abbrev pub default_ttl_seconds : ℕ
default_ttl_seconds = 30

abbrev pub audience : String
audience = "pipa-trusted-unlock"

abbrev pub max_ttl_seconds : ℕ
max_ttl_seconds = 60

abbrev pub max_pending_challenges : ℕ
max_pending_challenges = 256

abbrev pub max_pending_per_device : ℕ
max_pending_per_device = 8

abbrev pub max_consumed_challenges : ℕ
max_consumed_challenges = 4096

-- a constructor for each `raise`
pub data TrustedUnlockError : Type 0 where
  invalid_device_id invalid_operation invalid_ttl : TrustedUnlockError
  unknown_device challenge_limit replay_detected expired_challenge : TrustedUnlockError
  unknown_challenge challenge_mismatch not_yet_issued revoked_device : TrustedUnlockError
  invalid_response : TrustedUnlockError

abbrev is_identifier_character : ℕ → Bool
is_identifier_character c =
    between b'A' b'Z' c
    || between b'a' b'z' c
    || between b'0' b'9' c
    || nat_eq c b'_'
    || nat_eq c b'.'
    || nat_eq c b':'
    || nat_eq c b'-'

-- `_validate_identifier`
unfoldable pub is_identifier : String → Bool
is_identifier s = between 1 128 (len s) && every is_identifier_character s

pub record Challenge : Type 0 where
  pub challenge_id : String
  pub device_id : String
  pub nonce : String
  pub issued_at : ℕ
  pub expires_at : ℕ
  pub operation : String
  pub audience : String
  pub protocol_version : ℕ

-- `as_dict`
unfoldable pub as_dict : Challenge → Fields
as_dict c = field "audience" (str c.audience) (
    field "challenge_id" (str c.challenge_id) (
      field "device_id" (str c.device_id) (
        field "expires_at" (int (pos c.expires_at)) (
          field "issued_at" (int (pos c.issued_at)) (
            field "nonce" (str c.nonce) (
              field "operation" (str c.operation)
                (field "protocol_version" (int (pos c.protocol_version)) end)))))))

pub record SignedChallenge : Type 0 where
  pub challenge_id : String
  pub device_id : String
  pub signature : String

pub record VerifiedAuthorization : Type 0 where
  pub challenge_id : String
  pub device_id : String
  pub operation : String
  pub verified_at : ℕ
  pub expires_at : ℕ

-- `challenge.expires_at <= now`
abbrev pub is_expired : ℕ → Challenge → Bool
is_expired now c = leb c.expires_at now

-- `challenge.device_id == device_id`
abbrev pub is_for : String → Challenge → Bool
is_for device c = c.device_id == device

-- the `Challenge` that `create_challenge` builds; its own checks hold of what is drawn
unfoldable pub new_challenge : ℕ → ℕ → String → String → String → String → Challenge
new_challenge now ttl id drawn device name = record {
  challenge_id = id;
  device_id = device;
  nonce = drawn;
  issued_at = now;
  expires_at = now + ttl;
  operation = name;
  audience = audience;
  protocol_version = protocol_version;
}

-- the checks of `create_challenge` on its arguments
unfoldable pub check_arguments : String → String → ℕ → Result TrustedUnlockError (Unit {0})
check_arguments device name ttl = do
  require (is_identifier device) invalid_device_id
  require (is_identifier name) invalid_operation
  require (not (ltb ttl 1 || ltb max_ttl_seconds ttl)) invalid_ttl
