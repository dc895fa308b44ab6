-- ===== src/Secure/Server.antt =====
-- `SecureSessionServer` of windows-agent/secure_session_server.py: it accepts the hellos of paired
-- devices. The monotonic clock's seconds, the ephemeral key and the server's nonce are arguments of
-- a call, which returns the server beside its result. A payload is a decoded JSON object whose
-- version, if it is a number, is an integer: the source takes 2.0 for 2, and then signs that text.
pub mod Memory
pub mod Once
use pipa_personal_assistant.Prelude.{
  ℕ, ◌+◌, ◌*◌, ltb, leb, String, Bool, true, false, ◌&&◌, not, Option, none, some, List, [], ◌∷◌,
  ◌==◌, if◌then◌else◌, length, all, contains, Result, ok, err, ◌>>=◌, ◌>>◌, require,
}
use pipa_personal_assistant.Prelude.Int.{pos, negsuc}
use pipa_personal_assistant.Prelude.Bytes.{Bytes}
use pipa_personal_assistant.Prelude.Text.{is_empty}
use pipa_personal_assistant.Prelude.Dict.{Dict, lookup, has_key, insert, drop_oldest}
use pipa_personal_assistant.Json.{Value, int, str, dict, Fields, field_names}
use pipa_personal_assistant.Json.Encode.{encoded_size}
use pipa_personal_assistant.Secure.Crypto.{Crypto}
use pipa_personal_assistant.Secure.Base64.{not_base64url}
use pipa_personal_assistant.Secure.Session.{SecureSession, value_at}
use pipa_personal_assistant.Secure.Hello.{
  HandshakeError, unsupported_version, invalid_session_id, invalid_identity_id, invalid_field,
  ClientHello, ServerHello, check_client_hello,
}
use pipa_personal_assistant.Secure.Handshake.{SecureIdentity, create_server_hello}

abbrev pub max_client_hello_bytes : ℕ
max_client_hello_bytes = 4096

abbrev pub max_used_session_ids : ℕ
max_used_session_ids = 4096

abbrev pub session_id_replay_ttl_seconds : ℕ
session_id_replay_ttl_seconds = 30 * 60

-- a constructor for each `HandshakeError` that `accept_client_hello` raises
pub data AcceptError : Type 0 where
  not_an_object not_json too_large wrong_fields malformed not_paired already_consumed : AcceptError
  refused : HandshakeError → AcceptError

abbrev client_hello_fields : List String
client_hello_fields =
    "client_ephemeral_public_key" ∷ "client_id" ∷ "client_nonce" ∷ "protocol_version" ∷ "session_id"
    ∷ "signature" ∷ []

-- `set(payload) == _CLIENT_HELLO_FIELDS`
unfoldable pub has_hello_fields : Fields → Bool
has_hello_fields f =
    all (λ k. contains k client_hello_fields) (field_names f)
    && all (λ k. contains k (field_names f)) client_hello_fields

abbrev hello_of : ℕ → String → String → String → String → String → ClientHello
hello_of version session name key drawn signature = record {
  session_id = session;
  client_id = name;
  client_ephemeral_public_key = key;
  client_nonce = drawn;
  signature = signature;
  protocol_version = version;
}

unfoldable pub checked_hello : ClientHello → Option ClientHello
checked_hello h = elim (check_client_hello h) [ ok _ ↦ some h | err _ ↦ none ]

-- the texts and the version of a hello; any other value is refused
unfoldable pub hello_of_values : Value → Value → Value → Value → Value → Value → Option ClientHello
unfolding checked_hello
hello_of_values (int (pos n)) (str session) (str name) (str key) (str drawn) (str signature) =
    checked_hello (hello_of n session name key drawn signature)
hello_of_values _ _ _ _ _ _ = none

-- `ClientHello(**dict(payload))`, and its `__post_init__`; every failure is one error to the caller
unfoldable pub as_client_hello : Fields → Option ClientHello
unfolding hello_of_values
as_client_hello f =
    hello_of_values (value_at "protocol_version" f) (value_at "session_id" f)
      (value_at "client_id" f) (value_at "client_ephemeral_public_key" f)
      (value_at "client_nonce" f) (value_at "signature" f)

-- the loop that forgets what was seen half an hour ago, from the oldest on
unfoldable pub forget_expired : ℕ → Dict ℕ → Dict ℕ
forget_expired now [] = []
forget_expired now ((id, seen) ∷ used) =
    let rest = forget_expired now used in
    if ltb now (seen + session_id_replay_ttl_seconds) then (id, seen) ∷ used else rest

-- `self._used_session_ids[session_id] = now`, after the oldest has made room
unfoldable pub remember : String → ℕ → Dict ℕ → Dict ℕ
remember id now used =
    insert id now (if leb max_used_session_ids (length used) then drop_oldest used else used)

-- the checks of `accept_client_hello` on the payload
unfoldable pub check_payload : Value → Result AcceptError ClientHello
check_payload (dict f) = elim (encoded_size (dict f)) [
  | none ↦ err not_json
  | some size ↦
      if ltb max_client_hello_bytes size
      then err too_large
      else if has_hello_fields f
      then elim (as_client_hello f) [ some h ↦ ok h | none ↦ err malformed ]
      else err wrong_fields
]
check_payload _ = err not_an_object

module _ (c : Crypto) where
  pub record SessionServer : Type 0 where
    pub identity : SecureIdentity c
    pub trusted_devices : Dict c.VerifyKey
    pub used_session_ids : Dict ℕ

  -- the test of `_copy_trusted_devices`, on keys of the right class
  unfoldable pub are_named : Dict c.VerifyKey → Bool
  are_named devices = all (λ e. not (is_empty e.0)) devices

  -- `refresh_trusted_devices`; false is its `ValueError`
  unfoldable pub refresh_trusted_devices : Dict c.VerifyKey → SessionServer → Bool × SessionServer
  refresh_trusted_devices devices v =
      if are_named devices then (true, record v { trusted_devices = devices }) else (false, v)

  abbrev pub answer_hello :
      String
      → ℕ
      → SessionServer
      → Result HandshakeError (ServerHello × SecureSession)
      → Result AcceptError (ServerHello × SecureSession) × SessionServer
  answer_hello id now v (ok answer) =
      (ok answer, record v { used_session_ids = remember id now v.used_session_ids })
  answer_hello id now v (err e) = (err (refused e), v)

  -- the hello of a paired device, after the old session ids were forgotten
  unfoldable pub accept_unused :
      ℕ
      → c.ExchangeKey
      → Bytes
      → ClientHello
      → c.VerifyKey
      → SessionServer
      → Result AcceptError (ServerHello × SecureSession) × SessionServer
  accept_unused now ephemeral drawn h key v =
      if has_key h.session_id v.used_session_ids
      then (err already_consumed, v)
      else answer_hello h.session_id now v (create_server_hello c v.identity h key ephemeral drawn)

  unfoldable pub accept_hello :
      ℕ
      → c.ExchangeKey
      → Bytes
      → ClientHello
      → SessionServer
      → Result AcceptError (ServerHello × SecureSession) × SessionServer
  accept_hello now ephemeral drawn h v = elim (lookup h.client_id v.trusted_devices) [
    | none ↦ (err not_paired, v)
    | some key ↦
        accept_unused now ephemeral drawn h key
          (record v { used_session_ids = forget_expired now v.used_session_ids })
  ]

  -- `accept_client_hello`
  unfoldable pub accept_client_hello :
      ℕ
      → c.ExchangeKey
      → Bytes
      → Value
      → SessionServer
      → Result AcceptError (ServerHello × SecureSession) × SessionServer
  accept_client_hello now ephemeral drawn payload v = elim (check_payload payload) [
    | err e ↦ (err e, v)
    | ok h ↦ accept_hello now ephemeral drawn h v
  ]

  -- A call of the server from outside, with what the clock and `secrets` give it.
  pub data Call : Type 0 where
    accepts : ℕ → c.ExchangeKey → Bytes → Value → Call
    refreshes : Dict c.VerifyKey → Call

  unfoldable pub step : SessionServer → Call → SessionServer
  step v (accepts now ephemeral drawn payload) =
      (accept_client_hello now ephemeral drawn payload v).1
  step v (refreshes devices) = (refresh_trusted_devices devices v).1

  unfoldable pub run : SessionServer → List Call → SessionServer
  run v [] = v
  run v (x ∷ xs) = run (step v x) xs
