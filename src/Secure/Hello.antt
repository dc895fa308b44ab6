-- ===== src/Secure/Hello.antt =====
-- The two messages of the handshake of windows-agent/secure_session.py: their checks, and the bytes
-- that are signed and hashed.
use pipa_personal_assistant.Prelude.{
  ℕ, nat_eq, String, List, [], ◌∷◌, Result, ok, err, ◌>>=◌, ◌>>◌, require,
}
use pipa_personal_assistant.Prelude.Bytes.{Bytes}
use pipa_personal_assistant.Secure.Base64.{DecodeError, decode_sized}
use pipa_personal_assistant.Secure.Canonical.{Scalar, text, number, canonical}
use pipa_personal_assistant.Secure.Session.{secure_protocol_version, is_identifier}

abbrev pub nonce_bytes : ℕ
nonce_bytes = 32

-- a constructor for each `HandshakeError`; `bad_key_material` is the `TypeError` of `SecureSession`
pub data HandshakeError : Type 0 where
  unsupported_version invalid_session_id invalid_identity_id wrong_nonce_length : HandshakeError
  invalid_field : DecodeError → HandshakeError
  bad_client_signature bad_server_signature wrong_client wrong_server not_bound : HandshakeError
  transcript_changed wrong_ephemeral_key exchange_failed weak_secret : HandshakeError
  wrong_secret_length wrong_hash_length bad_key_material : HandshakeError

pub record ClientHello : Type 0 where
  pub session_id : String
  pub client_id : String
  pub client_ephemeral_public_key : String
  pub client_nonce : String
  pub signature : String
  pub protocol_version : ℕ

pub record ServerHello : Type 0 where
  pub session_id : String
  pub client_id : String
  pub server_id : String
  pub client_ephemeral_public_key : String
  pub client_nonce : String
  pub server_ephemeral_public_key : String
  pub server_nonce : String
  pub signature : String
  pub protocol_version : ℕ

-- `_decode(value, …, expected_length=n)` on a field
unfoldable pub decode_field : ℕ → String → Result HandshakeError Bytes
decode_field n s = elim (decode_sized n s) [ ok bs ↦ ok bs | err e ↦ err (invalid_field e) ]

-- `_validate_handshake_fields`
unfoldable pub validate_handshake_fields :
    ℕ → String → String → String → String → Result HandshakeError (Unit {0})
validate_handshake_fields version session client key drawn = do
  require (nat_eq version secure_protocol_version) unsupported_version
  require (is_identifier session) invalid_session_id
  require (is_identifier client) invalid_identity_id
  _ ← decode_field 32 key
  _ ← decode_field 32 drawn
  ok tt

-- `ClientHello.__post_init__`
unfoldable pub check_client_hello : ClientHello → Result HandshakeError (Unit {0})
check_client_hello h = do
  validate_handshake_fields h.protocol_version h.session_id h.client_id
      h.client_ephemeral_public_key h.client_nonce
  _ ← decode_field 64 h.signature
  ok tt

-- `ServerHello.__post_init__`
unfoldable pub check_server_hello : ServerHello → Result HandshakeError (Unit {0})
check_server_hello h = do
  validate_handshake_fields h.protocol_version h.session_id h.client_id
      h.client_ephemeral_public_key h.client_nonce
  require (is_identifier h.server_id) invalid_identity_id
  _ ← decode_field 32 h.server_ephemeral_public_key
  _ ← decode_field 32 h.server_nonce
  _ ← decode_field 64 h.signature
  ok tt

-- `{"role": "client", **hello.unsigned_dict()}`, by its keys in order
unfoldable pub client_entries : ClientHello → List (String × Scalar)
client_entries h =
    ("client_ephemeral_public_key", text h.client_ephemeral_public_key)
    ∷ ("client_id", text h.client_id)
    ∷ ("client_nonce", text h.client_nonce)
    ∷ ("protocol_version", number h.protocol_version)
    ∷ ("role", text "client")
    ∷ ("session_id", text h.session_id)
    ∷ []

-- `_client_signature_data`
unfoldable pub client_signature_data : ClientHello → Bytes
client_signature_data h = canonical (client_entries h)

-- `{"role": "server", **hello.transcript_dict()}`, by its keys in order
unfoldable pub server_entries : ServerHello → List (String × Scalar)
server_entries h =
    ("client_ephemeral_public_key", text h.client_ephemeral_public_key)
    ∷ ("client_id", text h.client_id)
    ∷ ("client_nonce", text h.client_nonce)
    ∷ ("protocol_version", number h.protocol_version)
    ∷ ("role", text "server")
    ∷ ("server_ephemeral_public_key", text h.server_ephemeral_public_key)
    ∷ ("server_id", text h.server_id)
    ∷ ("server_nonce", text h.server_nonce)
    ∷ ("session_id", text h.session_id)
    ∷ []

-- `_server_signature_data`
unfoldable pub server_signature_data : ServerHello → Bytes
server_signature_data h = canonical (server_entries h)

-- `hello.transcript_dict()`, by its keys in order
unfoldable pub transcript_entries : ServerHello → List (String × Scalar)
transcript_entries h =
    ("client_ephemeral_public_key", text h.client_ephemeral_public_key)
    ∷ ("client_id", text h.client_id)
    ∷ ("client_nonce", text h.client_nonce)
    ∷ ("protocol_version", number h.protocol_version)
    ∷ ("server_ephemeral_public_key", text h.server_ephemeral_public_key)
    ∷ ("server_id", text h.server_id)
    ∷ ("server_nonce", text h.server_nonce)
    ∷ ("session_id", text h.session_id)
    ∷ []
