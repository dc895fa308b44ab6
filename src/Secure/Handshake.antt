-- ===== src/Secure/Handshake.antt =====
-- The key exchange of windows-agent/secure_session.py. What `secrets` draws and the ephemeral keys
-- are arguments of the calls.
pub mod Mirror
pub mod Transcript
pub mod Agreement
pub mod Total
pub mod Completing
use pipa_personal_assistant.Prelude.{
  ℕ, ◌+◌, ◌*◌, nat_eq, String, Bool, true, false, ◌&&◌, ◌||◌, not, Option, none, some, List, [],
  ◌∷◌, ◌++◌, ◌==◌, if◌then◌else◌, length, take, drop, any, Result, ok, err, ◌>>=◌, ◌>>◌, require,
}
use pipa_personal_assistant.Prelude.Bytes.{Bytes, codes}
use pipa_personal_assistant.Secure.Crypto.{Crypto}
use pipa_personal_assistant.Secure.Base64.{DecodeError, encode, decode_sized}
use pipa_personal_assistant.Secure.Canonical.{Scalar, text, number, canonical}
use pipa_personal_assistant.Secure.Session.{
  secure_protocol_version, aead_key_bytes, nonce_prefix_bytes, is_identifier, SecureSession,
  new_session,
}
use pipa_personal_assistant.Secure.Hello.{
  nonce_bytes, HandshakeError, ClientHello, ServerHello, decode_field, validate_handshake_fields,
  check_client_hello, check_server_hello, client_entries, client_signature_data, server_entries,
  server_signature_data, transcript_entries, unsupported_version, invalid_session_id,
  invalid_identity_id, wrong_nonce_length, invalid_field, bad_client_signature,
  bad_server_signature, wrong_client, wrong_server, not_bound, transcript_changed,
  wrong_ephemeral_key, exchange_failed, weak_secret, wrong_secret_length, wrong_hash_length,
  bad_key_material,
}

pub data Role : Type 0 where
  client server : Role

abbrev hkdf_info : Bytes
hkdf_info = codes "pipa/secure-session/v2"

-- `any(value)`
abbrev pub is_weak : Bytes → Bool
is_weak secret = not (any (λ b. not (nat_eq b 0)) secret)

-- `"A" * 86`, which stands for the signature in the hello that is signed
abbrev placeholder_signature : String
placeholder_signature =
    "AAAAAAAAAAAAAAAAAAAAAAAAAAAAAAAAAAAAAAAAAAAAAAAAAAAAAAAAAAAAAAAAAAAAAAAAAAAAAAAAAAAAAA"

-- the keys and the nonce prefixes that the material holds
unfoldable pub keyed_session : Role → String → Bytes → Result HandshakeError SecureSession
keyed_session role id material =
    let client_key = take aead_key_bytes material in
    let server_key = take aead_key_bytes (drop aead_key_bytes material) in
    let client_prefix = take nonce_prefix_bytes (drop (aead_key_bytes * 2) material) in
    let server_prefix = drop (aead_key_bytes * 2 + nonce_prefix_bytes) material in
    elim role [
      | client ↦ elim (new_session id client_key server_key client_prefix server_prefix) [
        | none ↦ err bad_key_material
        | some s ↦ ok s
      ]
      | server ↦ elim (new_session id server_key client_key server_prefix client_prefix) [
        | none ↦ err bad_key_material
        | some s ↦ ok s
      ]
    ]

module _ (c : Crypto) where
  -- `SecureIdentity`, whose id was checked when it was made
  pub record SecureIdentity : Type 0 where
    pub identity_id : String
    pub private_key : c.SigningKey

  -- `_transcript_hash`
  unfoldable pub transcript_hash : ServerHello → Bytes
  transcript_hash h = c.sha256 (canonical (transcript_entries h))

  -- `secure_session_from_shared_secret`
  unfoldable pub secure_session_from_shared_secret :
      String → Bytes → Bytes → Role → Result HandshakeError SecureSession
  secure_session_from_shared_secret id secret hash role = do
    require (is_identifier id) invalid_session_id
    require (nat_eq (length secret) 32) wrong_secret_length
    require (nat_eq (length hash) 32) wrong_hash_length
    require (not (is_weak secret)) weak_secret
    keyed_session role id (c.hkdf secret hash (hkdf_info ++ hash))

  -- `own.exchange(…)` with the other side's key, every failure of which is one error
  unfoldable pub shared_secret : c.ExchangeKey → String → Result HandshakeError Bytes
  shared_secret own peer = elim (decode_sized 32 peer) [
    | err _ ↦ err exchange_failed
    | ok raw ↦ elim (c.exchange own raw) [ none ↦ err exchange_failed | some secret ↦ ok secret ]
  ]

  -- `_derive_session`
  unfoldable pub derive_session :
      Role → String → String → c.ExchangeKey → String → Bytes → Result HandshakeError SecureSession
  derive_session role id client_key own server_key hash = do
    secret ← shared_secret own (elim role [ client ↦ server_key | server ↦ client_key ])
    require (not (is_weak secret)) weak_secret
    secure_session_from_shared_secret id secret hash role

  -- the hello of these draws, with a signature
  unfoldable pub new_client_hello :
      SecureIdentity → String → c.ExchangeKey → Bytes → String → ClientHello
  new_client_hello identity session ephemeral drawn signature = record {
    session_id = session;
    client_id = identity.identity_id;
    client_ephemeral_public_key = encode (c.public_bytes ephemeral);
    client_nonce = encode drawn;
    signature = signature;
    protocol_version = secure_protocol_version;
  }

  abbrev pub signed_client_hello : SecureIdentity → String → c.ExchangeKey → Bytes → ClientHello
  signed_client_hello identity session ephemeral drawn =
      new_client_hello identity session ephemeral drawn (
        encode (
          c.sign identity.private_key (
            client_signature_data
              (new_client_hello identity session ephemeral drawn placeholder_signature))))

  -- `create_client_hello`
  unfoldable pub create_client_hello :
      SecureIdentity → String → c.ExchangeKey → Bytes → Result HandshakeError ClientHello
  create_client_hello identity session ephemeral drawn = do
    require (nat_eq (length drawn) nonce_bytes) wrong_nonce_length
    require (is_identifier session) invalid_session_id
    check_client_hello (new_client_hello identity session ephemeral drawn placeholder_signature)
    check_client_hello (signed_client_hello identity session ephemeral drawn)
    ok (signed_client_hello identity session ephemeral drawn)

  -- `key.verify(_decode(signature, …), data)`, every failure of which is one error
  unfoldable pub check_signature :
      c.VerifyKey → String → Bytes → HandshakeError → Result HandshakeError (Unit {0})
  check_signature key signature signed_bytes e = elim (decode_sized 64 signature) [
    | err _ ↦ err e
    | ok raw ↦ require (c.verify key raw signed_bytes) e
  ]

  unfoldable pub new_server_hello :
      SecureIdentity → ClientHello → c.ExchangeKey → Bytes → String → ServerHello
  new_server_hello identity h ephemeral drawn signature = record {
    session_id = h.session_id;
    client_id = h.client_id;
    server_id = identity.identity_id;
    client_ephemeral_public_key = h.client_ephemeral_public_key;
    client_nonce = h.client_nonce;
    server_ephemeral_public_key = encode (c.public_bytes ephemeral);
    server_nonce = encode drawn;
    signature = signature;
    protocol_version = h.protocol_version;
  }

  -- the bytes that are signed do not hold the signature
  abbrev pub signed_server_hello :
      SecureIdentity → ClientHello → c.ExchangeKey → Bytes → ServerHello
  signed_server_hello identity h ephemeral drawn = new_server_hello identity h ephemeral drawn (
      encode (
        c.sign identity.private_key
          (server_signature_data (new_server_hello identity h ephemeral drawn ""))))

  -- `create_server_hello`
  unfoldable pub create_server_hello :
      SecureIdentity
      → ClientHello
      → c.VerifyKey
      → c.ExchangeKey
      → Bytes
      → Result HandshakeError (ServerHello × SecureSession)
  create_server_hello identity h client_key ephemeral drawn = do
    check_signature client_key h.signature (client_signature_data h) bad_client_signature
    require (nat_eq (length drawn) nonce_bytes) wrong_nonce_length
    let answer = signed_server_hello identity h ephemeral drawn
    check_server_hello answer
    session ←
        derive_session server answer.session_id h.client_ephemeral_public_key ephemeral
          answer.server_ephemeral_public_key (transcript_hash answer)
    ok (answer, session)

  -- `expected_server_id is not None`: it is an identifier, and the server's
  unfoldable pub check_expected : Option String → String → Result HandshakeError (Unit {0})
  check_expected none id = ok tt
  check_expected (some expected) id = do
    require (is_identifier expected) invalid_identity_id
    require (id == expected) wrong_server

  -- `complete_client_handshake`
  unfoldable pub complete_client_handshake :
      SecureIdentity
      → ClientHello
      → c.ExchangeKey
      → ServerHello
      → c.VerifyKey
      → Option String
      → Result HandshakeError SecureSession
  complete_client_handshake identity h ephemeral answer server_key expected = do
    require (h.client_id == identity.identity_id) wrong_client
    check_expected expected answer.server_id
    require (answer.session_id == h.session_id && answer.client_id == h.client_id) not_bound
    require
        (answer.client_ephemeral_public_key == h.client_ephemeral_public_key
          && answer.client_nonce == h.client_nonce)
        transcript_changed
    require (encode (c.public_bytes ephemeral) == h.client_ephemeral_public_key) wrong_ephemeral_key
    check_signature server_key answer.signature (server_signature_data answer) bad_server_signature
    derive_session client answer.session_id h.client_ephemeral_public_key ephemeral
        answer.server_ephemeral_public_key (transcript_hash answer)
