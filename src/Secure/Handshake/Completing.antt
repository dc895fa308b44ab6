-- ===== src/Secure/Handshake/Completing.antt =====
-- An exchange between honest ends completes.
use pipa_personal_assistant.Prelude.{
  ◌++◌, ◌≡◌, refl, sym, ◌∙◌, String, true, false, some, ok, arith, eq_refl, length, All,
}
use pipa_personal_assistant.Prelude.Bytes.{Bytes, IsByte}
use pipa_personal_assistant.Secure.Crypto.{Crypto, IsSound}
use pipa_personal_assistant.Secure.Base64.{encode, decode_sized}
use pipa_personal_assistant.Secure.Base64.RoundTrip.{decode_sized-encode}
use pipa_personal_assistant.Secure.Session.{SecureSession, is_identifier}
use pipa_personal_assistant.Secure.Hello.{
  HandshakeError, ClientHello, ServerHello, decode_field, check_client_hello, check_server_hello,
  bad_client_signature, bad_server_signature, client_entries, client_signature_data, server_entries,
  server_signature_data,
}
use pipa_personal_assistant.Secure.Handshake.{
  SecureIdentity, placeholder_signature, transcript_hash, Role, client, server, is_weak, hkdf_info,
  secure_session_from_shared_secret, shared_secret, derive_session, check_signature,
  new_client_hello, signed_client_hello, create_client_hello, new_server_hello, signed_server_hello,
  create_server_hello, check_expected, complete_client_handshake,
}
use pipa_personal_assistant.Secure.Handshake.Mirror.{IsMirror, derived_mirror, shared_secret_agrees}
use pipa_personal_assistant.Secure.Handshake.Total.{
  keyed_total, decode_field-encode, check_client_total, check_server_total, placeholder_decodes,
}

module _ (c : Crypto) (sound : IsSound c) where
  signature_decodes :
      (k : c.SigningKey) (m : Bytes) → decode_sized 64 (encode (c.sign k m)) ≡ ok (c.sign k m)
  signature_decodes k m =
      decode_sized-encode 64 (c.sign k m) (sound.sign-bytes k m) (sound.sign-length k m)
        (omega arith)

  signature_accepted :
      (k : c.SigningKey) (m : Bytes) (e : HandshakeError)
      → check_signature c (c.verify_key k) (encode (c.sign k m)) m e ≡ ok tt
  unfolding check_signature
  signature_accepted k m e =
      rw (signature_decodes k m, check_signature) (ground (arith, sound.verify-sign k m))

  derive_total :
      (role : Role) (id ck sk : String) (own : c.ExchangeKey) (hash secret : Bytes)
      → is_identifier id ≡ true
      → length hash ≡ 32
      → length secret ≡ 32
      → is_weak secret ≡ false
      → shared_secret c own (elim role [ client ↦ sk | server ↦ ck ]) ≡ ok secret
      → (s : SecureSession) × (derive_session c role id ck own sk hash ≡ ok s)
  unfolding derive_session secure_session_from_shared_secret
  derive_total role id ck sk own hash secret a b d e f =
      let (s, g) =
        keyed_total role id (c.hkdf secret hash (hkdf_info ++ hash))
          (sound.hkdf-length secret hash (hkdf_info ++ hash)) in
      (s, ground (arith, g))

  module _ (identity pinned : SecureIdentity c) (session : String) (a b : c.ExchangeKey)
      (client_draw server_draw secret : Bytes)
      (client_named : is_identifier identity.identity_id ≡ true)
      (server_named : is_identifier pinned.identity_id ≡ true)
      (session_named : is_identifier session ≡ true) (client_bytes : All IsByte client_draw)
      (client_length : length client_draw ≡ 32) (server_bytes : All IsByte server_draw)
      (server_length : length server_draw ≡ 32)
      (exchanged : c.exchange a (c.public_bytes b) ≡ some secret)
      (strong : is_weak secret ≡ false) where
    abbrev hello : ClientHello
    hello = signed_client_hello c identity session a client_draw

    abbrev client_signature : Bytes
    client_signature = c.sign identity.private_key (
        client_signature_data
          (new_client_hello c identity session a client_draw placeholder_signature))

    abbrev answer : ServerHello
    answer = signed_server_hello c pinned hello b server_draw

    public_field :
        (k : c.ExchangeKey) → decode_field 32 (encode (c.public_bytes k)) ≡ ok (c.public_bytes k)
    public_field k =
        decode_field-encode 32 (c.public_bytes k) (sound.public-bytes k) (sound.public-length k)
          (omega arith)

    signature_field :
        (k : c.SigningKey) (m : Bytes) → decode_field 64 (encode (c.sign k m)) ≡ ok (c.sign k m)
    signature_field k m =
        decode_field-encode 64 (c.sign k m) (sound.sign-bytes k m) (sound.sign-length k m)
          (omega arith)

    client_draw_field : decode_field 32 (encode client_draw) ≡ ok client_draw
    client_draw_field = decode_field-encode 32 client_draw client_bytes client_length (omega arith)

    server_draw_field : decode_field 32 (encode server_draw) ≡ ok server_draw
    server_draw_field = decode_field-encode 32 server_draw server_bytes server_length (omega arith)

    hello_checked :
        (signature : String) {raw : Bytes}
        → decode_field 64 signature ≡ ok raw
        → check_client_hello (new_client_hello c identity session a client_draw signature) ≡ ok tt
    unfolding new_client_hello
    hello_checked signature {raw} d =
        check_client_total _ (c.public_bytes a) client_draw raw refl session_named client_named
          (public_field a) client_draw_field d

    hello_created : create_client_hello c identity session a client_draw ≡ ok hello
    unfolding create_client_hello
    hello_created = ground (
      arith,
      client_length,
      session_named,
      hello_checked placeholder_signature placeholder_decodes,
      hello_checked (encode client_signature) (signature_field identity.private_key _),
    )

    answer_checked : check_server_hello answer ≡ ok tt
    unfolding new_server_hello new_client_hello
    answer_checked =
        check_server_total answer (c.public_bytes a) client_draw (c.public_bytes b) server_draw _
          refl session_named client_named server_named (public_field a) client_draw_field
          (public_field b) server_draw_field (signature_field pinned.private_key _)

    secret_length : length secret ≡ 32
    secret_length = sound.exchange-length a (c.public_bytes b) secret exchanged

    client_secret : shared_secret c a (encode (c.public_bytes b)) ≡ ok secret
    unfolding shared_secret
    client_secret = rw (
      decode_sized-encode 32 (c.public_bytes b) (sound.public-bytes b) (sound.public-length b)
          (omega arith),
      exchanged,
      shared_secret,
    )

    server_secret : shared_secret c b (encode (c.public_bytes a)) ≡ ok secret
    server_secret = sym (shared_secret_agrees c sound a b) ∙ client_secret

    hello_accepted :
        check_signature c
          (c.verify_key identity.private_key)
          hello.signature
          (client_signature_data hello)
          bad_client_signature
        ≡ ok tt
    unfolding new_client_hello client_signature_data client_entries
    hello_accepted = signature_accepted identity.private_key _ bad_client_signature

    answer_accepted :
        check_signature c
          (c.verify_key pinned.private_key)
          answer.signature
          (server_signature_data answer)
          bad_server_signature
        ≡ ok tt
    unfolding new_server_hello server_signature_data server_entries
    answer_accepted = signature_accepted pinned.private_key _ bad_server_signature

    derived :
        (role : Role) (own : c.ExchangeKey)
        → shared_secret c own (elim role [
          | client ↦ answer.server_ephemeral_public_key
          | server ↦ hello.client_ephemeral_public_key
        ])
          ≡ ok secret
        → (s : SecureSession) × (derive_session c role answer.session_id
              hello.client_ephemeral_public_key own answer.server_ephemeral_public_key
              (transcript_hash c answer)
            ≡ ok s)
    unfolding new_server_hello new_client_hello transcript_hash
    derived role own e =
        derive_total role answer.session_id hello.client_ephemeral_public_key
          answer.server_ephemeral_public_key own (transcript_hash c answer) secret session_named
          (sound.sha256-length _) secret_length strong e

    client_derived :
        (s : SecureSession) × (derive_session c client answer.session_id
            hello.client_ephemeral_public_key a answer.server_ephemeral_public_key
            (transcript_hash c answer)
          ≡ ok s)
    unfolding new_server_hello
    client_derived = derived client a client_secret

    server_derived :
        (s : SecureSession) × (derive_session c server answer.session_id
            hello.client_ephemeral_public_key b answer.server_ephemeral_public_key
            (transcript_hash c answer)
          ≡ ok s)
    unfolding new_client_hello
    server_derived = derived server b server_secret

    server_answers :
        create_server_hello c pinned hello (c.verify_key identity.private_key) b server_draw
        ≡ ok (answer, server_derived.0)
    unfolding create_server_hello
    server_answers = ground (arith, hello_accepted, server_length, answer_checked, server_derived.1)

    -- the names and keys that the client compares
    compared :
        (answer.session_id ≡ session)
        × (answer.client_id ≡ identity.identity_id)
        × (answer.server_id ≡ pinned.identity_id)
        × (answer.client_ephemeral_public_key ≡ encode (c.public_bytes a))
        × (answer.client_nonce ≡ encode client_draw)
        × (hello.session_id ≡ session)
        × (hello.client_id ≡ identity.identity_id)
        × (hello.client_ephemeral_public_key ≡ encode (c.public_bytes a))
        × (hello.client_nonce ≡ encode client_draw)
    unfolding new_server_hello new_client_hello
    compared = (refl, refl, refl, refl, refl, refl, refl, refl, refl)

    client_completes :
        complete_client_handshake c identity hello a answer
          (c.verify_key pinned.private_key)
          (some pinned.identity_id)
        ≡ ok client_derived.0
    unfolding complete_client_handshake check_expected
    client_completes = ground (
      arith,
      answer_accepted,
      client_derived.1,
      server_named,
      compared,
      eq_refl session,
      eq_refl identity.identity_id,
      eq_refl pinned.identity_id,
      eq_refl (encode (c.public_bytes a)),
      eq_refl (encode client_draw),
    )

    -- Two identities with valid names, which know each other's keys, get mirrored sessions from
    -- their exchange: for draws of 32 bytes and a shared secret that is not all zeroes, the client's
    -- hello is made, the server accepts it and answers, the client accepts the answer, and each end
    -- receives under the key and the nonce prefix that the other sends with.
    pub handshake_completes :
        (s r : SecureSession) × (create_client_hello c identity session a client_draw ≡ ok hello)
        × (create_server_hello c pinned hello (c.verify_key identity.private_key) b server_draw
            ≡ ok (answer, r))
        × (complete_client_handshake c identity hello a answer
              (c.verify_key pinned.private_key)
              (some pinned.identity_id)
            ≡ ok s)
        × IsMirror s r
    unfolding new_server_hello new_client_hello
    handshake_completes = (
      client_derived.0,
      server_derived.0,
      hello_created,
      server_answers,
      client_completes,
      derived_mirror c sound answer.session_id a b hello.client_ephemeral_public_key
          answer.server_ephemeral_public_key (transcript_hash c answer) refl refl client_derived.1
          server_derived.1,
    )
