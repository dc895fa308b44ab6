-- ===== src/Secure/Handshake/Agreement.antt =====
-- What the client can rely on when its handshake completes.
use pipa_personal_assistant.Prelude.{
  ◌≡◌, refl, sym, ap, ◌∙◌, String, true, Option, Result, ok, arith, Result-cases, inl, inr, eq_iff,
  subst,
}
use pipa_personal_assistant.Prelude.Bytes.{Bytes}
use pipa_personal_assistant.Secure.Crypto.{Crypto, IsSound}
use pipa_personal_assistant.Secure.Base64.{encode, decode_sized}
use pipa_personal_assistant.Secure.Canonical.{canonical}
use pipa_personal_assistant.Secure.Session.{SecureSession}
use pipa_personal_assistant.Secure.Hello.{
  HandshakeError, bad_server_signature, ClientHello, ServerHello, check_server_hello,
  server_signature_data, transcript_entries,
}
use pipa_personal_assistant.Secure.Handshake.{
  SecureIdentity, transcript_hash, client, server, derive_session, check_signature,
  new_server_hello, signed_server_hello, create_server_hello, complete_client_handshake,
}
use pipa_personal_assistant.Secure.Handshake.Transcript.{
  SameTranscript, signature_data-SameTranscript,
}
use pipa_personal_assistant.Secure.Handshake.Mirror.{IsMirror, derived_mirror}

-- The answer is to this hello.
pub record IsAnswerTo (h : ClientHello) (answer : ServerHello) : Type 0 where
  pub session : answer.session_id ≡ h.session_id
  pub client_name : answer.client_id ≡ h.client_id
  pub client_key : answer.client_ephemeral_public_key ≡ h.client_ephemeral_public_key
  pub client_draw : answer.client_nonce ≡ h.client_nonce

module _ (c : Crypto) where
  -- An answer that the server has made, for some client hello, and the session that it keeps.
  pub record Made (identity : SecureIdentity c) : Type 0 where
    pub hello : ClientHello
    pub client_key : c.VerifyKey
    pub ephemeral : c.ExchangeKey
    pub drawn : Bytes
    pub answer : ServerHello
    pub session : SecureSession
    pub made :
        create_server_hello c identity hello client_key ephemeral drawn ≡ ok (answer, session)

  -- what `check_signature` has seen
  signature_verified :
      (key : c.VerifyKey) (signature : String) (signed : Bytes) (e : HandshakeError)
      → check_signature c key signature signed e ≡ ok tt
      → (raw : Bytes) × (c.verify key raw signed ≡ true)
  unfolding check_signature
  signature_verified key signature signed e h = elim (Result-cases (decode_sized 64 signature)) [
    | inl (raw, d) ↦ (raw, ground (arith, d))
    | inr (x, d) ↦ absurd (ground (arith, d))
  ]

  -- what a completed handshake has checked
  completed :
      (identity : SecureIdentity c) (h : ClientHello) (a : c.ExchangeKey) (answer : ServerHello)
      (server_key : c.VerifyKey) (expected : Option String) {s : SecureSession}
      → complete_client_handshake c identity h a answer server_key expected ≡ ok s
      → IsAnswerTo h answer
        × (encode (c.public_bytes a) ≡ h.client_ephemeral_public_key)
        × (check_signature c server_key answer.signature
              (server_signature_data answer)
              bad_server_signature
            ≡ ok tt)
        × (derive_session c client answer.session_id h.client_ephemeral_public_key a
              answer.server_ephemeral_public_key
              (transcript_hash c answer)
            ≡ ok s)
  unfolding complete_client_handshake
  completed identity h a answer server_key expected e = ground (
    arith,
    eq_iff answer.session_id h.session_id,
    eq_iff answer.client_id h.client_id,
    eq_iff answer.client_nonce h.client_nonce,
    eq_iff answer.client_ephemeral_public_key h.client_ephemeral_public_key,
    eq_iff (encode (c.public_bytes a)) h.client_ephemeral_public_key,
  )

  abbrev derive_for :
      ServerHello → ClientHello → c.ExchangeKey → Result HandshakeError SecureSession
  derive_for answer h b =
      derive_session c server answer.session_id h.client_ephemeral_public_key b
        answer.server_ephemeral_public_key (transcript_hash c answer)

  made_parts :
      (identity : SecureIdentity c) (h : ClientHello) (key : c.VerifyKey) (b : c.ExchangeKey)
      (drawn : Bytes) {answer : ServerHello} {s : SecureSession}
      → create_server_hello c identity h key b drawn ≡ ok (answer, s)
      → (check_server_hello (signed_server_hello c identity h b drawn) ≡ ok tt)
        × (derive_for (signed_server_hello c identity h b drawn) h b ≡ ok s)
        × (signed_server_hello c identity h b drawn ≡ answer)
  unfolding create_server_hello
  made_parts identity h key b drawn e =
      elim (Result-cases (derive_for (signed_server_hello c identity h b drawn) h b)) [
        | inl (t, d) ↦ ground (arith, d)
        | inr (x, d) ↦ absurd (ground (arith, d))
      ]

  -- what the server has done to make an answer
  made_answer :
      (identity : SecureIdentity c) (m : Made identity)
      → (check_server_hello m.answer ≡ ok tt)
        × (derive_for m.answer m.hello m.ephemeral ≡ ok m.session)
        × (m.answer.client_ephemeral_public_key ≡ m.hello.client_ephemeral_public_key)
        × (m.answer.server_ephemeral_public_key ≡ encode (c.public_bytes m.ephemeral))
  unfolding new_server_hello
  made_answer identity m =
      let parts = made_parts identity m.hello m.client_key m.ephemeral m.drawn m.made in
      subst
        (λ x.
          (check_server_hello x ≡ ok tt)
          × (derive_for x m.hello m.ephemeral ≡ ok m.session)
          × (x.client_ephemeral_public_key ≡ m.hello.client_ephemeral_public_key)
          × (x.server_ephemeral_public_key ≡ encode (c.public_bytes m.ephemeral)))
        parts.2 (parts.0, parts.1, refl, refl)

  transcript_hash-SameTranscript :
      (g h : ServerHello) → SameTranscript g h → transcript_hash c g ≡ transcript_hash c h
  unfolding transcript_hash transcript_entries
  transcript_hash-SameTranscript g h v =
      ap (λ es. c.sha256 (canonical es))
        (cc (
          v.session, v.client_name, v.server_name, v.client_key, v.client_draw, v.server_key,
          v.server_draw, v.version,
        ))

  -- If the client's handshake completes, and the server's key verifies no signature on the answer's
  -- bytes but those that the server made for some answer, then the answer is to the client's own
  -- hello (session, identity, key and nonce), and the server has made an answer with the
  -- same session, identities, keys and nonces, and the two sessions are mirrored: each end receives
  -- under the key and the nonce prefix that the other sends with, and neither has sent anything.
  pub handshake_agreement :
      (sound : IsSound c) (identity pinned : SecureIdentity c) (h : ClientHello) (a : c.ExchangeKey)
      (answer : ServerHello) (expected : Option String) {s : SecureSession}
      → check_server_hello answer ≡ ok tt
      → complete_client_handshake c identity h a answer (c.verify_key pinned.private_key) expected
        ≡ ok s
      → ((raw : Bytes)
          → c.verify (c.verify_key pinned.private_key) raw (server_signature_data answer) ≡ true
          → (m : Made pinned) × (server_signature_data m.answer ≡ server_signature_data answer))
      → IsAnswerTo h answer
        × ((m : Made pinned) × SameTranscript m.answer answer × IsMirror s m.session)
  handshake_agreement sound identity pinned h a answer expected {s} well_formed done honest =
      let client_side =
        completed identity h a answer (c.verify_key pinned.private_key) expected done in
      let signed =
        signature_verified (c.verify_key pinned.private_key) answer.signature
          (server_signature_data answer) bad_server_signature client_side.2 in
      let by_server = honest signed.0 signed.1 in
      let m = by_server.0 in
      let server_side = made_answer pinned m in
      let same =
        signature_data-SameTranscript m.answer answer server_side.0 well_formed by_server.1 in
      let hash = transcript_hash-SameTranscript m.answer answer same in
      let client_key : h.client_ephemeral_public_key ≡ encode (c.public_bytes a) =
        sym client_side.1 in
      let peer_key : m.hello.client_ephemeral_public_key ≡ h.client_ephemeral_public_key =
        sym server_side.2 ∙ same.client_key ∙ client_side.0.client_key in
      let derived : derive_session c server answer.session_id h.client_ephemeral_public_key
            m.ephemeral answer.server_ephemeral_public_key (transcript_hash c answer)
          ≡ ok m.session =
        cc (server_side.1, hash, peer_key, same.session, same.server_key) in
      (
        client_side.0,
        (
          m,
          same,
          derived_mirror c sound answer.session_id a m.ephemeral h.client_ephemeral_public_key
              answer.server_ephemeral_public_key (transcript_hash c answer) client_key
              (sym same.server_key ∙ server_side.3) client_side.3 derived,
        ),
      )
