-- ===== src/Secure/Handshake/Mirror.antt =====
-- The two ends of one exchange get mirrored sessions.
use pipa_personal_assistant.Prelude.{
  ◌≡◌, refl, sym, ap, ◌∙◌, String, false, Option, none, some, ok, err, arith, subst, ◌++◌,
  Result-cases, inl, inr,
}
use pipa_personal_assistant.Prelude.Bytes.{Bytes}
use pipa_personal_assistant.Secure.Crypto.{Crypto, IsSound}
use pipa_personal_assistant.Secure.Base64.{encode, decode_sized}
use pipa_personal_assistant.Secure.Base64.RoundTrip.{decode_sized-encode}
use pipa_personal_assistant.Secure.Session.{SecureSession, new_session}
use pipa_personal_assistant.Secure.Session.Channel.Holding.{IsPeer}
use pipa_personal_assistant.Secure.Hello.{bad_key_material}
use pipa_personal_assistant.Secure.Handshake.{
  Role, client, server, hkdf_info, keyed_session, secure_session_from_shared_secret, shared_secret,
  derive_session,
}

-- A session that was not used yet.
pub record IsFresh (s : SecureSession) : Type 0 where
  pub usable : s.closed ≡ false
  pub nothing_sent : s.send_sequence ≡ 0
  pub nothing_received : s.receive_sequence ≡ 0

-- Each receives what the other sends, and neither was used.
pub record IsMirror (s r : SecureSession) : Type 0 where
  pub to : IsPeer s r
  pub back : IsPeer r s
  pub fresh : IsFresh s
  pub fresh_peer : IsFresh r

new_session_fields :
    (id : String) (sk rk sp rp : Bytes) {s : SecureSession}
    → new_session id sk rk sp rp ≡ some s
    → (s.session_id ≡ id)
      × (s.send_key ≡ sk)
      × (s.receive_key ≡ rk)
      × (s.send_nonce_prefix ≡ sp)
      × (s.receive_nonce_prefix ≡ rp)
      × IsFresh s
unfolding new_session
new_session_fields id sk rk sp rp h = ground arith

new_session_mirror :
    (id : String) (ck sk cp sp : Bytes) {s r : SecureSession}
    → new_session id ck sk cp sp ≡ some s
    → new_session id sk ck sp cp ≡ some r
    → IsMirror s r
new_session_mirror id ck sk cp sp h k =
    let a = new_session_fields id ck sk cp sp h in
    let b = new_session_fields id sk ck sp cp k in
    record {
      to = record { session = cc (a.0, b.0); key = cc (a.1, b.2); prefix = cc (a.3, b.4) };
      back = record { session = cc (a.0, b.0); key = cc (a.2, b.1); prefix = cc (a.4, b.3) };
      fresh = a.5;
      fresh_peer = b.5;
    }

as_session :
    (o : Option SecureSession) {s : SecureSession}
    → elim o [ none ↦ err bad_key_material | some t ↦ ok t ] ≡ ok s
    → o ≡ some s
as_session none h = cc
as_session (some t) h = ground arith

keyed_mirror :
    (id : String) (material : Bytes) {s r : SecureSession}
    → keyed_session client id material ≡ ok s
    → keyed_session server id material ≡ ok r
    → IsMirror s r
unfolding keyed_session
keyed_mirror id material h k = new_session_mirror id _ _ _ _ (as_session _ h) (as_session _ k)

module _ (c : Crypto) (sound : IsSound c) where
  secret_keyed :
      (id : String) (secret hash : Bytes) (role : Role) {s : SecureSession}
      → secure_session_from_shared_secret c id secret hash role ≡ ok s
      → (m : Bytes) × (m ≡ c.hkdf secret hash (hkdf_info ++ hash))
        × (keyed_session role id m ≡ ok s)
  unfolding secure_session_from_shared_secret
  secret_keyed id secret hash role h = (c.hkdf secret hash (hkdf_info ++ hash), refl, ground arith)

  -- What a role takes for the other side's key.
  abbrev peer_key : Role → String → String → String
  peer_key role client_key server_key = elim role [ client ↦ server_key | server ↦ client_key ]

  derived :
      (role : Role) (id client_key server_key : String) (own : c.ExchangeKey) (hash : Bytes)
      {s : SecureSession}
      → derive_session c role id client_key own server_key hash ≡ ok s
      → (secret : Bytes) × (shared_secret c own (peer_key role client_key server_key) ≡ ok secret)
        × (secure_session_from_shared_secret c id secret hash role ≡ ok s)
  unfolding derive_session
  derived role id client_key server_key own hash h =
      elim (Result-cases (shared_secret c own (peer_key role client_key server_key))) [
        | inl (secret, e) ↦ (secret, e, ground (arith, e))
        | inr (x, e) ↦ absurd (ground (arith, e))
      ]

  public_decodes :
      (k : c.ExchangeKey) → decode_sized 32 (encode (c.public_bytes k)) ≡ ok (c.public_bytes k)
  public_decodes k =
      decode_sized-encode 32 (c.public_bytes k) (sound.public-bytes k) (sound.public-length k)
        (omega arith)

  -- Both ends compute one secret, or both fail.
  pub shared_secret_agrees :
      (a b : c.ExchangeKey)
      → shared_secret c a (encode (c.public_bytes b))
        ≡ shared_secret c b (encode (c.public_bytes a))
  unfolding shared_secret
  shared_secret_agrees a b =
      rw (public_decodes a, public_decodes b, sound.exchange-agrees a b, shared_secret)

  pub derived_mirror :
      (id : String) (a b : c.ExchangeKey) (client_key server_key : String) (hash : Bytes)
      {s r : SecureSession}
      → client_key ≡ encode (c.public_bytes a)
      → server_key ≡ encode (c.public_bytes b)
      → derive_session c client id client_key a server_key hash ≡ ok s
      → derive_session c server id client_key b server_key hash ≡ ok r
      → IsMirror s r
  derived_mirror id a b client_key server_key hash {r} ck sk h k =
      let one = derived client id client_key server_key a hash h in
      let two = derived server id client_key server_key b hash k in
      let agree : shared_secret c a server_key ≡ shared_secret c b client_key =
        ap (shared_secret c a) sk ∙ shared_secret_agrees a b ∙ sym (ap (shared_secret c b) ck) in
      let same : two.0 ≡ one.0 = cc (agree, one.1, two.1) in
      let (m, e, f) = secret_keyed id one.0 hash client one.2 in
      let (n, g, i) = secret_keyed id two.0 hash server two.2 in
      let equal : n ≡ m = g ∙ ap (λ (x : Bytes). c.hkdf x hash (hkdf_info ++ hash)) same ∙ sym e in
      keyed_mirror id m f (subst (λ x. keyed_session server id x ≡ ok r) equal i)
