-- ===== src/Secure/Handshake/Transcript.antt =====
-- The bytes that a server signs determine its hello.
use Prim.Native.Char.{code}
use pipa_personal_assistant.Prelude.{
  ℕ, ◌≡◌, refl, String, Bool, true, not, ok, arith, Result-cases, inl, inr, nat_eq,
}
use pipa_personal_assistant.Prelude.Bytes.{Bytes}
use pipa_personal_assistant.Prelude.Text.{every}
use pipa_personal_assistant.Secure.Base64.{decode_sized}
use pipa_personal_assistant.Secure.Base64.RoundTrip.{decode-plain, decode_sized_ok}
use pipa_personal_assistant.Secure.Canonical.Injective.{is_plain, canonical_injective}
use pipa_personal_assistant.Secure.Session.{
  is_identifier, is_identifier_character, secure_protocol_version,
}
use pipa_personal_assistant.Secure.Hello.{
  ServerHello, decode_field, validate_handshake_fields, check_server_hello, server_entries,
  server_signature_data,
}

every_weaken :
    (p q : ℕ → Bool) (s : String)
    → ((n : ℕ) → p n ≡ true → q n ≡ true)
    → every p s ≡ true
    → every q s ≡ true
unfolding every
every_weaken p q String.[] w h = refl
every_weaken p q (String.◌∷◌ c s) w h =
    let both : (p (code c) ≡ true) × (every p s ≡ true) = ground arith in
    rw (w (code c) both.0) (every_weaken p q s w both.1)

identifier-plain : (s : String) → is_identifier s ≡ true → is_plain s ≡ true
unfolding is_identifier is_plain
identifier-plain s h =
    every_weaken is_identifier_character (λ c. not (nat_eq c b'"')) s (λ n k. ground arith)
      (ground arith)

field-plain : (n : ℕ) (s : String) {bs : Bytes} → decode_field n s ≡ ok bs → is_plain s ≡ true
unfolding decode_field is_plain
field-plain n s h = elim (Result-cases (decode_sized n s)) [
  | inl (cs, e) ↦ decode-plain s (decode_sized_ok n s e).0
  | inr (x, e) ↦ absurd (ground (arith, e))
]

-- The fields of a hello hold no quote, and its version is 2.
record IsPlainHello (h : ServerHello) : Type 0 where
  session : is_plain h.session_id ≡ true
  client_name : is_plain h.client_id ≡ true
  server_name : is_plain h.server_id ≡ true
  client_key : is_plain h.client_ephemeral_public_key ≡ true
  client_draw : is_plain h.client_nonce ≡ true
  server_key : is_plain h.server_ephemeral_public_key ≡ true
  server_draw : is_plain h.server_nonce ≡ true
  version : h.protocol_version ≡ secure_protocol_version

-- what `ServerHello.__post_init__` has seen
checked_fields :
    (h : ServerHello)
    → check_server_hello h ≡ ok tt
    → (h.protocol_version ≡ secure_protocol_version)
      × (is_identifier h.session_id ≡ true)
      × (is_identifier h.client_id ≡ true)
      × (is_identifier h.server_id ≡ true)
      × ((k : Bytes) × (decode_field 32 h.client_ephemeral_public_key ≡ ok k))
      × ((k : Bytes) × (decode_field 32 h.client_nonce ≡ ok k))
      × ((k : Bytes) × (decode_field 32 h.server_ephemeral_public_key ≡ ok k))
      × ((k : Bytes) × (decode_field 32 h.server_nonce ≡ ok k))
unfolding check_server_hello validate_handshake_fields
checked_fields h e = elim (Result-cases (decode_field 32 h.client_ephemeral_public_key)) [
  | inr (x, a) ↦ absurd (ground (arith, a))
  | inl (ck, a) ↦ elim (Result-cases (decode_field 32 h.client_nonce)) [
    | inr (x, b) ↦ absurd (ground (arith, a, b))
    | inl (cn, b) ↦ elim (Result-cases (decode_field 32 h.server_ephemeral_public_key)) [
      | inr (x, d) ↦ absurd (ground (arith, a, b, d))
      | inl (sk, d) ↦ elim (Result-cases (decode_field 32 h.server_nonce)) [
        | inr (x, f) ↦ absurd (ground (arith, a, b, d, f))
        | inl (sn, f) ↦ (
          ground (arith, a, b, d, f),
          ground (arith, a, b, d, f),
          ground (arith, a, b, d, f),
          ground (arith, a, b, d, f),
          (ck, a),
          (cn, b),
          (sk, d),
          (sn, f),
        )
      ]
    ]
  ]
]

checked-IsPlainHello : (h : ServerHello) → check_server_hello h ≡ ok tt → IsPlainHello h
checked-IsPlainHello h e =
    let seen = checked_fields h e in
    record {
      session = identifier-plain _ seen.1;
      client_name = identifier-plain _ seen.2;
      server_name = identifier-plain _ seen.3;
      client_key = field-plain 32 _ seen.4.1;
      client_draw = field-plain 32 _ seen.5.1;
      server_key = field-plain 32 _ seen.6.1;
      server_draw = field-plain 32 _ seen.7.1;
      version = seen.0;
    }

-- All but the signature.
pub record SameTranscript (g h : ServerHello) : Type 0 where
  pub session : g.session_id ≡ h.session_id
  pub client_name : g.client_id ≡ h.client_id
  pub server_name : g.server_id ≡ h.server_id
  pub client_key : g.client_ephemeral_public_key ≡ h.client_ephemeral_public_key
  pub client_draw : g.client_nonce ≡ h.client_nonce
  pub server_key : g.server_ephemeral_public_key ≡ h.server_ephemeral_public_key
  pub server_draw : g.server_nonce ≡ h.server_nonce
  pub version : g.protocol_version ≡ h.protocol_version

entries-SameTranscript :
    (g h : ServerHello) → server_entries g ≡ server_entries h → SameTranscript g h
unfolding server_entries
entries-SameTranscript g h e = record {
  session = cc;
  client_name = cc;
  server_name = cc;
  client_key = cc;
  client_draw = cc;
  server_key = cc;
  server_draw = cc;
  version = cc;
}

-- Hellos that sign the same bytes have the same transcript.
pub signature_data-SameTranscript :
    (g h : ServerHello)
    → check_server_hello g ≡ ok tt
    → check_server_hello h ≡ ok tt
    → server_signature_data g ≡ server_signature_data h
    → SameTranscript g h
unfolding server_signature_data server_entries is_plain
signature_data-SameTranscript g h p q e =
    let a = checked-IsPlainHello g p in
    let b = checked-IsPlainHello h q in
    entries-SameTranscript g h (
      canonical_injective (server_entries g) (server_entries h)
        (
          refl,
          (a.client_key, b.client_key),
          (
            refl,
            (a.client_name, b.client_name),
            (
              refl,
              (a.client_draw, b.client_draw),
              (
                refl,
                cc (a.version, b.version),
                (
                  refl,
                  (refl, refl),
                  (
                    refl,
                    (a.server_key, b.server_key),
                    (
                      refl,
                      (a.server_name, b.server_name),
                      (refl, (a.server_draw, b.server_draw), (refl, (a.session, b.session), tt)),
                    ),
                  ),
                ),
              ),
            ),
          ),
        )
        e)
