-- ===== src/Secure/Session/Opening.antt =====
-- What `open` accepts: the frame that sealing a payload at the expected sequence makes.
use pipa_personal_assistant.Prelude.{
  ℕ, ◌≤◌, String, true, false, Option, none, some, length, ok, ◌≡◌, ◌≢◌, ◌↔◌, sym, ap, ◌∙◌, arith,
  All, [], eq_iff, eq_refl, Result-cases, inl, inr, subst,
}
use pipa_personal_assistant.Prelude.Int.{pos}
use pipa_personal_assistant.Prelude.Bytes.{Bytes, IsByte}
use pipa_personal_assistant.Json.{Value, int, str, dict, Fields}
use pipa_personal_assistant.Secure.Crypto.{Crypto, IsSound}
use pipa_personal_assistant.Secure.Base64.{encode, decode}
use pipa_personal_assistant.Secure.Base64.RoundTrip.{decode-encode, decode_iff}
use pipa_personal_assistant.Secure.Session.{
  max_record_bytes, max_additional_data_bytes, max_sequence, SecureSession, nonce, header_data,
  equals_version, equals_text, value_at, as_sequence, decode_record, check_frame, check_plaintext,
  opened,
}

as_sequence_ok : (v : Value) {n : ℕ} → as_sequence v ≡ ok n → (v ≡ int (pos n)) × (n ≤ max_sequence)
unfolding as_sequence
as_sequence_ok (int (pos m)) h = ground arith
as_sequence_ok v h = ground arith

equals_text-true : (s : String) (v : Value) → equals_text s v ≡ true → v ≡ str s
unfolding equals_text
equals_text-true s (str t) h = ap str ((eq_iff t s).0 h)
equals_text-true s v h = ground arith

decode_record_ok :
    (v : Value) {bs : Bytes} → decode_record v ≡ ok bs → (v ≡ str (encode bs)) × All IsByte bs
unfolding decode_record
decode_record_ok (str s) {bs} h = elim (Result-cases (decode s)) [
  | inl (cs, e) ↦
      let same : cs ≡ bs = ground (arith, e) in
      let both = (decode_iff s cs).0 e in
      (ap str (both.0 ∙ ap encode same), subst (All IsByte) same both.1)
  | inr (x, e) ↦ absurd (ground (arith, e))
]
decode_record_ok v h = ground arith

module _ (c : Crypto) where
  -- The bytes that encrypting `p` at the receiver's position makes.
  abbrev pub expected : Bytes → Bytes → SecureSession → Bytes
  expected p additional_data s =
      c.encrypt s.receive_key (nonce s.receive_nonce_prefix s.receive_sequence) p
        (header_data s.session_id s.receive_sequence additional_data)

  -- The frame carries `p` at the receiver's position, and both are within the limits.
  pub record IsNext (f : Fields) (additional_data : Bytes) (s : SecureSession) (p : Bytes)
      : Type 0 where
    pub version : equals_version (value_at "protocol_version" f) ≡ true
    pub session : value_at "session_id" f ≡ str s.session_id
    pub position : value_at "sequence" f ≡ int (pos s.receive_sequence)
    pub ciphertext : value_at "ciphertext" f ≡ str (encode (expected p additional_data s))
    pub bytes : All IsByte p
    pub short : length p ≤ max_record_bytes
    pub bounded : length additional_data ≤ max_additional_data_bytes
    pub fits : s.receive_sequence ≤ max_sequence

  -- what `check_frame` has seen of a frame that it lets pass
  checked_frame :
      (f : Fields) (a : Bytes) (s : SecureSession) {t : Bytes}
      → check_frame f a s ≡ ok t
      → (equals_version (value_at "protocol_version" f) ≡ true)
        × (equals_text s.session_id (value_at "session_id" f) ≡ true)
        × (as_sequence (value_at "sequence" f) ≡ ok s.receive_sequence)
        × (decode_record (value_at "ciphertext" f) ≡ ok t)
        × (length a ≤ max_additional_data_bytes)
  unfolding check_frame
  checked_frame f a s h = ground arith

  plaintext_ok :
      (o : Option Bytes) {p : Bytes}
      → check_plaintext o ≡ ok p
      → (o ≡ some p) × (length p ≤ max_record_bytes)
  unfolding check_plaintext
  plaintext_ok none h = cc
  plaintext_ok (some q) {p} h = ground arith

  module _ (sound : IsSound c) where
    accepted :
        (f : Fields) (a : Bytes) (s : SecureSession) (p : Bytes)
        → opened c (dict f) a s ≡ ok p
        → (s.closed ≡ false) × IsNext f a s p
    unfolding opened
    accepted f a s p h = elim (Result-cases (check_frame f a s)) [
      | inr (x, e) ↦ absurd (ground (arith, e))
      | inl (t, e) ↦
          let d =
            c.decrypt s.receive_key (nonce s.receive_nonce_prefix s.receive_sequence) t
              (header_data s.session_id s.receive_sequence a) in
          let parts : (s.closed ≡ false) × (check_plaintext d ≡ ok p) = ground (arith, e) in
          let plain = plaintext_ok d parts.1 in
          let seen = checked_frame f a s e in
          let place = as_sequence_ok _ seen.2 in
          let coded = decode_record_ok _ seen.3 in
          let made : expected p a s ≡ t = sound.encrypt-decrypt s.receive_key _ t _ p plain.0 in
          (
            parts.0,
            record {
              version = seen.0;
              session = equals_text-true s.session_id _ seen.1;
              position = place.0;
              ciphertext = coded.0 ∙ ap (λ (x : Bytes). str (encode x)) (sym made);
              bytes = sound.decrypt-bytes s.receive_key _ t _ p coded.1 plain.0;
              short = plain.1;
              bounded = seen.4;
              fits = place.1;
            },
          )
    ]

    expected-ne-nil : (p a : Bytes) (s : SecureSession) → expected p a s ≢ []
    expected-ne-nil p a s e = omega (arith, sound.encrypt-length s.receive_key _ p _, ap length e)

    decode_record-expected :
        (p a : Bytes) (s : SecureSession)
        → All IsByte p
        → decode_record (str (encode (expected p a s))) ≡ ok (expected p a s)
    unfolding decode_record
    decode_record-expected p a s b =
        let coded : decode (encode (expected p a s)) ≡ ok (expected p a s) =
          decode-encode (expected p a s) (sound.encrypt-bytes _ _ p _ b) (expected-ne-nil p a s) in
        rw (coded, decode_record)

    frame_checked :
        (f : Fields) (a : Bytes) (s : SecureSession) (p : Bytes)
        → IsNext f a s p
        → check_frame f a s ≡ ok (expected p a s)
    unfolding check_frame equals_text as_sequence
    frame_checked f a s p n =
        let coded : decode_record (value_at "ciphertext" f) ≡ ok (expected p a s) =
          ap decode_record n.ciphertext ∙ decode_record-expected p a s n.bytes in
        rw (n.version, n.session, n.position, check_frame)
          (ground (
            arith,
            coded,
            eq_refl s.session_id,
            sound.encrypt-length s.receive_key (nonce s.receive_nonce_prefix s.receive_sequence) p
                (header_data s.session_id s.receive_sequence a),
            n.short,
            n.bounded,
            n.fits,
          ))

    -- An open session accepts a frame as `p` exactly when the frame carries the encryption of `p`
    -- at the position that the session expects, under its keys and its own session id, and is
    -- within the limits: no other sequence, session, text or spelling is accepted, and each frame
    -- that a peer can have made is.
    pub opened_iff :
        (f : Fields) (a : Bytes) (s : SecureSession) (p : Bytes)
        → (opened c (dict f) a s ≡ ok p) ↔ ((s.closed ≡ false) × IsNext f a s p)
    unfolding opened check_plaintext
    opened_iff f a s p = (
      accepted f a s p,
      λ h. ground (
        arith,
        h.0,
        frame_checked f a s p h.1,
        sound.decrypt-encrypt s.receive_key (nonce s.receive_nonce_prefix s.receive_sequence) p
            (header_data s.session_id s.receive_sequence a),
        h.1.short,
      ),
    )
