-- ===== src/Secure/Session/Nonces.antt =====
-- No nonce is used twice.
use pipa_personal_assistant.Prelude.{
  ℕ, String, ◌+◌, ◌≤◌, ◌≡◌, ◌≢◌, refl, ap, ◌∙◌, List, [], ◌∷◌, ok, arith,
}
use pipa_personal_assistant.Prelude.Bytes.{Bytes, big_endian_injective, append_cancel}
use pipa_personal_assistant.Json.{Value, Fields}
use pipa_personal_assistant.Secure.Crypto.{Crypto}
use pipa_personal_assistant.Secure.Session.{
  SecureSession, max_sequence, nonce, header_data, frame, check_seal, sealed, seal, open_frame,
  close,
}

-- A call of the session from outside.
pub data Call : Type 0 where
  seals : Bytes → Bytes → Call
  reads : Value → Bytes → Call
  closes : Call

module _ (c : Crypto) where
  unfoldable pub step : SecureSession → Call → SecureSession
  step s (seals p a) = (seal c p a s).1
  step s (reads v a) = (open_frame c v a s).1
  step s closes = close s

  unfoldable pub run : SecureSession → List Call → SecureSession
  run s [] = s
  run s (x ∷ xs) = run (step s x) xs

  -- What the calls keep: the session id, the key, the nonce prefix, and they do not turn the
  -- sequence back.
  record IsLater (s t : SecureSession) : Type 0 where
    session : t.session_id ≡ s.session_id
    key : t.send_key ≡ s.send_key
    prefix : t.send_nonce_prefix ≡ s.send_nonce_prefix
    sequence : s.send_sequence ≤ t.send_sequence

  step-IsLater : (s : SecureSession) (x : Call) → IsLater s (step s x)
  unfolding step seal open_frame close
  step-IsLater s (seals p a) = record {
    session = ground arith;
    key = ground arith;
    prefix = ground arith;
    sequence = ground arith;
  }
  step-IsLater s (reads v a) = record {
    session = ground arith;
    key = ground arith;
    prefix = ground arith;
    sequence = ground arith;
  }
  step-IsLater s closes = record {
    session = refl;
    key = refl;
    prefix = refl;
    sequence = omega arith;
  }

  run-IsLater : (s : SecureSession) (xs : List Call) → IsLater s (run s xs)
  unfolding run
  run-IsLater s [] = record { session = refl; key = refl; prefix = refl; sequence = omega arith }
  run-IsLater s (x ∷ xs) =
      let one = step-IsLater s x in
      let more = run-IsLater (step s x) xs in
      record {
        session = more.session ∙ one.session;
        key = more.key ∙ one.key;
        prefix = more.prefix ∙ one.prefix;
        sequence = omega (arith, one.sequence, more.sequence);
      }

  -- The frame carries what `encrypt` makes of the payload under the key and the nonce.
  abbrev pub IsSealed : Fields → Bytes → Bytes → Bytes → Bytes → Type 0
  IsSealed f key n p a =
      (id : String) × (i : ℕ) × (f ≡ frame id i (c.encrypt key n p (header_data id i a)))

  sealed_at :
      (p a : Bytes) (s : SecureSession) {f : Fields}
      → (seal c p a s).0 ≡ ok f
      → (s.send_sequence ≤ max_sequence)
        × ((seal c p a s).1.send_sequence ≡ s.send_sequence + 1)
        × (f
            ≡ frame s.session_id s.send_sequence (
                c.encrypt s.send_key
                  (nonce s.send_nonce_prefix s.send_sequence)
                  p
                  (header_data s.session_id s.send_sequence a)))
  unfolding seal check_seal sealed
  sealed_at p a s h = ground arith

  -- Two successful `seal`s of one session, with any calls between them, return the encryptions of
  -- their payloads under the one key of the session and under two different nonces.
  pub nonce_once :
      (p a q b : Bytes) (s : SecureSession) (xs : List Call) {f g : Fields}
      → (seal c p a s).0 ≡ ok f
      → (seal c q b (run (seal c p a s).1 xs)).0 ≡ ok g
      → (n : Bytes) × (m : Bytes) × IsSealed f s.send_key n p a
        × IsSealed g s.send_key m q b
        × (n ≢ m)
  unfolding nonce
  nonce_once p a q b s xs {f} {g} h k =
      let t = run (seal c p a s).1 xs in
      let first = sealed_at p a s h in
      let second = sealed_at q b t k in
      let one = step-IsLater s (seals p a) in
      let later = run-IsLater (seal c p a s).1 xs in
      let key : t.send_key ≡ s.send_key = later.key ∙ (unfold step in one.key) in
      (
        nonce s.send_nonce_prefix s.send_sequence,
        nonce t.send_nonce_prefix t.send_sequence,
        (s.session_id, s.send_sequence, first.2),
        (
          t.session_id,
          t.send_sequence,
          second.2
              ∙ ap
                  (λ x. frame t.session_id t.send_sequence (
                    c.encrypt x (nonce t.send_nonce_prefix t.send_sequence) q
                      (header_data t.session_id t.send_sequence b)))
                  key,
        ),
        λ e.
            let same : s.send_sequence ≡ t.send_sequence =
              big_endian_injective 8 s.send_sequence t.send_sequence (omega (arith, first.0))
                (omega (arith, second.0))
                (append_cancel s.send_nonce_prefix (
                  e
                  ∙ ap (λ (x : Bytes). nonce x t.send_sequence)
                      (later.prefix ∙ (unfold step in one.prefix)))) in
            omega (arith, same, first.1, later.sequence),
      )
