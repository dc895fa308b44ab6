-- ===== src/TrustedUnlock/Accepting.antt =====
-- Which responses the verifier accepts.
use pipa_personal_assistant.Prelude.{
  ap, sym, ◌∙◌, ◌↔◌, ℕ, ◌+◌, ◌≤◌, ◌<◌, ◌≡◌, refl, Bool, true, false, Option, none, some, ok, err,
  arith, Bool-cases, Option-cases, Result, inl, inr, eq_iff,
}
use pipa_personal_assistant.Prelude.Dict.{lookup}
use pipa_personal_assistant.TrustedUnlock.Data.{
  Challenge, SignedChallenge, VerifiedAuthorization, TrustedUnlockError, is_expired,
}
use pipa_personal_assistant.TrustedUnlock.{
  AuthorizationVerifier, prune, authorization, check_signature, check_response, accept,
  verify_found, verify_response,
}

module _ {Key : Type 0} (verifies : Key → SignedChallenge → Challenge → Bool) where
  -- The response answers the challenge: from its device, in its time, with the signature of the
  -- key that the device has now.
  abbrev pub Answers : ℕ → SignedChallenge → Challenge → AuthorizationVerifier Key → Type 0
  Answers now r c v =
      (r.device_id ≡ c.device_id)
      × (c.issued_at ≤ now + v.clock_skew_seconds)
      × (now < c.expires_at)
      × ((key : Key) × (lookup c.device_id v.trusted_devices ≡ some key)
          × (verifies key r c ≡ true))

  signed :
      (r : SignedChallenge) (c : Challenge) (key : Option Key)
      → check_signature verifies r c key ≡ ok tt
      → (k : Key) × (key ≡ some k) × (verifies k r c ≡ true)
  unfolding check_signature
  signed r c none h = cc
  signed r c (some k) h = (k, refl, ground arith)

  checked :
      (now : ℕ) (r : SignedChallenge) (c : Challenge) (v : AuthorizationVerifier Key)
      → check_response verifies now r c v ≡ ok tt
      → (r.device_id ≡ c.device_id)
        × (c.issued_at ≤ now + v.clock_skew_seconds)
        × (check_signature verifies r c (lookup c.device_id v.trusted_devices) ≡ ok tt)
  unfolding check_response
  checked now r c v h = ground (arith, eq_iff r.device_id c.device_id)

  answered :
      (now : ℕ) (r : SignedChallenge) (c : Challenge) (v : AuthorizationVerifier Key)
      → Answers now r c v
      → check_response verifies now r c v ≡ ok tt
  unfolding check_response check_signature
  answered now r c v a =
      let trusted = a.3.1 in let signature = a.3.2 in ground (arith, eq_iff r.device_id c.device_id)

  accepted_when_checked :
      (now : ℕ) (c : Challenge) (v : AuthorizationVerifier Key)
      (checks : Result TrustedUnlockError (Unit {0})) {a : VerifiedAuthorization}
      → (accept now c v checks).0 ≡ ok a
      → (checks ≡ ok tt) × (a ≡ authorization now c)
  accepted_when_checked now c v (ok _) h = (refl, ground arith)
  accepted_when_checked now c v (err e) h = cc

  pub verify_found-ok :
      (now : ℕ) (r : SignedChallenge) (c : Challenge) (v : AuthorizationVerifier Key)
      {a : VerifiedAuthorization}
      → (verify_found verifies now r (some c) v).0 ≡ ok a
      → (is_expired now c ≡ false)
        × (check_response verifies now r c (prune now v) ≡ ok tt)
        × (a ≡ authorization now c)
  unfolding verify_found
  verify_found-ok now r c v h = elim (Bool-cases (is_expired now c)) [
    | inl e ↦ absurd (ground (arith, e))
    | inr e ↦
        let parts =
          accepted_when_checked now c (prune now v) (check_response verifies now r c (prune now v))
            (ground (arith, e)) in
        (e, parts.0, parts.1)
  ]

  pub verify_response-found :
      (now : ℕ) (r : SignedChallenge) (v : AuthorizationVerifier Key) {a : VerifiedAuthorization}
      → (verify_response verifies now r v).0 ≡ ok a
      → (lookup r.challenge_id v.consumed ≡ none)
        × ((c : Challenge) × (lookup r.challenge_id v.pending ≡ some c)
            × ((verify_found verifies now r (some c) v).0 ≡ ok a))
  unfolding verify_response verify_found
  verify_response-found now r v h = elim (Option-cases (lookup r.challenge_id v.pending)) [
    | inl e ↦ absurd (ground (arith, e))
    | inr (c, e) ↦ (ground (arith, e), (c, e, ground (arith, e)))
  ]

  pub accepted_challenge :
      (now : ℕ) (r : SignedChallenge) (v : AuthorizationVerifier Key) {a : VerifiedAuthorization}
      → (verify_response verifies now r v).0 ≡ ok a
      → (lookup r.challenge_id v.consumed ≡ none)
        × ((c : Challenge) × (lookup r.challenge_id v.pending ≡ some c)
            × Answers now r c v
            × (a ≡ authorization now c))
  unfolding prune
  accepted_challenge now r v h =
      let parts = verify_response-found now r v h in
      let c = parts.1.0 in
      let e = parts.1.1 in
      let h' = parts.1.2 in
      let found = verify_found-ok now r c v h' in
      let checks = checked now r c (prune now v) found.1 in
      (
        parts.0,
        (
          c,
          e,
          (
            checks.0,
            checks.1,
            ground (arith, found.0),
            signed r c (lookup c.device_id v.trusted_devices) checks.2,
          ),
          found.2,
        ),
      )

  pub verify_response-Answers :
      (now : ℕ) (r : SignedChallenge) (c : Challenge) (v : AuthorizationVerifier Key)
      → lookup r.challenge_id v.consumed ≡ none
      → lookup r.challenge_id v.pending ≡ some c
      → Answers now r c v
      → (verify_response verifies now r v).0 ≡ ok (authorization now c)
  unfolding verify_response verify_found prune
  verify_response-Answers now r c v h e a =
      let checks = answered now r c (prune now v) a in ground (arith, h, e, checks, a.2)

  -- A response is accepted, with authorization `a`, exactly when its challenge has not been consumed
  -- and is pending, it comes from the device of the challenge, at a time neither before the issue
  -- (less the allowed skew) nor at or after the expiry, its signature verifies under the key that
  -- the device has at that moment, and `a` names that challenge, device, operation and time.
  pub accepted_iff :
      (now : ℕ) (r : SignedChallenge) (v : AuthorizationVerifier Key) (a : VerifiedAuthorization)
      → ((verify_response verifies now r v).0 ≡ ok a) ↔ (
          (lookup r.challenge_id v.consumed ≡ none)
          × ((c : Challenge) × (lookup r.challenge_id v.pending ≡ some c)
              × Answers now r c v
              × (a ≡ authorization now c)))
  accepted_iff now r v a = (
    accepted_challenge now r v,
    λ h. verify_response-Answers now r h.1.0 v h.0 h.1.1 h.1.2 ∙ ap ok (sym h.1.3),
  )
