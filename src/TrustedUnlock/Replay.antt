-- ===== src/TrustedUnlock/Replay.antt =====
-- An accepted challenge is not accepted again.
use pipa_personal_assistant.Prelude.{
  ℕ, ◌≡◌, String, Bool, false, Option, none, some, List, [], ◌∷◌, ◌==◌, ok, err, arith, eq_refl,
  All, Bool-cases, inl, inr, ◌⊎◌,
}
use pipa_personal_assistant.Prelude.Dict.{lookup, has_key, erase, Unique}
use pipa_personal_assistant.Prelude.Dict.Laws.{
  lookup-insert, lookup-erase, lookup-drop_where, lookup-Each, erase-Unique,
}
use pipa_personal_assistant.TrustedUnlock.Data.{
  Challenge, SignedChallenge, VerifiedAuthorization, replay_detected, unknown_challenge, is_expired,
  new_challenge,
}
use pipa_personal_assistant.TrustedUnlock.{
  AuthorizationVerifier, prune, create_challenge, register_device, revoke_device, verify_found,
  verify_response, Call, registers, revokes, creates, verifies_at, step, run,
}
use pipa_personal_assistant.TrustedUnlock.Accepting.{verify_response-found, verify_found-ok}
use pipa_personal_assistant.TrustedUnlock.Bounds.{Inv, IsChallenge, step-Inv, verify_response-Inv}

-- The call does not draw the identifier.
abbrev pub Avoids : {Key : Type 0} → String → Call Key → Type 0
Avoids id (creates now ttl drawn nonce device name) = (drawn == id) ≡ false
Avoids id _ = Unit

module _ {Key : Type 0} where
  -- The challenge is not pending.
  abbrev pub IsGone : String → AuthorizationVerifier Key → Type 0
  IsGone id v = lookup id v.pending ≡ none

  prune-IsGone :
      (now : ℕ) (id : String) (v : AuthorizationVerifier Key)
      → Unique v.pending
      → IsGone id v
      → IsGone id (prune now v)
  unfolding prune
  prune-IsGone now id v u h = ground (arith, lookup-drop_where id (is_expired now) v.pending u)

  erase-IsGone :
      (id j : String) (v : AuthorizationVerifier Key)
      → IsGone id v
      → lookup id (erase j v.pending) ≡ none
  erase-IsGone id j v h = ground (arith, lookup-erase id j v.pending)

  create-IsGone :
      (now ttl : ℕ) (id drawn nonce device name : String) (v : AuthorizationVerifier Key)
      → (drawn == id) ≡ false
      → Unique v.pending
      → IsGone id v
      → IsGone id (create_challenge now ttl drawn nonce device name v).1
  unfolding create_challenge new_challenge
  create-IsGone now ttl id drawn nonce device name v a u h = ground (
    arith,
    lookup-insert id drawn (new_challenge now ttl drawn nonce device name) (prune now v).pending,
    prune-IsGone now id v u h,
  )

module _ {Key : Type 0} (verifies : Key → SignedChallenge → Challenge → Bool) where
  found-IsGone :
      (now : ℕ) (id : String) (r : SignedChallenge) (c : Option Challenge)
      (v : AuthorizationVerifier Key)
      → Unique v.pending
      → IsGone id v
      → IsGone id (verify_found verifies now r c v).1
  unfolding verify_found
  found-IsGone now id r none v u h = prune-IsGone now id v u h
  found-IsGone now id r (some c) v u h =
      let w : AuthorizationVerifier Key = record v { pending = erase c.challenge_id v.pending } in
      ground (
        arith,
        prune-IsGone now id w (erase-Unique c.challenge_id v.pending u)
            (erase-IsGone id c.challenge_id v h),
        prune-IsGone now id v u h,
        lookup-erase id c.challenge_id (prune now v).pending,
      )

  step-IsGone :
      (id : String) (v : AuthorizationVerifier Key) (c : Call Key)
      → Avoids id c
      → Unique v.pending
      → IsGone id v
      → IsGone id (step verifies v c)
  unfolding step register_device revoke_device verify_response
  step-IsGone id v (registers device key) a u h = ground arith
  step-IsGone id v (revokes device) a u h = h
  step-IsGone id v (creates now ttl drawn nonce device name) a u h =
      create-IsGone now ttl id drawn nonce device name v a u h
  step-IsGone id v (verifies_at now r) a u h =
      ground (arith, found-IsGone now id r (lookup r.challenge_id v.pending) v u h)

  run-IsGone :
      (id : String) (v : AuthorizationVerifier Key) (cs : List (Call Key))
      → Inv v
      → All (Avoids id) cs
      → IsGone id v
      → IsGone id (run verifies v cs)
  unfolding run
  run-IsGone id v [] i a h = h
  run-IsGone id v (c ∷ cs) i a h =
      run-IsGone id (step verifies v c) cs (step-Inv verifies v c i) a.1
        (step-IsGone id v c a.0 i.unique h)

  accepted-IsGone :
      (now : ℕ) (r : SignedChallenge) (v : AuthorizationVerifier Key) {a : VerifiedAuthorization}
      → Inv v
      → (verify_response verifies now r v).0 ≡ ok a
      → IsGone r.challenge_id (verify_response verifies now r v).1
  unfolding verify_response verify_found
  accepted-IsGone now r v i h =
      let parts = verify_response-found verifies now r v h in
      let c = parts.1.0 in
      let found = verify_found-ok verifies now r c v parts.1.2 in
      let filed =
        (lookup-Each IsChallenge r.challenge_id c v.pending i.challenges parts.1.1).filed in
      ground (
        arith,
        parts.0,
        parts.1.1,
        found.0,
        found.1,
        filed,
        eq_refl r.challenge_id,
        lookup-erase r.challenge_id c.challenge_id (prune now v).pending,
      )

  gone_refused :
      (now : ℕ) (r : SignedChallenge) (v : AuthorizationVerifier Key)
      → IsGone r.challenge_id v
      → ((verify_response verifies now r v).0 ≡ err replay_detected)
        ⊎ ((verify_response verifies now r v).0 ≡ err unknown_challenge)
  unfolding verify_response verify_found
  gone_refused now r v h = elim (Bool-cases (has_key r.challenge_id v.consumed)) [
    | inl e ↦ inl (simp e)
    | inr e ↦ inr (simp (e, h))
  ]

  -- Once a valid verifier has accepted a response, every later response to the same challenge is
  -- refused as a replay or as unknown, whoever sends it and whatever calls came in between, also
  -- when the memory of accepted challenges has dropped it, as long as the random source does not
  -- draw its identifier again.
  pub accepted_once :
      (now later : ℕ) (r again : SignedChallenge) (v : AuthorizationVerifier Key)
      (cs : List (Call Key)) {a : VerifiedAuthorization}
      → Inv v
      → (verify_response verifies now r v).0 ≡ ok a
      → again.challenge_id ≡ r.challenge_id
      → All (Avoids r.challenge_id) cs
      → ((verify_response verifies later again
            (run verifies (verify_response verifies now r v).1 cs)).0
          ≡ err replay_detected)
        ⊎ ((verify_response verifies later again
              (run verifies (verify_response verifies now r v).1 cs)).0
            ≡ err unknown_challenge)
  accepted_once now later r again v cs i h same a =
      let w = (verify_response verifies now r v).1 in
      let gone =
        run-IsGone r.challenge_id w cs (verify_response-Inv verifies now r v i) a
          (accepted-IsGone now r v i h) in
      gone_refused later again (run verifies w cs) (rw same gone)
