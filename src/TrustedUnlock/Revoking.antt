-- ===== src/TrustedUnlock/Revoking.antt =====
-- What a revoked device can no longer do.
use pipa_personal_assistant.Prelude.{
  ℕ, ◌≡◌, ◌≢◌, String, Bool, false, Option, none, some, List, [], ◌∷◌, ◌==◌, ok, arith, eq_refl,
  All, ap,
}
use pipa_personal_assistant.Prelude.Dict.{lookup}
use pipa_personal_assistant.Prelude.Dict.Laws.{lookup-insert, lookup-erase}
use pipa_personal_assistant.TrustedUnlock.Data.{Challenge, SignedChallenge, VerifiedAuthorization}
use pipa_personal_assistant.TrustedUnlock.{
  AuthorizationVerifier, prune, authorization, create_challenge, register_device, revoke_device,
  verify_found, verify_response, Call, registers, revokes, creates, verifies_at, step, run,
}
use pipa_personal_assistant.TrustedUnlock.Accepting.{accepted_challenge}

-- The call does not pair the device.
abbrev pub LeavesUnpaired : {Key : Type 0} → String → Call Key → Type 0
LeavesUnpaired device (registers other key) = (other == device) ≡ false
LeavesUnpaired device _ = Unit

module _ {Key : Type 0} (verifies : Key → SignedChallenge → Challenge → Bool) where
  abbrev IsUnpaired : String → AuthorizationVerifier Key → Type 0
  IsUnpaired device v = lookup device v.trusted_devices ≡ none

  found-IsUnpaired :
      (device : String) (now : ℕ) (r : SignedChallenge) (c : Option Challenge)
      (v : AuthorizationVerifier Key)
      → IsUnpaired device v
      → IsUnpaired device (verify_found verifies now r c v).1
  unfolding verify_found prune
  found-IsUnpaired device now r none v h = h
  found-IsUnpaired device now r (some c) v h = ground arith

  step-IsUnpaired :
      (device : String) (v : AuthorizationVerifier Key) (c : Call Key)
      → LeavesUnpaired device c
      → IsUnpaired device v
      → IsUnpaired device (step verifies v c)
  unfolding step register_device revoke_device create_challenge verify_response prune
  step-IsUnpaired device v (registers other key) a h =
      ground (arith, lookup-insert device other key v.trusted_devices)
  step-IsUnpaired device v (revokes other) a h =
      ground (arith, lookup-erase device other v.trusted_devices)
  step-IsUnpaired device v (creates now ttl id drawn other name) a h = ground arith
  step-IsUnpaired device v (verifies_at now r) a h =
      ground (arith, found-IsUnpaired device now r (lookup r.challenge_id v.pending) v h)

  run-IsUnpaired :
      (device : String) (v : AuthorizationVerifier Key) (cs : List (Call Key))
      → All (LeavesUnpaired device) cs
      → IsUnpaired device v
      → IsUnpaired device (run verifies v cs)
  unfolding run
  run-IsUnpaired device v [] a h = h
  run-IsUnpaired device v (c ∷ cs) a h =
      run-IsUnpaired device (step verifies v c) cs a.1 (step-IsUnpaired device v c a.0 h)

  revoked-IsUnpaired :
      (device : String) (v : AuthorizationVerifier Key) → IsUnpaired device (revoke_device device v)
  unfolding revoke_device
  revoked-IsUnpaired device v =
      ground (arith, lookup-erase device device v.trusted_devices, eq_refl device)

  -- After a device is revoked, no response is accepted in its name, whatever calls follow, until
  -- it is registered again: challenges that were already pending for it do not help.
  pub revoked_refused :
      (device : String) (v : AuthorizationVerifier Key) (cs : List (Call Key)) (now : ℕ)
      (r : SignedChallenge) {a : VerifiedAuthorization}
      → All (LeavesUnpaired device) cs
      → (verify_response verifies now r (run verifies (revoke_device device v) cs)).0 ≡ ok a
      → a.device_id ≢ device
  unfolding authorization
  revoked_refused device v cs now r {a} unpaired h same =
      let w = run verifies (revoke_device device v) cs in
      let parts = accepted_challenge verifies now r w h in
      let c = parts.1.0 in
      let trusted = parts.1.2.3.1 in
      let named : a.device_id ≡ c.device_id = ap (λ x. x.device_id) parts.1.3 in
      let gone =
        run-IsUnpaired device (revoke_device device v) cs unpaired (revoked-IsUnpaired device v) in
      ground (arith, trusted, named, gone, same)
