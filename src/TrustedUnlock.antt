-- ===== src/TrustedUnlock.antt =====
-- windows-agent/trusted_unlock_protocol.py: one-time challenges and the devices that may answer them.
-- A call takes the clock's seconds and what `secrets` draws, in base64url, as arguments. The public
-- keys and the test of an Ed25519 signature belong to the `cryptography` package: the type `Key` and
-- the argument `verifies`. A method returns the verifier beside its result, since a refused call may
-- have pruned before it raises.
pub mod Data
pub mod Accepting
pub mod Bounds
pub mod Replay
pub mod Revoking
use pipa_personal_assistant.Prelude.{
  ℕ, ◌+◌, ltb, leb, between, nat_eq, String, Bool, true, false, ◌&&◌, ◌||◌, not, Option, none, some,
  List, [], ◌∷◌, ◌==◌, if◌then◌else◌, length, Result, ok, err, ◌>>=◌, ◌>>◌, require,
}
use pipa_personal_assistant.Prelude.Dict.{
  Dict, lookup, has_key, insert, erase, drop_where, count_where, drop_oldest,
}
use pipa_personal_assistant.Prelude.Text.{len, every}
use pipa_personal_assistant.TrustedUnlock.Data.{
  protocol_version, audience, max_ttl_seconds, max_pending_challenges, max_pending_per_device,
  max_consumed_challenges, TrustedUnlockError, is_identifier, Challenge, SignedChallenge,
  VerifiedAuthorization, is_expired, is_for, new_challenge, check_arguments, invalid_device_id,
  invalid_operation, invalid_ttl, unknown_device, challenge_limit, replay_detected,
  expired_challenge, unknown_challenge, challenge_mismatch, not_yet_issued, revoked_device,
  invalid_response,
}

pub record AuthorizationVerifier (Key : Type 0) : Type 0 where
  pub trusted_devices : Dict Key
  pub pending : Dict Challenge
  pub consumed : Dict ℕ
  pub clock_skew_seconds : ℕ

module _ {Key : Type 0} where
  -- `_prune`
  unfoldable pub prune : ℕ → AuthorizationVerifier Key → AuthorizationVerifier Key
  prune now v = record v {
    pending = drop_where (is_expired now) v.pending;
    consumed = drop_where (λ expires. leb expires now) v.consumed;
  }

  -- `register_device`, on a key of the right class
  unfoldable pub register_device :
      String
      → Key
      → AuthorizationVerifier Key
      → Result TrustedUnlockError (Unit {0}) × AuthorizationVerifier Key
  register_device device key v =
      if is_identifier device
      then (ok tt, record v { trusted_devices = insert device key v.trusted_devices })
      else (err invalid_device_id, v)

  unfoldable pub revoke_device : String → AuthorizationVerifier Key → AuthorizationVerifier Key
  revoke_device device v = record v { trusted_devices = erase device v.trusted_devices }

  -- the checks under the lock, after the prune
  unfoldable pub check_limits :
      String → AuthorizationVerifier Key → Result TrustedUnlockError (Unit {0})
  check_limits device v = do
    require (has_key device v.trusted_devices) unknown_device
    require
        (not (
          leb max_pending_challenges (length v.pending)
          || leb max_pending_per_device (count_where (is_for device) v.pending)))
        challenge_limit

  abbrev pub add_challenge :
      AuthorizationVerifier Key
      → Challenge
      → Result TrustedUnlockError (Unit {0})
      → Result TrustedUnlockError Challenge × AuthorizationVerifier Key
  add_challenge v c (ok _) = (ok c, record v { pending = insert c.challenge_id c v.pending })
  add_challenge v c (err e) = (err e, v)

  abbrev pub create_checked :
      ℕ
      → ℕ
      → String
      → String
      → String
      → String
      → AuthorizationVerifier Key
      → Result TrustedUnlockError (Unit {0})
      → Result TrustedUnlockError Challenge × AuthorizationVerifier Key
  create_checked now ttl id drawn device name v (ok _) =
      let v' = prune now v in
      add_challenge v' (new_challenge now ttl id drawn device name) (check_limits device v')
  create_checked now ttl id drawn device name v (err e) = (err e, v)

  unfoldable pub create_challenge :
      ℕ
      → ℕ
      → String
      → String
      → String
      → String
      → AuthorizationVerifier Key
      → Result TrustedUnlockError Challenge × AuthorizationVerifier Key
  create_challenge now ttl id drawn device name v =
      create_checked now ttl id drawn device name v (check_arguments device name ttl)

module _ {Key : Type 0} (verifies : Key → SignedChallenge → Challenge → Bool) where
  -- `public_key.verify(…)`, of the key that is still trusted
  unfoldable pub check_signature :
      SignedChallenge → Challenge → Option Key → Result TrustedUnlockError (Unit {0})
  check_signature r c none = err revoked_device
  check_signature r c (some key) = require (verifies key r c) invalid_response

  -- the checks on a challenge that is pending and has not expired
  unfoldable pub check_response :
      ℕ
      → SignedChallenge
      → Challenge
      → AuthorizationVerifier Key
      → Result TrustedUnlockError (Unit {0})
  check_response now r c v = do
    require (r.device_id == c.device_id) challenge_mismatch
    require (not (ltb (now + v.clock_skew_seconds) c.issued_at)) not_yet_issued
    check_signature r c (lookup c.device_id v.trusted_devices)

unfoldable pub authorization : ℕ → Challenge → VerifiedAuthorization
authorization now c = record {
  challenge_id = c.challenge_id;
  device_id = c.device_id;
  operation = c.operation;
  verified_at = now;
  expires_at = c.expires_at;
}

-- `self._consumed[…] = …`, after the oldest has made room
unfoldable pub remember : Challenge → Dict ℕ → Dict ℕ
remember c consumed =
    insert c.challenge_id c.expires_at
      (if leb max_consumed_challenges (length consumed) then drop_oldest consumed else consumed)

module _ {Key : Type 0} where
  abbrev pub accept :
      ℕ
      → Challenge
      → AuthorizationVerifier Key
      → Result TrustedUnlockError (Unit {0})
      → Result TrustedUnlockError VerifiedAuthorization × AuthorizationVerifier Key
  accept now c v (ok _) = (
    ok (authorization now c),
    record v { pending = erase c.challenge_id v.pending; consumed = remember c v.consumed },
  )
  accept now c v (err e) = (err e, v)

module _ {Key : Type 0} (verifies : Key → SignedChallenge → Challenge → Bool) where
  -- `verify_response`, with the challenge that it finds
  unfoldable pub verify_found :
      ℕ
      → SignedChallenge
      → Option Challenge
      → AuthorizationVerifier Key
      → Result TrustedUnlockError VerifiedAuthorization × AuthorizationVerifier Key
  verify_found now r none v = (err unknown_challenge, prune now v)
  verify_found now r (some c) v =
      if is_expired now c
      then (
        err expired_challenge,
        prune now (record v { pending = erase c.challenge_id v.pending }),
      )
      else (let v' = prune now v in accept now c v' (check_response verifies now r c v'))

  unfoldable pub verify_response :
      ℕ
      → SignedChallenge
      → AuthorizationVerifier Key
      → Result TrustedUnlockError VerifiedAuthorization × AuthorizationVerifier Key
  verify_response now r v =
      if has_key r.challenge_id v.consumed
      then (err replay_detected, v)
      else verify_found now r (lookup r.challenge_id v.pending) v

-- A call of the verifier from outside, with what the clock and `secrets` give it.
pub data Call (Key : Type 0) : Type 0 where
  registers : String → Key → Call Key
  revokes : String → Call Key
  creates : ℕ → ℕ → String → String → String → String → Call Key
  verifies_at : ℕ → SignedChallenge → Call Key

module _ {Key : Type 0} (verifies : Key → SignedChallenge → Challenge → Bool) where
  unfoldable pub step : AuthorizationVerifier Key → Call Key → AuthorizationVerifier Key
  step v (registers device key) = (register_device device key v).1
  step v (revokes device) = revoke_device device v
  step v (creates now ttl id drawn device name) =
      (create_challenge now ttl id drawn device name v).1
  step v (verifies_at now r) = (verify_response verifies now r v).1

  unfoldable pub run : AuthorizationVerifier Key → List (Call Key) → AuthorizationVerifier Key
  run v [] = v
  run v (c ∷ cs) = run (step v c) cs
