-- ===== src/TrustedUnlock/Bounds.antt =====
-- The invariant of the verifier of challenges, and that every call keeps it.
use pipa_personal_assistant.Prelude.{
  ℕ, ◌+◌, ◌≤◌, ◌<◌, leb, ◌≡◌, refl, String, Bool, true, Option, none, some, List, [], ◌∷◌, length,
  ok, arith, Bool-cases, Result-cases, inl, inr, eq_iff, subst,
}
use pipa_personal_assistant.Prelude.Dict.{
  lookup, has_key, insert, erase, drop_oldest, count_where, Unique, Each,
}
use pipa_personal_assistant.Prelude.Dict.Laws.{
  insert-Unique, erase-Unique, drop_where-Unique, insert-Each, erase-Each, drop_where-Each,
}
use pipa_personal_assistant.Prelude.Dict.Counts.{
  length-insert, length-erase, length-drop_where, count_where-insert, count_where-erase,
  count_where-drop_where,
}
use pipa_personal_assistant.TrustedUnlock.Data.{
  Challenge, SignedChallenge, max_pending_challenges, max_pending_per_device,
  max_consumed_challenges, is_expired, is_for, new_challenge, check_arguments, is_identifier,
}
use pipa_personal_assistant.TrustedUnlock.{
  AuthorizationVerifier, prune, check_limits, create_challenge, register_device, revoke_device,
  remember, check_response, verify_found, verify_response, Call, registers, revokes, creates,
  verifies_at, step, run,
}

-- A challenge under its key: filed under its own identifier, and open for 1 to 60 seconds.
pub record IsChallenge (key : String) (c : Challenge) : Type 0 where
  pub filed : c.challenge_id ≡ key
  pub opens : c.issued_at < c.expires_at
  pub closes : c.expires_at ≤ c.issued_at + 60

pub record Inv {Key : Type 0} (v : AuthorizationVerifier Key) : Type 0 where
  pub unique : Unique v.pending
  pub challenges : Each IsChallenge v.pending
  pub bounded : length v.pending ≤ max_pending_challenges
  pub devices : (device : String) → count_where (is_for device) v.pending ≤ max_pending_per_device
  pub remembered : length v.consumed ≤ max_consumed_challenges

length-drop_oldest :
    (d : List (String × ℕ))
    → max_consumed_challenges ≤ length d
    → length (drop_oldest d) + 1 ≡ length d
length-drop_oldest [] h = omega arith
length-drop_oldest (e ∷ d) h = omega arith

length-remember :
    (c : Challenge) (d : List (String × ℕ))
    → length d ≤ max_consumed_challenges
    → length (remember c d) ≤ max_consumed_challenges
unfolding remember
length-remember c d h = ground (
  arith,
  length-insert c.challenge_id c.expires_at d,
  length-insert c.challenge_id c.expires_at (drop_oldest d),
  length-drop_oldest d,
)

new_challenge-IsChallenge :
    (now ttl : ℕ) (id drawn device name : String)
    → check_arguments device name ttl ≡ ok tt
    → IsChallenge id (new_challenge now ttl id drawn device name)
unfolding new_challenge check_arguments
new_challenge-IsChallenge now ttl id drawn device name h = record {
  filed = refl;
  opens = ground arith;
  closes = ground arith;
}

module _ {Key : Type 0} where
  pub prune-Inv : (now : ℕ) (v : AuthorizationVerifier Key) → Inv v → Inv (prune now v)
  unfolding prune
  prune-Inv now v i = record {
    unique = drop_where-Unique (is_expired now) v.pending i.unique;
    challenges = drop_where-Each IsChallenge (is_expired now) v.pending i.challenges;
    bounded = omega (arith, length-drop_where (is_expired now) v.pending, i.bounded);
    devices = λ o.
        omega (arith, count_where-drop_where (is_for o) (is_expired now) v.pending, i.devices o);
    remembered = omega (arith, length-drop_where (λ e. leb e now) v.consumed, i.remembered);
  }

  pub erase-Inv :
      (id : String) (v : AuthorizationVerifier Key)
      → Inv v
      → Inv (record v { pending = erase id v.pending })
  erase-Inv id v i = record {
    unique = erase-Unique id v.pending i.unique;
    challenges = erase-Each IsChallenge id v.pending i.challenges;
    bounded = omega (arith, length-erase id v.pending, i.bounded);
    devices = λ o. omega (arith, count_where-erase (is_for o) id v.pending, i.devices o);
    remembered = i.remembered;
  }

  room :
      (device : String) (v : AuthorizationVerifier Key)
      → check_limits device v ≡ ok tt
      → (length v.pending < max_pending_challenges)
        × (count_where (is_for device) v.pending < max_pending_per_device)
  unfolding check_limits
  room device v h = ground arith

  device_room :
      (c : Challenge) (o : String) (v : AuthorizationVerifier Key)
      → check_limits c.device_id v ≡ ok tt
      → is_for o c ≡ true
      → count_where (is_for o) v.pending < max_pending_per_device
  device_room c o v h s =
      subst (λ x. count_where (is_for x) v.pending < max_pending_per_device)
        ((eq_iff c.device_id o).0 s) (room c.device_id v h).1

  insert-Inv :
      (c : Challenge) (v : AuthorizationVerifier Key)
      → IsChallenge c.challenge_id c
      → check_limits c.device_id v ≡ ok tt
      → Inv v
      → Inv (record v { pending = insert c.challenge_id c v.pending })
  insert-Inv c v f h i = record {
    unique = insert-Unique c.challenge_id c v.pending i.unique;
    challenges = insert-Each IsChallenge c.challenge_id c v.pending f i.challenges;
    bounded = omega (arith, length-insert c.challenge_id c v.pending, (room c.device_id v h).0);
    devices = λ o. ground (
      arith,
      count_where-insert (is_for o) c.challenge_id c v.pending,
      device_room c o v h,
      i.devices o,
    );
    remembered = i.remembered;
  }

  pub create_challenge-Inv :
      (now ttl : ℕ) (id drawn device name : String) (v : AuthorizationVerifier Key)
      → Inv v
      → Inv (create_challenge now ttl id drawn device name v).1
  unfolding create_challenge new_challenge
  create_challenge-Inv now ttl id drawn device name v i =
      elim (Result-cases (check_arguments device name ttl)) [
        | inl (_, e) ↦
            rw (e, create_challenge)
              (elim (Result-cases (check_limits device (prune now v))) [
                | inl (_, f) ↦ rw f (
                    insert-Inv (new_challenge now ttl id drawn device name) (prune now v)
                      (new_challenge-IsChallenge now ttl id drawn device name e) f
                      (prune-Inv now v i))
                | inr (_, f) ↦ rw f (prune-Inv now v i)
              ])
        | inr (_, e) ↦ rw (e, create_challenge) i
      ]

  pub register_device-Inv :
      (device : String) (key : Key) (v : AuthorizationVerifier Key)
      → Inv v
      → Inv (register_device device key v).1
  unfolding register_device
  register_device-Inv device key v i = elim (Bool-cases (is_identifier device)) [
    | inl e ↦
        rw (e, register_device)
          (record {
            unique = i.unique;
            challenges = i.challenges;
            bounded = i.bounded;
            devices = i.devices;
            remembered = i.remembered;
          })
    | inr e ↦ rw (e, register_device) i
  ]

  pub revoke_device-Inv :
      (device : String) (v : AuthorizationVerifier Key) → Inv v → Inv (revoke_device device v)
  unfolding revoke_device
  revoke_device-Inv device v i = record {
    unique = i.unique;
    challenges = i.challenges;
    bounded = i.bounded;
    devices = i.devices;
    remembered = i.remembered;
  }

  remember-Inv :
      (c : Challenge) (v : AuthorizationVerifier Key)
      → Inv v
      → Inv (record v { consumed = remember c v.consumed })
  remember-Inv c v i = record {
    unique = i.unique;
    challenges = i.challenges;
    bounded = i.bounded;
    devices = i.devices;
    remembered = length-remember c v.consumed i.remembered;
  }

module _ {Key : Type 0} (verifies : Key → SignedChallenge → Challenge → Bool) where
  verify_found-Inv :
      (now : ℕ) (r : SignedChallenge) (c : Option Challenge) (v : AuthorizationVerifier Key)
      → Inv v
      → Inv (verify_found verifies now r c v).1
  unfolding verify_found
  verify_found-Inv now r none v i = prune-Inv now v i
  verify_found-Inv now r (some c) v i = elim (Bool-cases (is_expired now c)) [
    | inl e ↦ rw (verify_found, e) (prune-Inv now _ (erase-Inv c.challenge_id v i))
    | inr e ↦
        rw (verify_found, e)
          (elim (Result-cases (check_response verifies now r c (prune now v))) [
            | inl (_, f) ↦
                rw f (remember-Inv c _ (erase-Inv c.challenge_id (prune now v) (prune-Inv now v i)))
            | inr (_, f) ↦ rw f (prune-Inv now v i)
          ])
  ]

  pub verify_response-Inv :
      (now : ℕ) (r : SignedChallenge) (v : AuthorizationVerifier Key)
      → Inv v
      → Inv (verify_response verifies now r v).1
  unfolding verify_response
  verify_response-Inv now r v i = elim (Bool-cases (has_key r.challenge_id v.consumed)) [
    | inl e ↦ rw (verify_response, e) i
    | inr e ↦ rw (verify_response, e) (verify_found-Inv now r (lookup r.challenge_id v.pending) v i)
  ]

  pub step-Inv : (v : AuthorizationVerifier Key) (c : Call Key) → Inv v → Inv (step verifies v c)
  unfolding step
  step-Inv v (registers device key) i = register_device-Inv device key v i
  step-Inv v (revokes device) i = revoke_device-Inv device v i
  step-Inv v (creates now ttl id drawn device name) i =
      create_challenge-Inv now ttl id drawn device name v i
  step-Inv v (verifies_at now r) i = verify_response-Inv now r v i

  -- A valid verifier stays valid: after any calls, in any order and at any times, refused or not,
  -- at most 256 challenges are pending and at most 8 of each device, at most 4096 accepted ones are
  -- remembered, no identifier is pending twice, and each pending challenge is filed under its own
  -- identifier and expires 1 to 60 seconds after it was issued.
  pub verifier-Inv :
      (v : AuthorizationVerifier Key) (cs : List (Call Key)) → Inv v → Inv (run verifies v cs)
  unfolding run
  verifier-Inv v [] i = i
  verifier-Inv v (c ∷ cs) i = verifier-Inv (step verifies v c) cs (step-Inv v c i)
