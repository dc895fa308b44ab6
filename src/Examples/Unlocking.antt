-- ===== src/Examples/Unlocking.antt =====
-- The theorems on the verifier of challenges, applied to one phone. The key is a word, and the
-- signature that verifies is that word.
use pipa_personal_assistant.Prelude.{
  ◌≡◌, ◌≢◌, ◌⊎◌, ◌↔◌, refl, String, Bool, some, none, [], ◌∷◌, ◌==◌, ok, err, arith,
}
use pipa_personal_assistant.Prelude.Dict.{lookup}
use pipa_personal_assistant.TrustedUnlock.Data.{
  Challenge, SignedChallenge, VerifiedAuthorization, replay_detected, unknown_challenge,
}
use pipa_personal_assistant.TrustedUnlock.{
  AuthorizationVerifier, prune, revoke_device, authorization, check_signature, check_response,
  verify_found, verify_response, revokes, creates, verifies_at, step, run,
}
use pipa_personal_assistant.TrustedUnlock.Bounds.{Inv, verifier-Inv}
use pipa_personal_assistant.TrustedUnlock.Accepting.{Answers, accepted_iff}
use pipa_personal_assistant.TrustedUnlock.Replay.{accepted_once}
use pipa_personal_assistant.TrustedUnlock.Revoking.{revoked_refused}

abbrev word_verifies : String → SignedChallenge → Challenge → Bool
word_verifies key r c = r.signature == key

abbrev challenge : String → Challenge
challenge device = record {
  challenge_id = "c1";
  device_id = device;
  nonce = "n";
  issued_at = 10;
  expires_at = 40;
  operation = "unlock";
  audience = "pipa-trusted-unlock";
  protocol_version = 1;
}

abbrev verifier : AuthorizationVerifier String
verifier = record {
  trusted_devices = ("phone", "secret") ∷ ("tablet", "word") ∷ [];
  pending = ("c1", challenge "phone") ∷ [];
  consumed = [];
  clock_skew_seconds = 5;
}

abbrev response : SignedChallenge
response = record { challenge_id = "c1"; device_id = "phone"; signature = "secret" }

abbrev granted : VerifiedAuthorization
granted = record {
  challenge_id = "c1";
  device_id = "phone";
  operation = "unlock";
  verified_at = 20;
  expires_at = 40;
}

verifier-valid : Inv verifier
verifier-valid = record {
  unique = (refl, tt);
  challenges = (record { filed = refl; opens = omega arith; closes = omega arith }, tt);
  bounded = omega arith;
  devices = λ o. ground arith;
  remembered = omega arith;
}

granted_at_20 : (verify_response word_verifies 20 response verifier).0 ≡ ok granted
unfolding verify_response verify_found check_response check_signature prune authorization
granted_at_20 = refl

verifier-Inv_example : Inv (
    run word_verifies verifier
      (verifies_at 20 response ∷ creates 21 30 "c2" "n" "phone" "unlock" ∷ revokes "phone" ∷ []))
verifier-Inv_example =
    verifier-Inv word_verifies verifier
      (verifies_at 20 response ∷ creates 21 30 "c2" "n" "phone" "unlock" ∷ revokes "phone" ∷ [])
      verifier-valid

accepted_iff_example : ((verify_response word_verifies 20 response verifier).0 ≡ ok granted) ↔ (
    (lookup "c1" verifier.consumed ≡ none)
    × ((c : Challenge) × (lookup "c1" verifier.pending ≡ some c)
        × Answers word_verifies 20 response c verifier
        × (granted ≡ authorization 20 c)))
accepted_iff_example = accepted_iff word_verifies 20 response verifier granted

accepted_once_example :
    ((verify_response word_verifies 22 response (
        run word_verifies
          (verify_response word_verifies 20 response verifier).1
          (creates 21 30 "c2" "n" "phone" "unlock" ∷ []))).0
      ≡ err replay_detected)
    ⊎ ((verify_response word_verifies 22 response (
          run word_verifies
            (verify_response word_verifies 20 response verifier).1
            (creates 21 30 "c2" "n" "phone" "unlock" ∷ []))).0
        ≡ err unknown_challenge)
accepted_once_example =
    accepted_once word_verifies 20 22 response response verifier
      (creates 21 30 "c2" "n" "phone" "unlock" ∷ []) verifier-valid granted_at_20 refl (refl, tt)

-- The phone is revoked; the tablet still unlocks, and not in the phone's name.
abbrev two_devices : AuthorizationVerifier String
two_devices = record verifier { pending = ("c1", challenge "tablet") ∷ [] }

abbrev tablet_response : SignedChallenge
tablet_response = record { challenge_id = "c1"; device_id = "tablet"; signature = "word" }

abbrev tablet_granted : VerifiedAuthorization
tablet_granted = record granted { device_id = "tablet" }

granted_after_revoking :
    (verify_response word_verifies 20 tablet_response
      (run word_verifies (revoke_device "phone" two_devices) (revokes "car" ∷ []))).0
    ≡ ok tablet_granted
unfolding verify_response verify_found check_response check_signature prune authorization run step
    revoke_device
granted_after_revoking = refl

revoked_refused_example : tablet_granted.device_id ≢ "phone"
revoked_refused_example =
    revoked_refused word_verifies "phone" two_devices (revokes "car" ∷ []) 20 tablet_response
      (tt, tt) granted_after_revoking
