-- ===== src/Examples/Confirming.antt =====
-- The theorems on the confirmation manager, applied to a manager with one confirmation.
use pipa_personal_assistant.Prelude.{
  ltb, ◌||◌, false, ◌≡◌, ◌↔◌, refl, none, some, [], ◌∷◌, ok, err, if◌then◌else◌, arith, eq_iff,
}
use pipa_personal_assistant.Prelude.Dict.{lookup}
use pipa_personal_assistant.Prelude.Text.{len, strip, prefix}
use pipa_personal_assistant.Confirmations.{
  missing_or_expired, other_session, create, consume, check_consume, creates, consumes, run,
  check_request, check_limits, is_call_id, is_optional_digest, is_owner_full, new_record, prune,
}
use pipa_personal_assistant.Confirmations.Invariant.{Inv, run-Inv}
use pipa_personal_assistant.Confirmations.OneUse.{
  IsUsable, consume_iff, consumed_once, consume-create, consume_other_session,
}
use pipa_personal_assistant.Examples.{no_confirmations, one_confirmation, request, pending}

pub one_confirmation-Inv : Inv one_confirmation
unfolding len
one_confirmation-Inv = record {
  ttl_low = omega arith;
  ttl_high = omega arith;
  unique = (refl, tt);
  records = (record { filed = refl; lifetime = refl; short = omega arith }, tt);
  bounded = omega arith;
  owners = λ o. ground arith;
}

run-Inv_example :
    Inv (run one_confirmation (creates 105 "c2" request ∷ consumes 106 "c1" none ∷ []))
run-Inv_example =
    run-Inv one_confirmation (creates 105 "c2" request ∷ consumes 106 "c1" none ∷ [])
      one_confirmation-Inv

consume_iff_example :
    ((consume 105 "c1" (some "s1") one_confirmation).0 ≡ ok pending)
    ↔ ((lookup "c1" one_confirmation.pending ≡ some pending) × IsUsable 105 (some "s1") pending)
consume_iff_example = consume_iff 105 "c1" (some "s1") one_confirmation pending

consumed_once_example :
    (consume 110 "c1"
      (some "s1")
      (run (consume 105 "c1" (some "s1") one_confirmation).1 (creates 106 "c2" request ∷ []))).0
    ≡ err missing_or_expired
unfolding consume check_consume
consumed_once_example =
    consumed_once 105 110 "c1" (some "s1") (some "s1") one_confirmation
      (creates 106 "c2" request ∷ []) one_confirmation-Inv refl (refl, tt)

consume-create_example :
    let m = (create 100 "c1" request no_confirmations).1 in
    ((consume 120 "c1" (some "s1") m).0
      ≡ (if ltb 120 130 then ok pending else err missing_or_expired))
    × ((consume 120 "c1" (some "s2") m).0 ≡ (
        if ltb 120 130
        then (if false || false then ok pending else err other_session)
        else err missing_or_expired))
unfolding create prune check_request check_limits is_call_id is_optional_digest is_owner_full
    new_record strip prefix len
consume-create_example =
    consume-create 100 120 "c1" (some "s2") request no_confirmations {r = pending} refl

consume_other_session_example :
    consume 120 "c1" (some "s2") (create 100 "c1" request no_confirmations).1
    ≡ (err other_session, (create 100 "c1" request no_confirmations).1)
unfolding create prune check_request check_limits is_call_id is_optional_digest is_owner_full
    new_record strip prefix len
consume_other_session_example =
    consume_other_session 100 120 "c1" "s1" (some "s2") request no_confirmations {r = pending} refl
      refl (ground (arith, eq_iff "s2" "s1")) (omega arith)
