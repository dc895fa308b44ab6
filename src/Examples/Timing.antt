-- ===== src/Examples/Timing.antt =====
-- The theorems on timers, applied to two timers.
use pipa_personal_assistant.Prelude.{◌≡◌, ◌⊎◌, true, any, none, refl, some, [], ◌∷◌, arith}
use pipa_personal_assistant.Prelude.Int.{pos}
use pipa_personal_assistant.Prelude.Dict.{lookup}
use pipa_personal_assistant.Json.{int, str}
use pipa_personal_assistant.Timers.{
  Status, pending, fired, TimerRecord, Timers, is_pending, creates, cancels, fires, run,
}
use pipa_personal_assistant.Timers.Bounds.{Inv, run-IsBounded}
use pipa_personal_assistant.Timers.Settled.{is_creation, run-settled}

abbrev timer : Status → TimerRecord
timer status = record {
  timer_id = "t1";
  label = "tea";
  created_at = 10;
  due_at = 70;
  status = status;
}

abbrev timers : Status → Timers
timers status = ("t1", timer status) ∷ []

timers-Inv : Inv (timers pending)
unfolding is_pending
timers-Inv = record { active = omega arith; records = omega arith }

run-IsBounded_example : Inv (
    run
      (timers pending)
      (creates 20 "t2" (int (pos 60)) (str "egg") ∷ fires "t1" ∷ cancels "t2" ∷ []))
run-IsBounded_example =
    run-IsBounded (timers pending)
      (creates 20 "t2" (int (pos 60)) (str "egg") ∷ fires "t1" ∷ cancels "t2" ∷ []) timers-Inv

run-settled_example :
    let es = cancels "t1" ∷ creates 80 "t2" (int (pos 60)) (str "egg") ∷ fires "t1" ∷ [] in
    (lookup "t1" (run (timers fired) es) ≡ some (timer fired))
    ⊎ ((lookup "t1" (run (timers fired) es) ≡ none) × (any is_creation es ≡ true))
unfolding is_pending
run-settled_example =
    run-settled "t1" (timers fired)
      (cancels "t1" ∷ creates 80 "t2" (int (pos 60)) (str "egg") ∷ fires "t1" ∷ []) (refl, tt)
      (tt, (refl, (tt, tt))) refl refl
