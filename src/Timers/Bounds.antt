-- ===== src/Timers/Bounds.antt =====
-- The bounds on the timers of windows-agent/tools/timers.py, and that a settled timer stays settled.
use pipa_personal_assistant.Prelude.{
  ℕ, zero, suc, ◌+◌, ◌-◌, ◌≤◌, ◌<◌, leb, ◌≡◌, refl, String, Bool, true, false, Option, none, some,
  List, [], ◌∷◌, length, Result, ok, err, Bool-cases, inl, inr, arith,
}
use pipa_personal_assistant.Prelude.Dict.{lookup, update, count_where}
use pipa_personal_assistant.Prelude.Dict.Counts.{length-insert, count_where-insert, length-update}
use pipa_personal_assistant.Timers.{
  TimerError, Status, pending, fired, cancelled, TimerRecord, Timers, max_active_timers,
  max_timer_records, is_pending, is_completed, as_seconds, as_label, drop_first, prune_completed,
  new_timer, add_timer, create_checked, create, settle, cancel_found, cancel, is_timer_id, fire,
  Event, creates, cancels, fires, step, run,
}

-- A list of timers within the limits: one more record than the limit of the prune, which runs before
-- the insertion.
pub record Inv (d : Timers) : Type 0 where
  pub active : count_where is_pending d ≤ max_active_timers
  pub records : length d ≤ max_timer_records + 1

drop_first-active :
    (n : ℕ) (d : Timers)
    → count_where is_pending (drop_first n is_completed d) ≡ count_where is_pending d
unfolding drop_first
drop_first-active n [] = refl
drop_first-active zero (e ∷ d) = refl
drop_first-active (suc n) ((k, r) ∷ d) = elim (Bool-cases (is_pending r)) [
  | inl b ↦ simp (drop_first, b, drop_first-active (suc n) d)
  | inr b ↦ simp (drop_first, b, drop_first-active n d)
]

-- what is dropped is as much as there is to drop
drop_first-length :
    (n : ℕ) (d : Timers)
    → n + count_where is_pending d ≤ length d
    → length (drop_first n is_completed d) + n ≡ length d
unfolding drop_first
drop_first-length zero [] h = refl
drop_first-length (suc n) [] h = ground arith
drop_first-length zero (e ∷ d) h = ground arith
drop_first-length (suc n) ((k, r) ∷ d) h = elim (Bool-cases (is_pending r)) [
  | inl b ↦ let i = drop_first-length (suc n) d (ground (arith, b)) in ground (arith, b, i)
  | inr b ↦ let i = drop_first-length n d (ground (arith, b)) in ground (arith, b, i)
]

prune-active : (d : Timers) → count_where is_pending (prune_completed d) ≡ count_where is_pending d
unfolding prune_completed
prune-active d = elim (Bool-cases (leb (length d) max_timer_records)) [
  | inl b ↦ simp (prune_completed, b)
  | inr b ↦ simp (prune_completed, b, drop_first-active (length d - max_timer_records) d)
]

prune-length : (d : Timers) → Inv d → length (prune_completed d) ≤ max_timer_records
unfolding prune_completed
prune-length d v = elim (Bool-cases (leb (length d) max_timer_records)) [
  | inl b ↦ rw (prune_completed, b) (ground arith)
  | inr b ↦
      let long : max_timer_records < length d = ground arith in
      let i =
        drop_first-length (length d - max_timer_records) d
          (omega (arith, v.active, v.records, long)) in
      rw (prune_completed, b) (omega (arith, i, long))
]

add_timer-Inv : (r : TimerRecord) (d : Timers) → Inv d → Inv (add_timer r (prune_completed d)).1
unfolding add_timer
add_timer-Inv r d v =
    let d' = prune_completed d in
    elim (Bool-cases (leb max_active_timers (count_where is_pending d'))) [
      | inl b ↦
          rw (add_timer, b)
            (record {
              active = omega (arith, prune-active d, v.active);
              records = omega (arith, prune-length d v);
            })
      | inr b ↦
          rw (add_timer, b)
            (record {
              active = ground (arith, b, count_where-insert is_pending r.timer_id r d');
              records = omega (arith, prune-length d v, length-insert r.timer_id r d');
            })
    ]

create-IsBounded :
    (now : ℕ) (id : String) (seconds : Result TimerError ℕ) (label : Result TimerError String)
    (d : Timers)
    → Inv d
    → Inv (create_checked now id seconds label d).1
unfolding create_checked
create-IsBounded now id (ok n) (ok l) d v = add_timer-Inv (new_timer now id n l) d v
create-IsBounded now id (ok n) (err e) d v = v
create-IsBounded now id (err e) l d v = v

abbrev is_pending_status : Status → Bool
is_pending_status pending = true
is_pending_status fired = false
is_pending_status cancelled = false

-- A settled timer is not pending.
settle-active :
    (s : Status) (id : String) (d : Timers)
    → is_pending_status s ≡ false
    → count_where is_pending (update id (settle s) d) ≤ count_where is_pending d
unfolding settle is_pending
settle-active s id [] h = omega arith
settle-active fired id ((k, r) ∷ d) h = ground (arith, settle-active fired id d refl)
settle-active cancelled id ((k, r) ∷ d) h = ground (arith, settle-active cancelled id d refl)
settle-active pending id ((k, r) ∷ d) h = absurd (cc)

update-Inv :
    (s : Status) (id : String) (d : Timers)
    → is_pending_status s ≡ false
    → Inv d
    → Inv (update id (settle s) d)
update-Inv s id d h v = record {
  active = omega (arith, settle-active s id d h, v.active);
  records = omega (arith, length-update id (settle s) d, v.records);
}

cancel_found-Inv :
    (id : String) (o : Option TimerRecord) (d : Timers) → Inv d → Inv (cancel_found id o d).1
unfolding cancel_found
cancel_found-Inv id none d v = v
cancel_found-Inv id (some r) d v = update-Inv cancelled id d refl v

cancel-Inv : (id : String) (d : Timers) → Inv d → Inv (cancel id d).1
unfolding cancel
cancel-Inv id d v = elim (Bool-cases (is_timer_id id)) [
  | inl b ↦ rw (cancel, b) (cancel_found-Inv id (lookup id d) d v)
  | inr b ↦ rw (cancel, b) v
]

step-Inv : (d : Timers) (e : Event) → Inv d → Inv (step d e)
unfolding step create fire
step-Inv d (creates now id seconds label) v =
    create-IsBounded now id (as_seconds seconds) (as_label label) d v
step-Inv d (cancels id) v = cancel-Inv id d v
step-Inv d (fires id) v = update-Inv fired id d refl v

-- However timers are created, cancelled and fire, at most 128 are pending and at most 257 are kept, if
-- this holds at the start.
pub run-IsBounded : (d : Timers) (es : List Event) → Inv d → Inv (run d es)
unfolding run
run-IsBounded d [] v = v
run-IsBounded d (e ∷ es) v = run-IsBounded (step d e) es (step-Inv d e v)
