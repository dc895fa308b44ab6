-- ===== src/Timers.antt =====
-- windows-agent/tools/timers.py: timers of the local process. A call takes the clock's seconds and the
-- random identifier as arguments; that a timer's thread calls `_fire` is an event from outside.
pub mod Bounds
pub mod Settled
use pipa_personal_assistant.Prelude.{
  ℕ, zero, suc, ◌+◌, ◌-◌, ◌*◌, ltb, leb, between, nat_eq, String, Bool, true, false, ◌&&◌, ◌||◌,
  not, Option, none, some, List, [], ◌∷◌, if◌then◌else◌, length, Result, ok, err, ◌>>=◌, ◌>>◌,
  require,
}
use pipa_personal_assistant.Prelude.Int.{ℤ, pos, negsuc}
use pipa_personal_assistant.Prelude.Text.{len, is_empty, every, strip}
use pipa_personal_assistant.Prelude.Dict.{Dict, lookup, insert, update, count_where}
use pipa_personal_assistant.Json.{Value, int, str}

abbrev pub max_timer_seconds : ℕ
max_timer_seconds = 604800

abbrev pub max_active_timers : ℕ
max_active_timers = 128

abbrev pub max_timer_records : ℕ
max_timer_records = 256

-- the `ValueError`s and `TimerNotFoundError`
pub data TimerError : Type 0 where
  invalid_id invalid_seconds invalid_label too_many not_found : TimerError

pub data Status : Type 0 where
  pending fired cancelled : Status

pub record TimerRecord : Type 0 where
  pub timer_id : String
  pub label : String
  pub created_at : ℕ
  pub due_at : ℕ
  pub status : Status

-- `TimerManager._timers`
abbrev pub Timers : Type 0
Timers = Dict TimerRecord

abbrev is_id_character : ℕ → Bool
is_id_character c =
    between b'A' b'Z' c
    || between b'a' b'z' c
    || between b'0' b'9' c
    || nat_eq c b'_'
    || nat_eq c b'-'

-- `validate_timer_id`
unfoldable pub is_timer_id : String → Bool
is_timer_id s = between 1 32 (len s) && every is_id_character s

unfoldable pub is_pending : TimerRecord → Bool
is_pending r = elim r.status [ pending ↦ true | fired ↦ false | cancelled ↦ false ]

-- `seconds`, an `int` that is no `bool`, in range
unfoldable pub as_seconds : Value → Result TimerError ℕ
as_seconds (int (pos n)) = if between 1 max_timer_seconds n then ok n else err invalid_seconds
as_seconds _ = err invalid_seconds

unfoldable pub as_label : Value → Result TimerError String
as_label (str s) =
    if not (is_empty (strip s)) && not (ltb 120 (len s)) then ok (strip s) else err invalid_label
as_label _ = err invalid_label

-- the first `n` entries that meet the test go
unfoldable pub drop_first : ℕ → (TimerRecord → Bool) → Timers → Timers
drop_first n p [] = []
drop_first zero p (e ∷ d) = e ∷ d
drop_first (suc n) p ((k, r) ∷ d) =
    let dropped = drop_first n p d in
    let kept = drop_first (suc n) p d in if p r then dropped else (k, r) ∷ kept

abbrev pub is_completed : TimerRecord → Bool
is_completed r = not (is_pending r)

-- `_prune_completed_locked`
unfoldable pub prune_completed : Timers → Timers
prune_completed d =
    if leb (length d) max_timer_records
    then d
    else drop_first (length d - max_timer_records) is_completed d

unfoldable pub new_timer : ℕ → String → ℕ → String → TimerRecord
new_timer now id seconds label = record {
  timer_id = id;
  label = label;
  created_at = now;
  due_at = now + seconds;
  status = pending;
}

-- the part of `create` under the lock, which raises after it has pruned
unfoldable pub add_timer : TimerRecord → Timers → Result TimerError TimerRecord × Timers
add_timer r d =
    if leb max_active_timers (count_where is_pending d)
    then (err too_many, d)
    else (ok r, insert r.timer_id r d)

unfoldable pub create_checked :
    ℕ
    → String
    → Result TimerError ℕ
    → Result TimerError String
    → Timers
    → Result TimerError TimerRecord × Timers
create_checked now id (ok seconds) (ok label) d =
    add_timer (new_timer now id seconds label) (prune_completed d)
create_checked now id (ok seconds) (err e) d = (err e, d)
create_checked now id (err e) label d = (err e, d)

-- `create`
unfoldable pub create : ℕ → String → Value → Value → Timers → Result TimerError TimerRecord × Timers
unfolding create_checked
create now id seconds label d = create_checked now id (as_seconds seconds) (as_label label) d

-- a change of a timer that is still pending
unfoldable pub settle : Status → TimerRecord → TimerRecord
settle status r = if is_pending r then record r { status = status } else r

unfoldable pub cancel_found :
    String → Option TimerRecord → Timers → Result TimerError TimerRecord × Timers
cancel_found id none d = (err not_found, d)
cancel_found id (some r) d = (ok (settle cancelled r), update id (settle cancelled) d)

-- `cancel`
unfoldable pub cancel : String → Timers → Result TimerError TimerRecord × Timers
unfolding cancel_found
cancel id d = if is_timer_id id then cancel_found id (lookup id d) d else (err invalid_id, d)

-- `_fire`
unfoldable pub fire : String → Timers → Timers
fire id d = update id (settle fired) d

-- A call, or the thread of a timer that has run out.
pub data Event : Type 0 where
  creates : ℕ → String → Value → Value → Event
  cancels fires : String → Event

unfoldable pub step : Timers → Event → Timers
step d (creates now id seconds label) = (create now id seconds label d).1
step d (cancels id) = (cancel id d).1
step d (fires id) = fire id d

unfoldable pub run : Timers → List Event → Timers
run d [] = d
run d (e ∷ es) = run (step d e) es
