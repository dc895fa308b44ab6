-- ===== src/Confirmations.antt =====
-- backend/pipa_core/confirmations.py: short-lived, one-use confirmations.
-- A call takes the clock's seconds and the random identifier as arguments. Each method returns the
-- manager beside its result, since a refused `create` has pruned before it raises.
pub mod Invariant
pub mod OneUse
pub mod Owners
pub mod Counts
use pipa_personal_assistant.Prelude.{
  ℕ, suc, ◌+◌, ltb, leb, String, Bool, true, false, ◌&&◌, ◌||◌, not, Option, none, some, List, [],
  ◌∷◌, ◌==◌, if◌then◌else◌, length, same, is_none, Result, ok, err, ◌>>=◌, ◌>>◌, require,
}
use pipa_personal_assistant.Prelude.Dict.{Dict, lookup, insert, erase, drop_where, count_where}
use pipa_personal_assistant.Prelude.Text.{len, is_empty, strip, prefix}
use pipa_personal_assistant.Json.{Fields}
use pipa_personal_assistant.Protocol.Checks.{is_digest}

abbrev pub max_pending : ℕ
max_pending = 128

abbrev pub max_pending_per_owner : ℕ
max_pending_per_owner = 4

abbrev pub max_summary : ℕ
max_summary = 240

-- `ConfirmationError`, a constructor for each `raise`
pub data ConfirmationError : Type 0 where
  empty_summary invalid_call_id invalid_digest : ConfirmationError
  too_many too_many_for_session missing_or_expired other_session : ConfirmationError

pub record PendingConfirmation : Type 0 where
  pub confirmation_id : String
  pub owner_id : Option String
  pub tool_name : String
  pub arguments : Fields
  pub summary : String
  pub created_at : ℕ
  pub expires_at : ℕ
  pub call_id : Option String
  pub request_digest : Option String
  pub execution_arguments : Option Fields

pub record ConfirmationManager : Type 0 where
  pub ttl_seconds : ℕ
  pub pending : Dict PendingConfirmation

-- the arguments of `create`
pub record Request : Type 0 where
  pub tool_name : String
  pub arguments : Fields
  pub summary : String
  pub owner_id : Option String
  pub call_id : Option String
  pub request_digest : Option String
  pub execution_arguments : Option Fields

-- `ConfirmationManager(ttl_seconds=…)`; `none` is its `ValueError`
unfoldable pub new : ℕ → Option ConfirmationManager
new ttl =
    if ltb ttl 1 || ltb 300 ttl then none else some (record { ttl_seconds = ttl; pending = [] })

-- `record.expires_at <= now`
abbrev pub is_expired : ℕ → PendingConfirmation → Bool
is_expired now r = leb r.expires_at now

-- `record.owner_id == owner_id`
abbrev pub is_owned_by : Option String → PendingConfirmation → Bool
is_owned_by owner r = same r.owner_id owner

-- `_prune`
unfoldable pub prune : ℕ → ConfirmationManager → ConfirmationManager
prune now m = record m { pending = drop_where (is_expired now) m.pending }

unfoldable pub is_call_id : Option String → Bool
is_call_id none = true
is_call_id (some c) = not (is_empty (strip c)) && not (ltb 128 (len c))

unfoldable pub is_optional_digest : Option String → Bool
is_optional_digest none = true
is_optional_digest (some d) = is_digest d

-- the checks that `create` makes before it takes the lock
unfoldable pub check_request : Request → Result ConfirmationError (Unit {0})
check_request q = do
  require (not (is_empty (strip q.summary))) empty_summary
  require (is_call_id q.call_id) invalid_call_id
  require (is_optional_digest q.request_digest) invalid_digest

-- `summary` is cut twice in the source, once before and once in the record
unfoldable pub new_record : ℕ → ℕ → String → Request → PendingConfirmation
new_record ttl now id q = record {
  confirmation_id = id;
  owner_id = q.owner_id;
  tool_name = q.tool_name;
  arguments = q.arguments;
  summary =
      prefix max_summary
        (if ltb max_summary (len q.summary) then prefix max_summary q.summary else q.summary);
  created_at = now;
  expires_at = now + ttl;
  call_id = q.call_id;
  request_digest = q.request_digest;
  execution_arguments = q.execution_arguments;
}

-- `owner_id is not None` and it has `MAX_PENDING_PER_OWNER` already
unfoldable pub is_owner_full : Option String → ConfirmationManager → Bool
is_owner_full none m = false
is_owner_full (some owner) m =
    leb max_pending_per_owner (count_where (is_owned_by (some owner)) m.pending)

-- the limits that `create` checks under the lock, after the prune
unfoldable pub check_limits :
    Option String → ConfirmationManager → Result ConfirmationError (Unit {0})
unfolding is_owner_full
check_limits owner m = do
  require (not (leb max_pending (length m.pending))) too_many
  require (not (is_owner_full owner m)) too_many_for_session

abbrev add_record :
    ConfirmationManager
    → PendingConfirmation
    → Result ConfirmationError (Unit {0})
    → Result ConfirmationError PendingConfirmation × ConfirmationManager
add_record m r (ok _) = (ok r, record m { pending = insert r.confirmation_id r m.pending })
add_record m r (err e) = (err e, m)

abbrev create_checked :
    ℕ
    → String
    → Request
    → ConfirmationManager
    → Result ConfirmationError (Unit {0})
    → Result ConfirmationError PendingConfirmation × ConfirmationManager
create_checked now id q m (ok _) =
    let m' = prune now m in
    add_record m' (new_record m.ttl_seconds now id q) (check_limits q.owner_id m')
create_checked now id q m (err e) = (err e, m)

unfoldable pub create :
    ℕ
    → String
    → Request
    → ConfirmationManager
    → Result ConfirmationError PendingConfirmation × ConfirmationManager
unfolding prune
create now id q m = create_checked now id q m (check_request q)

-- the checks of `consume`, on the record that was found
unfoldable pub check_consume :
    ℕ → Option String → Option PendingConfirmation → Result ConfirmationError PendingConfirmation
check_consume now owner none = err missing_or_expired
check_consume now owner (some r) = do
  require (not (leb r.expires_at now)) missing_or_expired
  require (is_none r.owner_id || same r.owner_id owner) other_session
  ok r

abbrev remove_consumed :
    String
    → ConfirmationManager
    → Result ConfirmationError PendingConfirmation
    → Result ConfirmationError PendingConfirmation × ConfirmationManager
remove_consumed id m (ok r) = (ok r, record m { pending = erase id m.pending })
remove_consumed id m (err e) = (err e, m)

unfoldable pub consume :
    ℕ
    → String
    → Option String
    → ConfirmationManager
    → Result ConfirmationError PendingConfirmation × ConfirmationManager
unfolding check_consume
consume now id owner m = remove_consumed id m (check_consume now owner (lookup id m.pending))

-- `cancel_for_owner`: an empty owner cancels nothing
unfoldable pub cancel_for_owner : String → ConfirmationManager → ℕ × ConfirmationManager
cancel_for_owner owner m = if is_empty owner then (0, m) else (
  count_where (is_owned_by (some owner)) m.pending,
  record m { pending = drop_where (is_owned_by (some owner)) m.pending },
)

-- A call of the manager from outside, with what the clock and the random source give it.
pub data Call : Type 0 where
  creates : ℕ → String → Request → Call
  consumes : ℕ → String → Option String → Call
  cancels : String → Call

unfoldable pub step : ConfirmationManager → Call → ConfirmationManager
step m (creates now id q) = (create now id q m).1
step m (consumes now id owner) = (consume now id owner m).1
step m (cancels owner) = (cancel_for_owner owner m).1

unfoldable pub run : ConfirmationManager → List Call → ConfirmationManager
run m [] = m
run m (c ∷ cs) = run (step m c) cs
