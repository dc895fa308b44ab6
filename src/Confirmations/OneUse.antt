-- ===== src/Confirmations/OneUse.antt =====
-- A confirmation is good for one use, by its owner, before it expires.
use pipa_personal_assistant.Prelude.{
  ℕ, ◌+◌, ◌<◌, ltb, ◌≡◌, ◌≢◌, ◌↔◌, refl, String, true, false, Option, none, some, List, [], ◌∷◌,
  ◌==◌, if◌then◌else◌, same, is_none, ◌||◌, ok, err, arith, eq_iff, eq_refl, ◌⊎◌, All, Option-cases,
}
use pipa_personal_assistant.Prelude.Dict.{lookup, drop_where, Unique}
use pipa_personal_assistant.Prelude.Dict.Laws.{lookup-insert, lookup-erase, lookup-drop_where}
use pipa_personal_assistant.Confirmations.{
  PendingConfirmation, ConfirmationManager, Request, ConfirmationError, missing_or_expired,
  other_session, is_expired, is_owned_by, prune, new_record, create, check_consume, consume,
  cancel_for_owner, Call, creates, consumes, cancels, step, run,
}
use pipa_personal_assistant.Confirmations.Invariant.{Inv, step-Inv, consume-Inv}

-- The record may be consumed by `owner` at `now`.
abbrev pub IsUsable : ℕ → Option String → PendingConfirmation → Type 0
IsUsable now owner r = (now < r.expires_at) × ((r.owner_id ≡ none) ⊎ (r.owner_id ≡ owner))

same_iff : (a b : Option String) → (same a b ≡ true) ↔ (a ≡ b)
same_iff none none = ground arith
same_iff none (some b) = ground arith
same_iff (some a) none = ground arith
same_iff (some a) (some b) = ground (arith, eq_iff a b)

check_consume-IsUsable :
    (now : ℕ) (owner : Option String) (r s : PendingConfirmation)
    → (check_consume now owner (some r) ≡ ok s) ↔ ((r ≡ s) × IsUsable now owner r)
unfolding check_consume
check_consume-IsUsable now owner r s = ground (arith, same_iff r.owner_id owner)

-- `consume` returns a record exactly when it is pending under the identifier, has not expired, and
-- has no owner or this one.
pub consume_iff :
    (now : ℕ) (id : String) (owner : Option String) (m : ConfirmationManager)
    (r : PendingConfirmation)
    → ((consume now id owner m).0 ≡ ok r) ↔ ((lookup id m.pending ≡ some r) × IsUsable now owner r)
unfolding consume
consume_iff now id owner m r =
    ground (arith, check_consume-IsUsable now owner r r, Option-cases (lookup id m.pending))

-- A refused `consume` leaves the manager as it was, so that a wrong owner takes nothing away.
pub consume_refused :
    (now : ℕ) (id : String) (owner : Option String) (m : ConfirmationManager)
    {e : ConfirmationError}
    → (consume now id owner m).0 ≡ err e
    → (consume now id owner m).1 ≡ m
unfolding consume
consume_refused now id owner m h = ground (arith)

-- What `consume` leaves pending.
pub lookup-consume :
    (now : ℕ) (id j : String) (owner : Option String) (m : ConfirmationManager)
    {r : PendingConfirmation}
    → (consume now id owner m).0 ≡ ok r
    → lookup j (consume now id owner m).1.pending ≡ (if id == j then none else lookup j m.pending)
unfolding consume
lookup-consume now id j owner m h = ground (arith, lookup-erase j id m.pending)

-- The call does not draw the identifier.
abbrev pub Avoids : String → Call → Type 0
Avoids id (creates now drawn q) = (drawn == id) ≡ false
Avoids id _ = Unit

lookup-create :
    (now : ℕ) (id j : String) (q : Request) (m : ConfirmationManager)
    → (id == j) ≡ false
    → lookup j m.pending ≡ none
    → Unique m.pending
    → lookup j (create now id q m).1.pending ≡ none
unfolding create new_record
lookup-create now id j q m h e u = ground (
  arith,
  lookup-insert j id (new_record m.ttl_seconds now id q) (drop_where (is_expired now) m.pending),
  lookup-drop_where j (is_expired now) m.pending u,
)

step-absent :
    (id : String) (m : ConfirmationManager) (c : Call)
    → Avoids id c
    → Unique m.pending
    → lookup id m.pending ≡ none
    → lookup id (step m c).pending ≡ none
unfolding step consume cancel_for_owner
step-absent id m (creates now drawn q) a u h = lookup-create now drawn id q m a h u
step-absent id m (consumes now j owner) a u h = ground (arith, lookup-erase id j m.pending)
step-absent id m (cancels owner) a u h =
    ground (arith, lookup-drop_where id (is_owned_by (some owner)) m.pending u)

run-absent :
    (id : String) (m : ConfirmationManager) (cs : List Call)
    → Inv m
    → All (Avoids id) cs
    → lookup id m.pending ≡ none
    → lookup id (run m cs).pending ≡ none
unfolding run
run-absent id m [] v a h = h
run-absent id m (c ∷ cs) v a h =
    run-absent id (step m c) cs (step-Inv m c v) a.1 (step-absent id m c a.0 v.unique h)

consume_missing :
    (now : ℕ) (id : String) (owner : Option String) (m : ConfirmationManager)
    → lookup id m.pending ≡ none
    → (consume now id owner m).0 ≡ err missing_or_expired
unfolding consume
consume_missing now id owner m h = ground arith

-- Once a confirmation of a valid manager has been consumed, no later call consumes it again, whoever makes it and
-- whatever happened in between, as long as the random source does not draw its identifier again.
pub consumed_once :
    (now later : ℕ) (id : String) (owner other : Option String) (m : ConfirmationManager)
    (cs : List Call) {r : PendingConfirmation}
    → Inv m
    → (consume now id owner m).0 ≡ ok r
    → All (Avoids id) cs
    → (consume later id other (run (consume now id owner m).1 cs)).0 ≡ err missing_or_expired
consumed_once now later id owner other m cs v h a =
    let gone : lookup id (consume now id owner m).1.pending ≡ none =
      rw (lookup-consume now id id owner m h, eq_refl) refl in
    let still : lookup id (run (consume now id owner m).1 cs).pending ≡ none =
      run-absent id (consume now id owner m).1 cs (consume-Inv now id owner m v) a gone in
    consume_missing later id other _ still

-- What a successful `create` leaves: the record under its identifier.
pub created :
    (now : ℕ) (id : String) (q : Request) (m : ConfirmationManager) {r : PendingConfirmation}
    → (create now id q m).0 ≡ ok r
    → (lookup id (create now id q m).1.pending ≡ some r)
      × (r.expires_at ≡ now + m.ttl_seconds)
      × (r.owner_id ≡ q.owner_id)
      × (r ≡ new_record m.ttl_seconds now id q)
unfolding create new_record
created now id q m h = ground (
  arith,
  lookup-insert id id (new_record m.ttl_seconds now id q) (prune now m).pending,
  eq_refl id,
)

-- A confirmation that was created is there for its owner until exactly the manager's time has
-- passed. Anyone else who asks for it before that gets it only if it has no owner, and is otherwise
-- told that it belongs to another session. After that time nobody gets it.
pub consume-create :
    (now later : ℕ) (id : String) (other : Option String) (q : Request) (m : ConfirmationManager)
    {r : PendingConfirmation}
    → (create now id q m).0 ≡ ok r
    → ((consume later id q.owner_id (create now id q m).1).0
        ≡ (if ltb later (now + m.ttl_seconds) then ok r else err missing_or_expired))
      × ((consume later id other (create now id q m).1).0 ≡ (
          if ltb later (now + m.ttl_seconds)
          then (if is_none q.owner_id || same q.owner_id other then ok r else err other_session)
          else err missing_or_expired))
unfolding consume check_consume
consume-create now later id other q m h =
    let c = created now id q m h in
    (ground (arith, c.0, c.1, c.2, same_iff q.owner_id q.owner_id), ground (arith, c.0, c.1, c.2))

-- Another session that asks for an owned confirmation before its time has passed is refused, and the
-- manager stays as it was.
pub consume_other_session :
    (now later : ℕ) (id owner : String) (other : Option String) (q : Request)
    (m : ConfirmationManager) {r : PendingConfirmation}
    → (create now id q m).0 ≡ ok r
    → q.owner_id ≡ some owner
    → other ≢ some owner
    → later < now + m.ttl_seconds
    → consume later id other (create now id q m).1 ≡ (err other_session, (create now id q m).1)
unfolding consume check_consume
consume_other_session now later id owner other q m h o ne t =
    let c = created now id q m h in
    ground (arith, c.0, c.1, c.2, same_iff q.owner_id other, same_iff (some owner) other)
