-- ===== src/Confirmations/Invariant.antt =====
-- The invariant of the confirmation manager, and that every operation keeps it.
use pipa_personal_assistant.Prelude.{
  ℕ, ◌+◌, ◌≤◌, ◌<◌, ◌≡◌, refl, String, Bool, true, Option, none, some, List, [], ◌∷◌, length, same,
  ok, arith, Bool-cases, Result-cases, inl, inr, eq_iff, subst,
}
use pipa_personal_assistant.Prelude.Dict.{
  lookup, insert, erase, drop_where, count_where, Unique, Each,
}
use pipa_personal_assistant.Prelude.Dict.Laws.{
  insert-Unique, erase-Unique, drop_where-Unique, insert-Each, erase-Each, drop_where-Each,
}
use pipa_personal_assistant.Prelude.Dict.Counts.{
  length-insert, length-erase, length-drop_where, count_where-insert, count_where-erase,
  count_where-drop_where,
}
use pipa_personal_assistant.Prelude.Text.{len, is_empty}
use pipa_personal_assistant.Prelude.Text.Laws.{len-prefix}
use pipa_personal_assistant.Confirmations.{
  PendingConfirmation, ConfirmationManager, Request, max_pending, max_pending_per_owner,
  max_summary, new, is_expired, is_owned_by, prune, new_record, check_request, check_limits, create,
  consume, cancel_for_owner, check_consume, Call, creates, consumes, cancels, step, run,
}

-- What holds of each record under its key: it is filed under its own identifier, lives for exactly
-- the manager's time, and its summary is short.
pub record IsRecord (ttl : ℕ) (key : String) (r : PendingConfirmation) : Type 0 where
  pub filed : r.confirmation_id ≡ key
  pub lifetime : r.expires_at ≡ r.created_at + ttl
  pub short : len r.summary ≤ max_summary

pub record Inv (m : ConfirmationManager) : Type 0 where
  pub ttl_low : 1 ≤ m.ttl_seconds
  pub ttl_high : m.ttl_seconds ≤ 300
  pub unique : Unique m.pending
  pub records : Each (IsRecord m.ttl_seconds) m.pending
  pub bounded : length m.pending ≤ max_pending
  pub owners :
      (owner : String) → count_where (is_owned_by (some owner)) m.pending ≤ max_pending_per_owner

empty-Inv : (ttl : ℕ) → 1 ≤ ttl → ttl ≤ 300 → Inv (record { ttl_seconds = ttl; pending = [] })
empty-Inv ttl low high = record {
  ttl_low = low;
  ttl_high = high;
  unique = tt;
  records = tt;
  bounded = omega arith;
  owners = λ o. omega arith;
}

-- A new manager, if its time to live is accepted, is valid.
pub new-Inv : (ttl : ℕ) (m : ConfirmationManager) → new ttl ≡ some m → Inv m
unfolding new
new-Inv ttl m h =
    let e : record { ttl_seconds = ttl; pending = [] } ≡ m = ground arith in
    subst Inv e (empty-Inv ttl (ground arith) (ground arith))

drop_where-Inv :
    (p : PendingConfirmation → Bool) (m : ConfirmationManager)
    → Inv m
    → Inv (record m { pending = drop_where p m.pending })
drop_where-Inv p m v = record {
  ttl_low = v.ttl_low;
  ttl_high = v.ttl_high;
  unique = drop_where-Unique p m.pending v.unique;
  records = drop_where-Each (IsRecord m.ttl_seconds) p m.pending v.records;
  bounded = omega (arith, length-drop_where p m.pending, v.bounded);
  owners =
      λ o. omega (arith, count_where-drop_where (is_owned_by (some o)) p m.pending, v.owners o);
}

pub prune-Inv : (now : ℕ) (m : ConfirmationManager) → Inv m → Inv (prune now m)
unfolding prune
prune-Inv now = drop_where-Inv (is_expired now)

-- An owner that passed the limits has room for one more.
owner_room :
    (owner : Option String) (o : String) (m : ConfirmationManager)
    → check_limits owner m ≡ ok tt
    → same owner (some o) ≡ true
    → count_where (is_owned_by (some o)) m.pending < max_pending_per_owner
unfolding check_limits
owner_room none o m h s = cc
owner_room (some w) o m h s =
    subst (λ x. count_where (is_owned_by (some x)) m.pending < max_pending_per_owner)
      ((eq_iff w o).0 s) (ground arith)

total_room :
    (owner : Option String) (m : ConfirmationManager)
    → check_limits owner m ≡ ok tt
    → length m.pending < max_pending
unfolding check_limits
total_room owner m h = ground arith

-- The record that passed the limits goes in.
insert-Inv :
    (m : ConfirmationManager) (r : PendingConfirmation)
    → IsRecord m.ttl_seconds r.confirmation_id r
    → check_limits r.owner_id m ≡ ok tt
    → Inv m
    → Inv (record m { pending = insert r.confirmation_id r m.pending })
insert-Inv m r f h v = record {
  ttl_low = v.ttl_low;
  ttl_high = v.ttl_high;
  unique = insert-Unique r.confirmation_id r m.pending v.unique;
  records = insert-Each (IsRecord m.ttl_seconds) r.confirmation_id r m.pending f v.records;
  bounded = omega (arith, length-insert r.confirmation_id r m.pending, total_room r.owner_id m h);
  owners = λ o. ground (
    arith,
    count_where-insert (is_owned_by (some o)) r.confirmation_id r m.pending,
    owner_room r.owner_id o m h,
    v.owners o,
  );
}

new_record-IsRecord :
    (ttl now : ℕ) (id : String) (q : Request) → IsRecord ttl id (new_record ttl now id q)
unfolding new_record
new_record-IsRecord ttl now id q = record {
  filed = refl;
  lifetime = refl;
  short = len-prefix max_summary _;
}

-- `create` keeps the invariant, whether it returns or raises, and whatever identifier is drawn.
pub create-Inv :
    (now : ℕ) (id : String) (q : Request) (m : ConfirmationManager)
    → Inv m
    → Inv (create now id q m).1
unfolding create new_record
create-Inv now id q m v = elim (Result-cases (check_request q)) [
  | inl (_, e) ↦
      rw (e, create)
        (elim (Result-cases (check_limits q.owner_id (prune now m))) [
          | inl (_, f) ↦ rw f (
              insert-Inv (prune now m) (new_record m.ttl_seconds now id q)
                (new_record-IsRecord _ now id q) f (prune-Inv now m v))
          | inr (_, f) ↦ rw f (prune-Inv now m v)
        ])
  | inr (_, e) ↦ rw (e, create) v
]

erase-Inv :
    (id : String) (m : ConfirmationManager)
    → Inv m
    → Inv (record m { pending = erase id m.pending })
erase-Inv id m v = record {
  ttl_low = v.ttl_low;
  ttl_high = v.ttl_high;
  unique = erase-Unique id m.pending v.unique;
  records = erase-Each (IsRecord m.ttl_seconds) id m.pending v.records;
  bounded = omega (arith, length-erase id m.pending, v.bounded);
  owners = λ o. omega (arith, count_where-erase (is_owned_by (some o)) id m.pending, v.owners o);
}

pub consume-Inv :
    (now : ℕ) (id : String) (owner : Option String) (m : ConfirmationManager)
    → Inv m
    → Inv (consume now id owner m).1
unfolding consume
consume-Inv now id owner m v = elim (Result-cases (check_consume now owner (lookup id m.pending))) [
  | inl (_, e) ↦ rw (e, consume) (erase-Inv id m v)
  | inr (_, e) ↦ rw (e, consume) v
]

pub cancel_for_owner-Inv :
    (owner : String) (m : ConfirmationManager) → Inv m → Inv (cancel_for_owner owner m).1
unfolding cancel_for_owner
cancel_for_owner-Inv owner m v = elim (Bool-cases (is_empty owner)) [
  | inl e ↦ rw (e, cancel_for_owner) v
  | inr e ↦ rw (e, cancel_for_owner) (drop_where-Inv (is_owned_by (some owner)) m v)
]

pub step-Inv : (m : ConfirmationManager) (c : Call) → Inv m → Inv (step m c)
unfolding step
step-Inv m (creates now id q) v = create-Inv now id q m v
step-Inv m (consumes now id owner) v = consume-Inv now id owner m v
step-Inv m (cancels owner) v = cancel_for_owner-Inv owner m v

-- A valid manager stays valid: after any calls, in any order and at any times, refused or not, at most 128 confirmations are
-- pending and at most 4 of each owner, no identifier stands twice, each record is filed under its
-- own identifier, expires exactly the manager's time (1 to 300 seconds) after its creation, and has
-- a summary of at most 240 characters.
pub run-Inv : (m : ConfirmationManager) (cs : List Call) → Inv m → Inv (run m cs)
unfolding run
run-Inv m [] v = v
run-Inv m (c ∷ cs) v = run-Inv (step m c) cs (step-Inv m c v)
