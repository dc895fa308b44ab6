-- ===== src/Confirmations/Counts.antt =====
-- How many confirmations of an owner each call of the manager leaves.
use pipa_personal_assistant.Prelude.{
  ℕ, ◌+◌, ◌≤◌, ◌≡◌, refl, inl, inr, String, Bool, true, false, Option, none, some, [], ◌∷◌, Result,
  ok, err, arith, Result-cases, Bool-cases, if◌then◌else◌, ◌==◌, same, eq_refl, ap, ◌∙◌,
}
use pipa_personal_assistant.Prelude.Dict.{Dict, count_where, erase, lookup}
use pipa_personal_assistant.Prelude.Dict.Counts.{
  count_where-insert, count_where-erase, count_where-drop_where,
}
use pipa_personal_assistant.Confirmations.{
  PendingConfirmation, ConfirmationManager, Request, is_owned_by, is_expired, create, consume,
  check_consume, check_request, check_limits, new_record, prune,
}
use pipa_personal_assistant.Confirmations.OneUse.{consume_iff}

-- the number of the confirmations of an owner, or of those that have none
abbrev pub owned : Option String → ConfirmationManager → ℕ
owned owner m = count_where (is_owned_by owner) m.pending

abbrev pub is_ok : {A B : Type 0} → Result A B → Bool
is_ok (ok a) = true
is_ok (err e) = false

prune-owned :
    (owner : Option String) (now : ℕ) (m : ConfirmationManager)
    → owned owner (prune now m) ≤ owned owner m
unfolding prune
prune-owned owner now m = count_where-drop_where (is_owned_by owner) (is_expired now) m.pending

-- `create` adds at most one confirmation, to its owner, and none if it raises.
pub create-owned :
    (owner : Option String) (now : ℕ) (id : String) (q : Request) (m : ConfirmationManager)
    → owned owner (create now id q m).1
      ≤ owned owner m
        + (if is_ok (create now id q m).0 then (if same q.owner_id owner then 1 else 0) else 0)
unfolding create new_record
create-owned owner now id q m = elim (Result-cases (check_request q)) [
  | inr (x, e) ↦ rw (create, e) (omega arith)
  | inl (x, e) ↦ elim (Result-cases (check_limits q.owner_id (prune now m))) [
    | inr (y, f) ↦ rw (create, e, f) (omega (arith, prune-owned owner now m))
    | inl (y, f) ↦
        rw (create, e, f)
          (omega (
            arith,
            prune-owned owner now m,
            count_where-insert (is_owned_by owner) id (new_record m.ttl_seconds now id q)
                (prune now m).pending,
          ))
  ]
]

-- `consume` adds none.
pub consume-owned :
    (owner : Option String) (now : ℕ) (id : String) (caller : Option String)
    (m : ConfirmationManager)
    → owned owner (consume now id caller m).1 ≤ owned owner m
unfolding consume
consume-owned owner now id caller m =
    elim (Result-cases (check_consume now caller (lookup id m.pending))) [
      | inl (r, e) ↦ rw (consume, e) (count_where-erase (is_owned_by owner) id m.pending)
      | inr (x, e) ↦ rw (consume, e) (omega arith)
    ]

erase_found :
    (p : PendingConfirmation → Bool) (id : String) (d : Dict PendingConfirmation)
    {r : PendingConfirmation}
    → lookup id d ≡ some r
    → p r ≡ true
    → count_where p (erase id d) + 1 ≤ count_where p d
erase_found p id [] e h = absurd (cc)
erase_found p id ((j, v) ∷ d) {r} e h = elim (Bool-cases (j == id)) [
  | inl b ↦ let f : v ≡ r = ground arith in ground (arith, count_where-erase p id d, ap p f)
  | inr b ↦ let f : lookup id d ≡ some r = ground arith in ground (arith, erase_found p id d f h)
]

same_refl : (o : Option String) → same o o ≡ true
same_refl none = refl
same_refl (some a) = eq_refl a

consumed-pending :
    (now : ℕ) (id : String) (caller : Option String) (m : ConfirmationManager)
    {r : PendingConfirmation}
    → (consume now id caller m).0 ≡ ok r
    → (consume now id caller m).1.pending ≡ erase id m.pending
unfolding consume
consumed-pending now id caller m h = ground arith

-- Where every confirmation has an owner, a `consume` that returns takes one from the caller.
pub consume-taken :
    (now : ℕ) (id : String) (caller : Option String) (m : ConfirmationManager)
    {r : PendingConfirmation}
    → owned none m ≡ 0
    → (consume now id caller m).0 ≡ ok r
    → owned caller (consume now id caller m).1 + 1 ≤ owned caller m
consume-taken now id caller m {r} n h =
    let (l, (t, o)) = (consume_iff now id caller m r).0 h in
    rw (consumed-pending now id caller m h) (elim o [
      | inl e ↦
          let some_ownerless =
            erase_found (is_owned_by none) id m.pending l (ap (λ x. same x none) e) in
          absurd (omega (arith, n, some_ownerless))
      | inr e ↦
          erase_found (is_owned_by caller) id m.pending l
            (ap (λ x. same x caller) e ∙ same_refl caller)
    ])
