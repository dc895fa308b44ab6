-- ===== src/Timers/Settled.antt =====
-- What becomes of a timer of windows-agent/tools/timers.py that has fired or was cancelled.
use pipa_personal_assistant.Prelude.{
  ℕ, zero, suc, ◌-◌, leb, length, ◌≡◌, String, Bool, true, false, Option, none, some, List, [], ◌∷◌,
  All, ◌==◌, ◌∙◌, ap, subst, Result, ok, err, Bool-cases, inl, inr, ◌⊎◌, eq_iff, arith, any,
}
use pipa_personal_assistant.Prelude.Dict.{lookup, update, Unique, count_where}
use pipa_personal_assistant.Prelude.Dict.Laws.{
  lookup-update, lookup-insert, insert-Unique, update-Unique,
}
use pipa_personal_assistant.Timers.{
  TimerError, invalid_id, Status, fired, cancelled, TimerRecord, Timers, is_pending, is_completed,
  settle, cancel_found, cancel, is_timer_id, fire, Event, creates, cancels, fires, step, run,
  max_active_timers, max_timer_records, drop_first, prune_completed, new_timer, add_timer,
  create_checked, create, as_seconds, as_label,
}

settle_settled : (s : Status) (r : TimerRecord) → is_pending r ≡ false → settle s r ≡ r
unfolding settle
settle_settled s r h = simp (settle, h)

lookup-settle :
    (s : Status) (id other : String) (d : Timers) {r : TimerRecord}
    → lookup id d ≡ some r
    → is_pending r ≡ false
    → lookup id (update other (settle s) d) ≡ some r
lookup-settle s id other d {r} e h = elim (Bool-cases (other == id)) [
  | inl b ↦ rw (lookup-update id other (settle s) d, b, e) (ap some (settle_settled s r h))
  | inr b ↦ rw (lookup-update id other (settle s) d, b) e
]

-- the event creates nothing
abbrev pub IsNoCreation : Event → Type 0
IsNoCreation (creates now id seconds label) = true ≡ false
IsNoCreation _ = Unit

cancel_found-keeps :
    (id other : String) (o : Option TimerRecord) (d : Timers) {r : TimerRecord}
    → lookup id d ≡ some r
    → is_pending r ≡ false
    → lookup id (cancel_found other o d).1 ≡ some r
unfolding cancel_found
cancel_found-keeps id other none d e h = e
cancel_found-keeps id other (some x) d e h = lookup-settle cancelled id other d e h

drop_first-none :
    (id : String) (n : ℕ) (p : TimerRecord → Bool) (d : Timers)
    → lookup id d ≡ none
    → lookup id (drop_first n p d) ≡ none
unfolding drop_first
drop_first-none id n p [] h = h
drop_first-none id zero p (e ∷ d) h = h
drop_first-none id (suc n) p ((k, r) ∷ d) h =
    ground (arith, drop_first-none id n p d, drop_first-none id (suc n) p d)

drop_first-Unique :
    (n : ℕ) (p : TimerRecord → Bool) (d : Timers) → Unique d → Unique (drop_first n p d)
unfolding drop_first
drop_first-Unique n p [] u = u
drop_first-Unique zero p (e ∷ d) u = u
drop_first-Unique (suc n) p ((k, r) ∷ d) u = elim (Bool-cases (p r)) [
  | inl b ↦ simp (drop_first, b) (drop_first-Unique n p d u.1)
  | inr b ↦
      simp (drop_first, b) (drop_first-none k (suc n) p d u.0, drop_first-Unique (suc n) p d u.1)
]

-- The timer is there as it is, or it is gone.
abbrev Stays : String → TimerRecord → Timers → Type 0
Stays id r d = (lookup id d ≡ some r) ⊎ (lookup id d ≡ none)

drop_first-Stays :
    (id : String) (n : ℕ) (p : TimerRecord → Bool) (d : Timers) {r : TimerRecord}
    → Unique d
    → lookup id d ≡ some r
    → Stays id r (drop_first n p d)
unfolding drop_first
drop_first-Stays id n p [] u e = inl e
drop_first-Stays id zero p (x ∷ d) u e = inl e
drop_first-Stays id (suc n) p ((k, x) ∷ d) {r} u e = elim (Bool-cases (k == id)) [
  | inl same ↦
      let k_id : k ≡ id = (eq_iff k id).0 same in
      let gone : lookup id d ≡ none = subst (λ j. lookup j d ≡ none) k_id u.0 in
      ground (arith, same, drop_first-none id n p d gone)
  | inr other ↦
      let there : lookup id d ≡ some r = ground (arith, other) in
      ground (
        arith,
        other,
        drop_first-Stays id n p d u.1 there,
        drop_first-Stays id (suc n) p d u.1 there,
      )
]

-- The event does not draw the identifier.
abbrev pub Avoids : String → Event → Type 0
Avoids id (creates now drawn seconds label) = (drawn == id) ≡ false
Avoids id _ = Unit

add_timer-Stays :
    (id drawn : String) (now seconds : ℕ) (label : String) (d : Timers) {r : TimerRecord}
    → (drawn == id) ≡ false
    → Stays id r (prune_completed d)
    → Stays id r (create_checked now drawn (ok seconds) (ok label) d).1
unfolding create_checked add_timer new_timer
add_timer-Stays id drawn now seconds label d a k =
    ground
      (arith, a, lookup-insert id drawn (new_timer now drawn seconds label) (prune_completed d))

prune_completed-Stays :
    (id : String) (d : Timers) {r : TimerRecord}
    → Unique d
    → Stays id r d
    → Stays id r (prune_completed d)
unfolding prune_completed
prune_completed-Stays id d u (inl e) =
    ground (arith, drop_first-Stays id (length d - max_timer_records) is_completed d u e)
prune_completed-Stays id d u (inr e) =
    ground (arith, drop_first-none id (length d - max_timer_records) is_completed d e)

prune_completed-Unique : (d : Timers) → Unique d → Unique (prune_completed d)
unfolding prune_completed
prune_completed-Unique d u = elim (Bool-cases (leb (length d) max_timer_records)) [
  | inl b ↦ rw (prune_completed, b) u
  | inr b ↦
      rw (prune_completed, b) (drop_first-Unique (length d - max_timer_records) is_completed d u)
]

created-Unique :
    (now : ℕ) (id : String) (seconds : Result TimerError ℕ) (label : Result TimerError String)
    (d : Timers)
    → Unique d
    → Unique (create_checked now id seconds label d).1
unfolding create_checked add_timer
created-Unique now id (ok n) (ok l) d u =
    let d' = prune_completed d in
    let u' = prune_completed-Unique d u in
    elim (Bool-cases (leb max_active_timers (count_where is_pending d'))) [
      | inl b ↦ rw (create_checked, add_timer, b) u'
      | inr b ↦
          rw (create_checked, add_timer, b)
            (insert-Unique (new_timer now id n l).timer_id (new_timer now id n l) d' u')
    ]
created-Unique now id (ok n) (err e) d u = u
created-Unique now id (err e) l d u = u

created-Stays :
    (id drawn : String) (now : ℕ) (seconds : Result TimerError ℕ) (label : Result TimerError String)
    (d : Timers) {r : TimerRecord}
    → (drawn == id) ≡ false
    → Unique d
    → Stays id r d
    → Stays id r (create_checked now drawn seconds label d).1
unfolding create_checked
created-Stays id drawn now (ok n) (ok l) d a u k =
    add_timer-Stays id drawn now n l d a (prune_completed-Stays id d u k)
created-Stays id drawn now (ok n) (err e) d a u k = k
created-Stays id drawn now (err e) l d a u k = k

step-keeps :
    (id : String) (d : Timers) (e : Event) {r : TimerRecord}
    → IsNoCreation e
    → lookup id d ≡ some r
    → is_pending r ≡ false
    → lookup id (step d e) ≡ some r
unfolding step cancel fire
step-keeps id d (creates now other seconds label) n e h = absurd (cc)
step-keeps id d (fires other) n e h = lookup-settle fired id other d e h
step-keeps id d (cancels other) n e h = elim (Bool-cases (is_timer_id other)) [
  | inl b ↦
      let c : cancel other d ≡ cancel_found other (lookup other d) d = simp (cancel, b) in
      ap (λ x. lookup id x.1) c ∙ cancel_found-keeps id other (lookup other d) d e h
  | inr b ↦
      let c : cancel other d ≡ (err invalid_id, d) = simp (cancel, b) in
      ap (λ x. lookup id x.1) c ∙ e
]

run-keeps :
    (id : String) (d : Timers) (es : List Event) {r : TimerRecord}
    → All IsNoCreation es
    → lookup id d ≡ some r
    → is_pending r ≡ false
    → lookup id (run d es) ≡ some r
unfolding run
run-keeps id d [] n e h = e
run-keeps id d (x ∷ es) n e h = run-keeps id (step d x) es n.1 (step-keeps id d x n.0 e h) h

cancel_found-Unique :
    (id : String) (o : Option TimerRecord) (d : Timers) → Unique d → Unique (cancel_found id o d).1
unfolding cancel_found
cancel_found-Unique id none d u = u
cancel_found-Unique id (some r) d u = update-Unique id (settle cancelled) d u

step-Unique : (d : Timers) (e : Event) → Unique d → Unique (step d e)
unfolding step create cancel cancel_found fire
step-Unique d (creates now id seconds label) u =
    created-Unique now id (as_seconds seconds) (as_label label) d u
step-Unique d (fires id) u = update-Unique id (settle fired) d u
step-Unique d (cancels id) u = elim (Bool-cases (is_timer_id id)) [
  | inl b ↦
      let c : cancel_found id (lookup id d) d ≡ cancel id d = simp (cancel, b) in
      subst (λ x. Unique x.1) c (cancel_found-Unique id (lookup id d) d u)
  | inr b ↦
      let c : (err invalid_id, d) ≡ cancel id d = simp (cancel, b) in subst (λ x. Unique x.1) c u
]

step-gone :
    (id : String) (d : Timers) (e : Event)
    → IsNoCreation e
    → lookup id d ≡ none
    → lookup id (step d e) ≡ none
unfolding step cancel cancel_found fire
step-gone id d (creates now other seconds label) n e = absurd (cc)
step-gone id d (fires other) n e = ground (arith, e, lookup-update id other (settle fired) d)
step-gone id d (cancels other) n e = ground (arith, e, lookup-update id other (settle cancelled) d)

step-Stays :
    (id : String) (d : Timers) (e : Event) {r : TimerRecord}
    → Avoids id e
    → Unique d
    → is_pending r ≡ false
    → Stays id r d
    → Stays id r (step d e)
unfolding step create
step-Stays id d (creates now drawn seconds label) a u h k =
    created-Stays id drawn now (as_seconds seconds) (as_label label) d a u k
step-Stays id d (cancels other) a u h (inl e) = inl (step-keeps id d (cancels other) tt e h)
step-Stays id d (cancels other) a u h (inr e) = inr (step-gone id d (cancels other) tt e)
step-Stays id d (fires other) a u h (inl e) = inl (step-keeps id d (fires other) tt e h)
step-Stays id d (fires other) a u h (inr e) = inr (step-gone id d (fires other) tt e)

run-Stays :
    (id : String) (d : Timers) (es : List Event) {r : TimerRecord}
    → All (Avoids id) es
    → Unique d
    → is_pending r ≡ false
    → Stays id r d
    → Stays id r (run d es)
unfolding run
run-Stays id d [] a u h k = k
run-Stays id d (x ∷ es) a u h k =
    run-Stays id (step d x) es a.1 (step-Unique d x u) h (step-Stays id d x a.0 u h k)

abbrev pub is_creation : Event → Bool
is_creation (creates now id seconds label) = true
is_creation _ = false

no_creation : (es : List Event) → any is_creation es ≡ false → All IsNoCreation es
no_creation [] h = tt
no_creation (creates now id seconds label ∷ es) h = cc
no_creation (cancels id ∷ es) h = (tt, no_creation es h)
no_creation (fires id ∷ es) h = (tt, no_creation es h)

-- A timer that has fired or was cancelled never changes, whatever is created, cancelled and whichever
-- threads run out afterwards, as long as its identifier is not drawn again: it stays exactly as it
-- is, or a later `create` has pruned it.
pub run-settled :
    (id : String) (d : Timers) (es : List Event) {r : TimerRecord}
    → Unique d
    → All (Avoids id) es
    → lookup id d ≡ some r
    → is_pending r ≡ false
    → (lookup id (run d es) ≡ some r)
      ⊎ ((lookup id (run d es) ≡ none) × (any is_creation es ≡ true))
run-settled id d es u a e h = elim (Bool-cases (any is_creation es)) [
  | inr c ↦ inl (run-keeps id d es (no_creation es c) e h)
  | inl c ↦ elim (run-Stays id d es a u h (inl e)) [ inl k ↦ inl k | inr k ↦ inr (k, c) ]
]
