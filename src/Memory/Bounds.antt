-- ===== src/Memory/Bounds.antt =====
-- The memory stays within its bounds, and remembers what it is told.
use pipa_personal_assistant.Prelude.{
  ℕ, zero, suc, ◌-◌, ◌≤◌, ◌≡◌, refl, String, true, false, some, List, [], ◌∷◌, ◌++◌, ◌==◌,
  if◌then◌else◌, length, length-append, length-drop, drop, All, All-append, contains, distinct, ok,
  arith, inl, inr, eq_iff, eq_refl, Bool-cases, Option-cases,
}
use pipa_personal_assistant.Prelude.Text.{len, is_empty, strip}
use pipa_personal_assistant.Prelude.Text.Laws.{len-strip}
use pipa_personal_assistant.Prelude.Dict.{lookup, insert, Unique, Each}
use pipa_personal_assistant.Prelude.Dict.Laws.{
  insert-Unique, insert-Each, lookup-Each, lookup-insert,
}
use pipa_personal_assistant.Prelude.Dict.Counts.{length-insert}
use pipa_personal_assistant.Memory.{
  Facts, Remembered, max_fact_length, max_facts_per_device, max_memory_devices, facts_of, add_fact,
  is_fact, has_room, remember, recall,
}

abbrev pub IsFact : String → Type 0
IsFact s = (is_empty s ≡ false) × (len s ≤ max_fact_length)

pub record AreFacts (facts : List String) : Type 0 where
  pub texts : All IsFact facts
  pub once : distinct facts ≡ true
  pub few : length facts ≤ max_facts_per_device

pub record Inv (m : Facts) : Type 0 where
  pub unique : Unique m
  pub facts : Each (λ _ facts. AreFacts facts) m
  pub devices : length m ≤ max_memory_devices

All-drop {ℓ} : {A : Type 0} (P : A → Type ℓ) (n : ℕ) (xs : List A) → All P xs → All P (drop n xs)
All-drop P zero xs h = h
All-drop P (suc n) [] h = h
All-drop P (suc n) (x ∷ xs) h = All-drop P n xs h.1

distinct-drop : (n : ℕ) (xs : List String) → distinct xs ≡ true → distinct (drop n xs) ≡ true
unfolding distinct
distinct-drop zero xs h = h
distinct-drop (suc n) [] h = h
distinct-drop (suc n) (x ∷ xs) h = distinct-drop n xs (ground arith)

contains-append :
    (k j : String) (xs : List String)
    → contains k (xs ++ j ∷ []) ≡ (if contains k xs then true else j == k)
unfolding contains
contains-append k j [] = ground arith
contains-append k j (x ∷ xs) = ground (arith, contains-append k j xs)

distinct-append :
    (j : String) (xs : List String)
    → distinct xs ≡ true
    → contains j xs ≡ false
    → distinct (xs ++ j ∷ []) ≡ true
unfolding distinct contains
distinct-append j [] h c = refl
distinct-append j (x ∷ xs) h c =
    ground (arith, distinct-append j xs, contains-append x j xs, eq_iff j x, eq_iff x j)

add_fact-AreFacts :
    (fact : String) (facts : List String)
    → IsFact fact
    → AreFacts facts
    → AreFacts (add_fact fact facts)
unfolding add_fact
add_fact-AreFacts fact facts f h = elim (Bool-cases (contains fact facts)) [
  | inl old ↦
      rw (old, add_fact)
        (record {
          texts = All-drop IsFact _ facts h.texts;
          once = distinct-drop _ facts h.once;
          few = omega (arith, length-drop (length facts - max_facts_per_device) facts);
        })
  | inr new ↦
      let grown : List String = facts ++ fact ∷ [] in
      rw (new, add_fact)
        (record {
          texts = All-drop IsFact _ grown (All-append IsFact facts (fact ∷ []) h.texts (f, tt));
          once = distinct-drop _ grown (distinct-append fact facts h.once new);
          few = omega (arith, length-drop (length grown - max_facts_per_device) grown);
        })
]

facts_of-AreFacts : (device : String) (m : Facts) → Inv m → AreFacts (facts_of device m)
facts_of-AreFacts device m v = elim (Option-cases (lookup device m)) [
  | inl e ↦ rw e (unfold distinct in record { texts = tt; once = refl; few = omega arith })
  | inr (facts, e) ↦ rw e (lookup-Each (λ _ facts. AreFacts facts) device facts m v.facts e)
]

strip-IsFact : (fact : String) → is_fact fact ≡ true → IsFact (strip fact)
unfolding is_fact
strip-IsFact fact h = ground (arith, len-strip fact)

-- a device that is known keeps the number of entries
length-insert_known :
    (k : String) (v w : List String) (m : Facts)
    → lookup k m ≡ some w
    → length (insert k v m) ≡ length m
length-insert_known k v w [] h = cc
length-insert_known k v w (e ∷ m) h = ground (arith, length-insert_known k v w m)

insert_room :
    (device : String) (facts : List String) (m : Facts)
    → has_room device m ≡ true
    → length m ≤ max_memory_devices
    → length (insert device facts m) ≤ max_memory_devices
unfolding has_room
insert_room device facts m h b = elim (Option-cases (lookup device m)) [
  | inl e ↦ ground (arith, length-insert device facts m)
  | inr (w, e) ↦ omega (arith, length-insert_known device facts w m e)
]

-- Whatever is remembered, there are at most 256 devices, and each has at most 100 facts, distinct,
-- not empty and of at most 500 characters.
pub remember-Inv : (device fact : String) (m : Facts) → Inv m → Inv (remember device fact m).1
unfolding remember
remember-Inv device fact m v = elim (Bool-cases (is_fact fact)) [
  | inr e ↦ rw (e, remember) v
  | inl e ↦ elim (Bool-cases (has_room device m)) [
    | inr f ↦ rw (e, f, remember) v
    | inl f ↦
        let facts = add_fact (strip fact) (facts_of device m) in
        rw (e, f, remember)
          (record {
            unique = insert-Unique device facts m v.unique;
            facts =
                insert-Each (λ _ facts. AreFacts facts) device facts m
                  (add_fact-AreFacts (strip fact) (facts_of device m) (strip-IsFact fact e)
                    (facts_of-AreFacts device m v))
                  v.facts;
            devices = insert_room device facts m f v.devices;
          })
  ]
]

contains-drop_last :
    (fact : String) (n : ℕ) (xs : List String)
    → n ≤ length xs
    → contains fact (drop n (xs ++ fact ∷ [])) ≡ true
unfolding contains
contains-drop_last fact zero [] h = ground (arith, eq_refl fact)
contains-drop_last fact zero (x ∷ xs) h = ground (arith, contains-append fact fact xs, eq_refl fact)
contains-drop_last fact (suc n) [] h = absurd (omega arith)
contains-drop_last fact (suc n) (x ∷ xs) h = contains-drop_last fact n xs (omega arith)

contains-add_fact :
    (fact : String) (facts : List String)
    → length facts ≤ max_facts_per_device
    → contains fact (add_fact fact facts) ≡ true
unfolding add_fact
contains-add_fact fact facts h = elim (Bool-cases (contains fact facts)) [
  | inl old ↦
      rw (old, add_fact) (let e : length facts - max_facts_per_device ≡ 0 = omega arith in rw e old)
  | inr new ↦
      rw (new, add_fact)
        (contains-drop_last fact _ facts (omega (arith, length-append facts (fact ∷ []))))
]

-- In a valid memory, a fact that is remembered is recalled, stripped, by its device, and no other device's facts
-- change.
pub recall-remember :
    (device other fact : String) (m : Facts) {r : Remembered}
    → Inv m
    → (remember device fact m).0 ≡ ok r
    → (contains (strip fact) (recall device (remember device fact m).1) ≡ true)
      × (r.fact ≡ strip fact)
      × (r.count ≡ length (recall device (remember device fact m).1))
      × (recall other (remember device fact m).1
          ≡ (if device == other then recall device (remember device fact m).1 else recall other m))
unfolding remember
recall-remember device other fact m v h =
    let facts = add_fact (strip fact) (facts_of device m) in
    ground (
      arith,
      eq_refl device,
      lookup-insert device device facts m,
      lookup-insert other device facts m,
      contains-add_fact (strip fact) (facts_of device m) (facts_of-AreFacts device m v).few,
    )
