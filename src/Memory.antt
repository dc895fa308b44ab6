-- ===== src/Memory.antt =====
-- backend/pipa_core/memory.py: bounded facts of each device.
pub mod Bounds
use pipa_personal_assistant.Prelude.{
  ℕ, ◌-◌, ltb, leb, String, Bool, true, false, ◌&&◌, ◌||◌, not, Option, none, some, List, [], ◌∷◌,
  ◌++◌, if◌then◌else◌, length, drop, contains, Result, ok, err,
}
use pipa_personal_assistant.Prelude.Dict.{Dict, lookup, has_key, insert}
use pipa_personal_assistant.Prelude.Text.{len, is_empty, strip}

abbrev pub max_fact_length : ℕ
max_fact_length = 500

abbrev pub max_facts_per_device : ℕ
max_facts_per_device = 100

abbrev pub max_memory_devices : ℕ
max_memory_devices = 256

-- `_facts`, a dict that answers a missing device by no facts
abbrev pub Facts : Type 0
Facts = Dict (List String)

abbrev pub or_nothing : Option (List String) → List String
or_nothing none = []
or_nothing (some facts) = facts

-- `facts = self._facts[device_id]`
abbrev pub facts_of : String → Facts → List String
facts_of device m = or_nothing (lookup device m)

-- the two `ValueError`s of `remember`
pub data MemoryError : Type 0 where
  invalid_fact too_many_devices : MemoryError

pub record Remembered : Type 0 where
  pub fact : String
  pub count : ℕ

-- `if fact not in facts: facts.append(fact)`, and `del facts[:-MAX_FACTS_PER_DEVICE]`
unfoldable pub add_fact : String → List String → List String
add_fact fact facts =
    let grown = if contains fact facts then facts else facts ++ fact ∷ [] in
    drop (length grown - max_facts_per_device) grown

unfoldable pub is_fact : String → Bool
is_fact fact = not (is_empty (strip fact)) && not (ltb max_fact_length (len fact))

unfoldable pub has_room : String → Facts → Bool
has_room device m = has_key device m || not (leb max_memory_devices (length m))

unfoldable pub remember : String → String → Facts → Result MemoryError Remembered × Facts
remember device fact m =
    let facts = add_fact (strip fact) (facts_of device m) in
    if not (is_fact fact)
    then (err invalid_fact, m)
    else if not (has_room device m)
    then (err too_many_devices, m)
    else (ok (record { fact = strip fact; count = length facts }), insert device facts m)

-- `recall` does not make an entry for a device that has none
abbrev pub recall : String → Facts → List String
recall = facts_of
