-- ===== src/Json.antt =====
-- The Python values that cross the program's boundaries as JSON: what `json.loads` returns, and the
-- `dict[str, Any]` of tool arguments and results. An object lists its fields in insertion order.
-- A float is kept as what the program observes of it: its text, the integer that it equals, and
-- whether it is finite.
pub mod Encode
use pipa_personal_assistant.Prelude.{
  ℕ, suc, String, Bool, true, false, Option, none, some, List, [], ◌∷◌, ◌==◌, if◌then◌else◌,
}
use pipa_personal_assistant.Prelude.Int.{ℤ}

pub record Float : Type 0 where
  pub repr : String
  pub whole : Option ℤ
  pub finite : Bool

mutual
  pub data Value : Type 0 where
    null : Value
    bool : Bool → Value
    int : ℤ → Value
    float : Float → Value
    str : String → Value
    list : Items → Value
    dict : Fields → Value

  pub data Items : Type 0 where
    nil : Items
    cons : Value → Items → Items

  pub data Fields : Type 0 where
    end : Fields
    field : String → Value → Fields → Fields

-- `payload.get(name)`; a missing key and `None` are told apart by `has_field`
unfoldable pub get_field : String → Fields → Option Value
get_field k end = none
get_field k (field j v fs) = if j == k then some v else get_field k fs

-- `payload.get(name, default)`
abbrev pub get_or : Option Value → Value → Value
get_or none v = v
get_or (some v) w = v

-- `list(payload)`: the keys
unfoldable pub field_names : Fields → List String
field_names end = []
field_names (field k v fs) = k ∷ field_names fs

-- `len(items)`
unfoldable pub item_count : Items → ℕ
item_count nil = 0
item_count (cons v vs) = suc (item_count vs)

-- `len(fields)`
unfoldable pub field_count : Fields → ℕ
field_count end = 0
field_count (field k v fs) = suc (field_count fs)

unfoldable pub to_list : Items → List Value
to_list nil = []
to_list (cons v vs) = v ∷ to_list vs

unfoldable pub of_texts : List String → Items
of_texts [] = nil
of_texts (s ∷ ss) = cons (str s) (of_texts ss)
