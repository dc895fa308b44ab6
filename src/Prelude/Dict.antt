-- ===== src/Prelude/Dict.antt =====
-- Python's `dict` with text keys, as the entries in insertion order.
-- `Unique` is what Python's own dict guarantees; the states that hold a dict carry it.
pub mod Laws
pub mod Counts
use Prim.Native.Nat.{ℕ, suc}
use Prim.Native.String.{String}
use mathlib.Core.Path.{◌≡◌}
use mathlib.Core.Bool.{Bool, true, false}
use mathlib.Core.Option.{Option, none, some}
use mathlib.Core.List.{List, [], ◌∷◌}
use text.Mathlib.Text.{◌==◌}
use pipa_personal_assistant.Prelude.Tests.{if◌then◌else◌, is_none}

abbrev pub Dict {ℓ} : Type ℓ → Type ℓ
Dict V = List (String × V)

module _ {ℓ} {V : Type ℓ} where
  -- `d.get(k)`
  abbrev pub lookup : String → Dict V → Option V
  lookup k [] = none
  lookup k ((j, v) ∷ d) = if j == k then some v else lookup k d

  -- `k in d`
  abbrev pub has_key : String → Dict V → Bool
  has_key k d = elim (lookup k d) [ none ↦ false | some _ ↦ true ]

  -- `d[k] = v`: an old key keeps its place
  abbrev pub insert : String → V → Dict V → Dict V
  insert k v [] = (k, v) ∷ []
  insert k v ((j, w) ∷ d) = if j == k then (k, v) ∷ d else (j, w) ∷ insert k v d

  -- `d.pop(k, None)`, `del d[k]`
  abbrev pub erase : String → Dict V → Dict V
  erase k [] = []
  erase k ((j, v) ∷ d) = let rest = erase k d in if j == k then rest else (j, v) ∷ rest

  -- `for k in [k for k, v in d.items() if p(v)]: del d[k]`
  abbrev pub drop_where : (V → Bool) → Dict V → Dict V
  drop_where p [] = []
  drop_where p ((j, v) ∷ d) = let rest = drop_where p d in if p v then rest else (j, v) ∷ rest

  -- `[k for k, v in d.items() if p(v)]`
  abbrev pub keys_where : (V → Bool) → Dict V → List String
  keys_where p [] = []
  keys_where p ((j, v) ∷ d) = let rest = keys_where p d in if p v then j ∷ rest else rest

  -- `sum(p(v) for v in d.values())`
  abbrev pub count_where : (V → Bool) → Dict V → ℕ
  count_where p [] = 0
  count_where p ((j, v) ∷ d) = let rest = count_where p d in if p v then suc rest else rest

  -- `d.pop(next(iter(d)))`: the oldest entry goes
  abbrev pub drop_oldest : Dict V → Dict V
  drop_oldest [] = []
  drop_oldest (e ∷ d) = d

  -- No key stands twice.
  abbrev pub Unique : Dict V → Type ℓ
  Unique [] = Unit
  Unique ((k, v) ∷ d) = (lookup k d ≡ none) × Unique d

  -- `P` holds of each entry.
  abbrev pub Each {κ} : (String → V → Type κ) → Dict V → Type κ
  Each P [] = Unit
  Each P ((k, v) ∷ d) = P k v × Each P d

  -- a mutation of the object stored under a key
  abbrev pub update : String → (V → V) → Dict V → Dict V
  update k f [] = []
  update k f ((j, v) ∷ d) = if j == k then (j, f v) ∷ d else (j, v) ∷ update k f d
