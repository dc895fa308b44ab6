-- ===== src/Prelude/Dict/Laws.antt =====
-- Lookups after each update of a dict, and what the updates keep.
use Prim.Native.String.{String}
use mathlib.Core.Path.{◌≡◌, refl}
use mathlib.Core.Bool.{Bool, true, false}
use mathlib.Core.Option
use mathlib.Core.Option.{Option, none, some}
use mathlib.Core.List.{[], ◌∷◌}
use native.Mathlib.Omega.{arith}
use text.Mathlib.Text.{◌==◌}
use text.Mathlib.TextEquality.{eq_iff}
use mathlib.Core.Logic.{inl, inr}
use pipa_personal_assistant.Prelude.Tests.{if◌then◌else◌, Bool-cases}
use pipa_personal_assistant.Prelude.Dict.{
  Dict, lookup, insert, erase, drop_where, drop_oldest, Unique, Each, update,
}

-- An entry that a deletion by value may take.
abbrev pub unless {ℓ} : {V : Type ℓ} → (V → Bool) → Option V → Option V
unless p none = none
unless p (some v) = if p v then none else some v

module _ {ℓ} {V : Type ℓ} where
  pub lookup-insert :
      (j k : String) (v : V) (d : Dict V)
      → lookup j (insert k v d) ≡ (if k == j then some v else lookup j d)
  lookup-insert j k v [] = refl
  lookup-insert j k v ((i, w) ∷ d) =
      ground (arith, eq_iff k j, eq_iff i k, eq_iff i j, lookup-insert j k v d)

  pub lookup-erase :
      (j k : String) (d : Dict V) → lookup j (erase k d) ≡ (if k == j then none else lookup j d)
  lookup-erase j k [] = ground arith
  lookup-erase j k ((i, v) ∷ d) =
      ground (arith, eq_iff k j, eq_iff i k, eq_iff i j, lookup-erase j k d)

  lookup-drop_where-none :
      (j : String) (p : V → Bool) (d : Dict V)
      → lookup j d ≡ none
      → lookup j (drop_where p d) ≡ none
  lookup-drop_where-none j p [] h = refl
  lookup-drop_where-none j p ((i, v) ∷ d) h = ground (arith, lookup-drop_where-none j p d)

  pub lookup-drop_where :
      (j : String) (p : V → Bool) (d : Dict V)
      → Unique d
      → lookup j (drop_where p d) ≡ unless p (lookup j d)
  lookup-drop_where j p [] u = refl
  lookup-drop_where j p ((i, v) ∷ d) u =
      ground (arith, eq_iff i j, lookup-drop_where j p d u.1, lookup-drop_where-none i p d u.0)

  pub insert-Unique : (k : String) (v : V) (d : Dict V) → Unique d → Unique (insert k v d)
  insert-Unique k v [] u = (refl, tt)
  insert-Unique k v ((i, w) ∷ d) u =
      ground (arith, eq_iff i k, eq_iff k i, insert-Unique k v d u.1, lookup-insert i k v d)

  pub erase-Unique : (k : String) (d : Dict V) → Unique d → Unique (erase k d)
  erase-Unique k [] u = tt
  erase-Unique k ((i, w) ∷ d) u = ground (arith, erase-Unique k d u.1, lookup-erase i k d)

  pub drop_where-Unique : (p : V → Bool) (d : Dict V) → Unique d → Unique (drop_where p d)
  drop_where-Unique p [] u = tt
  drop_where-Unique p ((i, w) ∷ d) u =
      ground (arith, drop_where-Unique p d u.1, lookup-drop_where-none i p d u.0)

  pub drop_oldest-Unique : (d : Dict V) → Unique d → Unique (drop_oldest d)
  drop_oldest-Unique [] u = tt
  drop_oldest-Unique (e ∷ d) u = u.1

module _ {ℓ κ} {V : Type ℓ} (P : String → V → Type κ) where
  pub insert-Each : (k : String) (v : V) (d : Dict V) → P k v → Each P d → Each P (insert k v d)
  insert-Each k v [] h e = (h, tt)
  insert-Each k v ((i, w) ∷ d) h e =
      elim (i == k) as (λ b. Each P (if b then (k, v) ∷ d else (i, w) ∷ insert k v d)) [
        | true ↦ (h, e.1)
        | false ↦ (e.0, insert-Each k v d h e.1)
      ]

  pub erase-Each : (k : String) (d : Dict V) → Each P d → Each P (erase k d)
  erase-Each k [] e = tt
  erase-Each k ((i, w) ∷ d) e =
      elim (i == k) as (λ b. Each P (if b then erase k d else (i, w) ∷ erase k d)) [
        | true ↦ erase-Each k d e.1
        | false ↦ (e.0, erase-Each k d e.1)
      ]

  pub drop_where-Each : (p : V → Bool) (d : Dict V) → Each P d → Each P (drop_where p d)
  drop_where-Each p [] e = tt
  drop_where-Each p ((i, w) ∷ d) e =
      elim (p w) as (λ b. Each P (if b then drop_where p d else (i, w) ∷ drop_where p d)) [
        | true ↦ drop_where-Each p d e.1
        | false ↦ (e.0, drop_where-Each p d e.1)
      ]

  pub lookup-Each : (k : String) (v : V) (d : Dict V) → Each P d → lookup k d ≡ some v → P k v
  lookup-Each k v [] e h = cc
  lookup-Each k v ((i, w) ∷ d) e h = ground (arith, eq_iff i k, lookup-Each k v d e.1)

module _ {ℓ} {V : Type ℓ} where
  pub lookup-update :
      (j k : String) (f : V → V) (d : Dict V)
      → lookup j (update k f d) ≡ (if k == j then Option.map f (lookup j d) else lookup j d)
  lookup-update j k f [] = ground arith
  lookup-update j k f ((i, v) ∷ d) =
      ground (arith, eq_iff k j, eq_iff i k, eq_iff i j, lookup-update j k f d)

  update-none :
      (j k : String) (f : V → V) (d : Dict V) → lookup j d ≡ none → lookup j (update k f d) ≡ none
  update-none j k f d h = rw (lookup-update j k f d, h) (ground arith)

  pub update-Unique : (k : String) (f : V → V) (d : Dict V) → Unique d → Unique (update k f d)
  update-Unique k f [] u = tt
  update-Unique k f ((i, w) ∷ d) u =
      ground (arith, update-Unique k f d u.1, update-none i k f d u.0)

module _ {ℓ κ} {V : Type ℓ} (P : String → V → Type κ) where
  pub update-Each :
      (k : String) (f : V → V) (d : Dict V)
      → ((j : String) (v : V) → P j v → P j (f v))
      → Each P d
      → Each P (update k f d)
  update-Each k f [] h e = tt
  update-Each k f ((i, w) ∷ d) h e =
      elim (i == k) as (λ b. Each P (if b then (i, f w) ∷ d else (i, w) ∷ update k f d)) [
        | true ↦ (h i w e.0, e.1)
        | false ↦ (e.0, update-Each k f d h e.1)
      ]

module _ {ℓ} {V : Type ℓ} where
  -- Two mutations that agree on the entry.
  pub update_cong :
      (k : String) (f g : V → V) (d : Dict V)
      → ((v : V) → lookup k d ≡ some v → f v ≡ g v)
      → update k f d ≡ update k g d
  update_cong k f g [] h = refl
  update_cong k f g ((j, v) ∷ d) h = elim (Bool-cases (j == k)) [
    | inl e ↦ simp (e, h v (simp e))
    | inr e ↦ simp (e, update_cong k f g d λ w q. h w (simp (e, q)))
  ]
