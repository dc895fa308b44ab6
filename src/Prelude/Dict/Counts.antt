-- ===== src/Prelude/Dict/Counts.antt =====
-- How the updates of a dict change its size and the number of the entries that meet a test.
use Prim.Native.Nat.{◌+◌, ◌≤◌}
use Prim.Native.String.{String}
use mathlib.Core.Path.{◌≡◌, refl}
use mathlib.Core.Bool.{Bool}
use mathlib.Core.List.{[], ◌∷◌}
use native.Mathlib.Omega.{arith}
use pipa_personal_assistant.Prelude.Tests.{if◌then◌else◌}
use pipa_personal_assistant.Prelude.Lists.{length}
use pipa_personal_assistant.Prelude.Dict.{Dict, insert, erase, drop_where, count_where, update}

module _ {ℓ} {V : Type ℓ} where
  pub length-insert : (k : String) (v : V) (d : Dict V) → length (insert k v d) ≤ length d + 1
  length-insert k v [] = omega arith
  length-insert k v (e ∷ d) = ground (arith, length-insert k v d)

  pub length-erase : (k : String) (d : Dict V) → length (erase k d) ≤ length d
  length-erase k [] = omega arith
  length-erase k (e ∷ d) = ground (arith, length-erase k d)

  pub length-drop_where : (p : V → Bool) (d : Dict V) → length (drop_where p d) ≤ length d
  length-drop_where p [] = omega arith
  length-drop_where p (e ∷ d) = ground (arith, length-drop_where p d)

  pub count_where-insert :
      (p : V → Bool) (k : String) (v : V) (d : Dict V)
      → count_where p (insert k v d) ≤ count_where p d + (if p v then 1 else 0)
  count_where-insert p k v [] = ground arith
  count_where-insert p k v (e ∷ d) = ground (arith, count_where-insert p k v d)

  pub count_where-erase :
      (p : V → Bool) (k : String) (d : Dict V) → count_where p (erase k d) ≤ count_where p d
  count_where-erase p k [] = omega arith
  count_where-erase p k (e ∷ d) = ground (arith, count_where-erase p k d)

  pub count_where-drop_where :
      (p q : V → Bool) (d : Dict V) → count_where p (drop_where q d) ≤ count_where p d
  count_where-drop_where p q [] = omega arith
  count_where-drop_where p q (e ∷ d) = ground (arith, count_where-drop_where p q d)

  -- No entry that meets the test is left.
  pub count_where-drop_where_self : (p : V → Bool) (d : Dict V) → count_where p (drop_where p d) ≡ 0
  count_where-drop_where_self p [] = refl
  count_where-drop_where_self p ((k, v) ∷ d) = ground (arith, count_where-drop_where_self p d)

  -- What is dropped and what is left make up the dict.
  pub length-drop_where_count :
      (p : V → Bool) (d : Dict V) → length (drop_where p d) + count_where p d ≡ length d
  length-drop_where_count p [] = omega arith
  length-drop_where_count p (e ∷ d) = ground (arith, length-drop_where_count p d)

  pub length-update : (k : String) (f : V → V) (d : Dict V) → length (update k f d) ≡ length d
  length-update k f [] = refl
  length-update k f (e ∷ d) = ground (arith, length-update k f d)

  -- A mutation that the test does not see.
  pub count_where-update :
      (p : V → Bool) (k : String) (f : V → V) (d : Dict V)
      → ((v : V) → p (f v) ≡ p v)
      → count_where p (update k f d) ≡ count_where p d
  count_where-update p k f [] h = refl
  count_where-update p k f ((j, v) ∷ d) h = ground (arith, h v, count_where-update p k f d h)
