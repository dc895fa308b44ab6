-- ===== src/Secure/Canonical/Injective.antt =====
-- Two canonical texts with the same keys are equal only if their values are.
use package.text.Mathlib.TextEquality.{Char-path}
use pipa_personal_assistant.Prelude.{
  ◌≡◌, String, Bool, true, false, not, List, [], ◌∷◌, ◌++◌, nat_eq, arith, refl, ap, sym, ◌∙◌,
}
use pipa_personal_assistant.Prelude.Bytes.{Bytes, codes, append_cancel}
use pipa_personal_assistant.Prelude.Text.{decimal, every}
use pipa_personal_assistant.Secure.Canonical.{
  Scalar, text, number, truth, quoted, scalar, entries, canonical,
}

-- A text that ends where its closing quote stands.
unfoldable pub is_plain : String → Bool
unfolding every
is_plain s = every (λ c. not (nat_eq c b'"')) s

quoted_injective :
    (s t : String) (xs ys : Bytes)
    → is_plain s ≡ true
    → is_plain t ≡ true
    → codes s ++ b'"' ∷ xs ≡ codes t ++ b'"' ∷ ys
    → (s ≡ t) × (xs ≡ ys)
unfolding is_plain
quoted_injective String.[] String.[] xs ys p q e = (refl, cc)
quoted_injective String.[] (String.◌∷◌ d t) xs ys p q e = absurd (ground arith)
quoted_injective (String.◌∷◌ c s) String.[] xs ys p q e = absurd (ground arith)
quoted_injective (String.◌∷◌ c s) (String.◌∷◌ d t) xs ys p q e =
    let same : c ≡ d = Char-path c d (cc) in
    let rest : (s ≡ t) × (xs ≡ ys) =
      quoted_injective s t xs ys (ground arith) (ground arith) (cc) in
    (cc (same, rest.0), rest.1)

-- Values of one kind; texts are plain, and a number is fixed.
abbrev pub Comparable : Scalar → Scalar → Type 0
Comparable (text s) (text t) = (is_plain s ≡ true) × (is_plain t ≡ true)
Comparable (number n) (number m) = n ≡ m
Comparable (truth a) (truth b) = a ≡ b
Comparable _ _ = ⊥

abbrev pub SameKeys : List (String × Scalar) → List (String × Scalar) → Type 0
SameKeys [] [] = Unit
SameKeys ((k, v) ∷ es) ((j, w) ∷ fs) = (k ≡ j) × Comparable v w × SameKeys es fs
SameKeys _ _ = ⊥

scalar_injective :
    (v w : Scalar) (xs ys : Bytes)
    → Comparable v w
    → scalar v xs ≡ scalar w ys
    → (v ≡ w) × (xs ≡ ys)
unfolding scalar quoted
scalar_injective (text s) (text t) xs ys h e =
    let both = quoted_injective s t xs ys h.0 h.1 (cc) in (ap text both.0, both.1)
scalar_injective (number n) (number m) xs ys h e =
    (ap number h, append_cancel (codes (decimal n)) (e ∙ ap (λ k. codes (decimal k) ++ ys) (sym h)))
scalar_injective (truth true) (truth true) xs ys h e = (refl, append_cancel (codes "true") e)
scalar_injective (truth false) (truth false) xs ys h e = (refl, append_cancel (codes "false") e)
scalar_injective (truth true) (truth false) xs ys h e = cc
scalar_injective (truth false) (truth true) xs ys h e = cc
scalar_injective (text s) (number m) xs ys h e = absurd h
scalar_injective (text s) (truth b) xs ys h e = absurd h
scalar_injective (number n) (text t) xs ys h e = absurd h
scalar_injective (number n) (truth b) xs ys h e = absurd h
scalar_injective (truth a) (text t) xs ys h e = absurd h
scalar_injective (truth a) (number m) xs ys h e = absurd h

entry_path :
    {k j : String} {v w : Scalar} {es fs : List (String × Scalar)}
    → k ≡ j
    → v ≡ w
    → es ≡ fs
    → (k, v) ∷ es ≡ (j, w) ∷ fs
entry_path p q r = cc

-- An entry, and what follows its value.
keyed_injective :
    (k j : String) (v w : Scalar) (xs ys : Bytes)
    → k ≡ j
    → Comparable v w
    → quoted k (b':' ∷ scalar v xs) ≡ quoted j (b':' ∷ scalar w ys)
    → (v ≡ w) × (xs ≡ ys)
unfolding quoted
keyed_injective k j v w xs ys same comparable e =
    let aligned : codes k ++ b'"' ∷ b':' ∷ scalar v xs ≡ codes k ++ b'"' ∷ b':' ∷ scalar w ys =
      (cc) ∙ ap (λ i. codes i ++ b'"' ∷ b':' ∷ scalar w ys) (sym same) in
    let cut = append_cancel (codes k) aligned in scalar_injective v w xs ys comparable (cc cut)

entries_injective :
    (es fs : List (String × Scalar)) → SameKeys es fs → entries es ≡ entries fs → es ≡ fs
unfolding entries
entries_injective [] [] h e = refl
entries_injective [] (f ∷ fs) h e = absurd h
entries_injective (f ∷ fs) [] h e = absurd h
entries_injective ((k, v) ∷ []) ((j, w) ∷ []) (same, comparable, _) e =
    let both = keyed_injective k j v w _ _ same comparable e in entry_path same both.0 refl
entries_injective ((k, v) ∷ []) ((j, w) ∷ f ∷ fs) (same, comparable, h) e = absurd h
entries_injective ((k, v) ∷ d ∷ es) ((j, w) ∷ []) (same, comparable, h) e = absurd h
entries_injective ((k, v) ∷ d ∷ es) ((j, w) ∷ f ∷ fs) (same, comparable, h) e =
    let both = keyed_injective k j v w _ _ same comparable e in
    entry_path same both.0 (entries_injective (d ∷ es) (f ∷ fs) h (cc both.1))

pub canonical_injective :
    (es fs : List (String × Scalar)) → SameKeys es fs → canonical es ≡ canonical fs → es ≡ fs
unfolding canonical
canonical_injective es fs h e = entries_injective es fs h (cc)
