-- ===== src/Secure/Base64/Alphabet.antt =====
-- The letters of base64url and their values.
use Prim.Native.Char.{Char, code}
use text.Mathlib.TextEquality.{Char-path}
use pipa_personal_assistant.Prelude.{
  ℕ, zero, suc, ◌+◌, ◌<◌, ◌≤◌, if◌then◌else◌, nat_eq, nat_eq_iff, String, Option, none, some, Bool,
  true, false, ◌≡◌, refl, arith, Bool-cases, inl, inr, Option-cases, subst,
}
use pipa_personal_assistant.Prelude.Text.{len}
use pipa_personal_assistant.Secure.Base64.{alphabet, letter_at, index_of, letter, sextet}

-- the test holds of the numbers from `first` on, as many as `count`
unfoldable pub each_from : (ℕ → Bool) → ℕ → ℕ → Bool
each_from test first zero = true
each_from test first (suc count) = if test first then each_from test (suc first) count else false

each_from-holds :
    (test : ℕ → Bool) (first count i : ℕ)
    → first ≤ i
    → i < first + count
    → each_from test first count ≡ true
    → test i ≡ true
unfolding each_from
each_from-holds test first zero i low high e = absurd (omega arith)
each_from-holds test first (suc count) i low high e = elim (Bool-cases (nat_eq first i)) [
  | inl same ↦ subst (λ j. test j ≡ true) ((nat_eq_iff first i).0 same) (ground arith)
  | inr other ↦
      each_from-holds test (suc first) count i (ground (arith, other, nat_eq_iff first i))
        (omega arith) (ground arith)
]

-- A test that holds of the values of all letters.
pub each_value : (test : ℕ → Bool) (i : ℕ) → each_from test 0 64 ≡ true → i < 64 → test i ≡ true
each_value test i e h = each_from-holds test 0 64 i (omega arith) h e

abbrev is_index : ℕ → Option ℕ → Bool
is_index n none = false
is_index n (some m) = nat_eq m n

is_index_sound : (n : ℕ) (o : Option ℕ) → is_index n o ≡ true → o ≡ some n
is_index_sound n none h = cc
is_index_sound n (some m) h = ground arith

alphabet_table : each_from (λ n. is_index n (sextet (letter n))) 0 64 ≡ true
unfolding each_from sextet letter letter_at index_of
alphabet_table = refl

pub sextet-letter : (n : ℕ) → n < 64 → sextet (letter n) ≡ some n
sextet-letter n h =
    is_index_sound n _ (each_value (λ n. is_index n (sextet (letter n))) n alphabet_table h)

letter_at-index_of :
    (s : String) (c : Char) {n : ℕ} → index_of s c ≡ some n → (letter_at s n ≡ c) × (n < len s)
unfolding letter_at index_of len
letter_at-index_of String.[] c h = cc
letter_at-index_of (String.◌∷◌ d s) c {n} h = elim (Bool-cases (nat_eq (code d) (code c))) [
  | inl e ↦
      let z : 0 ≡ n = ground (arith, e) in
      subst (λ m. (letter_at (String.◌∷◌ d s) m ≡ c) × (m < len (String.◌∷◌ d s))) z
        (Char-path d c ((nat_eq_iff (code d) (code c)).0 e), omega arith)
  | inr e ↦ elim (Option-cases (index_of s c)) [
    | inl f ↦ absurd (ground (arith, e, f))
    | inr (m, f) ↦
        let z : suc m ≡ n = ground (arith, e, f) in
        let (g, b) = letter_at-index_of s c f in
        subst (λ m. (letter_at (String.◌∷◌ d s) m ≡ c) × (m < len (String.◌∷◌ d s))) z
          (g, omega (arith, b))
  ]
]

pub letter-sextet : (c : Char) {n : ℕ} → sextet c ≡ some n → (letter n ≡ c) × (n < 64)
unfolding letter sextet len
letter-sextet c h = letter_at-index_of alphabet c h
