-- ===== src/Prelude/Bytes.antt =====
-- Python's `bytes`, as lists of numbers, and what the program builds them from.
use Prim.Native.Nat.{ℕ, zero, suc, ◌+◌, ◌*◌, ◌/◌, ◌%◌, ◌^◌, ◌<◌}
use Prim.Native.Char.{code}
use Prim.Native.String.{String}
use mathlib.Core.Path.{◌≡◌}
use mathlib.Core.List.{List, [], ◌∷◌, ◌++◌}
use native.Mathlib.Omega.{arith}
use pipa_personal_assistant.Prelude.Lists.{length}

abbrev pub Bytes : Type 0
Bytes = List ℕ

abbrev pub IsByte : ℕ → Type 0
IsByte b = b < 256

-- `text.encode()`, of an ASCII text
abbrev pub codes : String → Bytes
codes String.[] = []
codes (String.◌∷◌ c s) = code c ∷ codes s

-- `b"\x00" * n` and the like
abbrev pub replicate : ℕ → ℕ → Bytes
replicate zero b = []
replicate (suc n) b = b ∷ replicate n b

abbrev big_endian_onto : ℕ → ℕ → Bytes → Bytes
big_endian_onto zero n rest = rest
big_endian_onto (suc k) n rest = big_endian_onto k (n / 256) (n % 256 ∷ rest)

-- `n.to_bytes(k, "big")`, for a number that fits
unfoldable pub big_endian : ℕ → ℕ → Bytes
big_endian k n = big_endian_onto k n []

pow_suc : (k : ℕ) → 256 ^ suc k ≡ 256 * 256 ^ k
pow_suc k = omega arith

big_endian_onto_injective :
    (k n m : ℕ) (xs ys : Bytes)
    → n < 256 ^ k
    → m < 256 ^ k
    → big_endian_onto k n xs ≡ big_endian_onto k m ys
    → (n ≡ m) × (xs ≡ ys)
big_endian_onto_injective zero n m xs ys h i e = ground arith
big_endian_onto_injective (suc k) n m xs ys h i e = ground (
  arith,
  pow_suc k,
  big_endian_onto_injective k (n / 256) (m / 256) (n % 256 ∷ xs) (m % 256 ∷ ys),
)

-- Two numbers that fit have different bytes.
pub big_endian_injective :
    (k n m : ℕ) → n < 256 ^ k → m < 256 ^ k → big_endian k n ≡ big_endian k m → n ≡ m
unfolding big_endian
big_endian_injective k n m h i e = (big_endian_onto_injective k n m [] [] h i e).0

length-big_endian_onto : (k n : ℕ) (xs : Bytes) → length (big_endian_onto k n xs) ≡ k + length xs
length-big_endian_onto zero n xs = omega arith
length-big_endian_onto (suc k) n xs =
    omega (arith, length-big_endian_onto k (n / 256) (n % 256 ∷ xs))

pub length-big_endian : (k n : ℕ) → length (big_endian k n) ≡ k
unfolding big_endian
length-big_endian k n = omega (arith, length-big_endian_onto k n [])

-- What is joined to the same prefix.
pub append_cancel {ℓ} : {A : Type ℓ} (xs : List A) {ys zs : List A} → xs ++ ys ≡ xs ++ zs → ys ≡ zs
append_cancel [] e = e
append_cancel (x ∷ xs) e = append_cancel xs (cc)
