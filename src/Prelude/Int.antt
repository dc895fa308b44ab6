-- ===== src/Prelude/Int.antt =====
-- Python's `int`, over the native numbers.
use Prim.Native.Nat.{ℕ, suc}
use mathlib.Core.Bool.{Bool, false}
use pipa_personal_assistant.Prelude.Tests.{leb, nat_eq}

-- `negsuc n` is -(n + 1).
pub data ℤ : Type 0 where
  pos : ℕ → ℤ
  negsuc : ℕ → ℤ

-- `0 <= n <= top`, for a natural `top`
abbrev pub in_range : ℕ → ℤ → Bool
in_range top (pos n) = leb n top
in_range top (negsuc _) = false

-- `-bottom <= n <= 0`
abbrev pub in_negative_range : ℕ → ℤ → Bool
in_negative_range bottom (pos n) = nat_eq n 0
in_negative_range bottom (negsuc n) = leb (suc n) bottom

-- `n == k`, for a natural `k`
abbrev pub is_nat : ℕ → ℤ → Bool
is_nat k (pos n) = nat_eq n k
is_nat k (negsuc _) = false
