-- ===== src/Prelude/Text/Laws.antt =====
-- What `strip` and a prefix keep of a text.
use Prim.Native.Nat.{ℕ, zero, suc, ◌≤◌}
use Prim.Native.String.{String}
use mathlib.Core.Path.{◌≡◌}
use mathlib.Core.Bool.{Bool, true}
use native.Mathlib.Omega.{arith}
use pipa_personal_assistant.Prelude.Text.{len, every, lstrip, rstrip, strip, prefix}

len-lstrip : (s : String) → len (lstrip s) ≤ len s
unfolding len lstrip
len-lstrip String.[] = omega arith
len-lstrip (String.◌∷◌ c s) = ground (arith, len-lstrip s)

len-rstrip : (s : String) → len (rstrip s) ≤ len s
unfolding len rstrip
len-rstrip String.[] = omega arith
len-rstrip (String.◌∷◌ c s) = ground (arith, len-rstrip s)

-- Stripping does not lengthen a text.
pub len-strip : (s : String) → len (strip s) ≤ len s
unfolding strip
len-strip s = omega (arith, len-lstrip s, len-rstrip (lstrip s))

module _ (p : ℕ → Bool) where
  every-lstrip : (s : String) → every p s ≡ true → every p (lstrip s) ≡ true
  unfolding every lstrip
  every-lstrip String.[] h = h
  every-lstrip (String.◌∷◌ c s) h = ground (arith, every-lstrip s)

  every-rstrip : (s : String) → every p s ≡ true → every p (rstrip s) ≡ true
  unfolding every rstrip
  every-rstrip String.[] h = h
  every-rstrip (String.◌∷◌ c s) h = ground (arith, every-rstrip s)

  -- What holds of every character holds after stripping.
  pub every-strip : (s : String) → every p s ≡ true → every p (strip s) ≡ true
  unfolding strip
  every-strip s h = every-rstrip (lstrip s) (every-lstrip s h)

pub len-prefix : (n : ℕ) (s : String) → len (prefix n s) ≤ n
unfolding len prefix
len-prefix zero s = omega arith
len-prefix (suc n) String.[] = omega arith
len-prefix (suc n) (String.◌∷◌ c s) = omega (arith, len-prefix n s)
