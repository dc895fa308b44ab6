-- ===== src/Secure/Canonical.antt =====
-- `_canonical` of windows-agent/secure_session.py: compact JSON with sorted keys. The entries are
-- given in the order of their keys, and their texts need no escapes.
pub mod Injective
use Prim.Native.Char.{code}
use pipa_personal_assistant.Prelude.{
  ℕ, ◌≡◌, String, Bool, true, false, not, ◌&&◌, List, [], ◌∷◌, ◌++◌, nat_eq, arith, refl,
}
use pipa_personal_assistant.Prelude.Bytes.{Bytes, codes}
use pipa_personal_assistant.Prelude.Text.{decimal, every}

pub data Scalar : Type 0 where
  text : String → Scalar
  number : ℕ → Scalar
  truth : Bool → Scalar

-- `"…"`, and what follows
unfoldable pub quoted : String → Bytes → Bytes
quoted s rest = b'"' ∷ codes s ++ b'"' ∷ rest

unfoldable pub scalar : Scalar → Bytes → Bytes
unfolding quoted
scalar (text s) rest = quoted s rest
scalar (number n) rest = codes (decimal n) ++ rest
scalar (truth true) rest = codes "true" ++ rest
scalar (truth false) rest = codes "false" ++ rest

unfoldable pub entries : List (String × Scalar) → Bytes
unfolding scalar
entries [] = b'}' ∷ []
entries ((k, v) ∷ []) = quoted k (b':' ∷ scalar v (b'}' ∷ []))
entries ((k, v) ∷ e ∷ es) = quoted k (b':' ∷ scalar v (b',' ∷ entries (e ∷ es)))

-- `_canonical(value)`
unfoldable pub canonical : List (String × Scalar) → Bytes
unfolding entries
canonical es = b'{' ∷ entries es

canonical_runs :
    canonical (("final", truth true) ∷ ("sequence", number 12) ∷ ("session_id", text "a-1") ∷ [])
    ≡ codes "{\"final\":true,\"sequence\":12,\"session_id\":\"a-1\"}"
unfolding canonical decimal
canonical_runs = refl
