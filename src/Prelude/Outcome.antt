-- ===== src/Prelude/Outcome.antt =====
-- A Python call that may raise: the value, or the exception.
use mathlib.Core.Path.{◌≡◌, refl, subst}
use mathlib.Core.Logic.{◌⊎◌, inl, inr}
use mathlib.Core.Bool.{Bool, true, false}

pub data Result {ℓ κ} (E : Type ℓ) (A : Type κ) : Type (ℓ ⊔ κ) where
  ok : A → Result E A
  err : E → Result E A

infixl 5 ◌>>=◌ ◌>>◌
abbrev pub ◌>>=◌ {ℓ κ ι} :
    {E : Type ℓ} {A : Type κ} {B : Type ι} → Result E A → (A → Result E B) → Result E B
ok a >>= f = f a
err e >>= f = err e

abbrev pub ◌>>◌ {ℓ κ ι} :
    {E : Type ℓ} {A : Type κ} {B : Type ι} → Result E A → Result E B → Result E B
m >> k = m >>= λ _. k

-- `if not test: raise e`
abbrev pub require {ℓ} : {E : Type ℓ} → Bool → E → Result E (Unit {0})
require true e = ok tt
require false e = err e

pub Result-cases {ℓ κ} :
    {E : Type ℓ} {A : Type κ} (r : Result E A) → ((a : A) × (r ≡ ok a)) ⊎ ((e : E) × (r ≡ err e))
Result-cases (ok a) = inl (a, refl)
Result-cases (err e) = inr (e, refl)

-- `P` holds of the value, if the call returns one.
abbrev pub Ensures {ℓ κ ι} : {E : Type ℓ} {A : Type κ} → (A → Type ι) → Result E A → Type ι
Ensures P (ok a) = P a
Ensures P (err e) = Unit

module _ {ℓ κ ι} {E : Type ℓ} {A : Type κ} (P : A → Type ι) where
  pub Ensures-of_eq : (r : Result E A) → ((a : A) → r ≡ ok a → P a) → Ensures P r
  Ensures-of_eq (ok a) h = h a refl
  Ensures-of_eq (err e) h = tt

  pub Ensures_eq : (r : Result E A) {a : A} → Ensures P r → r ≡ ok a → P a
  Ensures_eq (ok b) h e = subst P (cc) h
  Ensures_eq (err b) h e = cc

pub Ensures-bind {ℓ κ ι η θ} :
    {E : Type ℓ} {A : Type κ} {B : Type ι} (P : A → Type η) (Q : B → Type θ) (m : Result E A)
    (f : A → Result E B)
    → Ensures P m
    → ((a : A) → P a → Ensures Q (f a))
    → Ensures Q (m >>= f)
Ensures-bind P Q (ok a) f h k = k a h
Ensures-bind P Q (err e) f h k = tt

-- The test that `require` lets pass.
pub Ensures-require {ℓ κ ι} :
    {E : Type ℓ} {A : Type κ} (Q : A → Type ι) (b : Bool) (e : E) (m : Result E A)
    → (b ≡ true → Ensures Q m)
    → Ensures Q (require b e >> m)
Ensures-require Q true e m h = h refl
Ensures-require Q false e m h = tt

pub Ensures-any {ℓ κ} : {E : Type ℓ} {A : Type κ} (r : Result E A) → Ensures (λ _. Unit {0}) r
Ensures-any (ok a) = tt
Ensures-any (err e) = tt
