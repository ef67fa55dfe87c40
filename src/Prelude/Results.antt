-- ===== src/Prelude/Results.antt =====
-- What Rust code returns: a `Result`, and an `Exec` for code that may panic.
use mathlib.Core.Path.{◌≡◌, refl}

pub data Result {ℓ κ} (A : Type ℓ) (E : Type κ) : Type (ℓ ⊔ κ) where
  ok : A → Result A E
  err : E → Result A E

-- The `?` operator on a `Result`.
abbrev pub and_then {ℓ κ μ} :
    {A : Type ℓ} {B : Type μ} {E : Type κ} → Result A E → (A → Result B E) → Result B E
and_then (ok a) f = f a
and_then (err e) f = err e

-- A call that returns, that panics, or whose behaviour is undefined.
pub data Exec {ℓ} (A : Type ℓ) : Type ℓ where
  returns : A → Exec A
  panics : Exec A
  undefined : Exec A

infixl 5 ◌>>=◌
abbrev pub ◌>>=◌ {ℓ κ} : {A : Type ℓ} {B : Type κ} → Exec A → (A → Exec B) → Exec B
returns a >>= f = f a
panics >>= f = panics
undefined >>= f = undefined

-- A chain of calls that returns has returned in between.
pub >>=-returns {ℓ κ} :
    {A : Type ℓ} {B : Type κ} (e : Exec A) (f : A → Exec B) {b : B}
    → (e >>= f) ≡ returns b
    → (a : A) × (e ≡ returns a) × (f a ≡ returns b)
>>=-returns (returns a) f h = (a, refl, h)
>>=-returns panics f h = cc
>>=-returns undefined f h = cc
