-- ===== src/Base/Options.antt =====
-- Chains of results that may be absent.
use mathlib.Core.Path.{◌≡◌, refl, ap, ◌∙◌}
use mathlib.Core.Option.{Option, none, some}

infixl 1 ◌>>=◌
abbrev pub ◌>>=◌ {ℓ κ} : {A : Type ℓ} {B : Type κ} → Option A → (A → Option B) → Option B
none >>= f = none
some a >>= f = f a

-- A step whose result is known.
pub known {ℓ κ} :
    {A : Type ℓ} {B : Type κ} (f : A → Option B) {o : Option A} {a : A} {r : Option B}
    → o ≡ some a
    → f a ≡ r
    → (o >>= f) ≡ r
known f e h = ap (λ o. o >>= f) e ∙ h

-- What holds of every result of a chain, from what holds of its parts.
pub data Steps {ℓ κ} {A : Type ℓ} {B : Type κ} (o : Option A) (f : A → Option B) (b : B)
    : Type (ℓ ⊔ κ) where
  steps : (a : A) → o ≡ some a → f a ≡ some b → Steps o f b

pub split {ℓ κ} :
    {A : Type ℓ} {B : Type κ} (o : Option A) (f : A → Option B) (b : B)
    → (o >>= f) ≡ some b
    → Steps o f b
split none f b h = cc
split (some a) f b h = steps a refl h
