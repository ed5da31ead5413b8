-- ===== src/Assembler/Outcome.antt =====
-- How a piece of the assembler ends: with a value, with errors, in an operation on which C++ puts no
-- meaning, with a failed assertion, or with no fuel left. The errors are a parameter.
use sicxe.Base.{List}

pub data Outcome {ℓ κ} (E : Type κ) (A : Type ℓ) : Type (ℓ ⊔ κ) where
  value : A → Outcome E A
  failed : List E → Outcome E A
  undefined : Outcome E A
  assertion_failed : Outcome E A
  out_of_fuel : Outcome E A

infixl 1 ◌>>=◌
abbrev pub ◌>>=◌ {ℓ κ ι} :
    {E : Type ι} {A : Type ℓ} {B : Type κ} → Outcome E A → (A → Outcome E B) → Outcome E B
value a >>= f = f a
failed errors >>= f = failed errors
undefined >>= f = undefined
assertion_failed >>= f = assertion_failed
out_of_fuel >>= f = out_of_fuel

-- It ends with errors, or with a value as it should be.
abbrev pub Returns {ℓ ι} : {E : Type ι} {A : Type ℓ} → (A → Type 0) → Outcome E A → Type 0
Returns P (value a) = P a
Returns P (failed errors) = Unit
Returns P undefined = ⊥
Returns P assertion_failed = ⊥
Returns P out_of_fuel = ⊥

pub Returns-bind {ℓ κ ι} :
    {E : Type ι} {A : Type ℓ} {B : Type κ} (P : A → Type 0) (Q : B → Type 0) (r : Outcome E A)
    (f : A → Outcome E B)
    → Returns P r
    → ((a : A) → P a → Returns Q (f a))
    → Returns Q (r >>= f)
Returns-bind P Q (value a) f h g = g a h
Returns-bind P Q (failed errors) f h g = tt
Returns-bind P Q undefined f h g = elim h [ ]
Returns-bind P Q assertion_failed f h g = elim h [ ]
Returns-bind P Q out_of_fuel f h g = elim h [ ]

pub Returns-mono {ℓ ι} :
    {E : Type ι} {A : Type ℓ} (P Q : A → Type 0) (r : Outcome E A)
    → Returns P r
    → ((a : A) → P a → Q a)
    → Returns Q r
Returns-mono P Q (value a) h g = g a h
Returns-mono P Q (failed errors) h g = tt
Returns-mono P Q undefined h g = elim h [ ]
Returns-mono P Q assertion_failed h g = elim h [ ]
Returns-mono P Q out_of_fuel h g = elim h [ ]
