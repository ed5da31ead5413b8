-- ===== src/Base/Run.antt =====
-- What a piece of C++ comes to: a value, an operation on which the language puts no meaning, or a
-- failed assertion.

pub data Run {ℓ} (A : Type ℓ) : Type ℓ where
  value : A → Run A
  undefined : Run A
  assertion_failed : Run A

infixl 1 ◌>>=◌
abbrev pub ◌>>=◌ {ℓ κ} : {A : Type ℓ} {B : Type κ} → Run A → (A → Run B) → Run B
value a >>= f = f a
undefined >>= f = undefined
assertion_failed >>= f = assertion_failed

-- No assertion failed, and the value, if there is one, is as it should be.
abbrev pub Asserts {ℓ} : {A : Type ℓ} → (A → Type 0) → Run A → Type 0
Asserts P (value a) = P a
Asserts P undefined = Unit
Asserts P assertion_failed = ⊥

pub Asserts-bind {ℓ κ} :
    {A : Type ℓ} {B : Type κ} (P : A → Type 0) (Q : B → Type 0) (r : Run A) (f : A → Run B)
    → Asserts P r
    → ((a : A) → P a → Asserts Q (f a))
    → Asserts Q (r >>= f)
Asserts-bind P Q (value a) f h g = g a h
Asserts-bind P Q undefined f h g = tt
Asserts-bind P Q assertion_failed f h g = elim h [ ]
