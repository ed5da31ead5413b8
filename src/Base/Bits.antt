-- ===== src/Base/Bits.antt =====
-- The bit operations, at variables: they act on each half of a number split at any width, so that
-- masks are remainders, disjoint fields add up, and no bit appears above both arguments.
mod Halves
use Halves.{bit_and_halves, bit_or_halves, bit_xor_halves}
use Prim.Native.Nat.{ℕ, zero, suc, ◌+◌, ◌-◌, ◌*◌, ◌/◌, ◌%◌, ◌^◌, ◌≤◌, ◌<◌, min, max}
use Prim.Native.Nat.{bit_and, bit_or, bit_xor, differ, bit_or-bitwise}
use mathlib.Core.Path.{◌≡◌, refl, ◌∙◌, ap}
use native.Mathlib.Nat.{pow-suc, one-le-pow, div-div-eq-div-mul, mod-lt}
use native.Mathlib.Omega.{arith}

pub pow-pos : (k : ℕ) → 0 < 2 ^ k
pow-pos k = one-le-pow k 2 (omega arith)

-- Quotient and remainder are determined by what they add up to.
pub div_unique : (m q r : ℕ) → r < m → (q * m + r) / m ≡ q
div_unique m q r h = grind arith

pub mod_unique : (m q r : ℕ) → r < m → (q * m + r) % m ≡ r
mod_unique m q r h = grind arith

-- The digits of a remainder are those of the number.
half-mod : (a m : ℕ) → 0 < m → a % (m * 2) / 2 ≡ a / 2 % m
half-mod a m h = grind arith

digit-mod : (a m : ℕ) → 0 < m → a % (m * 2) % 2 ≡ a % 2
digit-mod a m h = grind arith

half-div : (a m : ℕ) → 0 < m → a / (m * 2) ≡ a / 2 / m
half-div a m h = grind arith

-- An operation that is given by its digits and by the halves.
module _ (op digit : ℕ → ℕ → ℕ) (blank : digit 0 0 ≡ 0)
    (small : (a b : ℕ) → a < 2 → b < 2 → digit a b < 2)
    (halves : (a b : ℕ) → op a b ≡ op (a / 2) (b / 2) * 2 + digit (a % 2) (b % 2)) where
  op_zero : op 0 0 ≡ 0
  op_zero = omega (arith, halves 0 0, blank)

  op_split : (k a b : ℕ) → op a b ≡ op (a / 2 ^ k) (b / 2 ^ k) * 2 ^ k + op (a % 2 ^ k) (b % 2 ^ k)
  op_split zero a b = ground (arith, op_zero)
  op_split (suc k) a b =
      let m = 2 ^ k in
      rw (pow-suc 2 k) (
        ground (
          arith,
          halves a b,
          halves (a % (m * 2)) (b % (m * 2)),
          op_split k (a / 2) (b / 2),
          half-div a m (pow-pos k),
          half-div b m (pow-pos k),
          half-mod a m (pow-pos k),
          half-mod b m (pow-pos k),
          digit-mod a m (pow-pos k),
          digit-mod b m (pow-pos k),
        ))

  op_lt : (k a b : ℕ) → a < 2 ^ k → b < 2 ^ k → op a b < 2 ^ k
  op_lt zero a b p q = ground (arith, op_zero)
  op_lt (suc k) a b p q = omega (
    arith,
    pow-suc 2 k,
    halves a b,
    op_lt k (a / 2) (b / 2) (omega (arith, pow-suc 2 k)) (omega (arith, pow-suc 2 k)),
    small (a % 2) (b % 2) (omega arith) (omega arith),
  )

  -- The low bits of the result come from the low bits, and the high bits from the high bits.
  op_mod : (k a b : ℕ) → op a b % 2 ^ k ≡ op (a % 2 ^ k) (b % 2 ^ k)
  op_mod k a b =
      rw (op_split k a b)
        (mod_unique (2 ^ k) _ _ (op_lt k _ _ (mod-lt a (pow-pos k)) (mod-lt b (pow-pos k))))

pub bit_and_mod : (k a b : ℕ) → bit_and a b % 2 ^ k ≡ bit_and (a % 2 ^ k) (b % 2 ^ k)
bit_and_mod = op_mod bit_and min refl (λ a b p q. omega arith) bit_and_halves

pub bit_or_mod : (k a b : ℕ) → bit_or a b % 2 ^ k ≡ bit_or (a % 2 ^ k) (b % 2 ^ k)
bit_or_mod = op_mod bit_or max refl (λ a b p q. omega arith) bit_or_halves

differ-lt : (a b : ℕ) → a < 2 → b < 2 → differ a b < 2
differ-lt zero b p q = q
differ-lt (suc a) zero p q = p
differ-lt (suc a) (suc b) p q = differ-lt a b (omega arith) (omega arith)

pub bit_xor_mod : (k a b : ℕ) → bit_xor a b % 2 ^ k ≡ bit_xor (a % 2 ^ k) (b % 2 ^ k)
bit_xor_mod = op_mod bit_xor differ refl differ-lt bit_xor_halves

pub bit_and-lt : (k a b : ℕ) → a < 2 ^ k → b < 2 ^ k → bit_and a b < 2 ^ k
bit_and-lt = op_lt bit_and min refl (λ a b p q. omega arith) bit_and_halves

pub bit_or-lt : (k a b : ℕ) → a < 2 ^ k → b < 2 ^ k → bit_or a b < 2 ^ k
bit_or-lt = op_lt bit_or max refl (λ a b p q. omega arith) bit_or_halves

pub bit_xor-lt : (k a b : ℕ) → a < 2 ^ k → b < 2 ^ k → bit_xor a b < 2 ^ k
bit_xor-lt = op_lt bit_xor differ refl differ-lt bit_xor_halves

-- With nothing on one side, `|` changes nothing.
pub zero-bit_or : (b : ℕ) → bit_or 0 b ≡ b
zero-bit_or b = bit_or-bitwise 0 b

bit_or-zero_below : (k a : ℕ) → a < 2 ^ k → bit_or a 0 ≡ a
bit_or-zero_below zero a h = ground (arith, zero-bit_or 0)
bit_or-zero_below (suc k) a h =
    omega (arith, bit_or_halves a 0, bit_or-zero_below k (a / 2) (omega (arith, pow-suc 2 k)))

lt-two_pow : (n : ℕ) → n < 2 ^ n
lt-two_pow zero = omega arith
lt-two_pow (suc n) = omega (arith, pow-suc 2 n, lt-two_pow n)

pub bit_or-zero : (a : ℕ) → bit_or a 0 ≡ a
bit_or-zero a = bit_or-zero_below a a (lt-two_pow a)

-- `high | low` is a sum when `low` fits below the lowest bit of `high`.
pub bit_or_fields : (k high low : ℕ) → low < 2 ^ k → bit_or (high * 2 ^ k) low ≡ high * 2 ^ k + low
bit_or_fields k high low h = ground (
  arith,
  op_split bit_or max refl (λ a b p q. omega arith) bit_or_halves k (high * 2 ^ k) low,
  div_unique (2 ^ k) high 0 (pow-pos k),
  mod_unique (2 ^ k) high 0 (pow-pos k),
  div_unique (2 ^ k) 0 low h,
  mod_unique (2 ^ k) 0 low h,
  bit_or-zero high,
  zero-bit_or low,
)

-- The same with the fields the other way round.
pub fields_bit_or : (k high low : ℕ) → low < 2 ^ k → bit_or low (high * 2 ^ k) ≡ high * 2 ^ k + low
fields_bit_or k high low h = ground (
  arith,
  op_split bit_or max refl (λ a b p q. omega arith) bit_or_halves k low (high * 2 ^ k),
  div_unique (2 ^ k) high 0 (pow-pos k),
  mod_unique (2 ^ k) high 0 (pow-pos k),
  div_unique (2 ^ k) 0 low h,
  mod_unique (2 ^ k) 0 low h,
  bit_or-zero low,
  zero-bit_or high,
)
