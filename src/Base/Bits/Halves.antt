-- ===== src/Base/Bits/Halves.antt =====
-- The native operations mean `bitwise`, a recursion on binary digits with fuel. Here the fuel is
-- dropped: each operation is given by its lowest digit and by the operation on the halves.
use Prim.Native.Nat.{ℕ, zero, suc, ◌+◌, ◌*◌, ◌/◌, ◌%◌, ◌≤◌, min, max}
use Prim.Native.Nat.{bit_and, bit_or, bit_xor, differ, digits, bitwise}
use Prim.Native.Nat.{bit_and-bitwise, bit_or-bitwise, bit_xor-bitwise}
use mathlib.Core.Path.{◌≡◌, refl, ap}
use native.Mathlib.Omega.{arith}

module _ (rest : ℕ → ℕ) (digit : ℕ → ℕ → ℕ) where
  -- Fuel above the first argument is never looked at.
  spare_fuel :
      (much less a b : ℕ)
      → a ≤ less
      → less ≤ much
      → digits rest digit much a b ≡ digits rest digit less a b
  spare_fuel zero zero a b p q = refl
  spare_fuel zero (suc less) a b p q = absurd (omega arith)
  spare_fuel (suc much) zero zero b p q = refl
  spare_fuel (suc much) zero (suc a) b p q = absurd (omega arith)
  spare_fuel (suc much) (suc less) zero b p q = refl
  spare_fuel (suc much) (suc less) (suc a) b p q =
      ap (λ (t : ℕ). t * 2 + digit (suc a % 2) (b % 2))
        (spare_fuel much less (suc a / 2) (b / 2) (omega arith) (omega arith))

  halves_of_suc :
      (a b : ℕ)
      → bitwise rest digit (suc a) b
        ≡ bitwise rest digit (suc a / 2) (b / 2) * 2 + digit (suc a % 2) (b % 2)
  halves_of_suc a b =
      ap (λ (t : ℕ). t * 2 + digit (suc a % 2) (b % 2))
        (spare_fuel a (suc a / 2) (suc a / 2) (b / 2) (omega arith) (omega arith))

pub bit_and_halves : (a b : ℕ) → bit_and a b ≡ bit_and (a / 2) (b / 2) * 2 + min (a % 2) (b % 2)
bit_and_halves zero b = omega (arith, bit_and-bitwise 0 b, bit_and-bitwise 0 (b / 2))
bit_and_halves (suc a) b = simp bit_and-bitwise (halves_of_suc (λ b. 0) min a b)

pub bit_or_halves : (a b : ℕ) → bit_or a b ≡ bit_or (a / 2) (b / 2) * 2 + max (a % 2) (b % 2)
bit_or_halves zero b = omega (arith, bit_or-bitwise 0 b, bit_or-bitwise 0 (b / 2))
bit_or_halves (suc a) b = simp bit_or-bitwise (halves_of_suc (λ b. b) max a b)

pub bit_xor_halves : (a b : ℕ) → bit_xor a b ≡ bit_xor (a / 2) (b / 2) * 2 + differ (a % 2) (b % 2)
bit_xor_halves zero b = omega (arith, bit_xor-bitwise 0 b, bit_xor-bitwise 0 (b / 2))
bit_xor_halves (suc a) b = simp bit_xor-bitwise (halves_of_suc (λ b. b) differ a b)
