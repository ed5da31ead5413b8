-- ===== src/Machine/Logic/Arithmetic.antt =====
-- machine/logic/arithmetic.cc and shift.cc. `int` arithmetic out of range, a division by zero, a shift
-- by 32 or more, and `<<` on a negative number or with a result out of range are undefined in C++11.
-- `>>` on a negative number, which C++ leaves to the implementation, keeps the sign.
pub mod Words
pub mod Shifts
use sicxe.Base.{
  ℕ, suc, ◌*◌, ◌/◌, ◌%◌, ◌^◌, bit_and, bit_or, bit_xor, Bool, Option, none, some, not, ◌&&◌, ltb,
  leb, ◌==◌, if◌then◌else◌,
}
use sicxe.Base.Int.{ℤ, pos, negsuc, ◌+ℤ◌, ◌-ℤ◌, ◌*ℤ◌, quot, ltb_ℤ}
use sicxe.Isa.{Operands, OperandsF2, OperandsFs34}
use sicxe.Machine.Word.{fit_int32, int32, uint32, uint32_mod, sign_extend_word, trim_word}
use sicxe.Machine.State.{Machine, Outcome, done, undefined, ExecuteResult, reg_a, set_register}
use sicxe.Machine.Logic.Operand.{word_operand, with_fs34, with_register, with_registers}

pub data ArithmeticOperation : Type 0 where
  add subtract multiply divide and or xor : ArithmeticOperation

abbrev pub is_zero : ℤ → Bool
is_zero (pos n) = n == 0
is_zero (negsuc n) = Bool.false

-- The `switch` on the operation.
unfoldable pub calculate : ArithmeticOperation → ℤ → ℤ → Option ℤ
calculate add a b = fit_int32 (a +ℤ b)
calculate subtract a b = fit_int32 (a -ℤ b)
calculate multiply a b = fit_int32 (a *ℤ b)
calculate divide a b = if is_zero b then none else fit_int32 (quot a b)
calculate and a b = some (int32 (bit_and (uint32 a) (uint32 b)))
calculate or a b = some (int32 (bit_or (uint32 a) (uint32 b)))
calculate xor a b = some (int32 (bit_xor (uint32 a) (uint32 b)))

-- The result goes into a register, trimmed to a word.
unfoldable pub store_result : ℕ → Machine → Option ℤ → Outcome
store_result r m none = undefined
store_result r m (some value) = done ExecuteResult.ok (set_register r (trim_word (uint32 value)) m)

-- `ArithmeticMem::Execute`.
unfoldable pub arithmetic_mem : ArithmeticOperation → Operands → Machine → Outcome
unfolding calculate store_result
arithmetic_mem op = with_fs34 λ o m.
    store_result reg_a m
      (calculate op (sign_extend_word (m.registers reg_a)) (sign_extend_word (word_operand o m)))

-- `ArithmeticReg::Execute`.
unfoldable pub arithmetic_reg : ArithmeticOperation → Operands → Machine → Outcome
unfolding calculate store_result
arithmetic_reg op = with_registers λ o m.
    store_result o.r2 m
      (calculate op (sign_extend_word (m.registers o.r2)) (sign_extend_word (m.registers o.r1)))

-- `~value` on an `int32`.
unfoldable pub complement : ℤ → ℤ
complement (pos n) = negsuc n
complement (negsuc n) = pos n

-- `RegisterNegate::Execute`.
unfoldable pub register_negate : Operands → Machine → Outcome
unfolding complement
register_negate = with_register λ o m.
    done ExecuteResult.ok
      (set_register o.r1 (trim_word (uint32 (complement (sign_extend_word (m.registers o.r1))))) m)

-- `value >> n` on an `int32`, which keeps the sign.
unfoldable pub shift_right : ℤ → ℕ → Option ℤ
shift_right (pos v) n = if ltb n 32 then some (pos (v / 2 ^ n)) else none
shift_right (negsuc v) n = if ltb n 32 then some (negsuc (v / 2 ^ n)) else none

-- `value << n` on an `int32`.
unfoldable pub shift_left : ℤ → ℕ → Option ℤ
unfolding fit_int32
shift_left (pos v) n = if ltb n 32 then fit_int32 (pos (v * 2 ^ n)) else none
shift_left (negsuc v) n = none

-- `Shift::Execute`.
unfoldable pub shift : Bool → Operands → Machine → Outcome
unfolding shift_right shift_left store_result
shift direction_right = with_register λ o m.
    let value = sign_extend_word (m.registers o.r1) in
    store_result o.r1 m (if direction_right then shift_right value o.r2 else shift_left value o.r2)
