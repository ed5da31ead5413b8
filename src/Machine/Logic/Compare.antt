-- ===== src/Machine/Logic/Compare.antt =====
-- machine/logic/compare.cc.
pub mod Order
use sicxe.Base.{ℕ, Bool, ◌+◌, if◌then◌else◌}
use sicxe.Base.Int.{ℤ, pos, ◌+ℤ◌, ltb_ℤ}
use sicxe.Isa.{Operands, OperandsF2, OperandsFs34}
use sicxe.Machine.Word.{uint32, sign_extend_word, trim_word}
use sicxe.Machine.State.{
  Machine, Outcome, done, ExecuteResult, Condition, less, equal, greater, reg_a, reg_x,
  set_condition, set_register,
}
use sicxe.Machine.Logic.Operand.{word_operand, with_fs34, with_register, with_registers}

unfoldable pub condition_of : ℤ → ℤ → Condition
condition_of a b =
    let after_greater = if ltb_ℤ b a then greater else equal in
    if ltb_ℤ a b then less else after_greater

-- `CompareMem::Execute`.
unfoldable pub compare_mem : Operands → Machine → Outcome
unfolding condition_of
compare_mem = with_fs34 λ o m. done ExecuteResult.ok (
    set_condition
      (condition_of (sign_extend_word (m.registers reg_a)) (sign_extend_word (word_operand o m))) m)

-- `CompareReg::Execute`.
unfoldable pub compare_reg : Operands → Machine → Outcome
unfolding condition_of
compare_reg = with_registers λ o m. done ExecuteResult.ok (
    set_condition
      (condition_of (sign_extend_word (m.registers o.r1)) (sign_extend_word (m.registers o.r2))) m)

-- X is counted up, trimmed, and compared with the value.
unfoldable pub increment_compare : ℤ → Machine → Outcome
unfolding condition_of
increment_compare value m =
    let x = trim_word (uint32 (sign_extend_word (m.registers reg_x) +ℤ pos 1)) in
    done ExecuteResult.ok
      (set_condition (condition_of (sign_extend_word x) value) (set_register reg_x x m))

-- `IncrementCompareMem::Execute`.
unfoldable pub increment_compare_mem : Operands → Machine → Outcome
unfolding increment_compare
increment_compare_mem = with_fs34 λ o m. increment_compare (sign_extend_word (word_operand o m)) m

-- `IncrementCompareReg::Execute`: the register is read before X is counted up.
unfoldable pub increment_compare_reg : Operands → Machine → Outcome
unfolding increment_compare
increment_compare_reg =
    with_register λ o m. increment_compare (sign_extend_word (m.registers o.r1)) m
