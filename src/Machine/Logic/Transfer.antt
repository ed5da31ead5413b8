-- ===== src/Machine/Logic/Transfer.antt =====
-- machine/logic/move.cc, load.cc and store.cc.
pub mod RoundTrip
use sicxe.Base.{ℕ, ◌*◌, ◌^◌, Bool, ◌||◌, not, ◌==◌, if◌then◌else◌}
use sicxe.Isa.{Operands, OperandsF2, OperandsFs34}
use sicxe.Machine.Memory.{write_memory_byte, write_memory_word}
use sicxe.Machine.State.{
  Machine, Outcome, done, ExecuteResult, Condition, less, equal, greater, reg_a, set_register,
}
use sicxe.Machine.Logic.Operand.{
  word_operand, byte_operand, with_fs34, with_address, with_register, with_registers,
}

-- `ClearReg::Execute`.
unfoldable pub clear_reg : Operands → Machine → Outcome
clear_reg = with_register λ o m. done ExecuteResult.ok (set_register o.r1 0 m)

-- `MoveReg::Execute`.
unfoldable pub move_reg : Operands → Machine → Outcome
move_reg = with_registers λ o m. done ExecuteResult.ok (set_register o.r2 (m.registers o.r1) m)

-- `LoadWord::Execute`.
unfoldable pub load_word : ℕ → Operands → Machine → Outcome
load_word implicit_register =
    with_fs34 λ o m. done ExecuteResult.ok (set_register implicit_register (word_operand o m) m)

-- `LoadByte::Execute`.
unfoldable pub load_byte : Operands → Machine → Outcome
load_byte = with_fs34 λ o m. done ExecuteResult.ok (set_register reg_a (byte_operand o m) m)

-- `StoreWord::Execute`.
unfoldable pub store_word : ℕ → Operands → Machine → Outcome
store_word implicit_register = with_address λ o m. done ExecuteResult.ok (record m {
  memory = write_memory_word m.memory m.target_address (m.registers implicit_register);
})

-- `StoreByte::Execute`.
unfoldable pub store_byte : Operands → Machine → Outcome
store_byte = with_address λ o m.
    done ExecuteResult.ok
      (record m { memory = write_memory_byte m.memory m.target_address (m.registers reg_a) })

-- The enumerators' values.
unfoldable pub condition_code_value : Condition → ℕ
condition_code_value less = 0
condition_code_value equal = 1
condition_code_value greater = 2

-- `(i << 4) || (icc << 2) || cc`, a logical or.
unfoldable pub status_word : Machine → ℕ
unfolding condition_code_value
status_word m =
    let cc = condition_code_value m.condition_code in
    let icc = condition_code_value m.interrupt_condition_code in
    let i = if m.interrupt_enabled then 1 else 0 in
    if not (i * 2 ^ 4 == 0) || not (icc * 2 ^ 2 == 0) || not (cc == 0) then 1 else 0

-- `StoreFlags::Execute`.
unfoldable pub store_flags : Operands → Machine → Outcome
unfolding status_word
store_flags = with_fs34 λ o m.
    done ExecuteResult.ok
      (record m { memory = write_memory_byte m.memory m.target_address (status_word m) })
