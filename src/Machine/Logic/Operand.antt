-- ===== src/Machine/Logic/Operand.antt =====
-- machine/logic.cc, and what the instructions do alike: the operand of an instruction of format S,
-- 3 or 4, and the registers of one of format 2.
use sicxe.Base.{ℕ, ◌%◌, ◌^◌, Bool, not, ◌&&◌, ltb, if◌then◌else◌}
use sicxe.Isa.{Operands, none_f1, of_f2, of_fs34, OperandsF2, OperandsFs34}
use sicxe.Machine.Memory.{read_memory_byte, read_memory_word}
use sicxe.Machine.State.{Machine, Outcome, done, assertion_failed, ExecuteResult, num_registers}

-- `InstructionLogic::IsImmediateAddressing`.
unfoldable pub is_immediate : OperandsFs34 → Bool
is_immediate o = not o.n && o.i

unfoldable pub word_operand : OperandsFs34 → Machine → ℕ
word_operand o m =
    if is_immediate o then m.target_address else read_memory_word m.memory m.target_address

unfoldable pub byte_operand : OperandsFs34 → Machine → ℕ
byte_operand o m =
    if is_immediate o then m.target_address % 2 ^ 8 else read_memory_byte m.memory m.target_address

-- `assert(instance.format == Format::FS34)` before the instruction.
abbrev pub with_fs34 : (OperandsFs34 → Machine → Outcome) → Operands → Machine → Outcome
with_fs34 execute none_f1 m = assertion_failed
with_fs34 execute (of_f2 o) m = assertion_failed
with_fs34 execute (of_fs34 o) m = execute o m

-- The same, and immediate addressing is refused.
abbrev pub with_address : (OperandsFs34 → Machine → Outcome) → Operands → Machine → Outcome
with_address execute =
    with_fs34 λ o m. if is_immediate o then done ExecuteResult.invalid_addressing m else execute o m

-- `assert(instance.format == Format::F2)` before the instruction, and one register is checked.
abbrev pub with_register : (OperandsF2 → Machine → Outcome) → Operands → Machine → Outcome
with_register execute none_f1 m = assertion_failed
with_register execute (of_f2 o) m =
    if not (ltb o.r1 num_registers) then done ExecuteResult.invalid_addressing m else execute o m
with_register execute (of_fs34 o) m = assertion_failed

-- Both registers are checked.
abbrev pub with_registers : (OperandsF2 → Machine → Outcome) → Operands → Machine → Outcome
with_registers execute = with_register λ o m.
    if not (ltb o.r2 num_registers) then done ExecuteResult.invalid_addressing m else execute o m

-- `assert(instance.format == Format::F1)` before the instruction.
abbrev pub with_f1 : (Machine → Outcome) → Operands → Machine → Outcome
with_f1 execute none_f1 m = execute m
with_f1 execute (of_f2 o) m = assertion_failed
with_f1 execute (of_fs34 o) m = assertion_failed
