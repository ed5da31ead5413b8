-- ===== src/Machine/Execute.antt =====
-- `Machine::Execute`, `Machine::Interrupt`, and machine/loader.cc.
pub mod Validity
pub mod Failure
pub mod Assertions
pub mod Interrupts
use sicxe.Base.{ℕ, ◌+◌, Bool, true, false, Option, none, some, List, [], ◌∷◌, get_or, if◌then◌else◌}
use sicxe.Isa.{Instruction, InstructionInstance, Operands, none_f1, of_f2, of_fs34}
use sicxe.Isa.Codec.{InsnBytes, decode}
use sicxe.Machine.Word.{trim_address}
use sicxe.Machine.Memory.{Memory, read_memory, read_memory_word}
use sicxe.Machine.Float.{Fpu}
use sicxe.Machine.Device.{Files}
use sicxe.Machine.State.{
  Machine, Outcome, done, undefined, assertion_failed, ExecuteResult, set_program_counter,
}
use sicxe.Machine.Address.{calculate_target_address}
use sicxe.Machine.Logic.{Logic, LogicDb, execute_logic}

-- The delayed enabling of interrupts.
unfoldable pub enable_interrupts : Machine → Machine
enable_interrupts m =
    if m.interrupt_enable_next
    then record m {
      cpu = record (m.cpu) { interrupt_enabled = true; interrupt_enable_next = false };
    }
    else m

-- The four bytes at the program counter.
unfoldable pub fetch : Memory → ℕ → InsnBytes
fetch memory address =
    let buffer = read_memory memory address 4 in
    record {
      byte0 = get_or buffer 0 0;
      byte1 = get_or buffer 1 0;
      byte2 = get_or buffer 2 0;
      byte3 = get_or buffer 3 0;
    }

-- The target address of formats S, 3 and 4; `none` if the addressing is invalid.
unfoldable pub with_target : Operands → Machine → Option Machine
with_target none_f1 m = some m
with_target (of_f2 o) m = some m
with_target (of_fs34 o) m = calculate_target_address o m

-- The program counter is restored after any result but `ok`.
unfoldable pub restore_counter : ℕ → Outcome → Outcome
restore_counter counter (done ExecuteResult.ok m) = done ExecuteResult.ok m
restore_counter counter (done result m) = done result (set_program_counter counter m)
restore_counter counter undefined = undefined
restore_counter counter assertion_failed = assertion_failed

module _ (find_opcode : ℕ → Option Instruction) (logic_db : LogicDb) (fpu : Fpu)
    (files : Files) where
  -- From the logic of a decoded instruction and its length on.
  unfoldable pub execute_decoded : Logic → Operands → ℕ → Machine → Outcome
  unfolding with_target restore_counter
  execute_decoded logic operands length m =
      let counter = m.program_counter in
      let advanced = set_program_counter (trim_address (counter + length)) m in
      elim (with_target operands advanced) [
        | none ↦ done ExecuteResult.invalid_addressing (set_program_counter counter advanced)
        | some ready ↦ restore_counter counter (execute_logic fpu files logic operands ready)
      ]

  unfoldable pub execute : Machine → Outcome
  unfolding enable_interrupts fetch execute_decoded
  execute m0 =
      let m = enable_interrupts m0 in
      elim (decode find_opcode (fetch m.memory m.program_counter)) [
        | none ↦ done ExecuteResult.invalid_opcode m
        | some (insn, length) ↦ elim (logic_db insn.opcode) [
          | none ↦ done ExecuteResult.not_implemented m
          | some logic ↦ execute_decoded logic insn.operands length m
        ]
      ]

-- `Machine::Interrupt`.
unfoldable pub interrupt : Machine → Machine
interrupt m =
    if m.interrupt_enabled
    then record m {
      cpu = record (m.cpu) {
        interrupt_enabled = false;
        interrupt_enable_next = false;
        interrupt_link = m.program_counter;
        interrupt_condition_code = m.condition_code;
        program_counter = trim_address (read_memory_word m.memory 0xffffd);
      };
    }
    else m
