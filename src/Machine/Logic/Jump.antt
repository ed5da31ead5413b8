-- ===== src/Machine/Logic/Jump.antt =====
-- machine/logic/jump.cc and interrupt.cc.
pub mod Calls
use sicxe.Base.{ℕ, ◌+◌, Bool, true, false, ◌==◌, if◌then◌else◌}
use sicxe.Isa.{Operands, OperandsFs34}
use sicxe.Machine.Word.{trim_address}
use sicxe.Machine.Memory.{write_memory_word}
use sicxe.Machine.State.{
  Machine, Outcome, done, ExecuteResult, Condition, less, equal, greater, reg_l, set_register,
  set_program_counter,
}
use sicxe.Machine.Logic.Operand.{with_fs34, with_address, with_f1}

-- `Jump::Execute`. A jump to itself is an endless loop.
unfoldable pub jump : Bool → Operands → Machine → Outcome
jump save_program_counter = with_address λ o m.
    let address = trim_address m.target_address in
    let instruction_length = if o.e then 4 else 3 in
    let linked = if save_program_counter then set_register reg_l m.program_counter m else m in
    if trim_address (address + instruction_length) == m.program_counter
    then done ExecuteResult.endless_loop m
    else done ExecuteResult.ok (set_program_counter address linked)

abbrev pub same_condition : Condition → Condition → Bool
same_condition less less = true
same_condition equal equal = true
same_condition greater greater = true
same_condition c d = false

-- `JumpConditional::Execute`.
unfoldable pub jump_conditional : Condition → Operands → Machine → Outcome
jump_conditional condition = with_address λ o m.
    if same_condition m.condition_code condition
    then done ExecuteResult.ok (set_program_counter (trim_address m.target_address) m)
    else done ExecuteResult.ok m

-- `Return::Execute`.
unfoldable pub return_ : Operands → Machine → Outcome
return_ =
    with_fs34
      λ o m. done ExecuteResult.ok (set_program_counter (trim_address (m.registers reg_l)) m)

-- `InterruptEnable::Execute`: the next instruction enables interrupts.
unfoldable pub interrupt_enable : Operands → Machine → Outcome
interrupt_enable =
    with_f1 λ m.
      done ExecuteResult.ok (record m { cpu = record (m.cpu) { interrupt_enable_next = true } })

-- `InterruptDisable::Execute`.
unfoldable pub interrupt_disable : Operands → Machine → Outcome
interrupt_disable = with_f1 λ m.
    done ExecuteResult.ok (record m {
      cpu = record (m.cpu) { interrupt_enabled = false; interrupt_enable_next = false };
    })

-- `InterruptReturn::Execute`.
unfoldable pub interrupt_return : Operands → Machine → Outcome
interrupt_return = with_f1 λ m. done ExecuteResult.ok (record m {
  cpu = record (m.cpu) {
    condition_code = m.interrupt_condition_code;
    program_counter = m.interrupt_link;
  };
})

-- `InterruptLinkStore::Execute`.
unfoldable pub interrupt_link_store : Operands → Machine → Outcome
interrupt_link_store = with_address λ o m.
    done ExecuteResult.ok
      (record m { memory = write_memory_word m.memory m.target_address m.interrupt_link })
