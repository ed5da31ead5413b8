-- ===== src/Machine/Logic/Transfer/RoundTrip.antt =====
-- What a store put into memory, a load of the same operand gives back; and what STSW stores.
use sicxe.Base.{ℕ, ◌≡◌, ap, ◌∙◌, false, Option, none, some, arith}
use sicxe.Isa.{of_fs34, OperandsFs34}
use sicxe.Machine.Memory.{Memory, write_memory_word}
use sicxe.Machine.Memory.Laws.{read_memory_word-write_memory_word}
use sicxe.Machine.State.{
  Machine, Outcome, done, undefined, assertion_failed, ExecuteResult, equal, greater, IsValid,
  and_then, set_register, set_condition,
}
use sicxe.Machine.Logic.Operand.{is_immediate, word_operand}
use sicxe.Machine.Logic.Transfer.{
  load_word, store_word, store_flags, status_word, condition_code_value,
}

read_back :
    (r : ℕ) (o : OperandsFs34) (m : Machine)
    → IsValid m
    → is_immediate o ≡ false
    → word_operand o
        (record m { memory = write_memory_word m.memory m.target_address (m.registers r) })
      ≡ m.registers r
unfolding word_operand
read_back r o m v h = rw h (
    read_memory_word-write_memory_word m.memory m.target_address (m.registers r)
    ∙ omega (arith, v.registers_fit r))

-- A load into any register, of the operand into which a register was stored just before, gives that
-- register's value; the machine must be valid, and the addressing must not be immediate.
pub load_word-store_word :
    (r s : ℕ) (o : OperandsFs34) (m : Machine)
    → IsValid m
    → is_immediate o ≡ false
    → and_then (store_word r (of_fs34 o) m) (load_word s (of_fs34 o))
      ≡ done ExecuteResult.ok (
          set_register s
            (m.registers r)
            (record m { memory = write_memory_word m.memory m.target_address (m.registers r) }))
unfolding load_word store_word
load_word-store_word r s o m v h =
    let stored : Machine = record m {
      memory = write_memory_word m.memory m.target_address (m.registers r);
    } in
    rw h (ap (λ w. done ExecuteResult.ok (set_register s w stored)) (read_back r o m v h))

-- The memory after an instruction, if there is one.
abbrev pub memory_after : Outcome → Option Memory
memory_after (done result m) = some m.memory
memory_after undefined = none
memory_after assertion_failed = none

-- Whatever the machine and the operand, STSW stores the same whether the condition code is equal or
-- greater.
pub store_flags_ambiguous :
    (o : OperandsFs34) (m : Machine)
    → memory_after (store_flags (of_fs34 o) (set_condition equal m))
      ≡ memory_after (store_flags (of_fs34 o) (set_condition greater m))
unfolding store_flags status_word condition_code_value
store_flags_ambiguous o m = ground arith
