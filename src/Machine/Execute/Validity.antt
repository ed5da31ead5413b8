-- ===== src/Machine/Execute/Validity.antt =====
-- `Execute` keeps the machine's registers and memory within their widths.
use sicxe.Base.{
  ℕ, ◌+◌, ◌^◌, ◌<◌, ◌≡◌, refl, subst, Option, some, inl, inr, Bool-cases, Option-cases, arith,
}
use sicxe.Isa.{Instruction, Operands, none_f1, of_f2, of_fs34, OperandsFs34}
use sicxe.Isa.Codec.{decode}
use sicxe.Machine.Word.{trim_word, trim_address}
use sicxe.Machine.Word.Laws.{trim_address-lt}
use sicxe.Machine.Memory.{read_memory_word}
use sicxe.Machine.Memory.Laws.{read_memory_word-lt}
use sicxe.Machine.Float.{Fpu}
use sicxe.Machine.Device.{Files}
use sicxe.Machine.State.{
  Machine, Outcome, done, undefined, assertion_failed, ExecuteResult, IsValid, set_program_counter,
  reset,
}
use mathlib.Core.Option.{some-injective}
use sicxe.Machine.Address.{displaced, target_of, calculate_target_address}
use sicxe.Machine.Logic.{Logic, LogicDb}
use sicxe.Machine.Logic.Rules.{After}
use sicxe.Machine.Logic.Validity.{Valid, set_program_counter-IsValid}
use sicxe.Machine.Logic.Validity.Instructions.{execute_logic-IsValid}
use sicxe.Machine.Execute.{
  enable_interrupts, fetch, with_target, restore_counter, execute_decoded, execute, interrupt,
}

-- A machine that was reset is valid, whatever it was before.
pub reset-IsValid : (m : Machine) → IsValid (reset m)
unfolding reset
reset-IsValid m = record {
  counter_fits = omega arith;
  registers_fit = λ r. omega arith;
  float_fits = record { six = refl; bytes_lt = omega arith };
  link_fits = omega arith;
  target_fits = omega arith;
  memory_fits = λ a. omega arith;
}

pub target_of-lt :
    (o : OperandsFs34) (m : Machine) (target : ℕ)
    → IsValid m
    → target_of o m ≡ some target
    → target < 2 ^ 24
unfolding target_of trim_word
target_of-lt o m target v h =
    ground
      (arith, read_memory_word-lt m.memory (trim_address (trim_word (displaced o m))) v.memory_fits)

set_target-IsValid :
    (m : Machine) (target : ℕ)
    → IsValid m
    → target < 2 ^ 24
    → IsValid (record m { cpu = record (m.cpu) { target_address = target } })
set_target-IsValid m target v h = record {
  counter_fits = v.counter_fits;
  registers_fit = v.registers_fit;
  float_fits = v.float_fits;
  link_fits = v.link_fits;
  target_fits = h;
  memory_fits = v.memory_fits;
}

with_target-IsValid :
    (o : Operands) (m m' : Machine) → IsValid m → with_target o m ≡ some m' → IsValid m'
unfolding with_target calculate_target_address
with_target-IsValid none_f1 m m' v h = subst IsValid (some-injective m m' h) v
with_target-IsValid (of_f2 o) m m' v h = subst IsValid (some-injective m m' h) v
with_target-IsValid (of_fs34 o) m m' v h = elim (Option-cases (target_of o m)) [
  | inl e ↦ absurd (let failed = rw (e, calculate_target_address) at h in cc)
  | inr (target, e) ↦
      subst IsValid (some-injective _ m' (rw (e, calculate_target_address) at h))
        (set_target-IsValid m target v (target_of-lt o m target v e))
]

restore_counter-IsValid :
    (counter : ℕ) (outcome : Outcome)
    → counter < 2 ^ 20
    → After Valid outcome
    → After Valid (restore_counter counter outcome)
unfolding restore_counter
restore_counter-IsValid counter (done ExecuteResult.ok m) h v = v
restore_counter-IsValid counter (done _ m) h v = set_program_counter-IsValid m v counter h
restore_counter-IsValid counter undefined h v = tt
restore_counter-IsValid counter assertion_failed h v = tt

enable_interrupts-IsValid : (m : Machine) → IsValid m → IsValid (enable_interrupts m)
unfolding enable_interrupts
enable_interrupts-IsValid m v = elim (Bool-cases m.interrupt_enable_next) [
  | inl e ↦ rw e (record {
    counter_fits = v.counter_fits;
    registers_fit = v.registers_fit;
    float_fits = v.float_fits;
    link_fits = v.link_fits;
    target_fits = v.target_fits;
    memory_fits = v.memory_fits;
  })
  | inr e ↦ simp e v
]

module _ (find_opcode : ℕ → Option Instruction) (logic_db : LogicDb) (fpu : Fpu)
    (files : Files) where
  execute_decoded-IsValid :
      (logic : Logic) (operands : Operands) (length : ℕ) (m : Machine)
      → IsValid m
      → After Valid (execute_decoded find_opcode logic_db fpu files logic operands length m)
  unfolding execute_decoded
  execute_decoded-IsValid logic operands length m v =
      let advanced = set_program_counter (trim_address (m.program_counter + length)) m in
      let ready =
        set_program_counter-IsValid m v (trim_address (m.program_counter + length))
          (trim_address-lt (m.program_counter + length)) in
      elim (Option-cases (with_target operands advanced)) [
        | inl e ↦
            rw (e, After)
              (set_program_counter-IsValid advanced ready m.program_counter v.counter_fits)
        | inr (m', e) ↦
            rw (e, After)
              (restore_counter-IsValid m.program_counter _ v.counter_fits (
                execute_logic-IsValid fpu files m'
                  (with_target-IsValid operands advanced m' ready e) logic operands))
      ]

  -- Whatever `Execute` results in, with whatever tables, the machine is valid if it was before.
  pub execute-IsValid :
      (m : Machine) → IsValid m → After Valid (execute find_opcode logic_db fpu files m)
  unfolding execute
  execute-IsValid m0 v0 =
      let m = enable_interrupts m0 in
      let v = enable_interrupts-IsValid m0 v0 in
      elim (Option-cases (decode find_opcode (fetch m.memory m.program_counter))) [
        | inl e ↦ rw (e, After) v
        | inr ((insn, length), e) ↦ elim (Option-cases (logic_db insn.opcode)) [
          | inl f ↦ rw (e, f, After) v
          | inr (logic, f) ↦
              rw (e, f, After) (execute_decoded-IsValid logic insn.operands length m v)
        ]
      ]

-- An interrupt keeps the machine valid.
pub interrupt-IsValid : (m : Machine) → IsValid m → IsValid (interrupt m)
unfolding interrupt
interrupt-IsValid m v = elim (Bool-cases m.interrupt_enabled) [
  | inl e ↦ rw e (record {
    counter_fits = trim_address-lt (read_memory_word m.memory 0xffffd);
    registers_fit = v.registers_fit;
    float_fits = v.float_fits;
    link_fits = v.counter_fits;
    target_fits = v.target_fits;
    memory_fits = v.memory_fits;
  })
  | inr e ↦ simp e v
]
