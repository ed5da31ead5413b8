-- ===== src/Machine/Execute/Failure.antt =====
-- An `Execute` that does not succeed restores the program counter and changes nothing else but the
-- hidden target address, after interrupts may have been enabled.
use sicxe.Base.{ℕ, ◌+◌, ◌≡◌, ◌≢◌, refl, sym, ap, ◌∙◌, Option, some, inl, inr, Option-cases}
use mathlib.Core.Option.{some-injective}
use sicxe.Isa.{Instruction, Operands, none_f1, of_f2, of_fs34}
use sicxe.Isa.Codec.{decode}
use sicxe.Machine.Word.{trim_address}
use sicxe.Machine.Float.{Fpu}
use sicxe.Machine.Device.{Files}
use sicxe.Machine.State.{
  Machine, Outcome, done, undefined, assertion_failed, ExecuteResult, set_program_counter,
}
use sicxe.Machine.Address.{target_of, calculate_target_address}
use sicxe.Machine.Logic.{Logic, LogicDb}
use sicxe.Machine.Logic.Rules.{After}
use sicxe.Machine.Logic.Failure.{Unchanged, execute_logic-Unchanged}
use sicxe.Machine.Execute.{
  enable_interrupts, fetch, with_target, restore_counter, execute_decoded, execute,
}

abbrev pub set_target : ℕ → Machine → Machine
set_target target m = record m { cpu = record (m.cpu) { target_address = target } }

-- After a failure the machine is `m` but for the target address.
abbrev pub OnlyTarget : Machine → ExecuteResult → Machine → Type 0
OnlyTarget m result m' = result ≢ ExecuteResult.ok → (target : ℕ) × (m' ≡ set_target target m)

with_target_lem :
    (o : Operands) (m m' : Machine)
    → with_target o m ≡ some m'
    → (target : ℕ) × (m' ≡ set_target target m)
unfolding with_target calculate_target_address
with_target_lem none_f1 m m' h = (m.target_address, sym (some-injective m m' h))
with_target_lem (of_f2 o) m m' h = (m.target_address, sym (some-injective m m' h))
with_target_lem (of_fs34 o) m m' h = elim (Option-cases (target_of o m)) [
  | inl e ↦ absurd (let failed = rw (e, calculate_target_address) at h in cc)
  | inr (target, e) ↦ (target, sym (some-injective _ m' (rw (e, calculate_target_address) at h)))
]

-- `ready` is the machine that the instruction was given.
restore_counter-OnlyTarget :
    (m ready : Machine) (address target : ℕ) (outcome : Outcome)
    → ready ≡ set_target target (set_program_counter address m)
    → After (Unchanged ready) outcome
    → After (OnlyTarget m) (restore_counter m.program_counter outcome)
unfolding restore_counter
restore_counter-OnlyTarget m ready address target (done ExecuteResult.ok m') e u =
    λ h. absurd (h refl)
restore_counter-OnlyTarget m ready address target (done ExecuteResult.device_error m') e u =
    λ h. (target, ap (set_program_counter m.program_counter) (u h ∙ e))
restore_counter-OnlyTarget m ready address target (done ExecuteResult.invalid_opcode m') e u =
    λ h. (target, ap (set_program_counter m.program_counter) (u h ∙ e))
restore_counter-OnlyTarget m ready address target (done ExecuteResult.invalid_addressing m') e u =
    λ h. (target, ap (set_program_counter m.program_counter) (u h ∙ e))
restore_counter-OnlyTarget m ready address target (done ExecuteResult.not_implemented m') e u =
    λ h. (target, ap (set_program_counter m.program_counter) (u h ∙ e))
restore_counter-OnlyTarget m ready address target (done ExecuteResult.endless_loop m') e u =
    λ h. (target, ap (set_program_counter m.program_counter) (u h ∙ e))
restore_counter-OnlyTarget m ready address target undefined e u = tt
restore_counter-OnlyTarget m ready address target assertion_failed e u = tt

module _ (find_opcode : ℕ → Option Instruction) (logic_db : LogicDb) (fpu : Fpu)
    (files : Files) where
  execute_decoded-OnlyTarget :
      (logic : Logic) (operands : Operands) (length : ℕ) (m : Machine)
      → After
          (OnlyTarget m)
          (execute_decoded find_opcode logic_db fpu files logic operands length m)
  unfolding execute_decoded
  execute_decoded-OnlyTarget logic operands length m =
      let address = trim_address (m.program_counter + length) in
      let advanced = set_program_counter address m in
      elim (Option-cases (with_target operands advanced)) [
        | inl e ↦ rw (e, After) (λ h. (m.target_address, refl))
        | inr (ready, e) ↦
            let (target, same) = with_target_lem operands advanced ready e in
            rw (e, After)
              (restore_counter-OnlyTarget m ready address target _ same
                (execute_logic-Unchanged fpu files ready logic operands))
      ]

  -- Whatever the tables, an `Execute` whose result is not `ok` leaves the machine as it was after
  -- the delayed enabling of interrupts, but for the target address: the program counter, the
  -- registers, the memory, the devices and the streams are the same.
  pub execute-OnlyTarget :
      (m : Machine)
      → After (OnlyTarget (enable_interrupts m)) (execute find_opcode logic_db fpu files m)
  unfolding execute
  execute-OnlyTarget m0 =
      let m = enable_interrupts m0 in
      elim (Option-cases (decode find_opcode (fetch m.memory m.program_counter))) [
        | inl e ↦ rw (e, After) (λ h. (m.target_address, refl))
        | inr ((insn, length), e) ↦ elim (Option-cases (logic_db insn.opcode)) [
          | inl f ↦ rw (e, f, After) (λ h. (m.target_address, refl))
          | inr (logic, f) ↦
              rw (e, f, After) (execute_decoded-OnlyTarget logic insn.operands length m)
        ]
      ]
