-- ===== src/Machine/Logic/Rules.antt =====
-- How a property of every outcome is proved of an instruction: its operand checks are gone through
-- once here, so that each instruction is left with the machine that it makes.
use sicxe.Base.{◌<◌, inl, inr, Bool-cases, ltb, ltb→lt}
use sicxe.Isa.{Operands, none_f1, of_f2, of_fs34, OperandsF2, OperandsFs34}
use sicxe.Machine.State.{
  Machine, Outcome, done, undefined, assertion_failed, ExecuteResult, num_registers,
}
use sicxe.Machine.Logic.Operand.{
  is_immediate, with_fs34, with_address, with_register, with_registers, with_f1,
}

-- What holds of the result and of the machine after it, if there is one.
abbrev pub After {ℓ} : (ExecuteResult → Machine → Type ℓ) → Outcome → Type ℓ
After P (done result m) = P result m
After P undefined = Unit
After P assertion_failed = Unit

module _ {ℓ} (P : ExecuteResult → Machine → Type ℓ) (m : Machine) where
  pub with_fs34-After :
      (execute : OperandsFs34 → Machine → Outcome) (operands : Operands)
      → ((o : OperandsFs34) → After P (execute o m))
      → After P (with_fs34 execute operands m)
  with_fs34-After execute none_f1 h = tt
  with_fs34-After execute (of_f2 o) h = tt
  with_fs34-After execute (of_fs34 o) h = h o

  pub with_address-After :
      (execute : OperandsFs34 → Machine → Outcome) (operands : Operands)
      → P ExecuteResult.invalid_addressing m
      → ((o : OperandsFs34) → After P (execute o m))
      → After P (with_address execute operands m)
  with_address-After execute operands refused h =
      with_fs34-After _ operands
        λ o. elim (Bool-cases (is_immediate o)) [ inl e ↦ rw e refused | inr e ↦ rw e (h o) ]

  pub with_register-After :
      (execute : OperandsF2 → Machine → Outcome) (operands : Operands)
      → P ExecuteResult.invalid_addressing m
      → ((o : OperandsF2) → o.r1 < num_registers → After P (execute o m))
      → After P (with_register execute operands m)
  with_register-After execute none_f1 refused h = tt
  with_register-After execute (of_f2 o) refused h = elim (Bool-cases (ltb o.r1 num_registers)) [
    | inl e ↦ rw e (h o (ltb→lt _ _ e))
    | inr e ↦ rw e refused
  ]
  with_register-After execute (of_fs34 o) refused h = tt

  pub with_registers-After :
      (execute : OperandsF2 → Machine → Outcome) (operands : Operands)
      → P ExecuteResult.invalid_addressing m
      → ((o : OperandsF2) → o.r1 < num_registers → o.r2 < num_registers → After P (execute o m))
      → After P (with_registers execute operands m)
  with_registers-After execute operands refused h =
      with_register-After _ operands refused λ o first. elim (Bool-cases (ltb o.r2 num_registers)) [
        | inl e ↦ rw e (h o first (ltb→lt _ _ e))
        | inr e ↦ rw e refused
      ]

  pub with_f1-After :
      (execute : Machine → Outcome) (operands : Operands)
      → After P (execute m)
      → After P (with_f1 execute operands m)
  with_f1-After execute none_f1 h = h
  with_f1-After execute (of_f2 o) h = tt
  with_f1-After execute (of_fs34 o) h = tt
