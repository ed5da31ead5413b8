-- ===== src/Machine/Logic/Runs.antt =====
-- No assertion of an instruction's logic fails on operands of the format that it expects, and none
-- reports that it is not implemented.
use sicxe.Base.{
  ℕ, ◌+◌, ◌%◌, ◌^◌, ◌==◌, ◌≡◌, ◌≢◌, Bool, true, false, Option, none, some, inl, inr, Bool-cases,
  Option-cases, ltb, if◌then◌else◌,
}
use sicxe.Base.Int.{ℤ}
use sicxe.Isa.{
  Format, f1, f2, fs34, format_of, Operands, none_f1, of_f2, of_fs34, OperandsF2, OperandsFs34,
}
use sicxe.Machine.Word.{trim_address, sign_extend_word}
use sicxe.Machine.Float.{Fpu}
use sicxe.Machine.Device.{Files, Device, Console, read, write}
use sicxe.Machine.State.{
  Machine, Outcome, done, undefined, assertion_failed, ExecuteResult, Condition, num_registers,
  reg_a,
}
use sicxe.Machine.Logic.Operand.{
  is_immediate, byte_operand, word_operand, with_fs34, with_address, with_register, with_registers,
  with_f1,
}
use sicxe.Machine.Logic.{Logic, execute_logic}
use sicxe.Machine.Logic.Arithmetic.{
  store_result, arithmetic_mem, arithmetic_reg, register_negate, shift,
}
use sicxe.Machine.Logic.Compare.{
  compare_mem, compare_reg, increment_compare, increment_compare_mem, increment_compare_reg,
}
use sicxe.Machine.Logic.Transfer.{
  clear_reg, move_reg, load_word, load_byte, store_word, store_byte, store_flags,
}
use sicxe.Machine.Logic.Jump.{
  jump, jump_conditional, return_, interrupt_enable, interrupt_disable, interrupt_return,
  interrupt_link_store, same_condition,
}
use sicxe.Machine.Logic.Floats.{
  load_float, store_float, store_integer, float_to_int, int_to_float, float_arithmetic,
  float_compare,
}
use sicxe.Machine.Logic.Devices.{test_device, after_read, after_write, read_device, write_device}

-- No assertion failed, and the instruction is implemented.
abbrev pub Runs : Outcome → Type 0
Runs (done result m) = result ≢ ExecuteResult.not_implemented
Runs undefined = Unit
Runs assertion_failed = ⊥

-- The format that the assertions of each class want.
unfoldable pub expected_format : Logic → Format
expected_format Logic.clears = f2
expected_format Logic.moves = f2
expected_format Logic.negates = f2
expected_format (Logic.arithmetic_memory op) = fs34
expected_format (Logic.arithmetic_registers op) = f2
expected_format (Logic.shifts right) = f2
expected_format Logic.compares_memory = fs34
expected_format Logic.compares_registers = f2
expected_format Logic.increments_memory = fs34
expected_format Logic.increments_register = f2
expected_format (Logic.jumps save) = fs34
expected_format (Logic.jumps_if c) = fs34
expected_format Logic.returns = fs34
expected_format (Logic.loads_word r) = fs34
expected_format (Logic.stores_word r) = fs34
expected_format Logic.loads_byte = fs34
expected_format Logic.stores_byte = fs34
expected_format Logic.stores_flags = fs34
expected_format Logic.tests_device = fs34
expected_format Logic.reads_device = fs34
expected_format Logic.writes_device = fs34
expected_format Logic.float_to_integer = f1
expected_format Logic.integer_to_float = f1
expected_format (Logic.calculates_float op) = fs34
expected_format Logic.compares_float = fs34
expected_format Logic.loads_float = fs34
expected_format Logic.stores_float = fs34
expected_format Logic.enables = f1
expected_format Logic.disables = f1
expected_format Logic.returns_from_interrupt = f1
expected_format Logic.stores_link = fs34

ok_implemented : ExecuteResult.ok ≢ ExecuteResult.not_implemented
ok_implemented h = cc

refused_implemented : ExecuteResult.invalid_addressing ≢ ExecuteResult.not_implemented
refused_implemented h = cc

module _ (m : Machine) where
  with_fs34-Runs :
      (execute : OperandsFs34 → Machine → Outcome) (operands : Operands)
      → format_of operands ≡ fs34
      → ((o : OperandsFs34) → Runs (execute o m))
      → Runs (with_fs34 execute operands m)
  with_fs34-Runs execute none_f1 e h = cc
  with_fs34-Runs execute (of_f2 o) e h = cc
  with_fs34-Runs execute (of_fs34 o) e h = h o

  with_address-Runs :
      (execute : OperandsFs34 → Machine → Outcome) (operands : Operands)
      → format_of operands ≡ fs34
      → ((o : OperandsFs34) → Runs (execute o m))
      → Runs (with_address execute operands m)
  with_address-Runs execute operands e h = with_fs34-Runs _ operands e λ o.
      elim (Bool-cases (is_immediate o)) [
        | inl i ↦ rw (i, Runs) refused_implemented
        | inr i ↦ rw (i, Runs) (h o)
      ]

  with_register-Runs :
      (execute : OperandsF2 → Machine → Outcome) (operands : Operands)
      → format_of operands ≡ f2
      → ((o : OperandsF2) → Runs (execute o m))
      → Runs (with_register execute operands m)
  with_register-Runs execute none_f1 e h = cc
  with_register-Runs execute (of_f2 o) e h = elim (Bool-cases (ltb o.r1 num_registers)) [
    | inl i ↦ rw (i, Runs) (h o)
    | inr i ↦ rw (i, Runs) refused_implemented
  ]
  with_register-Runs execute (of_fs34 o) e h = cc

  with_registers-Runs :
      (execute : OperandsF2 → Machine → Outcome) (operands : Operands)
      → format_of operands ≡ f2
      → ((o : OperandsF2) → Runs (execute o m))
      → Runs (with_registers execute operands m)
  with_registers-Runs execute operands e h = with_register-Runs _ operands e λ o.
      elim (Bool-cases (ltb o.r2 num_registers)) [
        | inl i ↦ rw (i, Runs) (h o)
        | inr i ↦ rw (i, Runs) refused_implemented
      ]

  with_f1-Runs :
      (execute : Machine → Outcome) (operands : Operands)
      → format_of operands ≡ f1
      → Runs (execute m)
      → Runs (with_f1 execute operands m)
  with_f1-Runs execute none_f1 e h = h
  with_f1-Runs execute (of_f2 o) e h = cc
  with_f1-Runs execute (of_fs34 o) e h = cc

  store_result-Runs : (r : ℕ) (value : Option ℤ) → Runs (store_result r m value)
  unfolding store_result
  store_result-Runs r none = tt
  store_result-Runs r (some value) = ok_implemented

  store_integer-Runs : (value : Option ℤ) → Runs (store_integer value m)
  unfolding store_integer
  store_integer-Runs none = tt
  store_integer-Runs (some value) = ok_implemented

  increment_compare-Runs : (value : ℤ) → Runs (increment_compare value m)
  unfolding increment_compare
  increment_compare-Runs value = ok_implemented

  jump-Runs : (save : Bool) (o : Operands) → format_of o ≡ fs34 → Runs (jump save o m)
  unfolding jump
  jump-Runs save o f = with_address-Runs _ o f λ o.
      let ends = trim_address m.target_address + (if o.e then 4 else 3) in
      elim (Bool-cases (trim_address ends == m.program_counter)) [
        | inl e ↦ rw (e, Runs) (λ h. cc)
        | inr e ↦ rw (e, Runs) ok_implemented
      ]

  jump_conditional-Runs :
      (c : Condition) (o : Operands) → format_of o ≡ fs34 → Runs (jump_conditional c o m)
  unfolding jump_conditional
  jump_conditional-Runs c o f = with_address-Runs _ o f λ o.
      elim (Bool-cases (same_condition m.condition_code c)) [
        | inl e ↦ rw (e, Runs) ok_implemented
        | inr e ↦ rw (e, Runs) ok_implemented
      ]

  after_read-Runs : (id : ℕ) (r : Option ℕ × Device × Console) → Runs (after_read id m r)
  unfolding after_read
  after_read-Runs id (none, d, c) = λ h. cc
  after_read-Runs id (some value, d, c) = ok_implemented

  after_write-Runs : (id : ℕ) (r : Bool × Device × Console) → Runs (after_write id m r)
  unfolding after_write
  after_write-Runs id (true, d, c) = ok_implemented
  after_write-Runs id (false, d, c) = λ h. cc

  read_device-Runs :
      (files : Files) (o : Operands) → format_of o ≡ fs34 → Runs (read_device files o m)
  unfolding read_device
  read_device-Runs files o f = with_fs34-Runs _ o f λ o.
      elim (Option-cases (m.devices (byte_operand o m))) [
        | inl e ↦ rw (e, Runs) (λ h. cc)
        | inr (device, e) ↦
            rw (e, Runs) (after_read-Runs (byte_operand o m) (read files device m.console))
      ]

  write_device-Runs :
      (files : Files) (o : Operands) → format_of o ≡ fs34 → Runs (write_device files o m)
  unfolding write_device
  write_device-Runs files o f = with_fs34-Runs _ o f λ o.
      elim (Option-cases (m.devices (byte_operand o m))) [
        | inl e ↦ rw (e, Runs) (λ h. cc)
        | inr (device, e) ↦
            rw (e, Runs)
              (after_write-Runs (byte_operand o m)
                (write files device (m.registers reg_a % 2 ^ 8) m.console))
      ]

module _ (fpu : Fpu) (files : Files) (m : Machine) where
  pub execute_logic-Runs :
      (logic : Logic) (o : Operands)
      → format_of o ≡ expected_format logic
      → Runs (execute_logic fpu files logic o m)
  unfolding expected_format execute_logic clear_reg move_reg arithmetic_mem arithmetic_reg
      register_negate shift compare_mem compare_reg increment_compare_mem increment_compare_reg
      return_ load_word load_byte store_word store_byte store_flags test_device load_float
      store_float float_to_int int_to_float float_arithmetic float_compare interrupt_enable
      interrupt_disable interrupt_return interrupt_link_store
  execute_logic-Runs Logic.clears o f = with_register-Runs m _ o f λ o. ok_implemented
  execute_logic-Runs Logic.negates o f = with_register-Runs m _ o f λ o. ok_implemented
  execute_logic-Runs (Logic.shifts right) o f =
      with_register-Runs m _ o f λ o. store_result-Runs m _ _
  execute_logic-Runs Logic.increments_register o f =
      with_register-Runs m _ o f λ o. increment_compare-Runs m (sign_extend_word (m.registers o.r1))
  execute_logic-Runs Logic.moves o f = with_registers-Runs m _ o f λ o. ok_implemented
  execute_logic-Runs Logic.compares_registers o f = with_registers-Runs m _ o f λ o. ok_implemented
  execute_logic-Runs (Logic.arithmetic_registers op) o f =
      with_registers-Runs m _ o f λ o. store_result-Runs m _ _
  execute_logic-Runs (Logic.arithmetic_memory op) o f =
      with_fs34-Runs m _ o f λ o. store_result-Runs m _ _
  execute_logic-Runs Logic.compares_memory o f = with_fs34-Runs m _ o f λ o. ok_implemented
  execute_logic-Runs Logic.returns o f = with_fs34-Runs m _ o f λ o. ok_implemented
  execute_logic-Runs (Logic.loads_word r) o f = with_fs34-Runs m _ o f λ o. ok_implemented
  execute_logic-Runs Logic.loads_byte o f = with_fs34-Runs m _ o f λ o. ok_implemented
  execute_logic-Runs Logic.stores_flags o f = with_fs34-Runs m _ o f λ o. ok_implemented
  execute_logic-Runs Logic.tests_device o f = with_fs34-Runs m _ o f λ o. ok_implemented
  execute_logic-Runs Logic.increments_memory o f =
      with_fs34-Runs m _ o f λ o. increment_compare-Runs m (sign_extend_word (word_operand o m))
  execute_logic-Runs (Logic.stores_word r) o f = with_address-Runs m _ o f λ o. ok_implemented
  execute_logic-Runs Logic.stores_byte o f = with_address-Runs m _ o f λ o. ok_implemented
  execute_logic-Runs (Logic.calculates_float op) o f = with_address-Runs m _ o f λ o. ok_implemented
  execute_logic-Runs Logic.compares_float o f = with_address-Runs m _ o f λ o. ok_implemented
  execute_logic-Runs Logic.loads_float o f = with_address-Runs m _ o f λ o. ok_implemented
  execute_logic-Runs Logic.stores_float o f = with_address-Runs m _ o f λ o. ok_implemented
  execute_logic-Runs Logic.stores_link o f = with_address-Runs m _ o f λ o. ok_implemented
  execute_logic-Runs Logic.integer_to_float o f = with_f1-Runs m _ o f ok_implemented
  execute_logic-Runs Logic.enables o f = with_f1-Runs m _ o f ok_implemented
  execute_logic-Runs Logic.disables o f = with_f1-Runs m _ o f ok_implemented
  execute_logic-Runs Logic.returns_from_interrupt o f = with_f1-Runs m _ o f ok_implemented
  execute_logic-Runs Logic.float_to_integer o f = with_f1-Runs m _ o f (store_integer-Runs m _)
  execute_logic-Runs (Logic.jumps save) o f = jump-Runs m save o f
  execute_logic-Runs (Logic.jumps_if c) o f = jump_conditional-Runs m c o f
  execute_logic-Runs Logic.reads_device o f = read_device-Runs m files o f
  execute_logic-Runs Logic.writes_device o f = write_device-Runs m files o f
