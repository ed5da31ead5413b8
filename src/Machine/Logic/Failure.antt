-- ===== src/Machine/Logic/Failure.antt =====
-- An instruction that does not succeed leaves the machine as it was, devices and streams included.
use sicxe.Base.{
  ℕ, ◌+◌, ◌%◌, ◌^◌, ◌==◌, ◌≡◌, ◌≢◌, refl, ap, Bool, true, false, Option, none, some, inl, inr,
  Bool-cases, Option-cases, update, if◌then◌else◌, arith,
}
use mathlib.Core.Path.{fun_ext}
use sicxe.Base.Int.{ℤ}
use sicxe.Isa.{Operands}
use sicxe.Machine.Word.{trim_address}
use sicxe.Machine.Float.{Fpu}
use sicxe.Machine.Device.{Files, Device, Console, read, write, read_failed, write_failed}
use sicxe.Machine.State.{Machine, ExecuteResult, Condition, reg_a}
use sicxe.Machine.Logic.Rules.{
  After, with_fs34-After, with_address-After, with_register-After, with_registers-After,
  with_f1-After,
}
use sicxe.Machine.Logic.Operand.{byte_operand}
use sicxe.Machine.Logic.{Logic, execute_logic}
use sicxe.Machine.Logic.Arithmetic.{
  store_result, arithmetic_mem, arithmetic_reg, register_negate, shift,
}
use sicxe.Machine.Logic.Compare.{
  compare_mem, compare_reg, increment_compare_mem, increment_compare_reg,
}
use sicxe.Machine.Logic.Transfer.{
  clear_reg, move_reg, load_word, load_byte, store_word, store_byte, store_flags,
}
use sicxe.Machine.Logic.Jump.{
  jump, jump_conditional, return_, interrupt_enable, interrupt_disable, interrupt_return,
  interrupt_link_store, same_condition,
}
use sicxe.Machine.Logic.Floats.{
  load_float, store_float, store_integer, float_to_int, int_to_float, float_arithmetic,
  float_compare,
}
use sicxe.Machine.Logic.Devices.{test_device, after_read, after_write, read_device, write_device}

abbrev pub Unchanged : Machine → ExecuteResult → Machine → Type 0
Unchanged m result m' = result ≢ ExecuteResult.ok → m' ≡ m

module _ (m : Machine) where
  succeeded : (m' : Machine) → Unchanged m ExecuteResult.ok m'
  succeeded m' h = absurd (h refl)

  store_result-Unchanged : (r : ℕ) (value : Option ℤ) → After (Unchanged m) (store_result r m value)
  unfolding store_result
  store_result-Unchanged r none = tt
  store_result-Unchanged r (some value) = succeeded _

  store_integer-Unchanged : (value : Option ℤ) → After (Unchanged m) (store_integer value m)
  unfolding store_integer
  store_integer-Unchanged none = tt
  store_integer-Unchanged (some value) = succeeded _

  jump-Unchanged : (save : Bool) (o : Operands) → After (Unchanged m) (jump save o m)
  unfolding jump
  jump-Unchanged save o =
      with_address-After (Unchanged m) m _ o (λ h. refl)
        λ o.
          let ends = trim_address m.target_address + (if o.e then 4 else 3) in
          elim (Bool-cases (trim_address ends == m.program_counter)) [
            | inl e ↦ rw (e, After) (λ h. refl)
            | inr e ↦ rw (e, After) (succeeded _)
          ]

  jump_conditional-Unchanged :
      (c : Condition) (o : Operands) → After (Unchanged m) (jump_conditional c o m)
  unfolding jump_conditional
  jump_conditional-Unchanged c o =
      with_address-After (Unchanged m) m _ o (λ h. refl)
        λ o. elim (Bool-cases (same_condition m.condition_code c)) [
          | inl e ↦ rw (e, After) (succeeded _)
          | inr e ↦ rw (e, After) (succeeded _)
        ]

  -- A device is put back where it was.
  put_back :
      (id : ℕ) (device d : Device) (c : Console)
      → m.devices id ≡ some device
      → d ≡ device
      → c ≡ m.console
      → record m { devices = update m.devices id (some d); console = c } ≡ m
  put_back id device d c e same_device same_console =
      rw (same_device, same_console)
        (ap (λ (f : ℕ → Option Device). record m { devices = f }) (fun_ext λ j. ground arith))

  module _ (files : Files) (id : ℕ) (device : Device) (e : m.devices id ≡ some device) where
    after_read-Unchanged :
        (r : Option ℕ × Device × Console)
        → read files device m.console ≡ r
        → After (Unchanged m) (after_read id m r)
    unfolding after_read
    after_read-Unchanged (some value, d, c) h = succeeded _
    after_read-Unchanged (none, d, c) h = λ _.
        let same = read_failed files device m.console (ground arith) in
        put_back id device d c e (ground arith) (ground arith)

    after_write-Unchanged :
        (value : ℕ) (r : Bool × Device × Console)
        → write files device value m.console ≡ r
        → After (Unchanged m) (after_write id m r)
    unfolding after_write
    after_write-Unchanged value (true, d, c) h = succeeded _
    after_write-Unchanged value (false, d, c) h = λ _.
        let same = write_failed files device value m.console (ground arith) in
        put_back id device d c e (ground arith) (ground arith)

  read_device-Unchanged :
      (files : Files) (o : Operands) → After (Unchanged m) (read_device files o m)
  unfolding read_device
  read_device-Unchanged files o = with_fs34-After (Unchanged m) m _ o λ o.
      elim (Option-cases (m.devices (byte_operand o m))) [
        | inl e ↦ rw (e, After) (λ h. refl)
        | inr (device, e) ↦
            rw (e, After)
              (after_read-Unchanged files (byte_operand o m) device e (read files device m.console)
                refl)
      ]

  write_device-Unchanged :
      (files : Files) (o : Operands) → After (Unchanged m) (write_device files o m)
  unfolding write_device
  write_device-Unchanged files o = with_fs34-After (Unchanged m) m _ o λ o.
      elim (Option-cases (m.devices (byte_operand o m))) [
        | inl e ↦ rw (e, After) (λ h. refl)
        | inr (device, e) ↦
            rw (e, After)
              (after_write-Unchanged files (byte_operand o m) device e (m.registers reg_a % 2 ^ 8)
                (write files device (m.registers reg_a % 2 ^ 8) m.console) refl)
      ]

-- An instruction whose result is not `ok` leaves the machine that it was given.
module _ (fpu : Fpu) (files : Files) (m : Machine) where
  pub execute_logic-Unchanged :
      (logic : Logic) (o : Operands) → After (Unchanged m) (execute_logic fpu files logic o m)
  unfolding execute_logic clear_reg move_reg arithmetic_mem arithmetic_reg register_negate shift
      compare_mem compare_reg increment_compare_mem increment_compare_reg return_ load_word
      load_byte store_word store_byte store_flags test_device load_float store_float float_to_int
      int_to_float float_arithmetic float_compare interrupt_enable interrupt_disable
      interrupt_return interrupt_link_store
  execute_logic-Unchanged Logic.clears o =
      with_register-After (Unchanged m) m _ o (λ h. refl) λ o h. succeeded m _
  execute_logic-Unchanged Logic.negates o =
      with_register-After (Unchanged m) m _ o (λ h. refl) λ o h. succeeded m _
  execute_logic-Unchanged (Logic.shifts right) o =
      with_register-After (Unchanged m) m _ o (λ h. refl) λ o h. store_result-Unchanged m _ _
  execute_logic-Unchanged Logic.increments_register o =
      with_register-After (Unchanged m) m _ o (λ h. refl) λ o h. succeeded m _
  execute_logic-Unchanged Logic.moves o =
      with_registers-After (Unchanged m) m _ o (λ h. refl) λ o h k. succeeded m _
  execute_logic-Unchanged Logic.compares_registers o =
      with_registers-After (Unchanged m) m _ o (λ h. refl) λ o h k. succeeded m _
  execute_logic-Unchanged (Logic.arithmetic_registers op) o =
      with_registers-After (Unchanged m) m _ o (λ h. refl) λ o h k. store_result-Unchanged m _ _
  execute_logic-Unchanged (Logic.arithmetic_memory op) o =
      with_fs34-After (Unchanged m) m _ o λ o. store_result-Unchanged m _ _
  execute_logic-Unchanged Logic.compares_memory o =
      with_fs34-After (Unchanged m) m _ o λ o. succeeded m _
  execute_logic-Unchanged Logic.increments_memory o =
      with_fs34-After (Unchanged m) m _ o λ o. succeeded m _
  execute_logic-Unchanged Logic.returns o = with_fs34-After (Unchanged m) m _ o λ o. succeeded m _
  execute_logic-Unchanged (Logic.loads_word r) o =
      with_fs34-After (Unchanged m) m _ o λ o. succeeded m _
  execute_logic-Unchanged Logic.loads_byte o =
      with_fs34-After (Unchanged m) m _ o λ o. succeeded m _
  execute_logic-Unchanged Logic.stores_flags o =
      with_fs34-After (Unchanged m) m _ o λ o. succeeded m _
  execute_logic-Unchanged Logic.tests_device o =
      with_fs34-After (Unchanged m) m _ o λ o. succeeded m _
  execute_logic-Unchanged (Logic.stores_word r) o =
      with_address-After (Unchanged m) m _ o (λ h. refl) λ o. succeeded m _
  execute_logic-Unchanged Logic.stores_byte o =
      with_address-After (Unchanged m) m _ o (λ h. refl) λ o. succeeded m _
  execute_logic-Unchanged (Logic.calculates_float op) o =
      with_address-After (Unchanged m) m _ o (λ h. refl) λ o. succeeded m _
  execute_logic-Unchanged Logic.compares_float o =
      with_address-After (Unchanged m) m _ o (λ h. refl) λ o. succeeded m _
  execute_logic-Unchanged Logic.loads_float o =
      with_address-After (Unchanged m) m _ o (λ h. refl) λ o. succeeded m _
  execute_logic-Unchanged Logic.stores_float o =
      with_address-After (Unchanged m) m _ o (λ h. refl) λ o. succeeded m _
  execute_logic-Unchanged Logic.stores_link o =
      with_address-After (Unchanged m) m _ o (λ h. refl) λ o. succeeded m _
  execute_logic-Unchanged Logic.integer_to_float o =
      with_f1-After (Unchanged m) m _ o (succeeded m _)
  execute_logic-Unchanged Logic.enables o = with_f1-After (Unchanged m) m _ o (succeeded m _)
  execute_logic-Unchanged Logic.disables o = with_f1-After (Unchanged m) m _ o (succeeded m _)
  execute_logic-Unchanged Logic.returns_from_interrupt o =
      with_f1-After (Unchanged m) m _ o (succeeded m _)
  execute_logic-Unchanged Logic.float_to_integer o =
      with_f1-After (Unchanged m) m _ o (store_integer-Unchanged m _)
  execute_logic-Unchanged (Logic.jumps save) o = jump-Unchanged m save o
  execute_logic-Unchanged (Logic.jumps_if c) o = jump_conditional-Unchanged m c o
  execute_logic-Unchanged Logic.reads_device o = read_device-Unchanged m files o
  execute_logic-Unchanged Logic.writes_device o = write_device-Unchanged m files o
