-- ===== src/Machine/Logic/Validity/Instructions.antt =====
-- Every instruction keeps the registers and the memory within their widths.
use sicxe.Base.{
  ℕ, ◌+◌, ◌%◌, ◌^◌, ◌==◌, Bool, true, false, Option, none, some, inl, inr, Bool-cases,
  if◌then◌else◌, arith,
}
use sicxe.Base.Int.{ℤ}
use sicxe.Isa.{Operands}
use sicxe.Machine.Word.{trim_address}
use sicxe.Machine.Word.Laws.{trim_word-lt, trim_address-lt}
use sicxe.Machine.Memory.Laws.{
  write_memory_byte-IsByteMemory, write_memory_word-IsByteMemory, write_memory-IsByteMemory,
}
use sicxe.Machine.Float.{Fpu, encode_float_data-IsFloatData}
use sicxe.Machine.Device.{Files, Device, Console, read, write}
use sicxe.Machine.State.{
  Machine, done, ExecuteResult, Condition, IsValid, set_register, set_program_counter, reg_a, reg_l,
  reg_x,
}
use sicxe.Machine.Logic.Rules.{
  After, with_fs34-After, with_address-After, with_register-After, with_registers-After,
  with_f1-After,
}
use sicxe.Machine.Logic.Validity.{
  Valid, set_register-IsValid, set_condition-IsValid, set_program_counter-IsValid,
  with_memory-IsValid, set_float-IsValid, with_devices-IsValid, read_float-IsFloatData,
  word_operand-lt, byte_operand-lt, store_result-IsValid,
}
use sicxe.Machine.Logic.Operand.{byte_operand}
use sicxe.Machine.Logic.{Logic, execute_logic}
use sicxe.Machine.Logic.Arithmetic.{arithmetic_mem, arithmetic_reg, register_negate, shift}
use sicxe.Machine.Logic.Compare.{
  compare_mem, compare_reg, increment_compare, increment_compare_mem, increment_compare_reg,
}
use sicxe.Machine.Logic.Transfer.{
  clear_reg, move_reg, load_word, load_byte, store_word, store_byte, store_flags,
}
use sicxe.Machine.Logic.Jump.{
  jump, jump_conditional, return_, interrupt_enable, interrupt_disable, interrupt_return,
  interrupt_link_store, same_condition,
}
use sicxe.Machine.Logic.Floats.{
  load_float, store_float, store_integer, float_to_int, int_to_float, float_arithmetic,
  float_compare,
}
use sicxe.Machine.Logic.Devices.{test_device, after_read, after_write, read_device, write_device}

module _ (m : Machine) (v : IsValid m) where
  increment_compare-IsValid : (value : ℤ) → After Valid (increment_compare value m)
  unfolding increment_compare
  increment_compare-IsValid value =
      set_condition-IsValid _ (set_register-IsValid m v reg_x _ (trim_word-lt _)) _

  jumped-IsValid :
      (save : Bool)
      → IsValid (
          set_program_counter
            (trim_address m.target_address)
            (if save then set_register reg_l m.program_counter m else m))
  jumped-IsValid true =
      set_program_counter-IsValid (set_register reg_l m.program_counter m)
        (set_register-IsValid m v reg_l m.program_counter (omega (arith, v.counter_fits)))
        (trim_address m.target_address) (trim_address-lt m.target_address)
  jumped-IsValid false =
      set_program_counter-IsValid m v (trim_address m.target_address)
        (trim_address-lt m.target_address)

  jump-IsValid : (save : Bool) (o : Operands) → After Valid (jump save o m)
  unfolding jump
  jump-IsValid save o = with_address-After Valid m _ o v λ o.
      let ends = trim_address m.target_address + (if o.e then 4 else 3) in
      elim (Bool-cases (trim_address ends == m.program_counter)) [
        | inl e ↦ rw e v
        | inr e ↦ rw e (jumped-IsValid save)
      ]

  jump_conditional-IsValid : (c : Condition) (o : Operands) → After Valid (jump_conditional c o m)
  unfolding jump_conditional
  jump_conditional-IsValid c o = with_address-After Valid m _ o v λ o.
      elim (Bool-cases (same_condition m.condition_code c)) [
        | inl e ↦ rw e (
            set_program_counter-IsValid m v (trim_address m.target_address)
              (trim_address-lt m.target_address))
        | inr e ↦ rw e v
      ]

  interrupt-IsValid :
      (o : Operands)
      → After Valid (interrupt_enable o m)
        × After Valid (interrupt_disable o m)
        × After Valid (interrupt_return o m)
        × After Valid (interrupt_link_store o m)
  unfolding interrupt_enable interrupt_disable interrupt_return interrupt_link_store
  interrupt-IsValid o = (
    with_f1-After Valid m _ o (record {
      counter_fits = v.counter_fits;
      registers_fit = v.registers_fit;
      float_fits = v.float_fits;
      link_fits = v.link_fits;
      target_fits = v.target_fits;
      memory_fits = v.memory_fits;
    }),
    with_f1-After Valid m _ o (record {
      counter_fits = v.counter_fits;
      registers_fit = v.registers_fit;
      float_fits = v.float_fits;
      link_fits = v.link_fits;
      target_fits = v.target_fits;
      memory_fits = v.memory_fits;
    }),
    with_f1-After Valid m _ o (record {
      counter_fits = v.link_fits;
      registers_fit = v.registers_fit;
      float_fits = v.float_fits;
      link_fits = v.link_fits;
      target_fits = v.target_fits;
      memory_fits = v.memory_fits;
    }),
    with_address-After Valid m _ o v
        λ o. with_memory-IsValid m v _ (write_memory_word-IsByteMemory _ _ _ v.memory_fits),
  )

  after_read-IsValid : (id : ℕ) (r : Option ℕ × Device × Console) → After Valid (after_read id m r)
  unfolding after_read
  after_read-IsValid id (none, device, console) = with_devices-IsValid m v _ _
  after_read-IsValid id (some value, device, console) =
      set_register-IsValid _ (with_devices-IsValid m v _ console) reg_a _ (omega arith)

  after_write-IsValid : (id : ℕ) (r : Bool × Device × Console) → After Valid (after_write id m r)
  unfolding after_write
  after_write-IsValid id (taken, device, console) = with_devices-IsValid m v _ _

  read_device-IsValid : (files : Files) (o : Operands) → After Valid (read_device files o m)
  unfolding read_device
  read_device-IsValid files o = with_fs34-After Valid m _ o λ o.
      elim (m.devices (byte_operand o m))
        as (λ d. After Valid (elim d [
          | none ↦ done ExecuteResult.device_error m
          | some device ↦ after_read (byte_operand o m) m (read files device m.console)
        ])) [ none ↦ v | some device ↦ after_read-IsValid _ (read files device m.console) ]

  write_device-IsValid : (files : Files) (o : Operands) → After Valid (write_device files o m)
  unfolding write_device
  write_device-IsValid files o = with_fs34-After Valid m _ o λ o.
      elim (m.devices (byte_operand o m))
        as (λ d. After Valid (elim d [
          | none ↦ done ExecuteResult.device_error m
          | some device ↦
              after_write (byte_operand o m) m
                (write files device (m.registers reg_a % 2 ^ 8) m.console)
        ])) [ none ↦ v | some device ↦ after_write-IsValid _ (write files device _ m.console) ]

  store_integer-IsValid : (value : Option ℤ) → After Valid (store_integer value m)
  unfolding store_integer
  store_integer-IsValid none = tt
  store_integer-IsValid (some value) = set_register-IsValid m v reg_a _ (trim_word-lt _)

-- Whatever an instruction results in, the registers and the memory stay within their widths.
module _ (fpu : Fpu) (files : Files) (m : Machine) (v : IsValid m) where
  pub execute_logic-IsValid :
      (logic : Logic) (o : Operands) → After Valid (execute_logic fpu files logic o m)
  unfolding execute_logic clear_reg move_reg arithmetic_mem arithmetic_reg register_negate shift
      compare_mem compare_reg increment_compare_mem increment_compare_reg return_ load_word
      load_byte store_word store_byte store_flags test_device load_float store_float float_to_int
      int_to_float float_arithmetic float_compare
  execute_logic-IsValid Logic.clears o =
      with_register-After Valid m _ o v λ o h. set_register-IsValid m v _ 0 (omega arith)
  execute_logic-IsValid Logic.moves o =
      with_registers-After Valid m _ o v λ o h k. set_register-IsValid m v _ _ (v.registers_fit _)
  execute_logic-IsValid Logic.negates o =
      with_register-After Valid m _ o v λ o h. set_register-IsValid m v _ _ (trim_word-lt _)
  execute_logic-IsValid (Logic.arithmetic_memory op) o =
      with_fs34-After Valid m _ o λ o. store_result-IsValid m v _ _
  execute_logic-IsValid (Logic.arithmetic_registers op) o =
      with_registers-After Valid m _ o v λ o h k. store_result-IsValid m v _ _
  execute_logic-IsValid (Logic.shifts right) o =
      with_register-After Valid m _ o v λ o h. store_result-IsValid m v _ _
  execute_logic-IsValid Logic.compares_memory o =
      with_fs34-After Valid m _ o λ o. set_condition-IsValid m v _
  execute_logic-IsValid Logic.compares_registers o =
      with_registers-After Valid m _ o v λ o h k. set_condition-IsValid m v _
  execute_logic-IsValid Logic.increments_memory o =
      with_fs34-After Valid m _ o λ o. increment_compare-IsValid m v _
  execute_logic-IsValid Logic.increments_register o =
      with_register-After Valid m _ o v λ o h. increment_compare-IsValid m v _
  execute_logic-IsValid (Logic.jumps save) o = jump-IsValid m v save o
  execute_logic-IsValid (Logic.jumps_if c) o = jump_conditional-IsValid m v c o
  execute_logic-IsValid Logic.returns o =
      with_fs34-After Valid m _ o λ o. set_program_counter-IsValid m v _ (trim_address-lt _)
  execute_logic-IsValid (Logic.loads_word r) o =
      with_fs34-After Valid m _ o λ o. set_register-IsValid m v r _ (word_operand-lt m v o)
  execute_logic-IsValid (Logic.stores_word r) o =
      with_address-After Valid m _ o v
        λ o. with_memory-IsValid m v _ (write_memory_word-IsByteMemory _ _ _ v.memory_fits)
  execute_logic-IsValid Logic.loads_byte o =
      with_fs34-After Valid m _ o
        λ o. set_register-IsValid m v reg_a _ (omega (arith, byte_operand-lt m v o))
  execute_logic-IsValid Logic.stores_byte o =
      with_address-After Valid m _ o v
        λ o. with_memory-IsValid m v _ (write_memory_byte-IsByteMemory _ _ _ v.memory_fits)
  execute_logic-IsValid Logic.stores_flags o =
      with_fs34-After Valid m _ o
        λ o. with_memory-IsValid m v _ (write_memory_byte-IsByteMemory _ _ _ v.memory_fits)
  execute_logic-IsValid Logic.tests_device o =
      with_fs34-After Valid m _ o λ o. set_condition-IsValid m v _
  execute_logic-IsValid Logic.reads_device o = read_device-IsValid m v files o
  execute_logic-IsValid Logic.writes_device o = write_device-IsValid m v files o
  execute_logic-IsValid Logic.float_to_integer o =
      with_f1-After Valid m _ o (store_integer-IsValid m v _)
  execute_logic-IsValid Logic.integer_to_float o =
      with_f1-After Valid m _ o (set_float-IsValid m v _ (encode_float_data-IsFloatData fpu _))
  execute_logic-IsValid (Logic.calculates_float op) o =
      with_address-After Valid m _ o v
        λ o. set_float-IsValid m v _ (encode_float_data-IsFloatData fpu _)
  execute_logic-IsValid Logic.compares_float o =
      with_address-After Valid m _ o v λ o. set_condition-IsValid m v _
  execute_logic-IsValid Logic.loads_float o =
      with_address-After Valid m _ o v λ o. set_float-IsValid m v _ (read_float-IsFloatData m v _)
  execute_logic-IsValid Logic.stores_float o = with_address-After Valid m _ o v λ o.
      with_memory-IsValid m v _
        (write_memory-IsByteMemory _ _ _ v.memory_fits v.float_fits.bytes_lt)
  execute_logic-IsValid Logic.enables o = (interrupt-IsValid m v o).0
  execute_logic-IsValid Logic.disables o = (interrupt-IsValid m v o).1
  execute_logic-IsValid Logic.returns_from_interrupt o = (interrupt-IsValid m v o).2
  execute_logic-IsValid Logic.stores_link o = (interrupt-IsValid m v o).3
