-- ===== src/Machine/Logic/Validity.antt =====
-- What keeps the registers and the memory within their widths: each way in which an instruction
-- changes the machine.
pub mod Instructions
use sicxe.Base.{
  List, ℕ, ◌%◌, ◌^◌, ◌<◌, ◌≡◌, refl, Bool, true, false, Option, none, some, inl, inr, Bool-cases,
  update, if◌then◌else◌, arith,
}
use sicxe.Base.Int.{ℤ}
use sicxe.Isa.{Operands, OperandsFs34}
use sicxe.Machine.Word.{uint32, trim_word, trim_address}
use sicxe.Machine.Word.Laws.{trim_word-lt, trim_address-lt}
use sicxe.Machine.Memory.{Memory, read_memory_word, read_memory_byte, read_memory}
use sicxe.Machine.Memory.Laws.{
  IsByteMemory, read_memory_word-lt, write_memory_byte-IsByteMemory, write_memory_word-IsByteMemory,
  write_memory-IsByteMemory,
}
use sicxe.Machine.Float.{Fpu, IsFloatData, encode_float_data-IsFloatData}
use sicxe.Machine.State.{
  Machine, Outcome, done, ExecuteResult, Condition, IsValid, set_register, set_condition,
  set_program_counter,
}
use sicxe.Machine.Logic.Operand.{is_immediate, word_operand, byte_operand}
use sicxe.Machine.Logic.Rules.{
  After, with_fs34-After, with_address-After, with_register-After, with_registers-After,
  with_f1-After,
}
use sicxe.Machine.Logic.Floats.{set_float}
use sicxe.Machine.Device.{Device, Console}
use sicxe.Machine.Logic.Arithmetic.{
  ArithmeticOperation, calculate, store_result, arithmetic_mem, arithmetic_reg, register_negate,
  shift,
}

abbrev pub Valid : ExecuteResult → Machine → Type 0
Valid result m = IsValid m

module _ (m : Machine) (v : IsValid m) where
  pub set_register-IsValid : (r value : ℕ) → value < 2 ^ 24 → IsValid (set_register r value m)
  set_register-IsValid r value h = record {
    counter_fits = v.counter_fits;
    registers_fit = λ q. ground (arith, v.registers_fit q);
    float_fits = v.float_fits;
    link_fits = v.link_fits;
    target_fits = v.target_fits;
    memory_fits = v.memory_fits;
  }

  pub set_condition-IsValid : (c : Condition) → IsValid (set_condition c m)
  set_condition-IsValid c = record {
    counter_fits = v.counter_fits;
    registers_fit = v.registers_fit;
    float_fits = v.float_fits;
    link_fits = v.link_fits;
    target_fits = v.target_fits;
    memory_fits = v.memory_fits;
  }

  pub set_program_counter-IsValid :
      (address : ℕ) → address < 2 ^ 20 → IsValid (set_program_counter address m)
  set_program_counter-IsValid address h = record {
    counter_fits = h;
    registers_fit = v.registers_fit;
    float_fits = v.float_fits;
    link_fits = v.link_fits;
    target_fits = v.target_fits;
    memory_fits = v.memory_fits;
  }

  pub with_memory-IsValid :
      (memory : Memory) → IsByteMemory memory → IsValid (record m { memory = memory })
  with_memory-IsValid memory h = record {
    counter_fits = v.counter_fits;
    registers_fit = v.registers_fit;
    float_fits = v.float_fits;
    link_fits = v.link_fits;
    target_fits = v.target_fits;
    memory_fits = h;
  }

  pub set_float-IsValid : (bytes : List ℕ) → IsFloatData bytes → IsValid (set_float bytes m)
  set_float-IsValid bytes h = record {
    counter_fits = v.counter_fits;
    registers_fit = v.registers_fit;
    float_fits = h;
    link_fits = v.link_fits;
    target_fits = v.target_fits;
    memory_fits = v.memory_fits;
  }

  pub with_devices-IsValid :
      (devices : ℕ → Option Device) (console : Console)
      → IsValid (record m { devices = devices; console = console })
  with_devices-IsValid devices console = record {
    counter_fits = v.counter_fits;
    registers_fit = v.registers_fit;
    float_fits = v.float_fits;
    link_fits = v.link_fits;
    target_fits = v.target_fits;
    memory_fits = v.memory_fits;
  }

  pub read_float-IsFloatData : (address : ℕ) → IsFloatData (read_memory m.memory address 6)
  unfolding read_memory
  read_float-IsFloatData address =
      let byte = v.memory_fits in
      record {
        six = refl;
        bytes_lt = (byte _, (byte _, (byte _, (byte _, (byte _, (byte _, tt))))));
      }

  pub word_operand-lt : (o : OperandsFs34) → word_operand o m < 2 ^ 24
  unfolding word_operand
  word_operand-lt o =
      ground (arith, v.target_fits, read_memory_word-lt m.memory m.target_address v.memory_fits)

  pub byte_operand-lt : (o : OperandsFs34) → byte_operand o m < 2 ^ 8
  unfolding byte_operand read_memory_byte
  byte_operand-lt o = ground (arith, v.memory_fits (trim_address m.target_address))

  pub store_result-IsValid : (r : ℕ) (value : Option ℤ) → After Valid (store_result r m value)
  unfolding store_result
  store_result-IsValid r none = tt
  store_result-IsValid r (some value) =
      set_register-IsValid r (trim_word (uint32 value)) (trim_word-lt _)
