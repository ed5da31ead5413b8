-- ===== src/Machine/Logic/Floats.antt =====
-- machine/logic/float.cc.
use sicxe.Base.{ℕ, List, Option, none, some, if◌then◌else◌}
use sicxe.Base.Int.{ℤ}
use sicxe.Isa.{Operands}
use sicxe.Machine.Word.{uint32, sign_extend_word, trim_word}
use sicxe.Machine.Memory.{read_memory, write_memory}
use sicxe.Machine.Float.{Fpu, decode_float_data, encode_float_data}
use sicxe.Machine.State.{
  Machine, Outcome, done, undefined, ExecuteResult, less, equal, greater, reg_a, set_condition,
  set_register,
}
use sicxe.Machine.Logic.Operand.{with_address, with_f1}

pub data FloatOperation : Type 0 where
  add subtract multiply divide : FloatOperation

abbrev pub set_float : List ℕ → Machine → Machine
set_float bytes m = record m { cpu = record (m.cpu) { float_register = bytes } }

-- `LoadFloat::Execute`.
unfoldable pub load_float : Operands → Machine → Outcome
load_float =
    with_address
      λ o m. done ExecuteResult.ok (set_float (read_memory m.memory m.target_address 6) m)

-- `StoreFloat::Execute`.
unfoldable pub store_float : Operands → Machine → Outcome
store_float = with_address λ o m.
    done ExecuteResult.ok
      (record m { memory = write_memory m.memory m.target_address m.float_register })

unfoldable pub store_integer : Option ℤ → Machine → Outcome
store_integer none m = undefined
store_integer (some value) m =
    done ExecuteResult.ok (set_register reg_a (trim_word (uint32 value)) m)

module _ (fpu : Fpu) where
  open fpu use {Double}

  -- `FloatToInt::Execute`.
  unfoldable pub float_to_int : Operands → Machine → Outcome
  unfolding store_integer
  float_to_int =
      with_f1 λ m. store_integer (fpu.to_int32 (decode_float_data fpu m.float_register)) m

  -- `IntToFloat::Execute`.
  unfoldable pub int_to_float : Operands → Machine → Outcome
  int_to_float = with_f1 λ m.
      done ExecuteResult.ok
        (set_float (encode_float_data fpu (fpu.of_int32 (sign_extend_word (m.registers reg_a)))) m)

  pub calculate_float : FloatOperation → Double → Double → Double
  calculate_float add a b = fpu.add a b
  calculate_float subtract a b = fpu.subtract a b
  calculate_float multiply a b = fpu.multiply a b
  calculate_float divide a b = fpu.divide a b

  -- `FloatArithmetic::Execute`.
  unfoldable pub float_arithmetic : FloatOperation → Operands → Machine → Outcome
  unfolding calculate_float
  float_arithmetic op = with_address λ o m.
      let a = decode_float_data fpu m.float_register in
      let b = decode_float_data fpu (read_memory m.memory m.target_address 6) in
      done ExecuteResult.ok (set_float (encode_float_data fpu (calculate_float op a b)) m)

  -- `FloatCompare::Execute`. A comparison with no order leaves EQUAL.
  unfoldable pub float_compare : Operands → Machine → Outcome
  float_compare = with_address λ o m.
      let a = decode_float_data fpu m.float_register in
      let b = decode_float_data fpu (read_memory m.memory m.target_address 6) in
      let after_greater = if fpu.less b a then greater else equal in
      let condition = if fpu.less a b then less else after_greater in
      done ExecuteResult.ok (set_condition condition m)
