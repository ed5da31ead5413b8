-- ===== src/Machine/Logic.antt =====
-- machine/logic.h and logic_db.{h,cc}: the classes of instruction logic, and the table of them by
-- opcode.
pub mod Operand
pub mod Rules
pub mod Validity
pub mod Failure
pub mod Runs
pub mod Arithmetic
pub mod Compare
pub mod Transfer
pub mod Jump
pub mod Floats
pub mod Devices
pub mod Defaults
use sicxe.Base.{ℕ, Bool, Option, none, some, List, [], ◌∷◌, update}
use sicxe.Isa.{Operands, Format, f1, f2, fs34}
use sicxe.Machine.Float.{Fpu}
use sicxe.Machine.Device.{Files}
use sicxe.Machine.State.{Machine, Outcome, Condition}
use Arithmetic.{ArithmeticOperation, arithmetic_mem, arithmetic_reg, register_negate, shift}
use Compare.{compare_mem, compare_reg, increment_compare_mem, increment_compare_reg}
use Transfer.{clear_reg, move_reg, load_word, load_byte, store_word, store_byte, store_flags}
use Jump.{
  jump, jump_conditional, return_, interrupt_enable, interrupt_disable, interrupt_return,
  interrupt_link_store,
}
use Floats.{
  FloatOperation, load_float, store_float, float_to_int, int_to_float, float_arithmetic,
  float_compare,
}
use Devices.{test_device, read_device, write_device}

-- A constructor for each class that derives from `InstructionLogic`, with its members.
pub data Logic : Type 0 where
  clears moves negates : Logic
  arithmetic_memory arithmetic_registers : ArithmeticOperation → Logic
  shifts : Bool → Logic
  compares_memory compares_registers increments_memory increments_register : Logic
  jumps : Bool → Logic
  jumps_if : Condition → Logic
  returns : Logic
  loads_word stores_word : ℕ → Logic
  loads_byte stores_byte stores_flags : Logic
  tests_device reads_device writes_device : Logic
  float_to_integer integer_to_float : Logic
  calculates_float : FloatOperation → Logic
  compares_float loads_float stores_float : Logic
  enables disables returns_from_interrupt stores_link : Logic

module _ (fpu : Fpu) (files : Files) where
  -- The virtual call `logic->Execute`.
  unfoldable pub execute_logic : Logic → Operands → Machine → Outcome
  execute_logic clears = clear_reg
  execute_logic moves = move_reg
  execute_logic negates = register_negate
  execute_logic (arithmetic_memory op) = arithmetic_mem op
  execute_logic (arithmetic_registers op) = arithmetic_reg op
  execute_logic (shifts direction_right) = shift direction_right
  execute_logic compares_memory = compare_mem
  execute_logic compares_registers = compare_reg
  execute_logic increments_memory = increment_compare_mem
  execute_logic increments_register = increment_compare_reg
  execute_logic (jumps save) = jump save
  execute_logic (jumps_if condition) = jump_conditional condition
  execute_logic returns = return_
  execute_logic (loads_word r) = load_word r
  execute_logic (stores_word r) = store_word r
  execute_logic loads_byte = load_byte
  execute_logic stores_byte = store_byte
  execute_logic stores_flags = store_flags
  execute_logic tests_device = test_device
  execute_logic reads_device = read_device files
  execute_logic writes_device = write_device files
  execute_logic float_to_integer = float_to_int fpu
  execute_logic integer_to_float = int_to_float fpu
  execute_logic (calculates_float op) = float_arithmetic fpu op
  execute_logic compares_float = float_compare fpu
  execute_logic loads_float = load_float
  execute_logic stores_float = store_float
  execute_logic enables = interrupt_enable
  execute_logic disables = interrupt_disable
  execute_logic returns_from_interrupt = interrupt_return
  execute_logic stores_link = interrupt_link_store

abbrev pub LogicDb : Type 0
LogicDb = ℕ → Option Logic

unfoldable pub empty_logic_db : LogicDb
empty_logic_db opcode = none

-- `LogicDB::Register`; `none` is a failed assertion.
unfoldable pub register_logic : ℕ → Logic → LogicDb → Option LogicDb
register_logic opcode logic db = elim (db opcode) [
  | none ↦ some (update db opcode (some logic))
  | some taken ↦ none
]

unfoldable pub register_logics : List (ℕ × Logic) → LogicDb → Option LogicDb
unfolding register_logic
register_logics [] db = some db
register_logics ((opcode, logic) ∷ rest) db = elim (register_logic opcode logic db) [
  | none ↦ none
  | some db' ↦ register_logics rest db'
]
