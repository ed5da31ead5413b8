-- ===== src/Machine/Logic/Defaults.antt =====
-- machine/logic_db_default.cc: the logic of the default instruction set.
use sicxe.Base.{ℕ, true, false, some, ◌≡◌, refl, List, [], ◌∷◌}
use sicxe.Isa.Opcode
use sicxe.Machine.State.{Condition, reg_a, reg_x, reg_l, reg_b, reg_s, reg_t}
use sicxe.Machine.Logic.{
  Logic, clears, moves, negates, arithmetic_memory, arithmetic_registers, shifts, compares_memory,
  compares_registers, increments_memory, increments_register, jumps, jumps_if, returns, loads_word,
  stores_word, loads_byte, stores_byte, stores_flags, tests_device, reads_device, writes_device,
  float_to_integer, integer_to_float, calculates_float, compares_float, loads_float, stores_float,
  enables, disables, returns_from_interrupt, stores_link, LogicDb, empty_logic_db, register_logics,
}
use sicxe.Machine.Logic.Arithmetic.{ArithmeticOperation}
use sicxe.Machine.Logic.Floats.{FloatOperation}
use mathlib.Core.Option

-- The entries in the order in which `CreateDefaultInstance` registers them.
unfoldable pub default_logics : List (ℕ × Logic)
default_logics =
    (Opcode.clear, clears)
    ∷ (Opcode.rmo, moves)
    ∷ (Opcode.add, arithmetic_memory ArithmeticOperation.add)
    ∷ (Opcode.sub, arithmetic_memory ArithmeticOperation.subtract)
    ∷ (Opcode.mul, arithmetic_memory ArithmeticOperation.multiply)
    ∷ (Opcode.div, arithmetic_memory ArithmeticOperation.divide)
    ∷ (Opcode.and, arithmetic_memory ArithmeticOperation.and)
    ∷ (Opcode.or, arithmetic_memory ArithmeticOperation.or)
    ∷ (Opcode.addr, arithmetic_registers ArithmeticOperation.add)
    ∷ (Opcode.subr, arithmetic_registers ArithmeticOperation.subtract)
    ∷ (Opcode.mulr, arithmetic_registers ArithmeticOperation.multiply)
    ∷ (Opcode.divr, arithmetic_registers ArithmeticOperation.divide)
    ∷ (Opcode.shiftl, shifts false)
    ∷ (Opcode.shiftr, shifts true)
    ∷ (Opcode.comp, compares_memory)
    ∷ (Opcode.compr, compares_registers)
    ∷ (Opcode.tix, increments_memory)
    ∷ (Opcode.tixr, increments_register)
    ∷ (Opcode.j, jumps false)
    ∷ (Opcode.jeq, jumps_if Condition.equal)
    ∷ (Opcode.jgt, jumps_if Condition.greater)
    ∷ (Opcode.jlt, jumps_if Condition.less)
    ∷ (Opcode.jsub, jumps true)
    ∷ (Opcode.rsub, returns)
    ∷ (Opcode.ldch, loads_byte)
    ∷ (Opcode.stch, stores_byte)
    ∷ (Opcode.stsw, stores_flags)
    ∷ (Opcode.lda, loads_word reg_a)
    ∷ (Opcode.ldb, loads_word reg_b)
    ∷ (Opcode.ldl, loads_word reg_l)
    ∷ (Opcode.lds, loads_word reg_s)
    ∷ (Opcode.ldt, loads_word reg_t)
    ∷ (Opcode.ldx, loads_word reg_x)
    ∷ (Opcode.sta, stores_word reg_a)
    ∷ (Opcode.stb, stores_word reg_b)
    ∷ (Opcode.stl, stores_word reg_l)
    ∷ (Opcode.sts, stores_word reg_s)
    ∷ (Opcode.stt, stores_word reg_t)
    ∷ (Opcode.stx, stores_word reg_x)
    ∷ (Opcode.td, tests_device)
    ∷ (Opcode.rd, reads_device)
    ∷ (Opcode.wd, writes_device)
    ∷ (Opcode.fix, float_to_integer)
    ∷ (Opcode.float, integer_to_float)
    ∷ (Opcode.addf, calculates_float FloatOperation.add)
    ∷ (Opcode.subf, calculates_float FloatOperation.subtract)
    ∷ (Opcode.mulf, calculates_float FloatOperation.multiply)
    ∷ (Opcode.divf, calculates_float FloatOperation.divide)
    ∷ (Opcode.compf, compares_float)
    ∷ (Opcode.ldf, loads_float)
    ∷ (Opcode.stf, stores_float)
    ∷ (Opcode.xor, arithmetic_memory ArithmeticOperation.xor)
    ∷ (Opcode.andr, arithmetic_registers ArithmeticOperation.and)
    ∷ (Opcode.orr, arithmetic_registers ArithmeticOperation.or)
    ∷ (Opcode.xorr, arithmetic_registers ArithmeticOperation.xor)
    ∷ (Opcode.not, negates)
    ∷ (Opcode.eint, enables)
    ∷ (Opcode.dint, disables)
    ∷ (Opcode.rint, returns_from_interrupt)
    ∷ (Opcode.stil, stores_link)
    ∷ []

unfoldable pub default_logic_db : LogicDb
default_logic_db = Option.get_or (register_logics default_logics empty_logic_db) empty_logic_db

-- Every assertion of `CreateDefaultInstance` holds: no opcode is registered twice.
default_logics_register : register_logics default_logics empty_logic_db ≡ some default_logic_db
unfolding default_logic_db default_logics register_logics empty_logic_db
default_logics_register = refl
