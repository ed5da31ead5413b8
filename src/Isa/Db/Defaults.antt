-- ===== src/Isa/Db/Defaults.antt =====
-- common/instruction_db_default.cc: the default instruction set.
use Prim.Native.String.{String}
use sicxe.Base.{ℕ, Bool, true, false, Option, none, some, ◌≡◌, refl, List, [], ◌∷◌}
use sicxe.Base.Text.{codes}
use sicxe.Isa.{Format, f1, f2, fs34, Syntax, Instruction}
use mathlib.Core.Option
use sicxe.Isa.Opcode
use sicxe.Isa.Db.{InstructionDb, clear, register_all}

insn : ℕ → String → Format → Syntax → Instruction
insn opcode mnemonic format syntax = record {
  opcode = opcode;
  mnemonic = codes mnemonic;
  format = format;
  syntax = syntax;
}

-- The entries in the order in which `CreateDefaultInstance` registers them.
unfoldable pub default_instructions : List Instruction
unfolding insn
default_instructions =
    insn Opcode.clear "CLEAR" f2 Syntax.f2_reg
    ∷ insn Opcode.rmo "RMO" f2 Syntax.f2_reg_reg
    ∷ insn Opcode.add "ADD" fs34 Syntax.fs34_load_w
    ∷ insn Opcode.sub "SUB" fs34 Syntax.fs34_load_w
    ∷ insn Opcode.mul "MUL" fs34 Syntax.fs34_load_w
    ∷ insn Opcode.div "DIV" fs34 Syntax.fs34_load_w
    ∷ insn Opcode.and "AND" fs34 Syntax.fs34_load_w
    ∷ insn Opcode.or "OR" fs34 Syntax.fs34_load_w
    ∷ insn Opcode.addr "ADDR" f2 Syntax.f2_reg_reg
    ∷ insn Opcode.subr "SUBR" f2 Syntax.f2_reg_reg
    ∷ insn Opcode.mulr "MULR" f2 Syntax.f2_reg_reg
    ∷ insn Opcode.divr "DIVR" f2 Syntax.f2_reg_reg
    ∷ insn Opcode.shiftl "SHIFTL" f2 Syntax.f2_reg_n
    ∷ insn Opcode.shiftr "SHIFTR" f2 Syntax.f2_reg_n
    ∷ insn Opcode.comp "COMP" fs34 Syntax.fs34_load_w
    ∷ insn Opcode.compr "COMPR" f2 Syntax.f2_reg_reg
    ∷ insn Opcode.tix "TIX" fs34 Syntax.fs34_load_w
    ∷ insn Opcode.tixr "TIXR" f2 Syntax.f2_reg
    ∷ insn Opcode.j "J" fs34 Syntax.fs34_load_w
    ∷ insn Opcode.jeq "JEQ" fs34 Syntax.fs34_load_w
    ∷ insn Opcode.jgt "JGT" fs34 Syntax.fs34_load_w
    ∷ insn Opcode.jlt "JLT" fs34 Syntax.fs34_load_w
    ∷ insn Opcode.jsub "JSUB" fs34 Syntax.fs34_load_w
    ∷ insn Opcode.rsub "RSUB" fs34 Syntax.fs34_none
    ∷ insn Opcode.ldch "LDCH" fs34 Syntax.fs34_load_b
    ∷ insn Opcode.stch "STCH" fs34 Syntax.fs34_store_b
    ∷ insn Opcode.stsw "STSW" fs34 Syntax.fs34_store_b
    ∷ insn Opcode.lda "LDA" fs34 Syntax.fs34_load_w
    ∷ insn Opcode.ldb "LDB" fs34 Syntax.fs34_load_w
    ∷ insn Opcode.ldl "LDL" fs34 Syntax.fs34_load_w
    ∷ insn Opcode.lds "LDS" fs34 Syntax.fs34_load_w
    ∷ insn Opcode.ldt "LDT" fs34 Syntax.fs34_load_w
    ∷ insn Opcode.ldx "LDX" fs34 Syntax.fs34_load_w
    ∷ insn Opcode.sta "STA" fs34 Syntax.fs34_store_w
    ∷ insn Opcode.stb "STB" fs34 Syntax.fs34_store_w
    ∷ insn Opcode.stl "STL" fs34 Syntax.fs34_store_w
    ∷ insn Opcode.sts "STS" fs34 Syntax.fs34_store_w
    ∷ insn Opcode.stt "STT" fs34 Syntax.fs34_store_w
    ∷ insn Opcode.stx "STX" fs34 Syntax.fs34_store_w
    ∷ insn Opcode.td "TD" fs34 Syntax.fs34_load_b
    ∷ insn Opcode.rd "RD" fs34 Syntax.fs34_load_b
    ∷ insn Opcode.wd "WD" fs34 Syntax.fs34_load_b
    ∷ insn Opcode.fix "FIX" f1 Syntax.f1_none
    ∷ insn Opcode.float "FLOAT" f1 Syntax.f1_none
    ∷ insn Opcode.addf "ADDF" fs34 Syntax.fs34_load_f
    ∷ insn Opcode.subf "SUBF" fs34 Syntax.fs34_load_f
    ∷ insn Opcode.mulf "MULF" fs34 Syntax.fs34_load_f
    ∷ insn Opcode.divf "DIVF" fs34 Syntax.fs34_load_f
    ∷ insn Opcode.compf "COMPF" fs34 Syntax.fs34_load_f
    ∷ insn Opcode.ldf "LDF" fs34 Syntax.fs34_load_f
    ∷ insn Opcode.stf "STF" fs34 Syntax.fs34_store_f
    ∷ insn Opcode.xor "XOR" fs34 Syntax.fs34_load_w
    ∷ insn Opcode.andr "ANDR" f2 Syntax.f2_reg_reg
    ∷ insn Opcode.orr "ORR" f2 Syntax.f2_reg_reg
    ∷ insn Opcode.xorr "XORR" f2 Syntax.f2_reg_reg
    ∷ insn Opcode.not "NOT" f2 Syntax.f2_reg
    ∷ insn Opcode.eint "EINT" f1 Syntax.f1_none
    ∷ insn Opcode.dint "DINT" f1 Syntax.f1_none
    ∷ insn Opcode.rint "RINT" f1 Syntax.f1_none
    ∷ insn Opcode.stil "STIL" fs34 Syntax.fs34_store_w
    ∷ []

-- The default table; the alternative is a failed assertion.
unfoldable pub default_db : Option InstructionDb
unfolding default_instructions register_all
default_db = register_all default_instructions clear

-- Every assertion of `CreateDefaultInstance` holds.
registers : Option InstructionDb → Bool
registers none = false
registers (some db) = true

default_db_registers : registers default_db ≡ true
unfolding registers default_db clear
default_db_registers = refl

unfoldable pub default_table : InstructionDb
unfolding default_db clear
default_table = Option.get_or default_db clear

pub default_db-eq-table : default_db ≡ some default_table
unfolding default_db default_table clear
default_db-eq-table = refl
