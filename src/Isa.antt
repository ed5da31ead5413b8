-- ===== src/Isa.antt =====
-- common/format.h, common/instruction.{h,cc} and common/instruction_instance.h: instruction formats,
-- the entries of the instruction table, and decoded instructions.
-- The union of operands is tagged by its format. NUM_FORMATS and NUM_SYNTAXES only count the others.
pub mod Codec
pub mod Opcode
pub mod Db
use sicxe.Base.Text.{Bytes}
use sicxe.Base.{ℕ, Bool}

pub data Format : Type 0 where
  f1 f2 fs34 : Format

abbrev pub is_fs34 : Format → Bool
is_fs34 f1 = Bool.false
is_fs34 f2 = Bool.false
is_fs34 fs34 = Bool.true

pub data Syntax : Type 0 where
  f1_none : Syntax
  f2_reg_reg f2_reg_n f2_reg : Syntax
  fs34_load_w fs34_load_b fs34_load_f fs34_store_w fs34_store_b fs34_store_f fs34_none : Syntax

pub record Instruction : Type 0 where
  pub opcode : ℕ
  pub mnemonic : Bytes
  pub format : Format
  pub syntax : Syntax

pub record OperandsF2 : Type 0 where
  pub r1 : ℕ
  pub r2 : ℕ

pub record OperandsFs34 : Type 0 where
  pub n : Bool
  pub i : Bool
  pub x : Bool
  pub b : Bool
  pub p : Bool
  pub e : Bool
  pub address : ℕ

pub data Operands : Type 0 where
  none_f1 : Operands
  of_f2 : OperandsF2 → Operands
  of_fs34 : OperandsFs34 → Operands

pub record InstructionInstance : Type 0 where
  pub opcode : ℕ
  pub operands : Operands

abbrev pub format_of : Operands → Format
format_of none_f1 = f1
format_of (of_f2 o) = f2
format_of (of_fs34 o) = fs34
