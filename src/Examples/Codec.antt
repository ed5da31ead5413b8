-- ===== src/Examples/Codec.antt =====
-- Instructions in bytes, and the default table.
use sicxe.Isa.Codec.RoundTrip.{IsListed}
use sicxe.Base.{ℕ, ◌≡◌, refl, true, false, none, some, [], ◌∷◌, All, arith}
use sicxe.Isa.{f1, f2, fs34, Syntax, Instruction, InstructionInstance, OperandsFs34, of_f2, of_fs34}
use sicxe.Isa.Codec.{InsnBytes, decode, decode_operands, encode, find_instruction}
use sicxe.Isa.Codec.RoundTrip.{decode-encode}
use sicxe.Isa.Codec.Reencode.{encode-decode}
use sicxe.Base.Text.{codes}
use sicxe.Isa.Db.{InstructionDb, clear, find_opcode, register_all, lookup}
use sicxe.Isa.Db.Invariant.{
  IsConsistent, clear-IsConsistent, register_all-IsConsistent, register_all-found,
}
use sicxe.Isa.Db.Defaults.{default_instructions, default_db, default_table, default_db-eq-table}
use sicxe.Isa.Db.Decoding.{opcode_2_shadowed}

-- LDA #5, and the bytes of ADDR S, A.
abbrev load_five : OperandsFs34
load_five = record { n = false; i = true; x = false; b = false; p = false; e = false; address = 5 }

abbrev lda_five : InstructionInstance
lda_five = record { opcode = 0; operands = of_fs34 load_five }

abbrev blank : InsnBytes
blank = record { byte0 = 0; byte1 = 0; byte2 = 0; byte3 = 0 }

abbrev addr_bytes : InsnBytes
addr_bytes = record { byte0 = 0x90; byte1 = 0x40; byte2 = 7; byte3 = 9 }

abbrev addr_s_a : InstructionInstance
addr_s_a = record { opcode = 0x90; operands = of_f2 (record { r1 = 4; r2 = 0 }) }

abbrev lda : Instruction
lda = record { opcode = 0; mnemonic = codes "LDA"; format = fs34; syntax = Syntax.fs34_load_w }

abbrev addr : Instruction
addr = record { opcode = 0x90; mnemonic = codes "ADDR"; format = f2; syntax = Syntax.f2_reg_reg }

default_table_found : default_table.instructions 0 ≡ some lda
unfolding default_table
default_table_found = refl

default_table_addr : default_table.instructions 0x90 ≡ some addr
unfolding default_table
default_table_addr = refl

default_table_registered : register_all default_instructions clear ≡ some default_table
unfolding default_db
default_table_registered = default_db-eq-table

default_table-IsConsistent : IsConsistent default_table
default_table-IsConsistent =
    register_all-IsConsistent default_instructions clear default_table clear-IsConsistent
      default_table_registered

decode_addr : decode (find_opcode default_table) addr_bytes ≡ some (addr_s_a, 2)
unfolding decode default_table find_instruction decode_operands
decode_addr = refl

lda-IsListed : IsListed (find_opcode default_table) 0 fs34
lda-IsListed = record {
  entry = lda;
  found = default_table_found;
  same_format = refl;
  unshadowed = λ h. cc;
}

decode-encode_example :
    (length : ℕ) × ((encode lda_five blank).1 ≡ some length)
    × (decode (find_opcode default_table) (encode lda_five blank).0 ≡ some (lda_five, length))
decode-encode_example =
    decode-encode (find_opcode default_table) lda_five blank lda-IsListed (refl, omega arith)

encode-decode_example : encode addr_s_a addr_bytes ≡ (addr_bytes, some 2)
encode-decode_example =
    encode-decode (find_opcode default_table) addr_bytes addr_s_a 2
      default_table-IsConsistent.aligned (omega arith) decode_addr

register_all-IsConsistent_example : IsConsistent default_table
register_all-IsConsistent_example =
    register_all-IsConsistent default_instructions clear default_table clear-IsConsistent
      default_table_registered

register_all-found_example :
    All (λ entry. default_table.instructions entry.opcode ≡ some entry) default_instructions
register_all-found_example =
    register_all-found default_instructions clear default_table default_table_registered

abbrev at_two : Instruction
at_two = record { opcode = 2; mnemonic = codes "ONE"; format = f1; syntax = Syntax.f1_none }

other_name : lookup (codes "LDA") ((codes "ONE", at_two) ∷ []) ≡ none
unfolding lookup
other_name = refl

opcode_2_shadowed_example :
    (db : InstructionDb) × (register_all (at_two ∷ lda ∷ []) clear ≡ some db)
    × (db.instructions 2 ≡ some at_two)
    × (find_instruction (find_opcode db) 2 ≡ some (0, lda))
opcode_2_shadowed_example = opcode_2_shadowed at_two lda refl refl refl refl other_name
