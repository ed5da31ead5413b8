-- ===== src/Isa/Db/Decoding.antt =====
-- Decoding by a table that `Register` has built.
use sicxe.Base.{
  ℕ, ◌/◌, ◌*◌, ◌≡◌, ◌≢◌, true, false, Option, none, some, subst, [], ◌∷◌, arith, refl, update,
}
use sicxe.Isa.{is_fs34, format_of, Instruction, InstructionInstance}
use sicxe.Isa.Codec.{InsnBytes, decode, encode, find_instruction}
use sicxe.Isa.Codec.RoundTrip.{IsListed, Fits, decode-encode, shadows}
use sicxe.Isa.Codec.Reencode.{IsBytes, encode-decode}
use sicxe.Isa.Db.{
  InstructionDb, clear, find_opcode, has_fs34, register, register_all, is_opcode_available, lookup,
  is_none,
}
use sicxe.Isa.Db.Invariant.{IsConsistent}

shadows-has_fs34 : (entry : Option Instruction) → shadows entry ≡ has_fs34 entry
unfolding has_fs34
shadows-has_fs34 none = refl
shadows-has_fs34 (some entry) = refl

listed :
    (db : InstructionDb) (opcode : ℕ) (entry : Instruction)
    → IsConsistent db
    → db.instructions opcode ≡ some entry
    → opcode ≢ 2
    → IsListed (find_opcode db) opcode entry.format
listed db opcode entry v h not_2 = record {
  entry = entry;
  found = h;
  same_format = refl;
  unshadowed = λ p. ground (
    arith,
    v.unshadowed opcode entry h p not_2,
    shadows-has_fs34 (db.instructions (opcode / 4 * 4)),
  );
}

-- In a consistent table every instruction but one at opcode 2 can be encoded if its operands fit,
-- and decoding the bytes gives it back with its length.
pub decode-encode_listed :
    (db : InstructionDb) (insn : InstructionInstance) (entry : Instruction) (raw : InsnBytes)
    → IsConsistent db
    → db.instructions insn.opcode ≡ some entry
    → entry.format ≡ format_of insn.operands
    → insn.opcode ≢ 2
    → Fits insn.opcode insn.operands
    → (length : ℕ) × ((encode insn raw).1 ≡ some length)
      × (decode (find_opcode db) (encode insn raw).0 ≡ some (insn, length))
decode-encode_listed db insn entry raw v h same not_2 fits =
    decode-encode (find_opcode db) insn raw
      (subst (λ f. IsListed (find_opcode db) insn.opcode f) same
        (listed db insn.opcode entry v h not_2))
      fits

-- In a consistent table, encoding what was decoded from four bytes writes the same bytes.
pub encode-decode_listed :
    (db : InstructionDb) (raw : InsnBytes) (insn : InstructionInstance) (length : ℕ)
    → IsConsistent db
    → IsBytes raw
    → decode (find_opcode db) raw ≡ some (insn, length)
    → encode insn raw ≡ (raw, some length)
encode-decode_listed db raw insn length v bytes d =
    encode-decode (find_opcode db) raw insn length v.aligned bytes d

-- `Register` compares the opcode with `Format::FS34` where it means the format: after an 8-bit
-- instruction at opcode 2 it still accepts a 6-bit one at opcode 0 under another mnemonic, and then
-- the first byte 2 always stands for the second.
pub opcode_2_shadowed :
    (first second : Instruction)
    → first.opcode ≡ 2
    → is_fs34 first.format ≡ false
    → second.opcode ≡ 0
    → is_fs34 second.format ≡ true
    → lookup second.mnemonic ((first.mnemonic, first) ∷ []) ≡ none
    → (db : InstructionDb) × (register_all (first ∷ second ∷ []) clear ≡ some db)
      × (db.instructions 2 ≡ some first)
      × (find_instruction (find_opcode db) 2 ≡ some (0, second))
unfolding register_all register is_opcode_available has_fs34 is_none lookup clear find_instruction
opcode_2_shadowed first second two eight zero_op six other = (
  record {
    unavailable_mask = update (λ _. false) 0 true;
    instructions = update (update (λ _. none) 2 (some first)) 0 (some second);
    mnemonic_map = (second.mnemonic, second) ∷ (first.mnemonic, first) ∷ [];
  },
  ground arith,
  refl,
  ground arith,
)
