-- ===== src/Isa/Db.antt =====
-- common/instruction_db.{h,cc}: the table of instructions, by opcode and by mnemonic.
pub mod Defaults
pub mod Loading
pub mod Invariant
pub mod Decoding
use sicxe.Base.{
  ℕ, ◌/◌, ◌%◌, ◌*◌, Bool, true, false, not, ◌&&◌, Option, none, some, List, [], ◌∷◌, ◌==◌,
  if◌then◌else◌, update,
}
use sicxe.Base.Text.{Bytes, codes, same_bytes}
use sicxe.Isa.{Format, f1, f2, fs34, is_fs34, Instruction}

-- `unavailable_mask` is indexed by the upper six bits of an opcode. The entries of the map and of
-- the array are the same objects.
pub record InstructionDb : Type 0 where
  pub unavailable_mask : ℕ → Bool
  pub instructions : ℕ → Option Instruction
  pub mnemonic_map : List (Bytes × Instruction)

-- The constructor, and `InstructionDB::Clear`.
unfoldable pub clear : InstructionDb
clear = record { unavailable_mask = λ _. false; instructions = λ _. none; mnemonic_map = [] }

unfoldable pub lookup : Bytes → List (Bytes × Instruction) → Option Instruction
lookup key [] = none
lookup key ((name, entry) ∷ rest) = if same_bytes name key then some entry else lookup key rest

-- An entry of a 6-bit opcode.
pub has_fs34 : Option Instruction → Bool
has_fs34 none = false
has_fs34 (some entry) = is_fs34 entry.format

unfoldable pub is_none : Option Instruction → Bool
is_none none = true
is_none (some entry) = false

unfoldable pub is_opcode_available : InstructionDb → ℕ → Format → Bool
unfolding has_fs34 is_none
is_opcode_available db opcode format =
    if is_fs34 format
    then (if not (opcode % 4 == 0)
        then false
        else (if db.unavailable_mask (opcode / 4) then false else is_none (db.instructions opcode)))
    else (if has_fs34 (db.instructions (opcode / 4 * 4))
        then false
        else is_none (db.instructions opcode))

-- `none` is a failed assertion. The mask is set unless the opcode is `Format::FS34`, which is 2.
unfoldable pub register : Instruction → InstructionDb → Option InstructionDb
unfolding is_opcode_available lookup
register entry db =
    if not (is_opcode_available db entry.opcode entry.format)
    then none
    else (if not (is_none (lookup entry.mnemonic db.mnemonic_map))
        then none
        else some (record {
          unavailable_mask =
              if not (entry.opcode == 2)
              then update db.unavailable_mask (entry.opcode / 4) true
              else db.unavailable_mask;
          instructions = update db.instructions entry.opcode (some entry);
          mnemonic_map = (entry.mnemonic, entry) ∷ db.mnemonic_map;
        }))

pub register_all : List Instruction → InstructionDb → Option InstructionDb
unfolding register
register_all [] db = some db
register_all (entry ∷ rest) db = elim (register entry db) [
  | none ↦ none
  | some db' ↦ register_all rest db'
]

abbrev pub find_opcode : InstructionDb → ℕ → Option Instruction
find_opcode db opcode = db.instructions opcode

unfoldable pub find_mnemonic : InstructionDb → Bytes → Option Instruction
unfolding lookup
find_mnemonic db mnemonic = lookup mnemonic db.mnemonic_map
