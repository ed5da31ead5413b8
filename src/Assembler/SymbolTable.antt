-- ===== src/Assembler/SymbolTable.antt =====
-- assembler/symbol_table.{h,cc}: the symbols by name. A block is the number of it, where there is one.
use sicxe.Base.{ℕ, Bool, false, Option, none, some}
use sicxe.Base.Text.{Bytes}
use sicxe.Base.Keys.{bytes_key}
use sicxe.Base.Maps.{Map, find, insert}

pub data TypeId : Type 0 where
  unknown internal external : TypeId

pub record Entry : Type 0 where
  pub type_id : TypeId
  pub referenced : Bool
  pub relative : Bool
  pub defined : Bool
  pub resolved : Bool
  pub exported : Bool
  pub address : ℕ
  pub block : Option ℕ
  pub block_address : ℕ

abbrev pub SymbolTable : Type 0
SymbolTable = Map Bytes Entry

-- `Entry::Entry`.
abbrev pub new_entry : Entry
new_entry = record {
  type_id = unknown;
  referenced = false;
  relative = false;
  defined = false;
  resolved = false;
  exported = false;
  address = 0;
  block = none;
  block_address = 0;
}

-- `FindOrCreateNew`: the entry, and the table with it.
unfoldable pub find_or_create_new : Bytes → SymbolTable → Entry × SymbolTable
unfolding find insert
find_or_create_new name table = elim (find name table) [
  | some entry ↦ (entry, table)
  | none ↦ (new_entry, insert name new_entry table)
]
