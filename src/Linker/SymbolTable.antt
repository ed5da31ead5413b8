-- ===== src/Linker/SymbolTable.antt =====
-- linker/symbol_table.{h,cc}: the symbols by name. Of the files to which an entry points only the
-- names are used.
use sicxe.Base.{ℕ, none, some, List, []}
use sicxe.Base.Text.{Bytes}
use sicxe.Base.Keys.{bytes_key}
use sicxe.Base.Maps.{Map, find, insert}

pub data SymbolTypeId : Type 0 where
  undefined defined : SymbolTypeId

pub record SymbolEntry : Type 0 where
  pub type_id : SymbolTypeId
  pub address : ℕ
  pub file_defined : Bytes
  pub files_referenced : List Bytes

abbrev pub SymbolTable : Type 0
SymbolTable = Map Bytes SymbolEntry

-- `Entry::Entry`; no file stands for the null pointer.
abbrev pub new_entry : SymbolEntry
new_entry = record { type_id = undefined; address = 0; file_defined = []; files_referenced = [] }

-- `FindOrCreateNew`: the entry, and the table with it.
unfoldable pub find_or_create_new : Bytes → SymbolTable → SymbolEntry × SymbolTable
unfolding find insert
find_or_create_new name table = elim (find name table) [
  | some entry ↦ (entry, table)
  | none ↦ (new_entry, insert name new_entry table)
]
