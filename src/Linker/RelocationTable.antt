-- ===== src/Linker/RelocationTable.antt =====
-- linker/relocation_table.{h,cc}: the relocations by address.
pub mod Entries
use sicxe.Base.{
  ℕ, Bool, true, false, not, ◌||◌, ◌==◌, ltb, Option, none, some, List, [], ◌∷◌, ◌++◌,
  if◌then◌else◌,
}
use sicxe.Base.Text.{Bytes}
use sicxe.Base.Keys.{number_key}
use sicxe.Base.Maps.{Map, find, insert}

pub data TypeId : Type 0 where
  simple symbol : TypeId

pub record Entry : Type 0 where
  pub type_id : TypeId
  pub nibbles : ℕ
  pub symbols : List (Bool × Bytes)

abbrev pub EntryMap : Type 0
EntryMap = Map ℕ Entry

-- `FindRelocation`.
abbrev pub find_relocation : ℕ → EntryMap → Option Entry
find_relocation = find

-- `AddRelocationSimple`; `none` where it returns false, which leaves the map as it is.
unfoldable pub add_relocation_simple : ℕ → ℕ → EntryMap → Option EntryMap
unfolding find insert
add_relocation_simple address nibbles map = elim (find_relocation address map) [
  | some entry ↦ none
  | none ↦ some (insert address (record { type_id = simple; nibbles = nibbles; symbols = [] }) map)
]

abbrev pub is_symbol : TypeId → Bool
is_symbol simple = false
is_symbol symbol = true

-- `AddRelocationSymbol`.
unfoldable pub add_relocation_symbol : ℕ → ℕ → Bool → Bytes → EntryMap → Option EntryMap
unfolding find insert
add_relocation_symbol address nibbles sign symbol_name map = elim (find_relocation address map) [
  | none ↦ some (
      insert address
        (record { type_id = symbol; nibbles = nibbles; symbols = (sign, symbol_name) ∷ [] }) map)
  | some entry ↦
      if not (is_symbol entry.type_id) || not (entry.nibbles == nibbles)
      then none
      else some (
          insert address (record entry { symbols = entry.symbols ++ (sign, symbol_name) ∷ [] }) map)
]
