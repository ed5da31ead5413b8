-- ===== src/Linker/Relocations.antt =====
-- linker/linker.cc: `Linker::BuildRelocationTable`.
pub mod Bounds
use sicxe.Base.{
  ℕ, ◌+◌, ◌%◌, ◌^◌, Bool, true, false, not, ◌||◌, ◌==◌, ltb, leb, Option, none, some, List, [], ◌∷◌,
  ◌++◌, if◌then◌else◌,
}
use sicxe.Base.Int.{ℤ, ◌+ℤ◌}
use sicxe.Base.Text.{Bytes}
use sicxe.Machine.Word.{int32, uint32}
use sicxe.Object.{ObjectFile, RelocationSection}
use sicxe.Linker.Errors.{LinkError, invalid_relocation}
use sicxe.Linker.RelocationTable.{EntryMap, add_relocation_simple, add_relocation_symbol}
use sicxe.Linker.Symbols.{file_end_address}

-- The branch on `section->type`.
abbrev pub add_relocation : ℕ → ℕ → Option (Bool × Bytes) → EntryMap → Option EntryMap
add_relocation address nibbles none table = add_relocation_simple address nibbles table
add_relocation address nibbles (some (sign, name)) table =
    add_relocation_symbol address nibbles sign name table

-- The body of the inner loop; `none` is an invalid relocation.
unfoldable pub add_section : ObjectFile → ℤ → RelocationSection → EntryMap → Option EntryMap
unfolding add_relocation_simple add_relocation_symbol
add_section file adjustment section table =
    if ltb section.address file.start_address
      || leb (file_end_address file) section.address
      || section.nibbles == 0
      || ltb 10 section.nibbles
    then none
    else add_relocation (uint32 (int32 section.address +ℤ adjustment)) section.nibbles
        section.reference table

unfoldable pub add_sections : ObjectFile → ℤ → List RelocationSection → EntryMap → Option EntryMap
unfolding add_section
add_sections file adjustment [] table = some table
add_sections file adjustment (section ∷ rest) table =
    elim (add_section file adjustment section table) [
      | none ↦ none
      | some added ↦ add_sections file adjustment rest added
    ]

-- The loop over the files. The first invalid relocation ends it.
unfoldable pub build_relocation_table :
    List ObjectFile → List ℤ → EntryMap → List LinkError × Option EntryMap
unfolding add_sections
build_relocation_table [] adjustments table = ([], some table)
build_relocation_table (file ∷ files) [] table = ([], some table)
build_relocation_table (file ∷ files) (adjustment ∷ adjustments) table =
    elim (add_sections file adjustment file.relocation_sections table) [
      | none ↦ (invalid_relocation file.file_name ∷ [], none)
      | some added ↦ build_relocation_table files adjustments added
    ]
