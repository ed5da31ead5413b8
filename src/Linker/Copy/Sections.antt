-- ===== src/Linker/Copy/Sections.antt =====
-- `CopyAndPatchCode` over the text sections of all files.
use sicxe.Base.{
  ℕ, ◌+◌, ◌%◌, ◌^◌, ◌≤◌, ◌≡◌, refl, Bool, ltb, List, [], ◌∷◌, All, length, is_empty, inl, inr,
  Bool-cases, arith,
}
use sicxe.Base.Int.{ℤ, ◌+ℤ◌}
use sicxe.Base.Text.{Bytes}
use sicxe.Base.Keys.{number_key}
use sicxe.Base.Maps.{IsSorted, Above, Values}
use sicxe.Base.Run.{value, Asserts, Asserts-bind}
use sicxe.Machine.Word.{int32, uint32}
use sicxe.Object.{ObjectFile, TextSection}
use sicxe.Linker.RelocationTable.{Entry, EntryMap}
use sicxe.Linker.SymbolTable.{SymbolTable}
use sicxe.Linker.Relocations.Bounds.{HasWidth, IsTable}
use sicxe.Linker.Copy.{
  CopyState, patch_entries, from_address, until_address, CopiedCode, copied, copy_section,
  copy_sections, copy_and_patch_code,
}
use sicxe.Linker.Copy.Checked.{KnowsSymbols, Going, After, patch_entries-Asserts}

Above-After : (start low : ℕ) (table : EntryMap) → start ≤ low → Above low table → After start table
Above-After start low [] h v = tt
Above-After start low (entry ∷ rest) h v = (ground arith, Above-After start low rest h v.1)

from_address-After :
    (start : ℕ) (table : EntryMap) → IsSorted table → After start (from_address start table)
unfolding from_address
from_address-After start [] v = tt
from_address-After start ((address, entry) ∷ rest) v = elim (Bool-cases (ltb address start)) [
  | inl e ↦ rw e (from_address-After start rest v.1)
  | inr e ↦ rw e (ground arith, Above-After start address rest (ground arith) v.0)
]

from_address-Values :
    (P : Entry → Type 0) (start : ℕ) (table : EntryMap)
    → Values P table
    → Values P (from_address start table)
unfolding from_address
from_address-Values P start [] v = tt
from_address-Values P start ((address, entry) ∷ rest) v = elim (Bool-cases (ltb address start)) [
  | inl e ↦ rw e (from_address-Values P start rest v.1)
  | inr e ↦ rw e v
]

until_address-All :
    (P : ℕ × Entry → Type 0) (end : ℕ) (table : EntryMap)
    → All P table
    → All P (until_address end table)
unfolding until_address
until_address-All P end [] v = tt
until_address-All P end ((address, entry) ∷ rest) v = elim (Bool-cases (ltb address end)) [
  | inl e ↦ rw e (v.0, until_address-All P end rest v.1)
  | inr e ↦ rw e tt
]

-- There are errors exactly where there was no success.
abbrev pub HasOutcome : CopiedCode → Type 0
HasOutcome code = is_empty code.errors ≡ code.success

module _ (compatibility_mode : Bool) (table : SymbolTable) (relocation_table : EntryMap)
    (known : KnowsSymbols compatibility_mode table) (v : IsTable relocation_table) where
  copy_section-Asserts :
      (file_name : Bytes) (adjustment : ℤ) (section : TextSection) (code : CopiedCode)
      → HasOutcome code
      → Asserts HasOutcome
          (copy_section compatibility_mode table relocation_table file_name adjustment section code)
  unfolding copy_section
  copy_section-Asserts file_name adjustment section code h =
      let address = uint32 (int32 section.address +ℤ adjustment) in
      let end = (address + length section.data_bytes) % 2 ^ 32 in
      let later = from_address address relocation_table in
      let start : CopyState = record {
        success = code.success;
        section = record section { address = address };
        errors = code.errors;
        relocations = code.relocations;
      } in
      Asserts-bind (Going address) HasOutcome
        (patch_entries compatibility_mode table file_name adjustment (until_address end later)
          start)
        (λ s. value (copied code s))
        (patch_entries-Asserts compatibility_mode table known file_name adjustment address
          (until_address end later) start
          (until_address-All (λ e. HasWidth e.1) end later
            (from_address-Values HasWidth address relocation_table v.1))
          (until_address-All (λ e. address ≤ e.0) end later
            (from_address-After address relocation_table v.0))
          (h, refl))
        (λ s g. g.0)

  copy_sections-Asserts :
      (file_name : Bytes) (adjustment : ℤ) (sections : List TextSection) (code : CopiedCode)
      → HasOutcome code
      → Asserts HasOutcome (
          copy_sections compatibility_mode table relocation_table file_name adjustment sections
            code)
  unfolding copy_sections
  copy_sections-Asserts file_name adjustment [] code h = h
  copy_sections-Asserts file_name adjustment (section ∷ rest) code h =
      Asserts-bind HasOutcome HasOutcome
        (copy_section compatibility_mode table relocation_table file_name adjustment section code)
        (copy_sections compatibility_mode table relocation_table file_name adjustment rest)
        (copy_section-Asserts file_name adjustment section code h)
        (copy_sections-Asserts file_name adjustment rest)

  pub copy_and_patch_code-Asserts :
      (files : List ObjectFile) (adjustments : List ℤ) (code : CopiedCode)
      → HasOutcome code
      → Asserts HasOutcome
          (copy_and_patch_code compatibility_mode table relocation_table files adjustments code)
  unfolding copy_and_patch_code
  copy_and_patch_code-Asserts [] adjustments code h = h
  copy_and_patch_code-Asserts (file ∷ files) [] code h = h
  copy_and_patch_code-Asserts (file ∷ files) (adjustment ∷ adjustments) code h =
      Asserts-bind HasOutcome HasOutcome
        (copy_sections compatibility_mode table relocation_table file.file_name adjustment
          file.text_sections code)
        (copy_and_patch_code compatibility_mode table relocation_table files adjustments)
        (copy_sections-Asserts file.file_name adjustment file.text_sections code h)
        (copy_and_patch_code-Asserts files adjustments)
