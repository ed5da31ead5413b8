-- ===== src/Linker/Copy.antt =====
-- linker/linker.cc: `Linker::SolveSymbolRelocation` and `Linker::CopyAndPatchCode`. The sum of the
-- symbols of an entry is undefined where an int32 does not hold it; the count of them, and the sum of
-- an address and an adjustment, which have 24 bits, are integers.
pub mod Checked
pub mod Sections
use sicxe.Base.{
  ℕ, ◌+◌, ◌-◌, ◌%◌, ◌^◌, Bool, true, false, not, ◌&&◌, ◌||◌, ◌==◌, ltb, Option, none, some, List,
  [], ◌∷◌, ◌++◌, length, map, if◌then◌else◌,
}
use sicxe.Base.Int.{ℤ, pos, negsuc, ◌+ℤ◌, ◌-ℤ◌}
use sicxe.Base.Text.{Bytes}
use sicxe.Base.Keys.{bytes_key}
use sicxe.Base.Maps.{find}
use sicxe.Base.Run.{Run, value, undefined, assertion_failed, ◌>>=◌}
use sicxe.Machine.Word.{fit_int32, int32, uint32}
use sicxe.Object.{ObjectFile, TextSection, RelocationSection}
use sicxe.Linker.Errors.{LinkError, invalid_relocation, relocation_underflow, relocation_overflow}
use sicxe.Linker.RelocationTable.{TypeId, simple, symbol, Entry, EntryMap, is_symbol}
use sicxe.Linker.SymbolTable.{SymbolTable, SymbolEntry}
use sicxe.Linker.Symbols.{is_defined}
use sicxe.Linker.Patch.{PatchResult, patch_text_section}

-- `value`, `relative_count` and `all_known`.
pub record SymbolSum : Type 0 where
  pub total : ℤ
  pub relative_count : ℤ
  pub all_known : Bool

abbrev pub signed : Bool → ℤ → ℤ → ℤ
signed sign sum amount = if sign then sum +ℤ amount else sum -ℤ amount

abbrev pub with_total : SymbolSum → Option ℤ → Run SymbolSum
with_total sum none = undefined
with_total sum (some total) = value (record sum { total = total })

abbrev pub add_symbol : Bool → SymbolEntry → SymbolSum → Run SymbolSum
add_symbol sign entry sum =
    let counted = record sum { relative_count = signed sign sum.relative_count (pos 1) } in
    if not (is_defined entry.type_id)
    then value (record counted { all_known = false })
    else with_total counted (fit_int32 (signed sign sum.total (int32 entry.address)))

-- The loop over the symbols; `none` is a symbol that the table does not have.
unfoldable pub sum_symbols : SymbolTable → List (Bool × Bytes) → SymbolSum → Run (Option SymbolSum)
unfolding find fit_int32
sum_symbols table [] sum = value (some sum)
sum_symbols table ((sign, name) ∷ rest) sum = elim (find name table) [
  | none ↦ value none
  | some entry ↦ add_symbol sign entry sum >>= sum_symbols table rest
]

-- `result`, `relative` and `all_symbols_known`.
pub record Solved : Type 0 where
  pub adjustment : ℤ
  pub relative : Bool
  pub all_symbols_known : Bool

-- How many more symbols are added than subtracted: none, one, or an error.
unfoldable pub relative_of : ℤ → Option Bool
relative_of (pos n) = if n == 0 then some false else (if n == 1 then some true else none)
relative_of (negsuc n) = none

abbrev solved_as : SymbolSum → Option Bool → Option Solved
solved_as sum none = none
solved_as sum (some relative) =
    some (record { adjustment = sum.total; relative = relative; all_symbols_known = sum.all_known })

-- What follows the loop. In compatibility mode all symbols are known by an assertion, and `relative`
-- keeps the value that the caller gave it, which is false.
unfoldable pub classify : Bool → SymbolSum → Run (Option Solved)
unfolding relative_of
classify compatibility_mode sum =
    if not compatibility_mode
    then value (solved_as sum (relative_of sum.relative_count))
    else (if sum.all_known then value (solved_as sum (some false)) else assertion_failed)

abbrev pub classify_found : Bool → Option SymbolSum → Run (Option Solved)
classify_found compatibility_mode none = value none
classify_found compatibility_mode (some sum) = classify compatibility_mode sum

-- `SolveSymbolRelocation`; `none` is an invalid relocation.
unfoldable pub solve_symbol_relocation : Bool → SymbolTable → Entry → Run (Option Solved)
unfolding sum_symbols classify
solve_symbol_relocation compatibility_mode table entry =
    sum_symbols table entry.symbols
      (record { total = pos 0; relative_count = pos 0; all_known = true })
    >>= classify_found compatibility_mode

-- `success`, the patched section, the errors, and the relocation sections of the output.
pub record CopyState : Type 0 where
  pub success : Bool
  pub section : TextSection
  pub errors : List LinkError
  pub relocations : List RelocationSection

abbrev fail : LinkError → CopyState → CopyState
fail error s = record s { success = false; errors = s.errors ++ error ∷ [] }

-- What the result of `PatchTextSection` does, and whether the patch succeeded.
abbrev pub after_patch : Bytes → CopyState → PatchResult → Run (Bool × CopyState)
after_patch file_name s (PatchResult.patched bytes) =
    value (true, record s { section = record (s.section) { data_bytes = bytes } })
after_patch file_name s PatchResult.invalid_relocation =
    value (false, fail (invalid_relocation file_name) s)
after_patch file_name s PatchResult.relocation_underflow =
    value (false, fail (relocation_underflow file_name) s)
after_patch file_name s PatchResult.relocation_overflow =
    value (false, fail (relocation_overflow file_name) s)
after_patch file_name s PatchResult.undefined = undefined
after_patch file_name s PatchResult.assertion_failed = assertion_failed

-- `WriteRelocationSimple`, and `WriteRelocationSymbol` for every symbol.
unfoldable pub simple_record : ℕ → ℕ → List RelocationSection
simple_record address nibbles =
    record { address = address; nibbles = nibbles; reference = none } ∷ []

unfoldable pub symbol_records : ℕ → ℕ → List (Bool × Bytes) → List RelocationSection
symbol_records address nibbles [] = []
symbol_records address nibbles (reference ∷ rest) =
    record { address = address; nibbles = nibbles; reference = some reference }
    ∷ symbol_records address nibbles rest

-- The records that stay in the output.
unfoldable pub output_records : Bool → ℕ → Entry → Solved → List RelocationSection
unfolding simple_record symbol_records
output_records compatibility_mode address entry solved =
    if compatibility_mode
    then []
    else (if not (is_symbol entry.type_id)
        then simple_record address entry.nibbles
        else (if not solved.all_symbols_known
            then symbol_records address entry.nibbles entry.symbols
            else (if solved.relative then simple_record address entry.nibbles else [])))

abbrev write_records : List RelocationSection → Bool × CopyState → Run CopyState
write_records records (success, s) =
    value (if success then record s { relocations = s.relocations ++ records } else s)

-- From the adjustment of an entry on: the patch, if the adjustment is known, and the records.
unfoldable pub patch_entry : Bool → Bytes → ℕ → Entry → Solved → CopyState → Run CopyState
unfolding patch_text_section output_records
patch_entry compatibility_mode file_name address entry solved s =
    let records = output_records compatibility_mode address entry solved in
    let patch =
      after_patch file_name s (patch_text_section address entry.nibbles solved.adjustment s.section)
      >>= write_records records in
    if compatibility_mode || not (is_symbol entry.type_id) || solved.all_symbols_known
    then patch
    else write_records records (true, s)

-- The adjustment of an entry: that of the file, or the sum of its symbols.
unfoldable pub solve_entry : Bool → ℤ → SymbolTable → Entry → Run (Option Solved)
unfolding solve_symbol_relocation
solve_entry compatibility_mode adjustment table entry =
    if is_symbol entry.type_id
    then solve_symbol_relocation compatibility_mode table entry
    else value
        (some (record { adjustment = adjustment; relative = false; all_symbols_known = false }))

module _ (compatibility_mode : Bool) (table : SymbolTable) (file_name : Bytes)
    (adjustment : ℤ) where
  -- The loop over the entries of one section. An entry that cannot be solved ends it.
  unfoldable pub patch_entries : EntryMap → CopyState → Run CopyState
  unfolding solve_entry patch_entry
  patch_entries [] s = value s
  patch_entries ((address, entry) ∷ rest) s =
      solve_entry compatibility_mode adjustment table entry >>= λ solution. elim solution [
        | none ↦ value (fail (invalid_relocation file_name) s)
        | some solved ↦
            patch_entry compatibility_mode file_name address entry solved s >>= patch_entries rest
      ]

-- `lower_bound` and on, as long as the address is below the end.
unfoldable pub from_address : ℕ → EntryMap → EntryMap
from_address start [] = []
from_address start ((address, entry) ∷ rest) =
    let later = from_address start rest in
    if ltb address start then later else (address, entry) ∷ rest

unfoldable pub until_address : ℕ → EntryMap → EntryMap
until_address end [] = []
until_address end ((address, entry) ∷ rest) =
    let later = until_address end rest in if ltb address end then (address, entry) ∷ later else []

-- `success`, the errors, and the text and relocation sections of the output.
pub record CopiedCode : Type 0 where
  pub success : Bool
  pub errors : List LinkError
  pub text_sections : List TextSection
  pub relocations : List RelocationSection

abbrev copied : CopiedCode → CopyState → CopiedCode
copied code s = record {
  success = s.success;
  errors = s.errors;
  text_sections = code.text_sections ++ s.section ∷ [];
  relocations = s.relocations;
}

module _ (compatibility_mode : Bool) (table : SymbolTable) (relocation_table : EntryMap) where
  -- The body of the loop over the text sections of a file.
  unfoldable pub copy_section : Bytes → ℤ → TextSection → CopiedCode → Run CopiedCode
  unfolding patch_entries from_address until_address
  copy_section file_name adjustment section code =
      let address = uint32 (int32 section.address +ℤ adjustment) in
      let end = (address + length section.data_bytes) % 2 ^ 32 in
      patch_entries compatibility_mode table file_name adjustment
        (until_address end (from_address address relocation_table))
        (record {
          success = code.success;
          section = record section { address = address };
          errors = code.errors;
          relocations = code.relocations;
        })
      >>= λ s. value (copied code s)

  unfoldable pub copy_sections : Bytes → ℤ → List TextSection → CopiedCode → Run CopiedCode
  unfolding copy_section
  copy_sections file_name adjustment [] code = value code
  copy_sections file_name adjustment (section ∷ rest) code =
      copy_section file_name adjustment section code >>= copy_sections file_name adjustment rest

  -- `CopyAndPatchCode`.
  unfoldable pub copy_and_patch_code : List ObjectFile → List ℤ → CopiedCode → Run CopiedCode
  unfolding copy_sections
  copy_and_patch_code [] adjustments code = value code
  copy_and_patch_code (file ∷ files) [] code = value code
  copy_and_patch_code (file ∷ files) (adjustment ∷ adjustments) code =
      copy_sections file.file_name adjustment file.text_sections code
      >>= copy_and_patch_code files adjustments
