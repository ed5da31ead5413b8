-- ===== src/Linker/Symbols.antt =====
-- linker/linker.cc: `Linker::BuildSymbolTable`.
pub mod Defined
use sicxe.Base.{
  ℕ, ◌+◌, ◌%◌, ◌^◌, Bool, true, false, not, ◌||◌, ltb, leb, Option, none, some, List, [], ◌∷◌, ◌++◌,
  if◌then◌else◌,
}
use sicxe.Base.Int.{ℤ, ◌+ℤ◌}
use sicxe.Base.Text.{Bytes}
use sicxe.Base.Keys.{bytes_key}
use sicxe.Base.Maps.{insert}
use sicxe.Machine.Word.{int32, uint32}
use sicxe.Object.{ObjectFile}
use sicxe.Linker.Errors.{LinkError, duplicate_symbol, invalid_symbol_address, undefined_symbol}
use sicxe.Linker.SymbolTable.{
  SymbolTypeId, undefined, defined, SymbolEntry, SymbolTable, find_or_create_new,
}

-- `file_end_address`.
abbrev pub file_end_address : ObjectFile → ℕ
file_end_address file = (file.start_address + file.code_size) % 2 ^ 32

-- The body of the loop over imported symbols.
unfoldable pub reference_symbol : Bytes → Bytes → SymbolTable → SymbolTable
unfolding find_or_create_new insert
reference_symbol file_name name table =
    let (entry, created) = find_or_create_new name table in
    insert name (record entry { files_referenced = entry.files_referenced ++ file_name ∷ [] })
      created

unfoldable pub reference_symbols : Bytes → List Bytes → SymbolTable → SymbolTable
unfolding reference_symbol
reference_symbols file_name [] table = table
reference_symbols file_name (name ∷ rest) table =
    reference_symbols file_name rest (reference_symbol file_name name table)

unfoldable pub reference_sections : Bytes → List (List Bytes) → SymbolTable → SymbolTable
unfolding reference_symbols
reference_sections file_name [] table = table
reference_sections file_name (section ∷ rest) table =
    reference_sections file_name rest (reference_symbols file_name section table)

-- The table, `success`, and the errors so far.
pub record SymbolPass : Type 0 where
  pub table : SymbolTable
  pub success : Bool
  pub errors : List LinkError

abbrev pub is_defined : SymbolTypeId → Bool
is_defined undefined = false
is_defined defined = true

abbrev pub refuse : LinkError → SymbolTable → SymbolPass → SymbolPass
refuse error table pass = record {
  table = table;
  success = false;
  errors = pass.errors ++ error ∷ [];
}

-- The body of the loop over exported symbols.
unfoldable pub define_symbol : ObjectFile → ℤ → Bytes → ℕ → SymbolPass → SymbolPass
unfolding find_or_create_new insert
define_symbol file adjustment name address pass =
    let (entry, created) = find_or_create_new name pass.table in
    if is_defined entry.type_id
    then refuse (duplicate_symbol name file.file_name entry.file_defined) created pass
    else (if ltb address file.start_address || leb (file_end_address file) address
        then refuse (invalid_symbol_address name file.file_name) created pass
        else record pass {
          table =
              insert name
                (record entry {
                  type_id = defined;
                  file_defined = file.file_name;
                  address = uint32 (int32 address +ℤ adjustment);
                })
                created;
        })

unfoldable pub define_symbols : ObjectFile → ℤ → List (Bytes × ℕ) → SymbolPass → SymbolPass
unfolding define_symbol
define_symbols file adjustment [] pass = pass
define_symbols file adjustment ((name, address) ∷ rest) pass =
    define_symbols file adjustment rest (define_symbol file adjustment name address pass)

unfoldable pub define_sections : ObjectFile → ℤ → List (List (Bytes × ℕ)) → SymbolPass → SymbolPass
unfolding define_symbols
define_sections file adjustment [] pass = pass
define_sections file adjustment (section ∷ rest) pass =
    define_sections file adjustment rest (define_symbols file adjustment section pass)

-- The loop over the files, each with its adjustment.
unfoldable pub collect_symbols : List ObjectFile → List ℤ → SymbolPass → SymbolPass
unfolding reference_sections define_sections
collect_symbols [] adjustments pass = pass
collect_symbols (file ∷ files) [] pass = pass
collect_symbols (file ∷ files) (adjustment ∷ adjustments) pass =
    let referenced = reference_sections file.file_name file.import_sections pass.table in
    collect_symbols files adjustments
      (define_sections file adjustment file.export_sections (record pass { table = referenced }))

-- An error for every symbol that is still undefined.
unfoldable pub undefined_errors : SymbolTable → List LinkError
undefined_errors [] = []
undefined_errors ((name, entry) ∷ rest) =
    let later = undefined_errors rest in
    if is_defined entry.type_id then later else undefined_symbol name entry.files_referenced ∷ later

abbrev pub without_errors : SymbolTable → List LinkError → List LinkError × Option SymbolTable
without_errors table [] = ([], some table)
without_errors table (error ∷ rest) = (error ∷ rest, none)

-- `BuildSymbolTable`: the errors, and the table unless it returns false.
unfoldable pub build_symbol_table :
    Bool → List ObjectFile → List ℤ → List LinkError × Option SymbolTable
unfolding collect_symbols undefined_errors
build_symbol_table partial_link files adjustments =
    let pass =
      collect_symbols files adjustments (record { table = []; success = true; errors = [] }) in
    if not pass.success
    then (pass.errors, none)
    else (if not partial_link
        then without_errors pass.table (undefined_errors pass.table)
        else (pass.errors, some pass.table))
