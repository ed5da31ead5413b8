-- ===== src/Examples/Links.antt =====
-- Linking two object files, and saving and loading one.
use sicxe.Base.{◌≡◌, refl, true, false, some, List, [], ◌∷◌, All, arith}
use sicxe.Base.Int.{pos, ◌-ℤ◌}
use sicxe.Base.Run.{value, Asserts}
use sicxe.Base.Text.{Bytes}
use sicxe.Base.Keys.{bytes_key}
use sicxe.Object.{ObjectFile, cleared}
use sicxe.Object.Text.{is_symbol_character, trimmed}
use sicxe.Object.Load.{ok, load_file}
use sicxe.Object.Load.Loop.{Leaves, load_file-Asserts}
use sicxe.Object.Save.{save_file}
use sicxe.Object.RoundTrip.Whole.{load_file-save_file}
use sicxe.Linker.SymbolTable.{SymbolTable, undefined, defined}
use sicxe.Linker.Placement.{Placement, order_input_files}
use sicxe.Linker.Placement.Layout.{IsLaidOut, StartsAllowed, order_input_files-IsLaidOut}
use sicxe.Linker.Output.{write_output_symbols}
use sicxe.Linker.Output.Chunks.{Spread, write_output_symbols-Spread}
use sicxe.Linker.Symbols.{build_symbol_table}
use sicxe.Linker.Symbols.Defined.{TableOrErrors, build_symbol_table-TableOrErrors}
use sicxe.Linker.Relocations.{build_relocation_table}
use sicxe.Linker.Relocations.Bounds.{EntriesOrErrors, build_relocation_table-EntriesOrErrors}
use sicxe.Linker.Link.{link_files}
use sicxe.Linker.Link.Success.{Reports, link_files-Asserts}
use sicxe.Examples.Linking.{object, three_bytes}

-- A file that exports B and refers to A.
abbrev second : ObjectFile
second = record {
  file_name = 98 ∷ [];
  program_name = 66 ∷ [];
  start_address = 0;
  code_size = 3;
  entry_point = 0;
  text_sections = record three_bytes { address = 0 } ∷ [];
  export_sections = ((66 ∷ [], 0) ∷ []) ∷ [];
  import_sections = ((65 ∷ []) ∷ []) ∷ [];
  relocation_sections = record { address = 1; nibbles = 3; reference = some (true, 65 ∷ []) } ∷ [];
}

-- The first file, which exports A.
abbrev first : ObjectFile
first = record object { export_sections = ((65 ∷ [], 0x101) ∷ []) ∷ [] }

link_files-Asserts_example :
    Asserts Reports (link_files false false 0x200 first (second ∷ []) cleared)
link_files-Asserts_example = link_files-Asserts false false 0x200 first (second ∷ []) cleared

-- The file of the second one, which is loaded where the first one was.
load_file-save_file_example :
    (lines : List Bytes) × (save_file second ≡ value lines)
    × (load_file (99 ∷ []) (some lines) first ≡ value (ok, record second { file_name = 99 ∷ [] }))
unfolding trimmed is_symbol_character
load_file-save_file_example = load_file-save_file (99 ∷ []) second first (
  (refl, refl, refl, omega arith),
  omega arith,
  omega arith,
  omega arith,
  ((omega arith, omega arith, (omega arith, (omega arith, (omega arith, tt)))), tt),
  ((((refl, refl, refl, omega arith), omega arith), tt), tt),
  (((refl, refl, refl, omega arith), tt), tt),
  ((omega arith, omega arith, (refl, refl, refl, omega arith)), tt),
)

-- A file that ends before its end section.
load_file-Asserts_example :
    Asserts (Leaves first) (load_file (99 ∷ []) (some ((72 ∷ 65 ∷ 10 ∷ []) ∷ [])) first)
load_file-Asserts_example = load_file-Asserts (99 ∷ []) (some ((72 ∷ 65 ∷ 10 ∷ []) ∷ [])) first

abbrev both : List ObjectFile
both = first ∷ second ∷ []

abbrev placement : Placement
placement = record {
  starts = 0x200 ∷ 0x205 ∷ [];
  adjustments = pos 0x100 ∷ pos 0x205 ∷ [];
  end_address = 0x208;
}

places : (order_input_files false 0x200 both).1 ≡ some placement
unfolding order_input_files ◌-ℤ◌
places = refl

order_input_files-IsLaidOut_example :
    IsLaidOut 0x200 both placement.starts placement.adjustments placement.end_address
    × All (StartsAllowed false) both
    × ((order_input_files false 0x200 both).0 ≡ [])
order_input_files-IsLaidOut_example =
    order_input_files-IsLaidOut false 0x200 both placement (omega arith)
      ((omega arith, omega arith), ((omega arith, omega arith), tt)) places

build_symbol_table-TableOrErrors_example :
    TableOrErrors false (build_symbol_table false both placement.adjustments)
build_symbol_table-TableOrErrors_example =
    build_symbol_table-TableOrErrors false both placement.adjustments

build_relocation_table-EntriesOrErrors_example :
    EntriesOrErrors (build_relocation_table both placement.adjustments [])
build_relocation_table-EntriesOrErrors_example =
    build_relocation_table-EntriesOrErrors both placement.adjustments [] (tt, tt)

-- A defined and an undefined symbol.
abbrev symbols : SymbolTable
symbols =
    (
      65 ∷ [],
      record { type_id = defined; address = 0x201; file_defined = 97 ∷ []; files_referenced = [] },
    )
    ∷ (
      66 ∷ [],
      record {
        type_id = undefined;
        address = 0;
        file_defined = [];
        files_referenced = (97 ∷ []) ∷ [];
      },
    )
    ∷ []

write_output_symbols-Spread_example :
    Spread 12 [] ((66 ∷ []) ∷ []) (write_output_symbols symbols [] []).0
    × Spread 6 [] ((65 ∷ [], 0x201) ∷ []) (write_output_symbols symbols [] []).1
write_output_symbols-Spread_example = write_output_symbols-Spread symbols [] []
