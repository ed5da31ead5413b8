-- ===== src/Linker/Link.antt =====
-- linker/linker.cc: `Linker::LinkFiles`.
pub mod Success
use sicxe.Base.{
  ℕ, ◌+◌, ◌-◌, ◌%◌, ◌^◌, Bool, true, false, not, ◌&&◌, ◌||◌, ltb, leb, Option, none, some, List, [],
  ◌∷◌, ◌++◌, if◌then◌else◌,
}
use sicxe.Base.Int.{ℤ, ◌+ℤ◌}
use sicxe.Base.Run.{Run, value, undefined, assertion_failed, ◌>>=◌}
use sicxe.Machine.Word.{int32, uint32}
use sicxe.Object.{ObjectFile}
use sicxe.Linker.Errors.{LinkError, partial_linking_unsupported, invalid_entry_point}
use sicxe.Linker.RelocationTable.{EntryMap}
use sicxe.Linker.SymbolTable.{SymbolTable}
use sicxe.Linker.Placement.{Placement, order_input_files}
use sicxe.Linker.Symbols.{file_end_address, build_symbol_table}
use sicxe.Linker.Relocations.{build_relocation_table}
use sicxe.Linker.Copy.{CopiedCode, copy_and_patch_code}
use sicxe.Linker.Output.{write_output_symbols}

-- What the caller gets: whether it succeeded, the output, and the errors that were added.
pub record LinkResult : Type 0 where
  pub success : Bool
  pub output : ObjectFile
  pub errors : List LinkError

abbrev pub refused : ObjectFile → List LinkError → Run LinkResult
refused output errors = value (record { success = false; output = output; errors = errors })

-- The header of the output.
abbrev adjustment_of : List ℤ → ℤ
adjustment_of [] = ℤ.pos 0
adjustment_of (adjustment ∷ rest) = adjustment

unfoldable pub with_header : ℕ → ObjectFile → Placement → ObjectFile → ObjectFile
with_header start_address first placement output = record output {
  program_name = first.program_name;
  start_address = start_address;
  code_size = (placement.end_address + 2 ^ 32 - start_address) % 2 ^ 32;
  entry_point = uint32 (int32 first.entry_point +ℤ adjustment_of placement.adjustments);
}

-- What follows `CopyAndPatchCode`.
unfoldable pub finish : SymbolTable → ObjectFile → CopiedCode → LinkResult
unfolding write_output_symbols
finish table output code =
    let copied = record output {
      text_sections = code.text_sections;
      relocation_sections = code.relocations;
    } in
    let (imports, exports) =
      write_output_symbols table output.import_sections output.export_sections in
    if not code.success
    then record { success = false; output = copied; errors = code.errors }
    else record {
      success = true;
      output = record copied { import_sections = imports; export_sections = exports };
      errors = code.errors;
    }

module _ (compatibility_mode : Bool) (files : List ObjectFile) (adjustments : List ℤ) where
  -- From the relocation table on.
  unfoldable pub link_code : ObjectFile → SymbolTable → Run LinkResult
  unfolding build_relocation_table copy_and_patch_code finish
  link_code output table = elim (build_relocation_table files adjustments []).1 [
    | none ↦ refused output (build_relocation_table files adjustments []).0
    | some relocation_table ↦
        copy_and_patch_code compatibility_mode table relocation_table files adjustments (record {
          success = true;
          errors = [];
          text_sections = output.text_sections;
          relocations = output.relocation_sections;
        })
        >>= λ code. value (finish table output code)
  ]

-- From the placement of the files on.
unfoldable pub link_placed : Bool → Bool → List ObjectFile → Placement → ObjectFile → Run LinkResult
unfolding build_symbol_table link_code
link_placed compatibility_mode partial_link files placement output =
    elim (build_symbol_table partial_link files placement.adjustments).1 [
      | none ↦ refused output (build_symbol_table partial_link files placement.adjustments).0
      | some table ↦ link_code compatibility_mode files placement.adjustments output table
    ]

-- `LinkFiles` on a first file and the others; there is always a first one.
unfoldable pub link_files :
    Bool → Bool → ℕ → ObjectFile → List ObjectFile → ObjectFile → Run LinkResult
unfolding order_input_files with_header link_placed
link_files compatibility_mode partial_link start_address first others output =
    let files = first ∷ others in
    let ordered = order_input_files compatibility_mode start_address files in
    let linked : Run LinkResult = elim ordered.1 [
      | none ↦ refused output ordered.0
      | some placement ↦
          link_placed compatibility_mode partial_link files placement
            (with_header start_address first placement output)
    ] in
    if compatibility_mode && partial_link
    then refused output (partial_linking_unsupported ∷ [])
    else (if ltb first.entry_point first.start_address
          || leb (file_end_address first) first.entry_point
        then refused output (invalid_entry_point first.file_name ∷ [])
        else linked)
