-- ===== src/Linker/Link/Success.antt =====
-- How `LinkFiles` ends.
use sicxe.Base.{
  ℕ, ◌+◌, ◌%◌, ◌^◌, ◌≡◌, refl, ◌∙◌, Bool, true, false, not, ◌&&◌, ◌||◌, ◌==◌, ltb, leb, Option,
  none, some, List, [], ◌∷◌, ◌++◌, is_empty, is_empty-append, if◌then◌else◌, inl, inr, Bool-cases,
  arith,
}
use sicxe.Base.Int.{ℤ, ◌-ℤ◌}
use sicxe.Base.Run.{value, ◌>>=◌, Asserts, Asserts-bind}
use sicxe.Machine.Word.{int32}
use sicxe.Object.{ObjectFile}
use sicxe.Linker.Errors.{LinkError, start_address_not_zero, address_overflow}
use sicxe.Linker.RelocationTable.{EntryMap}
use sicxe.Linker.SymbolTable.{SymbolTable}
use sicxe.Linker.Placement.{Placement, placed, order_input_files}
use sicxe.Linker.Symbols.{file_end_address, build_symbol_table}
use sicxe.Linker.Symbols.Defined.{TableOrErrors, build_symbol_table-TableOrErrors}
use sicxe.Linker.Relocations.{build_relocation_table}
use sicxe.Linker.Relocations.Bounds.{EntriesOrErrors, build_relocation_table-EntriesOrErrors}
use sicxe.Linker.Copy.{CopiedCode, copy_and_patch_code}
use sicxe.Linker.Copy.Checked.{KnowsSymbols}
use sicxe.Linker.Copy.Sections.{HasOutcome, copy_and_patch_code-Asserts}
use sicxe.Linker.Link.{LinkResult, refused, with_header, finish, link_code, link_placed, link_files}

-- Errors are added exactly where there is no success.
abbrev pub Reports : LinkResult → Type 0
Reports r = is_empty r.errors ≡ r.success

-- What comes without a placement.
abbrev PlacementOrErrors : List LinkError × Option Placement → Type 0
PlacementOrErrors (errors, none) = is_empty errors ≡ false
PlacementOrErrors (errors, some placement) = Unit

placed-PlacementOrErrors :
    (start : ℕ) (adjustment : ℤ) (refused : Bool) (error : LinkError)
    (later : List LinkError × Option Placement)
    → PlacementOrErrors later
    → PlacementOrErrors
        ((if refused then error ∷ [] else []) ++ later.0, placed start adjustment refused later.1)
placed-PlacementOrErrors start adjustment true error (errors, none) h = refl
placed-PlacementOrErrors start adjustment false error (errors, none) h = h
placed-PlacementOrErrors start adjustment true error (errors, some placement) h = refl
placed-PlacementOrErrors start adjustment false error (errors, some placement) h = tt

order_input_files-PlacementOrErrors :
    (compatibility_mode : Bool) (address : ℕ) (files : List ObjectFile)
    → PlacementOrErrors (order_input_files compatibility_mode address files)
unfolding order_input_files
order_input_files-PlacementOrErrors compatibility_mode address [] = tt
order_input_files-PlacementOrErrors compatibility_mode address (file ∷ rest) =
    let refused = compatibility_mode && not (file.start_address == 0) in
    let next = (address + file.code_size) % 2 ^ 32 in
    elim (Bool-cases (ltb 0x10_0000 next)) [
      | inl e ↦ simp e (
          is_empty-append (if refused then start_address_not_zero file.file_name ∷ [] else [])
            address_overflow [])
      | inr e ↦ simp e (
          placed-PlacementOrErrors address (int32 address -ℤ int32 file.start_address) refused
            (start_address_not_zero file.file_name) (order_input_files compatibility_mode next rest)
            (order_input_files-PlacementOrErrors compatibility_mode next rest))
    ]

finish-Reports :
    (table : SymbolTable) (output : ObjectFile) (code : CopiedCode)
    → HasOutcome code
    → Reports (finish table output code)
unfolding finish
finish-Reports table output code h = elim (Bool-cases code.success) [
  | inl e ↦ simp e (h ∙ e)
  | inr e ↦ simp e (h ∙ e)
]

module _ (compatibility_mode : Bool) (files : List ObjectFile) (adjustments : List ℤ) where
  -- What follows the relocation table.
  after_relocations-Asserts :
      (output : ObjectFile) (table : SymbolTable) (r : List LinkError × Option EntryMap)
      → KnowsSymbols compatibility_mode table
      → EntriesOrErrors r
      → Asserts Reports (elim r.1 [
        | none ↦ refused output r.0
        | some relocation_table ↦
            copy_and_patch_code compatibility_mode table relocation_table files adjustments
              (record {
                success = true;
                errors = [];
                text_sections = output.text_sections;
                relocations = output.relocation_sections;
              })
            >>= λ code. value (finish table output code)
      ])
  after_relocations-Asserts output table (errors, none) known h = h
  after_relocations-Asserts output table (errors, some relocation_table) known h =
      let start : CopiedCode = record {
        success = true;
        errors = [];
        text_sections = output.text_sections;
        relocations = output.relocation_sections;
      } in
      Asserts-bind HasOutcome Reports
        (copy_and_patch_code compatibility_mode table relocation_table files adjustments start)
        (λ code. value (finish table output code))
        (copy_and_patch_code-Asserts compatibility_mode table relocation_table known h.1 files
          adjustments start refl)
        (finish-Reports table output)

  link_code-Asserts :
      (output : ObjectFile) (table : SymbolTable)
      → KnowsSymbols compatibility_mode table
      → Asserts Reports (link_code compatibility_mode files adjustments output table)
  unfolding link_code
  link_code-Asserts output table known =
      after_relocations-Asserts output table (build_relocation_table files adjustments []) known
        (build_relocation_table-EntriesOrErrors files adjustments [] (tt, tt))

  after_symbols-Asserts :
      (partial_link : Bool) (output : ObjectFile) (r : List LinkError × Option SymbolTable)
      → compatibility_mode && partial_link ≡ false
      → TableOrErrors partial_link r
      → Asserts Reports (elim r.1 [
        | none ↦ refused output r.0
        | some table ↦ link_code compatibility_mode files adjustments output table
      ])
  after_symbols-Asserts partial_link output (errors, none) whole h = h
  after_symbols-Asserts partial_link output (errors, some table) whole h =
      link_code-Asserts output table (λ e. h.1 (ground arith))

module _ (compatibility_mode partial_link : Bool) (files : List ObjectFile)
    (whole : compatibility_mode && partial_link ≡ false) where
  link_placed-Asserts :
      (placement : Placement) (output : ObjectFile)
      → Asserts Reports (link_placed compatibility_mode partial_link files placement output)
  unfolding link_placed
  link_placed-Asserts placement output =
      after_symbols-Asserts compatibility_mode files placement.adjustments partial_link output
        (build_symbol_table partial_link files placement.adjustments) whole
        (build_symbol_table-TableOrErrors partial_link files placement.adjustments)

  after_order-Asserts :
      (start_address : ℕ) (first output : ObjectFile) (r : List LinkError × Option Placement)
      → PlacementOrErrors r
      → Asserts Reports (elim r.1 [
        | none ↦ refused output r.0
        | some placement ↦
            link_placed compatibility_mode partial_link files placement
              (with_header start_address first placement output)
      ])
  after_order-Asserts start_address first output (errors, none) h = h
  after_order-Asserts start_address first output (errors, some placement) h =
      link_placed-Asserts placement (with_header start_address first placement output)

-- `LinkFiles` fails no assertion, on any files. Where it does not come to an operation on which C++
-- puts no meaning, it adds errors exactly if it does not succeed.
pub link_files-Asserts :
    (compatibility_mode partial_link : Bool) (start_address : ℕ) (first : ObjectFile)
    (others : List ObjectFile) (output : ObjectFile)
    → Asserts Reports (link_files compatibility_mode partial_link start_address first others output)
unfolding link_files
link_files-Asserts compatibility_mode partial_link start_address first others output =
    elim (Bool-cases (compatibility_mode && partial_link)) [
      | inl e ↦ rw e refl
      | inr e ↦
          elim (Bool-cases (
            ltb first.entry_point first.start_address
            || leb (file_end_address first) first.entry_point)) [
              | inl f ↦ rw (e, f) refl
              | inr f ↦
                  rw (e, f)
                    (after_order-Asserts compatibility_mode partial_link (first ∷ others) e
                      start_address first output
                      (order_input_files compatibility_mode start_address (first ∷ others))
                      (order_input_files-PlacementOrErrors compatibility_mode start_address
                        (first ∷ others)))
            ]
    ]
