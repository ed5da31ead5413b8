-- ===== src/Linker/Symbols/Defined.antt =====
-- What `BuildSymbolTable` gives: errors exactly if it gives no table, and a table without undefined
-- symbols unless the link is partial.
use sicxe.Base.{
  ℕ, ◌≡◌, refl, ◌∙◌, Bool, true, false, ◌||◌, ltb, leb, Option, none, some, List, [], ◌∷◌, is_empty,
  is_empty-append, inl, inr, Bool-cases,
}
use sicxe.Base.Int.{ℤ}
use sicxe.Base.Text.{Bytes}
use sicxe.Base.Keys.{bytes_key}
use sicxe.Base.Maps.{Values}
use sicxe.Object.{ObjectFile}
use sicxe.Linker.Errors.{LinkError}
use sicxe.Linker.SymbolTable.{SymbolEntry, SymbolTable, find_or_create_new}
use sicxe.Linker.Symbols.{
  file_end_address, SymbolPass, is_defined, define_symbol, define_symbols, define_sections,
  collect_symbols, reference_sections, undefined_errors, without_errors, build_symbol_table,
}

-- There are errors exactly where there was no success.
abbrev pub Reported : SymbolPass → Type 0
Reported pass = is_empty pass.errors ≡ pass.success

define_symbol-Reported :
    (file : ObjectFile) (adjustment : ℤ) (name : Bytes) (address : ℕ) (pass : SymbolPass)
    → Reported pass
    → Reported (define_symbol file adjustment name address pass)
unfolding define_symbol
define_symbol-Reported file adjustment name address pass h =
    let entry = (find_or_create_new name pass.table).0 in
    elim (Bool-cases (is_defined entry.type_id)) [
      | inl e ↦ rw e (is_empty-append pass.errors _ [])
      | inr e ↦
          elim (Bool-cases
            (ltb address file.start_address || leb (file_end_address file) address)) [
              | inl f ↦ rw (e, f) (is_empty-append pass.errors _ [])
              | inr f ↦ rw (e, f) h
            ]
    ]

define_symbols-Reported :
    (file : ObjectFile) (adjustment : ℤ) (symbols : List (Bytes × ℕ)) (pass : SymbolPass)
    → Reported pass
    → Reported (define_symbols file adjustment symbols pass)
unfolding define_symbols
define_symbols-Reported file adjustment [] pass h = h
define_symbols-Reported file adjustment ((name, address) ∷ rest) pass h =
    define_symbols-Reported file adjustment rest (define_symbol file adjustment name address pass)
      (define_symbol-Reported file adjustment name address pass h)

define_sections-Reported :
    (file : ObjectFile) (adjustment : ℤ) (sections : List (List (Bytes × ℕ))) (pass : SymbolPass)
    → Reported pass
    → Reported (define_sections file adjustment sections pass)
unfolding define_sections
define_sections-Reported file adjustment [] pass h = h
define_sections-Reported file adjustment (section ∷ rest) pass h =
    define_sections-Reported file adjustment rest (define_symbols file adjustment section pass)
      (define_symbols-Reported file adjustment section pass h)

collect_symbols-Reported :
    (files : List ObjectFile) (adjustments : List ℤ) (pass : SymbolPass)
    → Reported pass
    → Reported (collect_symbols files adjustments pass)
unfolding collect_symbols
collect_symbols-Reported [] adjustments pass h = h
collect_symbols-Reported (file ∷ files) [] pass h = h
collect_symbols-Reported (file ∷ files) (adjustment ∷ adjustments) pass h =
    let referenced : SymbolPass = record pass {
      table = reference_sections file.file_name file.import_sections pass.table;
    } in
    collect_symbols-Reported files adjustments
      (define_sections file adjustment file.export_sections referenced)
      (define_sections-Reported file adjustment file.export_sections referenced h)

abbrev pub IsDefined : SymbolEntry → Type 0
IsDefined entry = is_defined entry.type_id ≡ true

all-IsDefined : (table : SymbolTable) → undefined_errors table ≡ [] → Values IsDefined table
unfolding undefined_errors
all-IsDefined [] h = tt
all-IsDefined ((name, entry) ∷ rest) h = elim (Bool-cases (is_defined entry.type_id)) [
  | inl e ↦ (e, all-IsDefined rest (rw e at h))
  | inr e ↦ absurd (let more = rw e at h in cc)
]

-- What comes with a table, and without one.
abbrev pub TableOrErrors : Bool → List LinkError × Option SymbolTable → Type 0
TableOrErrors partial_link (errors, none) = is_empty errors ≡ false
TableOrErrors partial_link (errors, some table) =
    (errors ≡ []) × (partial_link ≡ false → Values IsDefined table)

without_errors-TableOrErrors :
    (partial_link : Bool) (table : SymbolTable) (errors : List LinkError)
    → undefined_errors table ≡ errors
    → TableOrErrors partial_link (without_errors table errors)
without_errors-TableOrErrors partial_link table [] h = (refl, λ p. all-IsDefined table h)
without_errors-TableOrErrors partial_link table (error ∷ rest) h = refl

no_errors {ℓ} : {A : Type ℓ} (xs : List A) → is_empty xs ≡ true → xs ≡ []
no_errors [] h = refl
no_errors (x ∷ xs) h = cc

-- `BuildSymbolTable` gives a table, with no error, in which every symbol is defined unless the link is
-- a partial one; or it gives no table, and at least one error.
pub build_symbol_table-TableOrErrors :
    (partial_link : Bool) (files : List ObjectFile) (adjustments : List ℤ)
    → TableOrErrors partial_link (build_symbol_table partial_link files adjustments)
unfolding build_symbol_table
build_symbol_table-TableOrErrors partial_link files adjustments =
    let start : SymbolPass = record { table = []; success = true; errors = [] } in
    let pass = collect_symbols files adjustments start in
    let reported = collect_symbols-Reported files adjustments start refl in
    elim (Bool-cases pass.success) [
      | inr e ↦ simp e (reported ∙ e)
      | inl e ↦ elim (Bool-cases partial_link) [
        | inl f ↦ simp (e, f) (no_errors pass.errors (reported ∙ e), λ p. absurd (cc))
        | inr f ↦
            simp (e, f)
              (without_errors-TableOrErrors false pass.table (undefined_errors pass.table) refl)
      ]
    ]
