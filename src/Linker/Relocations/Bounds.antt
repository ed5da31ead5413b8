-- ===== src/Linker/Relocations/Bounds.antt =====
-- What `BuildRelocationTable` gives: relocations of 1 to 10 half bytes in the order of their
-- addresses, or an error.
use sicxe.Base.{
  ℕ, ◌<◌, ◌≤◌, ◌≡◌, refl, subst, sym, Bool, false, ◌||◌, ◌==◌, ltb, leb, Option, none, some, List,
  [], ◌∷◌, is_empty, inl, inr, Bool-cases, Option-cases, arith,
}
use mathlib.Core.Option.{some-injective}
use sicxe.Base.Int.{ℤ, ◌+ℤ◌}
use sicxe.Base.Text.{Bytes}
use sicxe.Base.Keys.{number_key}
use sicxe.Base.Maps.{insert, IsSorted, insert-IsSorted, Values, Values-insert}
use sicxe.Machine.Word.{int32, uint32}
use sicxe.Object.{ObjectFile, RelocationSection}
use sicxe.Linker.Errors.{LinkError, invalid_relocation}
use sicxe.Linker.RelocationTable.{Entry, EntryMap}
use sicxe.Linker.RelocationTable.Entries.{added_simple, added_symbol, Extended}
use sicxe.Linker.Relocations.{add_relocation, add_section, add_sections, build_relocation_table}
use sicxe.Linker.Symbols.{file_end_address}

abbrev pub HasWidth : Entry → Type 0
HasWidth entry = (0 < entry.nibbles) × (entry.nibbles ≤ 10)

-- In order, and of 1 to 10 half bytes.
abbrev pub IsTable : EntryMap → Type 0
IsTable table = IsSorted table × Values HasWidth table

insert-IsTable :
    (address : ℕ) (entry : Entry) (table : EntryMap)
    → IsTable table
    → HasWidth entry
    → IsTable (insert address entry table)
insert-IsTable address entry table v w =
    (insert-IsSorted address entry table v.0, Values-insert HasWidth address entry table w v.1)

Extended-HasWidth :
    (nibbles : ℕ) (sign : Bool) (name : Bytes) (old : Option Entry) (entry : Entry)
    → (0 < nibbles) × (nibbles ≤ 10)
    → Extended nibbles sign name old entry
    → HasWidth entry
Extended-HasWidth nibbles sign name none entry w e = subst HasWidth (sym e) w
Extended-HasWidth nibbles sign name (some old) entry w (kind, width, e) =
    subst HasWidth (sym e) (subst (λ n. (0 < n) × (n ≤ 10)) (sym width) w)

add_relocation-IsTable :
    (address nibbles : ℕ) (reference : Option (Bool × Bytes)) (table added : EntryMap)
    → IsTable table
    → (0 < nibbles) × (nibbles ≤ 10)
    → add_relocation address nibbles reference table ≡ some added
    → IsTable added
add_relocation-IsTable address nibbles none table added v w e =
    let (free, same) = added_simple address nibbles table added e in
    subst IsTable (sym same) (insert-IsTable address _ table v w)
add_relocation-IsTable address nibbles (some (sign, name)) table added v w e =
    let (entry, extended, same) = added_symbol address nibbles sign name table added e in
    subst IsTable (sym same) (
      insert-IsTable address entry table v (Extended-HasWidth nibbles sign name _ entry w extended))

add_section-IsTable :
    (file : ObjectFile) (adjustment : ℤ) (section : RelocationSection) (table added : EntryMap)
    → IsTable table
    → add_section file adjustment section table ≡ some added
    → IsTable added
unfolding add_section
add_section-IsTable file adjustment section table added v e =
    let address = uint32 (int32 section.address +ℤ adjustment) in
    elim (Bool-cases (
      ltb section.address file.start_address
      || leb (file_end_address file) section.address
      || section.nibbles == 0
      || ltb 10 section.nibbles)) [
        | inl refused ↦ absurd (let failed = rw refused at e in cc)
        | inr fine ↦
            add_relocation-IsTable address section.nibbles section.reference table added v
              (ground arith) (rw fine at e)
      ]

add_sections-IsTable :
    (file : ObjectFile) (adjustment : ℤ) (sections : List RelocationSection)
    (table added : EntryMap)
    → IsTable table
    → add_sections file adjustment sections table ≡ some added
    → IsTable added
unfolding add_sections
add_sections-IsTable file adjustment [] table added v e =
    subst IsTable (some-injective table added e) v
add_sections-IsTable file adjustment (section ∷ rest) table added v e =
    elim (Option-cases (add_section file adjustment section table)) [
      | inl f ↦ absurd (let failed = rw (f, add_sections) at e in cc)
      | inr (next, f) ↦
          add_sections-IsTable file adjustment rest next added
            (add_section-IsTable file adjustment section table next v f) (rw (f, add_sections) at e)
    ]

-- What comes with a table, and without one.
abbrev pub EntriesOrErrors : List LinkError × Option EntryMap → Type 0
EntriesOrErrors (errors, none) = is_empty errors ≡ false
EntriesOrErrors (errors, some table) = (errors ≡ []) × IsTable table

after_file-EntriesOrErrors :
    (file_name : Bytes) (result : Option EntryMap)
    (next : EntryMap → List LinkError × Option EntryMap)
    → ((added : EntryMap) → result ≡ some added → EntriesOrErrors (next added))
    → EntriesOrErrors
        (elim result [ none ↦ (invalid_relocation file_name ∷ [], none) | some added ↦ next added ])
after_file-EntriesOrErrors file_name none next h = refl
after_file-EntriesOrErrors file_name (some added) next h = h added refl

-- From a table in the strictly rising order of its addresses, with relocations of 1 to 10 half bytes,
-- `BuildRelocationTable` gives such a table and no error, or no table and at least one error.
pub build_relocation_table-EntriesOrErrors :
    (files : List ObjectFile) (adjustments : List ℤ) (table : EntryMap)
    → IsTable table
    → EntriesOrErrors (build_relocation_table files adjustments table)
unfolding build_relocation_table
build_relocation_table-EntriesOrErrors [] adjustments table v = (refl, v)
build_relocation_table-EntriesOrErrors (file ∷ files) [] table v = (refl, v)
build_relocation_table-EntriesOrErrors (file ∷ files) (adjustment ∷ adjustments) table v =
    after_file-EntriesOrErrors file.file_name
      (add_sections file adjustment file.relocation_sections table)
      (build_relocation_table files adjustments)
      (λ added e.
        build_relocation_table-EntriesOrErrors files adjustments added
          (add_sections-IsTable file adjustment file.relocation_sections table added v e))
