-- ===== src/Linker/Copy/Checked.antt =====
-- `CopyAndPatchCode` on tables as the linker builds them: no assertion fails, and there are errors
-- exactly if it does not succeed.
use sicxe.Base.{
  ℕ, ◌+◌, ◌-◌, ◌*◌, ◌%◌, ◌^◌, ◌<◌, ◌≤◌, ◌≡◌, ◌≢◌, refl, Bool, true, false, not, ◌&&◌, ◌||◌, ltb,
  leb, Option, none, some, List, [], ◌∷◌, All, length, take, drop, is_empty, is_empty-append,
  if◌then◌else◌, inl, inr, Bool-cases, Option-cases, arith,
}
use sicxe.Base.Int.{ℤ, pos, ◌+ℤ◌}
use sicxe.Base.Text.{Bytes}
use sicxe.Base.Keys.{number_key, bytes_key}
use sicxe.Base.Maps.{find, Values, Values-find}
use sicxe.Base.Run.{Run, value, ◌>>=◌, Asserts, Asserts-bind}
use sicxe.Object.{TextSection, RelocationSection}
use sicxe.Machine.Word.{fit_int32, int32}
use sicxe.Linker.Errors.{LinkError, invalid_relocation}
use sicxe.Linker.RelocationTable.{Entry, EntryMap, is_symbol}
use sicxe.Linker.SymbolTable.{SymbolTable, SymbolEntry}
use sicxe.Linker.Symbols.{is_defined}
use sicxe.Linker.Symbols.Defined.{IsDefined}
use sicxe.Linker.Relocations.Bounds.{HasWidth}
use sicxe.Linker.Patch.{
  PatchResult, checked, patch_text_section, field_size, is_odd, read_field, with_field,
}
use sicxe.Linker.Copy.{
  SymbolSum, signed, with_total, add_symbol, sum_symbols, classify_found, Solved, classify,
  solve_symbol_relocation, CopyState, fail, after_patch, output_records, write_records, patch_entry,
  solve_entry, patch_entries,
}

checked-ne-assertion_failed :
    (limit : ℕ) (write : ℕ → List ℕ) (sum : ℤ)
    → checked limit write sum ≢ PatchResult.assertion_failed
unfolding checked
checked-ne-assertion_failed limit write sum h = ground arith

chosen :
    (a b c : Bool) (r : PatchResult)
    → r ≢ PatchResult.assertion_failed
    → (if a
        then PatchResult.undefined
        else (if b
            then PatchResult.invalid_relocation
            else (if c then PatchResult.undefined else r)))
      ≢ PatchResult.assertion_failed
chosen true b c r h e = cc
chosen false true c r h e = cc
chosen false false true r h e = cc
chosen false false false r h e = h e

-- The assertions of `PatchTextSection` hold for a field of 1 to 10 half bytes from the start of the
-- section on.
patch_text_section-ne-assertion_failed :
    (address nibbles : ℕ) (adjustment : ℤ) (section : TextSection)
    → (0 < nibbles) × (nibbles ≤ 10)
    → section.address ≤ address
    → patch_text_section address nibbles adjustment section ≢ PatchResult.assertion_failed
unfolding patch_text_section
patch_text_section-ne-assertion_failed address nibbles adjustment section w h e =
    let valid : (not (ltb 0 nibbles && leb nibbles 10) || not (leb section.address address))
        ≡ false =
      ground arith in
    let offset = address - section.address in
    let field =
      read_field (is_odd nibbles) (take (field_size nibbles) (drop offset section.data_bytes)) in
    chosen (leb 8 nibbles)
      (ltb ((length section.data_bytes + 2 ^ 32 - offset) % 2 ^ 32) (field_size nibbles))
      (ltb (length section.data_bytes) offset)
      (checked (2 ^ (nibbles * 4) - 1)
        (with_field (is_odd nibbles) offset (field_size nibbles) section.data_bytes)
        (pos field +ℤ adjustment))
      (checked-ne-assertion_failed (2 ^ (nibbles * 4) - 1)
        (with_field (is_odd nibbles) offset (field_size nibbles) section.data_bytes)
        (pos field +ℤ adjustment))
      (rw valid at e)

-- In compatibility mode every symbol must be defined.
abbrev pub KnowsSymbols : Bool → SymbolTable → Type 0
KnowsSymbols compatibility_mode table = compatibility_mode ≡ true → Values IsDefined table

abbrev Anything {ℓ} : {A : Type ℓ} → A → Type 0
Anything a = Unit

-- In compatibility mode all symbols so far are known.
abbrev KnowsAll : Bool → SymbolSum → Type 0
KnowsAll compatibility_mode sum = compatibility_mode ≡ true → sum.all_known ≡ true

abbrev Summed : Bool → Option SymbolSum → Type 0
Summed compatibility_mode none = Unit
Summed compatibility_mode (some sum) = KnowsAll compatibility_mode sum

module _ (compatibility_mode : Bool) (table : SymbolTable) where
  with_total-Asserts :
      (sum : SymbolSum) (total : Option ℤ)
      → KnowsAll compatibility_mode sum
      → Asserts (KnowsAll compatibility_mode) (with_total sum total)
  with_total-Asserts sum none v = tt
  with_total-Asserts sum (some total) v = v

  add_symbol-Asserts :
      (sign : Bool) (entry : SymbolEntry) (sum : SymbolSum)
      → (compatibility_mode ≡ true → is_defined entry.type_id ≡ true)
      → KnowsAll compatibility_mode sum
      → Asserts (KnowsAll compatibility_mode) (add_symbol sign entry sum)
  add_symbol-Asserts sign entry sum d v = elim (Bool-cases (is_defined entry.type_id)) [
    | inl e ↦
        rw (e, Asserts)
          (with_total-Asserts
            (record sum { relative_count = signed sign sum.relative_count (pos 1) })
            (fit_int32 (signed sign sum.total (int32 entry.address))) v)
    | inr e ↦ rw (e, Asserts) (λ c. absurd (let no = d c in cc))
  ]

  sum_symbols-Asserts :
      (symbols : List (Bool × Bytes)) (sum : SymbolSum)
      → KnowsSymbols compatibility_mode table
      → KnowsAll compatibility_mode sum
      → Asserts (Summed compatibility_mode) (sum_symbols table symbols sum)
  unfolding sum_symbols
  sum_symbols-Asserts [] sum d v = v
  sum_symbols-Asserts ((sign, name) ∷ rest) sum d v = elim (Option-cases (find name table)) [
    | inl f ↦ rw (f, Asserts) tt
    | inr (entry, f) ↦
        rw (f, Asserts)
          (Asserts-bind (KnowsAll compatibility_mode) (Summed compatibility_mode)
            (add_symbol sign entry sum) (sum_symbols table rest)
            (add_symbol-Asserts sign entry sum (λ c. Values-find IsDefined name table entry (d c) f)
              v)
            λ t w. sum_symbols-Asserts rest t d w)
  ]

  classify_found-Asserts :
      (o : Option SymbolSum)
      → Summed compatibility_mode o
      → Asserts Anything (classify_found compatibility_mode o)
  unfolding classify
  classify_found-Asserts none v = tt
  classify_found-Asserts (some sum) v = elim (Bool-cases compatibility_mode) [
    | inl e ↦ rw (e, v e, Asserts) tt
    | inr e ↦ rw (e, Asserts) tt
  ]

  solve_symbol_relocation-Asserts :
      (entry : Entry)
      → KnowsSymbols compatibility_mode table
      → Asserts Anything (solve_symbol_relocation compatibility_mode table entry)
  unfolding solve_symbol_relocation
  solve_symbol_relocation-Asserts entry d =
      Asserts-bind (Summed compatibility_mode) Anything _ (classify_found compatibility_mode)
        (sum_symbols-Asserts entry.symbols _ d (λ c. refl)) classify_found-Asserts

-- There are errors exactly where there was no success, and the section has the address.
abbrev pub Going : ℕ → CopyState → Type 0
Going address s = (is_empty s.errors ≡ s.success) × (s.section.address ≡ address)

fail-Going :
    (error : LinkError) (address : ℕ) (s : CopyState)
    → Going address s
    → Going address (fail error s)
fail-Going error address s (h, a) = (is_empty-append s.errors error [], a)

after_patch-Asserts :
    (file_name : Bytes) (address : ℕ) (s : CopyState) (r : PatchResult)
    → Going address s
    → r ≢ PatchResult.assertion_failed
    → Asserts (λ p. Going address p.1) (after_patch file_name s r)
after_patch-Asserts file_name address s (PatchResult.patched bytes) g h = g
after_patch-Asserts file_name address s PatchResult.invalid_relocation g h =
    fail-Going _ address s g
after_patch-Asserts file_name address s PatchResult.relocation_underflow g h =
    fail-Going _ address s g
after_patch-Asserts file_name address s PatchResult.relocation_overflow g h =
    fail-Going _ address s g
after_patch-Asserts file_name address s PatchResult.undefined g h = tt
after_patch-Asserts file_name address s PatchResult.assertion_failed g h = absurd (h refl)

write_records-Asserts :
    (records : List RelocationSection) (address : ℕ) (r : Bool × CopyState)
    → Going address r.1
    → Asserts (Going address) (write_records records r)
write_records-Asserts records address (true, s) g = g
write_records-Asserts records address (false, s) g = g

patch_entry-Asserts :
    (compatibility_mode : Bool) (file_name : Bytes) (address start : ℕ) (entry : Entry)
    (solved : Solved) (s : CopyState)
    → HasWidth entry
    → start ≤ address
    → Going start s
    → Asserts (Going start) (patch_entry compatibility_mode file_name address entry solved s)
unfolding patch_entry
patch_entry-Asserts compatibility_mode file_name address start entry solved s w h g =
    let records = output_records compatibility_mode address entry solved in
    let result = patch_text_section address entry.nibbles solved.adjustment s.section in
    elim (Bool-cases
      (compatibility_mode || not (is_symbol entry.type_id) || solved.all_symbols_known)) [
        | inl e ↦ rw e (
            Asserts-bind (λ p. Going start p.1) (Going start) (after_patch file_name s result)
              (write_records records)
              (after_patch-Asserts file_name start s result g (
                patch_text_section-ne-assertion_failed address entry.nibbles solved.adjustment
                  s.section w (omega (arith, g.1))))
              (λ p. write_records-Asserts records start p))
        | inr e ↦ rw e (write_records-Asserts records start (true, s) g)
      ]

solve_entry-Asserts :
    (compatibility_mode : Bool) (adjustment : ℤ) (table : SymbolTable) (entry : Entry)
    → KnowsSymbols compatibility_mode table
    → Asserts Anything (solve_entry compatibility_mode adjustment table entry)
unfolding solve_entry
solve_entry-Asserts compatibility_mode adjustment table entry v =
    elim (Bool-cases (is_symbol entry.type_id)) [
      | inl e ↦ rw e (solve_symbol_relocation-Asserts compatibility_mode table entry v)
      | inr e ↦ rw e tt
    ]

-- The entries lie at the start of the section or after it.
abbrev pub After : ℕ → EntryMap → Type 0
After start entries = All (λ e. start ≤ e.0) entries

-- What follows the solution of an entry.
after_solution-Asserts :
    (compatibility_mode : Bool) (file_name : Bytes) (start address : ℕ) (entry : Entry)
    (s : CopyState) (solution : Option Solved) (next : CopyState → Run CopyState)
    → HasWidth entry
    → start ≤ address
    → Going start s
    → ((t : CopyState) → Going start t → Asserts (Going start) (next t))
    → Asserts (Going start) (elim solution [
      | none ↦ value (fail (invalid_relocation file_name) s)
      | some solved ↦ patch_entry compatibility_mode file_name address entry solved s >>= next
    ])
after_solution-Asserts compatibility_mode file_name start address entry s none next w h g k =
    fail-Going (invalid_relocation file_name) start s g
after_solution-Asserts compatibility_mode file_name start address entry s (some solved) next w h g
      k =
    Asserts-bind (Going start) (Going start)
      (patch_entry compatibility_mode file_name address entry solved s) next
      (patch_entry-Asserts compatibility_mode file_name address start entry solved s w h g) k

module _ (compatibility_mode : Bool) (table : SymbolTable)
    (known : KnowsSymbols compatibility_mode table) where
  pub patch_entries-Asserts :
      (file_name : Bytes) (adjustment : ℤ) (start : ℕ) (entries : EntryMap) (s : CopyState)
      → Values HasWidth entries
      → After start entries
      → Going start s
      → Asserts
          (Going start)
          (patch_entries compatibility_mode table file_name adjustment entries s)
  unfolding patch_entries
  patch_entries-Asserts file_name adjustment start [] s w h g = g
  patch_entries-Asserts file_name adjustment start ((address, entry) ∷ rest) s w h g =
      Asserts-bind Anything (Going start) (solve_entry compatibility_mode adjustment table entry)
        (λ solution. elim solution [
          | none ↦ value (fail (invalid_relocation file_name) s)
          | some solved ↦
              patch_entry compatibility_mode file_name address entry solved s
              >>= patch_entries compatibility_mode table file_name adjustment rest
        ])
        (solve_entry-Asserts compatibility_mode adjustment table entry known)
        (λ solution _.
          after_solution-Asserts compatibility_mode file_name start address entry s solution
            (patch_entries compatibility_mode table file_name adjustment rest) w.0 h.0 g
            (λ t. patch_entries-Asserts file_name adjustment start rest t w.1 h.1))
