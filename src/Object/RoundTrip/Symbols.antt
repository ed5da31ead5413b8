-- ===== src/Object/RoundTrip/Symbols.antt =====
-- The sections of symbols and of relocations.
use sicxe.Base.{
  ℕ, suc, ◌+◌, ◌-◌, ◌*◌, ◌/◌, ◌%◌, ◌^◌, ◌<◌, ◌≡◌, refl, sym, ap, ◌∙◌, Bool, true, false, ◌||◌, ◌==◌,
  Option, none, some, List, [], ◌∷◌, ◌++◌, All, length, drop-append, slice, arith,
}
use mathlib.Core.List.{append_assoc}
use sicxe.Base.Text.{Bytes}
use sicxe.Base.Options.{known}
use sicxe.Object.{RelocationSection, ObjectFile}
use sicxe.Object.Text.{hex_padded, name_padded}
use sicxe.Object.Text.Laws.{IsName, length-hex_padded, length-name_padded}
use sicxe.Object.Load.{
  name_at, parse_exports, parse_symbol_export_section, parse_imports, parse_symbol_import_section,
  parse_reference, parse_sign, parse_relocation_section,
}
use sicxe.Object.Save.{
  exports_text, export_line, imports_text, import_line, reference_text, relocation_line,
}
use sicxe.Object.RoundTrip.Sections.{
  slice-append, hex_at_six, hex_at_two, name_at_lem, guarded, ended_part, lengths,
}

-- A symbol of an export section that can be saved.
abbrev pub IsExport : Bytes × ℕ → Type 0
IsExport symbol = IsName symbol.0 × (symbol.1 < 2 ^ 20)

length-exports_text :
    (symbols : List (Bytes × ℕ))
    → All IsExport symbols
    → length (exports_text symbols) ≡ 12 * length symbols
length-exports_text [] v = refl
length-exports_text ((name, address) ∷ rest) v =
    let shown = address % 2 ^ 20 in
    omega (
      arith,
      lengths 6 (6 + 12 * length rest) (name_padded name) (hex_padded 6 shown ++ exports_text rest)
          (length-name_padded name v.0.0)
          (lengths 6 (12 * length rest) (hex_padded 6 shown) (exports_text rest)
            (length-hex_padded 6 shown (omega arith)) (length-exports_text rest v.1)),
    )

parse_exports_lem :
    (symbols : List (Bytes × ℕ))
    → All IsExport symbols
    → parse_exports (length symbols) (exports_text symbols) ≡ some symbols
unfolding parse_exports
parse_exports_lem [] v = refl
parse_exports_lem ((name, address) ∷ rest) v =
    let shown = address % 2 ^ 20 in
    let text = hex_padded 6 shown ++ exports_text rest in
    let named = length-name_padded name v.0.0 in
    known _ (name_at_lem 0 [] name text refl v.0.0) (
      known _
        (hex_at_six 6 shown address (name_padded name) (exports_text rest) named (omega arith)
          (omega arith))
        (known _
          (ap (parse_exports (length rest)) (
              drop-append 6 6 12 (name_padded name) text named refl
              ∙ drop-append 6 0 6 (hex_padded 6 shown) (exports_text rest)
                  (length-hex_padded 6 shown (omega arith)) refl)
            ∙ parse_exports_lem rest v.1)
          refl))

pub parse_symbol_export_section_lem :
    (file : ObjectFile) (symbols : List (Bytes × ℕ))
    → All IsExport symbols
    → parse_symbol_export_section (export_line symbols) file
      ≡ some (record file { export_sections = file.export_sections ++ symbols ∷ [] })
unfolding parse_symbol_export_section
parse_symbol_export_section_lem file symbols v =
    let text = exports_text symbols in
    let filled = length-exports_text symbols v in
    let count : length (export_line symbols) - 1 ≡ 12 * length symbols = omega (arith, filled) in
    let whole : (12 * length symbols) / 12 ≡ length symbols = omega arith in
    let even : (12 * length symbols) % 12 ≡ 0 = omega arith in
    guarded ((length (export_line symbols) - 1) % 12 == 0) _ _ (rw (count, even) refl) (
      known _
        (ap (λ n. parse_exports n text) (ap (λ n. n / 12) count ∙ whole)
          ∙ parse_exports_lem symbols v)
        refl)

length-imports_text :
    (names : List Bytes) → All IsName names → length (imports_text names) ≡ 6 * length names
length-imports_text [] v = refl
length-imports_text (name ∷ rest) v = omega (
  arith,
  lengths 6 (6 * length rest) (name_padded name) (imports_text rest) (length-name_padded name v.0)
      (length-imports_text rest v.1),
)

parse_imports_lem :
    (names : List Bytes)
    → All IsName names
    → parse_imports (length names) (imports_text names) ≡ some names
unfolding parse_imports
parse_imports_lem [] v = refl
parse_imports_lem (name ∷ rest) v = known _ (name_at_lem 0 [] name (imports_text rest) refl v.0) (
    known _
      (ap (parse_imports (length rest)) (
          drop-append 6 0 6 (name_padded name) (imports_text rest) (length-name_padded name v.0)
            refl)
        ∙ parse_imports_lem rest v.1)
      refl)

pub parse_symbol_import_section_lem :
    (file : ObjectFile) (names : List Bytes)
    → All IsName names
    → parse_symbol_import_section (import_line names) file
      ≡ some (record file { import_sections = file.import_sections ++ names ∷ [] })
unfolding parse_symbol_import_section
parse_symbol_import_section_lem file names v =
    let text = imports_text names in
    let filled = length-imports_text names v in
    let count : length (import_line names) - 1 ≡ 6 * length names = omega (arith, filled) in
    let whole : (6 * length names) / 6 ≡ length names = omega arith in
    let even : (6 * length names) % 6 ≡ 0 = omega arith in
    guarded ((length (import_line names) - 1) % 6 == 0) _ _ (rw (count, even) refl) (
      known _
        (ap (λ n. parse_imports n text) (ap (λ n. n / 6) count ∙ whole) ∙ parse_imports_lem names v)
        refl)

abbrev pub IsReference : Option (Bool × Bytes) → Type 0
IsReference none = Unit
IsReference (some (sign, name)) = IsName name

reference_length : Option (Bool × Bytes) → ℕ
reference_length none = 0
reference_length (some reference) = 7

length-reference_text :
    (reference : Option (Bool × Bytes))
    → IsReference reference
    → length (reference_text reference) ≡ reference_length reference
unfolding reference_length
length-reference_text none v = refl
length-reference_text (some (sign, name)) v = ap suc (length-name_padded name v)

signed_reference_lem :
    (front name : Bytes) (c : ℕ) (sign : Bool)
    → length front ≡ 9
    → IsName name
    → parse_sign (c ∷ []) ≡ some sign
    → parse_reference (front ++ c ∷ name_padded name) ≡ some (some (sign, name))
unfolding parse_reference
signed_reference_lem front name c sign h v e =
    let text = c ∷ name_padded name in
    let whole : length (front ++ text) ≡ 16 =
      lengths 9 7 front text h (ap suc (length-name_padded name v)) in
    let split : front ++ text ≡ (front ++ c ∷ []) ++ (name_padded name ++ []) =
      sym (append_assoc front (c ∷ []) (name_padded name))
      ∙ ended_part (front ++ c ∷ []) (name_padded name) in
    let named : name_at 10 6 (front ++ text) ≡ some name =
      ap (name_at 10 6) split
      ∙ name_at_lem 10 (front ++ c ∷ []) name [] (lengths 9 1 front (c ∷ []) h refl) v in
    let signed : parse_sign (slice 9 1 (front ++ text)) ≡ some sign =
      ap parse_sign (slice-append 9 1 front (c ∷ []) (name_padded name) h refl) ∙ e in
    rw whole (known _ signed (known _ named refl))

parse_reference_lem :
    (front : Bytes) (reference : Option (Bool × Bytes))
    → length front ≡ 9
    → IsReference reference
    → parse_reference (front ++ reference_text reference) ≡ some reference
unfolding parse_reference
parse_reference_lem front none h v =
    let whole : length (front ++ []) ≡ 9 = lengths 9 0 front [] h refl in rw whole refl
parse_reference_lem front (some (true, name)) h v = signed_reference_lem front name 43 true h v refl
parse_reference_lem front (some (false, name)) h v =
    signed_reference_lem front name 45 false h v refl

reference_width :
    (reference : Option (Bool × Bytes))
    → (9 + reference_length reference == 9 || 9 + reference_length reference == 16) ≡ true
unfolding reference_length
reference_width none = refl
reference_width (some reference) = refl

pub parse_relocation_section_lem :
    (file : ObjectFile) (section : RelocationSection)
    → section.address < 2 ^ 24
    → section.nibbles < 2 ^ 8
    → IsReference section.reference
    → parse_relocation_section (relocation_line section) file
      ≡ some (record file { relocation_sections = file.relocation_sections ++ section ∷ [] })
unfolding parse_relocation_section relocation_line
parse_relocation_section_lem file section h k v =
    let shown = section.nibbles % 2 ^ 8 in
    let text = reference_text section.reference in
    let address = hex_padded 6 section.address in
    let nibbles = hex_padded 2 shown in
    let placed : length address ≡ 6 = length-hex_padded 6 section.address (omega arith) in
    let sized : length nibbles ≡ 2 = length-hex_padded 2 shown (omega arith) in
    let same : shown ≡ section.nibbles = omega arith in
    let line = 77 ∷ (address ++ (nibbles ++ text)) in
    let width = reference_length section.reference in
    let whole : length line ≡ 9 + width = omega (
      arith,
      lengths 6 (2 + width) address (nibbles ++ text) placed
          (lengths 2 width nibbles text sized (length-reference_text section.reference v)),
    ) in
    let front = 77 ∷ (address ++ nibbles) in
    let split : line ≡ front ++ text = ap (λ t. 77 ∷ t) (sym (append_assoc address nibbles text)) in
    guarded (length line == 9 || length line == 16) _ _
      (rw whole (reference_width section.reference))
      (known _
        (hex_at_six 1 section.address section.address (77 ∷ []) (nibbles ++ text) refl refl h)
        (known _ (hex_at_two 7 shown section.nibbles (77 ∷ address) text (ap suc placed) same k) (
          known _
            (ap parse_reference split
              ∙ parse_reference_lem front section.reference
                  (ap suc (lengths 6 2 address nibbles placed sized)) v)
            (ap
              (λ n. some (record file {
                relocation_sections =
                    file.relocation_sections
                    ++ record {
                      address = section.address;
                      nibbles = n;
                      reference = section.reference;
                    }
                      ∷ [];
              }))
              same))))
