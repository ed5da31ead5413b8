-- ===== src/Object/RoundTrip/Files.antt =====
-- The lines of each kind, and what an object file can hold.
use sicxe.Base.{ℕ, ◌^◌, ◌<◌, ◌≤◌, ◌≡◌, sym, ap, ◌∙◌, some, List, [], ◌∷◌, ◌++◌, All, length}
use mathlib.Core.List.{append_assoc, append-nil}
use sicxe.Base.Text.{Bytes}
use sicxe.Object.{TextSection, RelocationSection, ObjectFile}
use sicxe.Object.Text.Laws.{IsName}
use sicxe.Object.Load.{Loading, parse_line, store_file}
use sicxe.Object.Save.{text_line, export_line, import_line, relocation_line}
use sicxe.Object.RoundTrip.Sections.{parse_text_section_lem}
use sicxe.Object.RoundTrip.Symbols.{
  IsExport, parse_symbol_export_section_lem, parse_symbol_import_section_lem, IsReference,
  parse_relocation_section_lem,
}
use sicxe.Object.RoundTrip.Lines.{added_all}

abbrev pub IsText : TextSection → Type 0
IsText section =
    (section.address < 2 ^ 24)
    × (length section.data_bytes ≤ 31)
    × All (λ b. b < 2 ^ 8) section.data_bytes

abbrev pub IsRelocation : RelocationSection → Type 0
IsRelocation section =
    (section.address < 2 ^ 24) × (section.nibbles < 2 ^ 8) × IsReference section.reference

-- What an object file can hold: names of one to six characters of symbols, numbers that the masks
-- keep, and text sections of at most 31 bytes.
abbrev pub IsSavable : ObjectFile → Type 0
IsSavable file =
    IsName file.program_name
    × (file.start_address < 2 ^ 20)
    × (file.code_size < 2 ^ 20)
    × (file.entry_point < 2 ^ 20)
    × All IsText file.text_sections
    × All (All IsExport) file.export_sections
    × All (All IsName) file.import_sections
    × All IsRelocation file.relocation_sections

unfoldable pub add_text : TextSection → Loading → Loading
add_text section s = record s {
  file = record (s.file) { text_sections = s.file.text_sections ++ section ∷ [] };
}

unfoldable pub add_export : List (Bytes × ℕ) → Loading → Loading
add_export symbols s = record s {
  file = record (s.file) { export_sections = s.file.export_sections ++ symbols ∷ [] };
}

unfoldable pub add_import : List Bytes → Loading → Loading
add_import symbols s = record s {
  file = record (s.file) { import_sections = s.file.import_sections ++ symbols ∷ [] };
}

unfoldable pub add_relocation : RelocationSection → Loading → Loading
add_relocation section s = record s {
  file = record (s.file) { relocation_sections = s.file.relocation_sections ++ section ∷ [] };
}

pub parse_line-text :
    (section : TextSection) (line : ℕ) (s : Loading)
    → IsText section
    → parse_line (text_line section) line s ≡ some (add_text section s)
unfolding parse_line text_line add_text
parse_line-text section line s v =
    ap (store_file s) (parse_text_section_lem s.file section v.0 v.1 v.2)

pub parse_line-export :
    (symbols : List (Bytes × ℕ)) (line : ℕ) (s : Loading)
    → All IsExport symbols
    → parse_line (export_line symbols) line s ≡ some (add_export symbols s)
unfolding parse_line add_export
parse_line-export symbols line s v =
    ap (store_file s) (parse_symbol_export_section_lem s.file symbols v)

pub parse_line-import :
    (symbols : List Bytes) (line : ℕ) (s : Loading)
    → All IsName symbols
    → parse_line (import_line symbols) line s ≡ some (add_import symbols s)
unfolding parse_line add_import
parse_line-import symbols line s v =
    ap (store_file s) (parse_symbol_import_section_lem s.file symbols v)

pub parse_line-relocation :
    (section : RelocationSection) (line : ℕ) (s : Loading)
    → IsRelocation section
    → parse_line (relocation_line section) line s ≡ some (add_relocation section s)
unfolding parse_line relocation_line add_relocation
parse_line-relocation section line s v =
    ap (store_file s) (parse_relocation_section_lem s.file section v.0 v.1 v.2)

pub added_texts :
    (sections : List TextSection) (s : Loading)
    → added_all add_text sections s
      ≡ record s { file = record (s.file) { text_sections = s.file.text_sections ++ sections } }
unfolding add_text
added_texts [] s =
    ap (λ t. record s { file = record (s.file) { text_sections = t } })
      (sym (append-nil s.file.text_sections))
added_texts (section ∷ rest) s =
    added_texts rest (add_text section s)
    ∙ ap (λ t. record s { file = record (s.file) { text_sections = t } })
        (append_assoc s.file.text_sections (section ∷ []) rest)

pub added_exports :
    (sections : List (List (Bytes × ℕ))) (s : Loading)
    → added_all add_export sections s
      ≡ record s { file = record (s.file) { export_sections = s.file.export_sections ++ sections } }
unfolding add_export
added_exports [] s =
    ap (λ t. record s { file = record (s.file) { export_sections = t } })
      (sym (append-nil s.file.export_sections))
added_exports (section ∷ rest) s =
    added_exports rest (add_export section s)
    ∙ ap (λ t. record s { file = record (s.file) { export_sections = t } })
        (append_assoc s.file.export_sections (section ∷ []) rest)

pub added_imports :
    (sections : List (List Bytes)) (s : Loading)
    → added_all add_import sections s
      ≡ record s { file = record (s.file) { import_sections = s.file.import_sections ++ sections } }
unfolding add_import
added_imports [] s =
    ap (λ t. record s { file = record (s.file) { import_sections = t } })
      (sym (append-nil s.file.import_sections))
added_imports (section ∷ rest) s =
    added_imports rest (add_import section s)
    ∙ ap (λ t. record s { file = record (s.file) { import_sections = t } })
        (append_assoc s.file.import_sections (section ∷ []) rest)

pub added_relocations :
    (sections : List RelocationSection) (s : Loading)
    → added_all add_relocation sections s ≡ record s {
      file = record (s.file) { relocation_sections = s.file.relocation_sections ++ sections };
    }
unfolding add_relocation
added_relocations [] s =
    ap (λ t. record s { file = record (s.file) { relocation_sections = t } })
      (sym (append-nil s.file.relocation_sections))
added_relocations (section ∷ rest) s =
    added_relocations rest (add_relocation section s)
    ∙ ap (λ t. record s { file = record (s.file) { relocation_sections = t } })
        (append_assoc s.file.relocation_sections (section ∷ []) rest)
