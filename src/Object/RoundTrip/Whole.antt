-- ===== src/Object/RoundTrip/Whole.antt =====
-- `SaveFile` and then `LoadFile`.
use sicxe.Base.{
  ℕ, ◌+◌, ◌≡◌, refl, ap, ◌∙◌, Bool, true, ◌==◌, Option, none, some, List, [], ◌∷◌, ◌++◌, All, map,
  length, arith,
}
use sicxe.Base.Text.{Bytes}
use sicxe.Base.Options.{known}
use sicxe.Base.Run.{value}
use sicxe.Object.{RelocationSection, ObjectFile, cleared}
use sicxe.Object.Text.Laws.{IsName}
use sicxe.Object.Load.{Loading, parse_line, load_lines, finish_load, finish_run, ok, load_file}
use sicxe.Object.Save.{
  ended, start_line, text_line, export_line, import_line, relocation_line, end_line, file_lines,
  name_fits, all_fit, reference_fits, names_fit, save_file,
}
use sicxe.Object.RoundTrip.Sections.{parse_start_section_lem, parse_end_section_lem}
use sicxe.Object.RoundTrip.Symbols.{IsExport, IsReference}
use sicxe.Object.RoundTrip.Lines.{load_lines_end, load_lines-ended, load_lines-added}
use sicxe.Object.RoundTrip.Files.{
  IsText, IsRelocation, IsSavable, add_text, add_export, add_import, add_relocation,
  parse_line-text, parse_line-export, parse_line-import, parse_line-relocation, added_texts,
  added_exports, added_imports, added_relocations,
}

all_fit_lem {ℓ} :
    {A : Type ℓ} (P : A → Type 0) (test : A → Bool) (xs : List A)
    → ((x : A) → P x → test x ≡ true)
    → All P xs
    → all_fit test xs ≡ true
all_fit_lem P test [] h v = refl
all_fit_lem P test (x ∷ rest) h v = rw (h x v.0) (all_fit_lem P test rest h v.1)

name_fits_lem : (name : Bytes) → IsName name → name_fits name ≡ true
name_fits_lem name v = ground (arith, v.3)

reference_fits_lem :
    (section : RelocationSection) → IsRelocation section → reference_fits section ≡ true
reference_fits_lem section v = fits section.reference v.2
  where
    fits :
        (reference : Option (Bool × Bytes))
        → IsReference reference
        → (elim reference [ none ↦ true | some (sign, name) ↦ name_fits name ]) ≡ true
    fits none w = refl
    fits (some (sign, name)) w = name_fits_lem name w

IsSavable-names_fit : (file : ObjectFile) → IsSavable file → names_fit file ≡ true
unfolding names_fit
IsSavable-names_fit file v =
    let exports =
      all_fit_lem (All IsExport) (all_fit (λ (symbol : Bytes × ℕ). name_fits symbol.0))
        file.export_sections
        (λ symbols.
          all_fit_lem IsExport (λ (symbol : Bytes × ℕ). name_fits symbol.0) symbols
            (λ symbol w. name_fits_lem symbol.0 w.0))
        v.5 in
    let imports =
      all_fit_lem (All IsName) (all_fit name_fits) file.import_sections
        (λ names. all_fit_lem IsName name_fits names name_fits_lem) v.6 in
    let relocations =
      all_fit_lem IsRelocation reference_fits file.relocation_sections reference_fits_lem v.7 in
    let named = name_fits_lem file.program_name v.0 in
    simp (named, exports, imports, relocations) refl

loaded : ℕ → Bytes → ObjectFile → Loading
loaded lines name saved = record {
  file = record saved { file_name = name };
  start_position = some 0;
  end_position = some lines;
}

parse_line-start :
    (saved : ObjectFile) (line : ℕ) (s : Loading)
    → IsSavable saved
    → s.start_position ≡ none
    → parse_line (start_line saved) line s
      ≡ some (record s {
        file = record (s.file) {
          program_name = saved.program_name;
          start_address = saved.start_address;
          code_size = saved.code_size;
        };
        start_position = some line;
      })
unfolding parse_line start_line
parse_line-start saved line s v e =
    rw e (known _ (parse_start_section_lem s.file saved v.0 v.1 v.2) refl)

parse_line-end :
    (saved : ObjectFile) (line : ℕ) (s : Loading)
    → IsSavable saved
    → s.end_position ≡ none
    → parse_line (end_line saved) line s
      ≡ some (record s {
        file = record (s.file) { entry_point = saved.entry_point };
        end_position = some line;
      })
unfolding parse_line end_line
parse_line-end saved line s v e = rw e (known _ (parse_end_section_lem s.file saved v.3) refl)

load_lines-file_lines :
    (name : Bytes) (saved : ObjectFile)
    → IsSavable saved
    → (lines : ℕ) × (load_lines (file_lines saved) 0 (record {
      file = record cleared { file_name = name };
      start_position = none;
      end_position = none;
    })
        ≡ value (some (lines + 1, loaded lines name saved)))
unfolding file_lines loaded cleared
load_lines-file_lines name saved v =
    let start : Loading = record {
      file = record cleared { file_name = name };
      start_position = none;
      end_position = none;
    } in
    let first : Loading = record {
      file = record cleared {
        file_name = name;
        program_name = saved.program_name;
        start_address = saved.start_address;
        code_size = saved.code_size;
      };
      start_position = some 0;
      end_position = none;
    } in
    let texts : Loading = record first {
      file = record (first.file) { text_sections = saved.text_sections };
    } in
    let exports : Loading = record texts {
      file = record (texts.file) { export_sections = saved.export_sections };
    } in
    let imports : Loading = record exports {
      file = record (exports.file) { import_sections = saved.import_sections };
    } in
    let last : Loading = record imports {
      file = record (imports.file) { relocation_sections = saved.relocation_sections };
    } in
    let end = ended (end_line saved) ∷ [] in
    let after_imports =
      map (λ section. ended (relocation_line section)) saved.relocation_sections ++ end in
    let after_exports =
      map (λ symbols. ended (import_line symbols)) saved.import_sections ++ after_imports in
    let after_texts =
      map (λ symbols. ended (export_line symbols)) saved.export_sections ++ after_exports in
    let after_first =
      map (λ section. ended (text_line section)) saved.text_sections ++ after_texts in
    let lines =
      length saved.relocation_sections
      + (length saved.import_sections
          + (length saved.export_sections + (length saved.text_sections + 1))) in
    (
      lines,
      load_lines-ended (start_line saved) after_first 0 start first
            (parse_line-start saved 0 start v refl)
          ∙ load_lines-added IsText text_line add_text parse_line-text saved.text_sections
              after_texts 1 first texts v.4 (added_texts saved.text_sections first)
          ∙ load_lines-added (All IsExport) export_line add_export parse_line-export
              saved.export_sections after_exports (length saved.text_sections + 1) texts exports v.5
              (added_exports saved.export_sections texts)
          ∙ load_lines-added (All IsName) import_line add_import parse_line-import
              saved.import_sections after_imports
              (length saved.export_sections + (length saved.text_sections + 1)) exports imports v.6
              (added_imports saved.import_sections exports)
          ∙ load_lines-added IsRelocation relocation_line add_relocation parse_line-relocation
              saved.relocation_sections end
              (length saved.import_sections
                + (length saved.export_sections + (length saved.text_sections + 1)))
              imports last v.7 (added_relocations saved.relocation_sections imports)
          ∙ load_lines-ended (end_line saved) [] lines last (loaded lines name saved)
              (parse_line-end saved lines last v refl)
          ∙ load_lines_end (lines + 1) (loaded lines name saved),
    )

same_number : (n : ℕ) → (n == n) ≡ true
same_number n = ground arith

-- An object file can be saved if its names have one to six characters of symbols and no space at the
-- end, the addresses that are masked have 20 bits and those of sections 24, text sections have at most
-- 31 bytes, and widths are bytes. It is printed to lines, and where `fgets` gives these lines back,
-- they are loaded to the same object file under the name of the file that was read, whatever was
-- there before.
pub load_file-save_file :
    (name : Bytes) (saved old : ObjectFile)
    → IsSavable saved
    → (lines : List Bytes) × (save_file saved ≡ value lines)
      × (load_file name (some lines) old ≡ value (ok, record saved { file_name = name }))
unfolding save_file load_file finish_load loaded
load_file-save_file name saved old v =
    let (lines, path) = load_lines-file_lines name saved v in
    let framed = same_number (lines + 1) in
    (file_lines saved, rw (IsSavable-names_fit saved v) refl, ap finish_run path ∙ rw framed refl)
