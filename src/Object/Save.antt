-- ===== src/Object/Save.antt =====
-- common/object_file.cc: `ObjectFile::SaveFile`, as the lines that it prints.
use sicxe.Base.{
  ℕ, ◌%◌, ◌^◌, Bool, true, ◌&&◌, leb, Option, none, some, List, [], ◌∷◌, ◌++◌, length, take, map,
  if◌then◌else◌,
}
use sicxe.Base.Text.{Bytes}
use sicxe.Base.Run.{Run, value, assertion_failed}
use sicxe.Object.{TextSection, RelocationSection, ObjectFile}
use sicxe.Object.Text.{hex_padded, name_padded}

-- A line with its line feed.
abbrev pub ended : Bytes → Bytes
ended line = line ++ 10 ∷ []

unfoldable pub start_line : ObjectFile → Bytes
unfolding hex_padded name_padded
start_line file =
    72
    ∷ (name_padded file.program_name
        ++ (hex_padded 6 (file.start_address % 2 ^ 20) ++ hex_padded 6 (file.code_size % 2 ^ 20)))

abbrev pub bytes_text : List ℕ → Bytes
bytes_text [] = []
bytes_text (byte ∷ rest) = hex_padded 2 byte ++ bytes_text rest

unfoldable pub text_line : TextSection → Bytes
unfolding hex_padded
text_line section =
    let size = length section.data_bytes % 2 ^ 8 in
    84
    ∷ (hex_padded 6 (section.address % 2 ^ 24)
        ++ (hex_padded 2 size ++ bytes_text (take size section.data_bytes)))

abbrev pub exports_text : List (Bytes × ℕ) → Bytes
exports_text [] = []
exports_text ((name, address) ∷ rest) =
    name_padded name ++ (hex_padded 6 (address % 2 ^ 20) ++ exports_text rest)

abbrev pub export_line : List (Bytes × ℕ) → Bytes
export_line symbols = 68 ∷ exports_text symbols

abbrev pub imports_text : List Bytes → Bytes
imports_text [] = []
imports_text (name ∷ rest) = name_padded name ++ imports_text rest

abbrev pub import_line : List Bytes → Bytes
import_line symbols = 82 ∷ imports_text symbols

abbrev pub reference_text : Option (Bool × Bytes) → Bytes
reference_text none = []
reference_text (some (sign, name)) = (if sign then 43 else 45) ∷ name_padded name

unfoldable pub relocation_line : RelocationSection → Bytes
unfolding hex_padded name_padded
relocation_line section =
    77
    ∷ (hex_padded 6 section.address
        ++ (hex_padded 2 (section.nibbles % 2 ^ 8) ++ reference_text section.reference))

unfoldable pub end_line : ObjectFile → Bytes
unfolding hex_padded
end_line file = 69 ∷ hex_padded 6 (file.entry_point % 2 ^ 20)

-- What is printed where no assertion fails.
unfoldable pub file_lines : ObjectFile → List Bytes
unfolding start_line text_line relocation_line end_line
file_lines file =
    ended (start_line file)
    ∷ (map (λ section. ended (text_line section)) file.text_sections
        ++ (map (λ symbols. ended (export_line symbols)) file.export_sections
            ++ (map (λ symbols. ended (import_line symbols)) file.import_sections
                ++ (map (λ section. ended (relocation_line section)) file.relocation_sections
                    ++ (ended (end_line file) ∷ [])))))

-- The assertions on the sizes of names.
abbrev pub name_fits : Bytes → Bool
name_fits name = leb (length name) 6

abbrev pub all_fit {ℓ} : {A : Type ℓ} → (A → Bool) → List A → Bool
all_fit test [] = true
all_fit test (x ∷ rest) = test x && all_fit test rest

abbrev pub reference_fits : RelocationSection → Bool
reference_fits section = elim (section.reference) [
  | none ↦ true
  | some (sign, name) ↦ name_fits name
]

unfoldable pub names_fit : ObjectFile → Bool
names_fit file =
    name_fits file.program_name
    && all_fit (all_fit (λ (symbol : Bytes × ℕ). name_fits symbol.0)) file.export_sections
    && all_fit (all_fit name_fits) file.import_sections
    && all_fit reference_fits file.relocation_sections

-- `SaveFile`, where the file can be opened.
unfoldable pub save_file : ObjectFile → Run (List Bytes)
unfolding names_fit file_lines
save_file file = if names_fit file then value (file_lines file) else assertion_failed
