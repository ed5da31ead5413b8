-- ===== src/Object/Load.antt =====
-- common/object_file.cc: the sections that a line is parsed into, and `ObjectFile::LoadFile`.
pub mod Bounds
pub mod Outcome
pub mod Loop
use sicxe.Base.{
  ℕ, zero, suc, ◌+◌, ◌-◌, ◌*◌, ◌/◌, ◌%◌, ◌^◌, Bool, true, false, not, ◌&&◌, ◌||◌, ◌==◌, ltb, leb,
  Option, none, some, List, [], ◌∷◌, ◌++◌, length, drop, slice, is_empty, if◌then◌else◌,
}
use sicxe.Base.Text.{Bytes}
use sicxe.Base.Options.{◌>>=◌}
use sicxe.Base.Run.{Run, value, undefined, assertion_failed}
use sicxe.Object.{TextSection, RelocationSection, ObjectFile, cleared}
use sicxe.Object.Text.{parse_hex, parse_symbol_name}

-- `ParseHex` and `ParseSymbolName` on a part of the line.
abbrev pub hex_at : ℕ → ℕ → Bytes → Option ℕ
hex_at offset width line = parse_hex (slice offset width line) 0

abbrev pub name_at : ℕ → ℕ → Bytes → Option Bytes
name_at offset width line = parse_symbol_name (slice offset width line)

-- A test that must hold.
abbrev pub guard {ℓ} : {A : Type ℓ} → Bool → Option A → Option A
guard test next = if test then next else none

unfoldable pub parse_start_section : Bytes → ObjectFile → Option ObjectFile
unfolding parse_hex parse_symbol_name
parse_start_section line file = guard (length line == 19) (do
  name ← name_at 1 6 line
  start_address ← hex_at 7 6 line
  code_size ← hex_at 13 6 line
  some (record file { program_name = name; start_address = start_address; code_size = code_size }))

unfoldable pub parse_end_section : Bytes → ObjectFile → Option ObjectFile
unfolding parse_hex
parse_end_section line file =
    guard (length line == 7)
      (do entry_point ← hex_at 1 6 line; some (record file { entry_point = entry_point }))

-- The loop over the bytes of a text section, on the line from `9 + 2 * i` on.
unfoldable pub parse_bytes : ℕ → Bytes → Option (List ℕ)
unfolding parse_hex
parse_bytes zero line = some []
parse_bytes (suc more) line = do
  byte ← hex_at 0 2 line
  rest ← parse_bytes more (drop 2 line)
  some (byte ∷ rest)

unfoldable pub parse_text_section : Bytes → ObjectFile → Option ObjectFile
unfolding parse_bytes
parse_text_section line file = guard (leb 9 (length line)) (do
  address ← hex_at 1 6 line
  size ← hex_at 7 2 line
  guard (leb size 31 && 2 * size + 9 == length line) (do
    data_bytes ← parse_bytes size (drop 9 line)
    let section : TextSection = record { address = address; data_bytes = data_bytes }
    some (record file { text_sections = file.text_sections ++ section ∷ [] })))

-- The loop over the symbols, on the line from `12 * i + 1` on.
unfoldable pub parse_exports : ℕ → Bytes → Option (List (Bytes × ℕ))
unfolding parse_hex parse_symbol_name
parse_exports zero line = some []
parse_exports (suc more) line = do
  name ← name_at 0 6 line
  address ← hex_at 6 6 line
  rest ← parse_exports more (drop 12 line)
  some ((name, address) ∷ rest)

unfoldable pub parse_symbol_export_section : Bytes → ObjectFile → Option ObjectFile
unfolding parse_exports
parse_symbol_export_section line file = guard ((length line - 1) % 12 == 0) (do
  symbols ← parse_exports ((length line - 1) / 12) (drop 1 line)
  some (record file { export_sections = file.export_sections ++ symbols ∷ [] }))

unfoldable pub parse_imports : ℕ → Bytes → Option (List Bytes)
unfolding parse_symbol_name
parse_imports zero line = some []
parse_imports (suc more) line = do
  name ← name_at 0 6 line
  rest ← parse_imports more (drop 6 line)
  some (name ∷ rest)

unfoldable pub parse_symbol_import_section : Bytes → ObjectFile → Option ObjectFile
unfolding parse_imports
parse_symbol_import_section line file = guard ((length line - 1) % 6 == 0) (do
  symbols ← parse_imports ((length line - 1) / 6) (drop 1 line)
  some (record file { import_sections = file.import_sections ++ symbols ∷ [] }))

-- '+' and '-'.
abbrev pub parse_sign : List ℕ → Option Bool
parse_sign [] = none
parse_sign (c ∷ rest) = if c == 43 then some true else (if c == 45 then some false else none)

-- What follows the width; a line of 9 bytes has no reference.
unfoldable pub parse_reference : Bytes → Option (Option (Bool × Bytes))
unfolding parse_symbol_name
parse_reference line =
    if length line == 9
    then some none
    else (do sign ← parse_sign (slice 9 1 line); name ← name_at 10 6 line; some (some (sign, name)))

unfoldable pub parse_relocation_section : Bytes → ObjectFile → Option ObjectFile
unfolding parse_reference parse_hex
parse_relocation_section line file = guard (length line == 9 || length line == 16) (do
  address ← hex_at 1 6 line
  nibbles ← hex_at 7 2 line
  reference ← parse_reference line
  let section : RelocationSection = record {
    address = address;
    nibbles = nibbles % 2 ^ 8;
    reference = reference;
  }
  some (record file { relocation_sections = file.relocation_sections ++ section ∷ [] }))

-- The state of the loop over the lines: the file so far, and the positions of the start and the end
-- section.
pub record Loading : Type 0 where
  pub file : ObjectFile
  pub start_position : Option ℕ
  pub end_position : Option ℕ

-- No section has a position yet.
abbrev is_free : Option ℕ → Bool
is_free none = true
is_free (some line) = false

abbrev pub store_file : Loading → Option ObjectFile → Option Loading
store_file s none = none
store_file s (some file) = some (record s { file = file })

-- The branch on the type of the section; nothing is `success = false`.
unfoldable pub parse_line : Bytes → ℕ → Loading → Option Loading
unfolding parse_start_section parse_end_section parse_text_section parse_symbol_export_section
    parse_symbol_import_section parse_relocation_section
parse_line [] line s = none
parse_line (section_type ∷ rest) line s =
    let text = section_type ∷ rest in
    if section_type == 72
    then guard (is_free s.start_position) (do
      file ← parse_start_section text s.file
      some (record s { file = file; start_position = some line }))
    else (if section_type == 69
        then guard (is_free s.end_position) (do
          file ← parse_end_section text s.file
          some (record s { file = file; end_position = some line }))
        else (if section_type == 84
            then store_file s (parse_text_section text s.file)
            else (if section_type == 68
                then store_file s (parse_symbol_export_section text s.file)
                else (if section_type == 82
                    then store_file s (parse_symbol_import_section text s.file)
                    else (if section_type == 77
                        then store_file s (parse_relocation_section text s.file)
                        else none)))))

-- Without the line feed at the end.
unfoldable pub chomp : Bytes → Bytes
chomp [] = []
chomp (c ∷ []) = if c == 10 then [] else c ∷ []
chomp (c ∷ d ∷ rest) = c ∷ chomp (d ∷ rest)

-- The loop over the strings that `fgets` stores. Where a string is empty, the byte before the buffer
-- is read.
unfoldable pub load_lines : List Bytes → ℕ → Loading → Run (Option (ℕ × Loading))
unfolding chomp parse_line
load_lines [] line s = value (some (line, s))
load_lines (text ∷ rest) line s =
    let next : Run (Option (ℕ × Loading)) = elim (parse_line (chomp text) line s) [
      | none ↦ value none
      | some t ↦ load_lines rest (line + 1) t
    ] in
    if is_empty text then undefined else next

pub data LoadResult : Type 0 where
  ok : LoadResult
  open_failed : LoadResult
  invalid_format : LoadResult

-- The start section is the first line, and the end section the last one.
abbrev is_framed : ℕ → Option ℕ → Option ℕ → Bool
is_framed lines (some start) (some last) = start == 0 && last + 1 == lines
is_framed lines (some start) none = false
is_framed lines none last = false

-- What follows the loop.
unfoldable pub finish_load : Option (ℕ × Loading) → LoadResult × ObjectFile
finish_load none = (invalid_format, cleared)
finish_load (some (lines, s)) =
    if is_framed lines s.start_position s.end_position
    then (ok, s.file)
    else (invalid_format, cleared)

abbrev pub finish_run : Run (Option (ℕ × Loading)) → Run (LoadResult × ObjectFile)
finish_run (value r) = value (finish_load r)
finish_run undefined = undefined
finish_run assertion_failed = assertion_failed

-- `LoadFile`, on the strings that `fgets` stores, where the file can be opened.
unfoldable pub load_file : Bytes → Option (List Bytes) → ObjectFile → Run (LoadResult × ObjectFile)
unfolding load_lines finish_load
load_file name none file = value (open_failed, file)
load_file name (some texts) file = finish_run (
    load_lines texts 0 (record {
      file = record cleared { file_name = name };
      start_position = none;
      end_position = none;
    }))
