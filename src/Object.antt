-- ===== src/Object.antt =====
-- common/object_file.h: the sections of an object file. The size of a text section is that of its
-- data. Strings are lists of bytes.
pub mod Text
pub mod Load
pub mod Save
pub mod RoundTrip
use sicxe.Base.{ℕ, Bool, Option, List, []}
use sicxe.Base.Text.{Bytes}

-- `ObjectFile::TextSection`.
pub record TextSection : Type 0 where
  pub address : ℕ
  pub data_bytes : List ℕ

-- `ObjectFile::RelocationSection`: `sign` (true for plus) and `symbol_name` have values only where
-- `type` is true, which is where there is a reference.
pub record RelocationSection : Type 0 where
  pub address : ℕ
  pub nibbles : ℕ
  pub reference : Option (Bool × Bytes)

pub record ObjectFile : Type 0 where
  pub file_name : Bytes
  pub program_name : Bytes
  pub start_address : ℕ
  pub code_size : ℕ
  pub entry_point : ℕ
  pub text_sections : List TextSection
  pub export_sections : List (List (Bytes × ℕ))
  pub import_sections : List (List Bytes)
  pub relocation_sections : List RelocationSection

-- The constructor, and `ObjectFile::Clear`.
unfoldable pub cleared : ObjectFile
cleared = record {
  file_name = [];
  program_name = [];
  start_address = 0;
  code_size = 0;
  entry_point = 0;
  text_sections = [];
  export_sections = [];
  import_sections = [];
  relocation_sections = [];
}
