-- ===== src/Examples/Linking.antt =====
-- Loading an object file, and patching a text section.
use sicxe.Base.{ℕ, ◌≡◌, ◌≢◌, refl, true, false, none, some, [], ◌∷◌, arith}
use sicxe.Base.Int.{◌+ℤ◌, pos}
use sicxe.Base.Keys.{number_key}
use sicxe.Base.Maps.{find, insert, IsSorted}
use sicxe.Object.{ObjectFile, TextSection}
use sicxe.Machine.Word.{trim_address}
use sicxe.Machine.Memory.{read_memory}
use sicxe.Machine.State.{Machine}
use sicxe.Machine.Loader.{load_object_file, load_sections}
use sicxe.Machine.Loader.Contents.{load_object_file_read}
use sicxe.Linker.RelocationTable.{
  Entry, simple, symbol, find_relocation, add_relocation_simple, add_relocation_symbol,
}
use sicxe.Linker.RelocationTable.Entries.{
  Extended, add_relocation_simple_lem, add_relocation_symbol_lem,
}
use sicxe.Linker.Patch.{patch_text_section}
use sicxe.Linker.Patch.Field.{AsSpecified, patch_text_section_lem}
use sicxe.Examples.Fixtures.{start}

abbrev pub three_bytes : TextSection
three_bytes = record { address = 0x100; data_bytes = 0x17 ∷ 0x20 ∷ 0x0f ∷ [] }

abbrev pub two_bytes : TextSection
two_bytes = record { address = 0x103; data_bytes = 1 ∷ 2 ∷ [] }

abbrev pub object : ObjectFile
object = record {
  file_name = 97 ∷ 46 ∷ 111 ∷ [];
  program_name = 65 ∷ [];
  start_address = 0x100;
  code_size = 5;
  entry_point = 0x100;
  text_sections = three_bytes ∷ two_bytes ∷ [];
  export_sections = [];
  import_sections = [];
  relocation_sections = [];
}

abbrev loaded_machine : Machine
loaded_machine = record start {
  cpu = record (start.cpu) { program_counter = 0x100 };
  memory = load_sections (three_bytes ∷ two_bytes ∷ []) start.memory;
}

loads : load_object_file object start ≡ some loaded_machine
unfolding load_object_file trim_address
loads = refl

load_object_file_read_example : read_memory loaded_machine.memory 0x100 3 ≡ 0x17 ∷ 0x20 ∷ 0x0f ∷ []
load_object_file_read_example =
    load_object_file_read object start loaded_machine [] three_bytes (two_bytes ∷ []) loads refl
      (omega arith) (λ i j p q. omega arith, tt)

abbrev simple_entry : Entry
simple_entry = record { type_id = simple; nibbles = 5; symbols = [] }

adds : add_relocation_simple 9 5 [] ≡ some ((9, simple_entry) ∷ [])
unfolding add_relocation_simple find insert
adds = refl

add_relocation_simple_lem_example :
    (find_relocation 9 [] ≡ none)
    × (find_relocation 9 ((9, simple_entry) ∷ []) ≡ some simple_entry)
    × ((other : ℕ)
        → other ≢ 9
        → find_relocation other ((9, simple_entry) ∷ []) ≡ find_relocation other [])
    × IsSorted {K = ℕ} {V = Entry} ((9, simple_entry) ∷ [])
add_relocation_simple_lem_example =
    add_relocation_simple_lem 9 5 [] ((9, simple_entry) ∷ []) tt adds

-- The three half bytes 0x00f with 0x100 added to them.
patch_text_section_lem_example :
    AsSpecified 0x200f 0x1000 2
      (0x17 ∷ [])
      []
      (pos 0x10f)
      (patch_text_section 0x101 3 (pos 0x100) three_bytes)
unfolding ◌+ℤ◌
patch_text_section_lem_example =
    patch_text_section_lem 0x101 3 (pos 0x100) three_bytes (omega arith) (omega arith) (omega arith)
      (omega arith) (omega arith) (omega arith)

abbrev symbol_entry : Entry
symbol_entry = record {
  type_id = symbol;
  nibbles = 6;
  symbols = (true, 66 ∷ []) ∷ (false, 65 ∷ []) ∷ [];
}

abbrev first_symbol : Entry
first_symbol = record { type_id = symbol; nibbles = 6; symbols = (true, 66 ∷ []) ∷ [] }

adds_symbol :
    add_relocation_symbol 9 6 false (65 ∷ []) ((9, first_symbol) ∷ [])
    ≡ some ((9, symbol_entry) ∷ [])
unfolding add_relocation_symbol find insert
adds_symbol = refl

add_relocation_symbol_lem_example :
    (entry : Entry) × Extended 6 false (65 ∷ []) (find_relocation 9 ((9, first_symbol) ∷ [])) entry
    × (find_relocation 9 ((9, symbol_entry) ∷ []) ≡ some entry)
    × ((other : ℕ)
        → other ≢ 9
        → find_relocation other ((9, symbol_entry) ∷ [])
          ≡ find_relocation other ((9, first_symbol) ∷ []))
    × IsSorted {K = ℕ} {V = Entry} ((9, symbol_entry) ∷ [])
add_relocation_symbol_lem_example =
    add_relocation_symbol_lem 9 6 false (65 ∷ []) ((9, first_symbol) ∷ []) ((9, symbol_entry) ∷ [])
      (omega arith) adds_symbol
