-- ===== src/Machine/Loader.antt =====
-- machine/loader.cc: an object file without imports goes into the memory, section by section.
pub mod Contents
use sicxe.Base.{ℕ, Option, none, some, List, [], ◌∷◌}
use sicxe.Object.{ObjectFile, TextSection}
use sicxe.Machine.Word.{trim_address}
use sicxe.Machine.Memory.{Memory, write_memory}
use sicxe.Machine.State.{Machine}

-- The loop over the text sections.
unfoldable pub load_sections : List TextSection → Memory → Memory
load_sections [] memory = memory
load_sections (section ∷ rest) memory =
    load_sections rest (write_memory memory section.address section.data_bytes)

load_without_imports : ObjectFile → Machine → Machine
unfolding load_sections
load_without_imports file m = record m {
  memory = load_sections file.text_sections m.memory;
  cpu = record (m.cpu) { program_counter = trim_address file.entry_point };
}

-- `MachineLoader::LoadObjectFile`; `none` where it returns false.
unfoldable pub load_object_file : ObjectFile → Machine → Option Machine
unfolding load_without_imports
load_object_file file m = elim file.import_sections [
  | [] ↦ some (load_without_imports file m)
  | section ∷ rest ↦ none
]
