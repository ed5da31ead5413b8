-- ===== src/Machine/Loader/Contents.antt =====
-- What a loaded machine holds.
use sicxe.Base.{
  ℕ, zero, suc, ◌+◌, ◌%◌, ◌^◌, ◌<◌, ◌≤◌, ◌≡◌, ◌≢◌, refl, sym, ap, subst, ◌∙◌, some, List, [], ◌∷◌,
  ◌++◌, All, length, arith,
}
use mathlib.Core.Path.{ap₂}
use sicxe.Object.{ObjectFile, TextSection}
use sicxe.Machine.Word.{trim_address}
use sicxe.Machine.Word.Laws.{trim_address-lt}
use sicxe.Machine.Memory.{Memory, read_memory, write_memory}
use sicxe.Machine.Memory.Laws.{
  IsByteMemory, write_memory-IsByteMemory, write_memory_outside, read_memory-write_memory,
}
use sicxe.Machine.State.{Machine, IsValid}
use sicxe.Machine.Loader.{load_sections, load_without_imports, load_object_file}

-- The data of a section are bytes.
abbrev pub HasBytes : TextSection → Type 0
HasBytes section = All (λ b. b < 2 ^ 8) section.data_bytes

-- No cell of the second section is one of the first.
abbrev pub Apart : TextSection → TextSection → Type 0
Apart section other =
    (i j : ℕ)
    → i < length section.data_bytes
    → j < length other.data_bytes
    → (section.address + i) % 2 ^ 20 ≢ (other.address + j) % 2 ^ 20

load_sections-IsByteMemory :
    (sections : List TextSection) (memory : Memory)
    → IsByteMemory memory
    → All HasBytes sections
    → IsByteMemory (load_sections sections memory)
unfolding load_sections
load_sections-IsByteMemory [] memory h v = h
load_sections-IsByteMemory (section ∷ rest) memory h v =
    load_sections-IsByteMemory rest (write_memory memory section.address section.data_bytes)
      (write_memory-IsByteMemory memory section.address section.data_bytes h v.0) v.1

loaded :
    (file : ObjectFile) (m m' : Machine)
    → load_object_file file m ≡ some m'
    → m' ≡ load_without_imports file m
unfolding load_object_file
loaded file m m' e = ground arith

-- A machine that was valid is valid after loading, if the sections hold bytes.
pub load_object_file-IsValid :
    (file : ObjectFile) (m m' : Machine)
    → IsValid m
    → All HasBytes file.text_sections
    → load_object_file file m ≡ some m'
    → IsValid m'
unfolding load_without_imports
load_object_file-IsValid file m m' v h e = subst IsValid (sym (loaded file m m' e)) (record {
  counter_fits = trim_address-lt file.entry_point;
  registers_fit = v.registers_fit;
  float_fits = v.float_fits;
  link_fits = v.link_fits;
  target_fits = v.target_fits;
  memory_fits = load_sections-IsByteMemory file.text_sections m.memory v.memory_fits h;
})

read_memory_cong :
    (n address : ℕ) (memory other : Memory)
    → ((i : ℕ) → i < n → memory ((address + i) % 2 ^ 20) ≡ other ((address + i) % 2 ^ 20))
    → read_memory memory address n ≡ read_memory other address n
unfolding read_memory trim_address
read_memory_cong zero address memory other h = refl
read_memory_cong (suc n) address memory other h =
    ap₂ ◌∷◌ (subst (λ t. memory t ≡ other t) first (h 0 (omega arith))) (
      read_memory_cong n (address % 2 ^ 20 + 1) memory other
        λ i p. subst (λ t. memory t ≡ other t) (next i) (h (i + 1) (omega arith)))
  where
    first : (address + 0) % 2 ^ 20 ≡ address % 2 ^ 20
    first = omega arith

    next : (i : ℕ) → (address + (i + 1)) % 2 ^ 20 ≡ (address % 2 ^ 20 + 1 + i) % 2 ^ 20
    next i = omega arith

load_sections_outside :
    (sections : List TextSection) (memory : Memory) (section : TextSection) (i : ℕ)
    → i < length section.data_bytes
    → All (Apart section) sections
    → load_sections sections memory ((section.address + i) % 2 ^ 20)
      ≡ memory ((section.address + i) % 2 ^ 20)
unfolding load_sections
load_sections_outside [] memory section i p h = refl
load_sections_outside (other ∷ rest) memory section i p h =
    load_sections_outside rest (write_memory memory other.address other.data_bytes) section i p h.1
    ∙ write_memory_outside other.data_bytes memory other.address ((section.address + i) % 2 ^ 20)
        (λ j q. h.0 i j p q)

load_sections_read :
    (before : List TextSection) (section : TextSection) (after : List TextSection) (memory : Memory)
    → length section.data_bytes ≤ 2 ^ 20
    → All (Apart section) after
    → read_memory
        (load_sections (before ++ section ∷ after) memory)
        section.address
        (length section.data_bytes)
      ≡ section.data_bytes
unfolding load_sections
load_sections_read [] section after memory h apart =
    let written = write_memory memory section.address section.data_bytes in
    read_memory_cong (length section.data_bytes) section.address (load_sections after written)
      written (λ i p. load_sections_outside after written section i p apart)
    ∙ read_memory-write_memory section.data_bytes memory section.address h
load_sections_read (first ∷ before) section after memory h apart =
    load_sections_read before section after (write_memory memory first.address first.data_bytes) h
      apart

-- After loading, the memory holds the data of every section whose cells no later section takes, if
-- it is not longer than the memory.
pub load_object_file_read :
    (file : ObjectFile) (m m' : Machine) (before : List TextSection) (section : TextSection)
    (after : List TextSection)
    → load_object_file file m ≡ some m'
    → file.text_sections ≡ before ++ section ∷ after
    → length section.data_bytes ≤ 2 ^ 20
    → All (Apart section) after
    → read_memory m'.memory section.address (length section.data_bytes) ≡ section.data_bytes
unfolding load_without_imports
load_object_file_read file m m' before section after e sections h apart =
    let reads =
      λ (memory : Memory). read_memory memory section.address (length section.data_bytes) in
    ap (λ t. reads t.memory) (loaded file m m' e)
    ∙ ap (λ t. reads (load_sections t m.memory)) sections
    ∙ load_sections_read before section after m.memory h apart
