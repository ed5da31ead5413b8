-- ===== src/Linker/Output.antt =====
-- linker/linker.cc: `Linker::WriteOutputSymbols`. A section that is not there yet is an empty one:
-- the code makes a section right before its first symbol goes in.
pub mod Chunks
use sicxe.Base.{ℕ, leb, List, [], ◌∷◌, ◌++◌, length, if◌then◌else◌}
use sicxe.Base.Text.{Bytes}
use sicxe.Linker.SymbolTable.{SymbolTypeId, undefined, defined, SymbolEntry, SymbolTable}

abbrev pub max_symbols_per_export_section : ℕ
max_symbols_per_export_section = 6

abbrev pub max_symbols_per_import_section : ℕ
max_symbols_per_import_section = 12

-- The finished sections, and the one that is being filled.
pub record Sections {ℓ} (A : Type ℓ) : Type ℓ where
  pub finished : List (List A)
  pub current : List A

-- One symbol more; a section that is full is finished.
unfoldable pub push {ℓ} : {A : Type ℓ} → ℕ → A → Sections A → Sections A
push most symbol s =
    let current = s.current ++ symbol ∷ [] in
    if leb most (length current)
    then record { finished = s.finished ++ current ∷ []; current = [] }
    else record s { current = current }

abbrev flushed {ℓ} : {A : Type ℓ} → List (List A) → List A → List (List A)
flushed finished [] = finished
flushed finished (symbol ∷ rest) = finished ++ (symbol ∷ rest) ∷ []

-- What follows the loop.
abbrev pub flush {ℓ} : {A : Type ℓ} → Sections A → List (List A)
flush s = flushed s.finished s.current

pub record OutputSymbols : Type 0 where
  pub imports : Sections Bytes
  pub exports : Sections (Bytes × ℕ)

-- The body of the loop.
unfoldable pub write_symbol : SymbolTypeId → Bytes → ℕ → OutputSymbols → OutputSymbols
unfolding push
write_symbol undefined name address out = record out {
  imports = push max_symbols_per_import_section name out.imports;
}
write_symbol defined name address out = record out {
  exports = push max_symbols_per_export_section (name, address) out.exports;
}

unfoldable pub write_symbols : SymbolTable → OutputSymbols → OutputSymbols
unfolding write_symbol
write_symbols [] out = out
write_symbols ((name, entry) ∷ rest) out =
    write_symbols rest (write_symbol entry.type_id name entry.address out)

-- `WriteOutputSymbols`: the import and the export sections of the output, which were those given.
unfoldable pub write_output_symbols :
    SymbolTable
    → List (List Bytes)
    → List (List (Bytes × ℕ))
    → List (List Bytes) × List (List (Bytes × ℕ))
unfolding write_symbols
write_output_symbols table imports exports =
    let out = write_symbols table (record {
      imports = record { finished = imports; current = [] };
      exports = record { finished = exports; current = [] };
    }) in
    (flush out.imports, flush out.exports)
