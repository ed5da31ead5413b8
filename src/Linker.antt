-- ===== src/Linker.antt =====
-- linker/: the linker of object files, from the order of the files to the sections of the output.
pub mod Errors
pub mod RelocationTable
pub mod SymbolTable
pub mod Placement
pub mod Symbols
pub mod Relocations
pub mod Patch
pub mod Copy
pub mod Output
pub mod Link
