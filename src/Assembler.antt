-- ===== src/Assembler.antt =====
-- The parts of the assembler (src/assembler).
pub mod SymbolTable
pub mod BlockTable
pub mod Outcome
pub mod Token
pub mod Errors
pub mod Expression
pub mod Node
pub mod Parser
pub mod Tokenizer
