-- ===== src/Examples.antt =====
-- The theorems at concrete inputs, on which their hypotheses hold.
mod Fixtures
pub mod Codec
pub mod Instructions
pub mod Machines
pub mod Linking
pub mod Links
pub mod Expressions
pub mod Blocks
pub mod Parsing
