-- ===== src/Object/RoundTrip.antt =====
-- What `SaveFile` prints, `LoadFile` reads.
pub mod Sections
pub mod Symbols
pub mod Lines
pub mod Files
pub mod Whole
