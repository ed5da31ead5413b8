-- ===== src/Machine.antt =====
-- machine/: the SIC/XE computer. Words, memory, devices and state; one instruction at a time.
pub mod Word
pub mod Memory
pub mod Float
pub mod Device
pub mod State
pub mod Address
pub mod Logic
pub mod Execute
pub mod Loader
