-- ===== src/Machine/Memory.antt =====
-- The memory of machine/machine.cc: 2 ^ 20 bytes, every address taken modulo that.
pub mod Laws
use sicxe.Base.{ℕ, zero, suc, ◌+◌, ◌*◌, ◌/◌, ◌%◌, ◌^◌, bit_or, List, [], ◌∷◌, update}
use sicxe.Machine.Word.{trim_address}

abbrev pub Memory : Type 0
Memory = ℕ → ℕ

-- `ReadMemory`, and with size 6 `ReadMemoryFloat`.
unfoldable pub read_memory : Memory → ℕ → ℕ → List ℕ
read_memory memory address zero = []
read_memory memory address (suc size) =
    memory (trim_address address) ∷ read_memory memory (trim_address address + 1) size

unfoldable pub read_memory_byte : Memory → ℕ → ℕ
read_memory_byte memory address = memory (trim_address address)

unfoldable pub read_memory_word : Memory → ℕ → ℕ
read_memory_word memory address =
    let first = trim_address address in
    let second = trim_address (first + 1) in
    let third = trim_address (second + 1) in
    bit_or (bit_or (memory first * 2 ^ 8) (memory second) * 2 ^ 8) (memory third)

-- `WriteMemory` of a whole buffer, and `WriteMemoryFloat` of six bytes.
unfoldable pub write_memory : Memory → ℕ → List ℕ → Memory
write_memory memory address [] = memory
write_memory memory address (byte ∷ rest) =
    write_memory (update memory (trim_address address) byte) (trim_address address + 1) rest

-- The `uint8` parameter drops the upper bits of what the callers pass.
unfoldable pub write_memory_byte : Memory → ℕ → ℕ → Memory
write_memory_byte memory address value = update memory (trim_address address) (value % 2 ^ 8)

unfoldable pub write_memory_word : Memory → ℕ → ℕ → Memory
write_memory_word memory address value =
    let first = trim_address address in
    let second = trim_address (first + 1) in
    let third = trim_address (second + 1) in
    let memory1 = update memory first (value / 2 ^ 16 % 2 ^ 8) in
    let memory2 = update memory1 second (value / 2 ^ 8 % 2 ^ 8) in
    update memory2 third (value % 2 ^ 8)
