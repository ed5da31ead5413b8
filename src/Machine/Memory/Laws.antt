-- ===== src/Machine/Memory/Laws.antt =====
-- Reads after writes, and what a write leaves alone.
use sicxe.Base.{
  ℕ, ◌+◌, ◌*◌, ◌/◌, ◌%◌, ◌^◌, ◌<◌, ◌≤◌, ◌≡◌, ◌≢◌, refl, ◌∙◌, subst, List, [], ◌∷◌, All, length,
  update, update_ne, update_self, arith,
}
use mathlib.Core.Path.{ap₂}
use sicxe.Base.Bits.{bit_or_fields}
use sicxe.Machine.Word.{trim_address}
use sicxe.Machine.Memory.{
  Memory, read_memory, read_memory_word, write_memory, write_memory_byte, write_memory_word,
}

-- Every cell holds a byte.
abbrev pub IsByteMemory : Memory → Type 0
IsByteMemory memory = (a : ℕ) → memory a < 2 ^ 8

pub write_memory_byte-IsByteMemory :
    (memory : Memory) (address value : ℕ)
    → IsByteMemory memory
    → IsByteMemory (write_memory_byte memory address value)
unfolding write_memory_byte
write_memory_byte-IsByteMemory memory address value h a = ground (arith, h a)

pub write_memory_word-IsByteMemory :
    (memory : Memory) (address value : ℕ)
    → IsByteMemory memory
    → IsByteMemory (write_memory_word memory address value)
unfolding write_memory_word
write_memory_word-IsByteMemory memory address value h a = ground (arith, h a)

pub write_memory-IsByteMemory :
    (memory : Memory) (address : ℕ) (bytes : List ℕ)
    → IsByteMemory memory
    → All (λ b. b < 2 ^ 8) bytes
    → IsByteMemory (write_memory memory address bytes)
unfolding write_memory
write_memory-IsByteMemory memory address [] h bs = h
write_memory-IsByteMemory memory address (b ∷ rest) h bs =
    write_memory-IsByteMemory (update memory (trim_address address) b) _ rest
      (λ a. ground (arith, h a, bs)) bs.1

-- A word is its three bytes, the most significant first.
pub read_memory_word_sum :
    (memory : Memory) (address : ℕ)
    → IsByteMemory memory
    → read_memory_word memory address
      ≡ memory (address % 2 ^ 20) * 2 ^ 16
        + memory ((address + 1) % 2 ^ 20) * 2 ^ 8
        + memory ((address + 2) % 2 ^ 20)
unfolding read_memory_word trim_address
read_memory_word_sum memory address h =
    let first = address % 2 ^ 20 in
    let second = (address + 1) % 2 ^ 20 in
    let third = (address + 2) % 2 ^ 20 in
    let to_second : (first + 1) % 2 ^ 20 ≡ second = omega arith in
    let to_third : (second + 1) % 2 ^ 20 ≡ third = omega arith in
    rw (to_second, to_third)
      (ground (
        arith,
        h third,
        bit_or_fields 8 (memory first) (memory second) (h second),
        bit_or_fields 8 (memory first * 2 ^ 8 + memory second) (memory third) (h third),
      ))

pub read_memory_word-lt :
    (memory : Memory) (address : ℕ) → IsByteMemory memory → read_memory_word memory address < 2 ^ 24
read_memory_word-lt memory address h = omega (
  arith,
  read_memory_word_sum memory address h,
  h (address % 2 ^ 20),
  h ((address + 1) % 2 ^ 20),
  h ((address + 2) % 2 ^ 20),
)

-- A word that was written is read back, less what lies above 24 bits.
pub read_memory_word-write_memory_word :
    (memory : Memory) (address value : ℕ)
    → read_memory_word (write_memory_word memory address value) address ≡ value % 2 ^ 24
unfolding read_memory_word write_memory_word trim_address
read_memory_word-write_memory_word memory address value =
    let high = value / 2 ^ 16 % 2 ^ 8 in
    let middle = value / 2 ^ 8 % 2 ^ 8 in
    ground
      (arith, bit_or_fields 8 high middle, bit_or_fields 8 (high * 2 ^ 8 + middle) (value % 2 ^ 8))

-- Storing a word changes its three bytes only.
pub write_memory_word_outside :
    (memory : Memory) (address value j : ℕ)
    → j ≢ address % 2 ^ 20
    → j ≢ (address + 1) % 2 ^ 20
    → j ≢ (address + 2) % 2 ^ 20
    → write_memory_word memory address value j ≡ memory j
unfolding write_memory_word trim_address
write_memory_word_outside memory address value j p q r = ground arith

pub write_memory_outside :
    (bytes : List ℕ) (memory : Memory) (address j : ℕ)
    → ((i : ℕ) → i < length bytes → j ≢ (address + i) % 2 ^ 20)
    → write_memory memory address bytes j ≡ memory j
unfolding write_memory trim_address
write_memory_outside [] memory address j h = refl
write_memory_outside (b ∷ rest) memory address j h =
    write_memory_outside rest _ (address % 2 ^ 20 + 1) j
      (λ i p. subst (λ t. j ≢ t) (later i) (h (i + 1) (omega arith)))
    ∙ update_ne memory (address % 2 ^ 20) j b (subst (λ t. j ≢ t) first (h 0 (omega arith)))
  where
    later : (i : ℕ) → (address + (i + 1)) % 2 ^ 20 ≡ (address % 2 ^ 20 + 1 + i) % 2 ^ 20
    later i = omega arith

    first : (address + 0) % 2 ^ 20 ≡ address % 2 ^ 20
    first = omega arith

-- Up to 2 ^ 20 bytes that were written to memory are read back, wherever they start.
pub read_memory-write_memory :
    (bytes : List ℕ) (memory : Memory) (address : ℕ)
    → length bytes ≤ 2 ^ 20
    → read_memory (write_memory memory address bytes) address (length bytes) ≡ bytes
unfolding read_memory write_memory
read_memory-write_memory [] memory address h = refl
read_memory-write_memory (b ∷ rest) memory address h =
    let next = update memory (trim_address address) b in
    ap₂ ◌∷◌
      (write_memory_outside rest next (trim_address address + 1) (trim_address address)
          (λ i p. unfold trim_address in omega arith)
        ∙ update_self memory (trim_address address) b)
      (read_memory-write_memory rest next (trim_address address + 1) (omega arith))
