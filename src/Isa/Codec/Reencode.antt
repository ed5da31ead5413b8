-- ===== src/Isa/Codec/Reencode.antt =====
-- The other direction: what `decode` reads is what `encode` writes, byte for byte.
use sicxe.Base.{
  ℕ, ◌*◌, ◌/◌, ◌%◌, ◌^◌, ◌<◌, bit_or, ◌≡◌, refl, true, false, not, ◌&&◌, ◌==◌, Option, some,
  Option-cases, inl, inr, Bool-cases, if◌then◌else◌, arith,
}
use sicxe.Base.Bits.{bit_or_fields}
use sicxe.Isa.{Format, f1, f2, fs34, is_fs34, Instruction, InstructionInstance}
use sicxe.Isa.Codec.{
  InsnBytes, test_bit, set_bit, find_instruction, decode, decode_operands, encode, encode_operands,
}
use sicxe.Isa.Codec.RoundTrip.{decode_found}
use sicxe.Isa.Codec.Bytes.{flag, flags_sum, index_sum, opcode_sum}

-- Four bytes of memory.
abbrev pub IsBytes : InsnBytes → Type 0
IsBytes raw = (raw.byte0 < 256) × (raw.byte1 < 256) × (raw.byte2 < 256) × (raw.byte3 < 256)

flag-bit : (m : ℕ) → m < 2 → flag (m == 1) ≡ m
flag-bit m h = ground arith

first_byte : (b : ℕ) → b < 256 → set_bit (b % 2 == 1) 0 (set_bit (test_bit b 1) 1 (b / 4 * 4)) ≡ b
first_byte b h = omega (
  arith,
  opcode_sum (test_bit b 1) (b % 2 == 1) (b / 4 * 4) (omega arith),
  flag-bit (b / 2 ^ 1 % 2) (omega arith),
  flag-bit (b % 2) (omega arith),
)

second_byte :
    (b top : ℕ)
    → b < 256
    → top ≡ b % 2 ^ 4
    → bit_or
        (set_bit
          (test_bit b 4)
          4
          (set_bit (test_bit b 5) 5 (set_bit (test_bit b 6) 6 (set_bit (test_bit b 7) 7 0))))
        top
      ≡ b
second_byte b top h t = omega (
  arith,
  flags_sum (test_bit b 7) (test_bit b 6) (test_bit b 5) (test_bit b 4) top (omega arith),
  flag-bit (b / 2 ^ 7 % 2) (omega arith),
  flag-bit (b / 2 ^ 6 % 2) (omega arith),
  flag-bit (b / 2 ^ 5 % 2) (omega arith),
  flag-bit (b / 2 ^ 4 % 2) (omega arith),
)

second_byte_s :
    (b top : ℕ) → b < 256 → top ≡ b % 2 ^ 7 → bit_or (set_bit (test_bit b 7) 7 0) top ≡ b
second_byte_s b top h t =
    omega
      (arith, index_sum (test_bit b 7) top (omega arith), flag-bit (b / 2 ^ 7 % 2) (omega arith))

-- An address put together from its bytes gives them back.
address_bytes :
    (top low : ℕ)
    → low < 256
    → let a = bit_or (top * 2 ^ 8) low in (a / 2 ^ 8 ≡ top) × (a % 2 ^ 8 ≡ low)
address_bytes top low h = omega (arith, bit_or_fields 8 top low h)

module _ (raw : InsnBytes) (h : IsBytes raw) where
  abbrev short_address : ℕ
  short_address = bit_or (raw.byte1 % 2 ^ 4 * 2 ^ 8) raw.byte2

  address_top : short_address / 2 ^ 8 % 2 ^ 4 ≡ raw.byte1 % 2 ^ 4
  address_top = omega (arith, address_bytes (raw.byte1 % 2 ^ 4) raw.byte2 h.2)

  abbrev Restored : Type 0
  Restored =
      let read = decode_operands fs34 raw in
      encode_operands (raw.byte0 / 4 * 4) read.0 (record raw { byte0 = raw.byte0 / 4 * 4 })
      ≡ (raw, some read.1)

  restored_sic : test_bit raw.byte0 1 ≡ false → (raw.byte0 % 2 == 1) ≡ false → Restored
  unfolding encode_operands decode_operands
  restored_sic n i =
      let sic = address_bytes (raw.byte1 % 2 ^ 7) raw.byte2 h.2 in
      ground
        (arith, sic, first_byte raw.byte0 h.0, second_byte_s raw.byte1 (raw.byte1 % 2 ^ 7) h.1 refl)

  restored_4 :
      (not (test_bit raw.byte0 1) && not (raw.byte0 % 2 == 1)) ≡ false
      → test_bit raw.byte1 4 ≡ true
      → Restored
  unfolding encode_operands decode_operands
  restored_4 ni e =
      let long = address_bytes short_address raw.byte3 h.3 in
      let short = address_bytes (raw.byte1 % 2 ^ 4) raw.byte2 h.2 in
      let first = first_byte raw.byte0 h.0 in
      let second = second_byte raw.byte1 (raw.byte1 % 2 ^ 4) h.1 refl in
      rw (ni, e) (ground (arith, address_top, short, long, first, second))

  restored_3 :
      (not (test_bit raw.byte0 1) && not (raw.byte0 % 2 == 1)) ≡ false
      → test_bit raw.byte1 4 ≡ false
      → Restored
  unfolding encode_operands decode_operands
  restored_3 ni e =
      let short = address_bytes (raw.byte1 % 2 ^ 4) raw.byte2 h.2 in
      let first = first_byte raw.byte0 h.0 in
      let second = second_byte raw.byte1 (raw.byte1 % 2 ^ 4) h.1 refl in
      rw (ni, e) (ground (arith, address_top, short, first, second))

  restored_fs34 : Restored
  restored_fs34 = elim (Bool-cases (not (test_bit raw.byte0 1) && not (raw.byte0 % 2 == 1))) [
    | inl ni ↦ restored_sic (ground arith) (ground arith)
    | inr ni ↦ elim (Bool-cases (test_bit raw.byte1 4)) [
      | inl e ↦ restored_4 ni e
      | inr e ↦ restored_3 ni e
    ]
  ]

restored :
    (raw : InsnBytes) (format : Format)
    → IsBytes raw
    → let opcode = if is_fs34 format then raw.byte0 / 4 * 4 else raw.byte0 in
      let read = decode_operands format raw in
      encode_operands opcode read.0 (record raw { byte0 = opcode }) ≡ (raw, some read.1)
unfolding encode_operands decode_operands
restored raw f1 h = refl
restored raw f2 h = ground (arith, bit_or_fields 4 (raw.byte1 / 2 ^ 4) (raw.byte1 % 2 ^ 4))
restored raw fs34 h = restored_fs34 raw h

-- Formats S, 3 and 4 are listed under 6-bit opcodes only.
abbrev pub IsAligned : (ℕ → Option Instruction) → Type 0
IsAligned find_opcode =
    (opcode : ℕ) (entry : Instruction)
    → find_opcode opcode ≡ some entry
    → is_fs34 entry.format ≡ true
    → opcode % 4 ≡ 0

found_opcode :
    (find_opcode : ℕ → Option Instruction) (byte0 opcode : ℕ) (entry : Instruction)
    → IsAligned find_opcode
    → find_instruction find_opcode byte0 ≡ some (opcode, entry)
    → opcode ≡ (if is_fs34 entry.format then byte0 / 4 * 4 else byte0)
unfolding find_instruction
found_opcode find_opcode byte0 opcode entry aligned h =
    ground (arith, aligned byte0 entry, aligned (byte0 / 4 * 4) entry)

encode_found :
    (find_opcode : ℕ → Option Instruction) (raw : InsnBytes) (opcode : ℕ) (entry : Instruction)
    (insn : InstructionInstance) (length : ℕ)
    → IsAligned find_opcode
    → IsBytes raw
    → find_instruction find_opcode raw.byte0 ≡ some (opcode, entry)
    → decode find_opcode raw ≡ some (insn, length)
    → encode insn raw ≡ (raw, some length)
unfolding encode
encode_found find_opcode raw opcode entry insn length aligned h e d = ground (
  arith,
  restored raw entry.format h,
  found_opcode find_opcode raw.byte0 opcode entry aligned e,
  decode_found find_opcode raw opcode entry e,
)

-- Encoding the instruction that `decode` read from four bytes writes the same bytes in place, and
-- gives the same length, if the table lists formats S, 3 and 4 under 6-bit opcodes only.
pub encode-decode :
    (find_opcode : ℕ → Option Instruction) (raw : InsnBytes) (insn : InstructionInstance)
    (length : ℕ)
    → IsAligned find_opcode
    → IsBytes raw
    → decode find_opcode raw ≡ some (insn, length)
    → encode insn raw ≡ (raw, some length)
unfolding decode
encode-decode find_opcode raw insn length aligned h d =
    elim (Option-cases (find_instruction find_opcode raw.byte0)) [
      | inl e ↦ absurd (let missing = rw (e, decode) at d in cc)
      | inr ((opcode, entry), e) ↦
          encode_found find_opcode raw opcode entry insn length aligned h e d
    ]
