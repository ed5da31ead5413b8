-- ===== src/Isa/Codec.antt =====
-- common/format_util.cc: decoding an instruction from its first four bytes, and encoding it back.
pub mod Bytes
pub mod RoundTrip
pub mod Reencode
use sicxe.Base.{
  ℕ, ◌*◌, ◌/◌, ◌%◌, ◌^◌, bit_or, Bool, false, not, ◌&&◌, Option, none, some, ◌==◌, if◌then◌else◌,
}
use mathlib.Core.Option
use sicxe.Isa.{Format, f1, f2, fs34, is_fs34, Instruction, InstructionInstance}
use sicxe.Isa.{Operands, none_f1, of_f2, of_fs34, OperandsFs34}

-- `raw_insn_data`: the bytes of one instruction, as many of them as it has.
pub record InsnBytes : Type 0 where
  pub byte0 : ℕ
  pub byte1 : ℕ
  pub byte2 : ℕ
  pub byte3 : ℕ

-- `((v >> k) & 0x1) == 1`
abbrev pub test_bit : ℕ → ℕ → Bool
test_bit v k = (v / 2 ^ k) % 2 == 1

-- The table entry that the first byte stands for, with the opcode under which it was found:
-- a 6-bit opcode of format S, 3 or 4 goes before an 8-bit one.
unfoldable pub find_instruction : (ℕ → Option Instruction) → ℕ → Option (ℕ × Instruction)
find_instruction find_opcode byte0 =
    let opcode_short = byte0 / 4 * 4 in
    let long = Option.map (λ insn. (byte0, insn)) (find_opcode byte0) in
    elim (find_opcode opcode_short) [
      | none ↦ long
      | some insn ↦ if is_fs34 insn.format then some (opcode_short, insn) else long
    ]

pub decode_fs34 : InsnBytes → OperandsFs34 × ℕ
decode_fs34 raw =
    let n = test_bit raw.byte0 1 in
    let i = raw.byte0 % 2 == 1 in
    let x = test_bit raw.byte1 7 in
    let e = test_bit raw.byte1 4 in
    let address = bit_or (raw.byte1 % 2 ^ 4 * 2 ^ 8) raw.byte2 in
    if not n && not i
    then (
      record {
        n = n;
        i = i;
        x = x;
        b = false;
        p = false;
        e = false;
        address = bit_or (raw.byte1 % 2 ^ 7 * 2 ^ 8) raw.byte2;
      },
      3,
    )
    else (
      record {
        n = n;
        i = i;
        x = x;
        b = test_bit raw.byte1 6;
        p = test_bit raw.byte1 5;
        e = e;
        address = if e then bit_or (address * 2 ^ 8) raw.byte3 else address;
      },
      if e then 4 else 3,
    )

-- The operands and the decoded length.
unfoldable pub decode_operands : Format → InsnBytes → Operands × ℕ
unfolding decode_fs34
decode_operands f1 raw = (none_f1, 1)
decode_operands f2 raw = (of_f2 (record { r1 = raw.byte1 / 2 ^ 4; r2 = raw.byte1 % 2 ^ 4 }), 2)
decode_operands fs34 raw = let (o, length) = decode_fs34 raw in (of_fs34 o, length)

-- `FormatUtil::Decode`: the instance and its length, or `none` if there is no such instruction.
unfoldable pub decode : (ℕ → Option Instruction) → InsnBytes → Option (InstructionInstance × ℕ)
decode find_opcode raw = elim (find_instruction find_opcode raw.byte0) [
  | none ↦ none
  | some (opcode, insn) ↦
      let (operands, length) = decode_operands insn.format raw in
      some (record { opcode = opcode; operands = operands }, length)
]

-- `SetBit` on a byte.
pub set_bit : Bool → ℕ → ℕ → ℕ
set_bit value bit byte = bit_or byte ((if value then 1 else 0) * 2 ^ bit % 2 ^ 8)

pub encode_fs34 : OperandsFs34 → InsnBytes → InsnBytes × ℕ
unfolding set_bit
encode_fs34 o raw =
    let byte0 = set_bit o.i 0 (set_bit o.n 1 raw.byte0) in
    let byte1 = set_bit o.x 7 0 in
    let flags = set_bit o.e 4 (set_bit o.p 5 (set_bit o.b 6 byte1)) in
    let byte3 = if o.e then o.address % 2 ^ 8 else raw.byte3 in
    let address = if o.e then o.address / 2 ^ 8 else o.address in
    if not o.n && not o.i
    then (
      record {
        byte0 = byte0;
        byte1 = bit_or byte1 (o.address / 2 ^ 8 % 2 ^ 7);
        byte2 = o.address % 2 ^ 8;
        byte3 = raw.byte3;
      },
      3,
    )
    else (
      record {
        byte0 = byte0;
        byte1 = bit_or flags (address / 2 ^ 8 % 2 ^ 4);
        byte2 = address % 2 ^ 8;
        byte3 = byte3;
      },
      if o.e then 4 else 3,
    )

pub encode_operands : ℕ → Operands → InsnBytes → InsnBytes × Option ℕ
unfolding encode_fs34
encode_operands opcode none_f1 raw = (raw, some 1)
encode_operands opcode (of_f2 o) raw =
    (record raw { byte1 = bit_or (o.r1 * 2 ^ 4 % 2 ^ 8) (o.r2 % 2 ^ 4) }, some 2)
encode_operands opcode (of_fs34 o) raw =
    let (bytes, length) = encode_fs34 o raw in
    if opcode % 4 == 0 then (bytes, some length) else (raw, none)

-- `FormatUtil::Encode` into a buffer: the buffer after it, and the encoded length unless it fails.
unfoldable pub encode : InstructionInstance → InsnBytes → InsnBytes × Option ℕ
unfolding encode_operands
encode insn raw = encode_operands insn.opcode insn.operands (record raw { byte0 = insn.opcode })
