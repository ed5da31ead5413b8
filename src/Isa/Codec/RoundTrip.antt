-- ===== src/Isa/Codec/RoundTrip.antt =====
-- Encoding and decoding are inverse to one another.
use sicxe.Base.{
  ℕ, ◌+◌, ◌*◌, ◌/◌, ◌%◌, ◌^◌, ◌<◌, bit_or, ◌≡◌, refl, ◌∙◌, Bool, false, not, ◌&&◌, Option, none,
  some, if◌then◌else◌, arith,
}
use sicxe.Base.Bits.{bit_or_fields}
use sicxe.Isa.{Format, f1, f2, fs34, is_fs34, format_of, Instruction, InstructionInstance}
use sicxe.Isa.{Operands, none_f1, of_f2, of_fs34, OperandsFs34}
use sicxe.Isa.Codec.{InsnBytes, find_instruction, decode, decode_operands, encode, encode_operands}
use sicxe.Isa.Codec.Bytes.{flag, flag-lt, flags_sum, index_sum, opcode_sum}

-- The address fits its field, and format S has no flag but `x`.
abbrev pub FitsFs34 : OperandsFs34 → Type 0
FitsFs34 o =
    if not o.n && not o.i
    then (o.b ≡ false) × (o.p ≡ false) × (o.e ≡ false) × (o.address < 2 ^ 15)
    else (if o.e then o.address < 2 ^ 20 else o.address < 2 ^ 12)

-- What each format can hold.
abbrev pub Fits : ℕ → Operands → Type 0
Fits opcode none_f1 = Unit {0}
Fits opcode (of_f2 o) = (o.r1 < 16) × (o.r2 < 16)
Fits opcode (of_fs34 o) = (opcode % 4 ≡ 0) × FitsFs34 o

abbrev length_fs34 : OperandsFs34 → ℕ
length_fs34 o = if not o.n && not o.i then 3 else (if o.e then 4 else 3)

-- The address goes through the bytes of each format.
address_s : (a : ℕ) → a < 2 ^ 15 → bit_or (a / 2 ^ 8 % 2 ^ 7 * 2 ^ 8) (a % 2 ^ 8) ≡ a
address_s a h = omega (arith, bit_or_fields 8 (a / 2 ^ 8 % 2 ^ 7) (a % 2 ^ 8) (omega arith))

address_3 : (a : ℕ) → a < 2 ^ 12 → bit_or (a / 2 ^ 8 % 2 ^ 4 * 2 ^ 8) (a % 2 ^ 8) ≡ a
address_3 a h = omega (arith, bit_or_fields 8 (a / 2 ^ 8 % 2 ^ 4) (a % 2 ^ 8) (omega arith))

address_4 :
    (a : ℕ)
    → a < 2 ^ 20
    → bit_or (bit_or (a / 2 ^ 8 / 2 ^ 8 % 2 ^ 4 * 2 ^ 8) (a / 2 ^ 8 % 2 ^ 8) * 2 ^ 8) (a % 2 ^ 8)
      ≡ a
address_4 a h =
    rw (address_3 (a / 2 ^ 8) (omega arith))
      (omega (arith, bit_or_fields 8 (a / 2 ^ 8) (a % 2 ^ 8) (omega arith)))

-- Encoding format S, 3 and 4 and reading the bytes back.
decode-encode_fs34 :
    (opcode : ℕ) (o : OperandsFs34) (raw : InsnBytes)
    → opcode % 4 ≡ 0
    → FitsFs34 o
    → let written = encode_operands opcode (of_fs34 o) (record raw { byte0 = opcode }) in
      (written.1 ≡ some (length_fs34 o))
      × (decode_operands fs34 written.0 ≡ (of_fs34 o, length_fs34 o))
      × (written.0.byte0 ≡ opcode + flag o.n * 2 + flag o.i)
unfolding encode_operands decode_operands
decode-encode_fs34 opcode o raw h fits = (
  ground arith,
  ground (
    arith,
    opcode_sum o.n o.i opcode h,
    index_sum o.x (o.address / 2 ^ 8 % 2 ^ 7),
    flags_sum o.x o.b o.p o.e (o.address / 2 ^ 8 % 2 ^ 4),
    flags_sum o.x o.b o.p o.e (o.address / 2 ^ 8 / 2 ^ 8 % 2 ^ 4),
    address_s o.address,
    address_3 o.address,
    address_4 o.address,
  ),
  ground (arith, opcode_sum o.n o.i opcode h),
)

-- Whether an entry takes every first byte with its upper six bits.
abbrev pub shadows : Option Instruction → Bool
shadows none = false
shadows (some entry) = is_fs34 entry.format

-- The table lists the opcode with the format, and no 6-bit opcode takes its place.
pub record IsListed (find_opcode : ℕ → Option Instruction) (opcode : ℕ) (format : Format)
    : Type 0 where
  pub entry : Instruction
  pub found : find_opcode opcode ≡ some entry
  pub same_format : entry.format ≡ format
  pub unshadowed : is_fs34 format ≡ false → shadows (find_opcode (opcode / 4 * 4)) ≡ false

find_instruction_short :
    (find_opcode : ℕ → Option Instruction) (byte0 opcode : ℕ) (l : IsListed find_opcode opcode fs34)
    → byte0 / 4 * 4 ≡ opcode
    → find_instruction find_opcode byte0 ≡ some (opcode, l.entry)
unfolding find_instruction
find_instruction_short find_opcode byte0 opcode l h = ground arith

find_instruction_long :
    (find_opcode : ℕ → Option Instruction) (opcode : ℕ) (format : Format)
    → (l : IsListed find_opcode opcode format) → is_fs34 format ≡ false
    → find_instruction find_opcode opcode ≡ some (opcode, l.entry)
unfolding find_instruction
find_instruction_long find_opcode opcode format l h = ground arith

pub decode_found :
    (find_opcode : ℕ → Option Instruction) (raw : InsnBytes) (opcode : ℕ) (entry : Instruction)
    → find_instruction find_opcode raw.byte0 ≡ some (opcode, entry)
    → decode find_opcode raw
      ≡ some (
        record { opcode = opcode; operands = (decode_operands entry.format raw).0 },
        (decode_operands entry.format raw).1,
      )
unfolding decode
decode_found find_opcode raw opcode entry h = rw (h, decode)

decode-encode_as :
    (find_opcode : ℕ → Option Instruction) (opcode : ℕ) (o : Operands) (raw : InsnBytes)
    → IsListed find_opcode opcode (format_of o)
    → Fits opcode o
    → let insn : InstructionInstance = record { opcode = opcode; operands = o } in
      (length : ℕ) × ((encode insn raw).1 ≡ some length)
      × (decode find_opcode (encode insn raw).0 ≡ some (insn, length))
unfolding encode encode_operands decode_operands
decode-encode_as find_opcode opcode none_f1 raw l fits = (
  1,
  refl,
  decode_found find_opcode _ opcode l.entry (find_instruction_long find_opcode opcode f1 l refl)
      ∙ ground (arith, l.same_format),
)
decode-encode_as find_opcode opcode (of_f2 o) raw l fits = (
  2,
  refl,
  decode_found find_opcode _ opcode l.entry (find_instruction_long find_opcode opcode f2 l refl)
      ∙ ground (arith, l.same_format, bit_or_fields 4 o.r1 (o.r2 % 2 ^ 4)),
)
decode-encode_as find_opcode opcode (of_fs34 o) raw l fits =
    let back = decode-encode_fs34 opcode o raw fits.0 fits.1 in
    (
      length_fs34 o,
      back.0,
      decode_found find_opcode _ opcode l.entry (
            find_instruction_short find_opcode _ opcode l
              (omega (arith, back.2, flag-lt o.n, flag-lt o.i, fits.0)))
          ∙ ground (arith, l.same_format, back.1),
    )

-- Decoding what `encode` wrote gives the instruction back with its length, for every instruction
-- that the table lists, whose operands fit the fields of its format.
pub decode-encode :
    (find_opcode : ℕ → Option Instruction) (insn : InstructionInstance) (raw : InsnBytes)
    → IsListed find_opcode insn.opcode (format_of insn.operands)
    → Fits insn.opcode insn.operands
    → (length : ℕ) × ((encode insn raw).1 ≡ some length)
      × (decode find_opcode (encode insn raw).0 ≡ some (insn, length))
decode-encode find_opcode insn raw l fits =
    decode-encode_as find_opcode insn.opcode insn.operands raw l fits
