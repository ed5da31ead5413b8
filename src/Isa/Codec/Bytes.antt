-- ===== src/Isa/Codec/Bytes.antt =====
-- The bytes that `encode` writes, as sums of their fields, and what `test_bit` reads out of them.
use sicxe.Base.{
  ℕ, ◌+◌, ◌*◌, ◌/◌, ◌%◌, ◌^◌, ◌<◌, bit_or, ◌≡◌, Bool, true, false, ◌==◌, if◌then◌else◌, arith,
}
use sicxe.Base.Bits.{bit_or_fields}
use sicxe.Isa.Codec.{set_bit}

-- A flag as a number.
abbrev pub flag : Bool → ℕ
flag v = if v then 1 else 0

pub flag-lt : (v : Bool) → flag v < 2
flag-lt true = omega arith
flag-lt false = omega arith

pub flag-test : (v : Bool) (m : ℕ) → m ≡ flag v → (m == 1) ≡ v
flag-test true m h = ground arith
flag-test false m h = ground arith

-- The second byte of formats 3 and 4: four flags above the top of the address.
pub flags_sum :
    (x b p e : Bool) (top : ℕ)
    → top < 16
    → bit_or (set_bit e 4 (set_bit p 5 (set_bit b 6 (set_bit x 7 0)))) top
      ≡ (((flag x * 2 + flag b) * 2 + flag p) * 2 + flag e) * 2 ^ 4 + top
unfolding set_bit
flags_sum x b p e top h =
    ground (arith, bit_or_fields 4 (((flag x * 2 + flag b) * 2 + flag p) * 2 + flag e) top h)

-- The second byte of format S: one flag.
pub index_sum : (x : Bool) (top : ℕ) → top < 128 → bit_or (set_bit x 7 0) top ≡ flag x * 2 ^ 7 + top
unfolding set_bit
index_sum x top h = ground (arith, bit_or_fields 7 (flag x) top h)

-- The first byte: the opcode above the two addressing flags.
pub opcode_sum :
    (n i : Bool) (opcode : ℕ)
    → opcode % 4 ≡ 0
    → set_bit i 0 (set_bit n 1 opcode) ≡ opcode + flag n * 2 + flag i
unfolding set_bit
opcode_sum n i opcode h = ground (
  arith,
  bit_or_fields 2 (opcode / 4) (flag n * 2),
  bit_or_fields 1 (opcode / 4 * 2 + flag n) (flag i),
)
