-- ===== src/Machine/Word/Laws.antt =====
-- What the word operations mean on 24-bit words: two's complement, and arithmetic modulo 2 ^ 24.
use sicxe.Base.{ℕ, ◌+◌, ◌-◌, ◌%◌, ◌^◌, ◌<◌, ◌≡◌, ltb, if◌then◌else◌, arith}
use sicxe.Base.Bits.{bit_or_fields, zero-bit_or}
use sicxe.Base.Int.{ℤ, pos, negsuc, ◌+ℤ◌, ◌-ℤ◌}
use sicxe.Machine.Word.{sign_extend_word, trim_word, trim_address, sign_extend_f3_operand, uint32}

-- The integer that a 24-bit word stands for.
abbrev pub signed24 : ℕ → ℤ
signed24 w = if ltb w (2 ^ 23) then pos w else negsuc (2 ^ 24 - 1 - w)

-- An integer modulo 2 ^ 24.
abbrev pub mod24 : ℤ → ℕ
mod24 (pos n) = n % 2 ^ 24
mod24 (negsuc n) = 2 ^ 24 - 1 - n % 2 ^ 24

pub sign_extend_word_lem : (w : ℕ) → w < 2 ^ 24 → sign_extend_word w ≡ signed24 w
unfolding sign_extend_word
sign_extend_word_lem w h = ground (arith, bit_or_fields 24 255 w h, zero-bit_or w)

pub trim_word-uint32 : (z : ℤ) → trim_word (uint32 z) ≡ mod24 z
unfolding trim_word
trim_word-uint32 (pos n) = omega arith
trim_word-uint32 (negsuc n) = omega arith

pub trim_word-lt : (w : ℕ) → trim_word w < 2 ^ 24
unfolding trim_word
trim_word-lt w = omega arith

pub trim_address-lt : (a : ℕ) → trim_address a < 2 ^ 20
unfolding trim_address
trim_address-lt a = omega arith

pub trim_address_idem : (a : ℕ) → trim_address (trim_address a) ≡ trim_address a
unfolding trim_address
trim_address_idem a = omega arith

-- A displacement of 12 bits, sign-extended to 32.
pub sign_extend_f3_operand_lem :
    (a : ℕ)
    → a < 2 ^ 12
    → sign_extend_f3_operand a ≡ (if ltb a (2 ^ 11) then a else 2 ^ 32 - 2 ^ 12 + a)
unfolding sign_extend_f3_operand
sign_extend_f3_operand_lem a h = ground (arith, bit_or_fields 12 0xfffff a h, zero-bit_or a)

pub mod24-signed24 : (w : ℕ) → w < 2 ^ 24 → mod24 (signed24 w) ≡ w
mod24-signed24 w h = ground arith

pub mod24-add :
    (a b : ℕ) → a < 2 ^ 24 → b < 2 ^ 24 → mod24 (signed24 a +ℤ signed24 b) ≡ (a + b) % 2 ^ 24
unfolding ◌+ℤ◌
mod24-add a b p q = ground arith

pub mod24-sub :
    (a b : ℕ)
    → a < 2 ^ 24
    → b < 2 ^ 24
    → mod24 (signed24 a -ℤ signed24 b) ≡ (a + 2 ^ 24 - b) % 2 ^ 24
unfolding ◌-ℤ◌
mod24-sub a b p q = ground arith
