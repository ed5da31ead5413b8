-- ===== src/Machine/Word.antt =====
-- The word operations of machine/machine.cc, and the conversions between uint32 and int32.
-- An int32 is the integer that it stands for; `& mask` with a mask of low ones is a remainder.
pub mod Laws
use sicxe.Base.{ℕ, ◌-◌, ◌/◌, ◌%◌, ◌^◌, bit_or, Option, none, some, ◌==◌, ltb, if◌then◌else◌}
use sicxe.Base.Int.{ℤ, pos, negsuc}

abbrev pub uint32_mod : ℕ
uint32_mod = 2 ^ 32

abbrev pub memory_size : ℕ
memory_size = 2 ^ 20

-- `static_cast<int32>` of a uint32.
abbrev pub int32 : ℕ → ℤ
int32 w = if ltb w (2 ^ 31) then pos w else negsuc (uint32_mod - 1 - w)

-- The conversion back, modulo 2 ^ 32.
abbrev pub uint32 : ℤ → ℕ
uint32 (pos n) = n % uint32_mod
uint32 (negsuc n) = uint32_mod - 1 - n % uint32_mod

-- The value of an `int32` expression, if it fits.
unfoldable pub fit_int32 : ℤ → Option ℤ
fit_int32 (pos n) = if ltb n (2 ^ 31) then some (pos n) else none
fit_int32 (negsuc n) = if ltb n (2 ^ 31) then some (negsuc n) else none

unfoldable pub sign_extend_word : ℕ → ℤ
sign_extend_word word = int32 (bit_or (if (word / 2 ^ 23) % 2 == 0 then 0 else 0xff00_0000) word)

unfoldable pub trim_word : ℕ → ℕ
trim_word word = word % 2 ^ 24

unfoldable pub trim_address : ℕ → ℕ
trim_address address = address % 2 ^ 20

unfoldable pub sign_extend_f3_operand : ℕ → ℕ
sign_extend_f3_operand address =
    bit_or (if (address / 2 ^ 11) % 2 == 0 then 0 else 0xffff_f000) address
