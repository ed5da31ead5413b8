-- ===== src/Linker/Patch.antt =====
-- linker/linker.cc: `Linker::PatchTextSection`, which adds to a field of half bytes in the data of a
-- text section.
pub mod Field
use sicxe.Base.{
  ℕ, zero, suc, ◌+◌, ◌-◌, ◌*◌, ◌/◌, ◌%◌, ◌^◌, bit_or, Bool, true, false, not, ◌&&◌, ◌||◌, ◌==◌, ltb,
  leb, List, [], ◌∷◌, ◌++◌, take, drop, length, if◌then◌else◌,
}
use sicxe.Base.Int.{ℤ, pos, negsuc, ◌+ℤ◌}
use sicxe.Object.{TextSection}

-- What comes of it: the patched data, or the error that is reported, or an operation on which C++
-- puts no meaning, or a failed assertion.
pub data PatchResult : Type 0 where
  patched : List ℕ → PatchResult
  invalid_relocation relocation_underflow relocation_overflow : PatchResult
  undefined assertion_failed : PatchResult

-- The loop that reads: `result <<= 8; result |= data[i]`.
unfoldable pub read_bytes : ℕ → List ℕ → ℕ
read_bytes result [] = result
read_bytes result (byte ∷ rest) = read_bytes (bit_or (result * 2 ^ 8) byte) rest

-- The first byte gives its lower half only, if the number of half bytes is odd.
unfoldable pub read_field : Bool → List ℕ → ℕ
unfolding read_bytes
read_field odd [] = 0
read_field odd (byte ∷ rest) =
    if odd then read_bytes (byte % 2 ^ 4) rest else read_bytes 0 (byte ∷ rest)

-- The loop that writes, from the last byte on: `data[j] = result & 0xff; result >>= 8`.
unfoldable pub write_bytes : ℕ → ℕ → List ℕ
write_bytes zero result = []
write_bytes (suc size) result = write_bytes size (result / 2 ^ 8) ++ (result % 2 ^ 8) ∷ []

-- `data[0] |= upper_half_byte`.
unfoldable pub restore_upper : Bool → List ℕ → List ℕ → List ℕ
restore_upper odd (old ∷ olds) (byte ∷ rest) =
    if odd then bit_or byte (old / 2 ^ 4 % 2 ^ 4 * 2 ^ 4) ∷ rest else byte ∷ rest
restore_upper odd olds [] = []
restore_upper odd [] (byte ∷ rest) = byte ∷ rest

-- The sum is checked against zero and the limit.
unfoldable pub checked : ℕ → (ℕ → List ℕ) → ℤ → PatchResult
checked limit write (negsuc n) = relocation_underflow
checked limit write (pos value) =
    if ltb limit value then relocation_overflow else patched (write value)

abbrev pub is_odd : ℕ → Bool
is_odd nibbles = nibbles % 2 == 1

-- The number of bytes that the field touches.
abbrev pub field_size : ℕ → ℕ
field_size nibbles = (nibbles + 1) / 2

-- The data with the bytes of the field replaced, and the upper half of the first of them kept.
unfoldable pub with_field : Bool → ℕ → ℕ → List ℕ → ℕ → List ℕ
unfolding restore_upper write_bytes
with_field odd position size data_bytes value =
    take position data_bytes
    ++ restore_upper odd (take size (drop position data_bytes)) (write_bytes size value)
    ++ drop size (drop position data_bytes)

-- `PatchTextSection`. `1 << (nibbles * 4)` on an `int` has no meaning from 8 half bytes on, and the
-- subtraction for the space that is left wraps round, so that a position after the data is not
-- noticed.
unfoldable pub patch_text_section : ℕ → ℕ → ℤ → TextSection → PatchResult
unfolding checked with_field read_field
patch_text_section address nibbles adjustment section =
    let position = address - section.address in
    let total = length section.data_bytes in
    let size = field_size nibbles in
    let odd = is_odd nibbles in
    if not (ltb 0 nibbles && leb nibbles 10) || not (leb section.address address)
    then assertion_failed
    else (if leb 8 nibbles
        then undefined
        else (if ltb ((total + 2 ^ 32 - position) % 2 ^ 32) size
            then invalid_relocation
            else (if ltb total position
                then undefined
                else checked (2 ^ (nibbles * 4) - 1)
                    (with_field odd position size section.data_bytes)
                    (pos (read_field odd (take size (drop position section.data_bytes)))
                      +ℤ adjustment))))
