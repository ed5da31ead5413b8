-- ===== src/Linker/Patch/Field.antt =====
-- The field that is patched: what it holds before and after.
use sicxe.Base.{
  ℕ, zero, suc, ◌+◌, ◌-◌, ◌*◌, ◌/◌, ◌%◌, ◌^◌, ◌<◌, ◌≤◌, ◌≡◌, refl, sym, ◌∙◌, ap, Bool, true, false,
  List, [], ◌∷◌, ◌++◌, All, length, take, drop, length-append, subst, ◌⊎◌, if◌then◌else◌, ltb, leb,
  not, ◌||◌, ◌&&◌, inl, inr, Bool-cases, arith,
}
use sicxe.Base.Bits.{bit_or_fields, fields_bit_or, pow-pos}
use sicxe.Base.Int.{ℤ, pos, negsuc, ◌+ℤ◌}
use sicxe.Object.{TextSection}
use sicxe.Linker.Patch.{
  PatchResult, patched, relocation_underflow, relocation_overflow, read_bytes, read_field,
  write_bytes, restore_upper, checked, with_field, is_odd, field_size, patch_text_section,
}

-- The number that bytes stand for, the most significant first, after what stands before them.
abbrev pub big_endian : ℕ → List ℕ → ℕ
big_endian high [] = high
big_endian high (byte ∷ rest) = big_endian (high * 2 ^ 8 + byte) rest

read_bytes_lem :
    (result : ℕ) (bytes : List ℕ)
    → All (λ b. b < 2 ^ 8) bytes
    → read_bytes result bytes ≡ big_endian result bytes
unfolding read_bytes
read_bytes_lem result [] h = refl
read_bytes_lem result (byte ∷ rest) h =
    ap (λ r. read_bytes r rest) (bit_or_fields 8 result byte h.0)
    ∙ read_bytes_lem (result * 2 ^ 8 + byte) rest h.1

-- The number of half bytes in a field of so many bytes.
abbrev nibbles_of : Bool → List ℕ → ℕ
nibbles_of odd bytes = 2 * length bytes - (if odd then 1 else 0)

abbrev Patches : Bool → List ℕ → ℕ → Type 0
Patches odd old value =
    (read_field odd old ≡ big_endian 0 old % 2 ^ (nibbles_of odd old * 4))
    × (big_endian 0 (restore_upper odd old (write_bytes (length old) value))
        ≡ big_endian 0 old / 2 ^ (nibbles_of odd old * 4) * 2 ^ (nibbles_of odd old * 4) + value)

field_lem :
    (odd : Bool) (old : List ℕ) (value : ℕ)
    → All (λ b. b < 2 ^ 8) old
    → 0 < nibbles_of odd old
    → nibbles_of odd old < 8
    → value < 2 ^ (nibbles_of odd old * 4)
    → Patches odd old value
unfolding read_field restore_upper write_bytes
field_lem true (a ∷ []) value h p q lt =
    let read = read_bytes_lem (a % 2 ^ 4) ([]) h.1 in
    let kept = fields_bit_or 4 (a / 2 ^ 4 % 2 ^ 4) (value % 2 ^ 8) (omega arith) in
    (omega (arith, read), omega (arith, kept))
field_lem false (a ∷ []) value h p q lt =
    let read = read_bytes_lem 0 (a ∷ []) h in (omega (arith, read), omega arith)
field_lem true (a ∷ b ∷ []) value h p q lt =
    let read = read_bytes_lem (a % 2 ^ 4) (b ∷ []) h.1 in
    let kept = fields_bit_or 4 (a / 2 ^ 4 % 2 ^ 4) (value / 2 ^ 8 % 2 ^ 8) (omega arith) in
    (omega (arith, read), omega (arith, kept))
field_lem false (a ∷ b ∷ []) value h p q lt =
    let read = read_bytes_lem 0 (a ∷ b ∷ []) h in (omega (arith, read), omega arith)
field_lem true (a ∷ b ∷ c ∷ []) value h p q lt =
    let read = read_bytes_lem (a % 2 ^ 4) (b ∷ c ∷ []) h.1 in
    let kept = fields_bit_or 4 (a / 2 ^ 4 % 2 ^ 4) (value / 2 ^ 8 / 2 ^ 8 % 2 ^ 8) (omega arith) in
    (omega (arith, read), omega (arith, kept))
field_lem false (a ∷ b ∷ c ∷ []) value h p q lt =
    let read = read_bytes_lem 0 (a ∷ b ∷ c ∷ []) h in (omega (arith, read), omega arith)
field_lem true (a ∷ b ∷ c ∷ d ∷ []) value h p q lt =
    let read = read_bytes_lem (a % 2 ^ 4) (b ∷ c ∷ d ∷ []) h.1 in
    let kept =
      fields_bit_or 4 (a / 2 ^ 4 % 2 ^ 4) (value / 2 ^ 8 / 2 ^ 8 / 2 ^ 8 % 2 ^ 8) (omega arith) in
    (omega (arith, read), omega (arith, kept))
field_lem false (a ∷ b ∷ c ∷ d ∷ []) value h p q lt = absurd (omega arith)
field_lem true [] value h p q lt = absurd (omega arith)
field_lem false [] value h p q lt = absurd (omega arith)
field_lem true (a ∷ b ∷ c ∷ d ∷ e ∷ rest) value h p q lt = absurd (omega arith)
field_lem false (a ∷ b ∷ c ∷ d ∷ e ∷ rest) value h p q lt = absurd (omega arith)

length-write_bytes : (size value : ℕ) → length (write_bytes size value) ≡ size
unfolding write_bytes
length-write_bytes zero value = refl
length-write_bytes (suc size) value =
    length-append (write_bytes size (value / 2 ^ 8)) (value % 2 ^ 8 ∷ [])
    ∙ omega (arith, length-write_bytes size (value / 2 ^ 8))

length-restore_upper :
    (odd : Bool) (old bytes : List ℕ) → length (restore_upper odd old bytes) ≡ length bytes
unfolding restore_upper
length-restore_upper odd [] [] = refl
length-restore_upper odd (a ∷ old) [] = refl
length-restore_upper odd [] (b ∷ bytes) = refl
length-restore_upper true (a ∷ old) (b ∷ bytes) = refl
length-restore_upper false (a ∷ old) (b ∷ bytes) = refl

length-take-drop :
    (data_bytes : List ℕ) (position size : ℕ)
    → position + size ≤ length data_bytes
    → length (take size (drop position data_bytes)) ≡ size
length-take-drop [] zero zero h = refl
length-take-drop [] zero (suc size) h = absurd (omega arith)
length-take-drop [] (suc position) size h = absurd (omega arith)
length-take-drop (b ∷ rest) zero zero h = refl
length-take-drop (b ∷ rest) zero (suc size) h =
    omega (arith, length-take-drop rest zero size (omega arith))
length-take-drop (b ∷ rest) (suc position) size h =
    length-take-drop rest position size (omega arith)

All-take-drop :
    (data_bytes : List ℕ) (position size : ℕ)
    → All (λ b. b < 2 ^ 8) data_bytes
    → All (λ b. b < 2 ^ 8) (take size (drop position data_bytes))
All-take-drop [] zero zero h = tt
All-take-drop [] zero (suc size) h = tt
All-take-drop [] (suc position) zero h = tt
All-take-drop [] (suc position) (suc size) h = tt
All-take-drop (b ∷ rest) zero zero h = tt
All-take-drop (b ∷ rest) zero (suc size) h = (h.0, All-take-drop rest zero size h.1)
All-take-drop (b ∷ rest) (suc position) size h = All-take-drop rest position size h.1

-- What the patch of a field has to come to: `whole` is the number in the bytes of the field, `limit`
-- the first number that the field does not hold, and `sum` the field with the adjustment.
abbrev pub AsSpecified : (whole limit size : ℕ) (before after : List ℕ) → ℤ → PatchResult → Type 0
AsSpecified whole limit size before after (negsuc n) result = result ≡ relocation_underflow
AsSpecified whole limit size before after (pos sum) result =
    ((limit ≤ sum) × (result ≡ relocation_overflow))
    ⊎ ((sum < limit)
        × ((new : List ℕ) × (result ≡ patched (before ++ new ++ after))
            × (length new ≡ size)
            × (big_endian 0 new ≡ whole / limit * limit + sum)))

module _ (nibbles : ℕ) (data_bytes : List ℕ) (position : ℕ) (some_nibbles : 0 < nibbles)
    (few : nibbles < 8) (inside : position + field_size nibbles ≤ length data_bytes)
    (bytes : All (λ b. b < 2 ^ 8) data_bytes) where
  abbrev old_bytes : List ℕ
  old_bytes = take (field_size nibbles) (drop position data_bytes)

  same_size : length old_bytes ≡ field_size nibbles
  same_size = length-take-drop data_bytes position (field_size nibbles) inside

  same_nibbles : nibbles_of (is_odd nibbles) old_bytes ≡ nibbles
  same_nibbles = rw same_size (ground arith)

  field_at :
      (value : ℕ)
      → value < 2 ^ (nibbles * 4)
      → (read_field (is_odd nibbles) old_bytes ≡ big_endian 0 old_bytes % 2 ^ (nibbles * 4))
        × (big_endian 0
              (restore_upper (is_odd nibbles) old_bytes (write_bytes (field_size nibbles) value))
            ≡ big_endian 0 old_bytes / 2 ^ (nibbles * 4) * 2 ^ (nibbles * 4) + value)
  field_at value lt =
      let odd = is_odd nibbles in
      let whole = big_endian 0 old_bytes in
      let held =
        field_lem odd old_bytes value (All-take-drop data_bytes position (field_size nibbles) bytes)
          (omega (arith, same_nibbles)) (omega (arith, same_nibbles))
          (subst (λ n. value < 2 ^ (n * 4)) (sym same_nibbles) lt) in
      subst
        (λ size.
          (read_field odd old_bytes ≡ whole % 2 ^ (nibbles * 4))
          × (big_endian 0 (restore_upper odd old_bytes (write_bytes size value))
              ≡ whole / 2 ^ (nibbles * 4) * 2 ^ (nibbles * 4) + value))
        same_size
        (subst
          (λ n.
            (read_field odd old_bytes ≡ whole % 2 ^ (n * 4))
            × (big_endian 0 (restore_upper odd old_bytes (write_bytes (length old_bytes) value))
                ≡ whole / 2 ^ (n * 4) * 2 ^ (n * 4) + value))
          same_nibbles held)

  checked_lem :
      (sum : ℤ)
      → AsSpecified
          (big_endian 0 old_bytes)
          (2 ^ (nibbles * 4))
          (field_size nibbles)
          (take position data_bytes)
          (drop (field_size nibbles) (drop position data_bytes))
          sum
          (checked
            (2 ^ (nibbles * 4) - 1)
            (with_field (is_odd nibbles) position (field_size nibbles) data_bytes)
            sum)
  unfolding checked with_field
  checked_lem (negsuc n) = refl
  checked_lem (pos sum) = elim (Bool-cases (ltb (2 ^ (nibbles * 4) - 1) sum)) [
    | inl e ↦
        let above : 2 ^ (nibbles * 4) ≤ sum = ground (arith, pow-pos (nibbles * 4)) in
        rw e (inl (above, refl))
    | inr e ↦
        let below : sum < 2 ^ (nibbles * 4) = ground (arith, pow-pos (nibbles * 4)) in
        rw e (
          inr (
            below,
            (
              restore_upper (is_odd nibbles) old_bytes (write_bytes (field_size nibbles) sum),
              refl,
              length-restore_upper (is_odd nibbles) old_bytes (write_bytes (field_size nibbles) sum)
                  ∙ length-write_bytes (field_size nibbles) sum,
              (field_at sum below).1,
            ),
          ))
  ]

-- Where a relocation of 1 to 7 half bytes lies inside the data of a text section, which are at most
-- 255 bytes, `PatchTextSection` adds the adjustment to the number in the field: it reports an
-- underflow exactly if the sum is negative and an overflow exactly if the field does not hold it;
-- otherwise the field holds the sum, and the half byte before an odd field and all bytes around it
-- are kept.
pub patch_text_section_lem :
    (address nibbles : ℕ) (adjustment : ℤ) (section : TextSection)
    → 0 < nibbles
    → nibbles < 8
    → section.address ≤ address
    → let position = address - section.address in
      let size = field_size nibbles in
      let whole = big_endian 0 (take size (drop position section.data_bytes)) in
      length section.data_bytes < 2 ^ 8
      → position + size ≤ length section.data_bytes
      → All (λ b. b < 2 ^ 8) section.data_bytes
      → AsSpecified whole
          (2 ^ (nibbles * 4))
          size
          (take position section.data_bytes)
          (drop size (drop position section.data_bytes))
          (pos (whole % 2 ^ (nibbles * 4)) +ℤ adjustment)
          (patch_text_section address nibbles adjustment section)
unfolding patch_text_section
patch_text_section_lem address nibbles adjustment section some_nibbles few starts short inside
      bytes =
    let position = address - section.address in
    let total = length section.data_bytes in
    let held =
      (field_at nibbles section.data_bytes position some_nibbles few inside bytes 0
        (pow-pos (nibbles * 4))).0 in
    let valid : (not (ltb 0 nibbles && leb nibbles 10) || not (leb section.address address))
        ≡ false =
      ground arith in
    let defined : leb 8 nibbles ≡ false = ground arith in
    let fits : ltb ((total + 2 ^ 32 - position) % 2 ^ 32) (field_size nibbles) ≡ false =
      ground arith in
    let within : ltb total position ≡ false = ground arith in
    rw (valid, defined, fits, within, held)
      (checked_lem nibbles section.data_bytes position some_nibbles few inside bytes (
        pos (
          big_endian 0 (take (field_size nibbles) (drop position section.data_bytes))
          % 2 ^ (nibbles * 4))
        +ℤ adjustment))
