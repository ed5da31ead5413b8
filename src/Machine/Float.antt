-- ===== src/Machine/Float.antt =====
-- common/float_util.cc: a float is the upper six bytes of a `double`. The type `double`, its
-- arithmetic, its conversions and its representation belong to the C++ implementation: they are a
-- parameter, with the laws of a representation by eight bytes.
use sicxe.Base.{
  zero, suc, ◌+◌, drop, Bool-cases, inl, inr, ℕ, ◌<◌, ◌^◌, ◌≡◌, refl, Bool, Option, List, [], ◌∷◌,
  All, length, get_or, if◌then◌else◌, arith,
}
use sicxe.Base.Int.{ℤ}

pub record Fpu : Type 1 where
  pub Double : Type 0
  -- The bytes of the union in the order of memory, and back.
  pub of_bytes : List ℕ → Double
  pub to_bytes : Double → List ℕ
  pub big_endian : Bool
  pub add : Double → Double → Double
  pub subtract : Double → Double → Double
  pub multiply : Double → Double → Double
  pub divide : Double → Double → Double
  pub less : Double → Double → Bool
  pub of_int32 : ℤ → Double
  -- `none` where the value does not fit, for which C++ defines no conversion.
  pub to_int32 : Double → Option ℤ
  pub bytes_of_double : (d : Double) → (length (to_bytes d) ≡ 8) × All (λ b. b < 2 ^ 8) (to_bytes d)
  pub to_bytes-of_bytes :
      (bytes : List ℕ)
      → length bytes ≡ 8
      → All (λ b. b < 2 ^ 8) bytes
      → to_bytes (of_bytes bytes) ≡ bytes

-- Six bytes.
pub record IsFloatData (bytes : List ℕ) : Type 0 where
  pub six : length bytes ≡ 6
  pub bytes_lt : All (λ b. b < 2 ^ 8) bytes

get_or-lt : (bytes : List ℕ) (i : ℕ) → All (λ b. b < 2 ^ 8) bytes → get_or bytes i 0 < 2 ^ 8
get_or-lt [] i h = omega arith
get_or-lt (b ∷ rest) zero h = h.0
get_or-lt (b ∷ rest) (suc i) h = get_or-lt rest i h.1

nth_and_rest :
    (bytes : List ℕ) (n i : ℕ)
    → length bytes ≡ n + suc i
    → drop n bytes ≡ get_or bytes n 0 ∷ drop (suc n) bytes
nth_and_rest [] n i h = absurd (omega arith)
nth_and_rest (b ∷ rest) zero i h = refl
nth_and_rest (b ∷ rest) (suc n) i h = nth_and_rest rest n i (omega arith)

drop_all : (bytes : List ℕ) (n : ℕ) → length bytes ≡ n → drop n bytes ≡ []
drop_all [] zero h = refl
drop_all [] (suc n) h = refl
drop_all (b ∷ rest) zero h = absurd (omega arith)
drop_all (b ∷ rest) (suc n) h = drop_all rest n (omega arith)

six_bytes :
    (bytes : List ℕ)
    → length bytes ≡ 6
    → let byte = λ (i : ℕ). get_or bytes i 0 in
      bytes ≡ byte 0 ∷ byte 1 ∷ byte 2 ∷ byte 3 ∷ byte 4 ∷ byte 5 ∷ []
six_bytes bytes h = cc (
  nth_and_rest bytes 0 5 (omega arith),
  nth_and_rest bytes 1 4 (omega arith),
  nth_and_rest bytes 2 3 (omega arith),
  nth_and_rest bytes 3 2 (omega arith),
  nth_and_rest bytes 4 1 (omega arith),
  nth_and_rest bytes 5 0 (omega arith),
  drop_all bytes 6 h,
)

module _ (fpu : Fpu) where
  open fpu use {Double, of_bytes, to_bytes, big_endian, bytes_of_double, to_bytes-of_bytes}

  -- The union that `DecodeFloatData` fills, in the order of memory.
  pub decoded_bytes : List ℕ → List ℕ
  decoded_bytes bytes =
      let byte = λ (i : ℕ). get_or bytes i 0 in
      if big_endian
      then byte 0 ∷ byte 1 ∷ byte 2 ∷ byte 3 ∷ byte 4 ∷ byte 5 ∷ 0 ∷ 0 ∷ []
      else 0 ∷ 0 ∷ byte 5 ∷ byte 4 ∷ byte 3 ∷ byte 2 ∷ byte 1 ∷ byte 0 ∷ []

  pub decode_float_data : List ℕ → Double
  unfolding decoded_bytes
  decode_float_data bytes = of_bytes (decoded_bytes bytes)

  pub encode_float_data : Double → List ℕ
  encode_float_data value =
      let byte = λ (i : ℕ). get_or (to_bytes value) i 0 in
      if big_endian
      then byte 0 ∷ byte 1 ∷ byte 2 ∷ byte 3 ∷ byte 4 ∷ byte 5 ∷ []
      else byte 7 ∷ byte 6 ∷ byte 5 ∷ byte 4 ∷ byte 3 ∷ byte 2 ∷ []

  pub encode_float_data-IsFloatData : (value : Double) → IsFloatData (encode_float_data value)
  unfolding encode_float_data
  encode_float_data-IsFloatData value =
      let lt = λ (i : ℕ). get_or-lt (to_bytes value) i (bytes_of_double value).1 in
      elim (Bool-cases big_endian) [
        | inl e ↦
            rw e
              (record { six = refl; bytes_lt = (lt 0, (lt 1, (lt 2, (lt 3, (lt 4, (lt 5, tt)))))) })
        | inr e ↦
            rw e
              (record { six = refl; bytes_lt = (lt 7, (lt 6, (lt 5, (lt 4, (lt 3, (lt 2, tt)))))) })
      ]

  eight_decoded :
      (bytes : List ℕ)
      → IsFloatData bytes
      → (length (decoded_bytes bytes) ≡ 8) × All (λ b. b < 2 ^ 8) (decoded_bytes bytes)
  unfolding decoded_bytes
  eight_decoded bytes v =
      let lt = λ (i : ℕ). get_or-lt bytes i v.bytes_lt in
      ground (arith, lt 0, lt 1, lt 2, lt 3, lt 4, lt 5)

  -- Six bytes that are decoded to a double and encoded again are the same, on either byte order.
  pub encode-decode_float_data :
      (bytes : List ℕ) → IsFloatData bytes → encode_float_data (decode_float_data bytes) ≡ bytes
  unfolding encode_float_data decode_float_data
  encode-decode_float_data bytes v =
      let eight = eight_decoded bytes v in
      rw (to_bytes-of_bytes (decoded_bytes bytes) eight.0 eight.1)
        (ground (arith, six_bytes bytes v.six))
