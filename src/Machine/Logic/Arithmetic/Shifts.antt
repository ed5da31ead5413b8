-- ===== src/Machine/Logic/Arithmetic/Shifts.antt =====
-- What NOT and the shifts do to the 24-bit words of the machine.
use sicxe.Base.{
  ℕ, ◌-◌, ◌*◌, ◌/◌, ◌%◌, ◌^◌, ◌<◌, ◌≡◌, refl, ap, ◌∙◌, Bool, true, false, not, ◌&&◌, Option, none,
  some, ltb, if◌then◌else◌, arith, inl, inr, Bool-cases,
}
use sicxe.Isa.{of_f2, OperandsF2}
use sicxe.Base.Int.{pos, negsuc}
use sicxe.Machine.Word.{fit_int32}
use sicxe.Machine.Word.Laws.{signed24, mod24, sign_extend_word_lem, trim_word-uint32}
use sicxe.Machine.Logic.Arithmetic.Words.{div-le, put_word, word_of, store_result_lem}
use sicxe.Machine.State.{Machine, done, ExecuteResult, IsValid, set_register, num_registers}
use sicxe.Machine.Logic.Arithmetic.{complement, register_negate, shift_left, shift_right, shift}

complement_word : (w : ℕ) → w < 2 ^ 24 → mod24 (complement (signed24 w)) ≡ 2 ^ 24 - 1 - w
unfolding complement
complement_word w h = ground arith

-- On a valid machine NOT flips the 24 bits of its register, and changes nothing else.
pub register_negate_lem :
    (o : OperandsF2) (m : Machine)
    → IsValid m
    → o.r1 < num_registers
    → register_negate (of_f2 o) m
      ≡ done ExecuteResult.ok (set_register o.r1 (2 ^ 24 - 1 - m.registers o.r1) m)
unfolding register_negate
register_negate_lem o m v p =
    let w = m.registers o.r1 in
    let first : ltb o.r1 num_registers ≡ true = ground arith in
    rw
      (
        first,
        sign_extend_word_lem w (v.registers_fit o.r1),
        trim_word-uint32 (complement (signed24 w)),
        complement_word w (v.registers_fit o.r1),
      )
      refl

-- The 24-bit word shifted right with its sign, n places.
abbrev pub shifted_right : ℕ → ℕ → ℕ
shifted_right w n = if ltb w (2 ^ 23) then w / 2 ^ n else 2 ^ 24 - 1 - (2 ^ 24 - 1 - w) / 2 ^ n

-- The shifted word, where C++ gives the shift a meaning: by less than 32 places, and to the left only
-- a word that is not negative, with a product below 2 ^ 31.
abbrev pub shifted_word : Bool → ℕ → ℕ → Option ℕ
shifted_word direction_right w n =
    if not (ltb n 32)
    then none
    else (if direction_right
        then some (shifted_right w n)
        else (if ltb w (2 ^ 23) && ltb (w * 2 ^ n) (2 ^ 31)
            then some (w * 2 ^ n % 2 ^ 24)
            else none))

shift_right_word :
    (w n : ℕ) → w < 2 ^ 24 → word_of (shift_right (signed24 w) n) ≡ shifted_word true w n
unfolding word_of shift_right
shift_right_word w n h = elim (Bool-cases (ltb n 32)) [
  | inr e ↦ elim (Bool-cases (ltb w (2 ^ 23))) [ inl f ↦ rw (f, e) refl | inr f ↦ rw (f, e) refl ]
  | inl e ↦ elim (Bool-cases (ltb w (2 ^ 23))) [
    | inl f ↦
        rw (f, e) (ap some (ground (arith, trim_word-uint32 (pos (w / 2 ^ n)), div-le w (2 ^ n))))
    | inr f ↦
        rw (f, e)
          (ap some (
            ground (
              arith,
              trim_word-uint32 (negsuc ((2 ^ 24 - 1 - w) / 2 ^ n)),
              div-le (2 ^ 24 - 1 - w) (2 ^ n),
            )))
  ]
]

shift_left_word :
    (w n : ℕ) → w < 2 ^ 24 → word_of (shift_left (signed24 w) n) ≡ shifted_word false w n
unfolding word_of shift_left fit_int32
shift_left_word w n h = elim (Bool-cases (ltb n 32)) [
  | inr e ↦ elim (Bool-cases (ltb w (2 ^ 23))) [ inl f ↦ rw (f, e) refl | inr f ↦ rw (f, e) refl ]
  | inl e ↦ elim (Bool-cases (ltb w (2 ^ 23))) [
    | inr f ↦ rw (f, e) refl
    | inl f ↦ elim (Bool-cases (ltb (w * 2 ^ n) (2 ^ 31))) [
      | inr g ↦ rw (f, e, g) refl
      | inl g ↦ rw (f, e, g) (ap some (trim_word-uint32 (pos (w * 2 ^ n))))
    ]
  ]
]

shifted_word_lem :
    (direction_right : Bool) (w n : ℕ)
    → w < 2 ^ 24
    → word_of (if direction_right then shift_right (signed24 w) n else shift_left (signed24 w) n)
      ≡ shifted_word direction_right w n
shifted_word_lem true w n h = shift_right_word w n h
shifted_word_lem false w n h = shift_left_word w n h

-- On a valid machine, by the number n that stands in the second half of the operand byte, SHIFTL
-- multiplies its register by 2 ^ n modulo 2 ^ 24, and SHIFTR shifts it right and copies its sign into
-- the places that become free. Neither changes anything else. They are undefined exactly where n is 32
-- or more and where SHIFTL has a negative word or a product that a 32-bit `int` does not hold.
pub shift_lem :
    (direction_right : Bool) (o : OperandsF2) (m : Machine)
    → IsValid m
    → o.r1 < num_registers
    → shift direction_right (of_f2 o) m
      ≡ put_word o.r1 m (shifted_word direction_right (m.registers o.r1) o.r2)
unfolding shift
shift_lem right o m v p =
    let w = m.registers o.r1 in
    let first : ltb o.r1 num_registers ≡ true = ground arith in
    rw (first, sign_extend_word_lem w (v.registers_fit o.r1))
      (store_result_lem o.r1 m
          (if right then shift_right (signed24 w) o.r2 else shift_left (signed24 w) o.r2)
        ∙ ap (put_word o.r1 m) (shifted_word_lem right w o.r2 (v.registers_fit o.r1)))
