-- ===== src/Machine/Logic/Arithmetic/Words.antt =====
-- What the arithmetic instructions compute on the 24-bit words of the machine.
use sicxe.Base.{
  ℕ, ◌+◌, ◌-◌, ◌/◌, ◌%◌, ◌^◌, ◌<◌, ◌≤◌, ◌≡◌, refl, ap, ◌∙◌, bit_and, bit_or, bit_xor, true, Option,
  none, some, ltb, ◌==◌, if◌then◌else◌, arith, inl, inr, Bool-cases,
}
use mathlib.Core.Option
use mathlib.Core.Path.{ap₂}
use sicxe.Base.Bits.{bit_and_mod, bit_or_mod, bit_xor_mod, bit_and-lt, bit_or-lt, bit_xor-lt}
use sicxe.Base.Int.{ℤ, pos, negsuc, ◌+ℤ◌, ◌-ℤ◌, ◌*ℤ◌, quot}
use sicxe.Isa.{of_f2, of_fs34, OperandsF2, OperandsFs34}
use sicxe.Machine.Word.{fit_int32, int32, uint32, sign_extend_word, trim_word}
use sicxe.Machine.Word.Laws.{
  signed24, mod24, sign_extend_word_lem, trim_word-uint32, mod24-add, mod24-sub,
}
use sicxe.Machine.Memory.Laws.{read_memory_word-lt}
use sicxe.Machine.State.{
  Machine, Outcome, done, undefined, ExecuteResult, IsValid, reg_a, set_register, num_registers,
}
use sicxe.Machine.Logic.Operand.{word_operand}
use sicxe.Machine.Logic.Arithmetic.{
  ArithmeticOperation, add, subtract, multiply, divide, and, or, xor, is_zero, calculate,
  store_result, arithmetic_mem, arithmetic_reg,
}

-- The operation on two words, as the architecture means it: sums and differences modulo 2 ^ 24,
-- products and quotients of the signed values, and the bit operations on the words as they stand.
-- It is `none` for a division by zero and for a product that a 32-bit `int` does not hold.
abbrev pub word_result : ArithmeticOperation → ℕ → ℕ → Option ℕ
word_result add a b = some ((a + b) % 2 ^ 24)
word_result subtract a b = some ((a + 2 ^ 24 - b) % 2 ^ 24)
word_result multiply a b = Option.map mod24 (fit_int32 (signed24 a *ℤ signed24 b))
word_result divide a b = if b == 0 then none else some (mod24 (quot (signed24 a) (signed24 b)))
word_result and a b = some (bit_and a b)
word_result or a b = some (bit_or a b)
word_result xor a b = some (bit_xor a b)

-- The word goes into the register.
abbrev pub put_word : ℕ → Machine → Option ℕ → Outcome
put_word r m none = undefined
put_word r m (some value) = done ExecuteResult.ok (set_register r value m)

-- A result as a word.
unfoldable pub word_of : Option ℤ → Option ℕ
word_of none = none
word_of (some z) = some (trim_word (uint32 z))

fit_add :
    (a b : ℕ)
    → a < 2 ^ 24
    → b < 2 ^ 24
    → fit_int32 (signed24 a +ℤ signed24 b) ≡ some (signed24 a +ℤ signed24 b)
unfolding fit_int32 ◌+ℤ◌
fit_add a b p q = ground arith

fit_sub :
    (a b : ℕ)
    → a < 2 ^ 24
    → b < 2 ^ 24
    → fit_int32 (signed24 a -ℤ signed24 b) ≡ some (signed24 a -ℤ signed24 b)
unfolding fit_int32 ◌-ℤ◌
fit_sub a b p q = ground arith

pub div-le : (a b : ℕ) → a / b ≤ a
div-le a b = grind arith

fit_quot :
    (a b : ℕ)
    → a < 2 ^ 24
    → b < 2 ^ 24
    → fit_int32 (quot (signed24 a) (signed24 b)) ≡ some (quot (signed24 a) (signed24 b))
unfolding fit_int32 quot
fit_quot a b p q = ground (
  arith,
  div-le a b,
  div-le a (2 ^ 24 - b),
  div-le (2 ^ 24 - a) b,
  div-le (2 ^ 24 - a) (2 ^ 24 - b),
)

word_of-fit : (z : ℤ) → word_of (fit_int32 z) ≡ Option.map mod24 (fit_int32 z)
unfolding word_of fit_int32
word_of-fit (pos n) = ground (arith, trim_word-uint32 (pos n))
word_of-fit (negsuc n) = ground (arith, trim_word-uint32 (negsuc n))

uint32-signed24-mod : (a : ℕ) → a < 2 ^ 24 → uint32 (signed24 a) % 2 ^ 24 ≡ a
uint32-signed24-mod a h = ground arith

uint32-signed24-lt : (a : ℕ) → a < 2 ^ 24 → uint32 (signed24 a) < 2 ^ 32
uint32-signed24-lt a h = ground arith

pub trim_word-uint32-int32 : (w : ℕ) → w < 2 ^ 32 → trim_word (uint32 (int32 w)) ≡ w % 2 ^ 24
unfolding trim_word
trim_word-uint32-int32 w h = ground arith

is_zero-signed24 : (b : ℕ) → b < 2 ^ 24 → is_zero (signed24 b) ≡ (b == 0)
is_zero-signed24 b h = ground arith

-- A bit operation on the sign-extended words, trimmed, is the one on the words.
bitwise :
    (op : ℕ → ℕ → ℕ) (a b : ℕ)
    → op (uint32 (signed24 a)) (uint32 (signed24 b)) < 2 ^ 32
    → op (uint32 (signed24 a)) (uint32 (signed24 b)) % 2 ^ 24
      ≡ op (uint32 (signed24 a) % 2 ^ 24) (uint32 (signed24 b) % 2 ^ 24)
    → a < 2 ^ 24
    → b < 2 ^ 24
    → trim_word (uint32 (int32 (op (uint32 (signed24 a)) (uint32 (signed24 b))))) ≡ op a b
bitwise op a b lt low p q =
    trim_word-uint32-int32 (op (uint32 (signed24 a)) (uint32 (signed24 b))) lt
    ∙ low
    ∙ ap₂ op (uint32-signed24-mod a p) (uint32-signed24-mod b q)

calculate_lem :
    (op : ArithmeticOperation) (a b : ℕ)
    → a < 2 ^ 24
    → b < 2 ^ 24
    → word_of (calculate op (signed24 a) (signed24 b)) ≡ word_result op a b
unfolding calculate word_of
calculate_lem add a b p q =
    rw (fit_add a b p q) (ap some (trim_word-uint32 (signed24 a +ℤ signed24 b) ∙ mod24-add a b p q))
calculate_lem subtract a b p q =
    rw (fit_sub a b p q) (ap some (trim_word-uint32 (signed24 a -ℤ signed24 b) ∙ mod24-sub a b p q))
calculate_lem multiply a b p q = word_of-fit (signed24 a *ℤ signed24 b)
calculate_lem divide a b p q = elim (Bool-cases (b == 0)) [
  | inl e ↦ rw (is_zero-signed24 b q, e, word_of) refl
  | inr e ↦
      rw (is_zero-signed24 b q, e, fit_quot a b p q)
        (ap some (trim_word-uint32 (quot (signed24 a) (signed24 b))))
]
calculate_lem and a b p q =
    let first = uint32 (signed24 a) in
    let second = uint32 (signed24 b) in
    ap some (
      bitwise bit_and a b
        (bit_and-lt 32 first second (uint32-signed24-lt a p) (uint32-signed24-lt b q))
        (bit_and_mod 24 first second) p q)
calculate_lem or a b p q =
    let first = uint32 (signed24 a) in
    let second = uint32 (signed24 b) in
    ap some (
      bitwise bit_or a b
        (bit_or-lt 32 first second (uint32-signed24-lt a p) (uint32-signed24-lt b q))
        (bit_or_mod 24 first second) p q)
calculate_lem xor a b p q =
    let first = uint32 (signed24 a) in
    let second = uint32 (signed24 b) in
    ap some (
      bitwise bit_xor a b
        (bit_xor-lt 32 first second (uint32-signed24-lt a p) (uint32-signed24-lt b q))
        (bit_xor_mod 24 first second) p q)

pub store_result_lem :
    (r : ℕ) (m : Machine) (value : Option ℤ) → store_result r m value ≡ put_word r m (word_of value)
unfolding store_result word_of
store_result_lem r m none = refl
store_result_lem r m (some z) = refl

pub word_operand-lt : (o : OperandsFs34) (m : Machine) → IsValid m → word_operand o m < 2 ^ 24
unfolding word_operand
word_operand-lt o m v =
    ground (arith, v.target_fits, read_memory_word-lt m.memory m.target_address v.memory_fits)

stored :
    (op : ArithmeticOperation) (r a b : ℕ) (m : Machine)
    → a < 2 ^ 24
    → b < 2 ^ 24
    → store_result r m (calculate op (sign_extend_word a) (sign_extend_word b))
      ≡ put_word r m (word_result op a b)
stored op r a b m p q =
    rw (sign_extend_word_lem a p, sign_extend_word_lem b q)
      (store_result_lem r m (calculate op (signed24 a) (signed24 b))
        ∙ ap (put_word r m) (calculate_lem op a b p q))

-- On a valid machine ADD, SUB, MUL, DIV, AND, OR and XOR put into A the result of the operation on A
-- and the operand, as 24-bit words, and change nothing else. They are undefined exactly for a
-- division by zero and for a product that a 32-bit `int` does not hold.
pub arithmetic_mem-word_result :
    (op : ArithmeticOperation) (o : OperandsFs34) (m : Machine)
    → IsValid m
    → arithmetic_mem op (of_fs34 o) m
      ≡ put_word reg_a m (word_result op (m.registers reg_a) (word_operand o m))
unfolding arithmetic_mem
arithmetic_mem-word_result op o m v =
    stored op reg_a (m.registers reg_a) (word_operand o m) m (v.registers_fit reg_a)
      (word_operand-lt o m v)

-- On a valid machine, ADDR to XORR on registers that exist put into the second register the result
-- of the operation on the second and the first, as 24-bit words, and change nothing else. They are
-- undefined exactly for a division by zero and for a product that a 32-bit `int` does not hold.
pub arithmetic_reg-word_result :
    (op : ArithmeticOperation) (o : OperandsF2) (m : Machine)
    → IsValid m
    → o.r1 < num_registers
    → o.r2 < num_registers
    → arithmetic_reg op (of_f2 o) m
      ≡ put_word o.r2 m (word_result op (m.registers o.r2) (m.registers o.r1))
unfolding arithmetic_reg
arithmetic_reg-word_result op o m v p q =
    let first : ltb o.r1 num_registers ≡ true = ground arith in
    let second : ltb o.r2 num_registers ≡ true = ground arith in
    rw (first, second)
      (stored op o.r2 (m.registers o.r2) (m.registers o.r1) m (v.registers_fit o.r2)
        (v.registers_fit o.r1))
