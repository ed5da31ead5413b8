-- ===== src/Machine/Logic/Compare/Order.antt =====
-- What the comparisons mean on 24-bit words: the order of the two's complement numbers.
use sicxe.Base.{ℕ, ◌+◌, ◌%◌, ◌^◌, ◌<◌, ◌≡◌, ◌∙◌, ap, ltb, if◌then◌else◌, arith}
use sicxe.Base.Int.{pos, ◌+ℤ◌}
use sicxe.Isa.{of_fs34, OperandsFs34}
use sicxe.Machine.Word.{uint32, sign_extend_word, trim_word}
use sicxe.Machine.Word.Laws.{signed24, sign_extend_word_lem, trim_word-uint32, mod24-add}
use sicxe.Machine.State.{
  Machine, done, ExecuteResult, Condition, less, equal, greater, IsValid, reg_a, reg_x,
  set_condition, set_register,
}
use sicxe.Machine.Logic.Operand.{word_operand}
use sicxe.Machine.Logic.Arithmetic.Words.{word_operand-lt}
use sicxe.Machine.Logic.Compare.{
  condition_of, compare_mem, increment_compare, increment_compare_mem,
}

-- Adding 2 ^ 23 modulo 2 ^ 24 turns the signed order of words into the order of the numbers.
abbrev pub biased : ℕ → ℕ
biased w = (w + 2 ^ 23) % 2 ^ 24

abbrev pub order_of : ℕ → ℕ → Condition
order_of a b = if ltb a b then less else (if ltb b a then greater else equal)

condition_of_lem :
    (a b : ℕ)
    → a < 2 ^ 24
    → b < 2 ^ 24
    → condition_of (sign_extend_word a) (sign_extend_word b) ≡ order_of (biased a) (biased b)
unfolding condition_of
condition_of_lem a b p q = rw (sign_extend_word_lem a p, sign_extend_word_lem b q) (ground arith)

-- On a valid machine COMP sets the condition code to the signed order of A and the operand, and
-- changes nothing else.
pub compare_mem_lem :
    (o : OperandsFs34) (m : Machine)
    → IsValid m
    → compare_mem (of_fs34 o) m
      ≡ done ExecuteResult.ok
          (set_condition (order_of (biased (m.registers reg_a)) (biased (word_operand o m))) m)
unfolding compare_mem
compare_mem_lem o m v =
    ap (λ c. done ExecuteResult.ok (set_condition c m))
      (condition_of_lem (m.registers reg_a) (word_operand o m) (v.registers_fit reg_a)
        (word_operand-lt o m v))

counted : (x : ℕ) → x < 2 ^ 24 → trim_word (uint32 (sign_extend_word x +ℤ pos 1)) ≡ (x + 1) % 2 ^ 24
counted x h =
    rw (sign_extend_word_lem x h)
      (trim_word-uint32 (signed24 x +ℤ pos 1) ∙ mod24-add x 1 h (omega arith))

increment_compare_lem :
    (b : ℕ) (m : Machine)
    → IsValid m
    → b < 2 ^ 24
    → let x = (m.registers reg_x + 1) % 2 ^ 24 in
      increment_compare (sign_extend_word b) m
      ≡ done ExecuteResult.ok
          (set_condition (order_of (biased x) (biased b)) (set_register reg_x x m))
unfolding increment_compare
increment_compare_lem b m v h =
    let x = (m.registers reg_x + 1) % 2 ^ 24 in
    let x_lt : x < 2 ^ 24 = omega arith in
    rw (counted (m.registers reg_x) (v.registers_fit reg_x)) (
      ap (λ c. done ExecuteResult.ok (set_condition c (set_register reg_x x m)))
        (condition_of_lem x b x_lt h))

-- On a valid machine TIX counts X up modulo 2 ^ 24 and sets the condition code to the signed order
-- of the new X and the operand. It changes nothing else.
pub increment_compare_mem_lem :
    (o : OperandsFs34) (m : Machine)
    → IsValid m
    → let x = (m.registers reg_x + 1) % 2 ^ 24 in
      increment_compare_mem (of_fs34 o) m
      ≡ done ExecuteResult.ok
          (set_condition (order_of (biased x) (biased (word_operand o m))) (set_register reg_x x m))
unfolding increment_compare_mem
increment_compare_mem_lem o m v =
    increment_compare_lem (word_operand o m) m v (word_operand-lt o m v)
