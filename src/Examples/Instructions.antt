-- ===== src/Examples/Instructions.antt =====
-- Single instructions.
use sicxe.Base.{◌≡◌, refl, true, false, some, arith}
use sicxe.Isa.{of_f2, of_fs34, OperandsF2, OperandsFs34}
use sicxe.Machine.Memory.{write_memory_word, read_memory_word}
use sicxe.Machine.State.{
  done, undefined, ExecuteResult, less, equal, greater, reg_a, reg_x, reg_l, and_then,
  set_condition, set_register,
}
use sicxe.Machine.Word.{trim_address}
use sicxe.Machine.Address.{target_of}
use sicxe.Machine.Logic.Operand.{word_operand, is_immediate}
use sicxe.Machine.Address.Laws.{target_of_lem}
use sicxe.Machine.Logic.Arithmetic.{add, arithmetic_mem, arithmetic_reg, shift}
use sicxe.Machine.Logic.Arithmetic.Words.{
  word_result, put_word, arithmetic_mem-word_result, arithmetic_reg-word_result,
}
use sicxe.Machine.Logic.Arithmetic.Shifts.{shift_lem}
use sicxe.Machine.Logic.Compare.{compare_mem, increment_compare_mem}
use sicxe.Machine.Logic.Compare.Order.{compare_mem_lem, increment_compare_mem_lem}
use sicxe.Machine.Logic.Transfer.{store_word, load_word, store_flags}
use sicxe.Machine.Logic.Transfer.RoundTrip.{
  memory_after, load_word-store_word, store_flags_ambiguous,
}
use sicxe.Machine.Logic.Jump.{jump, return_}
use sicxe.Machine.Logic.Jump.Calls.{return_-jump}
use sicxe.Examples.Fixtures.{start, start-IsValid}

abbrev registers_x_a : OperandsF2
registers_x_a = record { r1 = 1; r2 = 0 }

-- Relative to the program counter, three bytes back.
abbrev back_three : OperandsFs34
back_three = record {
  n = true;
  i = true;
  x = false;
  b = false;
  p = true;
  e = false;
  address = 0xffd;
}

abbrev old_format : OperandsFs34
old_format = record { n = false; i = false; x = true; b = false; p = false; e = false; address = 9 }

target_of_lem_example : target_of back_three start ≡ some 0xff_fffd
unfolding target_of
target_of_lem_example = target_of_lem back_three start start-IsValid (omega arith) refl

-- The word at address 0 is 0x010005.
arithmetic_mem-word_result_example :
    arithmetic_mem add (of_fs34 back_three) start
    ≡ put_word reg_a start (word_result add 3 (word_operand back_three start))
arithmetic_mem-word_result_example = arithmetic_mem-word_result add back_three start start-IsValid

-- 3 + (-1) is 2.
arithmetic_reg-word_result_example :
    arithmetic_reg add (of_f2 registers_x_a) start
    ≡ done ExecuteResult.ok (set_register reg_a 2 start)
arithmetic_reg-word_result_example =
    arithmetic_reg-word_result add registers_x_a start start-IsValid (omega arith) (omega arith)

-- A negative word shifted to the left.
left_undefined : shift false (of_f2 registers_x_a) start ≡ undefined
unfolding shift sicxe.Machine.Word.sign_extend_word
left_undefined = refl

-- -1 shifted by no place.
shift_lem_example :
    shift true (of_f2 registers_x_a) start
    ≡ done ExecuteResult.ok (set_register reg_x 0xff_ffff start)
shift_lem_example = shift_lem true registers_x_a start start-IsValid (omega arith)

compare_mem_lem_example :
    compare_mem (of_fs34 back_three) start ≡ done ExecuteResult.ok (set_condition less start)
unfolding word_operand is_immediate read_memory_word trim_address
compare_mem_lem_example = compare_mem_lem back_three start start-IsValid

increment_compare_mem_lem_example :
    increment_compare_mem (of_fs34 back_three) start
    ≡ done ExecuteResult.ok (set_condition less (set_register reg_x 0 start))
unfolding word_operand is_immediate read_memory_word trim_address
increment_compare_mem_lem_example = increment_compare_mem_lem back_three start start-IsValid

load_word-store_word_example :
    and_then (store_word reg_x (of_fs34 back_three) start) (load_word reg_a (of_fs34 back_three))
    ≡ done ExecuteResult.ok (
        set_register reg_a 0xff_ffff
          (record start { memory = write_memory_word start.memory 0 0xff_ffff }))
unfolding is_immediate
load_word-store_word_example = load_word-store_word reg_x reg_a back_three start start-IsValid refl

store_flags_ambiguous_example :
    memory_after (store_flags (of_fs34 back_three) (set_condition equal start))
    ≡ memory_after (store_flags (of_fs34 back_three) (set_condition greater start))
store_flags_ambiguous_example = store_flags_ambiguous back_three start

return_-jump_example :
    and_then (jump true (of_fs34 back_three) start) (return_ (of_fs34 back_three))
    ≡ done ExecuteResult.ok (set_register reg_l 0 start)
unfolding is_immediate trim_address
return_-jump_example = return_-jump back_three back_three start start-IsValid refl refl
