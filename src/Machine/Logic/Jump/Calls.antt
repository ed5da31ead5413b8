-- ===== src/Machine/Logic/Jump/Calls.antt =====
-- A call and the return from it.
use sicxe.Base.{ℕ, ◌+◌, ◌^◌, ◌<◌, ◌≡◌, ap, true, false, ◌==◌, arith, if◌then◌else◌}
use sicxe.Isa.{of_fs34, OperandsFs34}
use sicxe.Machine.Word.{trim_address}
use sicxe.Machine.State.{
  Machine, done, ExecuteResult, IsValid, and_then, reg_l, set_register, set_program_counter,
}
use sicxe.Machine.Logic.Operand.{is_immediate}
use sicxe.Machine.Logic.Jump.{jump, return_}

trim_small : (a : ℕ) → a < 2 ^ 20 → trim_address a ≡ a
unfolding trim_address
trim_small a h = omega arith

-- RSUB right after a JSUB that is not a jump to itself comes back to the instruction after the
-- JSUB, with its address in L, and has changed nothing else; the machine must be valid, and the
-- addressing of the JSUB not immediate.
pub return_-jump :
    (o o' : OperandsFs34) (m : Machine)
    → IsValid m
    → is_immediate o ≡ false
    → (trim_address (trim_address m.target_address + (if o.e then 4 else 3)) == m.program_counter)
      ≡ false
    → and_then (jump true (of_fs34 o) m) (return_ (of_fs34 o'))
      ≡ done ExecuteResult.ok (set_register reg_l m.program_counter m)
unfolding jump return_
return_-jump o o' m v h other =
    rw (h, other)
      (ap
        (λ a.
          done ExecuteResult.ok (set_program_counter a (set_register reg_l m.program_counter m)))
        (trim_small m.program_counter v.counter_fits))
