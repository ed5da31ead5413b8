-- ===== src/Machine/Execute/Interrupts.antt =====
-- Interrupts: what an interrupt saves, and that a return from it gives it back.
use sicxe.Base.{◌≡◌, refl, true, false, inl, inr, Bool-cases}
use sicxe.Isa.{none_f1}
use sicxe.Machine.State.{Machine, done, ExecuteResult, set_cpu}
use sicxe.Machine.Logic.Jump.{interrupt_return}
use sicxe.Machine.Execute.{interrupt}

-- If interrupts are enabled, an interrupt and a return from it right away give back the program
-- counter and
-- the condition code of the machine that was interrupted, keep its registers and its memory, and
-- leave interrupts disabled.
pub interrupt_return-interrupt :
    (m : Machine)
    → m.interrupt_enabled ≡ true
    → interrupt_return none_f1 (interrupt m)
      ≡ done ExecuteResult.ok (
          set_cpu m (record (m.cpu) {
            interrupt_enabled = false;
            interrupt_enable_next = false;
            interrupt_link = m.program_counter;
            interrupt_condition_code = m.condition_code;
          }))
unfolding interrupt interrupt_return
interrupt_return-interrupt m h = simp h refl

-- A second interrupt right after another changes nothing, whether or not that one was taken.
pub interrupt_idem : (m : Machine) → interrupt (interrupt m) ≡ interrupt m
unfolding interrupt
interrupt_idem m = elim (Bool-cases m.interrupt_enabled) [
  | inl e ↦ simp e refl
  | inr e ↦ simp e refl
]
