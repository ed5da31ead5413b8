-- ===== src/Machine/Logic/Devices.antt =====
-- machine/logic/device.cc.
use sicxe.Base.{ℕ, ◌%◌, ◌^◌, Bool, Option, none, some, update, if◌then◌else◌}
use sicxe.Isa.{Operands}
use sicxe.Machine.Device.{Files, Device, Console, test, read, write}
use sicxe.Machine.State.{
  Machine, Outcome, done, ExecuteResult, Condition, less, greater, reg_a, set_condition,
  set_register,
}
use sicxe.Machine.Logic.Operand.{byte_operand, with_fs34}

-- `TestDevice::Execute`.
unfoldable pub test_device : Operands → Machine → Outcome
test_device = with_fs34 λ o m.
    let ready : Condition = elim (m.devices (byte_operand o m)) [
      | none ↦ greater
      | some device ↦ if test device then less else greater
    ] in
    done ExecuteResult.ok (set_condition ready m)

-- What follows from a read of one byte, into a `uint8`.
unfoldable pub after_read : ℕ → Machine → Option ℕ × Device × Console → Outcome
after_read id m (none, device, console) =
    done ExecuteResult.device_error
      (record m { devices = update m.devices id (some device); console = console })
after_read id m (some value, device, console) = done ExecuteResult.ok (
    set_register reg_a (value % 2 ^ 8)
      (record m { devices = update m.devices id (some device); console = console }))

-- What follows from a write of one byte.
unfoldable pub after_write : ℕ → Machine → Bool × Device × Console → Outcome
after_write id m (taken, device, console) =
    done (if taken then ExecuteResult.ok else ExecuteResult.device_error)
      (record m { devices = update m.devices id (some device); console = console })

module _ (files : Files) where
  -- `ReadDevice::Execute`.
  unfoldable pub read_device : Operands → Machine → Outcome
  unfolding after_read
  read_device = with_fs34 λ o m.
      let id = byte_operand o m in
      elim (m.devices id) [
        | none ↦ done ExecuteResult.device_error m
        | some device ↦ after_read id m (read files device m.console)
      ]

  -- `WriteDevice::Execute`.
  unfoldable pub write_device : Operands → Machine → Outcome
  unfolding after_write
  write_device = with_fs34 λ o m.
      let id = byte_operand o m in
      elim (m.devices id) [
        | none ↦ done ExecuteResult.device_error m
        | some device ↦ after_write id m (write files device (m.registers reg_a % 2 ^ 8) m.console)
      ]
