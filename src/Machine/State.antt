-- ===== src/Machine/State.antt =====
-- common/cpu_state.{h,cc}, machine/machine.h and machine/execute_result.h: the state of the machine.
-- The register file is an array with six places; what the code indexes it by is always below that.
use sicxe.Base.{
  ℕ, ◌^◌, ◌<◌, Bool, false, Option, none, some, List, [], ◌∷◌, update, ◌==◌, if◌then◌else◌,
}
use sicxe.Base.Text.{Bytes, same_bytes}
use sicxe.Machine.Memory.{Memory}
use sicxe.Machine.Memory.Laws.{IsByteMemory}
use sicxe.Machine.Float.{IsFloatData}
use sicxe.Machine.Device.{Device, Console}

abbrev pub reg_a : ℕ
reg_a = 0

abbrev pub reg_x : ℕ
reg_x = 1

abbrev pub reg_l : ℕ
reg_l = 2

abbrev pub reg_b : ℕ
reg_b = 3

abbrev pub reg_s : ℕ
reg_s = 4

abbrev pub reg_t : ℕ
reg_t = 5

abbrev pub num_registers : ℕ
num_registers = 6

pub data Condition : Type 0 where
  less equal greater : Condition

-- `CpuState::RegisterNameToId`.
unfoldable pub register_name_to_id : Bytes → Option ℕ
register_name_to_id name =
    if same_bytes name (65 ∷ [])
    then some reg_a
    else (if same_bytes name (88 ∷ [])
        then some reg_x
        else (if same_bytes name (76 ∷ [])
            then some reg_l
            else (if same_bytes name (66 ∷ [])
                then some reg_b
                else (if same_bytes name (83 ∷ [])
                    then some reg_s
                    else (if same_bytes name (84 ∷ []) then some reg_t else none)))))

-- `CpuState::RegisterIdToName`.
unfoldable pub register_id_to_name : ℕ → Option Bytes
register_id_to_name id =
    if id == reg_a
    then some (65 ∷ [])
    else (if id == reg_x
        then some (88 ∷ [])
        else (if id == reg_l
            then some (76 ∷ [])
            else (if id == reg_b
                then some (66 ∷ [])
                else (if id == reg_s
                    then some (83 ∷ [])
                    else (if id == reg_t then some (84 ∷ []) else none)))))

pub record CpuState : Type 0 where
  pub program_counter : ℕ
  pub registers : ℕ → ℕ
  pub float_register : List ℕ
  pub condition_code : Condition
  pub interrupt_enabled : Bool
  pub interrupt_link : ℕ
  pub interrupt_condition_code : Condition
  pub target_address : ℕ
  pub interrupt_enable_next : Bool

-- The constructor.
unfoldable pub initial_cpu : CpuState
initial_cpu = record {
  program_counter = 0;
  registers = λ _. 0;
  float_register = 0 ∷ 0 ∷ 0 ∷ 0 ∷ 0 ∷ 0 ∷ [];
  condition_code = less;
  interrupt_enabled = false;
  interrupt_link = 0;
  interrupt_condition_code = less;
  target_address = 0;
  interrupt_enable_next = false;
}

-- The streams of the process stand beside the devices, which share them.
pub record Machine : Type 0 where
  pub cpu : CpuState
  pub open cpu use *
  pub memory : Memory
  pub devices : ℕ → Option Device
  pub console : Console

-- `Machine::Reset`: the devices stay.
unfoldable pub reset : Machine → Machine
unfolding initial_cpu
reset m = record m { cpu = initial_cpu; memory = λ _. 0 }

pub set_device : Machine → ℕ → Device → Machine
set_device m device_id device = record m { devices = update m.devices device_id (some device) }

-- The device that is handed back, and the machine without it.
pub release_device : Machine → ℕ → Option Device × Machine
release_device m device_id =
    (m.devices device_id, record m { devices = update m.devices device_id none })

-- `ExecuteResult::ResultId`.
pub data ExecuteResult : Type 0 where
  ok device_error invalid_opcode invalid_addressing not_implemented endless_loop : ExecuteResult

-- What comes of an instruction: a result and the machine after it; an operation on which C++ puts
-- no meaning, such as a division by zero; or a failed `assert`.
pub data Outcome : Type 0 where
  done : ExecuteResult → Machine → Outcome
  undefined : Outcome
  assertion_failed : Outcome

-- One instruction after another, as long as they succeed.
abbrev pub and_then : Outcome → (Machine → Outcome) → Outcome
and_then (done ExecuteResult.ok m) next = next m
and_then (done result m) next = done result m
and_then undefined next = undefined
and_then assertion_failed next = assertion_failed

abbrev pub set_cpu : Machine → CpuState → Machine
set_cpu m cpu = record m { cpu = cpu }

abbrev pub set_program_counter : ℕ → Machine → Machine
set_program_counter address m = record m { cpu = record (m.cpu) { program_counter = address } }

abbrev pub set_register : ℕ → ℕ → Machine → Machine
set_register r value m = record m {
  cpu = record (m.cpu) { registers = update m.registers r value };
}

abbrev pub set_condition : Condition → Machine → Machine
set_condition c m = record m { cpu = record (m.cpu) { condition_code = c } }

-- Every register holds what its width allows, and every cell a byte.
pub record IsValid (m : Machine) : Type 0 where
  pub counter_fits : m.program_counter < 2 ^ 20
  pub registers_fit : (r : ℕ) → m.registers r < 2 ^ 24
  pub float_fits : IsFloatData m.float_register
  pub link_fits : m.interrupt_link < 2 ^ 20
  pub target_fits : m.target_address < 2 ^ 24
  pub memory_fits : IsByteMemory m.memory
