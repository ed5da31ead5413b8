-- ===== src/Machine/Address.antt =====
-- `Machine::CalculateTargetAddress`: the addressing modes of formats S, 3 and 4. Sums are of uint32.
pub mod Laws
use sicxe.Base.{ℕ, ◌+◌, ◌%◌, Bool, true, false, not, ◌&&◌, ◌||◌, Option, none, some, if◌then◌else◌}
use sicxe.Isa.{OperandsFs34}
use sicxe.Machine.Word.{uint32_mod, trim_word, trim_address, sign_extend_f3_operand}
use sicxe.Machine.Memory.{read_memory_word}
use sicxe.Machine.State.{Machine, reg_x, reg_b}

-- The address field and what the flags add to it, before it is trimmed.
pub displaced : OperandsFs34 → Machine → ℕ
displaced o m =
    let address = if o.p then sign_extend_f3_operand o.address else o.address in
    let counter = if o.p then (address + m.program_counter) % uint32_mod else address in
    let base = if o.b then (counter + m.registers reg_b) % uint32_mod else counter in
    if o.x then (base + m.registers reg_x) % uint32_mod else base

sic_displaced : OperandsFs34 → Machine → ℕ
sic_displaced o m = if o.x then (o.address + m.registers reg_x) % uint32_mod else o.address

-- Indexing is allowed with simple addressing only, format 4 has no relative addressing, and the
-- program counter and the base exclude each other.
pub is_valid_addressing : OperandsFs34 → Bool
is_valid_addressing o =
    if not o.n && o.i && o.x
    then false
    else (if o.n && not o.i && o.x
        then false
        else (if o.e && (o.p || o.b) then false else (if o.p && o.b then false else true)))

-- The target address, or `none` if the addressing is invalid.
unfoldable pub target_of : OperandsFs34 → Machine → Option ℕ
unfolding displaced sic_displaced is_valid_addressing
target_of o m =
    if not o.n && not o.i
    then some (trim_word (sic_displaced o m))
    else (if not (is_valid_addressing o)
        then none
        else (let target = trim_word (displaced o m) in
            if o.n && not o.i
            then some (read_memory_word m.memory (trim_address target))
            else some target))

unfoldable pub calculate_target_address : OperandsFs34 → Machine → Option Machine
calculate_target_address o m = elim (target_of o m) [
  | none ↦ none
  | some target ↦ some (record m { cpu = record (m.cpu) { target_address = target } })
]
