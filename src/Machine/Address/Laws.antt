-- ===== src/Machine/Address/Laws.antt =====
-- The target address of each addressing mode.
use sicxe.Base.{
  ℕ, ◌+◌, ◌-◌, ◌%◌, ◌^◌, ◌<◌, ◌≡◌, Bool, true, false, not, ◌&&◌, ◌||◌, none, some, ltb, leb, inl,
  inr, Bool-cases, if◌then◌else◌, arith,
}
use sicxe.Isa.{OperandsFs34}
use sicxe.Machine.Word.{trim_word, trim_address}
use sicxe.Machine.Word.Laws.{sign_extend_f3_operand_lem}
use sicxe.Machine.Memory.{read_memory_word}
use sicxe.Machine.State.{Machine, IsValid, reg_x, reg_b}
use sicxe.Machine.Address.{displaced, sic_displaced, is_valid_addressing, target_of}

-- What a register or the program counter adds, if the flag is set.
abbrev pub added : Bool → ℕ → ℕ
added flag value = if flag then value else 0

-- The displacement is signed if it is relative to the program counter.
abbrev pub displacement : OperandsFs34 → ℕ
displacement o =
    if o.p && not (ltb o.address (2 ^ 11)) then 2 ^ 24 - 2 ^ 12 + o.address else o.address

-- The sum of the displacement and of what the flags add, as the architecture means it.
abbrev pub effective_address : OperandsFs34 → Machine → ℕ
effective_address o m =
    (displacement o
      + added o.p m.program_counter
      + added o.b (m.registers reg_b)
      + added o.x (m.registers reg_x))
    % 2 ^ 24

-- The field of the address is as wide as the format has it.
abbrev pub FitsField : OperandsFs34 → Type 0
FitsField o = o.address < (if o.e then 2 ^ 20 else 2 ^ 12)

-- Which addressing the architecture has in formats 3 and 4: at most one of the program counter, the base
-- and the extended format, and indexing only with both of n and i.
abbrev pub is_allowed : OperandsFs34 → Bool
is_allowed o = leb (added o.p 1 + added o.b 1 + added o.e 1) 1 && (if o.x then o.n && o.i else true)

is_valid_addressing_lem :
    (o : OperandsFs34) → o.n || o.i ≡ true → is_valid_addressing o ≡ is_allowed o
unfolding is_valid_addressing
is_valid_addressing_lem o h = ground (arith, h)

displaced_lem :
    (o : OperandsFs34) (m : Machine)
    → IsValid m
    → FitsField o
    → is_valid_addressing o ≡ true
    → trim_word (displaced o m) ≡ effective_address o m
unfolding displaced is_valid_addressing trim_word
displaced_lem o m v h valid = ground (
  arith,
  v.counter_fits,
  v.registers_fit reg_b,
  v.registers_fit reg_x,
  sign_extend_f3_operand_lem o.address,
)

-- On a valid machine, for formats 3 and 4 with an address that fits its field: with simple or
-- immediate addressing the target is the effective address, with indirect addressing it is the word
-- that stands there. There is none exactly if more than one of p, b and e is set, or if the operand is
-- indexed without both of n and i.
pub target_of_lem :
    (o : OperandsFs34) (m : Machine)
    → IsValid m
    → FitsField o
    → o.n || o.i ≡ true
    → target_of o m ≡ (
        if is_allowed o
        then some (
            if o.n && not o.i
            then read_memory_word m.memory (effective_address o m % 2 ^ 20)
            else effective_address o m)
        else none)
unfolding target_of
target_of_lem o m v h extended =
    rw⁻¹ (is_valid_addressing_lem o extended) (elim (Bool-cases (is_valid_addressing o)) [
      | inl e ↦ rw (displaced_lem o m v h e, e) (unfold trim_address in ground arith)
      | inr e ↦ rw e (ground arith)
    ])

-- On a valid machine, in the old format, which has neither of the flags for its addressing, the
-- target is the absolute address of 15 bits with X added to it if it is indexed.
pub target_of_sic :
    (o : OperandsFs34) (m : Machine)
    → IsValid m
    → o.n ≡ false
    → o.i ≡ false
    → o.address < 2 ^ 15
    → target_of o m ≡ some ((o.address + added o.x (m.registers reg_x)) % 2 ^ 24)
unfolding target_of sic_displaced trim_word
target_of_sic o m v n i h = ground (arith, v.registers_fit reg_x)
