-- ===== src/Machine/Execute/Assertions.antt =====
-- With the default tables no assertion of an instruction's logic fails, and every instruction that
-- decodes is implemented.
use sicxe.Base.{
  ℕ, zero, suc, ◌+◌, ◌<◌, ◌≡◌, refl, ◌∙◌, subst, Bool, true, false, ◌&&◌, Option, none, some, inl,
  inr, Option-cases, arith,
}
use sicxe.Isa.{Format, f1, f2, fs34, Instruction, InstructionInstance, Operands, format_of}
use mathlib.Core.Option.{some-injective}
use sicxe.Isa.Codec.{InsnBytes, decode, decode_operands, find_instruction}
use sicxe.Isa.Db.{find_opcode}
use sicxe.Isa.Db.Defaults.{default_table}
use sicxe.Machine.Word.{trim_address}
use sicxe.Machine.Memory.{read_memory}
use sicxe.Machine.Memory.Laws.{IsByteMemory}
use sicxe.Machine.Float.{Fpu}
use sicxe.Machine.Device.{Files}
use sicxe.Machine.State.{
  Machine, Outcome, done, undefined, assertion_failed, ExecuteResult, set_program_counter,
}
use sicxe.Machine.Logic.{Logic, LogicDb, register_logics, empty_logic_db}
use sicxe.Machine.Logic.Defaults.{default_logics, default_logic_db}
use sicxe.Machine.Logic.Runs.{Runs, expected_format, execute_logic-Runs}
use sicxe.Machine.Execute.{
  enable_interrupts, fetch, with_target, restore_counter, execute_decoded, execute,
}

abbrev same_format : Format → Format → Bool
same_format f1 f1 = true
same_format f2 f2 = true
same_format fs34 fs34 = true
same_format f g = false

abbrev suits : Instruction → Option Logic → Bool
suits entry none = false
suits entry (some logic) = same_format (expected_format logic) entry.format

-- The entry of one opcode, if there is one, has a logic that expects its format.
agrees : Option Instruction → Option Logic → Bool
unfolding expected_format
agrees none logic = true
agrees (some entry) logic = suits entry logic

all_below : ℕ → (ℕ → Bool) → Bool
all_below zero p = true
all_below (suc n) p = p n && all_below n p

all_below_lem : (n : ℕ) (p : ℕ → Bool) (x : ℕ) → all_below n p ≡ true → x < n → p x ≡ true
unfolding all_below
all_below_lem zero p x h lt = absurd (omega arith)
all_below_lem (suc n) p x h lt = ground (arith, all_below_lem n p x)

default_tables_table :
    all_below 256 (λ o. agrees (default_table.instructions o) (default_logic_db o)) ≡ true
unfolding all_below agrees expected_format default_table default_logic_db register_logics
    default_logics empty_logic_db
default_tables_table = refl

decode_operands_format :
    (format : Format) (raw : InsnBytes) → format_of (decode_operands format raw).0 ≡ format
unfolding decode_operands
decode_operands_format f1 raw = refl
decode_operands_format f2 raw = refl
decode_operands_format fs34 raw = refl

-- What is found stands in the table under its opcode.
find_instruction_lem :
    (table : ℕ → Option Instruction) (byte opcode : ℕ) (entry : Instruction)
    → byte < 256
    → find_instruction table byte ≡ some (opcode, entry)
    → (table opcode ≡ some entry) × (opcode < 256)
unfolding find_instruction
find_instruction_lem table byte opcode entry lt h = ground arith

decode_lem :
    (table : ℕ → Option Instruction) (raw : InsnBytes) (insn : InstructionInstance) (length : ℕ)
    → raw.byte0 < 256
    → decode table raw ≡ some (insn, length)
    → (entry : Instruction) × (table insn.opcode ≡ some entry)
      × (format_of insn.operands ≡ entry.format)
      × (insn.opcode < 256)
unfolding decode
decode_lem table raw insn length lt h = elim (Option-cases (find_instruction table raw.byte0)) [
  | inl e ↦ absurd (let failed = rw (e, decode) at h in cc)
  | inr ((opcode, entry), e) ↦
      let (found, small) = find_instruction_lem table raw.byte0 opcode entry lt e in
      let same = some-injective _ (insn, length) (rw (e, decode) at h) in
      (
        entry,
        subst (λ p. table p.0.opcode ≡ some entry) same found,
        subst (λ p. format_of p.0.operands ≡ entry.format) same
            (decode_operands_format entry.format raw),
        subst (λ p. p.0.opcode < 256) same small,
      )
]

same_format_lem : (f g : Format) → same_format f g ≡ true → g ≡ f
same_format_lem f1 f1 h = refl
same_format_lem f2 f2 h = refl
same_format_lem fs34 fs34 h = refl
same_format_lem f1 f2 h = cc
same_format_lem f1 fs34 h = cc
same_format_lem f2 f1 h = cc
same_format_lem f2 fs34 h = cc
same_format_lem fs34 f1 h = cc
same_format_lem fs34 f2 h = cc

suits_lem :
    (entry : Instruction) (logic : Option Logic)
    → suits entry logic ≡ true
    → (l : Logic) × (logic ≡ some l) × (entry.format ≡ expected_format l)
suits_lem entry none h = cc
suits_lem entry (some l) h = (l, refl, same_format_lem (expected_format l) entry.format h)

default_logic_db_lem :
    (opcode : ℕ) (entry : Instruction)
    → opcode < 256
    → default_table.instructions opcode ≡ some entry
    → (l : Logic) × (default_logic_db opcode ≡ some l) × (entry.format ≡ expected_format l)
default_logic_db_lem opcode entry small found =
    let agreed =
      all_below_lem 256 (λ o. agrees (default_table.instructions o) (default_logic_db o)) opcode
        default_tables_table small in
    suits_lem entry (default_logic_db opcode) (unfold agrees in rw (found, agrees) at agreed)

restore_counter-Runs :
    (counter : ℕ) (outcome : Outcome) → Runs outcome → Runs (restore_counter counter outcome)
unfolding restore_counter
restore_counter-Runs counter (done ExecuteResult.ok m) h = h
restore_counter-Runs counter (done _ m) h = h
restore_counter-Runs counter undefined h = tt
restore_counter-Runs counter assertion_failed h = h

fetched :
    (m : Machine)
    → IsByteMemory m.memory
    → (fetch (enable_interrupts m).memory (enable_interrupts m).program_counter).byte0 < 256
unfolding enable_interrupts fetch read_memory
fetched m h = ground (arith, h (trim_address m.program_counter))

module _ (fpu : Fpu) (files : Files) where
  execute_decoded-Runs :
      (find_opcode : ℕ → Option Instruction) (logic_db : LogicDb) (logic : Logic)
      (operands : Operands) (length : ℕ) (m : Machine)
      → format_of operands ≡ expected_format logic
      → Runs (execute_decoded find_opcode logic_db fpu files logic operands length m)
  unfolding execute_decoded
  execute_decoded-Runs find_opcode logic_db logic operands length m h =
      let advanced = set_program_counter (trim_address (m.program_counter + length)) m in
      elim (Option-cases (with_target operands advanced)) [
        | inl e ↦ rw (e, Runs) (λ h. cc)
        | inr (ready, e) ↦
            rw (e, Runs)
              (restore_counter-Runs m.program_counter _
                (execute_logic-Runs fpu files ready logic operands h))
      ]

  -- With the default tables, on any machine whose cells hold bytes, no assertion of an instruction's
  -- logic fails in `Execute`, and every instruction that decodes is implemented.
  pub execute-Runs :
      (m : Machine)
      → IsByteMemory m.memory
      → Runs (execute (find_opcode default_table) default_logic_db fpu files m)
  unfolding execute
  execute-Runs m0 h =
      let m = enable_interrupts m0 in
      elim (Option-cases (decode (find_opcode default_table) (fetch m.memory m.program_counter))) [
        | inl e ↦ rw (e, Runs) (λ h. cc)
        | inr ((insn, length), e) ↦
            let (entry, found, format, small) = decode_lem _ _ insn length (fetched m0 h) e in
            let (logic, l, expected) = default_logic_db_lem insn.opcode entry small found in
            rw (e, l, Runs)
              (execute_decoded-Runs (find_opcode default_table) default_logic_db logic insn.operands
                length m (format ∙ expected))
      ]
