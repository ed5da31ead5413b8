-- ===== src/Isa/Db/Invariant.antt =====
-- What `Register` keeps true of the instruction table.
use mathlib.Core.Option.{some-injective}
use sicxe.Base.{
  subst, inl, inr, Option-cases, ℕ, ◌/◌, ◌%◌, ◌*◌, ◌≡◌, ◌≢◌, true, false, none, some, List, [], ◌∷◌,
  All, arith, update,
}
use sicxe.Base.Text.{Bytes, same_bytes_iff}
use sicxe.Isa.{is_fs34, Instruction}
use sicxe.Isa.Db.{
  InstructionDb, clear, lookup, has_fs34, is_none, is_opcode_available, register, register_all,
}

module _ (db : InstructionDb) where
  abbrev ByOpcode : Type 0
  ByOpcode = (o : ℕ) (entry : Instruction) → db.instructions o ≡ some entry → entry.opcode ≡ o

  abbrev Aligned : Type 0
  Aligned =
      (o : ℕ) (entry : Instruction)
      → db.instructions o ≡ some entry
      → is_fs34 entry.format ≡ true
      → o % 4 ≡ 0

  abbrev Masked : Type 0
  Masked =
      (o : ℕ) (entry : Instruction)
      → db.instructions o ≡ some entry
      → o ≢ 2
      → db.unavailable_mask (o / 4) ≡ true

  abbrev Unshadowed : Type 0
  Unshadowed =
      (o : ℕ) (entry : Instruction)
      → db.instructions o ≡ some entry
      → is_fs34 entry.format ≡ false
      → o ≢ 2
      → has_fs34 (db.instructions (o / 4 * 4)) ≡ false

  abbrev NamesFound : Type 0
  NamesFound =
      (name : Bytes) (entry : Instruction)
      → lookup name db.mnemonic_map ≡ some entry
      → (db.instructions entry.opcode ≡ some entry) × (entry.mnemonic ≡ name)

  abbrev EntriesNamed : Type 0
  EntriesNamed =
      (o : ℕ) (entry : Instruction)
      → db.instructions o ≡ some entry
      → lookup entry.mnemonic db.mnemonic_map ≡ some entry

-- The array and the map hold the same entries under their opcodes and their mnemonics, and no entry
-- but one at opcode 2 is hidden by a 6-bit opcode.
pub record IsConsistent (db : InstructionDb) : Type 0 where
  pub by_opcode : ByOpcode db
  pub aligned : Aligned db
  pub masked : Masked db
  pub unshadowed : Unshadowed db
  pub names_found : NamesFound db
  pub entries_named : EntriesNamed db

pub clear-IsConsistent : IsConsistent clear
unfolding clear lookup
clear-IsConsistent = record {
  by_opcode = λ o entry h. cc;
  aligned = λ o entry h p. cc;
  masked = λ o entry h p. cc;
  unshadowed = λ o entry h p q. cc;
  names_found = λ name entry h. cc;
  entries_named = λ o entry h. cc;
}

module _ (entry : Instruction) (db db' : InstructionDb) (v : IsConsistent db)
    (h : register entry db ≡ some db') where
  -- What a registration that succeeds has checked and done.
  registered :
      (is_opcode_available db entry.opcode entry.format ≡ true)
      × (lookup entry.mnemonic db.mnemonic_map ≡ none)
      × (db'.instructions ≡ update db.instructions entry.opcode (some entry))
      × (db'.mnemonic_map ≡ (entry.mnemonic, entry) ∷ db.mnemonic_map)
  unfolding register is_none
  registered = ground arith

  kept_by_opcode : ByOpcode db'
  kept_by_opcode o e p = ground (arith, registered, v.by_opcode o e)

  kept_aligned : Aligned db'
  unfolding is_opcode_available
  kept_aligned o e p q = ground (arith, registered, v.aligned o e)

  kept_masked : Masked db'
  unfolding register
  kept_masked o e p q = ground (arith, v.masked o e)

  kept_unshadowed : Unshadowed db'
  unfolding is_opcode_available
  kept_unshadowed o e p q r = ground (arith, registered, v.unshadowed o e, v.masked o e)

  kept_names_found : NamesFound db'
  unfolding lookup is_opcode_available
  kept_names_found name e p =
      ground (arith, registered, v.names_found name e, same_bytes_iff entry.mnemonic name)

  kept_entries_named : EntriesNamed db'
  unfolding lookup
  kept_entries_named o e p =
      ground (arith, registered, v.entries_named o e, same_bytes_iff entry.mnemonic e.mnemonic)

-- A registration that succeeds keeps the table consistent.
pub register-IsConsistent :
    (entry : Instruction) (db db' : InstructionDb)
    → IsConsistent db
    → register entry db ≡ some db'
    → IsConsistent db'
register-IsConsistent entry db db' v h = record {
  by_opcode = kept_by_opcode entry db db' v h;
  aligned = kept_aligned entry db db' v h;
  masked = kept_masked entry db db' v h;
  unshadowed = kept_unshadowed entry db db' v h;
  names_found = kept_names_found entry db db' v h;
  entries_named = kept_entries_named entry db db' v h;
}

-- A table that is filled from a consistent one, with every assertion of `Register` passed, is
-- consistent: the array and the map agree, and no entry but one at opcode 2 is hidden.
pub register_all-IsConsistent :
    (entries : List Instruction) (db db' : InstructionDb)
    → IsConsistent db
    → register_all entries db ≡ some db'
    → IsConsistent db'
unfolding register_all
register_all-IsConsistent [] db db' v h = subst IsConsistent (some-injective db db' h) v
register_all-IsConsistent (entry ∷ rest) db db' v h = elim (Option-cases (register entry db)) [
  | inl e ↦ absurd (let failed = rw (e, register_all) at h in cc)
  | inr (next, e) ↦
      register_all-IsConsistent rest next db' (register-IsConsistent entry db next v e)
        (rw (e, register_all) at h)
]

-- An entry is never replaced.
register_all-keeps :
    (entries : List Instruction) (db db' : InstructionDb) (o : ℕ) (entry : Instruction)
    → db.instructions o ≡ some entry
    → register_all entries db ≡ some db'
    → db'.instructions o ≡ some entry
unfolding register_all
register_all-keeps [] db db' o entry p h = ground arith
register_all-keeps (first ∷ rest) db db' o entry p h = elim (Option-cases (register first db)) [
  | inl e ↦ absurd (let failed = rw (e, register_all) at h in cc)
  | inr (next, e) ↦
      register_all-keeps rest next db' o entry
        (unfold register is_opcode_available is_none in ground arith) (rw (e, register_all) at h)
]

-- Where `Register` succeeds on each of a list of entries, every one of them is found under its
-- opcode afterwards.
pub register_all-found :
    (entries : List Instruction) (db db' : InstructionDb)
    → register_all entries db ≡ some db'
    → All (λ entry. db'.instructions entry.opcode ≡ some entry) entries
unfolding register_all
register_all-found [] db db' h = tt
register_all-found (entry ∷ rest) db db' h = elim (Option-cases (register entry db)) [
  | inl e ↦ absurd (let failed = rw (e, register_all) at h in cc)
  | inr (next, e) ↦
      let h' = rw (e, register_all) at h in
      (
        register_all-keeps rest next db' entry.opcode entry (unfold register in ground arith) h',
        register_all-found rest next db' h',
      )
]
