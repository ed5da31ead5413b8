-- ===== src/Assembler/Parser/Loaded.antt =====
-- The tables of instructions that `LoadFromFile` makes are ones that the parser can use.
use sicxe.Base.{
  ℕ, ◌+◌, ◌≡◌, refl, sym, subst, ◌/◌, update, if◌then◌else◌, true, not, ◌||◌, ◌==◌, ltb, Option,
  none, some, List, [], ◌∷◌, ◌++◌, All, inl, inr, Bool-cases,
}
use sicxe.Base.Text.{Bytes, same_bytes}
use sicxe.Isa.{Format, f1, f2, fs34, is_fs34, Instruction}
use sicxe.Isa.Db.{InstructionDb, lookup, find_mnemonic, is_none, is_opcode_available, register}
use sicxe.Isa.Db.Invariant.{IsConsistent, register-IsConsistent}
use sicxe.Isa.Db.Loading.{
  Word, is_space, is_alnum, to_upper, word_before, split_words, opcode_number, is_mnemonic, find_in,
  syntax_names, format_named, syntax_named, or_fail, after_register, check_opcode, check_mnemonic,
  register_checked, load_entry, load_words, load_from_file,
}
use sicxe.Assembler.Errors.{Message, failed_at}
use sicxe.Assembler.Token.{Position}
use sicxe.Assembler.Outcome.{value, Returns, Returns-bind}
use sicxe.Assembler.Expression.Terms.{Anything}
use sicxe.Assembler.Parser.Nodes.{IsFs34Syntax}
use sicxe.Assembler.Parser.Accepted.{HasSyntax, HasSyntaxes}

-- A table that the machine and the parser can use.
abbrev pub IsUsableTable : InstructionDb → Type 0
IsUsableTable db = IsConsistent db × HasSyntaxes db

split_words-Returns :
    (row column : ℕ) (current line : Bytes) → Returns Anything (split_words row column current line)
unfolding split_words
split_words-Returns row column current [] = tt
split_words-Returns row column current (c ∷ rest) = elim (Bool-cases (is_space c)) [
  | inl e ↦ rw e (
      Returns-bind Anything Anything (split_words row (column + 1) [] rest)
        (λ words. value (word_before row column current ++ words))
        (split_words-Returns row (column + 1) [] rest) (λ words _. tt))
  | inr e ↦ elim (Bool-cases (not (is_alnum c || c == 95))) [
    | inl f ↦ rw (e, f) tt
    | inr f ↦ rw (e, f) (split_words-Returns row (column + 1) (current ++ to_upper c ∷ []) rest)
  ]
]

module _ (message : Message) (pos : Position) where
  or_fail-Returns :
      {A : Type 0} (o : Option A) → Returns Anything (or_fail (failed_at message pos) o)
  or_fail-Returns none = tt
  or_fail-Returns (some a) = tt

  find_in-Returns :
      {A : Type 0} (P : A → Type 0) (name : Bytes) (entries : List (Bytes × A))
      → All (λ p. P p.1) entries
      → Returns P (or_fail (failed_at message pos) (find_in name entries))
  unfolding find_in
  find_in-Returns P name [] v = tt
  find_in-Returns P name ((key, a) ∷ rest) v = elim (Bool-cases (same_bytes key name)) [
    | inl e ↦ rw e v.0
    | inr e ↦ rw e (find_in-Returns P name rest v.1)
  ]

  syntax_named-Returns :
      (format : Format) (name : Bytes)
      → Returns
          (λ syntax. is_fs34 format ≡ true → IsFs34Syntax syntax)
          (or_fail (failed_at message pos) (syntax_named format name))
  unfolding syntax_named
  syntax_named-Returns f1 name = find_in-Returns _ name (syntax_names f1) (λ e. absurd (cc), tt)
  syntax_named-Returns f2 name =
      find_in-Returns _ name (syntax_names f2)
        (λ e. absurd (cc), (λ e. absurd (cc), (λ e. absurd (cc), tt)))
  syntax_named-Returns fs34 name =
      find_in-Returns _ name (syntax_names fs34)
        (λ e. tt, (λ e. tt, (λ e. tt, (λ e. tt, (λ e. tt, (λ e. tt, (λ e. tt, tt)))))))

-- A name that is not in the table.
abbrev IsFree : InstructionDb → Bytes → Type 0
IsFree db name = find_mnemonic db name ≡ none

check_mnemonic-Returns :
    (word : Word) (db : InstructionDb) (o : Option Instruction)
    → find_mnemonic db word.text ≡ o
    → Returns (IsFree db) (check_mnemonic word db o)
check_mnemonic-Returns word db none e = e
check_mnemonic-Returns word db (some entry) e = tt

name-Returns :
    (word : Word) (db : InstructionDb)
    → Returns (IsFree db) (
        if not (is_mnemonic word.text)
        then failed_at Message.invalid_mnemonic word.place
        else check_mnemonic word db (find_mnemonic db word.text))
name-Returns word db = elim (Bool-cases (not (is_mnemonic word.text))) [
  | inl e ↦ rw e tt
  | inr e ↦ rw e (check_mnemonic-Returns word db (find_mnemonic db word.text) refl)
]

check_opcode-Returns : (word : Word) (n : ℕ) → Returns Anything (check_opcode word n)
check_opcode-Returns word n = elim (Bool-cases (ltb 0xff n)) [ inl e ↦ rw e tt | inr e ↦ rw e tt ]

-- The table that `Register` leaves where it passes its assertions.
abbrev extended_table : Instruction → InstructionDb → InstructionDb
extended_table entry db = record {
  unavailable_mask =
      if not (entry.opcode == 2)
      then update db.unavailable_mask (entry.opcode / 4) true
      else db.unavailable_mask;
  instructions = update db.instructions entry.opcode (some entry);
  mnemonic_map = (entry.mnemonic, entry) ∷ db.mnemonic_map;
}

register_lem :
    (entry : Instruction) (db : InstructionDb)
    → is_opcode_available db entry.opcode entry.format ≡ true
    → lookup entry.mnemonic db.mnemonic_map ≡ none
    → register entry db ≡ some (extended_table entry db)
unfolding register is_none
register_lem entry db e f = rw (e, f, register) refl

after_register-Returns :
    (entry : Instruction) (db : InstructionDb)
    → IsUsableTable db
    → HasSyntax entry
    → is_opcode_available db entry.opcode entry.format ≡ true
    → lookup entry.mnemonic db.mnemonic_map ≡ none
    → Returns IsUsableTable (after_register (register entry db))
after_register-Returns entry db v s e f =
    let h = register_lem entry db e f in
    subst (λ o. Returns IsUsableTable (after_register o)) (sym h)
      (register-IsConsistent entry db (extended_table entry db) v.0 h, (s, v.1))

register_checked-Returns :
    (word : Word) (entry : Instruction) (db : InstructionDb)
    → IsUsableTable db
    → HasSyntax entry
    → IsFree db entry.mnemonic
    → Returns IsUsableTable (register_checked word entry db)
unfolding find_mnemonic
register_checked-Returns word entry db v s f =
    elim (Bool-cases (is_opcode_available db entry.opcode entry.format)) [
      | inl e ↦ rw e (after_register-Returns entry db v s e f)
      | inr e ↦ rw e tt
    ]

load_entry-Returns :
    (w0 w1 w2 w3 : Word) (db : InstructionDb)
    → IsUsableTable db
    → Returns IsUsableTable (load_entry w0 w1 w2 w3 db)
unfolding load_entry
load_entry-Returns w0 w1 w2 w3 db v =
    Returns-bind Anything IsUsableTable _ _ (or_fail-Returns _ w0.place (opcode_number w0.text))
      λ n _.
        Returns-bind Anything IsUsableTable (check_opcode w0 n) _ (check_opcode-Returns w0 n)
          λ opcode _.
            Returns-bind (IsFree db) IsUsableTable _ _ (name-Returns w1 db) λ mnemonic free.
              Returns-bind Anything IsUsableTable _ _
                (or_fail-Returns _ w2.place (format_named w2.text))
                λ format _.
                  Returns-bind (λ s. is_fs34 format ≡ true → IsFs34Syntax s) IsUsableTable _ _
                    (syntax_named-Returns _ w3.place format w3.text)
                    λ syntax fits. register_checked-Returns w0 _ db v fits free

load_words-Returns :
    (words : List Word) (db : InstructionDb)
    → IsUsableTable db
    → Returns IsUsableTable (load_words words db)
unfolding load_words
load_words-Returns [] db v = v
load_words-Returns (w0 ∷ []) db v = tt
load_words-Returns (w0 ∷ w1 ∷ []) db v = tt
load_words-Returns (w0 ∷ w1 ∷ w2 ∷ []) db v = tt
load_words-Returns (w0 ∷ w1 ∷ w2 ∷ w3 ∷ []) db v = load_entry-Returns w0 w1 w2 w3 db v
load_words-Returns (w0 ∷ w1 ∷ w2 ∷ w3 ∷ w4 ∷ rest) db v = tt

-- From a table in which the array and the map agree and the instructions of format 3/4 have a syntax of
-- that format, `LoadFromFile` ends on any lines, fails no assertion of `Register`, and gives errors or
-- such a table.
pub load_from_file-IsUsableTable :
    (row : ℕ) (lines : List Bytes) (db : InstructionDb)
    → IsUsableTable db
    → Returns IsUsableTable (load_from_file row lines db)
unfolding load_from_file
load_from_file-IsUsableTable row [] db v = v
load_from_file-IsUsableTable row (line ∷ rest) db v =
    Returns-bind Anything IsUsableTable (split_words row 0 [] line) _
      (split_words-Returns row 0 [] line)
      λ words _.
        Returns-bind IsUsableTable IsUsableTable (load_words words db) _
          (load_words-Returns words db v)
          λ next w. load_from_file-IsUsableTable (row + 1) rest next w
