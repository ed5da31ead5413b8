-- ===== src/Isa/Db/Loading.antt =====
-- common/instruction_db.cc: `InstructionDB::LoadFromFile`. What was registered before an error stays in
-- the table of the source; here an error is all that is left.
use sicxe.Base.{
  ℕ, ◌+◌, ◌-◌, Bool, true, not, ◌&&◌, ◌||◌, ◌==◌, ltb, Option, none, some, List, [], ◌∷◌, ◌++◌,
  length, get_or, drop, is_empty, if◌then◌else◌,
}
use sicxe.Base.Text.{Bytes, codes, same_bytes}
use sicxe.Object.Text.{between}
use sicxe.Isa.{Format, f1, f2, fs34, Syntax, Instruction}
use sicxe.Isa.Db.{InstructionDb, is_opcode_available, register, find_mnemonic}
use sicxe.Assembler.Token.{Position}
use sicxe.Assembler.Errors.{
  invalid_character, end_of_line, invalid_mnemonic, unexpected_input, opcode_not_number,
  opcode_out_of_range, duplicate_mnemonic, unknown_format, unknown_syntax, opcode_conflict,
  PositionedError, failed_at,
}
use sicxe.Assembler.Outcome.{Outcome, value, failed, assertion_failed, ◌>>=◌}
use sicxe.Assembler.Tokenizer.Commit.{strtoull}

-- A word of a line, in upper case.
pub record Word : Type 0 where
  pub text : Bytes
  pub place : Position

abbrev is_alpha : ℕ → Bool
is_alpha c = between 97 122 c || between 65 90 c

-- For a byte above 127 `isalnum` has a negative argument, on which C++ puts no meaning; such a byte is
-- refused here.
abbrev pub is_alnum : ℕ → Bool
is_alnum c = is_alpha c || between 48 57 c

abbrev pub to_upper : ℕ → ℕ
to_upper c = if between 97 122 c then c - 32 else c

abbrev pub is_space : ℕ → Bool
is_space c = c == 32 || c == 9

-- The word that ends before a column.
abbrev pub word_before : ℕ → ℕ → Bytes → List Word
word_before row column text =
    if is_empty text
    then []
    else record {
      text = text;
      place = record { row = row; column = column - length text; size = length text };
    }
      ∷ []

-- The loop over the columns, with `current_token`.
unfoldable pub split_words : ℕ → ℕ → Bytes → Bytes → Outcome PositionedError (List Word)
split_words row column current [] = value (word_before row column current)
split_words row column current (c ∷ rest) =
    let later =
      split_words row (column + 1) (if is_space c then [] else current ++ to_upper c ∷ []) rest in
    if is_space c
    then (later >>= λ words. value (word_before row column current ++ words))
    else (if not (is_alnum c || c == 95)
        then failed_at invalid_character (record { row = row; column = column; size = 1 })
        else later)

-- `strtoll` on a word that must be a number as a whole.
abbrev number_in : ℕ → Bytes → Option ℕ
number_in base text =
    let r = strtoull base text 0 in if is_empty text then none else (if r.1 then some r.0 else none)

-- "0X" with something after it.
abbrev has_prefix : Bytes → Bool
has_prefix text = get_or text 0 0 == 48 && get_or text 1 0 == 88 && ltb 2 (length text)

-- In base 16 `strtoll` itself takes such a prefix off what it reads.
unfoldable pub opcode_number : Bytes → Option ℕ
unfolding strtoull
opcode_number text =
    let digits = drop 2 text in
    if has_prefix text
    then number_in 16 (if has_prefix digits then drop 2 digits else digits)
    else number_in 10 text

abbrev all_alnum : Bytes → Bool
all_alnum [] = true
all_alnum (c ∷ rest) = is_alnum c && all_alnum rest

abbrev pub is_mnemonic : Bytes → Bool
is_mnemonic [] = true
is_mnemonic (c ∷ rest) = is_alpha c && all_alnum rest

unfoldable pub find_in {ℓ} : {A : Type ℓ} → Bytes → List (Bytes × A) → Option A
find_in name [] = none
find_in name ((key, a) ∷ rest) = if same_bytes key name then some a else find_in name rest

-- `CreateFormatNameMap`.
abbrev format_names : List (Bytes × Format)
format_names = (codes "F1", f1) ∷ (codes "F2", f2) ∷ (codes "FS34", fs34) ∷ []

-- `CreateSyntaxNameMapF1`, `CreateSyntaxNameMapF2` and `CreateSyntaxNameMapFS34`.
abbrev pub syntax_names : Format → List (Bytes × Syntax)
syntax_names f1 = (codes "NONE", Syntax.f1_none) ∷ []
syntax_names f2 =
    (codes "REG_REG", Syntax.f2_reg_reg)
    ∷ (codes "REG_N", Syntax.f2_reg_n)
    ∷ (codes "REG", Syntax.f2_reg)
    ∷ []
syntax_names fs34 =
    (codes "LOAD_W", Syntax.fs34_load_w)
    ∷ (codes "LOAD_B", Syntax.fs34_load_b)
    ∷ (codes "LOAD_F", Syntax.fs34_load_f)
    ∷ (codes "STORE_W", Syntax.fs34_store_w)
    ∷ (codes "STORE_BX", Syntax.fs34_store_b)
    ∷ (codes "STORE_F", Syntax.fs34_store_f)
    ∷ (codes "NONE", Syntax.fs34_none)
    ∷ []

unfoldable pub format_named : Bytes → Option Format
unfolding find_in
format_named name = find_in name format_names

unfoldable pub syntax_named : Format → Bytes → Option Syntax
unfolding find_in
syntax_named format name = find_in name (syntax_names format)

abbrev pub or_fail {ℓ} :
    {A : Type ℓ} → Outcome PositionedError A → Option A → Outcome PositionedError A
or_fail otherwise none = otherwise
or_fail otherwise (some a) = value a

-- What `Register` asserts.
abbrev pub after_register : Option InstructionDb → Outcome PositionedError InstructionDb
after_register none = assertion_failed
after_register (some db) = value db

abbrev pub check_opcode : Word → ℕ → Outcome PositionedError ℕ
check_opcode word n = if ltb 0xff n then failed_at opcode_out_of_range word.place else value n

abbrev pub check_mnemonic :
    Word → InstructionDb → Option Instruction → Outcome PositionedError Bytes
check_mnemonic word db (some entry) = failed_at duplicate_mnemonic word.place
check_mnemonic word db none = value word.text

-- The end of a round: the opcode must be free.
abbrev pub register_checked :
    Word → Instruction → InstructionDb → Outcome PositionedError InstructionDb
register_checked word entry db =
    if not (is_opcode_available db entry.opcode entry.format)
    then failed_at opcode_conflict word.place
    else after_register (register entry db)

-- The four words of a line.
unfoldable pub load_entry :
    Word → Word → Word → Word → InstructionDb → Outcome PositionedError InstructionDb
unfolding opcode_number format_named syntax_named find_mnemonic is_opcode_available register
load_entry w0 w1 w2 w3 db =
    or_fail (failed_at opcode_not_number w0.place) (opcode_number w0.text) >>= λ n.
    check_opcode w0 n >>= λ opcode.
    (if not (is_mnemonic w1.text)
      then failed_at invalid_mnemonic w1.place
      else check_mnemonic w1 db (find_mnemonic db w1.text))
    >>= λ mnemonic. or_fail (failed_at unknown_format w2.place) (format_named w2.text) >>= λ format.
        or_fail (failed_at unknown_syntax w3.place) (syntax_named format w3.text) >>= λ syntax.
        register_checked w0
          (record { opcode = opcode; mnemonic = mnemonic; format = format; syntax = syntax }) db

abbrev last_word : Word → List Word → Word
last_word w [] = w
last_word w (v ∷ rest) = last_word v rest

abbrev pub too_short : Word → Outcome PositionedError InstructionDb
too_short last =
    failed_at end_of_line
      (record { row = last.place.row; column = last.place.column + last.place.size - 1; size = 1 })

-- A round of the loop, on the words of the line.
unfoldable pub load_words : List Word → InstructionDb → Outcome PositionedError InstructionDb
unfolding load_entry
load_words [] db = value db
load_words (w0 ∷ []) db = too_short w0
load_words (w0 ∷ w1 ∷ []) db = too_short w1
load_words (w0 ∷ w1 ∷ w2 ∷ []) db = too_short w2
load_words (w0 ∷ w1 ∷ w2 ∷ w3 ∷ []) db = load_entry w0 w1 w2 w3 db
load_words (w0 ∷ w1 ∷ w2 ∷ w3 ∷ w4 ∷ rest) db =
    failed (
      record { message = unexpected_input; span = some (w4.place, (last_word w4 rest).place) } ∷ [])

-- `LoadFromFile`, from a row on.
unfoldable pub load_from_file :
    ℕ → List Bytes → InstructionDb → Outcome PositionedError InstructionDb
unfolding split_words load_words
load_from_file row [] db = value db
load_from_file row (line ∷ rest) db = split_words row 0 [] line >>= λ words.
    load_words words db >>= λ next. load_from_file (row + 1) rest next
