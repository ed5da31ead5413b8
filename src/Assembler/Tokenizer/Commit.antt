-- ===== src/Assembler/Tokenizer/Commit.antt =====
-- assembler/tokenizer.cc: the end of a token.
use sicxe.Base.{
  ℕ, ◌+◌, ◌-◌, ◌*◌, ◌%◌, Bool, true, false, ◌&&◌, ◌==◌, ltb, leb, Option, none, some, [], ◌∷◌, ◌++◌,
  length, get_or, drop, slice, if◌then◌else◌,
}
use sicxe.Base.Text.{Bytes}
use sicxe.Machine.Float.{Fpu, encode_float_data}
use sicxe.Object.Text.{between}
use sicxe.Assembler.Token.{
  TokenContent, name_token, operator_token, comment_token, integer_token, data_bin_token,
  data_float_token, Position, Token,
}
use sicxe.Assembler.Errors.{
  invalid_integer, integer_too_large, empty_data, invalid_float, PositionedError, failed_at,
}
use sicxe.Assembler.Outcome.{Outcome, value, assertion_failed}
use sicxe.Assembler.Tokenizer.{
  StateId, state_none, state_name, integer_dec, integer_bin, integer_oct, integer_hex, data_char,
  data_hex, data_float, comment, state_operator, invalid, operator_of, Tokenizing,
}

-- The value of a digit, which is below the base where it is one.
abbrev pub digit_value : ℕ → ℕ
digit_value c =
    if between 48 57 c
    then c - 48
    else (if between 97 122 c then c - 97 + 10 else (if between 65 90 c then c - 65 + 10 else 36))

-- `strtoull` on digits: the number, and whether all bytes were read. A number out of range is too
-- large for the caller anyway.
unfoldable pub strtoull : ℕ → Bytes → ℕ → ℕ × Bool
strtoull base [] n = (n, true)
strtoull base (c ∷ rest) n =
    let later = strtoull base rest (n * base + digit_value c) in
    if ltb (digit_value c) base then later else (n, false)

-- The base, and how many bytes stand before the digits.
abbrev pub base_of : StateId → Option (ℕ × ℕ)
base_of integer_dec = some (10, 0)
base_of integer_bin = some (2, 2)
base_of integer_oct = some (8, 2)
base_of integer_hex = some (16, 2)
base_of state_none = none
base_of state_name = none
base_of data_char = none
base_of data_hex = none
base_of data_float = none
base_of comment = none
base_of state_operator = none
base_of invalid = none

-- `HexDigitValue`.
abbrev hex_digit_value : ℕ → ℕ
hex_digit_value c =
    if between 48 57 c
    then c - 48
    else (if between 97 102 c then c - 97 + 10 else (if between 65 70 c then c - 65 + 10 else 0))

-- The loop over pairs of digits.
unfoldable pub hex_pairs : Bytes → Bytes
hex_pairs [] = []
hex_pairs (a ∷ []) = []
hex_pairs (a ∷ b ∷ rest) = (hex_digit_value a * 16 + hex_digit_value b) ∷ hex_pairs rest

unfoldable pub hex_data : Bytes → Bytes
unfolding hex_pairs
hex_data [] = []
hex_data (c ∷ rest) =
    if length (c ∷ rest) % 2 == 1 then hex_digit_value c ∷ hex_pairs rest else hex_pairs (c ∷ rest)

module _ (row : ℕ) (line : Bytes) where
  -- `TextFile::Position`, and the token that has it.
  abbrev pub position_of : ℕ → ℕ → Position
  position_of column size = record { row = row; column = column; size = size }

  abbrev pub token_of : TokenContent → ℕ → ℕ → Token
  token_of content column size = record {
    content = content;
    pos = position_of column size;
    value = slice column size line;
  }

  -- The token goes to the others.
  abbrev pub committed : TokenContent → ℕ → Tokenizing → Tokenizing
  committed content size s = record s {
    state_id = state_none;
    tokens = s.tokens ++ token_of content s.token_start size ∷ [];
  }

  -- `CommitOperator`.
  unfoldable pub commit_operator : Tokenizing → Outcome PositionedError Tokenizing
  unfolding operator_of
  commit_operator s = elim (operator_of (get_or line s.token_start 0)) [
    | some id ↦ value (committed (operator_token id) 1 s)
    | none ↦ assertion_failed
  ]

  -- `CommitName` and `CommitComment`.
  abbrev pub commit_name : Tokenizing → Tokenizing
  commit_name s =
      let size = s.position - s.token_start in
      committed (name_token (slice s.token_start size line)) size s

  abbrev pub commit_comment : Tokenizing → Tokenizing
  commit_comment s = committed comment_token (s.position - s.token_start) s

  -- What follows `strtoull`.
  abbrev pub keep_integer : ℕ × Bool → Tokenizing → Outcome PositionedError Tokenizing
  keep_integer (n, at_end) s =
      let size = s.position - s.token_start in
      if ltb 0xffff_ffff n
      then failed_at integer_too_large (position_of s.token_start size)
      else (if at_end then value (committed (integer_token n) size s) else assertion_failed)

  -- `CommitInteger`, on a base and the bytes before the digits.
  unfoldable pub commit_digits : ℕ → ℕ → Tokenizing → Outcome PositionedError Tokenizing
  unfolding strtoull
  commit_digits base prefix s =
      let size = s.position - s.token_start in
      if ltb 0 prefix && leb size prefix
      then failed_at invalid_integer (position_of s.token_start size)
      else keep_integer (strtoull base (drop prefix (slice s.token_start size line)) 0) s

  abbrev pub commit_based : Option (ℕ × ℕ) → Tokenizing → Outcome PositionedError Tokenizing
  commit_based none s = assertion_failed
  commit_based (some (base, prefix)) s = commit_digits base prefix s

  abbrev pub commit_integer : Tokenizing → Outcome PositionedError Tokenizing
  commit_integer s = commit_based (base_of s.state_id) s

  -- `CommitDataChar`.
  unfoldable pub commit_data_char : Tokenizing → Outcome PositionedError Tokenizing
  commit_data_char s =
      let size = s.position - s.token_start + 1 in
      if leb size 3
      then failed_at empty_data (position_of s.token_start size)
      else value
          (record (committed (data_bin_token s.data_char_value) size s) { data_char_value = [] })

  -- `CommitDataHex`.
  unfoldable pub commit_data_hex : Tokenizing → Outcome PositionedError Tokenizing
  unfolding hex_data
  commit_data_hex s =
      let size = s.position - s.token_start + 1 in
      if leb size 3
      then failed_at empty_data (position_of s.token_start size)
      else value
          (committed (data_bin_token (hex_data (slice (s.token_start + 2) (size - 3) line))) size s)

  -- `CommitDataFloat`. `strtod` gives a number and how many bytes it read.
  unfoldable pub commit_data_float :
      (fpu : Fpu) → (Bytes → fpu.Double × ℕ) → Tokenizing → Outcome PositionedError Tokenizing
  commit_data_float fpu strtod s =
      let size = s.position - s.token_start + 1 in
      let (number, count) = strtod (drop 2 (slice s.token_start size line)) in
      if leb size 3
      then failed_at empty_data (position_of s.token_start size)
      else (if count + 2 == size - 1
          then value (committed (data_float_token (encode_float_data fpu number)) size s)
          else failed_at invalid_float (position_of s.token_start size))
