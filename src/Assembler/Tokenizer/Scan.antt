-- ===== src/Assembler/Tokenizer/Scan.antt =====
-- assembler/tokenizer.cc: `Tokenizer::TokenizeLine`. The position rises in each round of its loop, so
-- one round more than the line is long is fuel enough.
use sicxe.Base.{
  ℕ, zero, suc, ◌+◌, Bool, true, false, ◌&&◌, ◌||◌, ◌==◌, ltb, leb, List, [], ◌∷◌, ◌++◌, length,
  get_or, if◌then◌else◌,
}
use sicxe.Base.Text.{Bytes}
use sicxe.Machine.Float.{Fpu}
use sicxe.Object.Text.{between}
use sicxe.Assembler.Token.{Token}
use sicxe.Assembler.Errors.{
  Message, invalid_character, unmatched_quote, name_invalid_char, integer_dec_invalid_char,
  integer_bin_invalid_char, integer_oct_invalid_char, integer_hex_invalid_char, data_invalid_char,
  incomplete_escape, invalid_escape, comment_invalid_char, PositionedError, failed_at,
}
use sicxe.Assembler.Outcome.{Outcome, value, assertion_failed, out_of_fuel, ◌>>=◌}
use sicxe.Assembler.Tokenizer.{
  StateId, state_none, state_name, integer_dec, integer_bin, integer_oct, integer_hex, data_char,
  data_hex, data_float, comment, state_operator, invalid, up_to_integer_hex, mask_stop,
  mask_valid_name, mask_valid_hex, mask_valid_float, start_lookup, Tokenizing,
}
use sicxe.Assembler.Tokenizer.Commit.{
  position_of, commit_operator, commit_name, commit_comment, commit_integer, commit_data_char,
  commit_data_hex, commit_data_float, commit_digits,
}

-- The states that a character and the one after it start.
abbrev pub number_state : ℕ → ℕ → StateId
number_state c next =
    if c == 48 && (next == 98 || next == 66)
    then integer_bin
    else (if c == 48 && (next == 111 || next == 79)
        then integer_oct
        else (if c == 48 && (next == 120 || next == 88) then integer_hex else integer_dec))

abbrev pub name_state : ℕ → ℕ → StateId
name_state c next =
    if next == 39 && (c == 99 || c == 67)
    then data_char
    else (if next == 39 && (c == 120 || c == 88)
        then data_hex
        else (if next == 39 && (c == 102 || c == 70) then data_float else state_name))

abbrev pub extended_state : StateId → ℕ → ℕ → StateId
extended_state integer_dec c next = number_state c next
extended_state state_name c next = name_state c next
extended_state state c next = state

-- The state is one that takes two characters to start.
abbrev pub takes_two : StateId → Bool
takes_two integer_bin = true
takes_two integer_oct = true
takes_two integer_hex = true
takes_two data_char = true
takes_two data_hex = true
takes_two data_float = true
takes_two state_none = false
takes_two state_name = false
takes_two integer_dec = false
takes_two comment = false
takes_two state_operator = false
takes_two invalid = false

-- The byte that an escape sequence stands for.
abbrev pub escaped : ℕ → List ℕ
escaped c =
    if c == 92
    then 92 ∷ []
    else (if c == 116
        then 9 ∷ []
        else (if c == 39
            then 39 ∷ []
            else (if c == 110 then 10 ∷ [] else (if c == 48 then 0 ∷ [] else []))))

abbrev pub start_state : StateId → ℕ → Tokenizing → Tokenizing
start_state state position s = record s {
  state_id = state;
  token_start = s.position;
  position = position;
}

module _ (row : ℕ) (line : Bytes) where
  abbrev pub current_of : Tokenizing → ℕ
  current_of s = get_or line s.position 0

  abbrev pub next_of : Tokenizing → ℕ
  next_of s = get_or line (s.position + 1) 0

  -- `TokenStart`, from the state that the table gives for the character.
  unfoldable pub start_token : StateId → Tokenizing → Outcome PositionedError Tokenizing
  unfolding commit_operator
  start_token invalid s = failed_at invalid_character (position_of row line s.position 1)
  start_token state_operator s = commit_operator row line (start_state state_operator s.position s)
  start_token state s =
      let extended = extended_state state (current_of s) (next_of s) in
      let started =
        start_state extended (if takes_two extended then s.position + 1 else s.position) s in
      if ltb (s.position + 1) (length line)
      then value started
      else value (start_state state s.position s)

  -- The characters of a state.
  abbrev pub check : Bool → Message → Tokenizing → Outcome PositionedError Tokenizing
  check valid message s =
      if valid then value s else failed_at message (position_of row line s.position 1)

  -- An escape sequence.
  unfoldable pub escape : List ℕ → Tokenizing → Outcome PositionedError Tokenizing
  escape [] s = failed_at invalid_escape (position_of row line s.position 2)
  escape (c ∷ rest) s =
      value (record s { data_char_value = s.data_char_value ++ c ∷ []; position = s.position + 1 })

  -- `AdvanceDataChar`.
  unfoldable pub advance_data_char : Tokenizing → Outcome PositionedError Tokenizing
  unfolding escape
  advance_data_char s =
      let c = current_of s in
      if between 0x20 0x7e c
      then (if c == 92
          then (if leb (length line) (s.position + 1)
              then failed_at incomplete_escape (position_of row line s.position 1)
              else escape (escaped (next_of s)) s)
          else value (record s { data_char_value = s.data_char_value ++ c ∷ [] }))
      else failed_at data_invalid_char (position_of row line s.position 1)

  module _ (fpu : Fpu) (strtod : Bytes → fpu.Double × ℕ) where
    -- The first branch on the state, where a token stops.
    unfoldable pub commit_stopped : StateId → Tokenizing → Outcome PositionedError Tokenizing
    unfolding commit_digits
    commit_stopped state_none s = value s
    commit_stopped state_name s = value (commit_name row line s)
    commit_stopped integer_dec s = commit_integer row line s
    commit_stopped integer_bin s = commit_integer row line s
    commit_stopped integer_oct s = commit_integer row line s
    commit_stopped integer_hex s = commit_integer row line s
    commit_stopped data_char s =
        failed_at unmatched_quote (position_of row line (s.token_start + 1) 1)
    commit_stopped data_hex s =
        failed_at unmatched_quote (position_of row line (s.token_start + 1) 1)
    commit_stopped data_float s =
        failed_at unmatched_quote (position_of row line (s.token_start + 1) 1)
    commit_stopped comment s = value (commit_comment row line s)
    commit_stopped state_operator s = value s
    commit_stopped invalid s = value s

    -- The second branch on the state, on the current character.
    unfoldable pub process : StateId → Tokenizing → Outcome PositionedError Tokenizing
    unfolding start_token advance_data_char commit_data_char commit_data_hex commit_data_float
    process state_none s = start_token (start_lookup (current_of s)) s
    process state_name s = check (mask_valid_name (current_of s)) name_invalid_char s
    process integer_dec s = check (between 48 57 (current_of s)) integer_dec_invalid_char s
    process integer_bin s = check (between 48 49 (current_of s)) integer_bin_invalid_char s
    process integer_oct s = check (between 48 55 (current_of s)) integer_oct_invalid_char s
    process integer_hex s = check (mask_valid_hex (current_of s)) integer_hex_invalid_char s
    process data_char s =
        if current_of s == 39 then commit_data_char row line s else advance_data_char s
    process data_hex s =
        if current_of s == 39
        then commit_data_hex row line s
        else check (mask_valid_hex (current_of s)) data_invalid_char s
    process data_float s =
        if current_of s == 39
        then commit_data_float row line fpu strtod s
        else check (mask_valid_float (current_of s)) data_invalid_char s
    process comment s = check (between 0x20 0x7e (current_of s)) comment_invalid_char s
    process state_operator s = assertion_failed
    process invalid s = assertion_failed

    -- A token stops at the end of the line, or at a character that stops it.
    abbrev pub stops : Tokenizing → Bool
    stops s = s.position == length line || up_to_integer_hex s.state_id && mask_stop (current_of s)

    abbrev pub stop_token : Tokenizing → Outcome PositionedError Tokenizing
    stop_token s = if stops s then commit_stopped s.state_id s else value s

    -- The loop.
    unfoldable pub tokenize_from : ℕ → Tokenizing → Outcome PositionedError (List Token)
    unfolding commit_stopped process
    tokenize_from zero s = out_of_fuel
    tokenize_from (suc fuel) s = stop_token s >>= λ t.
        let later = process t.state_id t >>= λ u.
        tokenize_from fuel (record u { position = u.position + 1 }) in
        if s.position == length line then value t.tokens else later

    -- `TokenizeLine`.
    unfoldable pub tokenize_line : Outcome PositionedError (List Token)
    unfolding tokenize_from
    tokenize_line = tokenize_from (suc (length line)) (record {
      state_id = state_none;
      token_start = 0;
      position = 0;
      data_char_value = [];
      tokens = [];
    })
