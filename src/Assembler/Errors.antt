-- ===== src/Assembler/Errors.antt =====
-- The errors that the assembler adds to the `ErrorDB`.
use sicxe.Base.{Option, some, [], ◌∷◌}
use sicxe.Assembler.Token.{Position}
use sicxe.Assembler.Outcome.{Outcome, failed}

-- assembler/expression_util.cc, without the positions.
pub data ExpressionError : Type 0 where
  undefined_symbol external_not_allowed symbol_from_block overflow : ExpressionError
  external_operand relative_operand division_by_zero local_relative_symbol
        not_relative_nor_absolute :
      ExpressionError

-- assembler/tokenizer.cc, assembler/parser.cc and common/instruction_db.cc.
pub data Message : Type 0 where
  invalid_character unmatched_quote name_invalid_char : Message
  integer_dec_invalid_char integer_bin_invalid_char integer_oct_invalid_char : Message
  integer_hex_invalid_char invalid_integer integer_too_large : Message
  data_invalid_char empty_data incomplete_escape invalid_escape invalid_float : Message
  comment_invalid_char : Message
  end_of_line expected_mnemonic whitespace_after_plus plus_with_directive : Message
  plus_with_instruction invalid_mnemonic unexpected_tokens : Message
  expected_register invalid_register expected_comma expected_integer operand_too_large : Message
  expected_value expected_operator unmatched_bracket expected_bracket : Message
  immediate_store literal_store immediate_float literal_too_long expected_data : Message
  float_literal expected_index index_not_simple : Message
  program_name_required program_name_too_long label_not_allowed symbol_name_required : Message
  expected_block_name expected_symbol symbol_too_long : Message
  unexpected_input opcode_not_number opcode_out_of_range duplicate_mnemonic : Message
  unknown_format unknown_syntax opcode_conflict : Message
  code_before_start second_start code_after_end no_code no_end : Message

-- From one position to another, which are the same where there is one; or no position.
pub record PositionedError : Type 0 where
  pub message : Message
  pub span : Option (Position × Position)

abbrev pub failed_at {ℓ} : {A : Type ℓ} → Message → Position → Outcome PositionedError A
failed_at message pos = failed (record { message = message; span = some (pos, pos) } ∷ [])
