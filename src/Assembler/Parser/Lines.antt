-- ===== src/Assembler/Parser/Lines.antt =====
-- assembler/parser.cc: `ParseLine`.
use sicxe.Base.{
  ◌+◌, ◌-◌, Bool, true, false, not, ◌&&◌, ◌==◌, Option, none, some, List, [], ◌∷◌, is_empty,
  if◌then◌else◌,
}
use sicxe.Base.Text.{Bytes}
use sicxe.Object.Text.{between}
use sicxe.Isa.{Format, f1, f2, fs34, is_fs34, Instruction}
use sicxe.Isa.Db.{InstructionDb, find_mnemonic}
use sicxe.Assembler.Token.{
  op_add, TokenContent, name_token, operator_token, comment_token, integer_token, data_bin_token,
  data_float_token, Token,
}
use sicxe.Assembler.Errors.{
  expected_mnemonic, whitespace_after_plus, plus_with_directive, plus_with_instruction,
  invalid_mnemonic, unexpected_tokens, PositionedError, failed_at,
}
use sicxe.Assembler.Outcome.{Outcome, value, failed, undefined, ◌>>=◌}
use sicxe.Assembler.Node.{
  DirectiveId, name_to_id, InstructionInfo, NodeBody, empty, instruction_f1, Node,
}
use sicxe.Assembler.Parser.{Parsed, is_operator_id, is_name, end_of_line_error}
use sicxe.Assembler.Parser.Operands.{parse_f2, parse_fs34}
use sicxe.Assembler.Parser.Directives.{parse_directive}

-- `Parser::Config`.
pub record Config : Type 0 where
  pub instruction_db : InstructionDb
  pub case_sensitive : Bool
  pub allow_brackets : Bool

-- `StringToUppercase`.
unfoldable pub string_to_uppercase : Bytes → Bytes
string_to_uppercase [] = []
string_to_uppercase (c ∷ rest) = (if between 97 122 c then c - 32 else c) ∷ string_to_uppercase rest

abbrev pub is_comment : TokenContent → Bool
is_comment comment_token = true
is_comment (name_token name) = false
is_comment (operator_token op) = false
is_comment (integer_token n) = false
is_comment (data_bin_token bytes) = false
is_comment (data_float_token bytes) = false

-- A comment at the end of the tokens is taken off them.
unfoldable pub split_comment : List Token → List Token × Option Token
split_comment [] = ([], none)
split_comment (t ∷ rest) =
    let r = split_comment rest in
    if is_empty rest && is_comment t.content then ([], some t) else (t ∷ r.0, r.1)

-- A token is taken, and another one must follow.
abbrev pub take_token : Token → List Token → Parsed (Option Token)
take_token t [] = end_of_line_error t
take_token t (u ∷ rest) = value (some t, u ∷ rest)

-- A name in the first column is a label.
abbrev pub take_label : List Token → Parsed (Option Token)
take_label [] = undefined
take_label (t ∷ rest) =
    if is_name t.content && t.pos.column == 0 then take_token t rest else value (none, t ∷ rest)

-- A '+' before the mnemonic.
abbrev pub take_plus : List Token → Parsed (Option Token)
take_plus [] = undefined
take_plus (t ∷ rest) =
    if is_operator_id op_add t.content then take_token t rest else value (none, t ∷ rest)

abbrev pub is_present {ℓ} : {A : Type ℓ} → Option A → Bool
is_present none = false
is_present (some a) = true

-- A '+' stands right before the mnemonic.
abbrev pub check_plus : Option Token → Token → Outcome PositionedError Token
check_plus none mnemonic = value mnemonic
check_plus (some plus) mnemonic =
    if not (mnemonic.pos.column == plus.pos.column + 1)
    then failed
        (record { message = whitespace_after_plus; span = some (plus.pos, mnemonic.pos) } ∷ [])
    else value mnemonic

abbrev pub take_mnemonic : Option Token → List Token → Parsed Token
take_mnemonic plus [] = undefined
take_mnemonic plus (t ∷ rest) =
    if is_name t.content
    then (check_plus plus t >>= λ mnemonic. value (mnemonic, rest))
    else failed_at expected_mnemonic t.pos

-- `CreateInstructionNode`, and the visit of the node.
unfoldable pub parse_operands :
    Bool → Bool → Format → InstructionInfo → List Token → Parsed NodeBody
unfolding parse_f2 parse_fs34
parse_operands allow_brackets extended f1 info tokens = value (instruction_f1 info, tokens)
parse_operands allow_brackets extended f2 info tokens = parse_f2 info tokens
parse_operands allow_brackets extended fs34 info tokens =
    parse_fs34 allow_brackets extended info tokens

module _ (config : Config) where
  abbrev pub mnemonic_name : Token → Bytes
  mnemonic_name mnemonic =
      if config.case_sensitive then mnemonic.value else string_to_uppercase mnemonic.value

  -- The branch on a mnemonic that is not the name of a directive.
  unfoldable pub parse_instruction :
      Option Token → Token → Option Instruction → List Token → Parsed NodeBody
  unfolding parse_operands
  parse_instruction none mnemonic none tokens = failed_at invalid_mnemonic mnemonic.pos
  parse_instruction (some plus) mnemonic none tokens = failed_at invalid_mnemonic mnemonic.pos
  parse_instruction none mnemonic (some entry) tokens =
      parse_operands config.allow_brackets false entry.format
        (record { opcode = entry.opcode; syntax = entry.syntax; mnemonic = mnemonic }) tokens
  parse_instruction (some plus) mnemonic (some entry) tokens =
      if not (is_fs34 entry.format)
      then failed_at plus_with_instruction plus.pos
      else parse_operands config.allow_brackets true entry.format
          (record { opcode = entry.opcode; syntax = entry.syntax; mnemonic = mnemonic }) tokens

  -- The branch on the mnemonic.
  unfoldable pub parse_body :
      Option DirectiveId → Option Token → Option Token → Token → List Token → Parsed NodeBody
  unfolding parse_directive parse_instruction find_mnemonic string_to_uppercase
  parse_body (some id) label none mnemonic tokens = parse_directive id mnemonic label tokens
  parse_body (some id) label (some plus) mnemonic tokens = failed_at plus_with_directive plus.pos
  parse_body none label plus mnemonic tokens =
      parse_instruction plus mnemonic (find_mnemonic config.instruction_db (mnemonic_name mnemonic))
        tokens

  abbrev pub last_of : Token → List Token → Token
  last_of t [] = t
  last_of t (u ∷ rest) = last_of u rest

  -- No token is left over.
  abbrev pub finish_line :
      Option Token → Option Token → NodeBody × List Token → Outcome PositionedError Node
  finish_line label comment (body, []) =
      value (record { body = body; label = label; comment = comment })
  finish_line label comment (body, t ∷ rest) =
      failed
        (record { message = unexpected_tokens; span = some (t.pos, (last_of t rest).pos) } ∷ [])

  -- `ParseLine` on the tokens before the comment.
  unfoldable pub parse_statement : List Token → Option Token → Outcome PositionedError Node
  unfolding parse_body name_to_id string_to_uppercase
  parse_statement [] comment = value (record { body = empty; label = none; comment = comment })
  parse_statement (t ∷ rest) comment = take_label (t ∷ rest) >>= λ l. take_plus l.1 >>= λ p.
      take_mnemonic p.0 p.1 >>= λ m.
      parse_body (name_to_id (mnemonic_name m.0)) l.0 p.0 m.0 m.1 >>= λ r. finish_line l.0 comment r

  -- `ParseLine`.
  unfoldable pub parse_line : List Token → Outcome PositionedError Node
  unfolding split_comment parse_statement
  parse_line tokens = parse_statement (split_comment tokens).0 (split_comment tokens).1
