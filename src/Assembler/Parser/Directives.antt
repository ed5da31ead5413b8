-- ===== src/Assembler/Parser/Directives.antt =====
-- assembler/parser.cc: the operands of directives.
use sicxe.Base.{Bool, true, false, ltb, Option, none, some, List, [], ◌∷◌, length, if◌then◌else◌}
use sicxe.Assembler.Token.{
  op_comma, op_mul, TokenContent, name_token, operator_token, comment_token, integer_token,
  data_bin_token, data_float_token, Token,
}
use sicxe.Assembler.Errors.{
  expected_comma, program_name_required, program_name_too_long, label_not_allowed,
  symbol_name_required, expected_block_name, expected_symbol, symbol_too_long, PositionedError,
  failed_at,
}
use sicxe.Assembler.Outcome.{
  Outcome, value, failed, undefined, assertion_failed, out_of_fuel, ◌>>=◌,
}
use sicxe.Assembler.Node.{
  WidthId, width_byte, width_word, DirectiveId, dir_start, dir_end, dir_org, dir_equ, dir_use,
  dir_ltorg, dir_base, dir_nobase, dir_extdef, dir_extref, dir_byte, dir_word, dir_resb, dir_resw,
  NodeBody, directive_start, directive_end, directive_org, directive_base, directive_equ,
  directive_mem_init, directive_mem_reserve, directive_extdef, directive_extref, directive_use,
  directive_ltorg, directive_nobase,
}
use sicxe.Assembler.Parser.{Parsed, is_operator_id, is_name, end_of_line_error, parse_expression}

-- `VisitExpressionDirective`, with what the expression becomes a part of.
unfoldable pub parse_expression_directive :
    Token → (List Token → NodeBody) → List Token → Parsed NodeBody
unfolding parse_expression
parse_expression_directive mnemonic make [] = end_of_line_error mnemonic
parse_expression_directive mnemonic make (t ∷ rest) =
    parse_expression false (t ∷ rest) >>= λ r. value (make r.0, r.1)

-- A label is not allowed.
abbrev pub without_label {ℓ} :
    {A : Type ℓ} → Option Token → Outcome PositionedError A → Outcome PositionedError A
without_label none r = r
without_label (some label) r = failed_at label_not_allowed label.pos

-- `visit_success_` is false, and what comes after can add errors.
abbrev pub after_error {ℓ} :
    {A : Type ℓ} → PositionedError → Outcome PositionedError A → Outcome PositionedError A
after_error error (value a) = failed (error ∷ [])
after_error error (failed errors) = failed (error ∷ errors)
after_error error undefined = undefined
after_error error assertion_failed = assertion_failed
after_error error out_of_fuel = out_of_fuel

-- A name that is longer than six characters.
abbrev pub checked_symbol : Token → Parsed (List Token) → Parsed (List Token)
checked_symbol t r =
    if ltb 6 (length t.value)
    then after_error (record { message = symbol_too_long; span = some (t.pos, t.pos) }) r
    else r

-- The end of a round of the loop, after a ','.
abbrev pub after_comma : Token → Token → Parsed (List Token) → Parsed (List Token)
after_comma t comma later =
    if is_operator_id op_comma comma.content
    then (later >>= λ r. value (t ∷ r.0, r.1))
    else failed_at expected_comma comma.pos

-- The loop of `VisitSymbolListDirective`, on the token before and on the others.
unfoldable pub parse_symbols : Token → List Token → Parsed (List Token)
parse_symbols last [] = end_of_line_error last
parse_symbols last (t ∷ []) =
    if is_name t.content
    then checked_symbol t (value (t ∷ [], []))
    else failed_at expected_symbol t.pos
parse_symbols last (t ∷ comma ∷ rest) =
    let later = parse_symbols comma rest in
    if is_name t.content
    then checked_symbol t (after_comma t comma later)
    else failed_at expected_symbol t.pos

-- `VisitSymbolListDirective`.
abbrev pub parse_symbol_list : Token → (List Token → NodeBody) → List Token → Parsed NodeBody
parse_symbol_list mnemonic make tokens =
    parse_symbols mnemonic tokens >>= λ r. value (make r.0, r.1)

-- `VisitNode(node::DirectiveStart*)`.
abbrev pub parse_start : Token → Option Token → List Token → Parsed NodeBody
parse_start mnemonic none tokens = failed_at program_name_required mnemonic.pos
parse_start mnemonic (some label) tokens =
    if ltb 6 (length label.value)
    then failed_at program_name_too_long label.pos
    else parse_expression_directive mnemonic (directive_start mnemonic) tokens

-- The operand of EQU: '*' is the current address.
abbrev pub parse_equ_operand : Token → List Token → Parsed NodeBody
parse_equ_operand mnemonic [] =
    parse_expression_directive mnemonic (directive_equ mnemonic false) []
parse_equ_operand mnemonic (t ∷ rest) =
    if is_operator_id op_mul t.content
    then value (directive_equ mnemonic true [], rest)
    else parse_expression_directive mnemonic (directive_equ mnemonic false) (t ∷ rest)

-- `VisitNode(node::DirectiveEqu*)`.
abbrev pub parse_equ : Token → Option Token → List Token → Parsed NodeBody
parse_equ mnemonic none tokens = failed_at symbol_name_required mnemonic.pos
parse_equ mnemonic (some label) tokens = parse_equ_operand mnemonic tokens

-- The operand of USE.
abbrev pub parse_use : Token → List Token → Parsed NodeBody
parse_use mnemonic [] = value (directive_use mnemonic none, [])
parse_use mnemonic (t ∷ rest) =
    if is_name t.content
    then value (directive_use mnemonic (some t), rest)
    else failed_at expected_block_name t.pos

abbrev pub is_data : TokenContent → Bool
is_data (data_bin_token bytes) = true
is_data (data_float_token bytes) = true
is_data (name_token name) = false
is_data (operator_token op) = false
is_data comment_token = false
is_data (integer_token n) = false

-- `VisitNode(node::DirectiveMemInit*)`.
abbrev pub parse_mem_init : Token → WidthId → List Token → Parsed NodeBody
parse_mem_init mnemonic width [] =
    parse_expression_directive mnemonic (directive_mem_init mnemonic width none) []
parse_mem_init mnemonic width (t ∷ rest) =
    if is_data t.content
    then value (directive_mem_init mnemonic width (some t) [], rest)
    else parse_expression_directive mnemonic (directive_mem_init mnemonic width none) (t ∷ rest)

-- `CreateDirectiveNode`, and the visit of the node.
unfoldable pub parse_directive : DirectiveId → Token → Option Token → List Token → Parsed NodeBody
unfolding parse_expression_directive parse_symbols
parse_directive dir_start mnemonic label tokens = parse_start mnemonic label tokens
parse_directive dir_end mnemonic label tokens =
    without_label label (parse_expression_directive mnemonic (directive_end mnemonic) tokens)
parse_directive dir_org mnemonic label tokens =
    without_label label (parse_expression_directive mnemonic (directive_org mnemonic) tokens)
parse_directive dir_equ mnemonic label tokens = parse_equ mnemonic label tokens
parse_directive dir_use mnemonic label tokens = without_label label (parse_use mnemonic tokens)
parse_directive dir_ltorg mnemonic label tokens =
    without_label label (value (directive_ltorg mnemonic, tokens))
parse_directive dir_base mnemonic label tokens =
    without_label label (parse_expression_directive mnemonic (directive_base mnemonic) tokens)
parse_directive dir_nobase mnemonic label tokens =
    without_label label (value (directive_nobase mnemonic, tokens))
parse_directive dir_extdef mnemonic label tokens =
    without_label label (parse_symbol_list mnemonic (directive_extdef mnemonic) tokens)
parse_directive dir_extref mnemonic label tokens =
    without_label label (parse_symbol_list mnemonic (directive_extref mnemonic) tokens)
parse_directive dir_byte mnemonic label tokens = parse_mem_init mnemonic width_byte tokens
parse_directive dir_word mnemonic label tokens = parse_mem_init mnemonic width_word tokens
parse_directive dir_resb mnemonic label tokens =
    parse_expression_directive mnemonic (directive_mem_reserve mnemonic width_byte) tokens
parse_directive dir_resw mnemonic label tokens =
    parse_expression_directive mnemonic (directive_mem_reserve mnemonic width_word) tokens
