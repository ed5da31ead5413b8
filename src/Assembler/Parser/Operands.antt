-- ===== src/Assembler/Parser/Operands.antt =====
-- assembler/parser.cc: the operands of instructions.
use sicxe.Base.{
  ℕ, ◌%◌, Bool, true, false, ◌&&◌, ltb, leb, Option, none, some, List, [], ◌∷◌, length,
  if◌then◌else◌,
}
use sicxe.Base.Text.{Bytes, same_bytes}
use sicxe.Machine.State.{reg_x, register_name_to_id, register_id_to_name}
use sicxe.Isa.{
  Syntax, f2_reg_reg, f2_reg_n, fs34_load_w, fs34_load_b, fs34_load_f, fs34_store_w, fs34_store_b,
  fs34_store_f, fs34_none,
}
use sicxe.Assembler.Token.{
  OperatorId, op_comma, op_assign, op_hash, op_at, TokenContent, name_token, operator_token,
  comment_token, integer_token, data_bin_token, data_float_token, Token,
}
use sicxe.Assembler.Errors.{
  expected_register, invalid_register, expected_comma, expected_integer, operand_too_large,
  immediate_store, literal_store, immediate_float, literal_too_long, expected_data, float_literal,
  expected_index, index_not_simple, PositionedError, failed_at,
}
use sicxe.Assembler.Outcome.{Outcome, value, undefined, assertion_failed, ◌>>=◌}
use sicxe.Assembler.Node.{
  AddressingId, simple, immediate, indirect, literal_pool, InstructionInfo, Fs34Node, new_fs34,
  NodeBody, instruction_f2, instruction_fs34,
}
use sicxe.Assembler.Parser.{
  Parsed, is_operator_in, is_operator_id, is_name, end_of_line_error, parse_expression,
}

abbrev pub register_found : Token → Option ℕ → Outcome PositionedError ℕ
register_found t none = failed_at invalid_register t.pos
register_found t (some id) = value id

-- `ParseRegisterName`.
unfoldable pub parse_register_name : Token → Outcome PositionedError ℕ
unfolding register_name_to_id
parse_register_name t =
    if is_name t.content
    then register_found t (register_name_to_id t.value)
    else failed_at expected_register t.pos

-- On a first token: a ',', and something after it, which is what is taken.
abbrev pub take_comma : Token → List Token → Parsed Token
take_comma comma [] =
    if is_operator_id op_comma comma.content
    then end_of_line_error comma
    else failed_at expected_comma comma.pos
take_comma comma (t ∷ rest) =
    if is_operator_id op_comma comma.content
    then value (t, rest)
    else failed_at expected_comma comma.pos

abbrev pub integer_below_16 : Token → TokenContent → Outcome PositionedError ℕ
integer_below_16 t (integer_token n) =
    if leb 16 n then failed_at operand_too_large t.pos else value (n % 16)
integer_below_16 t (name_token name) = failed_at expected_integer t.pos
integer_below_16 t (operator_token op) = failed_at expected_integer t.pos
integer_below_16 t comment_token = failed_at expected_integer t.pos
integer_below_16 t (data_bin_token bytes) = failed_at expected_integer t.pos
integer_below_16 t (data_float_token bytes) = failed_at expected_integer t.pos

abbrev pub is_reg_reg : Syntax → Bool
is_reg_reg f2_reg_reg = true
is_reg_reg _ = false

abbrev pub is_reg_n : Syntax → Bool
is_reg_n f2_reg_n = true
is_reg_n _ = false

-- The second operand, after the token of the first one.
abbrev pub second_operand : InstructionInfo → ℕ → Token → List Token → Parsed NodeBody
second_operand info r1 first [] = end_of_line_error first
second_operand info r1 first (comma ∷ rest) = take_comma comma rest >>= λ taken.
    (if is_reg_reg info.syntax
      then parse_register_name taken.0
      else integer_below_16 taken.0 taken.0.content)
    >>= λ r2. value (instruction_f2 info r1 r2, taken.1)

-- `VisitNode(node::InstructionF2*)`.
unfoldable pub parse_f2 : InstructionInfo → List Token → Parsed NodeBody
unfolding parse_register_name
parse_f2 info [] = end_of_line_error info.mnemonic
parse_f2 info (t ∷ rest) = parse_register_name t >>= λ r1.
    if is_reg_reg info.syntax
    then second_operand info r1 t rest
    else (if is_reg_n info.syntax
        then second_operand info r1 t rest
        else value (instruction_f2 info r1 0, rest))

-- `AddressingFromOperatorToken`, which is only asked for '=', '#' and '@'.
abbrev pub addressing_of : OperatorId → Outcome PositionedError AddressingId
addressing_of op_assign = value literal_pool
addressing_of op_hash = value immediate
addressing_of op_at = value indirect
addressing_of _ = assertion_failed

abbrev pub is_store : Syntax → Bool
is_store fs34_store_w = true
is_store fs34_store_b = true
is_store fs34_store_f = true
is_store _ = false

abbrev pub is_load_f : Syntax → Bool
is_load_f fs34_load_f = true
is_load_f _ = false

-- Which ways of addressing an instruction has. The token is that of the operator.
abbrev pub check_addressing : Syntax → Token → AddressingId → Outcome PositionedError AddressingId
check_addressing syntax t simple = value simple
check_addressing syntax t indirect = value indirect
check_addressing syntax t immediate =
    if is_store syntax
    then failed_at immediate_store t.pos
    else (if is_load_f syntax then failed_at immediate_float t.pos else value immediate)
check_addressing syntax t literal_pool =
    if is_store syntax then failed_at literal_store t.pos else value literal_pool

-- After an operator that says how to address.
abbrev pub addressing_operator : Syntax → Token → TokenContent → List Token → Parsed AddressingId
addressing_operator syntax t (operator_token op) (u ∷ rest) = addressing_of op >>= λ addressing.
    check_addressing syntax t addressing >>= λ checked. value (checked, u ∷ rest)
addressing_operator syntax t (operator_token op) [] =
    addressing_of op >>= λ addressing. end_of_line_error t
addressing_operator syntax t _ rest = undefined

-- `ParseAddressingOperator`, which is only called where there is a token.
unfoldable pub parse_addressing_operator : Syntax → List Token → Parsed AddressingId
parse_addressing_operator syntax [] = undefined
parse_addressing_operator syntax (t ∷ rest) =
    if is_operator_in op_assign op_at t.content
    then addressing_operator syntax t t.content rest
    else value (simple, t ∷ rest)

abbrev pub literal_limit : Syntax → Option ℕ
literal_limit fs34_load_b = some 1
literal_limit fs34_load_w = some 3
literal_limit fs34_load_f = some 6
literal_limit _ = none

abbrev pub check_limit : Option ℕ → Token → Bytes → List Token → Parsed Fs34Node
check_limit none t bytes rest = assertion_failed
check_limit (some limit) t bytes rest =
    if ltb limit (length bytes)
    then failed_at literal_too_long t.pos
    else value (record new_fs34 { data_token = some t; addressing = literal_pool }, rest)

-- `CheckDataTokenMaxSize`, and the node with the token in it.
abbrev pub check_data_token : Syntax → Token → Bytes → List Token → Parsed Fs34Node
check_data_token syntax t bytes rest = check_limit (literal_limit syntax) t bytes rest

-- An operand that is an expression.
abbrev pub parse_operand_expression : Bool → AddressingId → List Token → Parsed Fs34Node
parse_operand_expression allow_brackets addressing tokens =
    parse_expression allow_brackets tokens >>= λ r.
    value (record new_fs34 { expression = r.0; addressing = addressing }, r.1)

abbrev pub float_operand : Token → TokenContent → List Token → Parsed Fs34Node
float_operand t (data_float_token bytes) rest = check_data_token fs34_load_f t bytes rest
float_operand t (data_bin_token bytes) rest = check_data_token fs34_load_f t bytes rest
float_operand t (name_token name) rest = failed_at expected_data t.pos
float_operand t (operator_token op) rest = failed_at expected_data t.pos
float_operand t comment_token rest = failed_at expected_data t.pos
float_operand t (integer_token n) rest = failed_at expected_data t.pos

abbrev pub integral_operand : Bool → Syntax → Token → TokenContent → List Token → Parsed Fs34Node
integral_operand allow_brackets syntax t (data_float_token bytes) rest =
    failed_at float_literal t.pos
integral_operand allow_brackets syntax t (data_bin_token bytes) rest =
    check_data_token syntax t bytes rest
integral_operand allow_brackets syntax t _ rest =
    parse_operand_expression allow_brackets literal_pool (t ∷ rest)

-- The branch on a literal of the literal pool.
unfoldable pub parse_literal : Bool → Syntax → List Token → Parsed Fs34Node
unfolding parse_expression
parse_literal allow_brackets syntax [] = undefined
parse_literal allow_brackets fs34_load_f (t ∷ rest) = float_operand t t.content rest
parse_literal allow_brackets fs34_load_b (t ∷ rest) =
    integral_operand allow_brackets fs34_load_b t t.content rest
parse_literal allow_brackets fs34_load_w (t ∷ rest) =
    integral_operand allow_brackets fs34_load_w t t.content rest
parse_literal allow_brackets _ (t ∷ rest) = assertion_failed

-- The branch on the way of addressing.
abbrev pub parse_operand : Bool → Syntax → AddressingId → List Token → Parsed Fs34Node
parse_operand allow_brackets syntax literal_pool tokens = parse_literal allow_brackets syntax tokens
parse_operand allow_brackets syntax immediate tokens =
    parse_operand_expression allow_brackets immediate tokens
parse_operand allow_brackets syntax indirect tokens =
    parse_operand_expression allow_brackets indirect tokens
parse_operand allow_brackets syntax simple tokens = parse_operand_expression false simple tokens

-- `CreateIndexRegName`.
unfoldable pub index_reg_name : Option Bytes
unfolding register_id_to_name
index_reg_name = register_id_to_name reg_x

abbrev pub is_index : TokenContent → Bytes → Option Bytes → Bool
is_index content name none = false
is_index content name (some expected) = is_name content && same_bytes name expected

abbrev pub is_simple : AddressingId → Bool
is_simple simple = true
is_simple immediate = false
is_simple indirect = false
is_simple literal_pool = false

-- `ParseIndexOperator`, where there is a token left.
unfoldable pub parse_index_operator : Fs34Node → List Token → Parsed Fs34Node
unfolding index_reg_name
parse_index_operator node [] = value (node, [])
parse_index_operator node (comma ∷ rest) = take_comma comma rest >>= λ taken.
    if is_index taken.0.content taken.0.value index_reg_name
    then (if is_simple node.addressing
        then value (record node { indexed = true }, taken.1)
        else failed_at index_not_simple taken.0.pos)
    else failed_at expected_index taken.0.pos

abbrev pub has_no_operand : Syntax → Bool
has_no_operand fs34_none = true
has_no_operand _ = false

-- The rest of `VisitNode(node::InstructionFS34*)`, where there is an operand.
abbrev pub parse_fs34_operand : Bool → Bool → InstructionInfo → List Token → Parsed NodeBody
parse_fs34_operand allow_brackets extended info [] = end_of_line_error info.mnemonic
parse_fs34_operand allow_brackets extended info (t ∷ rest) =
    parse_addressing_operator info.syntax (t ∷ rest) >>= λ a.
    parse_operand allow_brackets info.syntax a.0 a.1 >>= λ o.
    parse_index_operator (record o.0 { extended = extended }) o.1 >>= λ r.
    value (instruction_fs34 info r.0, r.1)

-- `VisitNode(node::InstructionFS34*)`.
unfoldable pub parse_fs34 : Bool → Bool → InstructionInfo → List Token → Parsed NodeBody
unfolding parse_addressing_operator parse_literal parse_index_operator
parse_fs34 allow_brackets extended info tokens =
    if has_no_operand info.syntax
    then value (instruction_fs34 info new_fs34, tokens)
    else parse_fs34_operand allow_brackets extended info tokens
