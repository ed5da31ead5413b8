-- ===== src/Assembler/Parser.antt =====
-- assembler/parser.cc: the tests on tokens, and `ParseExpression`.
pub mod Expressions
pub mod Grammar
pub mod Operands
pub mod Nodes
pub mod Registers
pub mod Instructions
pub mod Labels
pub mod Accepted
pub mod Tables
pub mod Loaded
pub mod Directives
pub mod Lines
pub mod Files
pub mod Shape
pub mod Programs
use sicxe.Base.{
  ℕ, ◌+◌, ◌-◌, Bool, true, false, ◌&&◌, leb, Option, some, List, [], ◌∷◌, if◌then◌else◌,
}
use sicxe.Assembler.Token.{
  OperatorId, op_add, op_sub, op_mul, op_div, op_lbracket, op_rbracket, op_comma, op_assign,
  op_hash, op_at, TokenContent, name_token, operator_token, comment_token, integer_token,
  data_bin_token, data_float_token, Token,
}
use sicxe.Assembler.Errors.{
  Message, end_of_line, expected_value, expected_operator, unmatched_bracket, expected_bracket,
  PositionedError, failed_at,
}
use sicxe.Assembler.Outcome.{Outcome, value, failed, assertion_failed, ◌>>=◌}

-- What was parsed, and the tokens that are left.
abbrev pub Parsed : Type 0 → Type 0
Parsed A = Outcome PositionedError (A × List Token)

-- The values of the enumeration.
abbrev pub operator_rank : OperatorId → ℕ
operator_rank op_add = 0
operator_rank op_sub = 1
operator_rank op_mul = 2
operator_rank op_div = 3
operator_rank op_lbracket = 4
operator_rank op_rbracket = 5
operator_rank op_comma = 6
operator_rank op_assign = 7
operator_rank op_hash = 8
operator_rank op_at = 9

-- An operator from one to another.
abbrev pub is_operator_in : OperatorId → OperatorId → TokenContent → Bool
is_operator_in low high (name_token name) = false
is_operator_in low high (operator_token op) =
    leb (operator_rank low) (operator_rank op) && leb (operator_rank op) (operator_rank high)
is_operator_in low high comment_token = false
is_operator_in low high (integer_token n) = false
is_operator_in low high (data_bin_token bytes) = false
is_operator_in low high (data_float_token bytes) = false

abbrev pub is_operator_id : OperatorId → TokenContent → Bool
is_operator_id id content = is_operator_in id id content

abbrev pub is_operator : TokenContent → Bool
is_operator content = is_operator_in op_add op_at content

abbrev pub is_name : TokenContent → Bool
is_name (name_token name) = true
is_name (operator_token op) = false
is_name comment_token = false
is_name (integer_token n) = false
is_name (data_bin_token bytes) = false
is_name (data_float_token bytes) = false

-- A symbol name or an integer.
abbrev pub is_value : TokenContent → Bool
is_value (name_token name) = true
is_value (operator_token op) = false
is_value comment_token = false
is_value (integer_token n) = true
is_value (data_bin_token bytes) = false
is_value (data_float_token bytes) = false

-- `EndOfLineError`, at the last character of a token. A token has at least one.
abbrev pub end_of_line_error {ℓ} : {A : Type ℓ} → Token → Outcome PositionedError A
end_of_line_error last =
    failed_at end_of_line
      (record { row = last.pos.row; column = last.pos.column + last.pos.size - 1; size = 1 })

-- The end of a round: after the value there is nothing, an operator with more of the expression after
-- it, or what does not belong to the expression.
abbrev pub after_value : Token → Token → List Token → Parsed (List Token) → Parsed (List Token)
after_value v op rest later =
    if is_operator op.content
    then (if is_operator_in op_add op_div op.content
        then (later >>= λ r. value (v ∷ op ∷ r.0, r.1))
        else value (v ∷ [], op ∷ rest))
    else failed_at expected_operator op.pos

-- The loop of `ParseExpression`, on the token before and on the others.
unfoldable pub parse_values : Token → List Token → Parsed (List Token)
parse_values last [] = end_of_line_error last
parse_values last (v ∷ []) =
    if is_value v.content then value (v ∷ [], []) else failed_at expected_value v.pos
parse_values last (v ∷ op ∷ rest) =
    let later = parse_values op rest in
    if is_value v.content then after_value v op rest later else failed_at expected_value v.pos

-- One '-' is allowed before an expression.
unfoldable pub parse_signed : Token → List Token → Parsed (List Token)
unfolding parse_values
parse_signed last [] = end_of_line_error last
parse_signed last (t ∷ rest) =
    if is_operator_id op_sub t.content
    then (parse_values t rest >>= λ r. value (t ∷ r.0, r.1))
    else parse_values last (t ∷ rest)

-- What follows the loop where there was a '['.
abbrev pub close_bracket : Token → List Token × List Token → Parsed (List Token)
close_bracket start (e, []) = failed_at unmatched_bracket start.pos
close_bracket start (e, t ∷ rest) =
    if is_operator_id op_rbracket t.content
    then value (e, rest)
    else failed_at expected_bracket t.pos

-- `ParseExpression`. Without a '[' the token before the list is never asked for.
unfoldable pub parse_expression : Bool → List Token → Parsed (List Token)
unfolding parse_signed
parse_expression allow_brackets [] = assertion_failed
parse_expression allow_brackets (t ∷ rest) =
    if allow_brackets && is_operator_id op_lbracket t.content
    then (parse_signed t rest >>= close_bracket t)
    else parse_signed t (t ∷ rest)
