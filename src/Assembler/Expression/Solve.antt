-- ===== src/Assembler/Expression/Solve.antt =====
-- assembler/expression_util.cc: `ExpressionUtil::Solve`. Each round of its loop takes at least one
-- token, so the number of tokens is fuel enough. Where external symbols are allowed there is a vector
-- for them.
use sicxe.Base.{
  ℕ, zero, suc, Bool, true, false, not, ◌==◌, List, [], ◌∷◌, ◌++◌, length, if◌then◌else◌,
}
use sicxe.Base.Int.{ℤ, pos, negsuc}
use sicxe.Base.Text.{Bytes}
use sicxe.Base.Maps.{Map}
use sicxe.Assembler.SymbolTable.{SymbolTable}
use sicxe.Assembler.Outcome.{Outcome, value, failed, assertion_failed, out_of_fuel, ◌>>=◌}
use sicxe.Assembler.Errors.{ExpressionError, not_relative_nor_absolute}
use sicxe.Assembler.Expression.{
  validate_expression_symbols, peek_is_end_of_term, check_overflow, get_term_token_value,
  solve_term, SolveState, signed, solve_single,
}
use sicxe.Assembler.Token.{
  OperatorId, TokenContent, op_add, op_sub, op_mul, op_div, op_lbracket, op_rbracket, op_comma,
  op_assign, op_hash, op_at, name_token, integer_token, operator_token, comment_token,
  data_bin_token, data_float_token,
}

-- What follows the value of a term.
unfoldable pub add_term : ℤ → Bool → Map Bytes ℤ → SolveState → Outcome ExpressionError SolveState
unfolding check_overflow
add_term n relative externals s = do
  total ← check_overflow (signed s.sign s.total n)
  value (record s {
    total = total;
    relative_count = if relative then signed s.sign s.relative_count (pos 1) else s.relative_count;
    external_map = externals;
  })

-- The branch on `term_single`: the state, and the tokens after the term.
unfoldable pub solve_peeked :
    SymbolTable
    → Bool
    → TokenContent
    → List TokenContent
    → SolveState
    → Bool
    → Outcome ExpressionError (SolveState × List TokenContent)
unfolding solve_single get_term_token_value check_overflow solve_term add_term
solve_peeked table has_external token rest s true = do
  term ← solve_single table s.sign has_external token s.external_map
  added ← add_term term.term_value term.term_relative term.externals s
  value (added, rest)
solve_peeked table has_external token rest s false = do
  taken ← get_term_token_value table token
  checked ← check_overflow taken
  term ← solve_term table checked rest
  added ← add_term term.0 false s.external_map s
  value (added, term.1)

-- The branch on a name or an integer.
unfoldable pub solve_operand :
    SymbolTable
    → Bool
    → TokenContent
    → List TokenContent
    → SolveState
    → Outcome ExpressionError (SolveState × List TokenContent)
unfolding peek_is_end_of_term solve_peeked
solve_operand table has_external token rest s =
    peek_is_end_of_term rest >>= solve_peeked table has_external token rest s

-- The branch on an operator.
abbrev pub set_sign : OperatorId → SolveState → Outcome ExpressionError SolveState
set_sign op_add s = value (record s { sign = true })
set_sign op_sub s = value (record s { sign = false })
set_sign op_mul s = assertion_failed
set_sign op_div s = assertion_failed
set_sign op_lbracket s = assertion_failed
set_sign op_rbracket s = assertion_failed
set_sign op_comma s = assertion_failed
set_sign op_assign s = assertion_failed
set_sign op_hash s = assertion_failed
set_sign op_at s = assertion_failed

-- A round of the loop, on its first token and the others.
unfoldable pub solve_token :
    SymbolTable
    → Bool
    → TokenContent
    → List TokenContent
    → SolveState
    → Outcome ExpressionError (SolveState × List TokenContent)
unfolding solve_operand
solve_token table has_external (operator_token op) rest s = set_sign op s >>= λ t. value (t, rest)
solve_token table has_external (name_token name) rest s =
    solve_operand table has_external (name_token name) rest s
solve_token table has_external (integer_token n) rest s =
    solve_operand table has_external (integer_token n) rest s
solve_token table has_external comment_token rest s = assertion_failed
solve_token table has_external (data_bin_token bytes) rest s = assertion_failed
solve_token table has_external (data_float_token bytes) rest s = assertion_failed

unfoldable pub solve_tokens :
    SymbolTable → Bool → ℕ → List TokenContent → SolveState → Outcome ExpressionError SolveState
unfolding solve_token
solve_tokens table has_external fuel [] s = value s
solve_tokens table has_external zero (token ∷ rest) s = out_of_fuel
solve_tokens table has_external (suc fuel) (token ∷ rest) s =
    solve_token table has_external token rest s >>= λ r.
    solve_tokens table has_external fuel r.1 r.0

pub record Solution : Type 0 where
  pub result : ℤ
  pub relative : Bool
  pub external_symbols : List (Bool × Bytes)

abbrev copies : ℕ → Bool × Bytes → List (Bool × Bytes)
copies zero symbol = []
copies (suc n) symbol = symbol ∷ copies n symbol

abbrev copies_of : Bytes → ℤ → List (Bool × Bytes)
copies_of name (pos n) = copies n (true, name)
copies_of name (negsuc n) = copies (suc n) (false, name)

unfoldable pub list_externals : Map Bytes ℤ → List (Bool × Bytes)
list_externals [] = []
list_externals ((name, count) ∷ rest) = copies_of name count ++ list_externals rest

abbrev solved : SolveState → Bool → Outcome ExpressionError Solution
solved s relative = value (record {
  result = s.total;
  relative = relative;
  external_symbols = list_externals s.external_map;
})

abbrev pub classified : SolveState → ℤ → Outcome ExpressionError Solution
classified s (pos n) =
    if n == 0
    then solved s false
    else (if n == 1 then solved s true else failed (not_relative_nor_absolute ∷ []))
classified s (negsuc n) = failed (not_relative_nor_absolute ∷ [])

-- What follows the loop.
unfoldable pub finish_solve : SolveState → Outcome ExpressionError Solution
unfolding list_externals
finish_solve s = classified s s.relative_count

-- `Solve`.
unfoldable pub solve : Bool → SymbolTable → List TokenContent → Outcome ExpressionError Solution
unfolding validate_expression_symbols solve_tokens finish_solve
solve allow_external table expression =
    let v =
      validate_expression_symbols allow_external table expression
        (record { success = true; has_external = false; errors = [] }) in
    let start : SolveState = record {
      total = pos 0;
      relative_count = pos 0;
      sign = true;
      external_map = [];
    } in
    if not v.success
    then failed v.errors
    else (solve_tokens table v.has_external (length expression) expression start >>= finish_solve)
