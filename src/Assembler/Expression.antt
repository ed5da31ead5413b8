-- ===== src/Assembler/Expression.antt =====
-- assembler/expression_util.cc: `ExpressionUtil::Solve`. The positions of errors are left out. An
-- int64 holds the product and the sum of two numbers that passed `CheckOverflow`.
pub mod Solve
pub mod Runs
pub mod Terms
pub mod Valid
use sicxe.Base.{
  ℕ, zero, suc, Bool, true, false, not, ◌&&◌, ◌||◌, ◌==◌, Option, none, some, List, [], ◌∷◌, ◌++◌,
  length, if◌then◌else◌,
}
use sicxe.Base.Int.{ℤ, pos, negsuc, ◌+ℤ◌, ◌-ℤ◌, ◌*ℤ◌, quot, ltb_ℤ}
use sicxe.Base.Text.{Bytes}
use sicxe.Base.Keys.{bytes_key}
use sicxe.Base.Maps.{Map, find, insert}
use sicxe.Assembler.SymbolTable.{TypeId, unknown, internal, external, Entry, SymbolTable}
use sicxe.Assembler.Outcome.{
  Outcome, value, failed, undefined, assertion_failed, out_of_fuel, ◌>>=◌,
}
use sicxe.Assembler.Errors.{
  ExpressionError, undefined_symbol, external_not_allowed, symbol_from_block, overflow,
  external_operand, relative_operand, division_by_zero, local_relative_symbol,
}
use sicxe.Assembler.Token.{
  OperatorId, TokenContent, op_add, op_sub, op_mul, op_div, op_lbracket, op_rbracket, op_comma,
  op_assign, op_hash, op_at, name_token, integer_token, operator_token, comment_token,
  data_bin_token, data_float_token,
}

-- `success`, `has_external`, and the errors.
pub record Validation : Type 0 where
  pub success : Bool
  pub has_external : Bool
  pub errors : List ExpressionError

abbrev report : ExpressionError → Validation → Validation
report error v = record v { success = false; errors = v.errors ++ error ∷ [] }

abbrev pub check_entry : Bool → TypeId → Entry → Validation → Validation
check_entry allow_external unknown entry v = report undefined_symbol v
check_entry allow_external external entry v =
    let seen = record v { has_external = true } in
    if allow_external then seen else report external_not_allowed seen
check_entry allow_external internal entry v =
    if not entry.defined
    then report undefined_symbol v
    else (if not entry.resolved then report symbol_from_block v else v)

abbrev pub check_symbol : Bool → Option Entry → Validation → Validation
check_symbol allow_external none v = report undefined_symbol v
check_symbol allow_external (some entry) v = check_entry allow_external entry.type_id entry v

abbrev pub check_token : Bool → SymbolTable → TokenContent → Validation → Validation
check_token allow_external table (name_token name) v =
    check_symbol allow_external (find name table) v
check_token allow_external table (integer_token n) v = v
check_token allow_external table (operator_token op) v = v
check_token allow_external table comment_token v = v
check_token allow_external table (data_bin_token bytes) v = v
check_token allow_external table (data_float_token bytes) v = v

-- `ValidateExpressionSymbols`.
unfoldable pub validate_expression_symbols :
    Bool → SymbolTable → List TokenContent → Validation → Validation
validate_expression_symbols allow_external table [] v = v
validate_expression_symbols allow_external table (token ∷ rest) v =
    validate_expression_symbols allow_external table rest (check_token allow_external table token v)

abbrev pub is_additive : OperatorId → Bool
is_additive op_add = true
is_additive op_sub = true
is_additive op_mul = false
is_additive op_div = false
is_additive op_lbracket = false
is_additive op_rbracket = false
is_additive op_comma = false
is_additive op_assign = false
is_additive op_hash = false
is_additive op_at = false

-- `PeekIsEndOfTerm`, on the tokens after the current one.
unfoldable pub peek_is_end_of_term : List TokenContent → Outcome ExpressionError Bool
peek_is_end_of_term [] = value true
peek_is_end_of_term (operator_token op ∷ rest) = value (is_additive op)
peek_is_end_of_term (name_token name ∷ rest) = assertion_failed
peek_is_end_of_term (integer_token n ∷ rest) = assertion_failed
peek_is_end_of_term (comment_token ∷ rest) = assertion_failed
peek_is_end_of_term (data_bin_token bytes ∷ rest) = assertion_failed
peek_is_end_of_term (data_float_token bytes ∷ rest) = assertion_failed

unfoldable pub check_overflow : ℤ → Outcome ExpressionError ℤ
check_overflow n =
    if ltb_ℤ n (negsuc 0x7fff_ffff) || ltb_ℤ (pos 0x7fff_ffff) n
    then failed (overflow ∷ [])
    else value n

-- The value of a symbol that is an operand of '*' or '/'.
abbrev pub term_symbol : Option Entry → Outcome ExpressionError ℤ
term_symbol none = assertion_failed
term_symbol (some entry) = elim (entry.type_id) [
  | external ↦ failed (external_operand ∷ [])
  | unknown ↦ assertion_failed
  | internal ↦
      if entry.relative
      then failed (relative_operand ∷ [])
      else (if entry.resolved then value (pos entry.address) else assertion_failed)
]

unfoldable pub get_term_token_value : SymbolTable → TokenContent → Outcome ExpressionError ℤ
get_term_token_value table (integer_token n) = value (pos n)
get_term_token_value table (name_token name) = term_symbol (find name table)
get_term_token_value table (operator_token op) = assertion_failed
get_term_token_value table comment_token = assertion_failed
get_term_token_value table (data_bin_token bytes) = assertion_failed
get_term_token_value table (data_float_token bytes) = assertion_failed

abbrev pub is_zero_operand : ℤ → Bool
is_zero_operand (pos n) = n == 0
is_zero_operand (negsuc n) = false

-- The branch on the operator of a term.
unfoldable pub apply_operator : OperatorId → ℤ → ℤ → Outcome ExpressionError ℤ
apply_operator op_mul a b = value (a *ℤ b)
apply_operator op_div a b =
    if is_zero_operand b then failed (division_by_zero ∷ []) else value (quot a b)
apply_operator op_add a b = assertion_failed
apply_operator op_sub a b = assertion_failed
apply_operator op_lbracket a b = assertion_failed
apply_operator op_rbracket a b = assertion_failed
apply_operator op_comma a b = assertion_failed
apply_operator op_assign a b = assertion_failed
apply_operator op_hash a b = assertion_failed
apply_operator op_at a b = assertion_failed

-- The loop of `SolveTerm`: the value, and the tokens after the term.
unfoldable pub solve_term :
    SymbolTable → ℤ → List TokenContent → Outcome ExpressionError (ℤ × List TokenContent)
unfolding get_term_token_value check_overflow apply_operator
solve_term table n [] = value (n, [])
solve_term table n (operator_token op ∷ []) =
    if is_additive op then value (n, operator_token op ∷ []) else undefined
solve_term table n (operator_token op ∷ operand ∷ rest) =
    let product = (do
      taken ← get_term_token_value table operand
      checked ← check_overflow taken
      result ← apply_operator op n checked
      small ← check_overflow result
      solve_term table small rest) in
    if is_additive op then value (n, operator_token op ∷ operand ∷ rest) else product
solve_term table n (name_token name ∷ rest) = assertion_failed
solve_term table n (integer_token k ∷ rest) = assertion_failed
solve_term table n (comment_token ∷ rest) = assertion_failed
solve_term table n (data_bin_token bytes ∷ rest) = assertion_failed
solve_term table n (data_float_token bytes ∷ rest) = assertion_failed

-- `value`, `relative_count`, `sign` (true for plus) and `external_map`.
pub record SolveState : Type 0 where
  pub total : ℤ
  pub relative_count : ℤ
  pub sign : Bool
  pub external_map : Map Bytes ℤ

abbrev or_zero : Option ℤ → ℤ
or_zero none = pos 0
or_zero (some n) = n

abbrev pub signed : Bool → ℤ → ℤ → ℤ
signed sign sum n = if sign then sum +ℤ n else sum -ℤ n

-- What a single term comes to: its value, whether it is relative, and the map.
pub record SingleTerm : Type 0 where
  pub term_value : ℤ
  pub term_relative : Bool
  pub externals : Map Bytes ℤ

abbrev pub single_internal : Bool → Entry → Map Bytes ℤ → Outcome ExpressionError SingleTerm
single_internal has_external entry map =
    if has_external && entry.relative
    then failed (local_relative_symbol ∷ [])
    else (if entry.resolved
        then value (record {
          term_value = pos entry.address;
          term_relative = entry.relative;
          externals = map;
        })
        else assertion_failed)

abbrev pub count_external : Bool → Bytes → Map Bytes ℤ → SingleTerm
count_external sign name map = record {
  term_value = pos 0;
  term_relative = true;
  externals = insert name (signed sign (or_zero (find name map)) (pos 1)) map;
}

abbrev pub single_symbol :
    Bool → Bool → Bytes → Option Entry → Map Bytes ℤ → Outcome ExpressionError SingleTerm
single_symbol sign has_external name none map = assertion_failed
single_symbol sign has_external name (some entry) map = elim (entry.type_id) [
  | external ↦ if has_external then value (count_external sign name map) else assertion_failed
  | unknown ↦ assertion_failed
  | internal ↦
      if has_external && entry.exported
      then value (count_external sign name map)
      else single_internal has_external entry map
]

-- `SolveSingle`.
unfoldable pub solve_single :
    SymbolTable → Bool → Bool → TokenContent → Map Bytes ℤ → Outcome ExpressionError SingleTerm
solve_single table sign has_external (integer_token n) map =
    value (record { term_value = pos n; term_relative = false; externals = map })
solve_single table sign has_external (name_token name) map =
    single_symbol sign has_external name (find name table) map
solve_single table sign has_external (operator_token op) map = assertion_failed
solve_single table sign has_external comment_token map = assertion_failed
solve_single table sign has_external (data_bin_token bytes) map = assertion_failed
solve_single table sign has_external (data_float_token bytes) map = assertion_failed
