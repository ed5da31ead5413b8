-- ===== src/Assembler/Expression/Runs.antt =====
-- `Solve` on well-formed expressions.
use sicxe.Base.{ℕ, zero, suc, ◌≡◌, refl, Bool, true, false, List, [], ◌∷◌, length, All, arith}
use sicxe.Base.Int.{ℤ}
use sicxe.Base.Text.{Bytes}
use sicxe.Base.Keys.{bytes_key}
use sicxe.Base.Maps.{Map}
use sicxe.Assembler.SymbolTable.{SymbolTable}
use sicxe.Assembler.Outcome.{Returns, Returns-bind}
use sicxe.Assembler.Expression.{
  peek_is_end_of_term, check_overflow, get_term_token_value, solve_term, SolveState, signed,
  solve_single,
}
use sicxe.Assembler.Expression.Terms.{
  IsInt32, Anything, IsOperand, IsTail, IsExpression, IsUsable, check_overflow-Returns,
  get_term_token_value-Returns, solve_single-Returns, GoesOn, solve_term-Returns,
}
use sicxe.Assembler.Expression.Solve.{
  add_term, solve_peeked, solve_operand, solve_token, solve_tokens,
}
use sicxe.Assembler.Token.{
  TokenContent, op_add, op_sub, op_mul, op_div, op_lbracket, op_rbracket, op_comma, op_assign,
  op_hash, op_at, name_token, integer_token, operator_token, comment_token, data_bin_token,
  data_float_token,
}

-- The sum so far is an int32.
abbrev IsSmall : SolveState → Type 0
IsSmall s = IsInt32 s.total

add_term-Returns :
    (n : ℤ) (relative : Bool) (externals : Map Bytes ℤ) (s : SolveState)
    → Returns IsSmall (add_term n relative externals s)
unfolding add_term
add_term-Returns n relative externals s =
    Returns-bind IsInt32 IsSmall (check_overflow (signed s.sign s.total n)) _
      (check_overflow-Returns (signed s.sign s.total n)) (λ total v. v)

-- The end of a term is the end of the tokens, or stands before '+' or '-'.
peek-Returns :
    (rest : List TokenContent)
    → IsTail rest
    → Returns (λ b. b ≡ true → IsExpression rest) (peek_is_end_of_term rest)
unfolding peek_is_end_of_term
peek-Returns [] v = λ e. tt
peek-Returns (operator_token op ∷ []) v = elim v [ ]
peek-Returns (operator_token op ∷ operand ∷ rest) v = λ e. (e, v.1, v.2)
peek-Returns (name_token name ∷ rest) v = elim v [ ]
peek-Returns (integer_token n ∷ rest) v = elim v [ ]
peek-Returns (comment_token ∷ rest) v = elim v [ ]
peek-Returns (data_bin_token bytes ∷ rest) v = elim v [ ]
peek-Returns (data_float_token bytes ∷ rest) v = elim v [ ]

module _ (table : SymbolTable) (has_external : Bool) where
  -- The state, and the tokens after a round.
  abbrev Round : ℕ → SolveState × List TokenContent → Type 0
  Round most r = IsSmall r.0 × GoesOn has_external table most r.1

  solve_peeked-Returns :
      (token : TokenContent) (rest : List TokenContent) (s : SolveState) (single : Bool)
      → IsOperand token
      → IsTail rest
      → IsUsable has_external table token
      → All (IsUsable has_external table) rest
      → (single ≡ true → IsExpression rest)
      → Returns (Round (length rest)) (solve_peeked table has_external token rest s single)
  unfolding solve_peeked
  solve_peeked-Returns token rest s true v t w u e =
      Returns-bind Anything (Round (length rest))
        (solve_single table s.sign has_external token s.external_map) _
        (solve_single-Returns has_external table s.sign token s.external_map v w)
        λ term _.
          Returns-bind IsSmall (Round (length rest))
            (add_term term.term_value term.term_relative term.externals s) _
            (add_term-Returns term.term_value term.term_relative term.externals s)
            λ added h. (h, (e refl, u, omega arith))
  solve_peeked-Returns token rest s false v t w u e =
      Returns-bind Anything (Round (length rest)) (get_term_token_value table token) _
        (get_term_token_value-Returns has_external table token v w)
        λ taken _.
          Returns-bind IsInt32 (Round (length rest)) (check_overflow taken) _
            (check_overflow-Returns taken)
            λ checked _.
              Returns-bind (λ r. GoesOn has_external table (length rest) r.1) (Round (length rest))
                (solve_term table checked rest) _
                (solve_term-Returns has_external table checked rest t u)
                λ term g.
                  Returns-bind IsSmall (Round (length rest))
                    (add_term term.0 false s.external_map s) _
                    (add_term-Returns term.0 false s.external_map s) λ added h. (h, g)

  solve_operand-Returns :
      (token : TokenContent) (rest : List TokenContent) (s : SolveState)
      → IsOperand token
      → IsTail rest
      → IsUsable has_external table token
      → All (IsUsable has_external table) rest
      → Returns (Round (length rest)) (solve_operand table has_external token rest s)
  unfolding solve_operand
  solve_operand-Returns token rest s v t w u =
      Returns-bind (λ b. b ≡ true → IsExpression rest) (Round (length rest))
        (peek_is_end_of_term rest) (solve_peeked table has_external token rest s)
        (peek-Returns rest t) (λ single e. solve_peeked-Returns token rest s single v t w u e)

  -- After a sign.
  operand-IsExpression :
      (operand : TokenContent) (rest : List TokenContent)
      → IsOperand operand
      → IsTail rest
      → IsExpression (operand ∷ rest)
  operand-IsExpression (name_token name) rest v t = t
  operand-IsExpression (integer_token n) rest v t = t
  operand-IsExpression (operator_token op) rest v t = elim v [ ]
  operand-IsExpression comment_token rest v t = elim v [ ]
  operand-IsExpression (data_bin_token bytes) rest v t = elim v [ ]
  operand-IsExpression (data_float_token bytes) rest v t = elim v [ ]

  solve_token-Returns :
      (token : TokenContent) (rest : List TokenContent) (s : SolveState)
      → IsSmall s
      → IsExpression (token ∷ rest)
      → All (IsUsable has_external table) (token ∷ rest)
      → Returns (Round (length rest)) (solve_token table has_external token rest s)
  unfolding solve_token
  solve_token-Returns (name_token name) rest s h v w =
      solve_operand-Returns (name_token name) rest s tt v w.0 w.1
  solve_token-Returns (integer_token n) rest s h v w =
      solve_operand-Returns (integer_token n) rest s tt v w.0 w.1
  solve_token-Returns (operator_token op) [] s h v w = elim v [ ]
  solve_token-Returns (operator_token op_add) (operand ∷ rest) s h v w =
      (h, (operand-IsExpression operand rest v.1 v.2, w.1, omega arith))
  solve_token-Returns (operator_token op_sub) (operand ∷ rest) s h v w =
      (h, (operand-IsExpression operand rest v.1 v.2, w.1, omega arith))
  solve_token-Returns (operator_token op_mul) (operand ∷ rest) s h v w = let no = v.0 in cc
  solve_token-Returns (operator_token op_div) (operand ∷ rest) s h v w = let no = v.0 in cc
  solve_token-Returns (operator_token op_lbracket) (operand ∷ rest) s h v w = let no = v.0 in cc
  solve_token-Returns (operator_token op_rbracket) (operand ∷ rest) s h v w = let no = v.0 in cc
  solve_token-Returns (operator_token op_comma) (operand ∷ rest) s h v w = let no = v.0 in cc
  solve_token-Returns (operator_token op_assign) (operand ∷ rest) s h v w = let no = v.0 in cc
  solve_token-Returns (operator_token op_hash) (operand ∷ rest) s h v w = let no = v.0 in cc
  solve_token-Returns (operator_token op_at) (operand ∷ rest) s h v w = let no = v.0 in cc
  solve_token-Returns comment_token rest s h v w = elim v [ ]
  solve_token-Returns (data_bin_token bytes) rest s h v w = elim v [ ]
  solve_token-Returns (data_float_token bytes) rest s h v w = elim v [ ]

  pub solve_tokens-Returns :
      (fuel : ℕ) (tokens : List TokenContent) (s : SolveState)
      → IsSmall s
      → GoesOn has_external table fuel tokens
      → Returns IsSmall (solve_tokens table has_external fuel tokens s)
  unfolding solve_tokens
  solve_tokens-Returns fuel [] s h g = h
  solve_tokens-Returns zero (token ∷ rest) s h g = absurd (omega (arith, g.2))
  solve_tokens-Returns (suc fuel) (token ∷ rest) s h g =
      Returns-bind (Round (length rest)) IsSmall (solve_token table has_external token rest s) _
        (solve_token-Returns token rest s h g.0 g.1)
        (λ r k. solve_tokens-Returns fuel r.1 r.0 k.0 (k.1.0, k.1.1, omega (arith, k.1.2, g.2)))
