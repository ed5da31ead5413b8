-- ===== src/Assembler/Parser/Expressions.antt =====
-- `ParseExpression` reads an expression.
use sicxe.Assembler.SymbolTable.{SymbolTable}
use sicxe.Assembler.Expression.Solve.{solve}
use sicxe.Assembler.Expression.Valid.{HasInt32, solve-Returns}
use sicxe.Base.{
  ◌≡◌, refl, ap, ◌⊎◌, inl, inr, Bool, true, false, ◌&&◌, List, [], ◌∷◌, ◌++◌, Bool-cases, is_empty,
  arith,
}
use sicxe.Assembler.Token.{
  OperatorId, op_add, op_sub, op_mul, op_div, op_lbracket, op_rbracket, op_comma, op_assign,
  op_hash, op_at, TokenContent, name_token, operator_token, comment_token, integer_token,
  data_bin_token, data_float_token, Token,
}
use sicxe.Assembler.Outcome.{Returns, Returns-bind, Returns-mono}
use sicxe.Assembler.Expression.Terms.{IsOperand, IsArithmetic, IsTail, IsExpression}
use sicxe.Assembler.Parser.{
  is_operator_in, is_operator_id, is_operator, is_value, parse_values, parse_signed, close_bracket,
  parse_expression,
}

abbrev pub contents : List Token → List TokenContent
contents [] = []
contents (t ∷ rest) = t.content ∷ contents rest

-- Operands with operators between them.
abbrev pub IsSum : List Token → Type 0
IsSum [] = ⊥
IsSum (t ∷ rest) = IsOperand t.content × IsTail (contents rest)

-- An expression of at least one token.
abbrev pub IsParsedExpression : List Token → Type 0
IsParsedExpression e = IsExpression (contents e) × (is_empty e ≡ false)

-- It stands before the tokens that are left, and brackets around it where they are allowed.
abbrev pub IsBracketed : List Token → List Token × List Token → Type 0
IsBracketed [] r = ⊥
IsBracketed (start ∷ rest) r =
    (is_operator_id op_lbracket start.content ≡ true)
    × ((close : Token) × (is_operator_id op_rbracket close.content ≡ true)
        × (r.0 ++ close ∷ r.1 ≡ rest))

abbrev pub IsTaken : Bool → List Token → List Token × List Token → Type 0
IsTaken allow_brackets tokens r =
    (r.0 ++ r.1 ≡ tokens) ⊎ ((allow_brackets ≡ true) × IsBracketed tokens r)

is_value_lem : (c : TokenContent) → is_value c ≡ true → IsOperand c
is_value_lem (name_token name) e = tt
is_value_lem (integer_token n) e = tt
is_value_lem (operator_token op) e = cc
is_value_lem comment_token e = cc
is_value_lem (data_bin_token bytes) e = cc
is_value_lem (data_float_token bytes) e = cc

is_arithmetic_lem :
    (op : OperatorId) → is_operator_in op_add op_div (operator_token op) ≡ true → IsArithmetic op
is_arithmetic_lem op_add e = tt
is_arithmetic_lem op_sub e = tt
is_arithmetic_lem op_mul e = tt
is_arithmetic_lem op_div e = tt
is_arithmetic_lem op_lbracket e = cc
is_arithmetic_lem op_rbracket e = cc
is_arithmetic_lem op_comma e = cc
is_arithmetic_lem op_assign e = cc
is_arithmetic_lem op_hash e = cc
is_arithmetic_lem op_at e = cc

sum-IsTail :
    (c : TokenContent) (e : List Token)
    → is_operator_in op_add op_div c ≡ true
    → IsSum e
    → IsTail (c ∷ contents e)
sum-IsTail c [] h v = elim v [ ]
sum-IsTail (operator_token op) (t ∷ rest) h v = (is_arithmetic_lem op h, v.0, v.1)
sum-IsTail (name_token name) (t ∷ rest) h v = cc
sum-IsTail (integer_token n) (t ∷ rest) h v = cc
sum-IsTail comment_token (t ∷ rest) h v = cc
sum-IsTail (data_bin_token bytes) (t ∷ rest) h v = cc
sum-IsTail (data_float_token bytes) (t ∷ rest) h v = cc

signed_sum :
    (c : TokenContent) (e : List Token)
    → is_operator_id op_sub c ≡ true
    → IsSum e
    → IsExpression (c ∷ contents e)
signed_sum c [] h v = elim v [ ]
signed_sum (operator_token op_sub) (t ∷ rest) h v = (refl, v.0, v.1)
signed_sum (operator_token op_add) (t ∷ rest) h v = cc
signed_sum (operator_token op_mul) (t ∷ rest) h v = cc
signed_sum (operator_token op_div) (t ∷ rest) h v = cc
signed_sum (operator_token op_lbracket) (t ∷ rest) h v = cc
signed_sum (operator_token op_rbracket) (t ∷ rest) h v = cc
signed_sum (operator_token op_comma) (t ∷ rest) h v = cc
signed_sum (operator_token op_assign) (t ∷ rest) h v = cc
signed_sum (operator_token op_hash) (t ∷ rest) h v = cc
signed_sum (operator_token op_at) (t ∷ rest) h v = cc
signed_sum (name_token name) (t ∷ rest) h v = cc
signed_sum (integer_token n) (t ∷ rest) h v = cc
signed_sum comment_token (t ∷ rest) h v = cc
signed_sum (data_bin_token bytes) (t ∷ rest) h v = cc
signed_sum (data_float_token bytes) (t ∷ rest) h v = cc

unsigned_sum :
    (c : TokenContent) (rest : List TokenContent)
    → IsOperand c
    → IsTail rest
    → IsExpression (c ∷ rest)
unsigned_sum (name_token name) rest h v = v
unsigned_sum (integer_token n) rest h v = v
unsigned_sum (operator_token op) rest h v = elim h [ ]
unsigned_sum comment_token rest h v = elim h [ ]
unsigned_sum (data_bin_token bytes) rest h v = elim h [ ]
unsigned_sum (data_float_token bytes) rest h v = elim h [ ]

sum_parsed : (e : List Token) → IsSum e → IsParsedExpression e
sum_parsed [] v = elim v [ ]
sum_parsed (t ∷ rest) v = (unsigned_sum t.content (contents rest) v.0 v.1, refl)

-- An expression ends at the end of the line, or before an operator that is not one of arithmetic.
abbrev pub Stops : List Token → Type 0
Stops [] = Unit
Stops (t ∷ rest) = (is_operator t.content ≡ true) × (is_operator_in op_add op_div t.content ≡ false)

abbrev pub Sum : List Token → List Token × List Token → Type 0
Sum tokens r = IsSum r.0 × (r.0 ++ r.1 ≡ tokens) × Stops r.1

pub parse_values-Returns :
    (last : Token) (tokens : List Token) → Returns (Sum tokens) (parse_values last tokens)
unfolding parse_values
parse_values-Returns last [] = tt
parse_values-Returns last (v ∷ []) = elim (Bool-cases (is_value v.content)) [
  | inl e ↦ rw e ((is_value_lem v.content e, tt), refl, tt)
  | inr e ↦ rw e tt
]
parse_values-Returns last (v ∷ op ∷ rest) = elim (Bool-cases (is_value v.content)) [
  | inr e ↦ rw e tt
  | inl e ↦ elim (Bool-cases (is_operator op.content)) [
    | inr f ↦ rw (e, f) tt
    | inl f ↦ elim (Bool-cases (is_operator_in op_add op_div op.content)) [
      | inr g ↦ rw (e, f, g) ((is_value_lem v.content e, tt), refl, (f, g))
      | inl g ↦
          rw (e, f, g)
            (Returns-bind (Sum rest) (Sum (v ∷ op ∷ rest)) (parse_values op rest) _
              (parse_values-Returns op rest)
              λ r s. (
                (is_value_lem v.content e, sum-IsTail op.content r.0 g s.0),
                ap (λ t. v ∷ op ∷ t) s.1,
                s.2,
              ))
    ]
  ]
]

-- The expression and what is left make up the tokens.
abbrev Expressed : List Token → List Token × List Token → Type 0
Expressed tokens r = IsParsedExpression r.0 × (r.0 ++ r.1 ≡ tokens)

parse_signed-Returns :
    (last : Token) (tokens : List Token) → Returns (Expressed tokens) (parse_signed last tokens)
unfolding parse_signed
parse_signed-Returns last [] = tt
parse_signed-Returns last (t ∷ rest) = elim (Bool-cases (is_operator_id op_sub t.content)) [
  | inl e ↦ rw e (
      Returns-bind (Sum rest) (Expressed (t ∷ rest)) (parse_values t rest) _
        (parse_values-Returns t rest)
        λ r s. ((signed_sum t.content r.0 e s.0, refl), ap (λ u. t ∷ u) s.1))
  | inr e ↦ rw e (
      Returns-mono (Sum (t ∷ rest)) (Expressed (t ∷ rest)) (parse_values last (t ∷ rest))
        (parse_values-Returns last (t ∷ rest)) λ r s. (sum_parsed r.0 s.0, s.1))
]

module _ (allow_brackets : Bool) where
  -- What `ParseExpression` gives.
  abbrev pub Read : List Token → List Token × List Token → Type 0
  Read tokens r = IsParsedExpression r.0 × IsTaken allow_brackets tokens r

  close_bracket-Returns :
      (start : Token) (rest : List Token) (r : List Token × List Token)
      → allow_brackets && is_operator_id op_lbracket start.content ≡ true
      → Expressed rest r
      → Returns (Read (start ∷ rest)) (close_bracket start r)
  close_bracket-Returns start rest (e, []) h v = tt
  close_bracket-Returns start rest (e, close ∷ after) h v =
      elim (Bool-cases (is_operator_id op_rbracket close.content)) [
        | inr g ↦ rw g tt
        | inl g ↦ rw g (v.0, inr (ground arith, (ground arith, (close, g, v.1))))
      ]

  -- On at least one token, `ParseExpression` ends with errors or with an expression of at least one token:
  -- operands with operators between them, and perhaps '-' in front. The tokens are those of the
  -- expression and, in their order, those that are left; or, only where brackets are allowed, '[', those
  -- of the expression, ']' and those that are left.
  pub parse_expression-Returns :
      (tokens : List Token)
      → is_empty tokens ≡ false
      → Returns (Read tokens) (parse_expression allow_brackets tokens)
  unfolding parse_expression
  parse_expression-Returns [] h = cc
  parse_expression-Returns (t ∷ rest) h =
      elim (Bool-cases (allow_brackets && is_operator_id op_lbracket t.content)) [
        | inl e ↦ rw e (
            Returns-bind (Expressed rest) (Read (t ∷ rest)) (parse_signed t rest) (close_bracket t)
              (parse_signed-Returns t rest) λ r v. close_bracket-Returns t rest r e v)
        | inr e ↦ rw e (
            Returns-mono (Expressed (t ∷ rest)) (Read (t ∷ rest)) (parse_signed t (t ∷ rest))
              (parse_signed-Returns t (t ∷ rest)) λ r v. (v.0, inl v.1))
      ]

-- What `ParseExpression` reads, `Solve` solves over any table of symbols: it ends, fails no assertion, and
-- gives errors or a result that is an int32.
pub solve-parse_expression :
    (allow_brackets allow_external : Bool) (table : SymbolTable) (tokens : List Token)
    → is_empty tokens ≡ false
    → Returns
        (λ r. Returns HasInt32 (solve allow_external table (contents r.0)))
        (parse_expression allow_brackets tokens)
solve-parse_expression allow_brackets allow_external table tokens h =
    Returns-mono (Read allow_brackets tokens) _ (parse_expression allow_brackets tokens)
      (parse_expression-Returns allow_brackets tokens h)
      λ r v. solve-Returns allow_external table (contents r.0) v.0.0
