-- ===== src/Assembler/Parser/Grammar.antt =====
-- `ParseExpression` without brackets reads exactly the expressions that are written in the grammar.
use sicxe.Base.{
  ◌≡◌, refl, ap, subst, ◌↔◌, ◌⊎◌, true, false, List, [], ◌∷◌, ◌++◌, inl, inr, Bool-cases,
}
use sicxe.Assembler.Token.{
  op_add, op_sub, op_mul, op_div, op_lbracket, op_rbracket, op_comma, op_assign, op_hash, op_at,
  TokenContent, name_token, operator_token, comment_token, integer_token, data_bin_token,
  data_float_token, Token,
}
use sicxe.Assembler.Outcome.{value, Returns, Returns-bind, Returns-mono, ◌>>=◌}
use sicxe.Assembler.Expression.Terms.{IsOperand, IsTail}
use sicxe.Assembler.Parser.{
  is_operator_in, is_operator_id, is_operator, is_value, parse_values, parse_signed,
  parse_expression,
}
use sicxe.Assembler.Parser.Expressions.{contents, IsSum, Stops, Sum, parse_values-Returns}

-- Operands with operators between them, and perhaps '-' in front.
abbrev pub IsWritten : List Token → Type 0
IsWritten [] = ⊥
IsWritten (t ∷ rest) = IsSum (t ∷ rest) ⊎ ((is_operator_id op_sub t.content ≡ true) × IsSum rest)

operand_value : (c : TokenContent) → IsOperand c → is_value c ≡ true
operand_value (name_token name) v = refl
operand_value (integer_token n) v = refl
operand_value (operator_token op) v = elim v [ ]
operand_value comment_token v = elim v [ ]
operand_value (data_bin_token bytes) v = elim v [ ]
operand_value (data_float_token bytes) v = elim v [ ]

operand_unsigned : (c : TokenContent) → IsOperand c → is_operator_id op_sub c ≡ false
operand_unsigned (name_token name) v = refl
operand_unsigned (integer_token n) v = refl
operand_unsigned (operator_token op) v = elim v [ ]
operand_unsigned comment_token v = elim v [ ]
operand_unsigned (data_bin_token bytes) v = elim v [ ]
operand_unsigned (data_float_token bytes) v = elim v [ ]

no_single_tail : (c : TokenContent) → IsTail (c ∷ []) → ⊥
no_single_tail (operator_token op) v = v
no_single_tail (name_token name) v = v
no_single_tail (integer_token n) v = v
no_single_tail comment_token v = v
no_single_tail (data_bin_token bytes) v = v
no_single_tail (data_float_token bytes) v = v

-- The first two tokens after an operand.
abbrev Joins : TokenContent → TokenContent → List TokenContent → Type 0
Joins c d rest =
    (is_operator c ≡ true) × (is_operator_in op_add op_div c ≡ true) × IsOperand d × IsTail rest

tail-Joins :
    (c d : TokenContent) (rest : List TokenContent) → IsTail (c ∷ d ∷ rest) → Joins c d rest
tail-Joins (operator_token op_add) d rest v = (refl, refl, v.1, v.2)
tail-Joins (operator_token op_sub) d rest v = (refl, refl, v.1, v.2)
tail-Joins (operator_token op_mul) d rest v = (refl, refl, v.1, v.2)
tail-Joins (operator_token op_div) d rest v = (refl, refl, v.1, v.2)
tail-Joins (operator_token op_lbracket) d rest v = elim v.0 [ ]
tail-Joins (operator_token op_rbracket) d rest v = elim v.0 [ ]
tail-Joins (operator_token op_comma) d rest v = elim v.0 [ ]
tail-Joins (operator_token op_assign) d rest v = elim v.0 [ ]
tail-Joins (operator_token op_hash) d rest v = elim v.0 [ ]
tail-Joins (operator_token op_at) d rest v = elim v.0 [ ]
tail-Joins (name_token name) d rest v = elim v [ ]
tail-Joins (integer_token n) d rest v = elim v [ ]
tail-Joins comment_token d rest v = elim v [ ]
tail-Joins (data_bin_token bytes) d rest v = elim v [ ]
tail-Joins (data_float_token bytes) d rest v = elim v [ ]

-- A sum is read up to where it stops.
parse_values_sum :
    (last : Token) (e rest : List Token)
    → IsSum e
    → Stops rest
    → parse_values last (e ++ rest) ≡ value (e, rest)
unfolding parse_values
parse_values_sum last [] rest v s = elim v [ ]
parse_values_sum last (t ∷ []) [] v s = rw (operand_value t.content v.0) refl
parse_values_sum last (t ∷ []) (u ∷ rest) v s = rw (operand_value t.content v.0, s.0, s.1) refl
parse_values_sum last (t ∷ op ∷ []) rest v s = absurd (no_single_tail op.content v.1)
parse_values_sum last (t ∷ op ∷ w ∷ e) rest v s =
    let joins = tail-Joins op.content w.content (contents e) v.1 in
    rw (operand_value t.content v.0, joins.0, joins.1)
      (ap (λ r. r >>= λ q. value (t ∷ op ∷ q.0, q.1))
        (parse_values_sum op (w ∷ e) rest (joins.2, joins.3) s))

parse_signed_written :
    (last : Token) (e rest : List Token)
    → IsWritten e
    → Stops rest
    → parse_signed last (e ++ rest) ≡ value (e, rest)
unfolding parse_signed
parse_signed_written last [] rest v s = elim v [ ]
parse_signed_written last (t ∷ e) rest (inl v) s =
    rw (operand_unsigned t.content v.0) (parse_values_sum last (t ∷ e) rest v s)
parse_signed_written last (t ∷ e) rest (inr (h, v)) s =
    rw h (ap (λ r. r >>= λ q. value (t ∷ q.0, q.1)) (parse_values_sum t e rest v s))

-- The expression, what is left, and that it stops there.
abbrev pub IsReading : List Token → List Token × List Token → Type 0
IsReading tokens r = IsWritten r.0 × (r.0 ++ r.1 ≡ tokens) × Stops r.1

Sum-IsReading : (tokens e rest : List Token) → Sum tokens (e, rest) → IsReading tokens (e, rest)
Sum-IsReading tokens [] rest v = elim v.0 [ ]
Sum-IsReading tokens (t ∷ e) rest v = (inl v.0, v.1, v.2)

parse_signed-IsReading :
    (last : Token) (tokens : List Token) → Returns (IsReading tokens) (parse_signed last tokens)
unfolding parse_signed
parse_signed-IsReading last [] = tt
parse_signed-IsReading last (t ∷ rest) = elim (Bool-cases (is_operator_id op_sub t.content)) [
  | inl e ↦ rw e (
      Returns-bind (Sum rest) (IsReading (t ∷ rest)) (parse_values t rest) _
        (parse_values-Returns t rest) λ r v. (inr (e, v.0), ap (λ u. t ∷ u) v.1, v.2))
  | inr e ↦ rw e (
      Returns-mono (Sum (t ∷ rest)) (IsReading (t ∷ rest)) (parse_values last (t ∷ rest))
        (parse_values-Returns last (t ∷ rest)) λ r v. Sum-IsReading (t ∷ rest) r.0 r.1 v)
]

parse_expression_read :
    (tokens : List Token) (r : List Token × List Token)
    → parse_expression false tokens ≡ value r
    → IsReading tokens r
unfolding parse_expression
parse_expression_read [] r h = cc
parse_expression_read (t ∷ rest) r h =
    subst (Returns (IsReading (t ∷ rest))) h (parse_signed-IsReading t (t ∷ rest))

parse_expression_written :
    (tokens e rest : List Token)
    → IsReading tokens (e, rest)
    → parse_expression false tokens ≡ value (e, rest)
unfolding parse_expression
parse_expression_written tokens [] rest v = elim v.0 [ ]
parse_expression_written tokens (t ∷ e) rest v =
    subst (λ ts. parse_expression false ts ≡ value (t ∷ e, rest)) v.1
      (parse_signed_written t (t ∷ e) rest v.0 v.2)

-- Where brackets are not allowed, `ParseExpression` gives an expression and the tokens that are left
-- exactly if these make up its tokens, the expression is operands with operators between them and
-- perhaps '-' in front, and what is left is nothing or begins with an operator other than those of
-- arithmetic.
pub parse_expression_iff :
    (tokens e rest : List Token)
    → (parse_expression false tokens ≡ value (e, rest)) ↔ IsReading tokens (e, rest)
parse_expression_iff tokens e rest =
    (parse_expression_read tokens (e, rest), parse_expression_written tokens e rest)
