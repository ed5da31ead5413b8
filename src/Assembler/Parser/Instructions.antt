-- ===== src/Assembler/Parser/Instructions.antt =====
-- The operands of instructions of format 3/4 are well-formed.
use sicxe.Base.{
  ℕ, ◌≤◌, ◌≡◌, refl, sym, subst, Bool, true, false, ltb, none, some, List, [], ◌∷◌, length,
  is_empty, inl, inr, Bool-cases, arith,
}
use sicxe.Base.Text.{Bytes}
use sicxe.Isa.{
  Syntax, f1_none, f2_reg_reg, f2_reg_n, f2_reg, fs34_load_w, fs34_load_b, fs34_load_f,
  fs34_store_w, fs34_store_b, fs34_store_f, fs34_none,
}
use sicxe.Assembler.Token.{
  op_add, op_sub, op_mul, op_div, op_lbracket, op_rbracket, op_comma, op_assign, op_hash, op_at,
  TokenContent, name_token, operator_token, comment_token, integer_token, data_bin_token,
  data_float_token, Token,
}
use sicxe.Assembler.Outcome.{value, Returns, Returns-bind, ◌>>=◌}
use sicxe.Assembler.Node.{
  AddressingId, simple, immediate, indirect, literal_pool, InstructionInfo, Fs34Node, new_fs34,
}
use sicxe.Assembler.Expression.Terms.{Anything}
use sicxe.Assembler.Parser.{is_operator_in, parse_expression}
use sicxe.Assembler.Parser.Operands.{
  take_comma, is_store, is_load_f, check_addressing, addressing_operator, parse_addressing_operator,
  literal_limit, check_limit, parse_operand_expression, float_operand, integral_operand,
  parse_literal, parse_operand, index_reg_name, is_index, is_simple, parse_index_operator,
  has_no_operand, parse_fs34_operand, parse_fs34,
}
use sicxe.Assembler.Parser.Expressions.{Read, parse_expression-Returns, IsParsedExpression}
use sicxe.Assembler.Parser.Nodes.{IsFs34Syntax, IsLiteral, IsOperandOf, IsFs34Node, IsFs34Body}
use sicxe.Assembler.Parser.Registers.{take_comma-Returns, HasBody}

-- Which ways of addressing a syntax allows.
abbrev IsAllowed : Syntax → AddressingId → Type 0
IsAllowed syntax simple = Unit
IsAllowed syntax indirect = Unit
IsAllowed syntax immediate = (is_store syntax ≡ false) × (is_load_f syntax ≡ false)
IsAllowed syntax literal_pool = is_store syntax ≡ false

check_addressing-Returns :
    (syntax : Syntax) (t : Token) (addressing : AddressingId)
    → Returns (IsAllowed syntax) (check_addressing syntax t addressing)
check_addressing-Returns syntax t simple = tt
check_addressing-Returns syntax t indirect = tt
check_addressing-Returns syntax t immediate = elim (Bool-cases (is_store syntax)) [
  | inl e ↦ rw e tt
  | inr e ↦ elim (Bool-cases (is_load_f syntax)) [ inl f ↦ rw (e, f) tt | inr f ↦ rw (e, f) (e, f) ]
]
check_addressing-Returns syntax t literal_pool = elim (Bool-cases (is_store syntax)) [
  | inl e ↦ rw e tt
  | inr e ↦ rw e e
]

-- The way of addressing, before at least one token.
abbrev Addressed : Syntax → AddressingId × List Token → Type 0
Addressed syntax r = IsAllowed syntax r.0 × (is_empty r.1 ≡ false)

module _ (syntax : Syntax) (t : Token) where
  checked-Returns :
      (addressing : AddressingId) (u : Token) (rest : List Token)
      → Returns
          (Addressed syntax)
          (check_addressing syntax t addressing >>= λ checked. value (checked, u ∷ rest))
  checked-Returns addressing u rest =
      Returns-bind (IsAllowed syntax) (Addressed syntax) (check_addressing syntax t addressing) _
        (check_addressing-Returns syntax t addressing) (λ checked v. (v, refl))

  addressing_operator-Returns :
      (c : TokenContent) (rest : List Token)
      → is_operator_in op_assign op_at c ≡ true
      → Returns (Addressed syntax) (addressing_operator syntax t c rest)
  addressing_operator-Returns (operator_token op_assign) [] h = tt
  addressing_operator-Returns (operator_token op_hash) [] h = tt
  addressing_operator-Returns (operator_token op_at) [] h = tt
  addressing_operator-Returns (operator_token op_assign) (u ∷ rest) h =
      checked-Returns literal_pool u rest
  addressing_operator-Returns (operator_token op_hash) (u ∷ rest) h =
      checked-Returns immediate u rest
  addressing_operator-Returns (operator_token op_at) (u ∷ rest) h = checked-Returns indirect u rest
  addressing_operator-Returns (operator_token op_add) rest h = cc
  addressing_operator-Returns (operator_token op_sub) rest h = cc
  addressing_operator-Returns (operator_token op_mul) rest h = cc
  addressing_operator-Returns (operator_token op_div) rest h = cc
  addressing_operator-Returns (operator_token op_lbracket) rest h = cc
  addressing_operator-Returns (operator_token op_rbracket) rest h = cc
  addressing_operator-Returns (operator_token op_comma) rest h = cc
  addressing_operator-Returns (name_token name) rest h = cc
  addressing_operator-Returns (integer_token n) rest h = cc
  addressing_operator-Returns comment_token rest h = cc
  addressing_operator-Returns (data_bin_token bytes) rest h = cc
  addressing_operator-Returns (data_float_token bytes) rest h = cc

parse_addressing_operator-Returns :
    (syntax : Syntax) (t : Token) (rest : List Token)
    → Returns (Addressed syntax) (parse_addressing_operator syntax (t ∷ rest))
unfolding parse_addressing_operator
parse_addressing_operator-Returns syntax t rest =
    elim (Bool-cases (is_operator_in op_assign op_at t.content)) [
      | inl e ↦ rw e (addressing_operator-Returns syntax t t.content rest e)
      | inr e ↦ rw e (tt, refl)
    ]

-- The operand of a node that is not indexed.
abbrev Operand : Syntax → Fs34Node × List Token → Type 0
Operand syntax r =
    IsOperandOf syntax r.0.addressing r.0.data_token r.0.expression × (r.0.indexed ≡ false)

expression-Operand-Returns :
    (syntax : Syntax) (allow_brackets : Bool) (addressing : AddressingId) (tokens : List Token)
    → is_empty tokens ≡ false
    → ((e : List Token) → IsParsedExpression e → IsOperandOf syntax addressing none e)
    → Returns (Operand syntax) (parse_operand_expression allow_brackets addressing tokens)
expression-Operand-Returns syntax allow_brackets addressing tokens h f =
    Returns-bind (Read allow_brackets tokens) (Operand syntax)
      (parse_expression allow_brackets tokens) _ (parse_expression-Returns allow_brackets tokens h)
      (λ r v. (f r.0 v.0, refl))

check_limit-Returns :
    (syntax : Syntax) (limit : ℕ) (t : Token) (bytes : Bytes) (rest : List Token)
    → literal_limit syntax ≡ some limit
    → (length bytes ≤ limit → IsLiteral syntax (some limit) t.content)
    → Returns (Operand syntax) (check_limit (some limit) t bytes rest)
check_limit-Returns syntax limit t bytes rest e f = elim (Bool-cases (ltb limit (length bytes))) [
  | inl g ↦ rw g tt
  | inr g ↦ rw (g, e) ((f (ground arith), refl), refl)
]

float_operand-Returns :
    (t : Token) (c : TokenContent) (rest : List Token)
    → t.content ≡ c
    → Returns (Operand fs34_load_f) (float_operand t c rest)
float_operand-Returns t (data_float_token bytes) rest e =
    check_limit-Returns fs34_load_f 6 t bytes rest refl (λ h. rw e (h, refl))
float_operand-Returns t (data_bin_token bytes) rest e =
    check_limit-Returns fs34_load_f 6 t bytes rest refl (λ h. rw e h)
float_operand-Returns t (name_token name) rest e = tt
float_operand-Returns t (operator_token op) rest e = tt
float_operand-Returns t comment_token rest e = tt
float_operand-Returns t (integer_token n) rest e = tt

module _ (allow_brackets : Bool) where
  integral_operand-Returns :
      (syntax : Syntax) (limit : ℕ) (t : Token) (c : TokenContent) (rest : List Token)
      → t.content ≡ c
      → literal_limit syntax ≡ some limit
      → is_store syntax ≡ false
      → is_load_f syntax ≡ false
      → Returns (Operand syntax) (integral_operand allow_brackets syntax t c rest)
  integral_operand-Returns syntax limit t (data_float_token bytes) rest e f g h = tt
  integral_operand-Returns syntax limit t (data_bin_token bytes) rest e f g h =
      subst (λ l. Returns (Operand syntax) (check_limit l t bytes rest)) (sym f)
        (check_limit-Returns syntax limit t bytes rest f (λ k. rw e k))
  integral_operand-Returns syntax limit t (name_token name) rest e f g h =
      expression-Operand-Returns syntax allow_brackets literal_pool (t ∷ rest) refl
        (λ e v. (v, g, h))
  integral_operand-Returns syntax limit t (operator_token op) rest e f g h =
      expression-Operand-Returns syntax allow_brackets literal_pool (t ∷ rest) refl
        (λ e v. (v, g, h))
  integral_operand-Returns syntax limit t comment_token rest e f g h =
      expression-Operand-Returns syntax allow_brackets literal_pool (t ∷ rest) refl
        (λ e v. (v, g, h))
  integral_operand-Returns syntax limit t (integer_token n) rest e f g h =
      expression-Operand-Returns syntax allow_brackets literal_pool (t ∷ rest) refl
        (λ e v. (v, g, h))

  parse_literal-Returns :
      (syntax : Syntax) (tokens : List Token)
      → is_empty tokens ≡ false
      → IsFs34Syntax syntax
      → has_no_operand syntax ≡ false
      → is_store syntax ≡ false
      → Returns (Operand syntax) (parse_literal allow_brackets syntax tokens)
  unfolding parse_literal
  parse_literal-Returns syntax [] h s n k = cc
  parse_literal-Returns fs34_load_f (t ∷ rest) h s n k = float_operand-Returns t t.content rest refl
  parse_literal-Returns fs34_load_b (t ∷ rest) h s n k =
      integral_operand-Returns fs34_load_b 1 t t.content rest refl refl refl refl
  parse_literal-Returns fs34_load_w (t ∷ rest) h s n k =
      integral_operand-Returns fs34_load_w 3 t t.content rest refl refl refl refl
  parse_literal-Returns fs34_store_w (t ∷ rest) h s n k = cc
  parse_literal-Returns fs34_store_b (t ∷ rest) h s n k = cc
  parse_literal-Returns fs34_store_f (t ∷ rest) h s n k = cc
  parse_literal-Returns fs34_none (t ∷ rest) h s n k = cc
  parse_literal-Returns f1_none (t ∷ rest) h s n k = elim s [ ]
  parse_literal-Returns f2_reg_reg (t ∷ rest) h s n k = elim s [ ]
  parse_literal-Returns f2_reg_n (t ∷ rest) h s n k = elim s [ ]
  parse_literal-Returns f2_reg (t ∷ rest) h s n k = elim s [ ]

  parse_operand-Returns :
      (syntax : Syntax) (addressing : AddressingId) (tokens : List Token)
      → IsFs34Syntax syntax
      → has_no_operand syntax ≡ false
      → IsAllowed syntax addressing
      → is_empty tokens ≡ false
      → Returns (Operand syntax) (parse_operand allow_brackets syntax addressing tokens)
  parse_operand-Returns syntax literal_pool tokens s n a h =
      parse_literal-Returns syntax tokens h s n a
  parse_operand-Returns syntax immediate tokens s n a h =
      expression-Operand-Returns syntax allow_brackets immediate tokens h (λ e v. (v, a.0, a.1))
  parse_operand-Returns syntax indirect tokens s n a h =
      expression-Operand-Returns syntax allow_brackets indirect tokens h (λ e v. v)
  parse_operand-Returns syntax simple tokens s n a h =
      expression-Operand-Returns syntax false simple tokens h (λ e v. v)

abbrev Indexed : Syntax → Fs34Node × List Token → Type 0
Indexed syntax r = IsFs34Node syntax r.0

parse_index_operator-Returns :
    (syntax : Syntax) (node : Fs34Node) (tokens : List Token)
    → IsOperandOf syntax node.addressing node.data_token node.expression
    → node.indexed ≡ false
    → Returns (Indexed syntax) (parse_index_operator node tokens)
unfolding parse_index_operator
parse_index_operator-Returns syntax node [] v e = (v, λ f. absurd (let no = rw e at f in cc))
parse_index_operator-Returns syntax node (comma ∷ rest) v e =
    Returns-bind Anything (Indexed syntax) (take_comma comma rest) _ (take_comma-Returns comma rest)
      λ taken _. elim (Bool-cases (is_index taken.0.content taken.0.value index_reg_name)) [
        | inr f ↦ rw f tt
        | inl f ↦ elim (Bool-cases (is_simple node.addressing)) [
          | inr g ↦ rw (f, g) tt
          | inl g ↦ rw (f, g) (v, λ h. g)
        ]
      ]

module _ (allow_brackets extended : Bool) (info : InstructionInfo)
    (s : IsFs34Syntax info.syntax) where
  parse_fs34_operand-Returns :
      (tokens : List Token)
      → has_no_operand info.syntax ≡ false
      → Returns HasBody (parse_fs34_operand allow_brackets extended info tokens)
  parse_fs34_operand-Returns [] n = tt
  parse_fs34_operand-Returns (t ∷ rest) n =
      Returns-bind (Addressed info.syntax) HasBody
        (parse_addressing_operator info.syntax (t ∷ rest)) _
        (parse_addressing_operator-Returns info.syntax t rest)
        λ a v.
          Returns-bind (Operand info.syntax) HasBody
            (parse_operand allow_brackets info.syntax a.0 a.1) _
            (parse_operand-Returns allow_brackets info.syntax a.0 a.1 s n v.0 v.1)
            λ o w.
              Returns-bind (Indexed info.syntax) HasBody
                (parse_index_operator (record o.0 { extended = extended }) o.1) _
                (parse_index_operator-Returns info.syntax (record o.0 { extended = extended }) o.1
                  w.0 w.1)
                λ r u. (subst (λ b. IsFs34Body b info.syntax r.0) (sym n) u, λ label. tt)

  pub parse_fs34-Returns :
      (tokens : List Token) → Returns HasBody (parse_fs34 allow_brackets extended info tokens)
  unfolding parse_fs34
  parse_fs34-Returns tokens = elim (Bool-cases (has_no_operand info.syntax)) [
    | inl e ↦ rw e (subst (λ b. IsFs34Body b info.syntax new_fs34) (sym e) refl, λ label. tt)
    | inr e ↦ rw e (parse_fs34_operand-Returns tokens e)
  ]
