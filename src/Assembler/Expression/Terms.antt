-- ===== src/Assembler/Expression/Terms.antt =====
-- Terms of well-formed expressions over symbols that passed `ValidateExpressionSymbols`.
use sicxe.Base.{
  ℕ, suc, ◌≤◌, ◌≡◌, refl, Bool, true, false, ◌&&◌, Option, none, some, List, [], ◌∷◌, length, All,
  inl, inr, Bool-cases, arith,
}
use sicxe.Base.Int.{ℤ, pos, negsuc, ltb_ℤ}
use sicxe.Base.Text.{Bytes}
use sicxe.Base.Keys.{bytes_key}
use sicxe.Base.Maps.{Map, find}
use sicxe.Assembler.SymbolTable.{TypeId, unknown, internal, external, Entry, SymbolTable}
use sicxe.Assembler.Outcome.{Returns, Returns-bind, Returns-mono}
use sicxe.Assembler.Expression.{
  is_additive, check_overflow, term_symbol, get_term_token_value, is_zero_operand, apply_operator,
  solve_term, single_symbol, solve_single,
}
use sicxe.Assembler.Token.{
  OperatorId, TokenContent, op_add, op_sub, op_mul, op_div, op_lbracket, op_rbracket, op_comma,
  op_assign, op_hash, op_at, name_token, integer_token, operator_token, comment_token,
  data_bin_token, data_float_token,
}

-- An int32.
abbrev pub IsInt32 : ℤ → Type 0
IsInt32 n = (ltb_ℤ n (negsuc 0x7fff_ffff) ≡ false) × (ltb_ℤ (pos 0x7fff_ffff) n ≡ false)

abbrev pub Anything {ℓ} : {A : Type ℓ} → A → Type 0
Anything a = Unit

abbrev pub IsOperand : TokenContent → Type 0
IsOperand (name_token name) = Unit
IsOperand (integer_token n) = Unit
IsOperand (operator_token op) = ⊥
IsOperand comment_token = ⊥
IsOperand (data_bin_token bytes) = ⊥
IsOperand (data_float_token bytes) = ⊥

abbrev pub IsArithmetic : OperatorId → Type 0
IsArithmetic op_add = Unit
IsArithmetic op_sub = Unit
IsArithmetic op_mul = Unit
IsArithmetic op_div = Unit
IsArithmetic op_lbracket = ⊥
IsArithmetic op_rbracket = ⊥
IsArithmetic op_comma = ⊥
IsArithmetic op_assign = ⊥
IsArithmetic op_hash = ⊥
IsArithmetic op_at = ⊥

-- Operators, each with an operand after it.
abbrev pub IsTail : List TokenContent → Type 0
IsTail [] = Unit
IsTail (operator_token op ∷ operand ∷ rest) = IsArithmetic op × IsOperand operand × IsTail rest
IsTail _ = ⊥

-- Operands with operators between them, and perhaps a sign in front.
abbrev pub IsExpression : List TokenContent → Type 0
IsExpression [] = Unit
IsExpression (name_token name ∷ rest) = IsTail rest
IsExpression (integer_token n ∷ rest) = IsTail rest
IsExpression (operator_token op ∷ operand ∷ rest) =
    (is_additive op ≡ true) × IsOperand operand × IsTail rest
IsExpression _ = ⊥

-- What `ValidateExpressionSymbols` finds of the symbol of a token.
abbrev pub IsUsableAs : Bool → TypeId → Entry → Type 0
IsUsableAs has_external unknown entry = ⊥
IsUsableAs has_external internal entry = entry.resolved ≡ true
IsUsableAs has_external external entry = has_external ≡ true

abbrev pub IsUsableSymbol : Bool → Option Entry → Type 0
IsUsableSymbol has_external none = ⊥
IsUsableSymbol has_external (some entry) = IsUsableAs has_external entry.type_id entry

abbrev pub IsUsable : Bool → SymbolTable → TokenContent → Type 0
IsUsable has_external table (name_token name) = IsUsableSymbol has_external (find name table)
IsUsable has_external table (integer_token n) = Unit
IsUsable has_external table (operator_token op) = Unit
IsUsable has_external table comment_token = Unit
IsUsable has_external table (data_bin_token bytes) = Unit
IsUsable has_external table (data_float_token bytes) = Unit

pub check_overflow-Returns : (n : ℤ) → Returns IsInt32 (check_overflow n)
unfolding check_overflow
check_overflow-Returns n = elim (Bool-cases (ltb_ℤ n (negsuc 0x7fff_ffff))) [
  | inl e ↦ rw e tt
  | inr e ↦ elim (Bool-cases (ltb_ℤ (pos 0x7fff_ffff) n)) [
    | inl f ↦ rw (e, f) tt
    | inr f ↦ rw (e, f) (e, f)
  ]
]

apply_operator-Returns :
    (op : OperatorId) (a b : ℤ)
    → IsArithmetic op
    → is_additive op ≡ false
    → Returns Anything (apply_operator op a b)
unfolding apply_operator
apply_operator-Returns op_add a b v h = cc
apply_operator-Returns op_sub a b v h = cc
apply_operator-Returns op_mul a b v h = tt
apply_operator-Returns op_div a b v h = elim (Bool-cases (is_zero_operand b)) [
  | inl e ↦ rw e tt
  | inr e ↦ rw e tt
]
apply_operator-Returns op_lbracket a b v h = elim v [ ]
apply_operator-Returns op_rbracket a b v h = elim v [ ]
apply_operator-Returns op_comma a b v h = elim v [ ]
apply_operator-Returns op_assign a b v h = elim v [ ]
apply_operator-Returns op_hash a b v h = elim v [ ]
apply_operator-Returns op_at a b v h = elim v [ ]

module _ (has_external : Bool) where
  term_entry-Returns :
      (type_id : TypeId) (entry : Entry)
      → entry.type_id ≡ type_id
      → IsUsableAs has_external type_id entry
      → Returns Anything (term_symbol (some entry))
  term_entry-Returns unknown entry e v = elim v [ ]
  term_entry-Returns external entry e v = rw e tt
  term_entry-Returns internal entry e v = elim (Bool-cases entry.relative) [
    | inl f ↦ rw (e, f) tt
    | inr f ↦ rw (e, f, v) tt
  ]

  term_symbol-Returns :
      (symbol : Option Entry)
      → IsUsableSymbol has_external symbol
      → Returns Anything (term_symbol symbol)
  term_symbol-Returns none v = elim v [ ]
  term_symbol-Returns (some entry) v = term_entry-Returns entry.type_id entry refl v

  pub get_term_token_value-Returns :
      (table : SymbolTable) (token : TokenContent)
      → IsOperand token
      → IsUsable has_external table token
      → Returns Anything (get_term_token_value table token)
  unfolding get_term_token_value
  get_term_token_value-Returns table (name_token name) v w = term_symbol-Returns (find name table) w
  get_term_token_value-Returns table (integer_token n) v w = tt
  get_term_token_value-Returns table (operator_token op) v w = elim v [ ]
  get_term_token_value-Returns table comment_token v w = elim v [ ]
  get_term_token_value-Returns table (data_bin_token bytes) v w = elim v [ ]
  get_term_token_value-Returns table (data_float_token bytes) v w = elim v [ ]

  single_entry-Returns :
      (sign : Bool) (name : Bytes) (type_id : TypeId) (entry : Entry) (map : Map Bytes ℤ)
      → entry.type_id ≡ type_id
      → IsUsableAs has_external type_id entry
      → Returns Anything (single_symbol sign has_external name (some entry) map)
  single_entry-Returns sign name unknown entry map e v = elim v [ ]
  single_entry-Returns sign name external entry map e v = rw (e, v) tt
  single_entry-Returns sign name internal entry map e v =
      elim (Bool-cases (has_external && entry.exported)) [
        | inl f ↦ rw (e, f) tt
        | inr f ↦ elim (Bool-cases (has_external && entry.relative)) [
          | inl g ↦ rw (e, f, g) tt
          | inr g ↦ rw (e, f, g, v) tt
        ]
      ]

  single_symbol-Returns :
      (sign : Bool) (name : Bytes) (symbol : Option Entry) (map : Map Bytes ℤ)
      → IsUsableSymbol has_external symbol
      → Returns Anything (single_symbol sign has_external name symbol map)
  single_symbol-Returns sign name none map v = elim v [ ]
  single_symbol-Returns sign name (some entry) map v =
      single_entry-Returns sign name entry.type_id entry map refl v

  pub solve_single-Returns :
      (table : SymbolTable) (sign : Bool) (token : TokenContent) (map : Map Bytes ℤ)
      → IsOperand token
      → IsUsable has_external table token
      → Returns Anything (solve_single table sign has_external token map)
  unfolding solve_single
  solve_single-Returns table sign (name_token name) map v w =
      single_symbol-Returns sign name (find name table) map w
  solve_single-Returns table sign (integer_token n) map v w = tt
  solve_single-Returns table sign (operator_token op) map v w = elim v [ ]
  solve_single-Returns table sign comment_token map v w = elim v [ ]
  solve_single-Returns table sign (data_bin_token bytes) map v w = elim v [ ]
  solve_single-Returns table sign (data_float_token bytes) map v w = elim v [ ]

  -- Where the loop of `Solve` may go on, with no more tokens than there were.
  abbrev pub GoesOn : SymbolTable → ℕ → List TokenContent → Type 0
  GoesOn table most rest =
      IsExpression rest × All (IsUsable has_external table) rest × (length rest ≤ most)

  pub solve_term-Returns :
      (table : SymbolTable) (n : ℤ) (tokens : List TokenContent)
      → IsTail tokens
      → All (IsUsable has_external table) tokens
      → Returns (λ r. GoesOn table (length tokens) r.1) (solve_term table n tokens)
  unfolding solve_term
  solve_term-Returns table n [] v w = (tt, tt, omega arith)
  solve_term-Returns table n (name_token name ∷ rest) v w = elim v [ ]
  solve_term-Returns table n (integer_token k ∷ rest) v w = elim v [ ]
  solve_term-Returns table n (comment_token ∷ rest) v w = elim v [ ]
  solve_term-Returns table n (data_bin_token bytes ∷ rest) v w = elim v [ ]
  solve_term-Returns table n (data_float_token bytes ∷ rest) v w = elim v [ ]
  solve_term-Returns table n (operator_token op ∷ []) v w = elim v [ ]
  solve_term-Returns table n (operator_token op ∷ operand ∷ rest) v w =
      elim (Bool-cases (is_additive op)) [
        | inl e ↦ rw e ((e, v.1, v.2), w, omega arith)
        | inr e ↦ rw e (
            Returns-bind Anything (λ r. GoesOn table (suc (suc (length rest))) r.1)
              (get_term_token_value table operand) _
              (get_term_token_value-Returns table operand v.1 w.1.0)
              λ taken _.
                Returns-bind IsInt32 (λ r. GoesOn table (suc (suc (length rest))) r.1)
                  (check_overflow taken) _ (check_overflow-Returns taken)
                  λ checked _.
                    Returns-bind Anything (λ r. GoesOn table (suc (suc (length rest))) r.1)
                      (apply_operator op n checked) _ (apply_operator-Returns op n checked v.0 e)
                      λ result _.
                        Returns-bind IsInt32 (λ r. GoesOn table (suc (suc (length rest))) r.1)
                          (check_overflow result) _ (check_overflow-Returns result)
                          λ small _.
                            Returns-mono (λ r. GoesOn table (length rest) r.1)
                              (λ r. GoesOn table (suc (suc (length rest))) r.1)
                              (solve_term table small rest)
                              (solve_term-Returns table small rest v.2 w.1.1)
                              (λ r g. (g.0, g.1, omega (arith, g.2))))
      ]
