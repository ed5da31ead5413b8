-- ===== src/Assembler/Expression/Valid.antt =====
-- What `ValidateExpressionSymbols` finds, and `Solve` as a whole.
use sicxe.Base.{
  ◌≡◌, refl, Bool, true, false, ◌==◌, Option, none, some, List, [], ◌∷◌, length, All, inl, inr,
  Bool-cases, arith,
}
use sicxe.Base.Int.{ℤ, pos, negsuc}
use sicxe.Base.Keys.{bytes_key}
use sicxe.Base.Maps.{find}
use sicxe.Assembler.SymbolTable.{TypeId, unknown, internal, external, Entry, SymbolTable}
use sicxe.Assembler.Outcome.{Returns, Returns-bind}
use sicxe.Assembler.Expression.{
  Validation, check_entry, check_symbol, check_token, validate_expression_symbols, SolveState,
}
use sicxe.Assembler.Expression.Terms.{IsInt32, IsExpression, IsUsableAs, IsUsableSymbol, IsUsable}
use sicxe.Assembler.Expression.Solve.{solve_tokens, Solution, classified, finish_solve, solve}
use sicxe.Assembler.Expression.Runs.{solve_tokens-Returns}
use sicxe.Assembler.Token.{
  TokenContent, name_token, integer_token, operator_token, comment_token, data_bin_token,
  data_float_token,
}

-- A step never takes back that there are external symbols, nor that there was an error.
abbrev Grows : Validation → Validation → Type 0
Grows v w = (v.has_external ≡ true → w.has_external ≡ true) × (w.success ≡ true → v.success ≡ true)

check_entry-Grows :
    (allow_external : Bool) (type_id : TypeId) (entry : Entry) (v : Validation)
    → Grows v (check_entry allow_external type_id entry v)
check_entry-Grows allow_external unknown entry v = (λ e. e, λ e. absurd (cc))
check_entry-Grows true external entry v = (λ e. refl, λ e. e)
check_entry-Grows false external entry v = (λ e. refl, λ e. absurd (cc))
check_entry-Grows allow_external internal entry v = elim (Bool-cases entry.defined) [
  | inr e ↦ rw e (λ h. h, λ h. absurd (cc))
  | inl e ↦ elim (Bool-cases entry.resolved) [
    | inr f ↦ rw (e, f) (λ h. h, λ h. absurd (cc))
    | inl f ↦ rw (e, f) (λ h. h, λ h. h)
  ]
]

check_symbol-Grows :
    (allow_external : Bool) (symbol : Option Entry) (v : Validation)
    → Grows v (check_symbol allow_external symbol v)
check_symbol-Grows allow_external none v = (λ e. e, λ e. absurd (cc))
check_symbol-Grows allow_external (some entry) v =
    check_entry-Grows allow_external entry.type_id entry v

check_token-Grows :
    (allow_external : Bool) (table : SymbolTable) (token : TokenContent) (v : Validation)
    → Grows v (check_token allow_external table token v)
check_token-Grows allow_external table (name_token name) v =
    check_symbol-Grows allow_external (find name table) v
check_token-Grows allow_external table (integer_token n) v = (λ e. e, λ e. e)
check_token-Grows allow_external table (operator_token op) v = (λ e. e, λ e. e)
check_token-Grows allow_external table comment_token v = (λ e. e, λ e. e)
check_token-Grows allow_external table (data_bin_token bytes) v = (λ e. e, λ e. e)
check_token-Grows allow_external table (data_float_token bytes) v = (λ e. e, λ e. e)

-- A step without an error finds a usable symbol.
check_entry-IsUsableAs :
    (allow_external has_external : Bool) (type_id : TypeId) (entry : Entry) (v : Validation)
    → (check_entry allow_external type_id entry v).success ≡ true
    → ((check_entry allow_external type_id entry v).has_external ≡ true → has_external ≡ true)
    → IsUsableAs has_external type_id entry
check_entry-IsUsableAs allow_external has_external unknown entry v h k = absurd (cc)
check_entry-IsUsableAs true has_external external entry v h k = k refl
check_entry-IsUsableAs false has_external external entry v h k = absurd (cc)
check_entry-IsUsableAs allow_external has_external internal entry v h k =
    elim (Bool-cases entry.defined) [
      | inr e ↦ absurd (let failed = rw e at h in cc)
      | inl e ↦ elim (Bool-cases entry.resolved) [
        | inr f ↦ absurd (let failed = rw (e, f) at h in cc)
        | inl f ↦ f
      ]
    ]

check_symbol-IsUsableSymbol :
    (allow_external has_external : Bool) (symbol : Option Entry) (v : Validation)
    → (check_symbol allow_external symbol v).success ≡ true
    → ((check_symbol allow_external symbol v).has_external ≡ true → has_external ≡ true)
    → IsUsableSymbol has_external symbol
check_symbol-IsUsableSymbol allow_external has_external none v h k = absurd (cc)
check_symbol-IsUsableSymbol allow_external has_external (some entry) v h k =
    check_entry-IsUsableAs allow_external has_external entry.type_id entry v h k

module _ (allow_external : Bool) (table : SymbolTable) where
  check_token-IsUsable :
      (has_external : Bool) (token : TokenContent) (v : Validation)
      → (check_token allow_external table token v).success ≡ true
      → ((check_token allow_external table token v).has_external ≡ true → has_external ≡ true)
      → IsUsable has_external table token
  check_token-IsUsable has_external (name_token name) v h k =
      check_symbol-IsUsableSymbol allow_external has_external (find name table) v h k
  check_token-IsUsable has_external (integer_token n) v h k = tt
  check_token-IsUsable has_external (operator_token op) v h k = tt
  check_token-IsUsable has_external comment_token v h k = tt
  check_token-IsUsable has_external (data_bin_token bytes) v h k = tt
  check_token-IsUsable has_external (data_float_token bytes) v h k = tt

  validate-Grows :
      (tokens : List TokenContent) (v : Validation)
      → Grows v (validate_expression_symbols allow_external table tokens v)
  unfolding validate_expression_symbols
  validate-Grows [] v = (λ e. e, λ e. e)
  validate-Grows (token ∷ rest) v =
      let first = check_token-Grows allow_external table token v in
      let later = validate-Grows rest (check_token allow_external table token v) in
      (λ e. later.0 (first.0 e), λ e. first.1 (later.1 e))

  validate-IsUsable :
      (tokens : List TokenContent) (v : Validation)
      → (validate_expression_symbols allow_external table tokens v).success ≡ true
      → All
          (IsUsable (validate_expression_symbols allow_external table tokens v).has_external table)
          tokens
  unfolding validate_expression_symbols
  validate-IsUsable [] v h = tt
  validate-IsUsable (token ∷ rest) v h =
      let w = check_token allow_external table token v in
      let later = validate-Grows rest w in
      (
        check_token-IsUsable (validate_expression_symbols allow_external table rest w).has_external
            token v (later.1 h) later.0,
        validate-IsUsable rest w h,
      )

-- The result is an int32.
abbrev pub HasInt32 : Solution → Type 0
HasInt32 s = IsInt32 s.result

classified-Returns :
    (s : SolveState) (count : ℤ) → IsInt32 s.total → Returns HasInt32 (classified s count)
classified-Returns s (pos n) v = elim (Bool-cases (n == 0)) [
  | inl e ↦ rw e v
  | inr e ↦ elim (Bool-cases (n == 1)) [ inl f ↦ rw (e, f) v | inr f ↦ rw (e, f) tt ]
]
classified-Returns s (negsuc n) v = tt

finish_solve-Returns : (s : SolveState) → IsInt32 s.total → Returns HasInt32 (finish_solve s)
unfolding finish_solve
finish_solve-Returns s v = classified-Returns s s.relative_count v

-- On operands with operators between them, and perhaps a sign in front, over any table of symbols,
-- `Solve` ends, fails no assertion, reads no token past the last one, and gives errors or a result
-- that is an int32.
pub solve-Returns :
    (allow_external : Bool) (table : SymbolTable) (expression : List TokenContent)
    → IsExpression expression
    → Returns HasInt32 (solve allow_external table expression)
unfolding solve
solve-Returns allow_external table expression v =
    let start : Validation = record { success = true; has_external = false; errors = [] } in
    let found = validate_expression_symbols allow_external table expression start in
    elim (Bool-cases found.success) [
      | inr e ↦ rw e tt
      | inl e ↦ rw e (
          Returns-bind (λ s. IsInt32 s.total) HasInt32
            (solve_tokens table found.has_external (length expression) expression _) finish_solve
            (solve_tokens-Returns table found.has_external (length expression) expression _
              (refl, refl)
              (v, validate-IsUsable allow_external table expression start e, omega arith))
            finish_solve-Returns)
    ]
