-- ===== src/Assembler/Parser/Labels.antt =====
-- The operands and the labels of directives are well-formed.
use sicxe.Base.{
  ◌≤◌, ◌≡◌, refl, true, false, ltb, Option, none, some, List, [], ◌∷◌, length, inl, inr, Bool-cases,
  arith,
}
use sicxe.Assembler.Token.{op_comma, op_mul, Token}
use sicxe.Assembler.Errors.{PositionedError}
use sicxe.Assembler.Outcome.{
  Outcome, value, failed, undefined, assertion_failed, out_of_fuel, Returns, Returns-bind,
  Returns-mono,
}
use sicxe.Assembler.Node.{
  WidthId, width_byte, width_word, DirectiveId, dir_start, dir_end, dir_org, dir_equ, dir_use,
  dir_ltorg, dir_base, dir_nobase, dir_extdef, dir_extref, dir_byte, dir_word, dir_resb, dir_resw,
  NodeBody, directive_start, directive_end, directive_org, directive_base, directive_equ,
  directive_mem_init, directive_mem_reserve, directive_extdef, directive_extref,
}
use sicxe.Assembler.Parser.{Parsed, is_operator_id, is_name, parse_expression}
use sicxe.Assembler.Parser.Directives.{
  parse_expression_directive, without_label, after_error, checked_symbol, after_comma,
  parse_symbols, parse_symbol_list, parse_start, parse_equ, parse_use, is_data, parse_mem_init,
  parse_directive,
}
use sicxe.Assembler.Parser.Expressions.{IsParsedExpression, Read, parse_expression-Returns}
use sicxe.Assembler.Parser.Nodes.{IsSymbolList, IsBody, IsAbsent, IsLabelled}

module _ (label : Option Token) where
  -- A node with its label.
  abbrev pub Labelled : NodeBody × List Token → Type 0
  Labelled r = IsBody r.0 × IsLabelled r.0 label

  expression_directive-Returns :
      (mnemonic : Token) (make : List Token → NodeBody) (tokens : List Token)
      → ((e : List Token) → IsParsedExpression e → IsBody (make e) × IsLabelled (make e) label)
      → Returns Labelled (parse_expression_directive mnemonic make tokens)
  unfolding parse_expression_directive
  expression_directive-Returns mnemonic make [] f = tt
  expression_directive-Returns mnemonic make (t ∷ rest) f =
      Returns-bind (Read false (t ∷ rest)) Labelled (parse_expression false (t ∷ rest)) _
        (parse_expression-Returns false (t ∷ rest) refl) (λ r v. f r.0 v.0)

-- It ends with errors, whatever comes after.
after_error-Returns :
    {A : Type 0} (P Q : A → Type 0) (error : PositionedError) (r : Outcome PositionedError A)
    → Returns P r
    → Returns Q (after_error error r)
after_error-Returns P Q error (value a) h = tt
after_error-Returns P Q error (failed errors) h = tt
after_error-Returns P Q error undefined h = elim h [ ]
after_error-Returns P Q error assertion_failed h = elim h [ ]
after_error-Returns P Q error out_of_fuel h = elim h [ ]

abbrev Symbols : List Token × List Token → Type 0
Symbols r = IsSymbolList r.0

-- What the symbols are, if the first one is not too long.
abbrev Unchecked : Token → List Token × List Token → Type 0
Unchecked t r = length t.value ≤ 6 → IsSymbolList r.0

checked_symbol-Returns :
    (t : Token) (r : Parsed (List Token))
    → Returns (Unchecked t) r
    → Returns Symbols (checked_symbol t r)
checked_symbol-Returns t r h = elim (Bool-cases (ltb 6 (length t.value))) [
  | inl e ↦ rw e (after_error-Returns (Unchecked t) Symbols _ r h)
  | inr e ↦ rw e (Returns-mono (Unchecked t) Symbols r h (λ s v. v (ground arith)))
]

after_comma-Returns :
    (t comma : Token) (later : Parsed (List Token))
    → is_name t.content ≡ true
    → Returns Symbols later
    → Returns (Unchecked t) (after_comma t comma later)
after_comma-Returns t comma later e h = elim (Bool-cases (is_operator_id op_comma comma.content)) [
  | inr f ↦ rw f tt
  | inl f ↦ rw f (
      Returns-bind Symbols (Unchecked t) later (λ r. value (t ∷ r.0, r.1)) h
        (λ r v k. (((e, k), v.0), refl)))
]

parse_symbols-Returns :
    (last : Token) (tokens : List Token) → Returns Symbols (parse_symbols last tokens)
unfolding parse_symbols
parse_symbols-Returns last [] = tt
parse_symbols-Returns last (t ∷ []) = elim (Bool-cases (is_name t.content)) [
  | inl e ↦ rw e (checked_symbol-Returns t (value (t ∷ [], [])) (λ k. (((e, k), tt), refl)))
  | inr e ↦ rw e tt
]
parse_symbols-Returns last (t ∷ comma ∷ rest) = elim (Bool-cases (is_name t.content)) [
  | inl e ↦ rw e (
      checked_symbol-Returns t (after_comma t comma (parse_symbols comma rest)) (
        after_comma-Returns t comma (parse_symbols comma rest) e
          (parse_symbols-Returns comma rest)))
  | inr e ↦ rw e tt
]

symbol_list-Returns :
    (label : Option Token) (mnemonic : Token) (make : List Token → NodeBody) (tokens : List Token)
    → ((e : List Token) → IsSymbolList e → IsBody (make e) × IsLabelled (make e) label)
    → Returns (Labelled label) (parse_symbol_list mnemonic make tokens)
symbol_list-Returns label mnemonic make tokens f =
    Returns-bind Symbols (Labelled label) (parse_symbols mnemonic tokens) _
      (parse_symbols-Returns mnemonic tokens) (λ r v. f r.0 v)

without_label-Returns :
    (label : Option Token) (r : Parsed NodeBody)
    → (IsAbsent label → Returns (Labelled label) r)
    → Returns (Labelled label) (without_label label r)
without_label-Returns none r f = f tt
without_label-Returns (some t) r f = tt

parse_start-Returns :
    (mnemonic : Token) (label : Option Token) (tokens : List Token)
    → Returns (Labelled label) (parse_start mnemonic label tokens)
parse_start-Returns mnemonic none tokens = tt
parse_start-Returns mnemonic (some t) tokens = elim (Bool-cases (ltb 6 (length t.value))) [
  | inl e ↦ rw e tt
  | inr e ↦ rw e (
      expression_directive-Returns (some t) mnemonic (directive_start mnemonic) tokens
        (λ x v. (v, ground arith)))
]

parse_equ-Returns :
    (mnemonic : Token) (label : Option Token) (tokens : List Token)
    → Returns (Labelled label) (parse_equ mnemonic label tokens)
parse_equ-Returns mnemonic none tokens = tt
parse_equ-Returns mnemonic (some t) [] =
    expression_directive-Returns (some t) mnemonic (directive_equ mnemonic false) []
      (λ e v. (v, tt))
parse_equ-Returns mnemonic (some t) (u ∷ rest) =
    elim (Bool-cases (is_operator_id op_mul u.content)) [
      | inl e ↦ rw e (refl, tt)
      | inr e ↦ rw e (
          expression_directive-Returns (some t) mnemonic (directive_equ mnemonic false) (u ∷ rest)
            (λ e v. (v, tt)))
    ]

module _ (label : Option Token) (mnemonic : Token) where
  parse_use-Returns :
      (tokens : List Token) → IsAbsent label → Returns (Labelled label) (parse_use mnemonic tokens)
  parse_use-Returns [] a = (tt, a)
  parse_use-Returns (t ∷ rest) a = elim (Bool-cases (is_name t.content)) [
    | inl e ↦ rw e (e, a)
    | inr e ↦ rw e tt
  ]

  parse_mem_init-Returns :
      (width : WidthId) (tokens : List Token)
      → Returns (Labelled label) (parse_mem_init mnemonic width tokens)
  parse_mem_init-Returns width [] =
      expression_directive-Returns label mnemonic (directive_mem_init mnemonic width none) []
        (λ e v. (v, tt))
  parse_mem_init-Returns width (t ∷ rest) = elim (Bool-cases (is_data t.content)) [
    | inl e ↦ rw e ((e, refl), tt)
    | inr e ↦ rw e (
        expression_directive-Returns label mnemonic (directive_mem_init mnemonic width none)
          (t ∷ rest) (λ e v. (v, tt)))
  ]

  -- A directive without a label that has an expression.
  unlabelled-Returns :
      (make : List Token → NodeBody) (tokens : List Token)
      → ((e : List Token)
          → IsAbsent label
          → IsParsedExpression e
          → IsBody (make e) × IsLabelled (make e) label)
      → Returns
          (Labelled label)
          (without_label label (parse_expression_directive mnemonic make tokens))
  unlabelled-Returns make tokens f =
      without_label-Returns label (parse_expression_directive mnemonic make tokens)
        λ a. expression_directive-Returns label mnemonic make tokens (λ e v. f e a v)

  unlabelled_symbols-Returns :
      (make : List Token → NodeBody) (tokens : List Token)
      → ((e : List Token)
          → IsAbsent label
          → IsSymbolList e
          → IsBody (make e) × IsLabelled (make e) label)
      → Returns (Labelled label) (without_label label (parse_symbol_list mnemonic make tokens))
  unlabelled_symbols-Returns make tokens f =
      without_label-Returns label (parse_symbol_list mnemonic make tokens)
        λ a. symbol_list-Returns label mnemonic make tokens (λ e v. f e a v)

  pub parse_directive-Returns :
      (id : DirectiveId) (tokens : List Token)
      → Returns (Labelled label) (parse_directive id mnemonic label tokens)
  unfolding parse_directive
  parse_directive-Returns dir_start tokens = parse_start-Returns mnemonic label tokens
  parse_directive-Returns dir_end tokens =
      unlabelled-Returns (directive_end mnemonic) tokens (λ e a v. (v, a))
  parse_directive-Returns dir_org tokens =
      unlabelled-Returns (directive_org mnemonic) tokens (λ e a v. (v, a))
  parse_directive-Returns dir_equ tokens = parse_equ-Returns mnemonic label tokens
  parse_directive-Returns dir_use tokens =
      without_label-Returns label (parse_use mnemonic tokens) (λ a. parse_use-Returns tokens a)
  parse_directive-Returns dir_ltorg tokens = without_label-Returns label _ (λ a. (tt, a))
  parse_directive-Returns dir_base tokens =
      unlabelled-Returns (directive_base mnemonic) tokens (λ e a v. (v, a))
  parse_directive-Returns dir_nobase tokens = without_label-Returns label _ (λ a. (tt, a))
  parse_directive-Returns dir_extdef tokens =
      unlabelled_symbols-Returns (directive_extdef mnemonic) tokens (λ e a v. (v, a))
  parse_directive-Returns dir_extref tokens =
      unlabelled_symbols-Returns (directive_extref mnemonic) tokens (λ e a v. (v, a))
  parse_directive-Returns dir_byte tokens = parse_mem_init-Returns width_byte tokens
  parse_directive-Returns dir_word tokens = parse_mem_init-Returns width_word tokens
  parse_directive-Returns dir_resb tokens =
      expression_directive-Returns label mnemonic (directive_mem_reserve mnemonic width_byte) tokens
        (λ e v. (v, tt))
  parse_directive-Returns dir_resw tokens =
      expression_directive-Returns label mnemonic (directive_mem_reserve mnemonic width_word) tokens
        (λ e v. (v, tt))
