-- ===== src/Assembler/Parser/Registers.antt =====
-- The operands of instructions of format 2 are well-formed.
use sicxe.Base.{
  ℕ, ◌<◌, ◌≡◌, true, leb, Option, List, [], ◌∷◌, inl, inr, Bool-cases, arith, if◌then◌else◌,
}
use sicxe.Base.Text.{Bytes, same_bytes}
use sicxe.Machine.State.{num_registers, register_name_to_id}
use sicxe.Isa.{Syntax}
use sicxe.Assembler.Token.{
  op_comma, TokenContent, name_token, operator_token, comment_token, integer_token, data_bin_token,
  data_float_token, Token,
}
use sicxe.Assembler.Outcome.{Returns, Returns-bind, Returns-mono}
use sicxe.Assembler.Node.{InstructionInfo, NodeBody}
use sicxe.Assembler.Expression.Terms.{Anything}
use sicxe.Assembler.Parser.{is_operator_id, is_name}
use sicxe.Assembler.Parser.Operands.{
  register_found, parse_register_name, take_comma, integer_below_16, is_reg_reg, is_reg_n,
  second_operand, parse_f2,
}
use sicxe.Assembler.Parser.Nodes.{IsBody, IsLabelled}

abbrev IsRegister : ℕ → Type 0
IsRegister id = id < num_registers

register_found-Returns :
    (t : Token) (name : Bytes) → Returns IsRegister (register_found t (register_name_to_id name))
unfolding register_name_to_id
register_found-Returns t name = elim (Bool-cases (same_bytes name (65 ∷ []))) [
  | inl e ↦ rw e (omega arith)
  | inr e ↦ elim (Bool-cases (same_bytes name (88 ∷ []))) [
    | inl f ↦ rw (e, f) (omega arith)
    | inr f ↦ elim (Bool-cases (same_bytes name (76 ∷ []))) [
      | inl g ↦ rw (e, f, g) (omega arith)
      | inr g ↦ elim (Bool-cases (same_bytes name (66 ∷ []))) [
        | inl h ↦ rw (e, f, g, h) (omega arith)
        | inr h ↦ elim (Bool-cases (same_bytes name (83 ∷ []))) [
          | inl i ↦ rw (e, f, g, h, i) (omega arith)
          | inr i ↦ elim (Bool-cases (same_bytes name (84 ∷ []))) [
            | inl j ↦ rw (e, f, g, h, i, j) (omega arith)
            | inr j ↦ rw (e, f, g, h, i, j) tt
          ]
        ]
      ]
    ]
  ]
]

parse_register_name-Returns : (t : Token) → Returns IsRegister (parse_register_name t)
unfolding parse_register_name
parse_register_name-Returns t = elim (Bool-cases (is_name t.content)) [
  | inl e ↦ rw e (register_found-Returns t t.value)
  | inr e ↦ rw e tt
]

pub take_comma-Returns :
    (comma : Token) (rest : List Token) → Returns Anything (take_comma comma rest)
take_comma-Returns comma [] = elim (Bool-cases (is_operator_id op_comma comma.content)) [
  | inl e ↦ rw e tt
  | inr e ↦ rw e tt
]
take_comma-Returns comma (t ∷ rest) = elim (Bool-cases (is_operator_id op_comma comma.content)) [
  | inl e ↦ rw e tt
  | inr e ↦ rw e tt
]

integer_below_16-Returns :
    (t : Token) (c : TokenContent) → Returns (λ n. n < 16) (integer_below_16 t c)
integer_below_16-Returns t (integer_token n) = elim (Bool-cases (leb 16 n)) [
  | inl e ↦ rw e tt
  | inr e ↦ rw e (omega arith)
]
integer_below_16-Returns t (name_token name) = tt
integer_below_16-Returns t (operator_token op) = tt
integer_below_16-Returns t comment_token = tt
integer_below_16-Returns t (data_bin_token bytes) = tt
integer_below_16-Returns t (data_float_token bytes) = tt

-- A well-formed node, which may have a label.
abbrev pub HasBody : NodeBody × List Token → Type 0
HasBody r = IsBody r.0 × ((label : Option Token) → IsLabelled r.0 label)

-- The second operand of a syntax.
abbrev IsSecond : Syntax → ℕ → Type 0
IsSecond syntax r2 = (r2 < 16) × (is_reg_reg syntax ≡ true → r2 < num_registers)

IsSecond-Returns :
    (syntax : Syntax) (t : Token)
    → Returns
        (IsSecond syntax)
        (if is_reg_reg syntax then parse_register_name t else integer_below_16 t t.content)
IsSecond-Returns syntax t = elim (Bool-cases (is_reg_reg syntax)) [
  | inl e ↦ rw e (
      Returns-mono IsRegister _ (parse_register_name t) (parse_register_name-Returns t)
        λ r2 v. (omega (arith, v), λ g. v))
  | inr e ↦ rw e (
      Returns-mono (λ n. n < 16) _ (integer_below_16 t t.content)
        (integer_below_16-Returns t t.content) λ r2 v. (v, λ g. absurd (let no = g in cc)))
]

second_operand-Returns :
    (info : InstructionInfo) (r1 : ℕ) (first : Token) (tokens : List Token)
    → r1 < num_registers
    → Returns HasBody (second_operand info r1 first tokens)
second_operand-Returns info r1 first [] h = tt
second_operand-Returns info r1 first (comma ∷ rest) h =
    Returns-bind Anything HasBody (take_comma comma rest) _ (take_comma-Returns comma rest)
      λ taken _.
        Returns-bind (IsSecond info.syntax) HasBody _ _ (IsSecond-Returns info.syntax taken.0)
          λ r2 v. ((h, v.0, v.1), λ label. tt)

pub parse_f2-Returns :
    (info : InstructionInfo) (tokens : List Token) → Returns HasBody (parse_f2 info tokens)
unfolding parse_f2
parse_f2-Returns info [] = tt
parse_f2-Returns info (t ∷ rest) =
    Returns-bind IsRegister HasBody (parse_register_name t) _ (parse_register_name-Returns t)
      λ r1 v. elim (Bool-cases (is_reg_reg info.syntax)) [
        | inl e ↦ rw e (second_operand-Returns info r1 t rest v)
        | inr e ↦ elim (Bool-cases (is_reg_n info.syntax)) [
          | inl f ↦ rw (e, f) (second_operand-Returns info r1 t rest v)
          | inr f ↦
              rw (e, f) ((v, omega arith, λ g. absurd (let no = rw e at g in cc)), λ label. tt)
        ]
      ]
