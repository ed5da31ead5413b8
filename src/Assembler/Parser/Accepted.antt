-- ===== src/Assembler/Parser/Accepted.antt =====
-- The nodes of the lines that `ParseLine` accepts.
use sicxe.Base.{
  ◌+◌, ◌≡◌, refl, Bool, true, false, not, ◌&&◌, Option, none, some, List, [], ◌∷◌, All, is_empty,
  inl, inr, Bool-cases, ◌==◌,
}
use sicxe.Base.Text.{Bytes, same_bytes}
use sicxe.Isa.{Format, f1, f2, fs34, is_fs34, Instruction}
use sicxe.Isa.Db.{InstructionDb, lookup, find_mnemonic}
use sicxe.Assembler.Token.{op_add, Token}
use sicxe.Assembler.Outcome.{Returns, Returns-bind, Returns-mono}
use sicxe.Assembler.Node.{DirectiveId, name_to_id, InstructionInfo, NodeBody}
use sicxe.Assembler.Expression.Terms.{Anything}
use sicxe.Assembler.Parser.{is_operator_id, is_name}
use sicxe.Assembler.Parser.Nodes.{IsFs34Syntax, IsNode}
use sicxe.Assembler.Parser.Registers.{HasBody, parse_f2-Returns}
use sicxe.Assembler.Parser.Instructions.{parse_fs34-Returns}
use sicxe.Assembler.Parser.Labels.{Labelled, parse_directive-Returns}
use sicxe.Assembler.Parser.Lines.{
  Config, split_comment, take_token, take_label, take_plus, check_plus, take_mnemonic,
  parse_operands, mnemonic_name, parse_instruction, parse_body, finish_line, parse_statement,
  parse_line,
}

-- An instruction of format 3/4 has a syntax of that format.
abbrev pub HasSyntax : Instruction → Type 0
HasSyntax entry = is_fs34 entry.format ≡ true → IsFs34Syntax entry.syntax

abbrev Whenever : Option Instruction → Type 0
Whenever none = Unit
Whenever (some entry) = HasSyntax entry

abbrev pub HasSyntaxes : InstructionDb → Type 0
HasSyntaxes db = All (λ p. HasSyntax p.1) db.mnemonic_map

lookup-Whenever :
    (key : Bytes) (entries : List (Bytes × Instruction))
    → All (λ p. HasSyntax p.1) entries
    → Whenever (lookup key entries)
unfolding lookup
lookup-Whenever key [] v = tt
lookup-Whenever key ((name, entry) ∷ rest) v = elim (Bool-cases (same_bytes name key)) [
  | inl e ↦ rw e v.0
  | inr e ↦ rw e (lookup-Whenever key rest v.1)
]

-- Tokens are left.
abbrev Left : Option Token × List Token → Type 0
Left r = is_empty r.1 ≡ false

take_token-Returns : (t : Token) (rest : List Token) → Returns Left (take_token t rest)
take_token-Returns t [] = tt
take_token-Returns t (u ∷ rest) = refl

take_label-Returns : (t : Token) (rest : List Token) → Returns Left (take_label (t ∷ rest))
take_label-Returns t rest = elim (Bool-cases (is_name t.content && t.pos.column == 0)) [
  | inl e ↦ rw e (take_token-Returns t rest)
  | inr e ↦ rw e refl
]

take_plus-Returns :
    (tokens : List Token) → is_empty tokens ≡ false → Returns Left (take_plus tokens)
take_plus-Returns [] h = cc
take_plus-Returns (t ∷ rest) h = elim (Bool-cases (is_operator_id op_add t.content)) [
  | inl e ↦ rw e (take_token-Returns t rest)
  | inr e ↦ rw e refl
]

check_plus-Returns :
    (plus : Option Token) (mnemonic : Token) → Returns Anything (check_plus plus mnemonic)
check_plus-Returns none mnemonic = tt
check_plus-Returns (some plus) mnemonic =
    elim (Bool-cases (not (mnemonic.pos.column == plus.pos.column + 1))) [
      | inl e ↦ rw e tt
      | inr e ↦ rw e tt
    ]

take_mnemonic-Returns :
    (plus : Option Token) (tokens : List Token)
    → is_empty tokens ≡ false
    → Returns Anything (take_mnemonic plus tokens)
take_mnemonic-Returns plus [] h = cc
take_mnemonic-Returns plus (t ∷ rest) h = elim (Bool-cases (is_name t.content)) [
  | inr e ↦ rw e tt
  | inl e ↦
      rw e (
        Returns-bind Anything Anything (check_plus plus t) _ (check_plus-Returns plus t)
          (λ m _. tt))
]

parse_operands-Returns :
    (allow_brackets extended : Bool) (format : Format) (info : InstructionInfo)
    (tokens : List Token)
    → (is_fs34 format ≡ true → IsFs34Syntax info.syntax)
    → Returns HasBody (parse_operands allow_brackets extended format info tokens)
unfolding parse_operands
parse_operands-Returns allow_brackets extended f1 info tokens s = (tt, λ label. tt)
parse_operands-Returns allow_brackets extended f2 info tokens s = parse_f2-Returns info tokens
parse_operands-Returns allow_brackets extended fs34 info tokens s =
    parse_fs34-Returns allow_brackets extended info (s refl) tokens

module _ (config : Config) where
  parse_instruction-Returns :
      (plus : Option Token) (mnemonic : Token) (found : Option Instruction) (tokens : List Token)
      → Whenever found
      → Returns HasBody (parse_instruction config plus mnemonic found tokens)
  unfolding parse_instruction
  parse_instruction-Returns none mnemonic none tokens s = tt
  parse_instruction-Returns (some plus) mnemonic none tokens s = tt
  parse_instruction-Returns none mnemonic (some entry) tokens s =
      parse_operands-Returns config.allow_brackets false entry.format _ tokens s
  parse_instruction-Returns (some plus) mnemonic (some entry) tokens s =
      elim (Bool-cases (not (is_fs34 entry.format))) [
        | inl e ↦ rw e tt
        | inr e ↦ rw e (parse_operands-Returns config.allow_brackets true entry.format _ tokens s)
      ]

  parse_body-Returns :
      (id : Option DirectiveId) (label plus : Option Token) (mnemonic : Token) (tokens : List Token)
      → HasSyntaxes config.instruction_db
      → Returns (Labelled label) (parse_body config id label plus mnemonic tokens)
  unfolding parse_body find_mnemonic
  parse_body-Returns (some id) label none mnemonic tokens s =
      parse_directive-Returns label mnemonic id tokens
  parse_body-Returns (some id) label (some plus) mnemonic tokens s = tt
  parse_body-Returns none label plus mnemonic tokens s =
      let name = mnemonic_name config mnemonic in
      Returns-mono HasBody (Labelled label)
        (parse_instruction config plus mnemonic (lookup name config.instruction_db.mnemonic_map)
          tokens)
        (parse_instruction-Returns plus mnemonic _ tokens
          (lookup-Whenever name config.instruction_db.mnemonic_map s))
        λ r v. (v.0, v.1 label)

  finish_line-Returns :
      (label comment : Option Token) (r : NodeBody × List Token)
      → Labelled label r
      → Returns IsNode (finish_line config label comment r)
  finish_line-Returns label comment (body, []) v = v
  finish_line-Returns label comment (body, t ∷ rest) v = tt

  parse_statement-Returns :
      (tokens : List Token) (comment : Option Token)
      → HasSyntaxes config.instruction_db
      → Returns IsNode (parse_statement config tokens comment)
  unfolding parse_statement
  parse_statement-Returns [] comment s = (tt, tt)
  parse_statement-Returns (t ∷ rest) comment s =
      Returns-bind Left IsNode (take_label (t ∷ rest)) _ (take_label-Returns t rest) λ l v.
        Returns-bind Left IsNode (take_plus l.1) _ (take_plus-Returns l.1 v) λ p w.
          Returns-bind Anything IsNode (take_mnemonic p.0 p.1) _ (take_mnemonic-Returns p.0 p.1 w)
            λ m _.
              Returns-bind (Labelled l.0) IsNode
                (parse_body config (name_to_id (mnemonic_name config m.0)) l.0 p.0 m.0 m.1) _
                (parse_body-Returns _ l.0 p.0 m.0 m.1 s) λ r u. finish_line-Returns l.0 comment r u

  -- With a table of instructions in which those of format 3/4 have a syntax of that format, `ParseLine`
  -- ends on any tokens, fails no assertion, never asks for a token that is not there, and gives errors
  -- or a node. In the node registers are below 6, and numbers below 16; expressions have operands with
  -- operators between them; stores have no immediate operand and no literal, and loads of floats no
  -- immediate one; a literal is no longer than what is loaded, and floats are only loaded as floats; only
  -- simple addressing is indexed; external names and the program's have at most six characters; START and
  -- EQU have a label, and END, ORG, BASE, NOBASE, USE, LTORG, EXTDEF and EXTREF have none.
  pub parse_line-Returns :
      (tokens : List Token)
      → HasSyntaxes config.instruction_db
      → Returns IsNode (parse_line config tokens)
  unfolding parse_line
  parse_line-Returns tokens s =
      parse_statement-Returns (split_comment tokens).0 (split_comment tokens).1 s
