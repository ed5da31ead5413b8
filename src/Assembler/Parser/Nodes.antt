-- ===== src/Assembler/Parser/Nodes.antt =====
-- Well-formed nodes: what later passes rely on.
use sicxe.Base.{
  ℕ, ◌≤◌, ◌<◌, ◌≡◌, Bool, true, false, Option, none, some, List, All, length, is_empty,
}
use sicxe.Machine.State.{num_registers}
use sicxe.Isa.{
  Syntax, f1_none, f2_reg_reg, f2_reg_n, f2_reg, fs34_load_w, fs34_load_b, fs34_load_f,
  fs34_store_w, fs34_store_b, fs34_store_f, fs34_none,
}
use sicxe.Assembler.Token.{TokenContent, data_bin_token, data_float_token, Token}
use sicxe.Assembler.Node.{
  AddressingId, simple, immediate, indirect, literal_pool, Fs34Node, new_fs34, NodeBody, empty,
  instruction_f1, instruction_f2, instruction_fs34, directive_start, directive_end, directive_org,
  directive_base, directive_equ, directive_mem_init, directive_mem_reserve, directive_extdef,
  directive_extref, directive_use, directive_ltorg, directive_nobase, Node,
}
use sicxe.Assembler.Parser.{is_name}
use sicxe.Assembler.Parser.Operands.{
  is_reg_reg, is_store, is_load_f, literal_limit, is_simple, has_no_operand,
}
use sicxe.Assembler.Parser.Directives.{is_data}
use sicxe.Assembler.Parser.Expressions.{IsParsedExpression}

-- The syntax of an instruction of format 3/4.
abbrev pub IsFs34Syntax : Syntax → Type 0
IsFs34Syntax f1_none = ⊥
IsFs34Syntax f2_reg_reg = ⊥
IsFs34Syntax f2_reg_n = ⊥
IsFs34Syntax f2_reg = ⊥
IsFs34Syntax fs34_load_w = Unit
IsFs34Syntax fs34_load_b = Unit
IsFs34Syntax fs34_load_f = Unit
IsFs34Syntax fs34_store_w = Unit
IsFs34Syntax fs34_store_b = Unit
IsFs34Syntax fs34_store_f = Unit
IsFs34Syntax fs34_none = Unit

-- Data that is no longer than an instruction loads.
abbrev pub IsLiteral : Syntax → Option ℕ → TokenContent → Type 0
IsLiteral syntax (some limit) (data_bin_token bytes) = length bytes ≤ limit
IsLiteral syntax (some limit) (data_float_token bytes) =
    (length bytes ≤ limit) × (is_load_f syntax ≡ true)
IsLiteral _ _ _ = ⊥

-- The operand, for each way of addressing.
abbrev pub IsOperandOf : Syntax → AddressingId → Option Token → List Token → Type 0
IsOperandOf syntax simple none e = IsParsedExpression e
IsOperandOf syntax indirect none e = IsParsedExpression e
IsOperandOf syntax immediate none e =
    IsParsedExpression e × (is_store syntax ≡ false) × (is_load_f syntax ≡ false)
IsOperandOf syntax literal_pool none e =
    IsParsedExpression e × (is_store syntax ≡ false) × (is_load_f syntax ≡ false)
IsOperandOf syntax literal_pool (some t) e =
    IsLiteral syntax (literal_limit syntax) t.content × (is_empty e ≡ true)
IsOperandOf _ _ _ _ = ⊥

abbrev pub IsFs34Node : Syntax → Fs34Node → Type 0
IsFs34Node syntax node =
    IsOperandOf syntax node.addressing node.data_token node.expression
    × (node.indexed ≡ true → is_simple node.addressing ≡ true)

-- Without an operand the node is as it was made.
abbrev pub IsFs34Body : Bool → Syntax → Fs34Node → Type 0
IsFs34Body true syntax node = node ≡ new_fs34
IsFs34Body false syntax node = IsFs34Node syntax node

-- A name of at most six characters.
abbrev pub IsExternalName : Token → Type 0
IsExternalName t = (is_name t.content ≡ true) × (length t.value ≤ 6)

abbrev pub IsSymbolList : List Token → Type 0
IsSymbolList symbols = All IsExternalName symbols × (is_empty symbols ≡ false)

abbrev pub IsBody : NodeBody → Type 0
IsBody empty = Unit
IsBody (instruction_f1 info) = Unit
IsBody (instruction_f2 info r1 r2) =
    (r1 < num_registers) × (r2 < 16) × (is_reg_reg info.syntax ≡ true → r2 < num_registers)
IsBody (instruction_fs34 info node) = IsFs34Body (has_no_operand info.syntax) info.syntax node
IsBody (directive_start mnemonic e) = IsParsedExpression e
IsBody (directive_end mnemonic e) = IsParsedExpression e
IsBody (directive_org mnemonic e) = IsParsedExpression e
IsBody (directive_base mnemonic e) = IsParsedExpression e
IsBody (directive_equ mnemonic true e) = is_empty e ≡ true
IsBody (directive_equ mnemonic false e) = IsParsedExpression e
IsBody (directive_mem_init mnemonic width none e) = IsParsedExpression e
IsBody (directive_mem_init mnemonic width (some t) e) =
    (is_data t.content ≡ true) × (is_empty e ≡ true)
IsBody (directive_mem_reserve mnemonic width e) = IsParsedExpression e
IsBody (directive_extdef mnemonic symbols) = IsSymbolList symbols
IsBody (directive_extref mnemonic symbols) = IsSymbolList symbols
IsBody (directive_use mnemonic none) = Unit
IsBody (directive_use mnemonic (some t)) = is_name t.content ≡ true
IsBody (directive_ltorg mnemonic) = Unit
IsBody (directive_nobase mnemonic) = Unit

abbrev pub IsAbsent : Option Token → Type 0
IsAbsent none = Unit
IsAbsent (some t) = ⊥

abbrev pub IsPresent : Option Token → Type 0
IsPresent none = ⊥
IsPresent (some t) = Unit

abbrev pub IsProgramName : Option Token → Type 0
IsProgramName none = ⊥
IsProgramName (some t) = length t.value ≤ 6

-- Which nodes have a label.
abbrev pub IsLabelled : NodeBody → Option Token → Type 0
IsLabelled empty label = IsAbsent label
IsLabelled (instruction_f1 info) label = Unit
IsLabelled (instruction_f2 info r1 r2) label = Unit
IsLabelled (instruction_fs34 info node) label = Unit
IsLabelled (directive_start mnemonic e) label = IsProgramName label
IsLabelled (directive_end mnemonic e) label = IsAbsent label
IsLabelled (directive_org mnemonic e) label = IsAbsent label
IsLabelled (directive_base mnemonic e) label = IsAbsent label
IsLabelled (directive_equ mnemonic current e) label = IsPresent label
IsLabelled (directive_mem_init mnemonic width data_token e) label = Unit
IsLabelled (directive_mem_reserve mnemonic width e) label = Unit
IsLabelled (directive_extdef mnemonic symbols) label = IsAbsent label
IsLabelled (directive_extref mnemonic symbols) label = IsAbsent label
IsLabelled (directive_use mnemonic name) label = IsAbsent label
IsLabelled (directive_ltorg mnemonic) label = IsAbsent label
IsLabelled (directive_nobase mnemonic) label = IsAbsent label

abbrev pub IsNode : Node → Type 0
IsNode node = IsBody node.body × IsLabelled node.body node.label
