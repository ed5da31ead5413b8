-- ===== src/Assembler/Node.antt =====
-- assembler/node.h and assembler/directive.{h,cc}: the nodes of the code, and the names of directives.
-- What later passes fill in (the address of ORG, the size of a reservation, the ids of blocks and of
-- literals) starts at its constructor's value.
use sicxe.Base.{ℕ, Bool, false, Option, none, some, List, [], ◌∷◌, if◌then◌else◌}
use sicxe.Base.Text.{Bytes, codes, same_bytes}
use sicxe.Isa.{Syntax}
use sicxe.Assembler.Token.{Token}

-- `InstructionFS34::AddressingId`.
pub data AddressingId : Type 0 where
  simple immediate indirect literal_pool : AddressingId

-- `DirectiveMemInit::WidthId` and `DirectiveMemReserve::WidthId`.
pub data WidthId : Type 0 where
  width_byte width_word : WidthId

-- `Directive::DirectiveId`, without the literals that no name stands for.
pub data DirectiveId : Type 0 where
  dir_start dir_end dir_org dir_equ dir_use dir_ltorg dir_base dir_nobase : DirectiveId
  dir_extdef dir_extref dir_byte dir_word dir_resb dir_resw : DirectiveId

-- `CreateNameIdMapInstance`.
abbrev directive_names : List (Bytes × DirectiveId)
directive_names =
    (codes "START", dir_start)
    ∷ (codes "END", dir_end)
    ∷ (codes "ORG", dir_org)
    ∷ (codes "EQU", dir_equ)
    ∷ (codes "USE", dir_use)
    ∷ (codes "LTORG", dir_ltorg)
    ∷ (codes "BASE", dir_base)
    ∷ (codes "NOBASE", dir_nobase)
    ∷ (codes "EXTDEF", dir_extdef)
    ∷ (codes "EXTREF", dir_extref)
    ∷ (codes "BYTE", dir_byte)
    ∷ (codes "WORD", dir_word)
    ∷ (codes "RESB", dir_resb)
    ∷ (codes "RESW", dir_resw)
    ∷ []

unfoldable find_directive : Bytes → List (Bytes × DirectiveId) → Option DirectiveId
find_directive name [] = none
find_directive name ((key, id) ∷ rest) =
    if same_bytes key name then some id else find_directive name rest

-- `Directive::NameToId`.
unfoldable pub name_to_id : Bytes → Option DirectiveId
unfolding find_directive
name_to_id name = find_directive name directive_names

-- `node::Instruction`.
pub record InstructionInfo : Type 0 where
  pub opcode : ℕ
  pub syntax : Syntax
  pub mnemonic : Token

-- `node::InstructionFS34`.
pub record Fs34Node : Type 0 where
  pub expression : List Token
  pub data_token : Option Token
  pub addressing : AddressingId
  pub extended : Bool
  pub indexed : Bool

abbrev pub new_fs34 : Fs34Node
new_fs34 = record {
  expression = [];
  data_token = none;
  addressing = simple;
  extended = false;
  indexed = false;
}

-- The classes of nodes that the parser makes. A directive holds its mnemonic.
pub data NodeBody : Type 0 where
  empty : NodeBody
  instruction_f1 : InstructionInfo → NodeBody
  instruction_f2 : InstructionInfo → (r1 r2 : ℕ) → NodeBody
  instruction_fs34 : InstructionInfo → Fs34Node → NodeBody
  directive_start directive_end directive_org directive_base :
      (mnemonic : Token) (expression : List Token) → NodeBody
  directive_equ :
      (mnemonic : Token) (assign_current_address : Bool) (expression : List Token) → NodeBody
  directive_mem_init :
      (mnemonic : Token) (width : WidthId) (data_token : Option Token) (expression : List Token)
      → NodeBody
  directive_mem_reserve : (mnemonic : Token) (width : WidthId) (expression : List Token) → NodeBody
  directive_extdef directive_extref : (mnemonic : Token) (symbol_list : List Token) → NodeBody
  directive_use : (mnemonic : Token) (block_name : Option Token) → NodeBody
  directive_ltorg directive_nobase : (mnemonic : Token) → NodeBody

pub record Node : Type 0 where
  pub body : NodeBody
  pub label : Option Token
  pub comment : Option Token
