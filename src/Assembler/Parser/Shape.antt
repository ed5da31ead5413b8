-- ===== src/Assembler/Parser/Shape.antt =====
-- The order of the nodes of a file.
use sicxe.Base.{◌≡◌, refl, ◌⊎◌, Bool, true, false, Option, List, [], ◌∷◌, All, inl, inr}
use sicxe.Assembler.Token.{Token}
use sicxe.Assembler.Node.{
  NodeBody, empty, instruction_f1, instruction_f2, instruction_fs34, directive_start, directive_end,
  directive_org, directive_base, directive_equ, directive_mem_init, directive_mem_reserve,
  directive_extdef, directive_extref, directive_use, directive_ltorg, directive_nobase, Node,
}
use sicxe.Assembler.Parser.Nodes.{IsPresent}
use sicxe.Assembler.Parser.Files.{mnemonic_or, is_empty_node, is_start_node, is_end_node}

abbrev pub IsEmptyNode : Node → Type 0
IsEmptyNode node = is_empty_node node.body ≡ true

-- Nodes up to END, and nothing but empty ones after it.
abbrev pub IsCode : List Node → Type 0
IsCode [] = ⊥
IsCode (node ∷ rest) =
    ((is_end_node node.body ≡ true) × All IsEmptyNode rest)
    ⊎ ((is_start_node node.body ≡ false) × (is_end_node node.body ≡ false) × IsCode rest)

-- Nothing but empty nodes before START.
abbrev pub IsProgram : List Node → Type 0
IsProgram [] = ⊥
IsProgram (node ∷ rest) =
    (IsEmptyNode node × IsProgram rest) ⊎ ((is_start_node node.body ≡ true) × IsCode rest)

-- What must follow, by what was seen.
abbrev pub Expected : Bool → Bool → List Node → Type 0
Expected false seen_end rest = IsProgram rest
Expected true false rest = IsCode rest
Expected true true rest = All IsEmptyNode rest

abbrev pub Starts : Bool → Bool → NodeBody → Type 0
Starts false false body = is_empty_node body ≡ true
Starts false true body = is_start_node body ≡ true
Starts true true body = is_start_node body ≡ false
Starts true false body = ⊥

abbrev pub Ends : Bool → Bool → NodeBody → Type 0
Ends false false body = is_end_node body ≡ false
Ends false true body = is_end_node body ≡ true
Ends true true body = is_empty_node body ≡ true
Ends true false body = ⊥

empty-not_end : (body : NodeBody) → is_empty_node body ≡ true → is_end_node body ≡ true → ⊥
empty-not_end (directive_end mnemonic e) h k = cc
empty-not_end empty h k = cc
empty-not_end _ h k = cc

pub start-not_empty : (body : NodeBody) → is_start_node body ≡ true → is_empty_node body ≡ false
start-not_empty empty h = cc
start-not_empty (directive_start mnemonic e) h = refl
start-not_empty _ h = cc

start-not_end : (body : NodeBody) → is_start_node body ≡ true → is_end_node body ≡ true → ⊥
start-not_end (directive_end mnemonic e) h k = cc
start-not_end (directive_start mnemonic e) h k = cc
start-not_end _ h k = cc

-- After a node that was accepted.
abbrev pub Follows : Bool → Bool → Bool → Bool → Node → Type 0
Follows a b a' b' node =
    (b' ≡ true → a' ≡ true)
    × ((rest : List Node) → Expected a' b' rest → Expected a b (node ∷ rest))

pub node-Follows :
    (a a' b b' : Bool) (node : Node)
    → Starts a a' node.body
    → Ends b b' node.body
    → (b ≡ true → a ≡ true)
    → Follows a b a' b' node
node-Follows true false b b' node s e h = elim s [ ]
node-Follows a a' true false node s e h = elim e [ ]
node-Follows false a' true true node s e h = absurd (let no = h refl in cc)
node-Follows false false false true node s e h = absurd (empty-not_end node.body s e)
node-Follows false true false true node s e h = absurd (start-not_end node.body s e)
node-Follows false false false false node s e h = (λ k. absurd (cc), λ rest v. inl (s, v))
node-Follows false true false false node s e h = (λ k. absurd (cc), λ rest v. inr (s, v))
node-Follows true true false false node s e h = (λ k. absurd (cc), λ rest v. inr (s, e, v))
node-Follows true true false true node s e h = (λ k. refl, λ rest v. inl (e, v))
node-Follows true true true true node s e h = (λ k. refl, λ rest v. (e, v))

pub mnemonic_or-IsPresent :
    (before : Option Token) (body : NodeBody)
    → (is_empty_node body ≡ true → IsPresent before)
    → IsPresent (mnemonic_or before body)
mnemonic_or-IsPresent before empty h = h refl
mnemonic_or-IsPresent before (instruction_f1 info) h = tt
mnemonic_or-IsPresent before (instruction_f2 info r1 r2) h = tt
mnemonic_or-IsPresent before (instruction_fs34 info node) h = tt
mnemonic_or-IsPresent before (directive_start mnemonic e) h = tt
mnemonic_or-IsPresent before (directive_end mnemonic e) h = tt
mnemonic_or-IsPresent before (directive_org mnemonic e) h = tt
mnemonic_or-IsPresent before (directive_base mnemonic e) h = tt
mnemonic_or-IsPresent before (directive_equ mnemonic current e) h = tt
mnemonic_or-IsPresent before (directive_mem_init mnemonic width data_token e) h = tt
mnemonic_or-IsPresent before (directive_mem_reserve mnemonic width e) h = tt
mnemonic_or-IsPresent before (directive_extdef mnemonic symbols) h = tt
mnemonic_or-IsPresent before (directive_extref mnemonic symbols) h = tt
mnemonic_or-IsPresent before (directive_use mnemonic name) h = tt
mnemonic_or-IsPresent before (directive_ltorg mnemonic) h = tt
mnemonic_or-IsPresent before (directive_nobase mnemonic) h = tt
