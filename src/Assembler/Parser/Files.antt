-- ===== src/Assembler/Parser/Files.antt =====
-- assembler/parser.cc: `ParseFile`, with the errors it adds in their order.
use sicxe.Base.{
  ℕ, ◌+◌, Bool, true, false, not, Option, none, some, List, [], ◌∷◌, ◌++◌, if◌then◌else◌,
}
use sicxe.Base.Text.{Bytes}
use sicxe.Machine.Float.{Fpu}
use sicxe.Assembler.Token.{Token}
use sicxe.Assembler.Errors.{
  Message, code_before_start, second_start, code_after_end, no_code, no_end, PositionedError,
}
use sicxe.Assembler.Outcome.{
  Outcome, value, failed, undefined, assertion_failed, out_of_fuel, ◌>>=◌,
}
use sicxe.Assembler.Node.{
  NodeBody, empty, instruction_f1, instruction_f2, instruction_fs34, directive_start, directive_end,
  directive_org, directive_base, directive_equ, directive_mem_init, directive_mem_reserve,
  directive_extdef, directive_extref, directive_use, directive_ltorg, directive_nobase, Node,
}
use sicxe.Assembler.Tokenizer.Scan.{tokenize_line}
use sicxe.Assembler.Parser.Lines.{Config, parse_line}

-- `success`, `seen_start`, `seen_end`, `last_mnemonic_token`, and what was added to the code and to
-- the errors.
pub record Parsing : Type 0 where
  pub success : Bool
  pub seen_start : Bool
  pub seen_end : Bool
  pub last_mnemonic : Option Token
  pub nodes : List Node
  pub errors : List PositionedError

-- The mnemonic of an instruction or of a directive, or else the one before.
abbrev pub mnemonic_or : Option Token → NodeBody → Option Token
mnemonic_or before empty = before
mnemonic_or before (instruction_f1 info) = some info.mnemonic
mnemonic_or before (instruction_f2 info r1 r2) = some info.mnemonic
mnemonic_or before (instruction_fs34 info node) = some info.mnemonic
mnemonic_or before (directive_start mnemonic expression) = some mnemonic
mnemonic_or before (directive_end mnemonic expression) = some mnemonic
mnemonic_or before (directive_org mnemonic expression) = some mnemonic
mnemonic_or before (directive_base mnemonic expression) = some mnemonic
mnemonic_or before (directive_equ mnemonic current expression) = some mnemonic
mnemonic_or before (directive_mem_init mnemonic width data_token expression) = some mnemonic
mnemonic_or before (directive_mem_reserve mnemonic width expression) = some mnemonic
mnemonic_or before (directive_extdef mnemonic symbols) = some mnemonic
mnemonic_or before (directive_extref mnemonic symbols) = some mnemonic
mnemonic_or before (directive_use mnemonic name) = some mnemonic
mnemonic_or before (directive_ltorg mnemonic) = some mnemonic
mnemonic_or before (directive_nobase mnemonic) = some mnemonic

abbrev pub is_empty_node : NodeBody → Bool
is_empty_node empty = true
is_empty_node _ = false

abbrev pub is_start_node : NodeBody → Bool
is_start_node (directive_start mnemonic expression) = true
is_start_node _ = false

abbrev pub is_end_node : NodeBody → Bool
is_end_node (directive_end mnemonic expression) = true
is_end_node _ = false

abbrev pub error_at : Message → Parsing → Option Token → Outcome PositionedError Parsing
error_at message s none = undefined
error_at message s (some t) = value (record s {
  success = false;
  errors = s.errors ++ record { message = message; span = some (t.pos, t.pos) } ∷ [];
})

-- An error at the last mnemonic, which must be there.
abbrev pub error_at_mnemonic : Message → Parsing → Outcome PositionedError Parsing
error_at_mnemonic message s = error_at message s s.last_mnemonic

-- The code begins with START, and has no other one.
unfoldable pub check_start : NodeBody → Parsing → Outcome PositionedError Parsing
check_start body s =
    if not s.seen_start
    then (if is_start_node body
        then value (record s { seen_start = true })
        else (if is_empty_node body then value s else error_at_mnemonic code_before_start s))
    else (if is_start_node body then error_at_mnemonic second_start s else value s)

-- There is no code after END.
unfoldable pub check_end : NodeBody → Parsing → Outcome PositionedError Parsing
check_end body s =
    if not s.seen_end
    then (if is_end_node body then value (record s { seen_end = true }) else value s)
    else (if is_empty_node body then value s else error_at_mnemonic code_after_end s)

-- What follows `ParseLine` where it succeeds.
unfoldable pub add_node : Node → Parsing → Outcome PositionedError Parsing
unfolding check_start check_end
add_node node s =
    let t = record s { last_mnemonic = mnemonic_or s.last_mnemonic node.body } in
    (if s.success then (check_start node.body t >>= check_end node.body) else value t) >>= λ u.
    value (record u { nodes = u.nodes ++ node ∷ [] })

-- A line with errors adds no node.
abbrev pub after_line : Parsing → Outcome PositionedError Node → Outcome PositionedError Parsing
after_line s (value node) = add_node node s
after_line s (failed errors) = value (record s { success = false; errors = s.errors ++ errors })
after_line s undefined = undefined
after_line s assertion_failed = assertion_failed
after_line s out_of_fuel = out_of_fuel

-- What follows the loop.
unfoldable pub finish_file : Parsing → Outcome PositionedError (List Node)
finish_file s =
    if not s.success
    then failed s.errors
    else (if not s.seen_start
        then failed (s.errors ++ record { message = no_code; span = none } ∷ [])
        else (if not s.seen_end
            then (error_at_mnemonic no_end s >>= λ t. failed t.errors)
            else value s.nodes))

module _ (config : Config) (fpu : Fpu) (strtod : Bytes → fpu.Double × ℕ) where
  -- The loop over the lines.
  unfoldable pub parse_lines : ℕ → List Bytes → Parsing → Outcome PositionedError Parsing
  unfolding tokenize_line parse_line add_node
  parse_lines row [] s = value s
  parse_lines row (line ∷ rest) s =
      after_line s (tokenize_line row line fpu strtod >>= parse_line config) >>= λ t.
      parse_lines (row + 1) rest t

  -- `ParseFile`.
  unfoldable pub parse_file : List Bytes → Outcome PositionedError (List Node)
  unfolding parse_lines finish_file
  parse_file lines =
      parse_lines 0 lines (record {
        success = true;
        seen_start = false;
        seen_end = false;
        last_mnemonic = none;
        nodes = [];
        errors = [];
      })
      >>= finish_file
