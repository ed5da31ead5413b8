-- ===== src/Examples/Parsing.antt =====
-- Lines and files of the assembler.
use sicxe.Base.{map, ℕ, ◌≡◌, refl, ◌↔◌, true, false, List, [], ◌∷◌, length, ◌++◌}
use sicxe.Base.Text.{Bytes, codes}
use sicxe.Isa.{f2, fs34, f2_reg_n, fs34_load_w, fs34_store_w}
use sicxe.Isa.Db.{InstructionDb, clear}
use sicxe.Assembler.Token.{
  TokenContent, name_token, operator_token, comment_token, integer_token, op_hash, op_lbracket,
  op_rbracket, op_mul, op_sub, op_comma, Token,
}
use sicxe.Assembler.Outcome.{
  Outcome, value, failed, undefined, assertion_failed, out_of_fuel, Returns,
}
use sicxe.Assembler.Expression.Solve.{solve}
use sicxe.Assembler.Expression.Valid.{HasInt32}
use sicxe.Assembler.Tokenizer.Lexed.{IsLexed}
use sicxe.Assembler.Tokenizer.Scan.{tokenize_line}
use sicxe.Assembler.Tokenizer.Lines.{tokenize_line-Returns}
use sicxe.Assembler.Parser.{parse_expression}
use sicxe.Assembler.Parser.Lines.{Config, parse_line}
use sicxe.Assembler.Parser.Files.{parse_file}
use sicxe.Assembler.Parser.Nodes.{IsNode}
use sicxe.Assembler.Parser.Expressions.{
  contents, Read, parse_expression-Returns, solve-parse_expression,
}
use sicxe.Assembler.Parser.Grammar.{IsReading, parse_expression_iff}
use sicxe.Isa.Db.Defaults.{default_table}
use sicxe.Isa.Db.Loading.{load_from_file}
use sicxe.Isa.Db.Invariant.{clear-IsConsistent}
use sicxe.Assembler.Errors.{PositionedError}
use sicxe.Assembler.Parser.Loaded.{IsUsableTable, load_from_file-IsUsableTable}
use sicxe.Assembler.Parser.Tables.{default_table-HasSyntaxes}
use sicxe.Assembler.Parser.Accepted.{HasSyntaxes, parse_line-Returns}
use sicxe.Assembler.Parser.Programs.{IsAccepted, parse_file-Returns}
use sicxe.Examples.Fixtures.{byte_fpu}

-- A `strtod` that reads nothing.
abbrev no_double : Bytes → List ℕ × ℕ
no_double bytes = ([], 0)

-- An immediate operand in brackets, and a comment.
abbrev line : Bytes
line = codes " LDA  #[2*3] .six"

abbrev token : TokenContent → ℕ → Bytes → Token
token content column bytes = record {
  content = content;
  pos = record { row = 0; column = column; size = length bytes };
  value = bytes;
}

abbrev operand : List Token
operand =
    token (operator_token op_lbracket) 7 (codes "[")
    ∷ token (integer_token 2) 8 (codes "2")
    ∷ token (operator_token op_mul) 9 (codes "*")
    ∷ token (integer_token 3) 10 (codes "3")
    ∷ token (operator_token op_rbracket) 11 (codes "]")
    ∷ []

abbrev tokens : List Token
tokens =
    token (name_token (codes "LDA")) 1 (codes "LDA")
    ∷ token (operator_token op_hash) 6 (codes "#")
    ∷ (operand ++ token comment_token 13 (codes ".six") ∷ [])

line_tokens : tokenize_line 0 line byte_fpu no_double ≡ value tokens
unfolding tokenize_line sicxe.Assembler.Tokenizer.mask_stop sicxe.Assembler.Tokenizer.start_lookup
    sicxe.Assembler.Tokenizer.mask_valid_name
line_tokens = refl

-- A table of three instructions.
abbrev small_db : InstructionDb
small_db = record clear {
  mnemonic_map =
      (
        codes "LDA",
        record { opcode = 0; mnemonic = codes "LDA"; format = fs34; syntax = fs34_load_w },
      )
      ∷ (
        codes "STA",
        record { opcode = 12; mnemonic = codes "STA"; format = fs34; syntax = fs34_store_w },
      )
      ∷ (
        codes "SHIFTL",
        record { opcode = 164; mnemonic = codes "SHIFTL"; format = f2; syntax = f2_reg_n },
      )
      ∷ [];
}

abbrev config : Config
config = record { instruction_db = small_db; case_sensitive = false; allow_brackets = true }

small_db-HasSyntaxes : HasSyntaxes config.instruction_db
small_db-HasSyntaxes = (λ e. tt, (λ e. tt, (λ e. absurd (cc), tt)))

abbrev default_config : Config
default_config = record config { instruction_db = default_table }

abbrev file : List Bytes
file =
    codes "prog start 0"
    ∷ codes "a +sta a,X"
    ∷ line
    ∷ []
    ∷ codes " shiftl A,15"
    ∷ codes " end prog"
    ∷ []

abbrev count {ℓ κ} : {E : Type ℓ} {A : Type κ} → Outcome E (List A) → ℕ
count (value a) = length a
count (failed errors) = 100
count undefined = 101
count assertion_failed = 102
count out_of_fuel = 103

file_nodes : count (parse_file config byte_fpu no_double file) ≡ 6
unfolding parse_file sicxe.Assembler.Tokenizer.mask_stop sicxe.Assembler.Tokenizer.start_lookup
    sicxe.Assembler.Tokenizer.mask_valid_name
file_nodes = refl

tokenize_line-Returns_example :
    Returns
      (λ tokens. IsLexed 0 line 0 tokens (length line))
      (tokenize_line 0 line byte_fpu no_double)
tokenize_line-Returns_example = tokenize_line-Returns 0 line byte_fpu no_double

parse_expression-Returns_example : Returns (Read true operand) (parse_expression true operand)
parse_expression-Returns_example = parse_expression-Returns true operand refl

solve-parse_expression_example :
    Returns (λ r. Returns HasInt32 (solve false [] (contents r.0))) (parse_expression true operand)
solve-parse_expression_example = solve-parse_expression true false [] operand refl

parse_line-Returns_example : Returns IsNode (parse_line config tokens)
parse_line-Returns_example = parse_line-Returns config tokens small_db-HasSyntaxes

parse_file-Returns_example : Returns IsAccepted (parse_file default_config byte_fpu no_double file)
parse_file-Returns_example =
    parse_file-Returns default_config byte_fpu no_double file default_table-HasSyntaxes

-- -2*3 before a comma
abbrev product : List Token
product =
    token (operator_token op_sub) 7 (codes "-")
    ∷ token (integer_token 2) 8 (codes "2")
    ∷ token (operator_token op_mul) 9 (codes "*")
    ∷ token (integer_token 3) 10 (codes "3")
    ∷ []

abbrev comma : List Token
comma = token (operator_token op_comma) 11 (codes ",") ∷ []

parse_expression_iff_example :
    (parse_expression false (product ++ comma) ≡ value (product, comma))
    ↔ IsReading (product ++ comma) (product, comma)
parse_expression_iff_example = parse_expression_iff (product ++ comma) product comma

abbrev table_lines : List Bytes
table_lines = codes "0x00 lda FS34 load_w" ∷ [] ∷ codes "164 SHIFTL f2 reg_n" ∷ []

clear-IsUsableTable : IsUsableTable clear
unfolding clear
clear-IsUsableTable = (clear-IsConsistent, tt)

names : Outcome PositionedError InstructionDb → List Bytes
names (value db) = map (λ p. p.0) db.mnemonic_map
names _ = []

table_names : names (load_from_file 0 table_lines clear) ≡ codes "SHIFTL" ∷ codes "LDA" ∷ []
unfolding names load_from_file clear
table_names = refl

load_from_file-IsUsableTable_example : Returns IsUsableTable (load_from_file 0 table_lines clear)
load_from_file-IsUsableTable_example =
    load_from_file-IsUsableTable 0 table_lines clear clear-IsUsableTable
