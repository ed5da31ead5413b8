-- ===== src/Assembler/Parser/Tables.antt =====
-- The default table of instructions is one that the parser can use.
use sicxe.Base.{◌≡◌, refl, Bool, true, false, not, ◌&&◌, ◌||◌, List, [], ◌∷◌, All, arith}
use sicxe.Base.Text.{Bytes}
use sicxe.Isa.{
  is_fs34, Syntax, f1_none, f2_reg_reg, f2_reg_n, f2_reg, fs34_load_w, fs34_load_b, fs34_load_f,
  fs34_store_w, fs34_store_b, fs34_store_f, fs34_none, Instruction,
}
use sicxe.Isa.Db.{clear}
use sicxe.Isa.Db.Defaults.{default_table, default_db}
use sicxe.Assembler.Parser.Nodes.{IsFs34Syntax}
use sicxe.Assembler.Parser.Accepted.{HasSyntax, HasSyntaxes}

abbrev is_fs34_syntax : Syntax → Bool
is_fs34_syntax f1_none = false
is_fs34_syntax f2_reg_reg = false
is_fs34_syntax f2_reg_n = false
is_fs34_syntax f2_reg = false
is_fs34_syntax fs34_load_w = true
is_fs34_syntax fs34_load_b = true
is_fs34_syntax fs34_load_f = true
is_fs34_syntax fs34_store_w = true
is_fs34_syntax fs34_store_b = true
is_fs34_syntax fs34_store_f = true
is_fs34_syntax fs34_none = true

is_fs34_syntax_lem : (syntax : Syntax) → is_fs34_syntax syntax ≡ true → IsFs34Syntax syntax
is_fs34_syntax_lem f1_none h = cc
is_fs34_syntax_lem f2_reg_reg h = cc
is_fs34_syntax_lem f2_reg_n h = cc
is_fs34_syntax_lem f2_reg h = cc
is_fs34_syntax_lem fs34_load_w h = tt
is_fs34_syntax_lem fs34_load_b h = tt
is_fs34_syntax_lem fs34_load_f h = tt
is_fs34_syntax_lem fs34_store_w h = tt
is_fs34_syntax_lem fs34_store_b h = tt
is_fs34_syntax_lem fs34_store_f h = tt
is_fs34_syntax_lem fs34_none h = tt

abbrev has_syntax : Instruction → Bool
has_syntax entry = not (is_fs34 entry.format) || is_fs34_syntax entry.syntax

abbrev have_syntax : List (Bytes × Instruction) → Bool
have_syntax [] = true
have_syntax ((name, entry) ∷ rest) = has_syntax entry && have_syntax rest

have_syntax_lem :
    (entries : List (Bytes × Instruction))
    → have_syntax entries ≡ true
    → All (λ p. HasSyntax p.1) entries
have_syntax_lem [] h = tt
have_syntax_lem ((name, entry) ∷ rest) h = (
  λ e. is_fs34_syntax_lem entry.syntax (ground (arith, e, h)),
  have_syntax_lem rest (ground (arith, h)),
)

default_entries : have_syntax default_table.mnemonic_map ≡ true
unfolding default_table default_db clear
default_entries = refl

-- In the default table each instruction of format 3/4 has a syntax of that format.
pub default_table-HasSyntaxes : HasSyntaxes default_table
default_table-HasSyntaxes = have_syntax_lem default_table.mnemonic_map default_entries
