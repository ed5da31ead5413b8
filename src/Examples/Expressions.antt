-- ===== src/Examples/Expressions.antt =====
-- Expressions of the assembler.
use sicxe.Base.{◌≡◌, refl, true, false, List, [], ◌∷◌}
use sicxe.Base.Int.{ℤ, pos, ◌+ℤ◌, ◌-ℤ◌, ◌*ℤ◌, quot}
use sicxe.Base.Keys.{bytes_key}
use sicxe.Base.Maps.{find, insert}
use sicxe.Assembler.SymbolTable.{internal, external, new_entry, SymbolTable}
use sicxe.Assembler.Outcome.{value, Returns}
use sicxe.Assembler.Expression.Solve.{solve}
use sicxe.Assembler.Expression.Valid.{HasInt32, solve-Returns}
use sicxe.Assembler.Token.{
  TokenContent, op_add, op_sub, op_mul, op_div, name_token, integer_token, operator_token,
}

-- A and B are relative, at 16 and 4; E is imported.
abbrev symbols : SymbolTable
symbols =
    (
      65 ∷ [],
      record new_entry {
        type_id = internal;
        relative = true;
        defined = true;
        resolved = true;
        address = 16;
      },
    )
    ∷ (
      66 ∷ [],
      record new_entry {
        type_id = internal;
        relative = true;
        defined = true;
        resolved = true;
        address = 4;
      },
    )
    ∷ (69 ∷ [], record new_entry { type_id = external; relative = true })
    ∷ []

-- -B+A+2*7/3
abbrev difference : List TokenContent
difference =
    operator_token op_sub
    ∷ name_token (66 ∷ [])
    ∷ operator_token op_add
    ∷ name_token (65 ∷ [])
    ∷ operator_token op_add
    ∷ integer_token 2
    ∷ operator_token op_mul
    ∷ integer_token 7
    ∷ operator_token op_div
    ∷ integer_token 3
    ∷ []

difference_16 :
    solve false symbols difference
    ≡ value (record { result = pos 16; relative = false; external_symbols = [] })
unfolding solve find insert ◌+ℤ◌ ◌-ℤ◌ ◌*ℤ◌ quot
difference_16 = refl

-- E-5
external_less :
    solve true symbols (name_token (69 ∷ []) ∷ operator_token op_sub ∷ integer_token 5 ∷ [])
    ≡ value
        (record { result = ℤ.negsuc 4; relative = true; external_symbols = (true, 69 ∷ []) ∷ [] })
unfolding solve find insert ◌+ℤ◌ ◌-ℤ◌
external_less = refl

solve-Returns_example : Returns HasInt32 (solve false symbols difference)
solve-Returns_example =
    solve-Returns false symbols difference (refl, tt, (tt, tt, (tt, tt, (tt, tt, (tt, tt, tt)))))
