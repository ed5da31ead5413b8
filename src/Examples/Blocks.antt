-- ===== src/Examples/Blocks.antt =====
-- Blocks of the assembler.
use sicxe.Base.{◌≡◌, refl, [], ◌∷◌}
use sicxe.Base.Keys.{bytes_key}
use sicxe.Base.Maps.{find}
use sicxe.Assembler.BlockTable.{new_table, find_name_or_create, order_blocks, BlockTable}
use sicxe.Assembler.BlockTable.Names.{HasName, find_name_or_create-HasName}

find_name_or_create-HasName_example : HasName (65 ∷ []) (find_name_or_create (65 ∷ []) new_table)
unfolding find
find_name_or_create-HasName_example =
    find_name_or_create-HasName (65 ∷ []) new_table λ name position h. absurd (cc)

-- Two blocks of 7 and 2 bytes from the address 16.
abbrev blocks : BlockTable
blocks = record new_table {
  entries =
      record { number = 0; name = []; start = 16; size = 7 }
      ∷ record { number = 1; name = 65 ∷ []; start = 0; size = 2 }
      ∷ [];
}

ordered_25 : (order_blocks blocks).1 ≡ 25
unfolding order_blocks
ordered_25 = refl
