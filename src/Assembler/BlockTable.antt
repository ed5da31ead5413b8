-- ===== src/Assembler/BlockTable.antt =====
-- assembler/block_table.{h,cc}: the blocks in the order of their numbers, and their numbers by name.
pub mod Names
use sicxe.Base.{ℕ, ◌+◌, ◌%◌, ◌^◌, Option, none, some, List, [], ◌∷◌, ◌++◌, length, get_elem?}
use sicxe.Base.Text.{Bytes, codes}
use sicxe.Base.Keys.{bytes_key}
use sicxe.Base.Maps.{Map, find, insert}

pub record Block : Type 0 where
  pub number : ℕ
  pub name : Bytes
  pub start : ℕ
  pub size : ℕ

-- An entry of `name_map_` points to a block, which is given by its position.
pub record BlockTable : Type 0 where
  pub entries : List Block
  pub name_map : Map Bytes ℕ

-- `Entry::Entry`.
abbrev pub new_block : ℕ → Bytes → Block
new_block number name = record { number = number; name = name; start = 0; size = 0 }

-- `BlockTable::BlockTable`.
abbrev pub new_table : BlockTable
new_table = record { entries = new_block 0 (codes "<default>") ∷ []; name_map = [] }

-- `GetBlock`, on a number that is not negative.
abbrev pub get_block : ℕ → BlockTable → Option Block
get_block number table = get_elem? table.entries number

-- `FindName`, to the position of the block.
abbrev pub find_name : Bytes → BlockTable → Option ℕ
find_name name table = find name table.name_map

-- `FindNameOrCreate`: the position of the block, and the table with it.
unfoldable pub find_name_or_create : Bytes → BlockTable → ℕ × BlockTable
unfolding find insert
find_name_or_create name table = elim (find_name name table) [
  | some position ↦ (position, table)
  | none ↦
      let block = length table.entries in
      (
        block,
        record {
          entries = table.entries ++ new_block block name ∷ [];
          name_map = insert name block table.name_map;
        },
      )
]

-- The loop of `OrderBlocks`: the blocks, and the address after them.
unfoldable pub order_entries : ℕ → List Block → List Block × ℕ
order_entries address [] = ([], address)
order_entries address (block ∷ rest) =
    let (ordered, end) = order_entries ((address + block.size) % 2 ^ 32) rest in
    (record block { start = address } ∷ ordered, end)

-- `OrderBlocks`: the start, the end, and the table. There is always a default block.
unfoldable pub order_blocks : BlockTable → ℕ × ℕ × BlockTable
unfolding order_entries
order_blocks table = elim (table.entries) [
  | [] ↦ (0, 0, table)
  | block ∷ rest ↦
      let (ordered, end) = order_entries block.start (block ∷ rest) in
      (block.start, end, record table { entries = ordered })
]
