-- ===== src/Assembler/BlockTable/Names.antt =====
-- The numbers of blocks are their positions, and names lead to the blocks that have them.
use sicxe.Base.{
  ℕ, zero, suc, ◌≡◌, ◌≢◌, refl, sym, subst, ◌∙◌, Option, none, some, List, [], ◌∷◌, ◌++◌, length,
  get_elem?, inl, inr, Bool-cases,
}
use mathlib.Core.Option.{some-injective}
use sicxe.Base.Text.{Bytes, same_bytes, same_bytes_iff}
use sicxe.Base.Keys.{bytes_key}
use sicxe.Base.Maps.{find, insert, find-insert_same, find-insert_other}
use sicxe.Assembler.BlockTable.{Block, BlockTable, new_block, find_name, find_name_or_create}

-- The block at a position.
abbrev pub IsAt : ℕ → Bytes → List Block → Type 0
IsAt position name entries =
    (block : Block) × (get_elem? entries position ≡ some block)
    × (block.name ≡ name)
    × (block.number ≡ position)

abbrev pub IsConsistent : BlockTable → Type 0
IsConsistent table =
    (name : Bytes) (position : ℕ)
    → find_name name table ≡ some position
    → IsAt position name table.entries

get_elem?-append :
    (xs : List Block) (y x : Block) (i : ℕ)
    → get_elem? xs i ≡ some x
    → get_elem? (xs ++ y ∷ []) i ≡ some x
get_elem?-append [] y x i h = cc
get_elem?-append (z ∷ xs) y x zero h = h
get_elem?-append (z ∷ xs) y x (suc i) h = get_elem?-append xs y x i h

get_elem?-append_last :
    (xs : List Block) (y : Block) → get_elem? (xs ++ y ∷ []) (length xs) ≡ some y
get_elem?-append_last [] y = refl
get_elem?-append_last (x ∷ xs) y = get_elem?-append_last xs y

created-IsConsistent :
    (name : Bytes) (table : BlockTable)
    → IsConsistent table
    → IsConsistent (record {
      entries = table.entries ++ new_block (length table.entries) name ∷ [];
      name_map = insert name (length table.entries) table.name_map;
    })
created-IsConsistent name table v other position h =
    let block = new_block (length table.entries) name in
    elim (Bool-cases (same_bytes other name)) [
      | inl e ↦
          let same : other ≡ name = (same_bytes_iff other name).0 e in
          let found : some (length table.entries) ≡ some position =
            sym (find-insert_same name (length table.entries) table.name_map)
            ∙ subst
                (λ n. find n (insert name (length table.entries) table.name_map) ≡ some position)
                same h in
          let last : length table.entries ≡ position =
            some-injective (length table.entries) position found in
          subst (λ n. IsAt n other (table.entries ++ block ∷ [])) last
            (block, get_elem?-append_last table.entries block, sym same, refl)
      | inr e ↦
          let different : other ≢ name =
            λ p. absurd (let yes = (same_bytes_iff other name).1 p in cc) in
          let (old, at, named, numbered) = v other position (
            sym (find-insert_other name other (length table.entries) table.name_map different)
            ∙ h) in
          (old, get_elem?-append table.entries block old position at, named, numbered)
    ]

-- A consistent table, and the position at which it has the name.
abbrev pub HasName : Bytes → ℕ × BlockTable → Type 0
HasName name (position, table) = IsConsistent table × (find_name name table ≡ some position)

after_find-HasName :
    (name : Bytes) (table : BlockTable) (found : Option ℕ)
    → IsConsistent table
    → find_name name table ≡ found
    → HasName name (elim found [
      | some position ↦ (position, table)
      | none ↦
          let block = length table.entries in
          (
            block,
            record {
              entries = table.entries ++ new_block block name ∷ [];
              name_map = insert name block table.name_map;
            },
          )
    ])
after_find-HasName name table (some position) v e = (v, e)
after_find-HasName name table none v e =
    (created-IsConsistent name table v, find-insert_same name (length table.entries) table.name_map)

-- In a table where names lead to the blocks that have them, at the positions that are their numbers,
-- `FindNameOrCreate` keeps it so, and the name leads to the position that it gives.
pub find_name_or_create-HasName :
    (name : Bytes) (table : BlockTable)
    → IsConsistent table
    → HasName name (find_name_or_create name table)
unfolding find_name_or_create
find_name_or_create-HasName name table v =
    after_find-HasName name table (find_name name table) v refl
