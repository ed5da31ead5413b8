-- ===== src/Linker/RelocationTable/Entries.antt =====
-- What the table of relocations holds after an addition.
use sicxe.Base.{
  ℕ, ◌≡◌, ◌≢◌, refl, subst, sym, ap, ◌∙◌, Bool, not, ◌||◌, ◌==◌, Option, none, some, inl, inr,
  Option-cases, [], ◌∷◌, ◌++◌, if◌then◌else◌, arith,
}
use mathlib.Core.Option.{some-injective}
use sicxe.Base.Text.{Bytes}
use sicxe.Base.Keys.{number_key}
use sicxe.Base.Maps.{insert, IsSorted, find-insert_same, find-insert_other, insert-IsSorted}
use sicxe.Linker.RelocationTable.{
  Entry, EntryMap, simple, symbol, find_relocation, add_relocation_simple, add_relocation_symbol,
  is_symbol,
}

pub added_simple :
    (address nibbles : ℕ) (map map' : EntryMap)
    → add_relocation_simple address nibbles map ≡ some map'
    → (find_relocation address map ≡ none)
      × (map' ≡ insert address (record { type_id = simple; nibbles = nibbles; symbols = [] }) map)
unfolding add_relocation_simple
added_simple address nibbles map map' h = ground arith

-- A simple relocation is added only where there is none yet. It is then found under its address,
-- every other address keeps what it had, and the keys stay in order.
pub add_relocation_simple_lem :
    (address nibbles : ℕ) (map map' : EntryMap)
    → IsSorted map
    → add_relocation_simple address nibbles map ≡ some map'
    → (find_relocation address map ≡ none)
      × (find_relocation address map'
          ≡ some (record { type_id = simple; nibbles = nibbles; symbols = [] }))
      × ((other : ℕ) → other ≢ address → find_relocation other map' ≡ find_relocation other map)
      × IsSorted map'
add_relocation_simple_lem address nibbles map map' v h =
    let (free, same) = added_simple address nibbles map map' h in
    let entry : Entry = record { type_id = simple; nibbles = nibbles; symbols = [] } in
    (
      free,
      ap (find_relocation address) same ∙ find-insert_same address entry map,
      λ other p. ap (find_relocation other) same ∙ find-insert_other address other entry map p,
      subst IsSorted (sym same) (insert-IsSorted address entry map v),
    )

-- What was there before a symbol was added: nothing, or symbols of a field of the same width.
abbrev pub Extended : ℕ → Bool → Bytes → Option Entry → Entry → Type 0
Extended nibbles sign symbol_name none entry =
    entry ≡ record { type_id = symbol; nibbles = nibbles; symbols = (sign, symbol_name) ∷ [] }
Extended nibbles sign symbol_name (some old) entry =
    (old.type_id ≡ symbol)
    × (old.nibbles ≡ nibbles)
    × (entry ≡ record old { symbols = old.symbols ++ (sign, symbol_name) ∷ [] })

accepted :
    (old : Entry) (nibbles : ℕ) (map map' : EntryMap)
    → (if not (is_symbol old.type_id) || not (old.nibbles == nibbles) then none else some map)
      ≡ some map'
    → (old.type_id ≡ symbol) × (old.nibbles ≡ nibbles) × (map' ≡ map)
accepted old nibbles map map' h = ground arith

pub added_symbol :
    (address nibbles : ℕ) (sign : Bool) (symbol_name : Bytes) (map map' : EntryMap)
    → add_relocation_symbol address nibbles sign symbol_name map ≡ some map'
    → (entry : Entry) × Extended nibbles sign symbol_name (find_relocation address map) entry
      × (map' ≡ insert address entry map)
unfolding add_relocation_symbol
added_symbol address nibbles sign symbol_name map map' h =
    elim (Option-cases (find_relocation address map)) [
      | inl e ↦
          rw (e, Extended)
            (_, refl, sym (some-injective _ map' (rw (e, add_relocation_symbol) at h)))
      | inr (old, e) ↦
          let (kind, width, same) =
            accepted old nibbles _ map' (rw (e, add_relocation_symbol) at h) in
          rw (e, Extended) (_, (kind, width, refl), same)
    ]

-- A relocation by a symbol is added where there is none yet, or to the symbols of one that has as
-- many half bytes and is not simple. It is then found under its address, every other address keeps
-- what it had, and the keys stay in order.
pub add_relocation_symbol_lem :
    (address nibbles : ℕ) (sign : Bool) (symbol_name : Bytes) (map map' : EntryMap)
    → IsSorted map
    → add_relocation_symbol address nibbles sign symbol_name map ≡ some map'
    → (entry : Entry) × Extended nibbles sign symbol_name (find_relocation address map) entry
      × (find_relocation address map' ≡ some entry)
      × ((other : ℕ) → other ≢ address → find_relocation other map' ≡ find_relocation other map)
      × IsSorted map'
add_relocation_symbol_lem address nibbles sign symbol_name map map' v h =
    let (entry, extended, same) = added_symbol address nibbles sign symbol_name map map' h in
    (
      entry,
      extended,
      ap (find_relocation address) same ∙ find-insert_same address entry map,
      λ other p. ap (find_relocation other) same ∙ find-insert_other address other entry map p,
      subst IsSorted (sym same) (insert-IsSorted address entry map v),
    )
