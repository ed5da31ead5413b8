-- ===== src/Linker/Output/Chunks.antt =====
-- How `WriteOutputSymbols` spreads the symbols over sections.
use sicxe.Base.{
  ℕ, ◌+◌, ◌<◌, ◌≤◌, ◌≡◌, refl, sym, ap, ◌∙◌, leb, List, [], ◌∷◌, ◌++◌, All, length, length-append,
  inl, inr, Bool-cases, arith,
}
use mathlib.Core.List.{append-nil, append_assoc}
use sicxe.Base.Text.{Bytes}
use sicxe.Linker.SymbolTable.{SymbolTypeId, undefined, defined, SymbolTable}
use sicxe.Linker.Output.{
  Sections, push, flush, OutputSymbols, write_symbol, write_symbols, write_output_symbols,
  max_symbols_per_export_section, max_symbols_per_import_section,
}

-- The symbols of one kind, in the order of the table.
abbrev pub if_undefined {ℓ} : {A : Type ℓ} → SymbolTypeId → A → List A
if_undefined undefined symbol = symbol ∷ []
if_undefined defined symbol = []

abbrev pub if_defined {ℓ} : {A : Type ℓ} → SymbolTypeId → A → List A
if_defined undefined symbol = []
if_defined defined symbol = symbol ∷ []

abbrev pub undefined_names : SymbolTable → List Bytes
undefined_names [] = []
undefined_names ((name, entry) ∷ rest) = if_undefined entry.type_id name ++ undefined_names rest

abbrev pub defined_symbols : SymbolTable → List (Bytes × ℕ)
defined_symbols [] = []
defined_symbols ((name, entry) ∷ rest) =
    if_defined entry.type_id (name, entry.address) ++ defined_symbols rest

module _ {ℓ} {A : Type ℓ} where
  abbrev pub concat : List (List A) → List A
  concat [] = []
  concat (section ∷ rest) = section ++ concat rest

  -- A section has at least one symbol, and no more than fit.
  abbrev pub HasRoom : ℕ → List A → Type 0
  HasRoom most section = (0 < length section) × (length section ≤ most)

  concat-append : (xs ys : List (List A)) → concat (xs ++ ys) ≡ concat xs ++ concat ys
  concat-append [] ys = refl
  concat-append (section ∷ rest) ys = simp (concat-append rest ys, append_assoc)

  All-append :
      (P : List A → Type 0) (xs ys : List (List A)) → All P xs → All P ys → All P (xs ++ ys)
  All-append P [] ys h k = k
  All-append P (section ∷ rest) ys h k = (h.0, All-append P rest ys h.1 k)

  -- The finished sections are `before` and ones with room, the one being filled is not full, and
  -- together the new ones hold the symbols in order.
  abbrev Filling : ℕ → List (List A) → List A → Sections A → Type ℓ
  Filling most before symbols s =
      (added : List (List A)) × (s.finished ≡ before ++ added)
      × All (HasRoom most) added
      × (length s.current < most)
      × (concat added ++ s.current ≡ symbols)

  push_lem :
      (most : ℕ) (before : List (List A)) (symbols : List A) (symbol : A) (s : Sections A)
      → Filling most before symbols s
      → Filling most before (symbols ++ symbol ∷ []) (push most symbol s)
  unfolding push
  push_lem most before symbols symbol s (added, same, room, short, whole) =
      let current = s.current ++ symbol ∷ [] in
      let longer : length current ≡ length s.current + 1 = length-append s.current (symbol ∷ []) in
      let all : concat added ++ current ≡ symbols ++ symbol ∷ [] =
        sym (append_assoc (concat added) s.current (symbol ∷ []))
        ∙ ap (λ t. t ++ symbol ∷ []) whole in
      elim (Bool-cases (leb most (length current))) [
        | inl e ↦
            let full : HasRoom most current = ground arith in
            rw e (
              added ++ current ∷ [],
              ap (λ f. f ++ current ∷ []) same ∙ append_assoc before added (current ∷ []),
              All-append (HasRoom most) added (current ∷ []) room (full, tt),
              omega (arith, short),
              append-nil (concat (added ++ current ∷ []))
                  ∙ concat-append added (current ∷ [])
                  ∙ ap (λ t. concat added ++ t) (append-nil current)
                  ∙ all,
            )
        | inr e ↦ rw e (added, same, room, ground arith, all)
      ]

  -- The sections are those that were there and new ones, none of which is empty or too long, and
  -- which together hold the symbols in order.
  abbrev pub Spread : ℕ → List (List A) → List A → List (List A) → Type ℓ
  Spread most before symbols sections =
      (added : List (List A)) × (sections ≡ before ++ added)
      × All (HasRoom most) added
      × (concat added ≡ symbols)

  flush_cases :
      (most : ℕ) (before : List (List A)) (symbols : List A) (finished : List (List A))
      (current : List A)
      → Filling most before symbols (record { finished = finished; current = current })
      → Spread most before symbols (flush (record { finished = finished; current = current }))
  flush_cases most before symbols finished [] (added, same, room, short, whole) =
      (added, same, room, sym (append-nil (concat added)) ∙ whole)
  flush_cases most before symbols finished (symbol ∷ rest) (added, same, room, short, whole) =
      let last : HasRoom most (symbol ∷ rest) = omega (arith, short) in
      (
        added ++ (symbol ∷ rest) ∷ [],
        ap (λ f. f ++ (symbol ∷ rest) ∷ []) same ∙ append_assoc before added ((symbol ∷ rest) ∷ []),
        All-append (HasRoom most) added ((symbol ∷ rest) ∷ []) room (last, tt),
        concat-append added ((symbol ∷ rest) ∷ [])
            ∙ ap (λ t. concat added ++ t) (append-nil (symbol ∷ rest))
            ∙ whole,
      )

module _ (imports : List (List Bytes)) (exports : List (List (Bytes × ℕ))) where
  write_symbol_lem :
      (type_id : SymbolTypeId) (name : Bytes) (address : ℕ) (names : List Bytes)
      (symbols : List (Bytes × ℕ)) (out : OutputSymbols)
      → Filling max_symbols_per_import_section imports names out.imports
      → Filling max_symbols_per_export_section exports symbols out.exports
      → Filling max_symbols_per_import_section imports
          (names ++ if_undefined type_id name)
          (write_symbol type_id name address out).imports
        × Filling max_symbols_per_export_section exports
            (symbols ++ if_defined type_id (name, address))
            (write_symbol type_id name address out).exports
  unfolding write_symbol
  write_symbol_lem undefined name address names symbols out i e = (
    push_lem max_symbols_per_import_section imports names name out.imports i,
    rw (append-nil symbols) e,
  )
  write_symbol_lem defined name address names symbols out i e = (
    rw (append-nil names) i,
    push_lem max_symbols_per_export_section exports symbols (name, address) out.exports e,
  )

  write_symbols_lem :
      (table : SymbolTable) (names : List Bytes) (symbols : List (Bytes × ℕ)) (out : OutputSymbols)
      → Filling max_symbols_per_import_section imports names out.imports
      → Filling max_symbols_per_export_section exports symbols out.exports
      → Filling max_symbols_per_import_section imports
          (names ++ undefined_names table)
          (write_symbols table out).imports
        × Filling max_symbols_per_export_section exports
            (symbols ++ defined_symbols table)
            (write_symbols table out).exports
  unfolding write_symbols
  write_symbols_lem [] names symbols out i e = (rw (append-nil names) i, rw (append-nil symbols) e)
  write_symbols_lem ((name, entry) ∷ rest) names symbols out i e =
      let one = if_undefined entry.type_id name in
      let other = if_defined entry.type_id (name, entry.address) in
      let (imported, exported) =
        write_symbol_lem entry.type_id name entry.address names symbols out i e in
      let (more, others) =
        write_symbols_lem rest (names ++ one) (symbols ++ other)
          (write_symbol entry.type_id name entry.address out) imported exported in
      (
        rw (← append_assoc names one (undefined_names rest)) more,
        rw (← append_assoc symbols other (defined_symbols rest)) others,
      )

-- The undefined names of the table go into new import sections of 1 to 12 symbols, and the defined
-- symbols with their addresses into new export sections of 1 to 6, each in the order of the table
-- and after the sections that were there.
pub write_output_symbols-Spread :
    (table : SymbolTable) (imports : List (List Bytes)) (exports : List (List (Bytes × ℕ)))
    → Spread max_symbols_per_import_section imports
        (undefined_names table)
        (write_output_symbols table imports exports).0
      × Spread max_symbols_per_export_section exports
          (defined_symbols table)
          (write_output_symbols table imports exports).1
unfolding write_output_symbols
write_output_symbols-Spread table imports exports =
    let (imported, exported) =
      write_symbols_lem imports exports table [] []
        (record {
          imports = record { finished = imports; current = [] };
          exports = record { finished = exports; current = [] };
        })
        ([], sym (append-nil imports), tt, omega arith, refl)
        ([], sym (append-nil exports), tt, omega arith, refl) in
    (
      flush_cases max_symbols_per_import_section imports (undefined_names table) _ _ imported,
      flush_cases max_symbols_per_export_section exports (defined_symbols table) _ _ exported,
    )
