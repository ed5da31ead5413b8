-- ===== src/Linker/Placement/Layout.antt =====
-- Where `OrderInputFiles` puts the files.
use sicxe.Base.{
  ℕ, ◌+◌, ◌%◌, ◌^◌, ◌≤◌, ◌<◌, ◌≡◌, refl, ◌∙◌, subst, Bool, true, false, not, ◌&&◌, ◌==◌, ltb,
  Option, none, some, List, [], ◌∷◌, All, inl, inr, Bool-cases, arith,
}
use mathlib.Core.Option.{some-injective}
use sicxe.Base.Int.{ℤ, pos, ◌-ℤ◌}
use sicxe.Machine.Word.{int32}
use sicxe.Object.{ObjectFile}
use sicxe.Linker.Errors.{LinkError}
use sicxe.Linker.Placement.{Placement, placed, order_input_files}

-- From an address on every file starts where the one before it ends, is moved by the difference to
-- its own start address, and ends at most at 2 ^ 20; the last one ends at the end address.
abbrev pub IsLaidOut : ℕ → List ObjectFile → List ℕ → List ℤ → ℕ → Type 0
IsLaidOut address [] [] [] end = address ≡ end
IsLaidOut address (file ∷ files) (start ∷ starts) (adjustment ∷ adjustments) end =
    (start ≡ address)
    × (adjustment ≡ pos start -ℤ pos file.start_address)
    × (start + file.code_size ≤ 2 ^ 20)
    × IsLaidOut (start + file.code_size) files starts adjustments end
IsLaidOut address _ _ _ end = ⊥

-- Addresses as the lines of an object file hold them.
abbrev pub HasAddresses : ObjectFile → Type 0
HasAddresses file = (file.start_address < 2 ^ 24) × (file.code_size < 2 ^ 24)

-- In compatibility mode files start at 0.
abbrev pub StartsAllowed : Bool → ObjectFile → Type 0
StartsAllowed compatibility_mode file = compatibility_mode ≡ true → file.start_address ≡ 0

int32_small : (w : ℕ) → w < 2 ^ 31 → int32 w ≡ pos w
int32_small w h = ground arith

placed_lem :
    (start : ℕ) (adjustment : ℤ) (refused : Bool) (later : Option Placement) (p : Placement)
    → placed start adjustment refused later ≡ some p
    → (refused ≡ false)
      × ((q : Placement) × (later ≡ some q)
          × (record q { starts = start ∷ q.starts; adjustments = adjustment ∷ q.adjustments } ≡ p))
placed_lem start adjustment refused none p e = cc
placed_lem start adjustment true (some q) p e = cc
placed_lem start adjustment false (some q) p e = (refl, (q, refl, some-injective _ p e))

-- What a placement of one file more says.
one_more :
    (compatibility_mode : Bool) (address : ℕ) (file : ObjectFile) (rest : List ObjectFile)
    (p : Placement)
    → address ≤ 2 ^ 20
    → HasAddresses file
    → (order_input_files compatibility_mode address (file ∷ rest)).1 ≡ some p
    → let next = address + file.code_size in
      (next ≤ 2 ^ 20)
      × StartsAllowed compatibility_mode file
      × ((order_input_files compatibility_mode address (file ∷ rest)).0
          ≡ (order_input_files compatibility_mode next rest).0)
      × ((q : Placement) × ((order_input_files compatibility_mode next rest).1 ≡ some q)
          × (record q {
            starts = address ∷ q.starts;
            adjustments = (int32 address -ℤ int32 file.start_address) ∷ q.adjustments;
          }
              ≡ p))
unfolding order_input_files
one_more compatibility_mode address file rest p h v e =
    let next = address + file.code_size in
    let same : next % 2 ^ 32 ≡ next = omega (arith, v.1) in
    elim (Bool-cases (ltb 0x10_0000 next)) [
      | inl o ↦ absurd (let failed = rw (same, o) at e in cc)
      | inr o ↦
          let (free, (q, later, moved)) =
            placed_lem address (int32 address -ℤ int32 file.start_address)
              (compatibility_mode && not (file.start_address == 0))
              (order_input_files compatibility_mode next rest).1 p (rw (same, o) at e) in
          rw (same, o, free) (ground arith, ground arith, refl, (q, later, moved))
    ]

-- If the start address is at most 2 ^ 20 and the addresses of the files have 24 bits, a placement
-- lays the files out one after the other up to its end, inside the memory, there are no errors, and
-- in compatibility mode every file starts at 0.
pub order_input_files-IsLaidOut :
    (compatibility_mode : Bool) (address : ℕ) (files : List ObjectFile) (p : Placement)
    → address ≤ 2 ^ 20
    → All HasAddresses files
    → (order_input_files compatibility_mode address files).1 ≡ some p
    → IsLaidOut address files p.starts p.adjustments p.end_address
      × All (StartsAllowed compatibility_mode) files
      × ((order_input_files compatibility_mode address files).0 ≡ [])
unfolding order_input_files
order_input_files-IsLaidOut compatibility_mode address [] p h v e =
    subst
      (λ (q : Placement).
        IsLaidOut address [] q.starts q.adjustments q.end_address
        × Unit {0}
        × ◌≡◌ {A = List LinkError} [] [])
      (some-injective _ p e) (refl, tt, refl)
order_input_files-IsLaidOut compatibility_mode address (file ∷ rest) p h v e =
    let (inside, allowed, errors, (q, later, same)) =
      one_more compatibility_mode address file rest p h v.0 e in
    let (laid, starts, clean) =
      order_input_files-IsLaidOut compatibility_mode (address + file.code_size) rest q inside v.1
        later in
    let moved : int32 address -ℤ int32 file.start_address ≡ pos address -ℤ pos file.start_address =
      cc (int32_small address (omega arith), int32_small file.start_address (omega (arith, v.0))) in
    subst
      (λ (r : Placement).
        IsLaidOut address (file ∷ rest) r.starts r.adjustments r.end_address
        × All (StartsAllowed compatibility_mode) (file ∷ rest)
        × ((order_input_files compatibility_mode address (file ∷ rest)).0 ≡ []))
      same ((refl, moved, inside, laid), (allowed, starts), errors ∙ clean)
