-- ===== src/Base/Text.antt =====
-- `std::string` as the list of its bytes, with the comparisons of the standard library.
use Prim.Native.Char.{code}
use Prim.Native.String.{String}
use Prim.Native.Nat.{ℕ}
use mathlib.Core.Path.{◌≡◌, refl}
use mathlib.Core.Logic.{◌↔◌}
use mathlib.Core.Bool.{Bool, true, false, ◌&&◌}
use mathlib.Core.List.{List, [], ◌∷◌}
use native.Mathlib.Omega.{arith}
use sicxe.Base.Tests.{◌==◌, ltb, if◌then◌else◌}

abbrev pub Bytes : Type 0
Bytes = List ℕ

-- The bytes of an ASCII literal.
abbrev pub codes : String → Bytes
codes String.[] = []
codes (String.◌∷◌ c s) = code c ∷ codes s

abbrev pub same_bytes : Bytes → Bytes → Bool
same_bytes [] [] = true
same_bytes [] (b ∷ t) = false
same_bytes (a ∷ s) [] = false
same_bytes (a ∷ s) (b ∷ t) = a == b && same_bytes s t

-- `operator<`: the first difference decides, and a prefix comes first.
abbrev pub bytes_before : Bytes → Bytes → Bool
bytes_before [] [] = false
bytes_before [] (b ∷ t) = true
bytes_before (a ∷ s) [] = false
bytes_before (a ∷ s) (b ∷ t) =
    let later = bytes_before s t in if ltb a b then true else (if ltb b a then false else later)

pub same_bytes_iff : (s t : Bytes) → (same_bytes s t ≡ true) ↔ (s ≡ t)
same_bytes_iff [] [] = ground arith
same_bytes_iff [] (b ∷ t) = ground arith
same_bytes_iff (a ∷ s) [] = ground arith
same_bytes_iff (a ∷ s) (b ∷ t) = ground (arith, same_bytes_iff s t)

pub bytes_before_irrefl : (s : Bytes) → bytes_before s s ≡ false
bytes_before_irrefl [] = refl
bytes_before_irrefl (a ∷ s) = ground (arith, bytes_before_irrefl s)

pub bytes_before_trans :
    (r s t : Bytes) → bytes_before r s ≡ true → bytes_before s t ≡ true → bytes_before r t ≡ true
bytes_before_trans [] [] t p q = q
bytes_before_trans [] (b ∷ s) [] p q = q
bytes_before_trans [] (b ∷ s) (c ∷ t) p q = refl
bytes_before_trans (a ∷ r) [] t p q = cc
bytes_before_trans (a ∷ r) (b ∷ s) [] p q = cc
bytes_before_trans (a ∷ r) (b ∷ s) (c ∷ t) p q = ground (arith, bytes_before_trans r s t)

pub bytes_before_total :
    (s t : Bytes) → same_bytes s t ≡ false → bytes_before s t ≡ false → bytes_before t s ≡ true
bytes_before_total [] [] p q = cc
bytes_before_total [] (b ∷ t) p q = cc
bytes_before_total (a ∷ s) [] p q = refl
bytes_before_total (a ∷ s) (b ∷ t) p q = ground (arith, bytes_before_total s t)
