-- ===== src/Object/RoundTrip/Lines.antt =====
-- The loop of `LoadFile` over the lines of one kind.
use sicxe.Base.{
  ℕ, ◌+◌, ◌≡◌, refl, ap, ◌∙◌, some, List, [], ◌∷◌, ◌++◌, All, map, length, is_empty-append, arith,
}
use sicxe.Base.Text.{Bytes}
use sicxe.Base.Run.{value}
use sicxe.Object.Load.{Loading, parse_line, chomp, load_lines}
use sicxe.Object.Save.{ended}

chomp-ended : (line : Bytes) → chomp (ended line) ≡ line
unfolding chomp
chomp-ended [] = refl
chomp-ended (c ∷ []) = refl
chomp-ended (c ∷ d ∷ rest) = ap (λ t. c ∷ t) (chomp-ended (d ∷ rest))

pub load_lines_end : (line : ℕ) (s : Loading) → load_lines [] line s ≡ value (some (line, s))
unfolding load_lines
load_lines_end line s = refl

-- A line that is parsed.
pub load_lines-ended :
    (text : Bytes) (rest : List Bytes) (line : ℕ) (s t : Loading)
    → parse_line text line s ≡ some t
    → load_lines (ended text ∷ rest) line s ≡ load_lines rest (line + 1) t
unfolding load_lines
load_lines-ended text rest line s t h = simp (is_empty-append text 10 [], chomp-ended text, h) refl

-- The state after lines that each add to it.
abbrev pub added_all : {A : Type 0} → (A → Loading → Loading) → List A → Loading → Loading
added_all add [] s = s
added_all add (x ∷ rest) s = added_all add rest (add x s)

load_lines-map :
    {A : Type 0} (P : A → Type 0) (text : A → Bytes) (add : A → Loading → Loading)
    → ((x : A) (line : ℕ) (s : Loading) → P x → parse_line (text x) line s ≡ some (add x s))
    → (xs : List A) (rest : List Bytes) (line : ℕ) (s : Loading) → All P xs
    → load_lines (map (λ x. ended (text x)) xs ++ rest) line s
      ≡ load_lines rest (length xs + line) (added_all add xs s)
load_lines-map P text add parsed [] rest line s v = ap (λ n. load_lines rest n s) (omega arith)
load_lines-map P text add parsed (x ∷ xs) rest line s v =
    load_lines-ended (text x) (map (λ y. ended (text y)) xs ++ rest) line s (add x s)
      (parsed x line s v.0)
    ∙ load_lines-map P text add parsed xs rest (line + 1) (add x s) v.1
    ∙ ap (λ n. load_lines rest n (added_all add xs (add x s))) (omega arith)

pub load_lines-added :
    {A : Type 0} (P : A → Type 0) (text : A → Bytes) (add : A → Loading → Loading)
    → ((x : A) (line : ℕ) (s : Loading) → P x → parse_line (text x) line s ≡ some (add x s))
    → (xs : List A) (rest : List Bytes) (line : ℕ) (s t : Loading) → All P xs
    → added_all add xs s ≡ t
    → load_lines (map (λ x. ended (text x)) xs ++ rest) line s
      ≡ load_lines rest (length xs + line) t
load_lines-added P text add parsed xs rest line s t v e =
    load_lines-map P text add parsed xs rest line s v ∙ ap (load_lines rest (length xs + line)) e
