-- ===== src/Object/Load/Bounds.antt =====
-- The numbers that `ParseHex` gives.
use sicxe.Base.{
  ℕ, zero, suc, ◌+◌, ◌*◌, ◌%◌, ◌^◌, ◌<◌, ◌≤◌, ◌≡◌, refl, subst, Bool, true, false, Option, some,
  List, [], ◌∷◌, length, take, drop, slice, All, arith,
}
use mathlib.Core.Option.{some-injective}
use sicxe.Base.Text.{Bytes}
use sicxe.Base.Options.{steps, split}
use sicxe.Object.Text.{hex_digit, parse_hex}
use sicxe.Object.Load.{hex_at, name_at, guard, parse_bytes, parse_exports}

-- The greatest number that so many more digits lead to.
top : ℕ → ℕ → ℕ
top zero rv = rv
top (suc more) rv = top more (rv * 16 + 15)

top_mono : (more a b : ℕ) → a ≤ b → top more a ≤ top more b
unfolding top
top_mono zero a b h = h
top_mono (suc more) a b h = top_mono more (a * 16 + 15) (b * 16 + 15) (omega arith)

top_more : (fewer more rv : ℕ) → fewer ≤ more → top fewer rv ≤ top more rv
unfolding top
top_more zero zero rv h = omega arith
top_more zero (suc more) rv h =
    omega
      (arith, top_more zero more rv (omega arith), top_mono more rv (rv * 16 + 15) (omega arith))
top_more (suc fewer) zero rv h = absurd (omega (arith, h))
top_more (suc fewer) (suc more) rv h = top_more fewer more (rv * 16 + 15) (omega arith)

hex_digit-Bounded : (c digit : ℕ) → hex_digit c ≡ some digit → digit ≤ 15
unfolding hex_digit
hex_digit-Bounded c digit h = ground arith

parse_hex-Bounded : (xs : Bytes) (rv n : ℕ) → parse_hex xs rv ≡ some n → n ≤ top (length xs) rv
unfolding parse_hex top
parse_hex-Bounded [] rv n h = let same = some-injective rv n h in omega arith
parse_hex-Bounded (c ∷ rest) rv n h =
    elim (split (hex_digit c) (λ digit. parse_hex rest (rv * 16 % 2 ^ 32 + digit)) n h) [
      | steps digit e k ↦
          let small = hex_digit-Bounded c digit e in
          let least = parse_hex-Bounded rest (rv * 16 % 2 ^ 32 + digit) n k in
          let more =
            top_mono (length rest) (rv * 16 % 2 ^ 32 + digit) (rv * 16 + 15) (omega arith) in
          omega arith
    ]

length-take : (n : ℕ) (xs : Bytes) → length (take n xs) ≤ n
length-take zero xs = omega arith
length-take (suc n) [] = omega arith
length-take (suc n) (x ∷ xs) = omega (arith, length-take n xs)

hex_at-Bounded :
    (offset width : ℕ) (line : Bytes) (n : ℕ) → hex_at offset width line ≡ some n → n ≤ top width 0
hex_at-Bounded offset width line n h = omega (
  arith,
  parse_hex-Bounded (slice offset width line) 0 n h,
  top_more (length (slice offset width line)) width 0 (length-take width (drop offset line)),
)

pub hex_at_six-Bounded :
    (offset : ℕ) (line : Bytes) (n : ℕ) → hex_at offset 6 line ≡ some n → n < 2 ^ 24
unfolding top
hex_at_six-Bounded offset line n h = omega (arith, hex_at-Bounded offset 6 line n h)

pub hex_at_two-Bounded :
    (offset : ℕ) (line : Bytes) (n : ℕ) → hex_at offset 2 line ≡ some n → n < 2 ^ 8
unfolding top
hex_at_two-Bounded offset line n h = omega (arith, hex_at-Bounded offset 2 line n h)

pub passed :
    {A : Type 0} (test : Bool) (next : Option A) (a : A)
    → guard test next ≡ some a
    → (test ≡ true) × (next ≡ some a)
passed true next a h = (refl, h)
passed false next a h = cc

pub parse_bytes-Bounded :
    (count : ℕ) (line : Bytes) (bytes : List ℕ)
    → parse_bytes count line ≡ some bytes
    → (length bytes ≡ count) × All (λ b. b < 2 ^ 8) bytes
unfolding parse_bytes
parse_bytes-Bounded zero line bytes h =
    subst (λ t. (length t ≡ 0) × All (λ b. b < 2 ^ 8) t) (some-injective [] bytes h) (refl, tt)
parse_bytes-Bounded (suc more) line bytes h = elim (split (hex_at 0 2 line) _ bytes h) [
  | steps byte e k ↦ elim (split (parse_bytes more (drop 2 line)) _ bytes k) [
    | steps rest f j ↦
        let tail = parse_bytes-Bounded more (drop 2 line) rest f in
        subst (λ t. (length t ≡ suc more) × All (λ b. b < 2 ^ 8) t)
          (some-injective (byte ∷ rest) bytes j)
          (omega (arith, tail.0), (hex_at_two-Bounded 0 line byte e, tail.1))
  ]
]

pub parse_exports-Bounded :
    (count : ℕ) (line : Bytes) (symbols : List (Bytes × ℕ))
    → parse_exports count line ≡ some symbols
    → All (λ (symbol : Bytes × ℕ). symbol.1 < 2 ^ 24) symbols
unfolding parse_exports
parse_exports-Bounded zero line symbols h =
    subst (All (λ (symbol : Bytes × ℕ). symbol.1 < 2 ^ 24)) (some-injective [] symbols h) tt
parse_exports-Bounded (suc more) line symbols h = elim (split (name_at 0 6 line) _ symbols h) [
  | steps name e k ↦ elim (split (hex_at 6 6 line) _ symbols k) [
    | steps address f j ↦ elim (split (parse_exports more (drop 12 line)) _ symbols j) [
      | steps rest g i ↦
          subst (All (λ (symbol : Bytes × ℕ). symbol.1 < 2 ^ 24))
            (some-injective ((name, address) ∷ rest) symbols i)
            (hex_at_six-Bounded 6 line address f, parse_exports-Bounded more (drop 12 line) rest g)
    ]
  ]
]
