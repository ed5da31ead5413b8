-- ===== src/Assembler/Tokenizer/Lexed.antt =====
-- Tokens and the blanks between them make up a line.
use sicxe.Base.{
  All-append_one, ℕ, zero, suc, ◌+◌, ◌-◌, ◌^◌, ◌<◌, ◌≤◌, ◌≡◌, refl, sym, ap, subst, true, false,
  some, List, [], ◌∷◌, ◌++◌, All, length, get_or, slice, is_empty, arith,
}
use sicxe.Base.Text.{Bytes}
use sicxe.Machine.Float.{IsFloatData}
use sicxe.Assembler.Token.{
  TokenContent, name_token, operator_token, comment_token, integer_token, data_bin_token,
  data_float_token, Token,
}
use sicxe.Assembler.Tokenizer.{is_blank, operator_of, mask_valid_name}

slice-suc :
    (offset n i : ℕ) (line : Bytes)
    → i ≡ offset + n
    → i < length line
    → slice offset (suc n) line ≡ slice offset n line ++ get_or line i 0 ∷ []
slice-suc offset n i [] e h = absurd (omega (arith, h))
slice-suc zero zero zero (c ∷ rest) e h = refl
slice-suc zero zero (suc i) (c ∷ rest) e h = absurd (omega (arith, e))
slice-suc zero (suc n) zero (c ∷ rest) e h = absurd (omega (arith, e))
slice-suc zero (suc n) (suc i) (c ∷ rest) e h =
    ap (λ t. c ∷ t) (slice-suc zero n i rest (omega (arith, e)) (omega (arith, h)))
slice-suc (suc offset) n zero (c ∷ rest) e h = absurd (omega (arith, e))
slice-suc (suc offset) n (suc i) (c ∷ rest) e h =
    slice-suc offset n i rest (omega (arith, e)) (omega (arith, h))

-- The bytes from a position up to another.
abbrev pub Between : (ℕ → Type 0) → Bytes → ℕ → ℕ → Type 0
Between P line low high = All P (slice low (high - low) line)

pub Between_none :
    (P : ℕ → Type 0) (line : Bytes) (low high : ℕ) → high ≤ low → Between P line low high
Between_none P line low high h =
    let none : high - low ≡ 0 = omega arith in subst (λ n. All P (slice low n line)) (sym none) tt

pub Between_suc :
    (P : ℕ → Type 0) (line : Bytes) (low high : ℕ)
    → low ≤ high
    → high < length line
    → P (get_or line high 0)
    → Between P line low high
    → Between P line low (high + 1)
Between_suc P line low high h k p v =
    let one : high + 1 - low ≡ suc (high - low) = omega arith in
    subst (λ n. All P (slice low n line)) (sym one)
      (subst (All P) (sym (slice-suc low (high - low) high line (omega arith) k))
        (All-append_one P (slice low (high - low) line) (get_or line high 0) v p))

abbrev pub IsBlank : ℕ → Type 0
IsBlank c = is_blank c ≡ true

abbrev pub IsNameCharacter : ℕ → Type 0
IsNameCharacter c = mask_valid_name c ≡ true

-- A name is its value, of characters of names; an integer has 32 bits; data is not empty, and a float
-- is six bytes.
abbrev pub IsContent : Bytes → TokenContent → Type 0
IsContent value (name_token name) = (name ≡ value) × All IsNameCharacter value
IsContent value (operator_token id) = operator_of (get_or value 0 0) ≡ some id
IsContent value comment_token = Unit
IsContent value (integer_token n) = n < 2 ^ 32
IsContent value (data_bin_token bytes) = is_empty bytes ≡ false
IsContent value (data_float_token bytes) = IsFloatData bytes

module _ (row : ℕ) (line : Bytes) where
  -- The value is the part of the line at the position.
  abbrev pub IsToken : Token → Type 0
  IsToken t =
      (t.pos.row ≡ row)
      × (0 < t.pos.size)
      × (t.pos.column + t.pos.size ≤ length line)
      × (t.value ≡ slice t.pos.column t.pos.size line)
      × IsContent t.value t.content

  -- From a position up to another there are tokens, with blanks around them.
  abbrev pub IsLexed : ℕ → List Token → ℕ → Type 0
  IsLexed low [] high = (low ≤ high) × Between IsBlank line low high
  IsLexed low (t ∷ rest) high =
      (low ≤ t.pos.column)
      × Between IsBlank line low t.pos.column
      × IsToken t
      × IsLexed (t.pos.column + t.pos.size) rest high

  pub IsLexed-blank :
      (low high : ℕ) (tokens : List Token)
      → high < length line
      → IsBlank (get_or line high 0)
      → IsLexed low tokens high
      → IsLexed low tokens (high + 1)
  IsLexed-blank low high [] h b v =
      (omega (arith, v.0), Between_suc IsBlank line low high v.0 h b v.1)
  IsLexed-blank low high (t ∷ rest) h b v =
      (v.0, v.1, v.2, IsLexed-blank (t.pos.column + t.pos.size) high rest h b v.3)

  pub IsLexed-token :
      (low high : ℕ) (tokens : List Token) (t : Token)
      → IsToken t
      → high ≡ t.pos.column + t.pos.size
      → IsLexed low tokens t.pos.column
      → IsLexed low (tokens ++ t ∷ []) high
  IsLexed-token low high [] t w e v = (
    v.0,
    v.1,
    w,
    (omega arith, Between_none IsBlank line (t.pos.column + t.pos.size) high (omega arith)),
  )
  IsLexed-token low high (first ∷ rest) t w e v =
      (v.0, v.1, v.2, IsLexed-token (first.pos.column + first.pos.size) high rest t w e v.3)
