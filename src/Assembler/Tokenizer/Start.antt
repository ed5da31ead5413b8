-- ===== src/Assembler/Tokenizer/Start.antt =====
-- The start of a token, and the characters after it.
use sicxe.Base.{
  ℕ, zero, suc, ◌+◌, ◌<◌, ◌≤◌, ◌≡◌, refl, ap, ◌∙◌, true, ◌&&◌, ◌||◌, ◌==◌, ltb, [], ◌∷◌, length,
  get_or, slice, if◌then◌else◌, inl, inr, Bool-cases, Option-cases, arith,
}
use sicxe.Base.Text.{Bytes}
use sicxe.Assembler.Token.{operator_token}
use sicxe.Assembler.Outcome.{Returns}
use sicxe.Assembler.Tokenizer.{
  StateId, state_none, state_name, integer_dec, integer_bin, integer_oct, integer_hex, data_char,
  data_hex, data_float, comment, state_operator, invalid, is_blank, is_some, is_letter, is_digit,
  operator_of, mask_valid_name, start_lookup, Tokenizing,
}
use sicxe.Assembler.Tokenizer.Commit.{commit_operator}
use sicxe.Assembler.Tokenizer.Scan.{
  number_state, name_state, takes_two, start_state, current_of, next_of, start_token,
}
use sicxe.Assembler.Tokenizer.Lexed.{
  Between, Between_none, Between_suc, IsBlank, IsNameCharacter, IsLexed, IsLexed-blank,
}
use sicxe.Assembler.Tokenizer.Stop.{IsDigit, Scanning, committed-IsLexed}

-- What the table says of a character.
abbrev pub StartsWith : ℕ → StateId → Type 0
StartsWith c state_none = IsBlank c
StartsWith c state_name = IsNameCharacter c
StartsWith c integer_dec = IsDigit 10 c
StartsWith c comment = Unit
StartsWith c state_operator = is_some (operator_of c) ≡ true
StartsWith c invalid = Unit
StartsWith c _ = ⊥

pub start_lookup_lem : (c : ℕ) → StartsWith c (start_lookup c)
unfolding start_lookup mask_valid_name
start_lookup_lem c = elim (Bool-cases (is_some (operator_of c))) [
  | inl e ↦ rw e e
  | inr e ↦ elim (Bool-cases (is_blank c)) [
    | inl f ↦ rw (e, f) f
    | inr f ↦ elim (Bool-cases (c == 46)) [
      | inl g ↦ rw (e, f, g) tt
      | inr g ↦ elim (Bool-cases (is_digit c)) [
        | inl k ↦ rw (e, f, g, k) (ground arith)
        | inr k ↦ elim (Bool-cases (is_letter c || c == 95)) [
          | inl l ↦ rw (e, f, g, k, l) (ground arith)
          | inr l ↦ rw (e, f, g, k, l) tt
        ]
      ]
    ]
  ]
]

-- The states of numbers, and those of names and data.
abbrev IsNumber : StateId → Type 0
IsNumber integer_dec = Unit
IsNumber integer_bin = Unit
IsNumber integer_oct = Unit
IsNumber integer_hex = Unit
IsNumber _ = ⊥

abbrev IsNamed : StateId → Type 0
IsNamed state_name = Unit
IsNamed data_char = Unit
IsNamed data_hex = Unit
IsNamed data_float = Unit
IsNamed _ = ⊥

number_state-IsNumber : (c next : ℕ) → IsNumber (number_state c next)
number_state-IsNumber c next = elim (Bool-cases (c == 48 && (next == 98 || next == 66))) [
  | inl e ↦ rw e tt
  | inr e ↦ elim (Bool-cases (c == 48 && (next == 111 || next == 79))) [
    | inl f ↦ rw (e, f) tt
    | inr f ↦ elim (Bool-cases (c == 48 && (next == 120 || next == 88))) [
      | inl g ↦ rw (e, f, g) tt
      | inr g ↦ rw (e, f, g) tt
    ]
  ]
]

name_state-IsNamed : (c next : ℕ) → IsNamed (name_state c next)
name_state-IsNamed c next = elim (Bool-cases (next == 39 && (c == 99 || c == 67))) [
  | inl e ↦ rw e tt
  | inr e ↦ elim (Bool-cases (next == 39 && (c == 120 || c == 88))) [
    | inl f ↦ rw (e, f) tt
    | inr f ↦ elim (Bool-cases (next == 39 && (c == 102 || c == 70))) [
      | inl g ↦ rw (e, f, g) tt
      | inr g ↦ rw (e, f, g) tt
    ]
  ]
]

module _ (row : ℕ) (line : Bytes) where
  -- The next round stands at a later position of the line, with what is read of a token.
  abbrev pub Goes : Tokenizing → Tokenizing → Type 0
  Goes s u =
      (s.position ≤ u.position)
      × (u.position + 1 ≤ length line)
      × Scanning row line u.state_id (record u { position = u.position + 1 })

  -- One character of a token with a class of characters.
  first_character :
      (P : ℕ → Type 0) (position : ℕ)
      → position < length line
      → P (get_or line position 0)
      → Between P line position (position + 1)
  first_character P position h p =
      Between_suc P line position position (omega arith) h p
        (Between_none P line position position (omega arith))

  started_number-Goes :
      (state : StateId) (s : Tokenizing)
      → IsNumber state
      → s.position + 1 < length line
      → IsDigit 10 (current_of row line s)
      → IsLexed row line 0 s.tokens s.position
      → Goes s (start_state state (if takes_two state then s.position + 1 else s.position) s)
  started_number-Goes integer_dec s v h d w = (
    omega arith,
    omega arith,
    (omega arith, first_character (IsDigit 10) s.position (omega arith) d, w),
  )
  started_number-Goes integer_bin s v h d w = (
    omega arith,
    omega arith,
    (
      omega arith,
      Between_none (IsDigit 2) line (s.position + 2) (s.position + 1 + 1) (omega arith),
      w,
    ),
  )
  started_number-Goes integer_oct s v h d w = (
    omega arith,
    omega arith,
    (
      omega arith,
      Between_none (IsDigit 8) line (s.position + 2) (s.position + 1 + 1) (omega arith),
      w,
    ),
  )
  started_number-Goes integer_hex s v h d w = (
    omega arith,
    omega arith,
    (
      omega arith,
      Between_none (IsDigit 16) line (s.position + 2) (s.position + 1 + 1) (omega arith),
      w,
    ),
  )
  started_number-Goes _ s v h d w = elim v [ ]

  started_name-Goes :
      (state : StateId) (s : Tokenizing)
      → IsNamed state
      → s.position + 1 < length line
      → IsNameCharacter (current_of row line s)
      → IsLexed row line 0 s.tokens s.position
      → Goes s (start_state state (if takes_two state then s.position + 1 else s.position) s)
  started_name-Goes state_name s v h d w = (
    omega arith,
    omega arith,
    (omega arith, first_character IsNameCharacter s.position (omega arith) d, w),
  )
  started_name-Goes data_char s v h d w =
      (omega arith, omega arith, (omega arith, λ late. absurd (omega (arith, late)), w))
  started_name-Goes data_hex s v h d w = (omega arith, omega arith, (omega arith, w))
  started_name-Goes data_float s v h d w = (omega arith, omega arith, (omega arith, w))
  started_name-Goes _ s v h d w = elim v [ ]

  first_of_slice :
      (position : ℕ) (text : Bytes)
      → position < length text
      → get_or (slice position 1 text) 0 0 ≡ get_or text position 0
  first_of_slice position [] h = absurd (omega (arith, h))
  first_of_slice zero (c ∷ rest) h = refl
  first_of_slice (suc position) (c ∷ rest) h = first_of_slice position rest (omega (arith, h))

  commit_operator-Returns :
      (s : Tokenizing)
      → s.position < length line
      → is_some (operator_of (current_of row line s)) ≡ true
      → IsLexed row line 0 s.tokens s.position
      → Returns (Goes s) (commit_operator row line (start_state state_operator s.position s))
  unfolding commit_operator
  commit_operator-Returns s h o v = elim (Option-cases (operator_of (current_of row line s))) [
    | inl e ↦ absurd (let no = rw e at o in cc)
    | inr (id, e) ↦
        rw (e, Returns)
          (
            omega arith,
            omega arith,
            committed-IsLexed row line (operator_token id) 1
                (start_state state_operator s.position s) (omega arith) (omega arith)
                (ap operator_of (first_of_slice s.position line h) ∙ e) v,
          )
  ]

  pub start_token-Returns :
      (state : StateId) (s : Tokenizing)
      → s.state_id ≡ state_none
      → s.position < length line
      → StartsWith (current_of row line s) state
      → IsLexed row line 0 s.tokens s.position
      → Returns (Goes s) (start_token row line state s)
  unfolding start_token
  start_token-Returns state_none s e h d v =
      let later = IsLexed-blank row line 0 s.position s.tokens h d v in
      elim (Bool-cases (ltb (s.position + 1) (length line))) [
        | inl f ↦ rw f (omega arith, omega arith, later)
        | inr f ↦ rw f (omega arith, omega arith, later)
      ]
  start_token-Returns state_name s e h d v =
      elim (Bool-cases (ltb (s.position + 1) (length line))) [
        | inl f ↦ rw f (
            started_name-Goes (name_state (current_of row line s) (next_of row line s)) s
              (name_state-IsNamed (current_of row line s) (next_of row line s)) (ground arith) d v)
        | inr f ↦ rw f (
          omega arith,
          omega arith,
          (omega arith, first_character IsNameCharacter s.position h d, v),
        )
      ]
  start_token-Returns integer_dec s e h d v =
      elim (Bool-cases (ltb (s.position + 1) (length line))) [
        | inl f ↦ rw f (
            started_number-Goes (number_state (current_of row line s) (next_of row line s)) s
              (number_state-IsNumber (current_of row line s) (next_of row line s)) (ground arith) d
              v)
        | inr f ↦ rw f (
          omega arith,
          omega arith,
          (omega arith, first_character (IsDigit 10) s.position h d, v),
        )
      ]
  start_token-Returns comment s e h d v = elim (Bool-cases (ltb (s.position + 1) (length line))) [
    | inl f ↦ rw f (omega arith, omega arith, (omega arith, v))
    | inr f ↦ rw f (omega arith, omega arith, (omega arith, v))
  ]
  start_token-Returns state_operator s e h d v = commit_operator-Returns s h d v
  start_token-Returns invalid s e h d v = tt
  start_token-Returns _ s e h d v = elim d [ ]
