-- ===== src/Assembler/Tokenizer/Advance.antt =====
-- The characters of a token after its start.
use sicxe.Base.{
  ℕ, zero, suc, ◌+◌, ◌-◌, ◌%◌, ◌<◌, ◌≤◌, ◌≡◌, refl, sym, subst, Bool, true, false, ◌==◌, leb, List,
  [], ◌∷◌, ◌++◌, length, drop, slice, is_empty, is_empty-append, inl, inr, Bool-cases, arith,
}
use sicxe.Base.Text.{Bytes}
use sicxe.Machine.Float.{Fpu, encode_float_data, encode_float_data-IsFloatData}
use sicxe.Object.Text.{between}
use sicxe.Assembler.Token.{TokenContent, data_bin_token, data_float_token}
use sicxe.Assembler.Errors.{Message}
use sicxe.Assembler.Outcome.{Returns}
use sicxe.Assembler.Tokenizer.{
  StateId, state_none, state_name, integer_dec, integer_bin, integer_oct, integer_hex, data_char,
  data_hex, data_float, comment, state_operator, invalid, mask_valid_name, mask_valid_hex,
  mask_valid_float, start_lookup, Tokenizing,
}
use sicxe.Assembler.Tokenizer.Commit.{
  hex_data, hex_pairs, committed, commit_data_char, commit_data_hex, commit_data_float,
}
use sicxe.Assembler.Tokenizer.Scan.{
  escaped, current_of, next_of, check, escape, advance_data_char, process,
}
use sicxe.Assembler.Tokenizer.Lexed.{Between, Between_suc, IsNameCharacter, IsContent, IsLexed}
use sicxe.Assembler.Tokenizer.Stop.{IsDigit, Scanning, committed-IsLexed}
use sicxe.Assembler.Tokenizer.Start.{Goes, start_lookup_lem, start_token-Returns}

mask_valid_hex-IsDigit : (c : ℕ) → mask_valid_hex c ≡ true → IsDigit 16 c
unfolding mask_valid_hex
mask_valid_hex-IsDigit c h = ground arith

hex_data_lem : (digits : Bytes) → is_empty digits ≡ false → is_empty (hex_data digits) ≡ false
unfolding hex_data hex_pairs
hex_data_lem [] h = cc
hex_data_lem (c ∷ []) h = refl
hex_data_lem (c ∷ d ∷ rest) h = elim (Bool-cases (length (c ∷ d ∷ rest) % 2 == 1)) [
  | inl e ↦ rw e refl
  | inr e ↦ rw e refl
]

slice_some :
    (offset size : ℕ) (line : Bytes)
    → 0 < size
    → offset < length line
    → is_empty (slice offset size line) ≡ false
slice_some offset size [] h k = absurd (omega (arith, k))
slice_some zero zero (c ∷ rest) h k = absurd (omega (arith, h))
slice_some zero (suc size) (c ∷ rest) h k = refl
slice_some (suc offset) size (c ∷ rest) h k = slice_some offset size rest h (omega (arith, k))

module _ (row : ℕ) (line : Bytes) where
  -- A state that stays, a character later.
  stays :
      (state : StateId) (s : Tokenizing)
      → s.state_id ≡ state
      → s.position < length line
      → Scanning row line state (record s { position = s.position + 1 })
      → Goes row line s s
  stays state s e h v = (
    omega arith,
    omega arith,
    subst (λ t. Scanning row line t (record s { position = s.position + 1 })) (sym e) v,
  )

  check-Returns :
      (valid : Bool) (message : Message) (s : Tokenizing)
      → (valid ≡ true → Goes row line s s)
      → Returns (Goes row line s) (check row line valid message s)
  check-Returns true message s h = h refl
  check-Returns false message s h = tt

  -- One more character of a token.
  more :
      (P : ℕ → Type 0) (low : ℕ) (s : Tokenizing)
      → low ≤ s.position
      → s.position < length line
      → P (current_of row line s)
      → Between P line low s.position
      → Between P line low (s.position + 1)
  more P low s h k p v = Between_suc P line low s.position h k p v

  escape-Returns :
      (bytes : List ℕ) (s : Tokenizing)
      → s.state_id ≡ data_char
      → s.position + 1 < length line
      → Scanning row line data_char s
      → Returns (Goes row line s) (escape row line bytes s)
  unfolding escape
  escape-Returns [] s e h v = tt
  escape-Returns (c ∷ rest) s e h v = (
    omega arith,
    omega arith,
    subst
        (λ state. Scanning row line state (record s {
          data_char_value = s.data_char_value ++ c ∷ [];
          position = s.position + 1 + 1;
        }))
        (sym e) (omega (arith, v.0), λ late. is_empty-append s.data_char_value c [], v.2),
  )

  advance_data_char-Returns :
      (s : Tokenizing)
      → s.state_id ≡ data_char
      → s.position < length line
      → Scanning row line data_char s
      → Returns (Goes row line s) (advance_data_char row line s)
  unfolding advance_data_char
  advance_data_char-Returns s e h v =
      elim (Bool-cases (between 0x20 0x7e (current_of row line s))) [
        | inr f ↦ rw f tt
        | inl f ↦ elim (Bool-cases (current_of row line s == 92)) [
          | inr g ↦
              rw (f, g)
                (
                  omega arith,
                  omega arith,
                  subst
                      (λ state. Scanning row line state (record s {
                        data_char_value = s.data_char_value ++ current_of row line s ∷ [];
                        position = s.position + 1;
                      }))
                      (sym e)
                      (
                        omega (arith, v.0),
                        λ late. is_empty-append s.data_char_value (current_of row line s) [],
                        v.2,
                      ),
                )
          | inl g ↦ elim (Bool-cases (leb (length line) (s.position + 1))) [
            | inl k ↦ rw (f, g, k) tt
            | inr k ↦
                rw (f, g, k) (escape-Returns (escaped (next_of row line s)) s e (ground arith) v)
          ]
        ]
      ]

  -- The token that a quote ends.
  quoted-Goes :
      (content : TokenContent) (characters : Bytes) (s : Tokenizing)
      → s.token_start + 2 ≤ s.position
      → s.position < length line
      → IsContent (slice s.token_start (s.position - s.token_start + 1) line) content
      → IsLexed row line 0 s.tokens s.token_start
      → Goes row line s (record (committed row line content (s.position - s.token_start + 1) s) {
        data_char_value = characters;
      })
  quoted-Goes content characters s h k c v =
      let size = s.position - s.token_start + 1 in
      let whole : s.token_start + size ≡ s.position + 1 = omega arith in
      (
        omega arith,
        omega arith,
        subst (IsLexed row line 0 (committed row line content size s).tokens) whole
            (committed-IsLexed row line content size s (omega arith) (omega arith) c v),
      )

  commit_data_char-Returns :
      (s : Tokenizing)
      → s.position < length line
      → Scanning row line data_char s
      → Returns (Goes row line s) (commit_data_char row line s)
  unfolding commit_data_char
  commit_data_char-Returns s h v = elim (Bool-cases (leb (s.position - s.token_start + 1) 3)) [
    | inl e ↦ rw e tt
    | inr e ↦
        rw e (quoted-Goes (data_bin_token s.data_char_value) [] s v.0 h (v.1 (ground arith)) v.2)
  ]

  commit_data_hex-Returns :
      (s : Tokenizing)
      → s.position < length line
      → Scanning row line data_hex s
      → Returns (Goes row line s) (commit_data_hex row line s)
  unfolding commit_data_hex
  commit_data_hex-Returns s h v =
      let size = s.position - s.token_start + 1 in
      let digits = slice (s.token_start + 2) (size - 3) line in
      elim (Bool-cases (leb size 3)) [
        | inl e ↦ rw e tt
        | inr e ↦ rw e (
            quoted-Goes (data_bin_token (hex_data digits)) s.data_char_value s v.0 h
              (hex_data_lem digits (
                slice_some (s.token_start + 2) (size - 3) line (ground arith) (omega (arith, v.0))))
              v.1)
      ]

  module _ (fpu : Fpu) (strtod : Bytes → fpu.Double × ℕ) where
    commit_data_float-Returns :
        (s : Tokenizing)
        → s.position < length line
        → Scanning row line data_float s
        → Returns (Goes row line s) (commit_data_float row line fpu strtod s)
    unfolding commit_data_float
    commit_data_float-Returns s h v =
        let size = s.position - s.token_start + 1 in
        let read = strtod (drop 2 (slice s.token_start size line)) in
        elim (Bool-cases (leb size 3)) [
          | inl e ↦ rw e tt
          | inr e ↦ elim (Bool-cases (read.1 + 2 == size - 1)) [
            | inl f ↦
                rw (e, f)
                  (quoted-Goes (data_float_token (encode_float_data fpu read.0)) s.data_char_value s
                    v.0 h (encode_float_data-IsFloatData fpu read.0) v.1)
            | inr f ↦ rw (e, f) tt
          ]
        ]

    pub process-Returns :
        (state : StateId) (s : Tokenizing)
        → s.state_id ≡ state
        → s.position < length line
        → Scanning row line state s
        → Returns (Goes row line s) (process row line fpu strtod state s)
    unfolding process
    process-Returns state_none s e h v =
        start_token-Returns row line (start_lookup (current_of row line s)) s e h
          (start_lookup_lem (current_of row line s)) v
    process-Returns state_name s e h v =
        check-Returns (mask_valid_name (current_of row line s)) _ s (λ c. stays state_name s e h (
          omega (arith, v.0),
          more IsNameCharacter s.token_start s (omega (arith, v.0)) h c v.1,
          v.2,
        ))
    process-Returns integer_dec s e h v =
        check-Returns (between 48 57 (current_of row line s)) _ s (λ c. stays integer_dec s e h (
          omega (arith, v.0),
          more (IsDigit 10) s.token_start s (omega (arith, v.0)) h (ground arith) v.1,
          v.2,
        ))
    process-Returns integer_bin s e h v =
        check-Returns (between 48 49 (current_of row line s)) _ s (λ c. stays integer_bin s e h (
          omega (arith, v.0),
          more (IsDigit 2) (s.token_start + 2) s (omega (arith, v.0)) h (ground arith) v.1,
          v.2,
        ))
    process-Returns integer_oct s e h v =
        check-Returns (between 48 55 (current_of row line s)) _ s (λ c. stays integer_oct s e h (
          omega (arith, v.0),
          more (IsDigit 8) (s.token_start + 2) s (omega (arith, v.0)) h (ground arith) v.1,
          v.2,
        ))
    process-Returns integer_hex s e h v =
        check-Returns (mask_valid_hex (current_of row line s)) _ s (λ c. stays integer_hex s e h (
          omega (arith, v.0),
          more (IsDigit 16) (s.token_start + 2) s (omega (arith, v.0)) h
              (mask_valid_hex-IsDigit (current_of row line s) c) v.1,
          v.2,
        ))
    process-Returns data_char s e h v = elim (Bool-cases (current_of row line s == 39)) [
      | inl f ↦ rw f (commit_data_char-Returns s h v)
      | inr f ↦ rw f (advance_data_char-Returns s e h v)
    ]
    process-Returns data_hex s e h v = elim (Bool-cases (current_of row line s == 39)) [
      | inl f ↦ rw f (commit_data_hex-Returns s h v)
      | inr f ↦ rw f (
          check-Returns (mask_valid_hex (current_of row line s)) _ s
            (λ c. stays data_hex s e h (omega (arith, v.0), v.1)))
    ]
    process-Returns data_float s e h v = elim (Bool-cases (current_of row line s == 39)) [
      | inl f ↦ rw f (commit_data_float-Returns s h v)
      | inr f ↦ rw f (
          check-Returns (mask_valid_float (current_of row line s)) _ s
            (λ c. stays data_float s e h (omega (arith, v.0), v.1)))
    ]
    process-Returns comment s e h v =
        check-Returns (between 0x20 0x7e (current_of row line s)) _ s
          (λ c. stays comment s e h (omega (arith, v.0), v.1))
    process-Returns state_operator s e h v = elim v [ ]
    process-Returns invalid s e h v = elim v [ ]
