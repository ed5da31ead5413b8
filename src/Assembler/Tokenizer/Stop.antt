-- ===== src/Assembler/Tokenizer/Stop.antt =====
-- The state between two rounds of the loop, and where a token stops.
use sicxe.Base.{
  ℕ, zero, suc, ◌+◌, ◌-◌, ◌*◌, ◌<◌, ◌≤◌, ◌≡◌, refl, sym, ap, ◌∙◌, subst, Bool, true, false, ◌&&◌,
  ◌==◌, ltb, leb, [], ◌∷◌, All, length, take, drop, slice, is_empty, inl, inr, Bool-cases, arith,
}
use sicxe.Base.Text.{Bytes}
use sicxe.Machine.Float.{Fpu}
use sicxe.Assembler.Token.{TokenContent, name_token, comment_token, integer_token}
use sicxe.Assembler.Outcome.{Returns}
use sicxe.Assembler.Tokenizer.{
  StateId, state_none, state_name, integer_dec, integer_bin, integer_oct, integer_hex, data_char,
  data_hex, data_float, comment, state_operator, invalid, Tokenizing,
}
use sicxe.Assembler.Tokenizer.Commit.{
  digit_value, strtoull, token_of, committed, keep_integer, commit_digits,
}
use sicxe.Assembler.Tokenizer.Scan.{commit_stopped, stops, stop_token}
use sicxe.Assembler.Tokenizer.Lexed.{Between, IsNameCharacter, IsContent, IsLexed, IsLexed-token}

abbrev pub IsDigit : ℕ → ℕ → Type 0
IsDigit base c = digit_value c < base

strtoull_whole :
    (base : ℕ) (digits : Bytes) (n : ℕ)
    → All (IsDigit base) digits
    → (strtoull base digits n).1 ≡ true
unfolding strtoull
strtoull_whole base [] n v = refl
strtoull_whole base (c ∷ rest) n v =
    let digit : ltb (digit_value c) base ≡ true = ground arith in
    rw digit (strtoull_whole base rest (n * base + digit_value c) v.1)

drop-take :
    (prefix size total : ℕ) (xs : Bytes)
    → total ≡ prefix + size
    → drop prefix (take total xs) ≡ take size (drop prefix xs)
drop-take zero size total xs e = ap (λ n. take n xs) (omega (arith, e))
drop-take (suc prefix) size zero xs e = absurd (omega (arith, e))
drop-take (suc prefix) zero (suc total) [] e = refl
drop-take (suc prefix) (suc size) (suc total) [] e = refl
drop-take (suc prefix) size (suc total) (x ∷ xs) e =
    drop-take prefix size total xs (omega (arith, e))

drop-drop :
    (prefix offset total : ℕ) (xs : Bytes)
    → total ≡ offset + prefix
    → drop prefix (drop offset xs) ≡ drop total xs
drop-drop prefix zero total xs e = ap (λ n. drop n xs) (omega (arith, e))
drop-drop prefix (suc offset) zero xs e = absurd (omega (arith, e))
drop-drop zero (suc offset) (suc total) [] e = refl
drop-drop (suc prefix) (suc offset) (suc total) [] e = refl
drop-drop prefix (suc offset) (suc total) (x ∷ xs) e =
    drop-drop prefix offset total xs (omega (arith, e))

module _ (row : ℕ) (line : Bytes) where
  -- What was read of the current token.
  abbrev pub Scanning : StateId → Tokenizing → Type 0
  Scanning state_none s = IsLexed row line 0 s.tokens s.position
  Scanning state_name s =
      (s.token_start < s.position)
      × Between IsNameCharacter line s.token_start s.position
      × IsLexed row line 0 s.tokens s.token_start
  Scanning integer_dec s =
      (s.token_start < s.position)
      × Between (IsDigit 10) line s.token_start s.position
      × IsLexed row line 0 s.tokens s.token_start
  Scanning integer_bin s =
      (s.token_start + 2 ≤ s.position)
      × Between (IsDigit 2) line (s.token_start + 2) s.position
      × IsLexed row line 0 s.tokens s.token_start
  Scanning integer_oct s =
      (s.token_start + 2 ≤ s.position)
      × Between (IsDigit 8) line (s.token_start + 2) s.position
      × IsLexed row line 0 s.tokens s.token_start
  Scanning integer_hex s =
      (s.token_start + 2 ≤ s.position)
      × Between (IsDigit 16) line (s.token_start + 2) s.position
      × IsLexed row line 0 s.tokens s.token_start
  Scanning data_char s =
      (s.token_start + 2 ≤ s.position)
      × (s.token_start + 2 < s.position → is_empty s.data_char_value ≡ false)
      × IsLexed row line 0 s.tokens s.token_start
  Scanning data_hex s = (s.token_start + 2 ≤ s.position) × IsLexed row line 0 s.tokens s.token_start
  Scanning data_float s =
      (s.token_start + 2 ≤ s.position) × IsLexed row line 0 s.tokens s.token_start
  Scanning comment s = (s.token_start < s.position) × IsLexed row line 0 s.tokens s.token_start
  Scanning state_operator s = ⊥
  Scanning invalid s = ⊥

  -- A token that was put to the others.
  pub committed-IsLexed :
      (content : TokenContent) (size : ℕ) (s : Tokenizing)
      → 0 < size
      → s.token_start + size ≤ length line
      → IsContent (slice s.token_start size line) content
      → IsLexed row line 0 s.tokens s.token_start
      → IsLexed row line 0 (committed row line content size s).tokens (s.token_start + size)
  committed-IsLexed content size s h k c v =
      IsLexed-token row line 0 (s.token_start + size) s.tokens
        (token_of row line content s.token_start size) (refl, h, k, refl, c) refl v

  -- The position stays, and at the end of the line nothing is left of a token.
  abbrev pub Stopped : Tokenizing → Tokenizing → Type 0
  Stopped s t =
      (t.position ≡ s.position)
      × Scanning t.state_id t
      × (s.position ≡ length line → t.state_id ≡ state_none)

  -- A token from its start to the position.
  Stopped-token :
      (content : TokenContent) (s : Tokenizing)
      → s.token_start < s.position
      → s.position ≤ length line
      → IsContent (slice s.token_start (s.position - s.token_start) line) content
      → IsLexed row line 0 s.tokens s.token_start
      → Stopped s (committed row line content (s.position - s.token_start) s)
  Stopped-token content s h k c v =
      let whole : s.token_start + (s.position - s.token_start) ≡ s.position = omega arith in
      (
        refl,
        subst
            (IsLexed row line 0 (committed row line content (s.position - s.token_start) s).tokens)
            whole
            (committed-IsLexed content (s.position - s.token_start) s (omega arith) (omega arith) c
              v),
        λ e. refl,
      )

  keep_integer-Returns :
      (read : ℕ × Bool) (s : Tokenizing)
      → read.1 ≡ true
      → s.token_start < s.position
      → s.position ≤ length line
      → IsLexed row line 0 s.tokens s.token_start
      → Returns (Stopped s) (keep_integer row line read s)
  keep_integer-Returns (n, at_end) s e h k v = elim (Bool-cases (ltb 0xffff_ffff n)) [
    | inl f ↦ rw f tt
    | inr f ↦ rw (f, e) (Stopped-token (integer_token n) s h k (ground arith) v)
  ]

  commit_digits-Returns :
      (base prefix : ℕ) (s : Tokenizing)
      → s.token_start < s.position
      → s.token_start + prefix ≤ s.position
      → s.position ≤ length line
      → Between (IsDigit base) line (s.token_start + prefix) s.position
      → IsLexed row line 0 s.tokens s.token_start
      → Returns (Stopped s) (commit_digits row line base prefix s)
  unfolding commit_digits
  commit_digits-Returns base prefix s h p k d v =
      let size = s.position - s.token_start in
      let text = drop prefix (slice s.token_start size line) in
      let parts : size ≡ prefix + (s.position - (s.token_start + prefix)) = omega arith in
      let same : text
          ≡ slice (s.token_start + prefix) (s.position - (s.token_start + prefix)) line =
        ap (λ n. drop prefix (slice s.token_start n line)) parts
        ∙ drop-take prefix (s.position - (s.token_start + prefix))
            (prefix + (s.position - (s.token_start + prefix))) (drop s.token_start line) refl
        ∙ ap (take (s.position - (s.token_start + prefix)))
            (drop-drop prefix s.token_start (s.token_start + prefix) line refl) in
      let whole = strtoull_whole base text 0 (subst (All (IsDigit base)) (sym same) d) in
      elim (Bool-cases (ltb 0 prefix && leb size prefix)) [
        | inl e ↦ rw e tt
        | inr e ↦ rw e (keep_integer-Returns (strtoull base text 0) s whole h k v)
      ]

  module _ (fpu : Fpu) (strtod : Bytes → fpu.Double × ℕ) where
    commit_stopped-Returns :
        (state : StateId) (s : Tokenizing)
        → s.state_id ≡ state
        → s.position ≤ length line
        → Scanning state s
        → Returns (Stopped s) (commit_stopped row line fpu strtod state s)
    unfolding commit_stopped
    commit_stopped-Returns state_none s e h v = (refl, subst (λ t. Scanning t s) (sym e) v, λ _. e)
    commit_stopped-Returns state_name s e h v =
        Stopped-token (name_token (slice s.token_start (s.position - s.token_start) line)) s v.0 h
          (refl, v.1) v.2
    commit_stopped-Returns integer_dec s e h v = rw e (
        commit_digits-Returns 10 0 s v.0 (omega (arith, v.0)) h
          (subst (λ n. Between (IsDigit 10) line n s.position) (omega arith) v.1) v.2)
    commit_stopped-Returns integer_bin s e h v =
        rw e (commit_digits-Returns 2 2 s (omega (arith, v.0)) v.0 h v.1 v.2)
    commit_stopped-Returns integer_oct s e h v =
        rw e (commit_digits-Returns 8 2 s (omega (arith, v.0)) v.0 h v.1 v.2)
    commit_stopped-Returns integer_hex s e h v =
        rw e (commit_digits-Returns 16 2 s (omega (arith, v.0)) v.0 h v.1 v.2)
    commit_stopped-Returns data_char s e h v = tt
    commit_stopped-Returns data_hex s e h v = tt
    commit_stopped-Returns data_float s e h v = tt
    commit_stopped-Returns comment s e h v = Stopped-token comment_token s v.0 h tt v.1
    commit_stopped-Returns state_operator s e h v = elim v [ ]
    commit_stopped-Returns invalid s e h v = elim v [ ]

    pub stop_token-Returns :
        (s : Tokenizing)
        → s.position ≤ length line
        → Scanning s.state_id s
        → Returns (Stopped s) (stop_token row line fpu strtod s)
    stop_token-Returns s h v = elim (Bool-cases (stops row line fpu strtod s)) [
      | inl e ↦ rw e (commit_stopped-Returns s.state_id s refl h v)
      | inr e ↦ rw e (
        refl,
        v,
        λ f. absurd (
            let same : (s.position == length line) ≡ true = ground arith in
            let no = rw same at e in cc),
      )
    ]
