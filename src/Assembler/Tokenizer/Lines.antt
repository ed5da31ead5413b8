-- ===== src/Assembler/Tokenizer/Lines.antt =====
-- `TokenizeLine` as a whole.
use sicxe.Base.{
  ℕ, zero, suc, ◌+◌, ◌<◌, ◌≤◌, ◌≡◌, refl, subst, ◌==◌, List, [], length, inl, inr, Bool-cases,
  arith,
}
use sicxe.Base.Text.{Bytes}
use sicxe.Machine.Float.{Fpu}
use sicxe.Assembler.Token.{Token}
use sicxe.Assembler.Outcome.{Returns, Returns-bind}
use sicxe.Assembler.Tokenizer.{state_none, Tokenizing}
use sicxe.Assembler.Tokenizer.Scan.{stop_token, process, tokenize_from, tokenize_line}
use sicxe.Assembler.Tokenizer.Lexed.{IsBlank, Between_none, IsLexed}
use sicxe.Assembler.Tokenizer.Stop.{Scanning, Stopped, stop_token-Returns}
use sicxe.Assembler.Tokenizer.Start.{Goes}
use sicxe.Assembler.Tokenizer.Advance.{process-Returns}

module _ (row : ℕ) (line : Bytes) (fpu : Fpu) (strtod : Bytes → fpu.Double × ℕ) where
  -- The tokens of the whole line.
  abbrev Whole : List Token → Type 0
  Whole tokens = IsLexed row line 0 tokens (length line)

  tokenize_from-Returns :
      (fuel : ℕ) (s : Tokenizing)
      → s.position ≤ length line
      → length line < fuel + s.position
      → Scanning row line s.state_id s
      → Returns Whole (tokenize_from row line fpu strtod fuel s)
  unfolding tokenize_from
  tokenize_from-Returns zero s h k v = absurd (omega (arith, h, k))
  tokenize_from-Returns (suc fuel) s h k v =
      Returns-bind (Stopped row line s) Whole (stop_token row line fpu strtod s) _
        (stop_token-Returns row line fpu strtod s h v)
        λ t (same, scanning, done). elim (Bool-cases (s.position == length line)) [
          | inl e ↦
              let at_end : s.position ≡ length line = ground arith in
              rw e (
                subst (IsLexed row line 0 t.tokens) (omega (arith, same, at_end))
                  (subst (λ state. Scanning row line state t) (done at_end) scanning))
          | inr e ↦ rw e (
              Returns-bind (Goes row line t) Whole (process row line fpu strtod t.state_id t)
                (λ u.
                  tokenize_from row line fpu strtod fuel (record u { position = u.position + 1 }))
                (process-Returns row line fpu strtod t.state_id t refl (ground arith) scanning)
                λ u (later, inside, next).
                  tokenize_from-Returns fuel (record u { position = u.position + 1 }) inside
                    (omega (arith, k, same, later)) next)
        ]

-- `TokenizeLine` ends, fails no assertion, and gives an error or tokens. The tokens are in the order of
-- the line, with nothing but spaces and tabs around them, each with the part of the line at its
-- position as its value: a name has only characters of names, an operator is the one of its character,
-- an integer has 32 bits, binary data has at least one byte and float data has six.
pub tokenize_line-Returns :
    (row : ℕ) (line : Bytes) (fpu : Fpu) (strtod : Bytes → fpu.Double × ℕ)
    → Returns
        (λ tokens. IsLexed row line 0 tokens (length line))
        (tokenize_line row line fpu strtod)
unfolding tokenize_line
tokenize_line-Returns row line fpu strtod =
    tokenize_from-Returns row line fpu strtod (suc (length line))
      (record {
        state_id = state_none;
        token_start = 0;
        position = 0;
        data_char_value = [];
        tokens = [];
      })
      (omega arith) (omega arith) (omega arith, Between_none IsBlank line 0 0 (omega arith))
