-- ===== src/Assembler/Parser/Programs.antt =====
-- The files that `ParseFile` accepts.
use mathlib.Core.List.{append_assoc, append-nil}
use sicxe.Base.{
  ℕ, ◌+◌, ◌≡◌, refl, sym, ◌∙◌, subst, true, false, Option, none, some, List, [], ◌∷◌, ◌++◌, All,
  All-append_one, length, inl, inr, Bool-cases,
}
use sicxe.Base.Text.{Bytes}
use sicxe.Machine.Float.{Fpu}
use sicxe.Assembler.Token.{Token}
use sicxe.Assembler.Errors.{
  Message, code_before_start, second_start, code_after_end, no_end, PositionedError,
}
use sicxe.Assembler.Outcome.{
  Outcome, value, failed, undefined, assertion_failed, out_of_fuel, Returns, Returns-bind, ◌>>=◌,
}
use sicxe.Assembler.Node.{NodeBody, Node}
use sicxe.Assembler.Tokenizer.Lexed.{IsLexed}
use sicxe.Assembler.Tokenizer.Scan.{tokenize_line}
use sicxe.Assembler.Tokenizer.Lines.{tokenize_line-Returns}
use sicxe.Assembler.Parser.Nodes.{IsPresent, IsNode}
use sicxe.Assembler.Parser.Lines.{Config, parse_line}
use sicxe.Assembler.Parser.Accepted.{HasSyntaxes, parse_line-Returns}
use sicxe.Assembler.Parser.Files.{
  Parsing, mnemonic_or, is_empty_node, is_start_node, is_end_node, error_at, error_at_mnemonic,
  check_start, check_end, add_node, after_line, finish_file, parse_lines, parse_file,
}
use sicxe.Assembler.Parser.Shape.{
  IsProgram, Expected, Starts, Ends, start-not_empty, Follows, node-Follows, mnemonic_or-IsPresent,
}

-- An error at a mnemonic that is there.
error_at-Returns :
    (P : Parsing → Type 0) (message : Message) (s : Parsing) (last : Option Token)
    → IsPresent last
    → ((errors : List PositionedError) → P (record s { success = false; errors = errors }))
    → Returns P (error_at message s last)
error_at-Returns P message s none h f = elim h [ ]
error_at-Returns P message s (some t) h f = f _

module _ (body : NodeBody) where
  -- The mnemonic, where it can be asked for.
  abbrev HasMnemonic : Parsing → Type 0
  HasMnemonic s =
      (is_empty_node body ≡ false → IsPresent s.last_mnemonic)
      × (s.seen_start ≡ true → IsPresent s.last_mnemonic)

  abbrev Started : Parsing → Parsing → Type 0
  Started s u =
      (u.nodes ≡ s.nodes)
      × (u.seen_end ≡ s.seen_end)
      × HasMnemonic u
      × (u.success ≡ true → Starts s.seen_start u.seen_start body)

  abbrev Ended : Parsing → Parsing → Type 0
  Ended s u =
      (u.nodes ≡ s.nodes)
      × (u.seen_start ≡ true → IsPresent u.last_mnemonic)
      × (u.success ≡ true → Starts s.seen_start u.seen_start body × Ends s.seen_end u.seen_end body)

  check_start-Returns : (s : Parsing) → HasMnemonic s → Returns (Started s) (check_start body s)
  unfolding check_start
  check_start-Returns s m = elim (Bool-cases s.seen_start) [
    | inl e ↦ elim (Bool-cases (is_start_node body)) [
      | inl f ↦
          simp (e, f)
            (error_at-Returns (Started s) second_start s s.last_mnemonic (m.1 e)
              λ errors. (refl, refl, m, λ k. absurd (cc)))
      | inr f ↦ simp (e, f) (refl, refl, (m.0, λ k. m.1 e), λ k. refl)
    ]
    | inr e ↦ elim (Bool-cases (is_start_node body)) [
      | inl f ↦ simp (e, f) (refl, refl, (m.0, λ k. m.0 (start-not_empty body f)), λ k. refl)
      | inr f ↦ elim (Bool-cases (is_empty_node body)) [
        | inl g ↦ simp (e, f, g) (refl, refl, (λ k. absurd (cc), λ k. absurd (cc)), λ k. refl)
        | inr g ↦
            simp (e, f, g)
              (error_at-Returns (Started s) code_before_start s s.last_mnemonic (m.0 g)
                λ errors. (refl, refl, m, λ k. absurd (cc)))
      ]
    ]
  ]

  check_end-Returns : (s u : Parsing) → Started s u → Returns (Ended s) (check_end body u)
  unfolding check_end
  check_end-Returns s u (same, before, m, started) = elim (Bool-cases u.seen_end) [
    | inr e ↦ elim (Bool-cases (is_end_node body)) [
      | inl f ↦ simp (e, f) (same, m.1, λ k. (started k, simp (sym before ∙ e) f))
      | inr f ↦ simp (e, f) (same, m.1, λ k. (started k, simp (sym before ∙ e) f))
    ]
    | inl e ↦ elim (Bool-cases (is_empty_node body)) [
      | inl f ↦ simp (e, f) (same, m.1, λ k. (started k, simp (sym before ∙ e) f))
      | inr f ↦
          simp (e, f)
            (error_at-Returns (Ended s) code_after_end u u.last_mnemonic (m.0 f)
              λ errors. (same, m.1, λ k. absurd (cc)))
    ]
  ]

-- The nodes so far, where there was no error, begin a program.
abbrev Sound : Parsing → Type 0
Sound s =
    (s.seen_end ≡ true → s.seen_start ≡ true)
    × ((rest : List Node) → Expected s.seen_start s.seen_end rest → IsProgram (s.nodes ++ rest))
    × All IsNode s.nodes

abbrev IsGood : Parsing → Type 0
IsGood s = (s.seen_start ≡ true → IsPresent s.last_mnemonic) × (s.success ≡ true → Sound s)

-- A node after the others.
added-Sound :
    (s u : Parsing) (node : Node)
    → IsNode node
    → Sound s
    → u.nodes ≡ s.nodes
    → Follows s.seen_start s.seen_end u.seen_start u.seen_end node
    → Sound (record u { nodes = u.nodes ++ node ∷ [] })
added-Sound s u node v sound same follows = (
  follows.0,
  λ rest expected. subst IsProgram (sym (append_assoc u.nodes (node ∷ []) rest)) (
      subst (λ nodes. IsProgram (nodes ++ node ∷ rest)) (sym same)
        (sound.1 (node ∷ rest) (follows.1 rest expected))),
  All-append_one IsNode u.nodes node (subst (All IsNode) (sym same) sound.2) v,
)

add_node-IsGood :
    (node : Node) (s : Parsing) → IsNode node → IsGood s → Returns IsGood (add_node node s)
unfolding add_node
add_node-IsGood node s v good =
    let last = mnemonic_or s.last_mnemonic node.body in
    let t : Parsing = record s { success = true; last_mnemonic = last } in
    elim (Bool-cases s.success) [
      | inr e ↦
          simp e
            (λ k. mnemonic_or-IsPresent s.last_mnemonic node.body (λ _. good.0 k), λ k. absurd (cc))
      | inl e ↦ simp e (
          Returns-bind (Ended node.body t) IsGood (check_start node.body t >>= check_end node.body)
            (λ u. value (record u { nodes = u.nodes ++ node ∷ [] }))
            (Returns-bind (Started node.body t) (Ended node.body t) (check_start node.body t)
              (check_end node.body)
              (check_start-Returns node.body t (
                λ k.
                    mnemonic_or-IsPresent s.last_mnemonic node.body
                      (λ h. absurd (let no = k in cc)),
                λ k. mnemonic_or-IsPresent s.last_mnemonic node.body (λ _. good.0 k),
              ))
              λ u started. check_end-Returns node.body t u started)
            λ u ended. (
              ended.1,
              λ k. added-Sound s u node v (good.1 e) ended.0 (
                  node-Follows s.seen_start u.seen_start s.seen_end u.seen_end node (ended.2 k).0
                    (ended.2 k).1 (good.1 e).0),
            ))
    ]

after_line-IsGood :
    (s : Parsing) (r : Outcome PositionedError Node)
    → Returns IsNode r
    → IsGood s
    → Returns IsGood (after_line s r)
after_line-IsGood s (value node) v good = add_node-IsGood node s v good
after_line-IsGood s (failed errors) v good = (good.0, λ k. absurd (cc))
after_line-IsGood s undefined v good = elim v [ ]
after_line-IsGood s assertion_failed v good = elim v [ ]
after_line-IsGood s out_of_fuel v good = elim v [ ]

-- What a file must be for `ParseFile` to accept it.
abbrev pub IsAccepted : List Node → Type 0
IsAccepted nodes = IsProgram nodes × All IsNode nodes

finish_file-Returns : (s : Parsing) → IsGood s → Returns IsAccepted (finish_file s)
unfolding finish_file
finish_file-Returns s good = elim (Bool-cases s.success) [
  | inr e ↦ simp e tt
  | inl e ↦ elim (Bool-cases s.seen_start) [
    | inr f ↦ simp (e, f) tt
    | inl f ↦ elim (Bool-cases s.seen_end) [
      | inl g ↦
          simp (e, f, g)
            (subst IsProgram (append-nil s.nodes) ((good.1 e).1 [] (simp (f, g) tt)), (good.1 e).2)
      | inr g ↦
          simp (e, f, g)
            (Returns-bind (λ t. Unit) IsAccepted (error_at_mnemonic no_end s) _
              (error_at-Returns (λ t. Unit) no_end s s.last_mnemonic (good.0 f) (λ errors. tt))
              (λ t _. tt))
    ]
  ]
]

module _ (config : Config) (fpu : Fpu) (strtod : Bytes → fpu.Double × ℕ) where
  parse_lines-Returns :
      (row : ℕ) (lines : List Bytes) (s : Parsing)
      → HasSyntaxes config.instruction_db
      → IsGood s
      → Returns IsGood (parse_lines config fpu strtod row lines s)
  unfolding parse_lines
  parse_lines-Returns row [] s v good = good
  parse_lines-Returns row (line ∷ rest) s v good =
      let parsed = tokenize_line row line fpu strtod >>= parse_line config in
      Returns-bind IsGood IsGood (after_line s parsed) _
        (after_line-IsGood s parsed
          (Returns-bind (λ tokens. IsLexed row line 0 tokens (length line)) IsNode
            (tokenize_line row line fpu strtod) (parse_line config)
            (tokenize_line-Returns row line fpu strtod)
            (λ tokens _. parse_line-Returns config tokens v))
          good)
        (λ t later. parse_lines-Returns (row + 1) rest t v later)

  -- With a table of instructions in which those of format 3/4 have a syntax of that format, `ParseFile`
  -- ends on the lines of any file, fails no assertion, never asks for a token or for a mnemonic that is not
  -- there, and gives errors or well-formed nodes. The nodes are empty ones, then START, then others that
  -- are not START or END, then END, and then empty ones.
  pub parse_file-Returns :
      (lines : List Bytes)
      → HasSyntaxes config.instruction_db
      → Returns IsAccepted (parse_file config fpu strtod lines)
  unfolding parse_file
  parse_file-Returns lines v =
      Returns-bind IsGood IsAccepted (parse_lines config fpu strtod 0 lines _) finish_file
        (parse_lines-Returns 0 lines _ v
          (λ k. absurd (cc), λ _. (λ k. absurd (cc), λ rest program. program, tt)))
        finish_file-Returns
