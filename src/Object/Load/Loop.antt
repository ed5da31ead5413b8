-- ===== src/Object/Load/Loop.antt =====
-- How `LoadFile` ends.
use sicxe.Base.{
  ℕ, ◌+◌, ◌≡◌, refl, sym, subst, Bool, true, false, Option, none, some, List, [], ◌∷◌, ◌==◌,
  is_empty, if◌then◌else◌, inl, inr, Bool-cases, arith,
}
use mathlib.Core.Option.{some-injective}
use sicxe.Base.Text.{Bytes}
use sicxe.Base.Options.{◌>>=◌, steps, split}
use sicxe.Base.Run.{Run, value, undefined, assertion_failed, Asserts}
use sicxe.Object.{ObjectFile, cleared}
use sicxe.Object.Load.{
  guard, parse_start_section, parse_end_section, parse_text_section, parse_symbol_export_section,
  parse_symbol_import_section, parse_relocation_section, Loading, store_file, parse_line, chomp,
  load_lines, LoadResult, ok, open_failed, invalid_format, is_framed, finish_load, finish_run,
  load_file,
}
use sicxe.Object.Load.Bounds.{passed}
use sicxe.Object.Load.Outcome.{
  IsLoaded, parse_start_section-IsLoaded, parse_end_section-IsLoaded, parse_text_section-IsLoaded,
  parse_symbol_export_section-IsLoaded, parse_symbol_import_section-IsLoaded,
  parse_relocation_section-IsLoaded,
}

store_file-IsLoaded :
    (s t : Loading) (parsed : Option ObjectFile)
    → ((file : ObjectFile) → parsed ≡ some file → IsLoaded file)
    → store_file s parsed ≡ some t
    → IsLoaded t.file
store_file-IsLoaded s t none v h = cc
store_file-IsLoaded s t (some file) v h =
    subst (λ (l : Loading). IsLoaded l.file) (some-injective _ t h) (v file refl)

-- A start section, or an end section.
framed-IsLoaded :
    (free : Bool) (parsed : Option ObjectFile) (place : ObjectFile → Loading) (t : Loading)
    → ((file : ObjectFile) → (place file).file ≡ file)
    → ((file : ObjectFile) → parsed ≡ some file → IsLoaded file)
    → guard free (parsed >>= λ file. some (place file)) ≡ some t
    → IsLoaded t.file
framed-IsLoaded free parsed place t same v h =
    elim (split parsed (λ file. some (place file)) t (passed free _ t h).1) [
      | steps file e k ↦
          subst (λ (l : Loading). IsLoaded l.file) (some-injective (place file) t k)
            (subst IsLoaded (sym (same file)) (v file e))
    ]

chosen-IsLoaded :
    (test : Bool) (a b : Option Loading) (t : Loading)
    → (a ≡ some t → IsLoaded t.file)
    → (b ≡ some t → IsLoaded t.file)
    → (if test then a else b) ≡ some t
    → IsLoaded t.file
chosen-IsLoaded true a b t v w h = v h
chosen-IsLoaded false a b t v w h = w h

parse_line-IsLoaded :
    (text : Bytes) (line : ℕ) (s t : Loading)
    → IsLoaded s.file
    → parse_line text line s ≡ some t
    → IsLoaded t.file
unfolding parse_line
parse_line-IsLoaded [] line s t v h = cc
parse_line-IsLoaded (c ∷ rest) line s t v h =
    let text = c ∷ rest in
    chosen-IsLoaded (c == 72) _ _ t
      (framed-IsLoaded _ (parse_start_section text s.file)
        (λ file. record s { file = file; start_position = some line }) t (λ file. refl)
        (λ file. parse_start_section-IsLoaded text s.file file v))
      (chosen-IsLoaded (c == 69) _ _ t
        (framed-IsLoaded _ (parse_end_section text s.file)
          (λ file. record s { file = file; end_position = some line }) t (λ file. refl)
          (λ file. parse_end_section-IsLoaded text s.file file v))
        (chosen-IsLoaded (c == 84) _ _ t
          (store_file-IsLoaded s t (parse_text_section text s.file)
            (λ file. parse_text_section-IsLoaded text s.file file v))
          (chosen-IsLoaded (c == 68) _ _ t
            (store_file-IsLoaded s t (parse_symbol_export_section text s.file)
              (λ file. parse_symbol_export_section-IsLoaded text s.file file v))
            (chosen-IsLoaded (c == 82) _ _ t
              (store_file-IsLoaded s t (parse_symbol_import_section text s.file)
                (λ file. parse_symbol_import_section-IsLoaded text s.file file v))
              (chosen-IsLoaded (c == 77) _ _ t
                (store_file-IsLoaded s t (parse_relocation_section text s.file)
                  (λ file. parse_relocation_section-IsLoaded text s.file file v))
                (λ k. absurd (cc)))))))
      h

-- What the loop leaves.
abbrev StaysLoaded : Option (ℕ × Loading) → Type 0
StaysLoaded none = Unit
StaysLoaded (some (lines, s)) = IsLoaded s.file

after_line-Asserts :
    (parsed : Option Loading) (next : Loading → Run (Option (ℕ × Loading)))
    → ((t : Loading) → parsed ≡ some t → Asserts StaysLoaded (next t))
    → Asserts StaysLoaded (elim parsed [ none ↦ value none | some t ↦ next t ])
after_line-Asserts none next v = tt
after_line-Asserts (some t) next v = v t refl

load_lines-Asserts :
    (texts : List Bytes) (line : ℕ) (s : Loading)
    → IsLoaded s.file
    → Asserts StaysLoaded (load_lines texts line s)
unfolding load_lines
load_lines-Asserts [] line s v = v
load_lines-Asserts (text ∷ rest) line s v = elim (Bool-cases (is_empty text)) [
  | inl e ↦ rw e tt
  | inr e ↦ rw e (
      after_line-Asserts (parse_line (chomp text) line s) (load_lines rest (line + 1)) (λ t h.
        load_lines-Asserts rest (line + 1) t (parse_line-IsLoaded (chomp text) line s t v h)))
]

-- The result, and the object file.
abbrev pub Leaves : ObjectFile → LoadResult × ObjectFile → Type 0
Leaves old (ok, file) = IsLoaded file
Leaves old (open_failed, file) = file ≡ old
Leaves old (invalid_format, file) = file ≡ cleared

finish_load-Leaves :
    (old : ObjectFile) (r : Option (ℕ × Loading)) → StaysLoaded r → Leaves old (finish_load r)
unfolding finish_load
finish_load-Leaves old none v = refl
finish_load-Leaves old (some (lines, s)) v =
    elim (Bool-cases (is_framed lines s.start_position s.end_position)) [
      | inl e ↦ rw e v
      | inr e ↦ rw e refl
    ]

finish_run-Asserts :
    (old : ObjectFile) (r : Run (Option (ℕ × Loading)))
    → Asserts StaysLoaded r
    → Asserts (Leaves old) (finish_run r)
finish_run-Asserts old (value r) v = finish_load-Leaves old r v
finish_run-Asserts old undefined v = tt
finish_run-Asserts old assertion_failed v = v

-- `LoadFile` fails no assertion, on any strings. Where none of those that it gets to is empty, an
-- object file that it loads has a start address, a code size, an entry point and addresses of sections
-- and symbols of 24 bits, text sections of at most 31 bytes, and widths of relocations of one byte;
-- where the file cannot be opened, the object file stays as it was, and where its format is invalid,
-- the object file is the one with nothing in it.
pub load_file-Asserts :
    (name : Bytes) (texts : Option (List Bytes)) (old : ObjectFile)
    → Asserts (Leaves old) (load_file name texts old)
unfolding load_file cleared
load_file-Asserts name none old = refl
load_file-Asserts name (some texts) old =
    finish_run-Asserts old _
      (load_lines-Asserts texts 0 _ (omega arith, omega arith, omega arith, tt, tt, tt))
