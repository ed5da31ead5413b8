-- ===== src/Object/Load/Outcome.antt =====
-- The numbers of the object file after each section.
use sicxe.Base.{
  All-append_one, ℕ, ◌+◌, ◌-◌, ◌*◌, ◌/◌, ◌%◌, ◌^◌, ◌<◌, ◌≤◌, ◌≡◌, subst, some, ◌&&◌, ◌||◌, ◌==◌,
  leb, length, drop, All, arith,
}
use mathlib.Core.Option.{some-injective}
use sicxe.Base.Text.{Bytes}
use sicxe.Base.Options.{steps, split}
use sicxe.Object.{TextSection, RelocationSection, ObjectFile}
use sicxe.Object.Load.{
  hex_at, name_at, parse_start_section, parse_end_section, parse_bytes, parse_text_section,
  parse_exports, parse_symbol_export_section, parse_imports, parse_symbol_import_section,
  parse_reference, parse_relocation_section,
}
use sicxe.Object.Load.Bounds.{
  hex_at_six-Bounded, passed, parse_bytes-Bounded, parse_exports-Bounded,
}

-- Addresses are of 24 bits, and text sections of at most 31 bytes.
abbrev pub IsLoaded : ObjectFile → Type 0
IsLoaded file =
    (file.start_address < 2 ^ 24)
    × (file.code_size < 2 ^ 24)
    × (file.entry_point < 2 ^ 24)
    × All
        (λ (s : TextSection).
          (s.address < 2 ^ 24) × (length s.data_bytes ≤ 31) × All (λ b. b < 2 ^ 8) s.data_bytes)
        file.text_sections
    × All (All (λ (symbol : Bytes × ℕ). symbol.1 < 2 ^ 24)) file.export_sections
    × All (λ (s : RelocationSection). (s.address < 2 ^ 24) × (s.nibbles < 2 ^ 8))
        file.relocation_sections

pub parse_start_section-IsLoaded :
    (line : Bytes) (file parsed : ObjectFile)
    → IsLoaded file
    → parse_start_section line file ≡ some parsed
    → IsLoaded parsed
unfolding parse_start_section
parse_start_section-IsLoaded line file parsed v h =
    elim (split (name_at 1 6 line) _ parsed (passed (length line == 19) _ parsed h).1) [
      | steps name e k ↦ elim (split (hex_at 7 6 line) _ parsed k) [
        | steps start f j ↦ elim (split (hex_at 13 6 line) _ parsed j) [
          | steps size g i ↦ subst IsLoaded (some-injective _ parsed i) (
            hex_at_six-Bounded 7 line start f,
            hex_at_six-Bounded 13 line size g,
            v.2,
            v.3,
            v.4,
            v.5,
          )
        ]
      ]
    ]

pub parse_end_section-IsLoaded :
    (line : Bytes) (file parsed : ObjectFile)
    → IsLoaded file
    → parse_end_section line file ≡ some parsed
    → IsLoaded parsed
unfolding parse_end_section
parse_end_section-IsLoaded line file parsed v h =
    elim (split (hex_at 1 6 line) _ parsed (passed (length line == 7) _ parsed h).1) [
      | steps entry e k ↦
          subst IsLoaded (some-injective _ parsed k)
            (v.0, v.1, hex_at_six-Bounded 1 line entry e, v.3, v.4, v.5)
    ]

pub parse_text_section-IsLoaded :
    (line : Bytes) (file parsed : ObjectFile)
    → IsLoaded file
    → parse_text_section line file ≡ some parsed
    → IsLoaded parsed
unfolding parse_text_section
parse_text_section-IsLoaded line file parsed v h =
    elim (split (hex_at 1 6 line) _ parsed (passed (leb 9 (length line)) _ parsed h).1) [
      | steps address e k ↦ elim (split (hex_at 7 2 line) _ parsed k) [
        | steps size f j ↦
            let (fits, next) = passed (leb size 31 && 2 * size + 9 == length line) _ parsed j in
            elim (split (parse_bytes size (drop 9 line)) _ parsed next) [
              | steps bytes g i ↦
                  let (count, small) = parse_bytes-Bounded size (drop 9 line) bytes g in
                  subst IsLoaded (some-injective _ parsed i) (
                    v.0,
                    v.1,
                    v.2,
                    All-append_one _ file.text_sections _ v.3
                        (hex_at_six-Bounded 1 line address e, ground (arith, count), small),
                    v.4,
                    v.5,
                  )
            ]
      ]
    ]

pub parse_symbol_export_section-IsLoaded :
    (line : Bytes) (file parsed : ObjectFile)
    → IsLoaded file
    → parse_symbol_export_section line file ≡ some parsed
    → IsLoaded parsed
unfolding parse_symbol_export_section
parse_symbol_export_section-IsLoaded line file parsed v h =
    let count = (length line - 1) / 12 in
    elim (split (parse_exports count (drop 1 line)) _ parsed
      (passed ((length line - 1) % 12 == 0) _ parsed h).1) [
        | steps symbols e k ↦ subst IsLoaded (some-injective _ parsed k) (
          v.0,
          v.1,
          v.2,
          v.3,
          All-append_one _ file.export_sections symbols v.4
              (parse_exports-Bounded count (drop 1 line) symbols e),
          v.5,
        )
      ]

pub parse_symbol_import_section-IsLoaded :
    (line : Bytes) (file parsed : ObjectFile)
    → IsLoaded file
    → parse_symbol_import_section line file ≡ some parsed
    → IsLoaded parsed
unfolding parse_symbol_import_section
parse_symbol_import_section-IsLoaded line file parsed v h =
    elim (split (parse_imports ((length line - 1) / 6) (drop 1 line)) _ parsed
      (passed ((length line - 1) % 6 == 0) _ parsed h).1) [
        | steps symbols e k ↦ subst IsLoaded (some-injective _ parsed k) v
      ]

pub parse_relocation_section-IsLoaded :
    (line : Bytes) (file parsed : ObjectFile)
    → IsLoaded file
    → parse_relocation_section line file ≡ some parsed
    → IsLoaded parsed
unfolding parse_relocation_section
parse_relocation_section-IsLoaded line file parsed v h =
    elim (split (hex_at 1 6 line) _ parsed
      (passed (length line == 9 || length line == 16) _ parsed h).1) [
        | steps address e k ↦ elim (split (hex_at 7 2 line) _ parsed k) [
          | steps nibbles f j ↦ elim (split (parse_reference line) _ parsed j) [
            | steps reference g i ↦ subst IsLoaded (some-injective _ parsed i) (
              v.0,
              v.1,
              v.2,
              v.3,
              v.4,
              All-append_one _ file.relocation_sections _ v.5
                  (hex_at_six-Bounded 1 line address e, omega arith),
            )
          ]
        ]
      ]
