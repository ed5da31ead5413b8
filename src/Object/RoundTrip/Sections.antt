-- ===== src/Object/RoundTrip/Sections.antt =====
-- Each section that `SaveFile` prints is parsed to what was printed.
use sicxe.Base.{
  ℕ, suc, ◌+◌, ◌*◌, ◌%◌, ◌^◌, ◌<◌, ◌≤◌, ◌≡◌, refl, sym, ap, ◌∙◌, Bool, true, ◌&&◌, ◌==◌, leb,
  Option, some, List, [], ◌∷◌, ◌++◌, All, length, length-append, take, take-append, take_all,
  drop-append, slice, arith,
}
use mathlib.Core.List.{append_assoc, append-nil}
use sicxe.Base.Text.{Bytes}
use sicxe.Base.Options.{known}
use sicxe.Object.{TextSection, ObjectFile}
use sicxe.Object.Text.{parse_hex, hex_padded, name_padded, parse_symbol_name}
use sicxe.Object.Text.Laws.{
  IsName, length-hex_padded, parse_hex-hex_padded_six, parse_hex-hex_padded_two, length-name_padded,
  parse_symbol_name-name_padded,
}
use sicxe.Object.Load.{
  hex_at, name_at, guard, parse_start_section, parse_end_section, parse_bytes, parse_text_section,
}
use sicxe.Object.Save.{start_line, bytes_text, text_line, end_line}

-- A field after `offset` bytes of a line.
pub slice-append :
    (offset width : ℕ) (front field rest : Bytes)
    → length front ≡ offset
    → length field ≡ width
    → slice offset width (front ++ (field ++ rest)) ≡ field
slice-append offset width front field rest h k =
    ap (take width) (drop-append offset 0 offset front (field ++ rest) h (omega arith))
    ∙ take-append width field rest k

pub hex_at_six :
    (offset shown n : ℕ) (front rest : Bytes)
    → length front ≡ offset
    → shown ≡ n
    → n < 2 ^ 24
    → hex_at offset 6 (front ++ (hex_padded 6 shown ++ rest)) ≡ some n
hex_at_six offset shown n front rest h e k = rw e (
    ap (λ t. parse_hex t 0)
      (slice-append offset 6 front (hex_padded 6 n) rest h (length-hex_padded 6 n k))
    ∙ parse_hex-hex_padded_six n k)

pub hex_at_two :
    (offset shown n : ℕ) (front rest : Bytes)
    → length front ≡ offset
    → shown ≡ n
    → n < 2 ^ 8
    → hex_at offset 2 (front ++ (hex_padded 2 shown ++ rest)) ≡ some n
hex_at_two offset shown n front rest h e k = rw e (
    ap (λ t. parse_hex t 0)
      (slice-append offset 2 front (hex_padded 2 n) rest h (length-hex_padded 2 n k))
    ∙ parse_hex-hex_padded_two n k)

pub name_at_lem :
    (offset : ℕ) (front name rest : Bytes)
    → length front ≡ offset
    → IsName name
    → name_at offset 6 (front ++ (name_padded name ++ rest)) ≡ some name
name_at_lem offset front name rest h v =
    ap parse_symbol_name
      (slice-append offset 6 front (name_padded name) rest h (length-name_padded name v))
    ∙ parse_symbol_name-name_padded name v

pub guarded :
    {A : Type 0} (test : Bool) (next result : Option A)
    → test ≡ true
    → next ≡ result
    → guard test next ≡ result
guarded test next result e h = rw e h

-- Without the last part.
pub ended_part : (front part : Bytes) → front ++ part ≡ front ++ (part ++ [])
ended_part front part = ap (λ t. front ++ t) (sym (append-nil part))

-- The length of two parts.
pub lengths :
    {A : Type 0} (m n : ℕ) (xs ys : List A)
    → length xs ≡ m
    → length ys ≡ n
    → length (xs ++ ys) ≡ m + n
lengths m n xs ys h k = omega (arith, length-append xs ys, h, k)

pub parse_start_section_lem :
    (file saved : ObjectFile)
    → IsName saved.program_name
    → saved.start_address < 2 ^ 20
    → saved.code_size < 2 ^ 20
    → parse_start_section (start_line saved) file
      ≡ some (record file {
        program_name = saved.program_name;
        start_address = saved.start_address;
        code_size = saved.code_size;
      })
unfolding parse_start_section start_line
parse_start_section_lem file saved v h k =
    let start = saved.start_address % 2 ^ 20 in
    let size = saved.code_size % 2 ^ 20 in
    let name = name_padded saved.program_name in
    let named = length-name_padded saved.program_name v in
    let placed = length-hex_padded 6 start (omega arith) in
    let sized = length-hex_padded 6 size (omega arith) in
    let line = 72 ∷ (name ++ (hex_padded 6 start ++ hex_padded 6 size)) in
    let whole : length line ≡ 19 = ap suc (
      lengths 6 12 name (hex_padded 6 start ++ hex_padded 6 size) named
        (lengths 6 6 (hex_padded 6 start) (hex_padded 6 size) placed sized)) in
    let last : line ≡ (72 ∷ (name ++ hex_padded 6 start)) ++ (hex_padded 6 size ++ []) =
      ap (λ t. 72 ∷ t)
        (sym (append_assoc name (hex_padded 6 start) (hex_padded 6 size))
          ∙ ended_part (name ++ hex_padded 6 start) (hex_padded 6 size)) in
    guarded (length line == 19) _ _ (rw whole refl) (
      known _
        (name_at_lem 1 (72 ∷ []) saved.program_name (hex_padded 6 start ++ hex_padded 6 size) refl
          v)
        (known _
          (hex_at_six 7 start saved.start_address (72 ∷ name) (hex_padded 6 size) (ap suc named)
            (omega arith) (omega arith))
          (known _
            (ap (hex_at 13 6) last
              ∙ hex_at_six 13 size saved.code_size (72 ∷ (name ++ hex_padded 6 start)) []
                  (ap suc (lengths 6 6 name (hex_padded 6 start) named placed)) (omega arith)
                  (omega arith))
            refl)))

pub parse_end_section_lem :
    (file saved : ObjectFile)
    → saved.entry_point < 2 ^ 20
    → parse_end_section (end_line saved) file
      ≡ some (record file { entry_point = saved.entry_point })
unfolding parse_end_section end_line
parse_end_section_lem file saved h =
    let entry = saved.entry_point % 2 ^ 20 in
    guarded (length (69 ∷ hex_padded 6 entry) == 7) _ _
      (rw (length-hex_padded 6 entry (omega arith)) refl)
      (known _
        (ap (hex_at 1 6) (ended_part (69 ∷ []) (hex_padded 6 entry))
          ∙ hex_at_six 1 entry saved.entry_point (69 ∷ []) [] refl (omega arith) (omega arith))
        refl)

pub length-bytes_text :
    (bytes : List ℕ) → All (λ b. b < 2 ^ 8) bytes → length (bytes_text bytes) ≡ 2 * length bytes
length-bytes_text [] v = refl
length-bytes_text (byte ∷ rest) v = omega (
  arith,
  length-append (hex_padded 2 byte) (bytes_text rest),
  length-hex_padded 2 byte v.0,
  length-bytes_text rest v.1,
)

parse_bytes_lem :
    (bytes : List ℕ)
    → All (λ b. b < 2 ^ 8) bytes
    → parse_bytes (length bytes) (bytes_text bytes) ≡ some bytes
unfolding parse_bytes
parse_bytes_lem [] v = refl
parse_bytes_lem (byte ∷ rest) v =
    known _ (hex_at_two 0 byte byte [] (bytes_text rest) refl refl v.0) (
      known _
        (ap (parse_bytes (length rest)) (
            drop-append 2 0 2 (hex_padded 2 byte) (bytes_text rest) (length-hex_padded 2 byte v.0)
              refl)
          ∙ parse_bytes_lem rest v.1)
        refl)

pub parse_text_section_lem :
    (file : ObjectFile) (section : TextSection)
    → section.address < 2 ^ 24
    → length section.data_bytes ≤ 31
    → All (λ b. b < 2 ^ 8) section.data_bytes
    → parse_text_section (text_line section) file
      ≡ some (record file { text_sections = file.text_sections ++ section ∷ [] })
unfolding parse_text_section text_line
parse_text_section_lem file section h k v =
    let address = section.address % 2 ^ 24 in
    let bytes = section.data_bytes in
    let size = length bytes % 2 ^ 8 in
    let text = bytes_text (take size bytes) in
    let shown : take size bytes ≡ bytes = take_all size bytes (omega arith) in
    let placed = length-hex_padded 6 address (omega arith) in
    let sized = length-hex_padded 2 size (omega arith) in
    let filled : length text ≡ 2 * length bytes = rw shown (length-bytes_text bytes v) in
    let line = 84 ∷ (hex_padded 6 address ++ (hex_padded 2 size ++ text)) in
    let whole : length line ≡ 9 + 2 * length bytes = omega (
      arith,
      lengths 6 (2 + 2 * length bytes) (hex_padded 6 address) (hex_padded 2 size ++ text) placed
          (lengths 2 (2 * length bytes) (hex_padded 2 size) text sized filled),
    ) in
    guarded (leb 9 (length line)) _ _ (ground (arith, whole)) (
      known _
        (hex_at_six 1 address section.address (84 ∷ []) (hex_padded 2 size ++ text) refl
          (omega arith) h)
        (known _
          (hex_at_two 7 size (length bytes) (84 ∷ hex_padded 6 address) text (ap suc placed)
            (omega arith) (omega arith))
          (guarded (leb (length bytes) 31 && 2 * length bytes + 9 == length line) _ _
            (ground (arith, whole))
            (known _
              (ap (parse_bytes (length bytes)) (
                  drop-append 6 2 8 (hex_padded 6 address) (hex_padded 2 size ++ text) placed refl
                  ∙ drop-append 2 0 2 (hex_padded 2 size) text sized refl
                  ∙ ap bytes_text shown)
                ∙ parse_bytes_lem bytes v)
              refl))))
