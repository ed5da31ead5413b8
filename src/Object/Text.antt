-- ===== src/Object/Text.antt =====
-- common/object_file.cc: `ParseHex` and `ParseSymbolName`, and the formats %0wX and %-6.6s of `SaveFile`.
pub mod Laws
use sicxe.Base.{
  ℕ, zero, suc, ◌+◌, ◌-◌, ◌*◌, ◌/◌, ◌%◌, ◌^◌, Bool, true, false, ◌&&◌, ◌||◌, ◌==◌, ltb, leb, Option,
  none, some, List, [], ◌∷◌, ◌++◌, length, take, is_empty, if◌then◌else◌,
}
use sicxe.Base.Text.{Bytes}
use sicxe.Base.Options.{◌>>=◌}

abbrev pub between : ℕ → ℕ → ℕ → Bool
between low high c = leb low c && leb c high

-- '0'-'9', 'A'-'F', 'a'-'f'.
unfoldable pub hex_digit : ℕ → Option ℕ
hex_digit c =
    if between 48 57 c
    then some (c - 48)
    else (if between 65 70 c
        then some (c - 65 + 10)
        else (if between 97 102 c then some (c - 97 + 10) else none))

-- `ParseHex` from a digit on, with `rv`. The low four bits of the shifted `rv` are zero.
unfoldable pub parse_hex : Bytes → ℕ → Option ℕ
unfolding hex_digit
parse_hex [] rv = some rv
parse_hex (c ∷ rest) rv = hex_digit c >>= λ digit. parse_hex rest (rv * 16 % 2 ^ 32 + digit)

-- `isalnum` of the C locale, or one of " -_+".
unfoldable pub is_symbol_character : ℕ → Bool
is_symbol_character c =
    between 48 57 c
    || between 65 90 c
    || between 97 122 c
    || c == 32
    || c == 45
    || c == 95
    || c == 43

abbrev pub are_symbol_characters : Bytes → Bool
are_symbol_characters [] = true
are_symbol_characters (c ∷ rest) = is_symbol_character c && are_symbol_characters rest

-- Up to the last byte that is not a space.
unfoldable pub trimmed : Bytes → Bytes
trimmed [] = []
trimmed (c ∷ rest) = let later = trimmed rest in if is_empty later && c == 32 then [] else c ∷ later

unfoldable pub parse_symbol_name : Bytes → Option Bytes
unfolding trimmed is_symbol_character
parse_symbol_name buffer =
    if are_symbol_characters buffer && (if is_empty (trimmed buffer) then false else true)
    then some (trimmed buffer)
    else none

-- An upper-case digit.
abbrev digit_code : ℕ → ℕ
digit_code digit = if ltb digit 10 then 48 + digit else 55 + digit

-- The last `width` digits.
unfoldable pub hex_digits : ℕ → ℕ → Bytes
hex_digits zero n = []
hex_digits (suc width) n = hex_digits width (n / 16) ++ digit_code (n % 16) ∷ []

-- The least width that holds a number, from a width on; a uint32 has at most eight digits.
unfoldable pub least_width : ℕ → ℕ → ℕ → ℕ
least_width zero width n = width
least_width (suc more) width n =
    let wider = least_width more (suc width) n in if ltb n (16 ^ width) then width else wider

-- %0wX.
unfoldable pub hex_padded : ℕ → ℕ → Bytes
unfolding hex_digits least_width
hex_padded width n = hex_digits (least_width 8 width n) n

abbrev pub spaces : ℕ → Bytes
spaces zero = []
spaces (suc n) = 32 ∷ spaces n

-- The C string: what stands before the first zero byte.
abbrev pub c_string : Bytes → Bytes
c_string [] = []
c_string (c ∷ rest) = if c == 0 then [] else c ∷ c_string rest

-- %-6.6s of `c_str()`.
unfoldable pub name_padded : Bytes → Bytes
name_padded name = take 6 (c_string name) ++ spaces (6 - length (take 6 (c_string name)))
