-- ===== src/Object/Text/Laws.antt =====
-- What `SaveFile` prints, `ParseHex` and `ParseSymbolName` read.
use sicxe.Base.{
  ℕ, zero, suc, ◌+◌, ◌-◌, ◌*◌, ◌/◌, ◌%◌, ◌^◌, ◌<◌, ◌≤◌, ◌≡◌, refl, sym, ap, ◌∙◌, true, false, ◌==◌,
  ltb, Option, none, some, [], ◌∷◌, ◌++◌, length, length-append, take_all, is_empty, if◌then◌else◌,
  arith,
}
use sicxe.Base.Text.{Bytes}
use sicxe.Base.Options.{◌>>=◌}
use sicxe.Object.Text.{
  hex_digit, parse_hex, is_symbol_character, are_symbol_characters, trimmed, parse_symbol_name,
  hex_digits, least_width, hex_padded, spaces, c_string, name_padded,
}

-- No more than so many digits.
abbrev pub Fits : ℕ → ℕ → Type 0
Fits zero n = n ≡ 0
Fits (suc width) n = Fits width (n / 16)

-- Two more steps after one.
assoc :
    (o : Option ℕ) (f g h : ℕ → Option ℕ)
    → ((digit : ℕ) → f digit ≡ (g digit >>= h))
    → (o >>= f) ≡ ((o >>= g) >>= h)
assoc none f g h e = refl
assoc (some digit) f g h e = e digit

parse_hex-append :
    (xs : Bytes) (c rv : ℕ)
    → parse_hex (xs ++ c ∷ []) rv
      ≡ (parse_hex xs rv >>= λ v. hex_digit c >>= λ digit. some (v * 16 % 2 ^ 32 + digit))
unfolding parse_hex
parse_hex-append [] c rv = refl
parse_hex-append (x ∷ xs) c rv =
    assoc (hex_digit x) (λ digit. parse_hex (xs ++ c ∷ []) (rv * 16 % 2 ^ 32 + digit))
      (λ digit. parse_hex xs (rv * 16 % 2 ^ 32 + digit))
      (λ v. hex_digit c >>= λ digit. some (v * 16 % 2 ^ 32 + digit))
      (λ digit. parse_hex-append xs c (rv * 16 % 2 ^ 32 + digit))

hex_digit-digit_code :
    (n : ℕ) → hex_digit (if ltb (n % 16) 10 then 48 + n % 16 else 55 + n % 16) ≡ some (n % 16)
unfolding hex_digit
hex_digit-digit_code n = grind arith

pub parse_hex-hex_digits :
    (width n : ℕ) → n < 2 ^ 32 → Fits width n → parse_hex (hex_digits width n) 0 ≡ some n
unfolding hex_digits parse_hex
parse_hex-hex_digits zero n h f = ap some (sym f)
parse_hex-hex_digits (suc width) n h f =
    let digit = if ltb (n % 16) 10 then 48 + n % 16 else 55 + n % 16 in
    parse_hex-append (hex_digits width (n / 16)) digit 0
    ∙ simp (parse_hex-hex_digits width (n / 16) (omega arith) f, hex_digit-digit_code n)
        (ap some (omega arith))

pub length-hex_digits : (width n : ℕ) → length (hex_digits width n) ≡ width
unfolding hex_digits
length-hex_digits zero n = refl
length-hex_digits (suc width) n = omega (
  arith,
  length-append (hex_digits width (n / 16))
      ((if ltb (n % 16) 10 then 48 + n % 16 else 55 + n % 16) ∷ []),
  length-hex_digits width (n / 16),
)

hex_padded_lem : (width n : ℕ) → n < 16 ^ width → hex_padded width n ≡ hex_digits width n
unfolding hex_padded least_width
hex_padded_lem width n h = let small : ltb n (16 ^ width) ≡ true = ground arith in rw small refl

pub length-hex_padded : (width n : ℕ) → n < 16 ^ width → length (hex_padded width n) ≡ width
length-hex_padded width n h = rw (hex_padded_lem width n h) (length-hex_digits width n)

pub parse_hex-hex_padded_six : (n : ℕ) → n < 2 ^ 24 → parse_hex (hex_padded 6 n) 0 ≡ some n
parse_hex-hex_padded_six n h =
    rw (hex_padded_lem 6 n h) (parse_hex-hex_digits 6 n (omega arith) (omega arith))

pub parse_hex-hex_padded_two : (n : ℕ) → n < 2 ^ 8 → parse_hex (hex_padded 2 n) 0 ≡ some n
parse_hex-hex_padded_two n h =
    rw (hex_padded_lem 2 n h) (parse_hex-hex_digits 2 n (omega arith) (omega arith))

-- A name as the object file holds it: characters of symbols, not empty, at most six, with no space
-- at the end.
abbrev pub IsName : Bytes → Type 0
IsName name =
    (are_symbol_characters name ≡ true)
    × (trimmed name ≡ name)
    × (is_empty name ≡ false)
    × (length name ≤ 6)

trimmed-append_spaces : (name : Bytes) (n : ℕ) → trimmed (name ++ spaces n) ≡ trimmed name
unfolding trimmed
trimmed-append_spaces [] zero = refl
trimmed-append_spaces [] (suc n) = rw (trimmed-append_spaces [] n) refl
trimmed-append_spaces (c ∷ rest) n = rw (trimmed-append_spaces rest n) refl

are_symbol_characters-append_spaces :
    (name : Bytes) (n : ℕ)
    → are_symbol_characters name ≡ true
    → are_symbol_characters (name ++ spaces n) ≡ true
unfolding is_symbol_character
are_symbol_characters-append_spaces [] zero h = refl
are_symbol_characters-append_spaces [] (suc n) h = are_symbol_characters-append_spaces [] n h
are_symbol_characters-append_spaces (c ∷ rest) n h =
    ground (arith, are_symbol_characters-append_spaces rest n)

-- No byte of a name is zero.
c_string_same : (name : Bytes) → are_symbol_characters name ≡ true → c_string name ≡ name
unfolding is_symbol_character
c_string_same [] h = refl
c_string_same (c ∷ rest) h =
    let more : c == 0 ≡ false = ground arith in
    rw more (ap (λ t. c ∷ t) (c_string_same rest (ground arith)))

length-spaces : (n : ℕ) → length (spaces n) ≡ n
length-spaces zero = refl
length-spaces (suc n) = omega (arith, length-spaces n)

name_padded_lem : (name : Bytes) → IsName name → name_padded name ≡ name ++ spaces (6 - length name)
unfolding name_padded
name_padded_lem name v = simp (c_string_same name v.0, take_all 6 name v.3) refl

pub length-name_padded : (name : Bytes) → IsName name → length (name_padded name) ≡ 6
length-name_padded name v = rw (name_padded_lem name v) (
    omega
      (arith, length-append name (spaces (6 - length name)), length-spaces (6 - length name), v.3))

pub parse_symbol_name-name_padded :
    (name : Bytes) → IsName name → parse_symbol_name (name_padded name) ≡ some name
unfolding parse_symbol_name
parse_symbol_name-name_padded name v =
    let n = 6 - length name in
    simp
      (
        name_padded_lem name v,
        trimmed-append_spaces name n,
        are_symbol_characters-append_spaces name n v.0,
        v.1,
        v.2,
      )
      refl
