-- ===== src/Assembler/Tokenizer.antt =====
-- assembler/tokenizer.{h,cc}: the states, and the classes of characters.
pub mod Commit
pub mod Scan
pub mod Lexed
pub mod Stop
pub mod Start
pub mod Advance
pub mod Lines
use sicxe.Base.{
  ℕ, ◌-◌, ◌+◌, Bool, true, false, ◌||◌, ◌==◌, ltb, leb, Option, none, some, List, [], ◌∷◌,
  if◌then◌else◌,
}
use sicxe.Base.Text.{Bytes}
use sicxe.Assembler.Token.{
  OperatorId, op_add, op_sub, op_mul, op_div, op_lbracket, op_rbracket, op_comma, op_assign,
  op_hash, op_at, Token,
}
use sicxe.Object.Text.{between}

-- `Tokenizer::StateId`.
pub data StateId : Type 0 where
  state_none state_name : StateId
  integer_dec integer_bin integer_oct integer_hex : StateId
  data_char data_hex data_float comment : StateId
  state_operator invalid : StateId

-- `state_ <= INTEGER_HEX`.
abbrev pub up_to_integer_hex : StateId → Bool
up_to_integer_hex state_none = true
up_to_integer_hex state_name = true
up_to_integer_hex integer_dec = true
up_to_integer_hex integer_bin = true
up_to_integer_hex integer_oct = true
up_to_integer_hex integer_hex = true
up_to_integer_hex data_char = false
up_to_integer_hex data_hex = false
up_to_integer_hex data_float = false
up_to_integer_hex comment = false
up_to_integer_hex state_operator = false
up_to_integer_hex invalid = false

-- The operator of a character of "#@,[]=+-*/".
unfoldable pub operator_of : ℕ → Option OperatorId
operator_of c =
    if c == 43
    then some op_add
    else (if c == 45
        then some op_sub
        else (if c == 42
            then some op_mul
            else (if c == 47
                then some op_div
                else (if c == 91
                    then some op_lbracket
                    else (if c == 93
                        then some op_rbracket
                        else (if c == 44
                            then some op_comma
                            else (if c == 61
                                then some op_assign
                                else (if c == 35
                                    then some op_hash
                                    else (if c == 64 then some op_at else none)))))))))

abbrev pub is_some {ℓ} : {A : Type ℓ} → Option A → Bool
is_some none = false
is_some (some a) = true

-- A blank is a space or a tab.
abbrev pub is_blank : ℕ → Bool
is_blank c = c == 32 || c == 9

-- `CreateMaskStop`.
unfoldable pub mask_stop : ℕ → Bool
unfolding operator_of
mask_stop c = is_some (operator_of c) || is_blank c || c == 46

abbrev pub is_letter : ℕ → Bool
is_letter c = between 97 122 c || between 65 90 c

abbrev pub is_digit : ℕ → Bool
is_digit c = between 48 57 c

-- `CreateMaskValidName`.
unfoldable pub mask_valid_name : ℕ → Bool
mask_valid_name c = is_letter c || is_digit c || c == 95

-- `CreateMaskValidHex`.
unfoldable pub mask_valid_hex : ℕ → Bool
mask_valid_hex c = is_digit c || between 97 102 c || between 65 70 c

-- `CreateMaskValidFloat`.
unfoldable pub mask_valid_float : ℕ → Bool
mask_valid_float c = is_letter c || is_digit c || c == 43 || c == 45 || c == 46

-- `CreateStartLookupTable`.
unfoldable pub start_lookup : ℕ → StateId
unfolding operator_of
start_lookup c =
    if is_some (operator_of c)
    then state_operator
    else (if is_blank c
        then state_none
        else (if c == 46
            then comment
            else (if is_digit c
                then integer_dec
                else (if is_letter c || c == 95 then state_name else invalid))))

-- `state_`, `token_start_`, `position_`, `data_char_value_`, and the tokens so far.
pub record Tokenizing : Type 0 where
  pub state_id : StateId
  pub token_start : ℕ
  pub position : ℕ
  pub data_char_value : Bytes
  pub tokens : List Token
