-- ===== src/Assembler/Token.antt =====
-- assembler/token.{h,cc}: `Token`, with the position of common/text_file.h.
use sicxe.Base.{ℕ}
use sicxe.Base.Text.{Bytes}

-- `Token::OperatorId`.
pub data OperatorId : Type 0 where
  op_add op_sub op_mul op_div : OperatorId
  op_lbracket op_rbracket op_comma op_assign op_hash op_at : OperatorId

-- `Token::TypeId`, with what a token of the type holds: the value of a name, `operator_id_`,
-- `integer_`, or `data_`.
pub data TokenContent : Type 0 where
  name_token : Bytes → TokenContent
  operator_token : OperatorId → TokenContent
  comment_token : TokenContent
  integer_token : ℕ → TokenContent
  data_bin_token : Bytes → TokenContent
  data_float_token : Bytes → TokenContent

-- `TextFile::Position`.
pub record Position : Type 0 where
  pub row : ℕ
  pub column : ℕ
  pub size : ℕ

pub record Token : Type 0 where
  pub content : TokenContent
  pub pos : Position
  pub value : Bytes
