-- ===== src/Linker/Errors.antt =====
-- The errors that linker/linker.cc adds to the `ErrorDB`, with what their messages are made of.
use sicxe.Base.{List}
use sicxe.Base.Text.{Bytes}

pub data LinkError : Type 0 where
  partial_linking_unsupported : LinkError
  invalid_entry_point : Bytes → LinkError
  start_address_not_zero : Bytes → LinkError
  address_overflow : LinkError
  -- The symbol, the file, and the file in which it was defined first.
  duplicate_symbol : Bytes → Bytes → Bytes → LinkError
  invalid_symbol_address : Bytes → Bytes → LinkError
  undefined_symbol : Bytes → List Bytes → LinkError
  invalid_relocation : Bytes → LinkError
  relocation_underflow : Bytes → LinkError
  relocation_overflow : Bytes → LinkError
