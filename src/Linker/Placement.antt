-- ===== src/Linker/Placement.antt =====
-- linker/linker.cc: `Linker::OrderInputFiles`. An int32 is the integer that it stands for; sums of
-- them do not overflow on the 24-bit addresses that object files hold.
pub mod Layout
use sicxe.Base.{
  ℕ, ◌+◌, ◌%◌, ◌^◌, Bool, not, ◌&&◌, ◌==◌, ltb, Option, none, some, List, [], ◌∷◌, ◌++◌,
  if◌then◌else◌,
}
use sicxe.Base.Int.{ℤ, ◌-ℤ◌}
use sicxe.Machine.Word.{int32}
use sicxe.Object.{ObjectFile}
use sicxe.Linker.Errors.{LinkError, start_address_not_zero, address_overflow}

-- `files_start_address_`, `files_address_adjustment_` and `end_address_`.
pub record Placement : Type 0 where
  pub starts : List ℕ
  pub adjustments : List ℤ
  pub end_address : ℕ

-- One file more in front.
abbrev pub placed : ℕ → ℤ → Bool → Option Placement → Option Placement
placed start adjustment refused none = none
placed start adjustment refused (some p) =
    if refused
    then none
    else some (record p { starts = start ∷ p.starts; adjustments = adjustment ∷ p.adjustments })

-- The loop from a file on; no placement is where it returns false.
unfoldable pub order_input_files : Bool → ℕ → List ObjectFile → List LinkError × Option Placement
order_input_files compatibility_mode address [] =
    ([], some (record { starts = []; adjustments = []; end_address = address }))
order_input_files compatibility_mode address (file ∷ rest) =
    let refused = compatibility_mode && not (file.start_address == 0) in
    let errors = if refused then start_address_not_zero file.file_name ∷ [] else [] in
    let next = (address + file.code_size) % 2 ^ 32 in
    let later = order_input_files compatibility_mode next rest in
    let adjustment = int32 address -ℤ int32 file.start_address in
    if ltb 0x10_0000 next
    then (errors ++ address_overflow ∷ [], none)
    else (errors ++ later.0, placed address adjustment refused later.1)
