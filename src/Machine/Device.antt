-- ===== src/Machine/Device.antt =====
-- machine/device.h, io_device.cc and file_device.cc: the devices behind the one interface, and the
-- streams of the process. What `fopen` finds belongs to the C library: it is a parameter.
use Prim.Native.String.{String}
use sicxe.Base.{
  ◌≡◌, refl, arith, ℕ, Bool, true, false, Option, none, some, List, [], ◌∷◌, ◌++◌, if◌then◌else◌,
}

-- The bytes that are still to come, and those that have been written.
pub record Console : Type 0 where
  pub stdin : List ℕ
  pub stdout : List ℕ
  pub stderr : List ℕ

-- `open_read` gives the contents of a file that can be opened, `open_write` whether it can be.
pub record Files : Type 0 where
  pub open_read : String → Option (List ℕ)
  pub open_write : String → Bool

-- `stream` is `fp_`: null, or the bytes left to read, or those written so far.
pub record FileDevice : Type 0 where
  pub file_name : String
  pub stream : Option (List ℕ)
  pub mode_write : Bool

pub data Device : Type 0 where
  input : Device
  output : Bool → Device
  file : FileDevice → Device

-- A new device for a file.
pub new_file_device : String → Device
new_file_device file_name =
    file (record { file_name = file_name; stream = none; mode_write = false })

pub test : Device → Bool
test input = true
test (output is_stderr) = true
test (file d) = true

-- `fread` of one byte into a byte that is 0 if it fails.
abbrev next_byte : List ℕ → ℕ
next_byte [] = 0
next_byte (byte ∷ rest) = byte

abbrev rest_of : List ℕ → List ℕ
rest_of [] = []
rest_of (byte ∷ rest) = rest

file_read : FileDevice → List ℕ → Option ℕ × FileDevice
file_read d stream =
    if d.mode_write
    then (none, d)
    else (some (next_byte stream), record d { stream = some (rest_of stream) })

read_file : Files → FileDevice → Option ℕ × FileDevice
unfolding file_read
read_file files d = elim d.stream [
  | some stream ↦ file_read d stream
  | none ↦ elim (files.open_read d.file_name) [
    | none ↦ (none, d)
    | some contents ↦ file_read (record d { stream = some contents; mode_write = false }) contents
  ]
]

file_write : FileDevice → List ℕ → ℕ → Bool × FileDevice
file_write d stream value =
    if d.mode_write then (true, record d { stream = some (stream ++ value ∷ []) }) else (false, d)

write_file : Files → FileDevice → ℕ → Bool × FileDevice
unfolding file_write
write_file files d value = elim d.stream [
  | some stream ↦ file_write d stream value
  | none ↦
      if files.open_write d.file_name
      then file_write (record d { stream = some []; mode_write = true }) [] value
      else (false, d)
]

-- `Read`: the byte, unless the device fails, with the device and the streams after it.
unfoldable pub read : Files → Device → Console → Option ℕ × Device × Console
unfolding read_file
read files input c = (some (next_byte c.stdin), input, record c { stdin = rest_of c.stdin })
read files (output is_stderr) c = (none, output is_stderr, c)
read files (file d) c = let (byte, d') = read_file files d in (byte, file d', c)

-- `Write`: whether the device took the byte, with the device and the streams after it.
unfoldable pub write : Files → Device → ℕ → Console → Bool × Device × Console
unfolding write_file
write files input value c = (false, input, c)
write files (output is_stderr) value c =
    if is_stderr
    then (true, output is_stderr, record c { stderr = c.stderr ++ value ∷ [] })
    else (true, output is_stderr, record c { stdout = c.stdout ++ value ∷ [] })
write files (file d) value c = let (taken, d') = write_file files d value in (taken, file d', c)

-- A read that fails has changed neither the device nor a stream.
pub read_failed :
    (files : Files) (d : Device) (c : Console)
    → (read files d c).0 ≡ none
    → read files d c ≡ (none, d, c)
unfolding read
read_failed files input c h = ground arith
read_failed files (output is_stderr) c h = refl
read_failed files (file d) c h = ground arith

pub write_failed :
    (files : Files) (d : Device) (value : ℕ) (c : Console)
    → (write files d value c).0 ≡ false
    → write files d value c ≡ (false, d, c)
unfolding write
write_failed files input value c h = refl
write_failed files (output is_stderr) value c h = ground arith
write_failed files (file d) value c h = ground arith
