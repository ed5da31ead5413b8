-- ===== src/Examples/Fixtures.antt =====
-- What the examples run on: a small program in memory, and a concrete floating-point unit.
use sicxe.Base.{
  ℕ, ◌%◌, ◌^◌, ◌<◌, ◌≡◌, refl, true, false, none, some, List, [], ◌∷◌, All, length, get_or, ltb,
  ◌==◌, if◌then◌else◌, arith,
}
use sicxe.Base.Int.{pos}
use sicxe.Machine.Memory.{Memory}
use sicxe.Machine.Memory.Laws.{IsByteMemory}
use sicxe.Machine.Float.{Fpu}
use sicxe.Machine.Device.{Files}
use sicxe.Machine.State.{Machine, less, IsValid}

-- A `double` is kept as its bytes, and the operations give one of their arguments.
abbrev pub eight : List ℕ → List ℕ
eight d =
    let byte = λ (i : ℕ). get_or d i 0 % 2 ^ 8 in
    byte 0 ∷ byte 1 ∷ byte 2 ∷ byte 3 ∷ byte 4 ∷ byte 5 ∷ byte 6 ∷ byte 7 ∷ []

pub eight_lem :
    (bytes : List ℕ) → length bytes ≡ 8 → All (λ b. b < 2 ^ 8) bytes → eight bytes ≡ bytes
eight_lem [] h v = cc
eight_lem (a ∷ []) h v = absurd (omega arith)
eight_lem (a ∷ b ∷ []) h v = absurd (omega arith)
eight_lem (a ∷ b ∷ c ∷ []) h v = absurd (omega arith)
eight_lem (a ∷ b ∷ c ∷ d ∷ []) h v = absurd (omega arith)
eight_lem (a ∷ b ∷ c ∷ d ∷ e ∷ []) h v = absurd (omega arith)
eight_lem (a ∷ b ∷ c ∷ d ∷ e ∷ f ∷ []) h v = absurd (omega arith)
eight_lem (a ∷ b ∷ c ∷ d ∷ e ∷ f ∷ g ∷ []) h v = absurd (omega arith)
eight_lem (a ∷ b ∷ c ∷ d ∷ e ∷ f ∷ g ∷ i ∷ []) h v = ground arith
eight_lem (a ∷ b ∷ c ∷ d ∷ e ∷ f ∷ g ∷ i ∷ j ∷ rest) h v = absurd (omega arith)

pub eight-bytes : (d : List ℕ) → All (λ b. b < 2 ^ 8) (eight d)
eight-bytes d = omega arith

abbrev pub byte_fpu : Fpu
byte_fpu = record {
  Double = List ℕ;
  of_bytes = λ bytes. bytes;
  to_bytes = eight;
  big_endian = false;
  add = λ a b. a;
  subtract = λ a b. a;
  multiply = λ a b. b;
  divide = λ a b. b;
  less = λ a b. ltb (get_or a 7 0) (get_or b 7 0);
  of_int32 = λ n. [];
  to_int32 = λ d. some (pos (get_or d 7 0 % 2 ^ 8));
  bytes_of_double = λ d. (refl, eight-bytes d);
  to_bytes-of_bytes = eight_lem;
}

abbrev pub no_files : Files
no_files = record { open_read = λ name. none; open_write = λ name. false }

-- LDA #5, and then ADDR A, A.
abbrev pub program : Memory
program a = if a == 0 then 1 else (if a == 2 then 5 else (if a == 3 then 0x90 else 0))

abbrev pub start : Machine
start = record {
  cpu = record {
    program_counter = 0;
    registers = λ r. if r == 0 then 3 else 0xff_ffff;
    float_register = 0 ∷ 0 ∷ 0 ∷ 0 ∷ 0 ∷ 0 ∷ [];
    condition_code = less;
    interrupt_enabled = true;
    interrupt_link = 0;
    interrupt_condition_code = less;
    target_address = 0;
    interrupt_enable_next = false;
  };
  memory = program;
  devices = λ id. none;
  console = record { stdin = []; stdout = []; stderr = [] };
}

program-IsByteMemory : IsByteMemory program
program-IsByteMemory a = ground arith

pub start-IsValid : IsValid start
start-IsValid = record {
  counter_fits = omega arith;
  registers_fit = λ r. ground arith;
  float_fits = record { six = refl; bytes_lt = omega arith };
  link_fits = omega arith;
  target_fits = omega arith;
  memory_fits = program-IsByteMemory;
}
