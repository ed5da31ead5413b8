-- ===== src/Examples/Machines.antt =====
-- Steps of a whole machine, interrupts, and floats in memory.
use sicxe.Base.{◌≡◌, refl, false, [], ◌∷◌, arith}
use sicxe.Isa.Db.{find_opcode}
use sicxe.Isa.Db.Defaults.{default_table}
use sicxe.Isa.{none_f1}
use sicxe.Machine.Memory.{read_memory, write_memory}
use sicxe.Machine.Memory.Laws.{read_memory-write_memory}
use sicxe.Machine.Float.{encode_float_data, decode_float_data, encode-decode_float_data}
use sicxe.Machine.State.{done, ExecuteResult, set_cpu}
use sicxe.Machine.Logic.Defaults.{default_logic_db}
use sicxe.Machine.Logic.Rules.{After}
use sicxe.Machine.Logic.Validity.{Valid}
use sicxe.Machine.Logic.Runs.{Runs}
use sicxe.Machine.Logic.Jump.{interrupt_return}
use sicxe.Machine.Execute.{execute, interrupt, enable_interrupts}
use sicxe.Machine.Execute.Validity.{execute-IsValid}
use sicxe.Machine.Execute.Failure.{OnlyTarget, execute-OnlyTarget}
use sicxe.Machine.Execute.Assertions.{execute-Runs}
use sicxe.Machine.Execute.Interrupts.{interrupt_return-interrupt}
use sicxe.Examples.Fixtures.{byte_fpu, no_files, start, start-IsValid}

execute-IsValid_example :
    After Valid (execute (find_opcode default_table) default_logic_db byte_fpu no_files start)
execute-IsValid_example =
    execute-IsValid (find_opcode default_table) default_logic_db byte_fpu no_files start
      start-IsValid

execute-OnlyTarget_example :
    After
      (OnlyTarget (enable_interrupts start))
      (execute (find_opcode default_table) default_logic_db byte_fpu no_files start)
execute-OnlyTarget_example =
    execute-OnlyTarget (find_opcode default_table) default_logic_db byte_fpu no_files start

execute-Runs_example :
    Runs (execute (find_opcode default_table) default_logic_db byte_fpu no_files start)
execute-Runs_example = execute-Runs byte_fpu no_files start start-IsValid.memory_fits

interrupt_return-interrupt_example :
    interrupt_return none_f1 (interrupt start)
    ≡ done ExecuteResult.ok (
        set_cpu start (record (start.cpu) {
          interrupt_enabled = false;
          interrupt_enable_next = false;
          interrupt_link = start.program_counter;
          interrupt_condition_code = start.condition_code;
        }))
interrupt_return-interrupt_example = interrupt_return-interrupt start refl

encode-decode_float_data_example :
    encode_float_data byte_fpu (decode_float_data byte_fpu (1 ∷ 2 ∷ 3 ∷ 4 ∷ 5 ∷ 6 ∷ []))
    ≡ 1 ∷ 2 ∷ 3 ∷ 4 ∷ 5 ∷ 6 ∷ []
encode-decode_float_data_example =
    encode-decode_float_data byte_fpu (1 ∷ 2 ∷ 3 ∷ 4 ∷ 5 ∷ 6 ∷ [])
      (record { six = refl; bytes_lt = omega arith })

read_memory-write_memory_example :
    read_memory (write_memory start.memory 0xfffff (7 ∷ 8 ∷ [])) 0xfffff 2 ≡ 7 ∷ 8 ∷ []
read_memory-write_memory_example =
    read_memory-write_memory (7 ∷ 8 ∷ []) start.memory 0xfffff (omega arith)
