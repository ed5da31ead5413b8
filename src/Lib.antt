-- ===== src/Lib.antt =====
-- A model of the SIC/XE tools: the instruction set with its table and its codec, the machine that
-- executes it, object files, the loader, the linker, and the assembler up to its nodes: tokens, lines,
-- files, symbols, blocks and expressions.
--
-- Parts and files. Paths are those of the repository; each file names the code that it is about.
--   - Base: names of the libraries, arrays as functions, signed integers over the native numbers, laws
--   of the bit operations, `std::map` as the list of its entries in order (Base/Maps, over the keys of
--   Base/Keys), `std::string` as the list of its bytes (Base/Text), and what a piece of C++ comes to
--   (Base/Run).
--   - Isa: formats and instructions (src/common/format.h, instruction.h, instruction_instance.h). A
--   decoded instruction is an opcode with operands; the constructor of the operands is its format.
--   Isa/Opcode has the opcodes, Isa/Codec is `FormatUtil::Decode` and `FormatUtil::Encode`
--   (src/common/format_util.cc), Isa/Db is `InstructionDB` with `Register`, `IsOpcodeAvailable` and
--   the finders, Isa/Db/Loading `LoadFromFile`, Isa/Db/Defaults the table that `CreateDefaultInstance` fills.
--   - Machine: `Machine` of src/machine/machine.cc. Machine/Word has the word operations,
--   Machine/Memory the reads and writes, Machine/Address `CalculateTargetAddress`, Machine/State the
--   state and the results, Machine/Device the devices, Machine/Float the six bytes of a float,
--   Machine/Logic the classes that derive from `InstructionLogic` (src/machine/logic) with their
--   table, Machine/Execute `Execute` and `Interrupt`, Machine/Loader `LoadObjectFile`.
--   - Object: `ObjectFile` (src/common/object_file.h, object_file.cc). Object/Text has `ParseHex`,
--   `ParseSymbolName` and the printed formats, Object/Load the parsers of the six kinds of line and
--   `LoadFile`, Object/Save `SaveFile`, Object/RoundTrip what one reads of the other.
--   - Linker: `Linker` of src/linker/linker.cc. Linker/Placement is `OrderInputFiles`,
--   Linker/SymbolTable and Linker/RelocationTable the tables, Linker/Symbols `BuildSymbolTable`,
--   Linker/Relocations `BuildRelocationTable`, Linker/Copy `SolveSymbolRelocation` and
--   `CopyAndPatchCode`, Linker/Patch `PatchTextSection`, Linker/Output `WriteOutputSymbols`,
--   Linker/Link `LinkFiles`.
--   - Assembler: `SymbolTable` and `BlockTable` (src/assembler/symbol_table.cc, block_table.cc), and
--   `ExpressionUtil` (src/assembler/expression_util.cc): Assembler/Expression has its helpers,
--   Assembler/Expression/Solve `Solve`. Assembler/Token has the tokens, Assembler/Tokenizer
--   `Tokenizer` (src/assembler/tokenizer.cc) with the end of a token in Commit and the loop in Scan,
--   Assembler/Node the nodes and the names of directives (src/assembler/node.h, directive.cc),
--   Assembler/Parser `Parser` (src/assembler/parser.cc): `ParseExpression`, the operands of
--   instructions in Operands and of directives in Directives, `ParseLine` in Lines and `ParseFile` in
--   Files; Assembler/Parser/Nodes says what a well-formed node is, and Assembler/Parser/Shape what a
--   well-formed file is. Assembler/Outcome says how each of these ends, Assembler/Errors which errors there are.
--   - Examples: the theorems at concrete inputs.
--
-- How they interact: `Execute` fetches four bytes at the program counter, decodes them with the
-- instruction table, finds the logic of the opcode, advances the program counter, computes the target
-- address, runs the logic, and puts the program counter back unless the result is `ok`. `LinkFiles`
-- places the files, builds the two tables from them, copies and patches their code, and writes the
-- symbols that stay; each step ends the link where it fails. `ParseFile` makes tokens of each line and a
-- node of these; a line with errors adds its errors and no node. An expression of a node is what
-- `Solve` takes.
--
-- Representation. Unsigned integers are natural numbers with `% 2 ^ w` where the code wraps; an int32
-- is the integer that it stands for. Memory, registers and the device table are functions on natural
-- numbers. An instruction comes to a result with a machine, to an operation on which C++ puts no
-- meaning (a division by zero, an `int` out of range, a shift that C++11 leaves undefined), or to a failed assertion. Loops are
-- recursion on lists or on sizes, but for two. The one of `Solve` takes at least one token in each
-- round: it has the number of the tokens as fuel, which is enough for a well-formed expression. The one
-- of `TokenizeLine` moves on by at least one byte in each round: it has one more than the length of
-- the line as fuel, which is enough for any line.
--
-- Parameters: the type `double` with its operations, conversions and bytes (`Fpu`), which belong to
-- the C++ implementation, what `fopen` finds (`Files`), and the strings that `fgets` stores when an
-- object file is read, which are an argument of `load_file`, and `strtod`, which gives a double and how
-- many bytes it read. The laws of `Fpu` say that a double is
-- eight bytes and that eight bytes which were put into one are read back.
--
-- Not modelled: the passes of the assembler over the nodes
-- (the table builder, the literals, the code generator and the writers of the object file and of the
-- log), which change the nodes in place; the interactive simulator and the FPGA loader, which are
-- terminal and serial input and output; and the texts of messages, of which the errors keep what they
-- are made of.
pub mod Assembler
pub mod Base
pub mod Examples
pub mod Isa
pub mod Linker
pub mod Machine
pub mod Object
