-- ===== src/Lib.antt =====
-- XQVM, a virtual machine whose code is a stream of masked physical islands.
-- A compiler makes a module and a record of origins from a typed program, a graph of blocks.
-- A module holds code, initial data and initial carriers (words of machine state). An external
-- profile, made from a seed, holds the byte of each of the twenty primitive schemas and the keys
-- that mask the code and seal continuations. An island is a list of nodes, each computed from
-- nodes before it, and of delayed writes to carriers and memory. The machine joins the shares of
-- the current continuation, opens it to an island's offset, executes that island whole, commits
-- its writes, and goes on until the continuation opens to the halt offset.
-- Result: include/xqvm/result.hpp. An early return of an error is the bind of `Result`.
-- Schema, CompareCondition, ValueDomain, ShareFamily, Abi: the enumerations and constants of
--   include/xqvm/schema.hpp, include/xqvm/physical.hpp and include/xqvm/compiler.hpp. An
--   enumeration that the source casts from a byte is that byte.
-- Physical: src/physical.cpp. `apply`, `inverse` and `compose` of `AffineMap`, splitting and joining
--   shares, `validate_physical_layout`, and reading and writing a value through the carriers.
-- Profile: src/profile.cpp. `seal` and `open_continuation` (`open` is reserved), the table of
--   `PrimitiveEncoding`, the code mask and the profile file. Checksum: its `crc32`.
-- Primitive: src/primitive.cpp. Plans, `verify_primitive_plan`, `primitive_plan_size` and
--   `encode_primitive_plan`.
-- Cursor: `CodeCursor` of src/runtime.cpp and `Reader` of src/disassembler.cpp, which differ in an
--   error code and a text; a read returns the value and the next cursor.
-- Runtime: src/runtime.cpp. Runtime/Executor has the twenty handlers, Runtime/Island is
--   `execute_island` with its header, its nodes, the staging of writes and the commit,
--   Runtime/Machine is `Machine::create` and `Machine::run`. Runtime/Plan says what a plan means
--   without bytes and is the specification of Runtime/Refinement.
-- MachineIr: include/xqvm/machine_ir.hpp and src/machine_ir.cpp, the compiler's input. MachineIr/Utf8
--   is `is_valid_utf8`; of `verify_machine_ir`, MachineIr/Declarations is the first loop over the
--   blocks, MachineIr/Actions the second with the checks of MachineIr/Domains, MachineIr/Search the
--   search over the edges, and MachineIr/Verification puts them together.
-- Compiler: include/xqvm/compiler.hpp and src/compiler.cpp. Compiler/Emitter is `PlanEmitter` and what
--   is emitted with it, Compiler/Allocator is `CarrierAllocator`, and the others are
--   `compile_machine_ir`: Compiler/Carriers its allocations and the initial carriers, Compiler/Actions
--   and Compiler/Blocks the islands of the blocks, Compiler/Edges those of the edges, Compiler/Layout
--   the offsets, relocations and code, Compiler/Sidecar the record of origins, Compiler/Program the
--   whole. A compiled module is what Runtime/Machine takes.
-- ModuleFile: src/module.cpp. Disassembler: `verify_physical_module` of src/disassembler.cpp.
-- ExamplePrograms: src/examples.cpp, the factorial as machine IR.
-- Base: numbers, words, bytes, lists and Boolean tests. Files called Examples hold runs.
-- State is passed on: a function that changes carriers, memory or a cursor returns the new one.
-- Words wrap at 2 ^ 64, casts are written as remainders. A default of `get_or` is read only where
-- the source would read outside a vector that its callers have checked.
-- A default of `entry_at`, or of a look-up of a block, stands where `at` would throw; the compiler
-- looks up only ids that the verifier has found defined.
-- Loops over vectors are recursion on lists or on the number of rounds left. Four loops run on fuel:
-- the scan of a module, with one more than the number of code bytes, since an island has twelve
-- bytes at least; `run`, with one more than `max_islands`, since every round but the last executes
-- an island; the search over the blocks, with their number, since each is queued once; and
-- `is_valid_utf8`, with the number of bytes, since every round consumes one. They return an Option,
-- in which `none` is running out of fuel, and `is_valid_utf8` has a Bool of its loop's.
-- Not modelled: reading and writing files, the text of the disassembler and of the sidecar, the table
-- of schema names and the command line (apps/xqvm.cpp). The membership tests stand for
-- `std::unordered_set` and for `std::binary_search` on ascending offsets.
pub mod Base
pub mod Result
pub mod Schema
pub mod Physical
pub mod ValueDomain
pub mod ShareFamily
pub mod CompareCondition
pub mod Checksum
pub mod Profile
pub mod Primitive
pub mod Cursor
pub mod Runtime
pub mod Abi
pub mod ModuleFile
pub mod Disassembler
pub mod MachineIr
pub mod Compiler
pub mod ExamplePrograms
