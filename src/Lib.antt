-- ===== src/Lib.antt =====
-- The loader and validator of wasm2native, the compiler of WebAssembly modules to native objects.
--
-- The loader (core/iwasm/common/wasm_loader.c) reads a module from a buffer: `load` checks the header,
-- `create_sections` divides the rest into sections, and each section is read into the arrays of
-- WASMModule (core/iwasm/common/wasm.h). Then a validator reads the bodies of the functions with a
-- stack of operand types and a stack of blocks. The compiler relies on what both have checked.
--
-- Each file models a part of these two sources; names are those of the source.
--   Common    Lists and tests over native numbers, the result type of a step (a value or the message
--             that `set_error_buf` writes), and rules for postconditions of steps.
--   Leb       `read_leb` and the `read_leb_*` macros.
--   Utf8      `check_utf8_str`.
--   Wasm      Value types, WASMType, BlockType and the inline functions of wasm.h.
--   Loader    CHECK_BUF, reads of bytes, `loader_malloc`, classes of types.
--   Names     `const_str_list_insert`.
--   Types     `load_type_section`.
--   Limits    Tables and memories: `load_table`, `load_memory`, their imports, sections and checks.
--   Globals   `load_init_expr`, `load_global_import`, `load_global_section`.
--   Imports   `load_import_section`, both passes.
--   Functions `load_function_section`, `init_function_local_offsets`, `load_code_section`.
--   Exports   `load_export_section`.
--   Segments  Element segments, data segments, the data count and the start function.
--   Sections  The header, `create_sections`, `get_section_index`.
--   Operands  The validator's stacks: `wasm_loader_push_frame_ref` and its companions.
--   Branches  `wasm_loader_check_br`, `check_block_stack` and RESET_STACK.
--   Opcodes   Tables of the operations that only push and pop; alignments and lanes.
--   Program   What the validator finds in the module: types, functions, locals, globals, memories.
--   Control, Jumps, Variables, Access, Atomic, Vector
--             The cases of the `switch` of `wasm_loader_prepare_bytecode`.
--   Validator Its loop, `wasm_loader_ctx_init`, and what stands ahead of the loop and behind it.
--   Frames    The validator's stacks as the WebAssembly specification has them: a list of open blocks,
--             each with the types of its operands.
--   Tests     Concrete runs.
--
-- The bytes from a read pointer up to its bound are a list of numbers below 256, and a read hands on
-- what is left; `Loader.Reads` relates this to the comparison of addresses that the C code makes. An
-- array is a list whose length is the count beside it. Unsigned arithmetic is written modulo its
-- width where it can wrap. Structures that are shared are objects with a place (Types).
--
-- The allocator is a parameter: a function that says for each place of the loader whether a request
-- is granted. The sizes of structures are parameters too. Freeing is not modelled.
--
-- The code of a function is `code_size` bytes of memory. A size that has wrapped goes beyond the code
-- section; what stands there is a parameter (`behind` of Program.Scope), and so is no fault in the model
-- where such an address may not be read.
--
-- Loops over a count are structural recursion on it. The loop of `create_sections` runs on fuel, the
-- length of the file: each round takes at least two bytes. The loop of the validator runs on fuel,
-- twice the size of the code and one more: each round takes a byte, but for the end of an `if` without
-- `else`, which is read twice.
--
-- What the validator writes outside its stacks is part of its context (LoaderContext): the flags of
-- the function, the bytes of the code that are written over for the compiler, and the tables of
-- br_table. The addresses of the blocks' code are not kept, but for whether there is an `else`.
--
-- Not modelled: `load_from_sections`, which calls the loaders of the sections and looks up auxiliary
-- globals; the linking, relocation, name and user sections; `wasm_loader_find_block_addr`, with which
-- the compiler looks for the end of a block; the compilation to LLVM IR
-- (core/iwasm/compilation), which is calls of the LLVM library; the C library wrappers, the platform
-- layer and the allocator, which are input and output or copies of other projects.
pub mod Common
pub mod Leb
pub mod Utf8
pub mod Wasm
pub mod Loader
pub mod Types
pub mod Limits
pub mod Names
pub mod Globals
pub mod Sections
pub mod Imports
pub mod Functions
pub mod Exports
pub mod Segments
pub mod Operands
pub mod Tests
pub mod Branches
pub mod Opcodes
pub mod Frames
pub mod Validator
pub mod Vector
pub mod Atomic
pub mod Access
pub mod Variables
pub mod Jumps
pub mod Control
pub mod Program
