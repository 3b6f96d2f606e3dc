-- ===== src/Program.antt =====
-- What the validator of a function's code reads: the parts of the module that are loaded by then, and
-- the function (`wasm_loader_prepare_bytecode` of core/iwasm/common/wasm_loader.c and the helpers
-- ahead of it).
pub mod Typed
use wasm2native.Common.{
  ℕ, ◌+◌, ◌-◌, ◌%◌, ◌^◌, Bool, false, not, ◌&&◌, Option, none, some, List, [], ◌∷◌, length,
  get_elem?, bit_and, nonzero, ltb, leb, ◌==◌, if◌then◌else◌,
}
use wasm2native.Common.Outcome.{
  Result, ok, err, ◌>>=◌, ◌>>◌, check, reject, unknown_type, unknown_function, unknown_memory,
  unknown_local, unknown_global, zero_byte_expected,
}
use wasm2native.Functions.{WasmFunction, check_function_index}
use wasm2native.Globals.{GlobalImport, WasmGlobal}
use wasm2native.Imports.{FunctionImport}
use wasm2native.Leb.{Read, read_leb_uint32}
use wasm2native.Limits.{WasmMemory, memory64_flag}
use wasm2native.Operands.{LoaderContext}
use wasm2native.Branches.{pop_types, push_types}
use wasm2native.Segments.{Loaded, imported_or_own}
use wasm2native.Types.{TypeTable, type_at}
use wasm2native.Wasm.{WasmType, value_type_i32, value_type_i64}

-- A count of data segments that no section gives is 0.
pub record Module : Type 0 where
  pub types : TypeTable
  pub loaded : Loaded
  pub globals : List WasmGlobal
  pub data_seg_count : ℕ
  pub data_seg_count1 : ℕ
  pub aux_stack_size : ℕ
  pub aux_stack_top_global_index : ℕ

-- The arguments of the validator, the allocator that grows its stacks, and the sizes of structures. `behind`
-- is the memory behind the code section, byte by byte: the validator reads it where the size of the
-- code goes beyond the section. Addresses that may not be read are not modelled.
pub record Scope : Type 0 where
  pub wasm_module : Module
  pub func : WasmFunction
  pub cur_func_idx : ℕ
  pub behind : ℕ → ℕ
  pub grow : ℕ → Bool
  pub sizeof_context : ℕ
  pub sizeof_block : ℕ
  pub offsetof_br_depths : ℕ

unfoldable pub first_memory : Loaded → Option WasmMemory
first_memory m = imported_or_own m.imports.memories m.memories 0

unfoldable pub has_module_memory64 : Loaded → Bool
has_module_memory64 m = elim (first_memory m) [
  | none ↦ false
  | some memory ↦ nonzero (bit_and memory.flags memory64_flag)
]

-- `mem_offset_type`
unfoldable pub offset_value_type : Loaded → ℕ
offset_value_type m = if has_module_memory64 m then value_type_i64 else value_type_i32

unfoldable pub has_memory : Loaded → Bool
has_memory m = not (length m.memories == 0 && length m.imports.memories == 0)

unfoldable pub check_memory : Loaded → Result (Unit {0})
check_memory m = check (has_memory m) unknown_memory

-- `module->types[i]`
unfoldable pub type_of : Module → ℕ → Result WasmType
type_of m i = elim (type_at m.types i) [ none ↦ err unknown_type | some type ↦ ok type ]

unfoldable pub imported_type : List FunctionImport → ℕ → Result WasmType
imported_type imports i = elim (get_elem? imports i) [
  | none ↦ err unknown_function
  | some f ↦ ok f.func_type
]

unfoldable pub own_type : List WasmFunction → ℕ → Result WasmType
own_type functions i = elim (get_elem? functions i) [
  | none ↦ err unknown_function
  | some f ↦ ok f.func_type
]

-- The type of the function that a call names.
unfoldable pub called_type : Loaded → ℕ → Result WasmType
called_type m func_idx = do
  check_function_index (length m.imports.functions) (length m.functions) func_idx
  if ltb func_idx (length m.imports.functions)
      then imported_type m.imports.functions func_idx
      else own_type m.functions (func_idx - length m.imports.functions)

-- An entry of an array that is in range.
unfoldable pub local_at : List ℕ → ℕ → Result ℕ
local_at types i = elim (get_elem? types i) [ none ↦ err unknown_local | some type ↦ ok type ]

-- GET_LOCAL_INDEX_TYPE_AND_OFFSET; the offset is not used. The sum is a uint32.
unfoldable pub read_local_type : WasmFunction → List ℕ → Read ℕ
read_local_type func p = do
  (local_idx, p) ← read_leb_uint32 p
  let param_count = func.func_type.param_count
  reject (leb ((param_count + length func.local_types) % 2 ^ 32) local_idx) unknown_local
  local_type ←
      (if ltb local_idx param_count
        then local_at func.func_type.types local_idx
        else local_at func.local_types (local_idx - param_count))
  ok (local_type, p)

unfoldable pub imported_global : List GlobalImport → ℕ → Result (ℕ × Bool)
imported_global imports i = elim (get_elem? imports i) [
  | none ↦ err unknown_global
  | some g ↦ ok (g.type, g.is_mutable)
]

unfoldable pub own_global : List WasmGlobal → ℕ → Result (ℕ × Bool)
own_global globals i = elim (get_elem? globals i) [
  | none ↦ err unknown_global
  | some g ↦ ok (g.type, g.is_mutable)
]

-- The type of a global, and whether it is mutable. The sum is a uint32.
unfoldable pub global_at : Module → ℕ → Result (ℕ × Bool)
global_at m global_idx = do
  let imports = m.loaded.imports.globals
  reject (leb ((length imports + length m.globals) % 2 ^ 32) global_idx) unknown_global
  if ltb global_idx (length imports)
      then imported_global imports global_idx
      else own_global m.globals (global_idx - length imports)

-- `if (*p++ != 0x00)`. The C code does not look whether there is a byte: behind the body's end it reads
-- a byte that is not the function's, and refuses the body in any case, since a block is open.
unfoldable pub read_zero_byte : List ℕ → Result (List ℕ)
read_zero_byte [] = err zero_byte_expected
read_zero_byte (byte ∷ p) = reject (not (byte == 0)) zero_byte_expected >> ok p

-- POPs, the last type first, and then PUSHes.
unfoldable pub exchange : (ℕ → Bool) → LoaderContext → List ℕ → List ℕ → Result LoaderContext
exchange grow ctx pops pushes = pop_types ctx pops >>= λ ctx. push_types grow ctx pushes

-- A byte of the code is written over; `at` is the number of bytes from it to the end.
unfoldable pub rewrite_byte : LoaderContext → ℕ → ℕ → LoaderContext
rewrite_byte ctx at byte = record ctx { rewrites = (at, byte) ∷ ctx.rewrites }
