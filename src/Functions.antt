-- ===== src/Functions.antt =====
-- The functions of a module: `load_function_section`, which reads the function section and the code
-- section side by side, and the lists of locals (core/iwasm/common/wasm_loader.c).
pub mod Locals
use wasm2native.Common.{
  ℕ, zero, suc, ◌+◌, ◌-◌, ◌*◌, ◌%◌, ◌^◌, Bool, true, false, not, ◌&&◌, ◌||◌, Option, none, some,
  List, [], ◌∷◌, ◌++◌, length, take, drop, replicate, ltb, leb, ◌==◌, if◌then◌else◌,
}
use wasm2native.Common.Outcome.{
  Result, ok, err, ◌>>=◌, ◌>>◌, check, reject, inconsistent_lengths, function_count_too_large,
  unknown_type, unknown_function, invalid_function_code_size, too_many_locals, invalid_local_count,
  invalid_local_type, local_count_too_large, section_size_mismatch,
}
use wasm2native.Imports.{require_type}
use wasm2native.Leb.{Read, read_leb_uint32}
use wasm2native.Loader.{
  Host, functions_array, function_entry, local_offsets, loader_malloc, read_uint8, is_value_type,
}
use wasm2native.Types.{TypeTable}
use wasm2native.Wasm.{WasmType, wasm_value_type_cell_num, wasm_get_cell_num}

-- WASMFunction. The code is what is left of the code section where it starts; `code_size` says how
-- much of that belongs to the function. `local_types` has `local_count` entries.
pub record WasmFunction : Type 0 where
  pub func_type : WasmType
  pub func_idx : ℕ
  pub local_types : List ℕ
  pub code_size : ℕ
  pub code : List ℕ
  pub param_cell_num : ℕ
  pub ret_cell_num : ℕ
  pub local_cell_num : ℕ
  pub local_offsets : List ℕ

-- The offsets of variables of these types, from `local_offset` on, a uint32 that is stored in 16
-- bits, and the offset behind them.
unfoldable pub offsets_from : List ℕ → ℕ → List ℕ
offsets_from [] local_offset = []
offsets_from (type ∷ types) local_offset =
    local_offset % 2 ^ 16
    ∷ offsets_from types ((local_offset + wasm_value_type_cell_num type) % 2 ^ 32)

-- The parameters and then the locals. Nothing is allocated where there is none.
unfoldable pub init_function_local_offsets : Host → ℕ → List ℕ → List ℕ → Result (List ℕ)
init_function_local_offsets host i param_types local_types =
    let total_size = 2 * (length param_types + length local_types) in
    (if total_size == 0 then ok tt else loader_malloc host (local_offsets i) total_size)
    >> ok (offsets_from (param_types ++ local_types) 0)

-- Calculate total local count: the count, and where the code starts.
unfoldable pub count_locals : ℕ → ℕ → List ℕ → Read ℕ
count_locals zero local_count p = ok (local_count, p)
count_locals (suc left) local_count p = do
  (sub_local_count, p) ← read_leb_uint32 p
  reject (ltb (2 ^ 32 - 1 - local_count) sub_local_count) too_many_locals
  (type, p) ← read_uint8 p
  count_locals left (local_count + sub_local_count) p

-- Load each local type. The types so far are `local_types`; the sums are of uint32.
unfoldable pub load_local_types : ℕ → ℕ → List ℕ → List ℕ → Result (List ℕ)
load_local_types local_count zero local_types p = ok local_types
load_local_types local_count (suc left) local_types p = do
  (sub_local_count, p) ← read_leb_uint32 p
  let local_type_index = length local_types
  reject
      (ltb (2 ^ 32 - 1 - sub_local_count) local_type_index
        || ltb local_count ((local_type_index + sub_local_count) % 2 ^ 32))
      invalid_local_count
  (type, p) ← read_uint8 p
  check (is_value_type type) invalid_local_type
  load_local_types local_count left (local_types ++ replicate sub_local_count type) p

-- One function: its code, the type of which is `func_type`, at `p_code`. The size of the code is the
-- difference of two pointers as a uint32: it wraps where the locals go on behind the function's end.
unfoldable pub load_function_body : Host → ℕ → ℕ → WasmType → List ℕ → Read WasmFunction
load_function_body host import_function_count i func_type p_code = do
  (code_size, p_code) ← read_leb_uint32 p_code
  reject (code_size == 0 || ltb (length p_code) code_size) invalid_function_code_size
  let p_code_end = drop code_size p_code
  (local_set_count, p_code_save) ← read_leb_uint32 p_code
  (local_count, p_code) ← count_locals local_set_count 0 p_code_save
  let code_size = ((2 ^ 32 + length p_code) - length p_code_end) % 2 ^ 32
  loader_malloc host (function_entry i) (host.sizeof_function + local_count)
  local_types ← load_local_types local_count local_set_count [] p_code_save
  let local_cell_num = wasm_get_cell_num local_types 0
  reject (ltb 0xFFFF local_cell_num) local_count_too_large
  offsets ←
      init_function_local_offsets host i (take func_type.param_count func_type.types) local_types
  ok (
    record {
      func_type = func_type;
      func_idx = import_function_count + i;
      local_types = local_types;
      code_size = code_size;
      code = p_code;
      param_cell_num = func_type.param_cell_num;
      ret_cell_num = func_type.ret_cell_num;
      local_cell_num = local_cell_num;
      local_offsets = offsets;
    },
    p_code_end,
  )

-- The rounds of the loop; `p` runs over the function section and `p_code` over the code section.
unfoldable pub load_functions :
    Host → TypeTable → ℕ → ℕ → ℕ → List ℕ → List ℕ → Read (List WasmFunction)
load_functions host types import_function_count zero i p p_code = ok ([], p)
load_functions host types import_function_count (suc left) i p p_code = do
  (type_index, p) ← read_leb_uint32 p
  reject (leb (length types.types) type_index) unknown_type
  func_type ← require_type types type_index
  (func, p_code) ← load_function_body host import_function_count i func_type p_code
  (funcs, p) ← load_functions host types import_function_count left (i + 1) p p_code
  ok (func ∷ funcs, p)

-- `if (buf_code) read_leb_uint32(p_code, buf_code_end, code_count);` A section that is absent is
-- `none`.
unfoldable pub read_count : Option (List ℕ) → Read ℕ
read_count none = ok (0, [])
read_count (some buf) = read_leb_uint32 buf

unfoldable pub load_function_section :
    Host → TypeTable → ℕ → Option (List ℕ) → List ℕ → Result (List WasmFunction)
load_function_section host types import_function_count buf_code p = do
  (func_count, p) ← read_leb_uint32 p
  (code_count, p_code) ← read_count buf_code
  reject (not (func_count == code_count)) inconsistent_lengths
  reject (ltb (2 ^ 32 - 1 - import_function_count) func_count) function_count_too_large
  loaded ←
      (if func_count == 0
        then ok ([], p)
        else (loader_malloc host functions_array (host.sizeof_pointer * func_count)
            >> load_functions host types import_function_count func_count 0 p p_code))
  check (length loaded.1 == 0) section_size_mismatch
  ok loaded.0

-- The code has been loaded with the functions; only the counts are compared again.
unfoldable pub load_code_section : Option (List ℕ) → List ℕ → Result (Unit {0})
load_code_section buf_func p = do
  (code_count, p) ← read_leb_uint32 p
  (func_count, p_func) ← read_count buf_func
  check (func_count == code_count) inconsistent_lengths

-- The sum is a uint32.
unfoldable pub check_function_index : ℕ → ℕ → ℕ → Result (Unit {0})
check_function_index import_function_count function_count function_index =
    reject (leb ((import_function_count + function_count) % 2 ^ 32) function_index) unknown_function
