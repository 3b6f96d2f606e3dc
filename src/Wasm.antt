-- ===== src/Wasm.antt =====
-- core/iwasm/common/wasm.h: the value types, the data of a loaded module, and the inline functions
-- over them. A C string is the list of its bytes; an array is a list, and its length stands for the
-- count that the C structure keeps beside it.
pub mod Cells
use wasm2native.Common.{
  ℕ, zero, suc, ◌+◌, ◌/◌, ◌%◌, ◌^◌, Bool, true, false, not, ◌&&◌, ◌||◌, Option, none, some, List,
  [], ◌∷◌, ◌++◌, length, get_elem?, take, drop, ◌==◌, same_bytes, if◌then◌else◌,
}

abbrev pub value_type_i32 : ℕ
value_type_i32 = 0x7F

abbrev pub value_type_i64 : ℕ
value_type_i64 = 0x7E

abbrev pub value_type_f32 : ℕ
value_type_f32 = 0x7D

abbrev pub value_type_f64 : ℕ
value_type_f64 = 0x7C

abbrev pub value_type_v128 : ℕ
value_type_v128 = 0x7B

abbrev pub value_type_funcref : ℕ
value_type_funcref = 0x70

abbrev pub value_type_void : ℕ
value_type_void = 0x40

abbrev pub value_type_any : ℕ
value_type_any = 0x42

-- In a build without assertions the default case returns 0.
unfoldable pub wasm_value_type_size : ℕ → ℕ
wasm_value_type_size value_type =
    if value_type == value_type_i32 || value_type == value_type_f32
    then 4
    else if value_type == value_type_i64 || value_type == value_type_f64
    then 8
    else if value_type == value_type_v128
    then 16
    else 0

unfoldable pub wasm_value_type_cell_num : ℕ → ℕ
unfolding wasm_value_type_size
wasm_value_type_cell_num value_type = wasm_value_type_size value_type / 4

-- The sum is a uint32.
unfoldable pub wasm_get_cell_num : List ℕ → ℕ → ℕ
wasm_get_cell_num [] cell_num = cell_num
wasm_get_cell_num (type ∷ types) cell_num =
    wasm_get_cell_num types ((cell_num + wasm_value_type_cell_num type) % 2 ^ 32)

-- `types` holds the parameters' types and then the results'.
pub record WasmType : Type 0 where
  pub param_count : ℕ
  pub result_count : ℕ
  pub param_cell_num : ℕ
  pub ret_cell_num : ℕ
  pub ref_count : ℕ
  pub types : List ℕ

-- Two types at different addresses.
unfoldable pub wasm_type_equal : WasmType → WasmType → Bool
wasm_type_equal type1 type2 =
    type1.param_count == type2.param_count
    && (type1.result_count == type2.result_count && same_bytes type1.types type2.types)

-- The first type equal to `type` from index `i` on, below `cur_type_idx`; `left` is the number of
-- rounds to go.
unfoldable pub smallest_from : (ℕ → Option WasmType) → WasmType → ℕ → ℕ → ℕ → ℕ
smallest_from type_at type zero i cur_type_idx = cur_type_idx
smallest_from type_at type (suc left) i cur_type_idx =
    let rest = smallest_from type_at type left (i + 1) cur_type_idx in
    elim (type_at i) [ none ↦ rest | some other ↦ if wasm_type_equal type other then i else rest ]

unfoldable pub wasm_get_smallest_type_idx : (ℕ → Option WasmType) → ℕ → ℕ
wasm_get_smallest_type_idx type_at cur_type_idx = elim (type_at cur_type_idx) [
  | none ↦ cur_type_idx
  | some type ↦ smallest_from type_at type cur_type_idx 0 cur_type_idx
]

-- A block's type is a single value type or a function type.
pub data BlockType : Type 0 where
  value : ℕ → BlockType
  func : WasmType → BlockType

unfoldable pub block_type_get_param_types : BlockType → List ℕ
block_type_get_param_types (value v) = []
block_type_get_param_types (func t) = take t.param_count t.types

unfoldable pub block_type_get_result_types : BlockType → List ℕ
block_type_get_result_types (value v) = if v == value_type_void then [] else v ∷ []
block_type_get_result_types (func t) = take t.result_count (drop t.param_count t.types)

abbrev pub label_type_block : ℕ
label_type_block = 0

abbrev pub label_type_loop : ℕ
label_type_loop = 1

abbrev pub label_type_if : ℕ
label_type_if = 2

abbrev pub label_type_function : ℕ
label_type_function = 3

unfoldable pub block_type_get_arity : BlockType → ℕ → ℕ
block_type_get_arity (value v) label_type =
    if label_type == label_type_loop then 0 else if v == value_type_void then 0 else 1
block_type_get_arity (func t) label_type =
    if label_type == label_type_loop then t.param_count else t.result_count
