-- ===== src/Segments.antt =====
-- Element segments, data segments and the start function: `load_table_segment_section`,
-- `load_data_segment_section`, `load_datacount_section` and `load_start_section` of
-- core/iwasm/common/wasm_loader.c.
pub mod Checked
pub mod Data
use wasm2native.Common.{
  ℕ, zero, suc, ◌+◌, ◌-◌, ◌*◌, ◌%◌, ◌^◌, Bool, true, false, not, ◌&&◌, ◌||◌, Option, none, some,
  List, [], ◌∷◌, length, get_elem?, take, drop, bit_and, nonzero, ltb, leb, ◌==◌, if◌then◌else◌,
}
use wasm2native.Common.Outcome.{
  Result, ok, err, ◌>>=◌, ◌>>◌, check, reject, zero_byte_expected, unknown_table, unknown_memory,
  unknown_function, invalid_element_kind, inconsistent_lengths, section_size_mismatch,
  invalid_start_function,
}
use wasm2native.Functions.{WasmFunction, check_function_index}
use wasm2native.Globals.{GlobalImport, InitExpr, load_init_expr}
use wasm2native.Imports.{Imports, FunctionImport}
use wasm2native.Leb.{Read, read_leb_uint32}
use wasm2native.Limits.{WasmTable, WasmMemory, memory64_flag}
use wasm2native.Loader.{
  Host, table_segments_array, data_segments_array, func_indexes, data_segment, loader_malloc, need,
}
use wasm2native.Wasm.{WasmType, value_type_i32, value_type_i64}

-- What the segments refer to: the parts of WASMModule that are loaded before them.
pub record Loaded : Type 0 where
  pub imports : Imports
  pub functions : List WasmFunction
  pub tables : List WasmTable
  pub memories : List WasmMemory

pub record TableSegment : Type 0 where
  pub table_index : ℕ
  pub base_offset : InitExpr
  pub func_indexes : List ℕ

unfoldable pub check_table_index : Loaded → ℕ → Result (Unit {0})
check_table_index m table_index =
    reject (not (table_index == 0)) zero_byte_expected
    >> reject (leb (length m.imports.tables + length m.tables) table_index) unknown_table

unfoldable pub load_table_index : Loaded → List ℕ → Read ℕ
load_table_index m p = do
  (table_index, p) ← read_leb_uint32 p
  check_table_index m table_index
  ok (table_index, p)

-- The loop over the indices.
unfoldable pub load_func_indexes : Loaded → ℕ → List ℕ → Read (List ℕ)
load_func_indexes m zero p = ok ([], p)
load_func_indexes m (suc left) p = do
  (function_index, p) ← read_leb_uint32 p
  check_function_index (length m.imports.functions) (length m.functions) function_index
  (indexes, p) ← load_func_indexes m left p
  ok (function_index ∷ indexes, p)

unfoldable pub load_func_index_vec : Host → Loaded → ℕ → List ℕ → Read (List ℕ)
load_func_index_vec host m i p = do
  (function_count, p) ← read_leb_uint32 p
  (if function_count == 0 then ok tt else loader_malloc host (func_indexes i) (4 * function_count))
  load_func_indexes m function_count p

-- An element of an array behind the imported ones. There is none out of range, where the C code
-- would read past the arrays.
unfoldable pub imported_or_own {ℓ} : {A : Type ℓ} → List A → List A → ℕ → Option A
imported_or_own imported own i =
    if ltb i (length imported) then get_elem? imported i else get_elem? own (i - length imported)

-- TABLE64_FLAG
abbrev pub table64_flag : ℕ
table64_flag = 0x04

-- Only the low byte of the flags is looked at.
unfoldable pub is_table_table64 : Loaded → ℕ → Result Bool
is_table_table64 m table_idx = elim (imported_or_own m.imports.tables m.tables table_idx) [
  | none ↦ err unknown_table
  | some t ↦ ok (nonzero (bit_and (t.flags % 2 ^ 8) table64_flag))
]

unfoldable pub load_table_segment : Host → Loaded → ℕ → List ℕ → Read TableSegment
load_table_segment host m i p = do
  reject (length p == 0) invalid_element_kind
  (table_index, p) ← load_table_index m p
  is_table64 ← is_table_table64 m table_index
  (base_offset, p) ←
      load_init_expr m.imports.globals (if is_table64 then value_type_i64 else value_type_i32) p
  (indexes, p) ← load_func_index_vec host m i p
  ok (record { table_index = table_index; base_offset = base_offset; func_indexes = indexes }, p)

unfoldable pub load_table_segments : Host → Loaded → ℕ → ℕ → List ℕ → Read (List TableSegment)
load_table_segments host m zero i p = ok ([], p)
load_table_segments host m (suc left) i p = do
  (segment, p) ← load_table_segment host m i p
  (segments, p) ← load_table_segments host m left (i + 1) p
  ok (segment ∷ segments, p)

unfoldable pub load_table_segment_section : Host → Loaded → List ℕ → Result (List TableSegment)
load_table_segment_section host m p = do
  (table_segment_count, p) ← read_leb_uint32 p
  loaded ←
      (if table_segment_count == 0
        then ok ([], p)
        else (loader_malloc host table_segments_array (host.sizeof_table_seg * table_segment_count)
            >> load_table_segments host m table_segment_count 0 p))
  check (length loaded.1 == 0) section_size_mismatch
  ok loaded.0

-- A passive segment has no memory and no offset: `none`.
pub record DataSegment : Type 0 where
  pub active : Option (ℕ × InitExpr)
  pub seg_data : List ℕ

unfoldable pub check_memory_index : Loaded → ℕ → Result (Unit {0})
check_memory_index m mem_index =
    reject (leb (length m.imports.memories + length m.memories) mem_index) unknown_memory

-- The memory of an active segment.
unfoldable pub read_memory_index : Loaded → List ℕ → Read (Option ℕ)
read_memory_index m p = do
  (mem_index, p) ← read_leb_uint32 p
  let mem_flag = bit_and mem_index 0x03
  if mem_flag == 1
      then ok (none, p)
      else if mem_flag == 0
      then (check_memory_index m 0 >> ok (some 0, p))
      else if mem_flag == 2
      then (do
        (mem_index, p) ← read_leb_uint32 p
        check_memory_index m mem_index
        ok (some mem_index, p))
      else err unknown_memory

-- The memory that says how wide the offset is: an imported one, if there is any.
unfoldable pub offset_memory : Loaded → ℕ → Option WasmMemory
offset_memory m mem_index =
    if ltb 0 (length m.imports.memories)
    then get_elem? m.imports.memories mem_index
    else get_elem? m.memories mem_index

unfoldable pub mem_offset_type : Loaded → ℕ → Result ℕ
mem_offset_type m mem_index = elim (offset_memory m mem_index) [
  | none ↦ err unknown_memory
  | some memory ↦
      ok (if nonzero (bit_and memory.flags memory64_flag) then value_type_i64 else value_type_i32)
]

unfoldable pub load_offset : Loaded → Option ℕ → List ℕ → Read (Option (ℕ × InitExpr))
load_offset m none p = ok (none, p)
load_offset m (some mem_index) p = do
  offset_type ← mem_offset_type m mem_index
  (init_expr, p) ← load_init_expr m.imports.globals offset_type p
  ok (some (mem_index, init_expr), p)

unfoldable pub load_data_segment : Host → Loaded → ℕ → List ℕ → Read DataSegment
load_data_segment host m i p = do
  (mem_index, p) ← read_memory_index m p
  (active, p) ← load_offset m mem_index p
  (data_seg_len, p) ← read_leb_uint32 p
  loader_malloc host (data_segment i) host.sizeof_data_seg
  need data_seg_len p
  ok (record { active = active; seg_data = take data_seg_len p }, drop data_seg_len p)

unfoldable pub load_data_segments : Host → Loaded → ℕ → ℕ → List ℕ → Read (List DataSegment)
load_data_segments host m zero i p = ok ([], p)
load_data_segments host m (suc left) i p = do
  (segment, p) ← load_data_segment host m i p
  (segments, p) ← load_data_segments host m left (i + 1) p
  ok (segment ∷ segments, p)

-- The data count section, if there is one, says how many segments there are.
unfoldable pub check_data_count : Option ℕ → ℕ → Result (Unit {0})
check_data_count none data_seg_count = ok tt
check_data_count (some data_seg_count1) data_seg_count =
    check (data_seg_count == data_seg_count1) inconsistent_lengths

unfoldable pub load_data_segment_section :
    Host → Loaded → Option ℕ → List ℕ → Result (List DataSegment)
load_data_segment_section host m data_seg_count1 p = do
  (data_seg_count, p) ← read_leb_uint32 p
  check_data_count data_seg_count1 data_seg_count
  loaded ←
      (if data_seg_count == 0
        then ok ([], p)
        else (loader_malloc host data_segments_array (host.sizeof_pointer * data_seg_count)
            >> load_data_segments host m data_seg_count 0 p))
  check (length loaded.1 == 0) section_size_mismatch
  ok loaded.0

unfoldable pub load_datacount_section : List ℕ → Result ℕ
load_datacount_section p = do
  (data_seg_count1, p) ← read_leb_uint32 p
  check (length p == 0) section_size_mismatch
  ok data_seg_count1

-- The type of a function of the module.
unfoldable pub function_type : Loaded → ℕ → Option WasmType
function_type m start_function =
    if ltb start_function (length m.imports.functions)
    then elim (get_elem? m.imports.functions start_function) [
      | none ↦ none
      | some f ↦ some f.func_type
    ]
    else elim (get_elem? m.functions (start_function - length m.imports.functions)) [
      | none ↦ none
      | some f ↦ some f.func_type
    ]

unfoldable pub check_start_type : Option WasmType → Result (Unit {0})
check_start_type none = err unknown_function
check_start_type (some type) =
    reject (not (type.param_count == 0) || not (type.result_count == 0)) invalid_start_function

unfoldable pub load_start_section : Loaded → List ℕ → Result ℕ
load_start_section m p = do
  (start_function, p) ← read_leb_uint32 p
  reject (leb ((length m.functions + length m.imports.functions) % 2 ^ 32) start_function)
      unknown_function
  check_start_type (function_type m start_function)
  check (length p == 0) section_size_mismatch
  ok start_function
