-- ===== src/Tests/Loads.antt =====
-- Runs of the loaders of core/iwasm/common/wasm_loader.c, on an allocator that always succeeds.
use wasm2native.Common.{
  All, List, [], arith, drop, false, length, none, refl, some, true, ℕ, ◌%◌, ◌+◌, ◌<◌, ◌^◌, ◌∷◌,
  ◌≡◌, ◌≢◌, ◌≤◌,
}
use wasm2native.Common.Outcome.{ok}
use wasm2native.Exports.{
  Export, Spaces, already_exported, c_string, check_export_index, load_export, load_export_section,
  load_exports,
}
use wasm2native.Exports.Checked.{HasUniqueNames, IsSound, load_export_section-IsSound}
use wasm2native.Functions.{
  WasmFunction, check_function_index, count_locals, init_function_local_offsets, load_function_body,
  load_local_types, offsets_from,
}
use wasm2native.Functions.Locals.{IsPlaced, load_function_body-IsPlaced, load_local_types-count}
use wasm2native.Globals.{
  GlobalImport, WasmGlobal, check_global_operand, get_global, i32_const, link_global, load_global,
  load_global_import, load_global_section, load_globals, load_init_expr,
  lookup_builtin_import_global, read_init_value, read_operand,
}
use wasm2native.Globals.Checked.{
  IsConstant, IsSoundGlobal, load_global_section-IsSound, load_init_expr-IsConstant,
}
use wasm2native.Imports.{
  Counts, Imports, count_import, import_kind, load_function_import, load_import,
  load_import_section, load_name, no_counts, no_imports, require_type, resolve_imports,
  scan_imports, skip_limits, skip_max, skip_name,
}
use wasm2native.Imports.Counted.{IsCounted, resolve_imports-IsCounted}
use wasm2native.Imports.Few.{load_import_section_few}
use wasm2native.Leb.{
  check_top_bits, finish_leb, read_leb, read_leb_int32, read_leb_int64, read_leb_loop,
  read_leb_uint32, sign_extend,
}
use wasm2native.Limits.{
  WasmMemory, WasmTable, adjust_table_max_size, check_memory_flags, check_memory_init_size,
  check_memory_max_size, check_table_max_size, link_memory, link_table, load_memories, load_memory,
  load_memory_import, load_memory_section, load_table_import, read_memory_max, read_table_max,
}
use wasm2native.Limits.Memories.{IsValidMemory, load_memory_section_one}
use wasm2native.Loader.{
  Host, is_value_type, loader_malloc, need, need1, read_uint8, read_uint8s, skip,
}
use wasm2native.Names.{const_str_list_insert, listed}
use wasm2native.Sections.{
  Section, create_sections, get_section_index, index_from, link_section, next_index, no_index,
  read_section, sections_from,
}
use wasm2native.Sections.Layout.{
  IsLaidOut, IsOrdered, create_sections-IsLaidOut, create_sections_total,
}
use wasm2native.Segments.{
  DataSegment, Loaded, TableSegment, check_data_count, check_memory_index, check_start_type,
  check_table_index, function_type, imported_or_own, is_table_table64, load_data_segment,
  load_data_segment_section, load_data_segments, load_func_index_vec, load_func_indexes,
  load_offset, load_start_section, load_table_index, load_table_segment, load_table_segment_section,
  load_table_segments, mem_offset_type, offset_memory, read_memory_index,
}
use wasm2native.Segments.Checked.{
  IsSoundElem, load_start_section-IsSound, load_table_segment_section-IsSound,
}
use wasm2native.Segments.Data.{IsSoundData, load_data_segment_section-IsSound}
use wasm2native.Types.{
  TypeTable, add_reference, all_value_types, find_equal, load_type_entry, load_type_section,
  load_types, share_type, type_at,
}
use wasm2native.Types.Section.{IsLoaded, load_type_section-IsLoaded}
use wasm2native.Types.Sharing.{count}
use wasm2native.Utf8.{bad_four, bad_three, check_utf8_str}
use wasm2native.Wasm.{
  WasmType, smallest_from, wasm_get_cell_num, wasm_get_smallest_type_idx, wasm_type_equal,
  wasm_value_type_cell_num, wasm_value_type_size,
}

abbrev pub host : Host
host = record {
  malloc = λ site size. true;
  sizeof_pointer = 8;
  sizeof_type = 24;
  sizeof_import = 64;
  sizeof_function = 96;
  sizeof_table = 24;
  sizeof_memory = 16;
  sizeof_global = 32;
  sizeof_export = 16;
  sizeof_table_seg = 48;
  sizeof_data_seg = 56;
  sizeof_section = 32;
  sizeof_string_node = 16;
}

abbrev takes_i32 : ℕ → WasmType
takes_i32 ref_count = record {
  param_count = 1;
  result_count = 0;
  param_cell_num = 1;
  ret_cell_num = 0;
  ref_count = ref_count;
  types = 0x7F ∷ [];
}

-- Two equal types share an object.
abbrev two_types : TypeTable
two_types = record { objects = takes_i32 2 ∷ []; types = 0 ∷ 0 ∷ [] }

abbrev type_bytes : List ℕ
type_bytes = 2 ∷ 0x60 ∷ 1 ∷ 0x7F ∷ 0 ∷ 0x60 ∷ 1 ∷ 0x7F ∷ 0 ∷ []

abbrev types_loaded : load_type_section host type_bytes ≡ ok two_types
unfolding add_reference all_value_types check_top_bits find_equal finish_leb is_value_type
    load_type_entry load_type_section load_types loader_malloc need read_leb read_leb_loop
    read_leb_uint32 read_uint8 read_uint8s share_type sign_extend skip wasm_get_cell_num
    wasm_type_equal wasm_value_type_cell_num wasm_value_type_size
types_loaded = refl

load_type_section-IsLoaded_example : IsLoaded two_types
load_type_section-IsLoaded_example =
    load_type_section-IsLoaded host type_bytes two_types types_loaded

-- A file with a custom section and an empty type section.
abbrev file : List ℕ
file = 0 ∷ 0x61 ∷ 0x73 ∷ 0x6d ∷ 1 ∷ 0 ∷ 0 ∷ 0 ∷ 0 ∷ 2 ∷ 1 ∷ b'a' ∷ 1 ∷ 1 ∷ 0 ∷ []

abbrev sections : List Section
sections =
    (record { section_type = 0; section_index = 0; section_body = 1 ∷ b'a' ∷ [] })
    ∷ (record { section_type = 1; section_index = 1; section_body = 0 ∷ [] })
    ∷ []

abbrev sections_made : create_sections host file ≡ some (ok sections)
unfolding check_top_bits create_sections finish_leb get_section_index index_from link_section
    loader_malloc need1 next_index read_leb read_leb_loop read_leb_uint32 read_section read_uint8
    sections_from sign_extend
sections_made = refl

create_sections-IsLaidOut_example : IsLaidOut (drop 8 file) sections × IsOrdered no_index sections
create_sections-IsLaidOut_example = create_sections-IsLaidOut host file sections sections_made

create_sections_total_example : create_sections host file ≢ none
create_sections_total_example = create_sections_total host file

-- The function f of the module e.
abbrev import_bytes : List ℕ
import_bytes = 1 ∷ b'e' ∷ 1 ∷ b'f' ∷ 0 ∷ 1 ∷ []

abbrev one_import : Imports
one_import = record {
  functions =
      (record {
        module_name = b'e' ∷ [];
        field_name = b'f' ∷ [];
        func_idx = 0;
        func_type = takes_i32 2;
      })
      ∷ [];
  tables = [];
  memories = [];
  globals = [];
}

abbrev one_function : Counts
one_function = record {
  import_function_count = 1;
  import_table_count = 0;
  import_memory_count = 0;
  import_global_count = 0;
}

abbrev imports_scanned : scan_imports 1 no_counts import_bytes ≡ ok one_function
unfolding check_top_bits count count_import finish_leb import_kind need read_leb read_leb_loop
    read_leb_uint32 read_uint8 scan_imports sign_extend skip skip_limits skip_max skip_name
imports_scanned = refl

abbrev imports_resolved :
    resolve_imports host two_types true 1 0 [] no_imports import_bytes ≡ ok ((one_import, []), [])
unfolding adjust_table_max_size bad_four bad_three check_memory_flags check_memory_init_size
    check_memory_max_size check_table_max_size check_top_bits check_utf8_str const_str_list_insert
    finish_leb import_kind is_value_type link_global link_memory link_table listed
    load_function_import load_global_import load_import load_memory load_memory_import load_name
    load_table_import loader_malloc lookup_builtin_import_global need read_leb read_leb_loop
    read_leb_uint32 read_memory_max read_table_max read_uint8 require_type resolve_imports
    sign_extend smallest_from type_at wasm_get_smallest_type_idx wasm_type_equal
imports_resolved = refl

resolve_imports-IsCounted_example : IsCounted one_function one_import
resolve_imports-IsCounted_example =
    resolve_imports-IsCounted host two_types true 1 [] import_bytes one_function
      ((one_import, []), []) imports_scanned imports_resolved

abbrev imports_loaded :
    load_import_section host two_types true [] (1 ∷ import_bytes) ≡ ok (one_import, [])
unfolding adjust_table_max_size bad_four bad_three check_memory_flags check_memory_init_size
    check_memory_max_size check_table_max_size check_top_bits check_utf8_str const_str_list_insert
    count count_import finish_leb import_kind is_value_type link_global link_memory link_table
    listed load_function_import load_global_import load_import load_import_section load_memory
    load_memory_import load_name load_table_import loader_malloc lookup_builtin_import_global need
    read_leb read_leb_loop read_leb_uint32 read_memory_max read_table_max read_uint8 require_type
    resolve_imports scan_imports sign_extend skip skip_limits skip_max skip_name smallest_from
    type_at wasm_get_smallest_type_idx wasm_type_equal
imports_loaded = refl

load_import_section_few_example :
    (length (one_import.tables) ≤ 1) × (length (one_import.memories) ≤ 1)
load_import_section_few_example =
    load_import_section_few host two_types true [] (1 ∷ import_bytes) (one_import, [])
      imports_loaded

abbrev spaces : Spaces
spaces = record { functions = 1; tables = 1; memories = 1; globals = 0 }

-- A function and a memory.
abbrev exports : List Export
exports =
    (record { name = b'f' ∷ []; kind = 0; index = 0 })
    ∷ (record { name = b'm' ∷ []; kind = 2; index = 0 })
    ∷ []

abbrev export_bytes : List ℕ
export_bytes = 2 ∷ 1 ∷ b'f' ∷ 0 ∷ 0 ∷ 1 ∷ b'm' ∷ 2 ∷ 0 ∷ []

abbrev exports_loaded : load_export_section host spaces true 0 [] export_bytes ≡ ok (exports, [])
unfolding already_exported bad_four bad_three c_string check_export_index check_top_bits
    check_utf8_str const_str_list_insert finish_leb listed load_export load_export_section
    load_exports loader_malloc need read_leb read_leb_loop read_leb_uint32 read_uint8 sign_extend
exports_loaded = refl

load_export_section-IsSound_example : All (IsSound spaces) exports × HasUniqueNames exports
load_export_section-IsSound_example =
    load_export_section-IsSound host spaces true 0 [] export_bytes (exports, []) exports_loaded

-- A parameter of a cell, and two locals of two cells each.
abbrev function_with_locals : WasmFunction
function_with_locals = record {
  func_type = takes_i32 2;
  func_idx = 0;
  local_types = 0x7E ∷ 0x7E ∷ [];
  code_size = 1;
  code = 0x0B ∷ [];
  param_cell_num = 1;
  ret_cell_num = 0;
  local_cell_num = 4;
  local_offsets = 0 ∷ 1 ∷ 3 ∷ [];
}

abbrev body_loaded :
    load_function_body host 0 0 (takes_i32 2) (4 ∷ 1 ∷ 2 ∷ 0x7E ∷ 0x0B ∷ [])
    ≡ ok (function_with_locals, [])
unfolding check_top_bits count count_locals finish_leb init_function_local_offsets is_value_type
    load_function_body load_local_types loader_malloc offsets_from read_leb read_leb_loop
    read_leb_uint32 read_uint8 sign_extend wasm_get_cell_num wasm_value_type_cell_num
    wasm_value_type_size
body_loaded = refl

load_function_body-IsPlaced_example : IsPlaced function_with_locals
load_function_body-IsPlaced_example =
    load_function_body-IsPlaced host 0 0 (takes_i32 2) (4 ∷ 1 ∷ 2 ∷ 0x7E ∷ 0x0B ∷ [])
      function_with_locals [] body_loaded

abbrev two_i64 : List ℕ
two_i64 = 0x7E ∷ 0x7E ∷ []

abbrev locals_counted : count_locals 1 0 (2 ∷ 0x7E ∷ 0x0B ∷ []) ≡ ok (2, 0x0B ∷ [])
unfolding check_top_bits count count_locals finish_leb read_leb read_leb_loop read_leb_uint32
    read_uint8 sign_extend
locals_counted = refl

abbrev locals_typed : load_local_types 2 1 [] (2 ∷ 0x7E ∷ 0x0B ∷ []) ≡ ok (0x7E ∷ 0x7E ∷ [])
unfolding check_top_bits finish_leb is_value_type load_local_types read_leb read_leb_loop
    read_leb_uint32 read_uint8 sign_extend
locals_typed = refl

load_local_types-count_example : (length two_i64 ≡ 2) × All (λ t. is_value_type t ≡ true) two_i64
load_local_types-count_example =
    load_local_types-count 1 2 (2 ∷ 0x7E ∷ 0x0B ∷ []) (0x0B ∷ []) (0x7E ∷ 0x7E ∷ []) locals_counted
      locals_typed

abbrev takes_nothing : WasmType
takes_nothing = record {
  param_count = 0;
  result_count = 0;
  param_cell_num = 0;
  ret_cell_num = 0;
  ref_count = 1;
  types = [];
}

abbrev plain_function : WasmFunction
plain_function = record {
  func_type = takes_nothing;
  func_idx = 0;
  local_types = [];
  code_size = 1;
  code = 0x0B ∷ [];
  param_cell_num = 0;
  ret_cell_num = 0;
  local_cell_num = 0;
  local_offsets = [];
}

abbrev table : WasmTable
table = record { elem_type = 0x70; flags = 0; init_size = 10; max_size = 1024 }

abbrev memory : WasmMemory
memory = record { flags = 3; num_bytes_per_page = 65536; init_page_count = 1; max_page_count = 2 }

abbrev module_loaded : Loaded
module_loaded = record {
  imports = no_imports;
  functions = plain_function ∷ [];
  tables = table ∷ [];
  memories = memory ∷ [];
}

abbrev segment : TableSegment
segment = record { table_index = 0; base_offset = i32_const 5; func_indexes = 0 ∷ [] }

abbrev elem_bytes : List ℕ
elem_bytes = 1 ∷ 0 ∷ 0x41 ∷ 5 ∷ 0x0B ∷ 1 ∷ 0 ∷ []

abbrev elem_loaded : load_table_segment_section host module_loaded elem_bytes ≡ ok (segment ∷ [])
unfolding check_function_index check_global_operand check_table_index check_top_bits finish_leb
    imported_or_own is_table_table64 load_func_index_vec load_func_indexes load_init_expr
    load_table_index load_table_segment load_table_segment_section load_table_segments loader_malloc
    need read_init_value read_leb read_leb_int32 read_leb_int64 read_leb_loop read_leb_uint32
    read_operand read_uint8 read_uint8s sign_extend
elem_loaded = refl

load_table_segment_section-IsSound_example : All (IsSoundElem module_loaded) (segment ∷ [])
load_table_segment_section-IsSound_example =
    load_table_segment_section-IsSound host module_loaded elem_bytes (segment ∷ []) elem_loaded

abbrev hi : DataSegment
hi = record { active = some (0, i32_const 16); seg_data = b'h' ∷ b'i' ∷ [] }

abbrev data_bytes : List ℕ
data_bytes = 1 ∷ 0 ∷ 0x41 ∷ 16 ∷ 0x0B ∷ 2 ∷ b'h' ∷ b'i' ∷ []

abbrev data_loaded : load_data_segment_section host module_loaded (some 1) data_bytes ≡ ok (hi ∷ [])
unfolding check_data_count check_global_operand check_memory_index check_top_bits count finish_leb
    load_data_segment load_data_segment_section load_data_segments load_init_expr load_offset
    loader_malloc mem_offset_type need offset_memory read_init_value read_leb read_leb_int32
    read_leb_int64 read_leb_loop read_leb_uint32 read_memory_index read_operand read_uint8
    read_uint8s sign_extend
data_loaded = refl

load_data_segment_section-IsSound_example :
    (length (hi ∷ []) ≡ 1) × All (IsSoundData module_loaded) (hi ∷ [])
load_data_segment_section-IsSound_example =
    load_data_segment_section-IsSound host module_loaded 1 data_bytes (hi ∷ []) data_loaded

abbrev start_loaded : load_start_section module_loaded (0 ∷ []) ≡ ok 0
unfolding check_start_type check_top_bits finish_leb function_type load_start_section read_leb
    read_leb_loop read_leb_uint32 sign_extend
start_loaded = refl

load_start_section-IsSound_example :
    (0 < (length (module_loaded.functions) + length (module_loaded.imports.functions)) % 2 ^ 32)
    × ((t : WasmType) × (function_type module_loaded 0 ≡ some t)
        × (t.param_count ≡ 0)
        × (t.result_count ≡ 0))
load_start_section-IsSound_example =
    load_start_section-IsSound module_loaded (0 ∷ []) 0 start_loaded

abbrev fixed_global : GlobalImport
fixed_global = record {
  module_name = b'e' ∷ [];
  field_name = b'g' ∷ [];
  type = 0x7F;
  is_mutable = false;
  global_data_linked = 0;
  is_linked = false;
}

abbrev expr_loaded :
    load_init_expr (fixed_global ∷ []) 0x7F (0x23 ∷ 0 ∷ 0x0B ∷ []) ≡ ok (get_global 0, [])
unfolding check_global_operand check_top_bits finish_leb load_init_expr need read_init_value
    read_leb read_leb_int32 read_leb_int64 read_leb_loop read_leb_uint32 read_operand read_uint8
    read_uint8s sign_extend
expr_loaded = refl

load_init_expr-IsConstant_example : IsConstant (fixed_global ∷ []) 0x7F (get_global 0)
load_init_expr-IsConstant_example =
    load_init_expr-IsConstant (fixed_global ∷ []) 0x7F (0x23 ∷ 0 ∷ 0x0B ∷ []) (get_global 0) []
      expr_loaded

abbrev answer : WasmGlobal
answer = record { type = 0x7F; is_mutable = false; init_expr = i32_const 42 }

abbrev globals_loaded :
    load_global_section host [] (1 ∷ 0x7F ∷ 0 ∷ 0x41 ∷ 0x2A ∷ 0x0B ∷ []) ≡ ok (answer ∷ [])
unfolding check_global_operand check_top_bits finish_leb is_value_type load_global
    load_global_section load_globals load_init_expr loader_malloc need read_init_value read_leb
    read_leb_int32 read_leb_int64 read_leb_loop read_leb_uint32 read_operand read_uint8 read_uint8s
    sign_extend
globals_loaded = refl

load_global_section-IsSound_example : All (IsSoundGlobal []) (answer ∷ [])
load_global_section-IsSound_example =
    load_global_section-IsSound host [] (1 ∷ 0x7F ∷ 0 ∷ 0x41 ∷ 0x2A ∷ 0x0B ∷ []) (answer ∷ [])
      globals_loaded

abbrev memories_loaded : load_memory_section host 0 (1 ∷ 3 ∷ 1 ∷ 2 ∷ []) ≡ ok (memory ∷ [])
unfolding check_memory_flags check_memory_init_size check_memory_max_size check_top_bits finish_leb
    load_memories load_memory load_memory_section loader_malloc read_leb read_leb_loop
    read_leb_uint32 read_memory_max sign_extend
memories_loaded = refl

load_memory_section_one_example : (0 + length (memory ∷ []) ≤ 1) × All IsValidMemory (memory ∷ [])
load_memory_section_one_example =
    load_memory_section_one host 0 (1 ∷ 3 ∷ 1 ∷ 2 ∷ []) (memory ∷ []) (omega arith) (omega arith)
      memories_loaded
