-- ===== src/Tests/Sections.antt =====
-- The sections of a small module are loaded, and its function is validated
-- (core/iwasm/common/wasm_loader.c).
use wasm2native.Common.{List, [], get_elem?, refl, some, true, ℕ, ◌∷◌, ◌≡◌}
use wasm2native.Common.Outcome.{ok}
use wasm2native.Functions.{
  count_locals, init_function_local_offsets, load_function_body, load_function_section,
  load_functions, load_local_types, offsets_from, read_count,
}
use wasm2native.Globals.{
  check_global_operand, link_global, load_global, load_global_import, load_global_section,
  load_globals, load_init_expr, lookup_builtin_import_global, read_init_value, read_operand,
}
use wasm2native.Imports.{
  count_import, import_kind, load_function_import, load_import, load_import_section, load_name,
  require_type, resolve_imports, scan_imports, skip_limits, skip_max, skip_name,
}
use wasm2native.Leb.{
  check_top_bits, finish_leb, read_leb, read_leb_int32, read_leb_int64, read_leb_loop,
  read_leb_uint32, sign_extend,
}
use wasm2native.Limits.{
  adjust_table_max_size, check_memory_flags, check_memory_init_size, check_memory_max_size,
  check_table_max_size, link_memory, link_table, load_memory, load_memory_import, load_table_import,
  read_memory_max, read_table_max,
}
use wasm2native.Loader.{is_value_type, loader_malloc, need, read_uint8, read_uint8s, skip}
use wasm2native.Names.{const_str_list_insert, listed}
use wasm2native.Tests.Bodies.{choice}
use wasm2native.Tests.Loads.{host}
use wasm2native.Types.{
  add_reference, all_value_types, find_equal, load_type_entry, load_type_section, load_types,
  share_type, type_at,
}
use wasm2native.Types.Sharing.{count}
use wasm2native.Utf8.{bad_four, bad_three, check_utf8_str}
use wasm2native.Validator.{wasm_loader_prepare_bytecode}
use wasm2native.Validator.Ended.{IsValidated}
use wasm2native.Validator.Sourced.{wasm_loader_prepare_bytecode_loaded}
use wasm2native.Wasm.{
  func, smallest_from, wasm_get_cell_num, wasm_get_smallest_type_idx, wasm_type_equal,
  wasm_value_type_cell_num, wasm_value_type_size,
}

abbrev choice_types : List ℕ
choice_types = 1 ∷ 0x60 ∷ 0 ∷ 1 ∷ 0x7E ∷ []

abbrev choice_code : List ℕ
choice_code = 1 ∷ 9 ∷ 0 ∷ 0x42 ∷ 0x2a ∷ 0x42 ∷ 0x01 ∷ 0x41 ∷ 0x00 ∷ 0x1b ∷ 0x0b ∷ []

choice_types_loaded : load_type_section host choice_types ≡ ok choice.wasm_module.types
unfolding add_reference all_value_types check_top_bits find_equal finish_leb is_value_type
    load_type_entry load_type_section load_types loader_malloc need read_leb read_leb_loop
    read_leb_uint32 read_uint8 read_uint8s share_type sign_extend skip wasm_get_cell_num
    wasm_type_equal wasm_value_type_cell_num wasm_value_type_size
choice_types_loaded = refl

choice_imports_loaded :
    load_import_section host choice.wasm_module.types true [] (0 ∷ [])
    ≡ ok (choice.wasm_module.loaded.imports, [])
unfolding adjust_table_max_size bad_four bad_three check_memory_flags check_memory_init_size
    check_memory_max_size check_table_max_size check_top_bits check_utf8_str const_str_list_insert
    count count_import finish_leb import_kind is_value_type link_global link_memory link_table
    listed load_function_import load_global_import load_import load_import_section load_memory
    load_memory_import load_name load_table_import loader_malloc lookup_builtin_import_global need
    read_leb read_leb_loop read_leb_uint32 read_memory_max read_table_max read_uint8 require_type
    resolve_imports scan_imports sign_extend skip skip_limits skip_max skip_name smallest_from
    type_at wasm_get_smallest_type_idx wasm_type_equal
choice_imports_loaded = refl

choice_functions_loaded :
    load_function_section host choice.wasm_module.types 0 (some choice_code) (1 ∷ 0 ∷ [])
    ≡ ok choice.wasm_module.loaded.functions
unfolding check_top_bits count count_locals finish_leb init_function_local_offsets is_value_type
    load_function_body load_function_section load_functions load_local_types loader_malloc
    offsets_from read_count read_leb read_leb_loop read_leb_uint32 read_uint8 require_type
    sign_extend smallest_from type_at wasm_get_cell_num wasm_get_smallest_type_idx wasm_type_equal
    wasm_value_type_cell_num wasm_value_type_size
choice_functions_loaded = refl

choice_globals_loaded :
    load_global_section host choice.wasm_module.loaded.imports.globals (0 ∷ [])
    ≡ ok choice.wasm_module.globals
unfolding check_global_operand check_top_bits finish_leb is_value_type load_global
    load_global_section load_globals load_init_expr loader_malloc need read_init_value read_leb
    read_leb_int32 read_leb_int64 read_leb_loop read_leb_uint32 read_operand read_uint8 read_uint8s
    sign_extend
choice_globals_loaded = refl

choice_found : get_elem? choice.wasm_module.loaded.functions 0 ≡ some choice.func
choice_found = refl

wasm_loader_prepare_bytecode_loaded_example :
    IsValidated (func choice.func.func_type) (wasm_loader_prepare_bytecode choice)
wasm_loader_prepare_bytecode_loaded_example =
    wasm_loader_prepare_bytecode_loaded host true choice 0 0 [] [] choice_types (0 ∷ [])
      (1 ∷ 0 ∷ []) (0 ∷ []) (some choice_code) choice_types_loaded choice_imports_loaded
      choice_functions_loaded choice_globals_loaded choice_found
