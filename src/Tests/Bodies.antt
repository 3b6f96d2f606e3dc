-- ===== src/Tests/Bodies.antt =====
-- The validator of a function's code (core/iwasm/common/wasm_loader.c) on small functions.
use wasm2native.Access.{
  access_pops, access_pushes, accessed_type, apply_signature, const_type, handle_data_drop,
  handle_memory_copy, handle_memory_fill, handle_memory_init, handle_op_access, handle_op_const,
  handle_op_memory_size, handle_op_misc, handle_saturating, note_grow, note_memory, skip_const,
}
use wasm2native.Atomic.{
  atomic_pops, atomic_pushes, atomic_type, check_atomic_access, handle_op_atomic,
}
use wasm2native.Atomic.Opened.{handle_op_atomic_refused}
use wasm2native.Branches.{
  backup_cells, block_at, check_block_stack, check_branch_block, check_top_types, label_types,
  pop_types, push_types, repush_types, reset_stack, wasm_loader_check_br,
}
use wasm2native.Common.{
  Bool, List, Option, [], arith, false, inr, none, refl, some, true, ℕ, ◌^◌, ◌↔◌, ◌∷◌, ◌≡◌, ◌≤◌,
}
use wasm2native.Common.Ensures.{Ensures}
use wasm2native.Common.Outcome.{LoadError, Result, err, ok}
use wasm2native.Control.{
  extend_opcode, handle_op_block_and_loop, handle_op_else, handle_op_end, handle_op_if, pop_params,
  read_block_type, set_else,
}
use wasm2native.Control.Closed.{IsNext, pending, pending_block}
use wasm2native.Functions.{WasmFunction, check_function_index}
use wasm2native.Imports.{no_imports}
use wasm2native.Jumps.{
  check_depths, check_return_call, check_targets, handle_op_br, handle_op_br_if, handle_op_br_table,
  handle_op_call, handle_op_call_indirect, handle_op_return, need_cache, pass_arguments,
  rewrite_bytes, rewrite_table,
}
use wasm2native.Leb.{
  check_top_bits, finish_leb, read_leb, read_leb_int32, read_leb_int64, read_leb_loop,
  read_leb_mem_offset, read_leb_uint32, sign_extend,
}
use wasm2native.Loader.{
  is_32bit_type, is_64bit_type, is_byte_a_type, is_value_type, need, need1, read_uint8, skip,
}
use wasm2native.Opcodes.{
  arithmetic_signature, check_memory_access_align, check_memory_align_equal, check_simd_access_lane,
  check_simd_memory_access_align, check_simd_shuffle_mask, compare_signature, numeric_signature,
  or_else, same_bits_signature, saturating_signature, to_float_signature, to_int_signature,
  vector_signature, within,
}
use wasm2native.Opcodes.Aligned.{
  access_bytes, check_memory_access_align_iff, check_simd_memory_access_align_iff, vector_bytes,
}
use wasm2native.Operands.{
  LoaderContext, any_on_top, cells_to_pop, check_stack_pop, check_stack_top_values, grow_csp,
  memory_realloc, note_height, pop_in_block, pop_times, push_cell, push_upper_cells, top_cells,
  wasm_loader_pop_frame_csp, wasm_loader_pop_frame_ref, wasm_loader_push_frame_csp,
  wasm_loader_push_frame_ref, wasm_loader_push_pop_frame_ref,
}
use wasm2native.Program.{
  Scope, called_type, check_memory, exchange, first_memory, global_at, has_memory,
  has_module_memory64, imported_global, imported_type, local_at, offset_value_type, own_global,
  own_type, read_local_type, read_zero_byte, rewrite_byte, type_of,
}
use wasm2native.Program.Typed.{IsTyped, IsTypedFunction, IsTypedType}
use wasm2native.Segments.{
  check_table_index, imported_or_own, is_table_table64, mem_offset_type, offset_memory,
}
use wasm2native.Tests.Frames.{i64-IsOpen, i64_context}
use wasm2native.Tests.Stacks.{room}
use wasm2native.Types.{all_value_types, type_at}
use wasm2native.Types.Sharing.{count}
use wasm2native.Validator.{
  code_bytes, enter_function, handle_control, handle_numeric, handle_op, handle_unreachable,
  handle_variable, leave_function, memory_from, run, wasm_loader_ctx_init,
  wasm_loader_prepare_bytecode,
}
use wasm2native.Validator.Dispatched.{handle_op-IsNext}
use wasm2native.Validator.Ended.{
  HasRun, IsValidated, run-HasRun, wasm_loader_prepare_bytecode-IsValidated,
}
use wasm2native.Variables.{
  drop_cells, drop_value, handle_op_drop, handle_op_get_global, handle_op_get_local,
  handle_op_select, handle_op_set_global, handle_op_set_local, handle_op_tee_local,
  rewrite_set_global, select_type, top_cell,
}
use wasm2native.Vector.{
  handle_op_simd, handle_simd_access, handle_simd_const, handle_simd_lane, handle_simd_lane_access,
  handle_simd_plain, handle_simd_shuffle, lane_pops, read_simd_access,
}
use wasm2native.Wasm.{
  WasmType, block_type_get_arity, block_type_get_param_types, block_type_get_result_types, func,
  value, wasm_get_cell_num, wasm_value_type_cell_num, wasm_value_type_size,
}
use wasm2native.Wasm.Cells.{cells}

abbrev answer_type : WasmType
answer_type = record {
  param_count = 0;
  result_count = 1;
  param_cell_num = 0;
  ret_cell_num = 2;
  ref_count = 1;
  types = 0x7E ∷ [];
}

-- A function of the type, with the code.
abbrev with_code : ℕ → List ℕ → WasmFunction
with_code code_size code = record {
  func_type = answer_type;
  func_idx = 0;
  local_types = [];
  code_size = code_size;
  code = code;
  param_cell_num = 0;
  ret_cell_num = 2;
  local_cell_num = 0;
  local_offsets = [];
}

abbrev scope_of : WasmFunction → Scope
scope_of function = record {
  wasm_module = record {
    types = record { objects = answer_type ∷ []; types = 0 ∷ [] };
    loaded = record { imports = no_imports; functions = function ∷ []; tables = []; memories = [] };
    globals = [];
    data_seg_count = 0;
    data_seg_count1 = 0;
    aux_stack_size = 0;
    aux_stack_top_global_index = 0;
  };
  func = function;
  cur_func_idx = 0;
  behind = λ i. 0;
  grow = room;
  sizeof_context = 64;
  sizeof_block = 40;
  offsetof_br_depths = 24;
}

-- i64.const 42, i64.const 1, i32.const 0, select, end
abbrev pub choice : Scope
choice = scope_of (with_code 8 (0x42 ∷ 0x2a ∷ 0x42 ∷ 0x01 ∷ 0x41 ∷ 0x00 ∷ 0x1b ∷ 0x0b ∷ []))

choice-IsTyped : IsTyped choice
unfolding IsTypedFunction IsTypedType all_value_types is_value_type
choice-IsTyped = record {
  types = (refl, tt);
  imports = tt;
  functions = ((refl, refl), tt);
  import_globals = tt;
  globals = tt;
  func = (refl, refl);
}

wasm_loader_prepare_bytecode-IsValidated_example :
    IsValidated (func answer_type) (wasm_loader_prepare_bytecode choice)
wasm_loader_prepare_bytecode-IsValidated_example =
    wasm_loader_prepare_bytecode-IsValidated choice choice-IsTyped

abbrev accepts : Option (Result LoaderContext) → Bool
accepts none = false
accepts (some (err e)) = false
accepts (some (ok c)) = true

choice_accepted : accepts (wasm_loader_prepare_bytecode choice) ≡ true
unfolding access_pops access_pushes accessed_type any_on_top apply_signature arithmetic_signature
    atomic_pops atomic_pushes atomic_type backup_cells block_at block_type_get_arity
    block_type_get_param_types block_type_get_result_types called_type cells cells_to_pop
    check_atomic_access check_block_stack check_branch_block check_depths check_function_index
    check_memory check_memory_access_align check_memory_align_equal check_return_call
    check_simd_access_lane check_simd_memory_access_align check_simd_shuffle_mask check_stack_pop
    check_stack_top_values check_table_index check_targets check_top_bits check_top_types code_bytes
    compare_signature const_type count drop_cells drop_value enter_function exchange extend_opcode
    finish_leb first_memory global_at grow_csp handle_control handle_data_drop handle_memory_copy
    handle_memory_fill handle_memory_init handle_numeric handle_op handle_op_access handle_op_atomic
    handle_op_block_and_loop handle_op_br handle_op_br_if handle_op_br_table handle_op_call
    handle_op_call_indirect handle_op_const handle_op_drop handle_op_else handle_op_end
    handle_op_get_global handle_op_get_local handle_op_if handle_op_memory_size handle_op_misc
    handle_op_return handle_op_select handle_op_set_global handle_op_set_local handle_op_simd
    handle_op_tee_local handle_saturating handle_simd_access handle_simd_const handle_simd_lane
    handle_simd_lane_access handle_simd_plain handle_simd_shuffle handle_unreachable handle_variable
    has_memory has_module_memory64 imported_global imported_or_own imported_type is_32bit_type
    is_64bit_type is_byte_a_type is_table_table64 is_value_type label_types lane_pops leave_function
    local_at mem_offset_type memory_from memory_realloc need need1 need_cache note_grow note_height
    note_memory numeric_signature offset_memory offset_value_type or_else own_global own_type
    pass_arguments pop_in_block pop_params pop_times pop_types push_cell push_types push_upper_cells
    read_block_type read_leb read_leb_int32 read_leb_int64 read_leb_loop read_leb_mem_offset
    read_leb_uint32 read_local_type read_simd_access read_uint8 read_zero_byte repush_types
    reset_stack rewrite_byte rewrite_bytes rewrite_set_global rewrite_table run same_bits_signature
    saturating_signature select_type set_else sign_extend skip skip_const to_float_signature
    to_int_signature top_cell top_cells type_at type_of vector_signature wasm_get_cell_num
    wasm_loader_check_br wasm_loader_ctx_init wasm_loader_pop_frame_csp wasm_loader_pop_frame_ref
    wasm_loader_prepare_bytecode wasm_loader_push_frame_csp wasm_loader_push_frame_ref
    wasm_loader_push_pop_frame_ref wasm_value_type_cell_num wasm_value_type_size within
choice_accepted = refl

-- i32.const 1, if i64, i64.const 5, else, i64.const 6, end, end
branching_accepted :
    accepts (
      wasm_loader_prepare_bytecode (
        scope_of (
          with_code 11
            (0x41 ∷ 0x01 ∷ 0x04 ∷ 0x7E ∷ 0x42 ∷ 0x05 ∷ 0x05 ∷ 0x42 ∷ 0x06 ∷ 0x0b ∷ 0x0b ∷ []))))
    ≡ true
unfolding access_pops access_pushes accessed_type any_on_top apply_signature arithmetic_signature
    atomic_pops atomic_pushes atomic_type backup_cells block_at block_type_get_arity
    block_type_get_param_types block_type_get_result_types called_type cells cells_to_pop
    check_atomic_access check_block_stack check_branch_block check_depths check_function_index
    check_memory check_memory_access_align check_memory_align_equal check_return_call
    check_simd_access_lane check_simd_memory_access_align check_simd_shuffle_mask check_stack_pop
    check_stack_top_values check_table_index check_targets check_top_bits check_top_types code_bytes
    compare_signature const_type count drop_cells drop_value enter_function exchange extend_opcode
    finish_leb first_memory global_at grow_csp handle_control handle_data_drop handle_memory_copy
    handle_memory_fill handle_memory_init handle_numeric handle_op handle_op_access handle_op_atomic
    handle_op_block_and_loop handle_op_br handle_op_br_if handle_op_br_table handle_op_call
    handle_op_call_indirect handle_op_const handle_op_drop handle_op_else handle_op_end
    handle_op_get_global handle_op_get_local handle_op_if handle_op_memory_size handle_op_misc
    handle_op_return handle_op_select handle_op_set_global handle_op_set_local handle_op_simd
    handle_op_tee_local handle_saturating handle_simd_access handle_simd_const handle_simd_lane
    handle_simd_lane_access handle_simd_plain handle_simd_shuffle handle_unreachable handle_variable
    has_memory has_module_memory64 imported_global imported_or_own imported_type is_32bit_type
    is_64bit_type is_byte_a_type is_table_table64 is_value_type label_types lane_pops leave_function
    local_at mem_offset_type memory_from memory_realloc need need1 need_cache note_grow note_height
    note_memory numeric_signature offset_memory offset_value_type or_else own_global own_type
    pass_arguments pop_in_block pop_params pop_times pop_types push_cell push_types push_upper_cells
    read_block_type read_leb read_leb_int32 read_leb_int64 read_leb_loop read_leb_mem_offset
    read_leb_uint32 read_local_type read_simd_access read_uint8 read_zero_byte repush_types
    reset_stack rewrite_byte rewrite_bytes rewrite_set_global rewrite_table run same_bits_signature
    saturating_signature select_type set_else sign_extend skip skip_const to_float_signature
    to_int_signature top_cell top_cells type_at type_of vector_signature wasm_get_cell_num
    wasm_loader_check_br wasm_loader_ctx_init wasm_loader_pop_frame_csp wasm_loader_pop_frame_ref
    wasm_loader_prepare_bytecode wasm_loader_push_frame_csp wasm_loader_push_frame_ref
    wasm_loader_push_pop_frame_ref wasm_value_type_cell_num wasm_value_type_size within
branching_accepted = refl

-- An `if` with a result and no `else` is refused: nop, i32.const 1, if i64, i64.const 5, end, end
one_armed_refused :
    accepts (
      wasm_loader_prepare_bytecode
        (scope_of (with_code 8 (0x41 ∷ 0x01 ∷ 0x04 ∷ 0x7E ∷ 0x42 ∷ 0x05 ∷ 0x0b ∷ 0x0b ∷ []))))
    ≡ false
unfolding access_pops access_pushes accessed_type any_on_top apply_signature arithmetic_signature
    atomic_pops atomic_pushes atomic_type backup_cells block_at block_type_get_arity
    block_type_get_param_types block_type_get_result_types called_type cells cells_to_pop
    check_atomic_access check_block_stack check_branch_block check_depths check_function_index
    check_memory check_memory_access_align check_memory_align_equal check_return_call
    check_simd_access_lane check_simd_memory_access_align check_simd_shuffle_mask check_stack_pop
    check_stack_top_values check_table_index check_targets check_top_bits check_top_types code_bytes
    compare_signature const_type count drop_cells drop_value enter_function exchange extend_opcode
    finish_leb first_memory global_at grow_csp handle_control handle_data_drop handle_memory_copy
    handle_memory_fill handle_memory_init handle_numeric handle_op handle_op_access handle_op_atomic
    handle_op_block_and_loop handle_op_br handle_op_br_if handle_op_br_table handle_op_call
    handle_op_call_indirect handle_op_const handle_op_drop handle_op_else handle_op_end
    handle_op_get_global handle_op_get_local handle_op_if handle_op_memory_size handle_op_misc
    handle_op_return handle_op_select handle_op_set_global handle_op_set_local handle_op_simd
    handle_op_tee_local handle_saturating handle_simd_access handle_simd_const handle_simd_lane
    handle_simd_lane_access handle_simd_plain handle_simd_shuffle handle_unreachable handle_variable
    has_memory has_module_memory64 imported_global imported_or_own imported_type is_32bit_type
    is_64bit_type is_byte_a_type is_table_table64 is_value_type label_types lane_pops leave_function
    local_at mem_offset_type memory_from memory_realloc need need1 need_cache note_grow note_height
    note_memory numeric_signature offset_memory offset_value_type or_else own_global own_type
    pass_arguments pop_in_block pop_params pop_times pop_types push_cell push_types push_upper_cells
    read_block_type read_leb read_leb_int32 read_leb_int64 read_leb_loop read_leb_mem_offset
    read_leb_uint32 read_local_type read_simd_access read_uint8 read_zero_byte repush_types
    reset_stack rewrite_byte rewrite_bytes rewrite_set_global rewrite_table run same_bits_signature
    saturating_signature select_type set_else sign_extend skip skip_const to_float_signature
    to_int_signature top_cell top_cells type_at type_of vector_signature wasm_get_cell_num
    wasm_loader_check_br wasm_loader_ctx_init wasm_loader_pop_frame_csp wasm_loader_pop_frame_ref
    wasm_loader_prepare_bytecode wasm_loader_push_frame_csp wasm_loader_push_frame_ref
    wasm_loader_push_pop_frame_ref wasm_value_type_cell_num wasm_value_type_size within
one_armed_refused = refl

run-HasRun_example : HasRun (value 0x7E) (run 3 choice i64_context (0x0b ∷ []))
unfolding pending pending_block
run-HasRun_example =
    run-HasRun choice (value 0x7E) 3 i64_context (0x0b ∷ []) choice-IsTyped i64-IsOpen (omega arith)

handle_op-IsNext_example :
    Ensures
      (IsNext (value 0x7E) i64_context (0x0b ∷ []))
      (handle_op choice 0x7c i64_context (0x0b ∷ []))
handle_op-IsNext_example =
    handle_op-IsNext choice choice-IsTyped (value 0x7E) i64_context (0x0b ∷ []) i64-IsOpen 0x7c

-- A function whose size of 4 goes beyond its code, the last two bytes of which are read behind the
-- section: i64.const 42, and then what stands there.
beyond_refused :
    accepts (wasm_loader_prepare_bytecode (scope_of (with_code 4 (0x42 ∷ 0x2a ∷ [])))) ≡ false
unfolding access_pops access_pushes accessed_type any_on_top apply_signature arithmetic_signature
    atomic_pops atomic_pushes atomic_type backup_cells block_at block_type_get_arity
    block_type_get_param_types block_type_get_result_types called_type cells cells_to_pop
    check_atomic_access check_block_stack check_branch_block check_depths check_function_index
    check_memory check_memory_access_align check_memory_align_equal check_return_call
    check_simd_access_lane check_simd_memory_access_align check_simd_shuffle_mask check_stack_pop
    check_stack_top_values check_table_index check_targets check_top_bits check_top_types code_bytes
    compare_signature const_type count drop_cells drop_value enter_function exchange extend_opcode
    finish_leb first_memory global_at grow_csp handle_control handle_data_drop handle_memory_copy
    handle_memory_fill handle_memory_init handle_numeric handle_op handle_op_access handle_op_atomic
    handle_op_block_and_loop handle_op_br handle_op_br_if handle_op_br_table handle_op_call
    handle_op_call_indirect handle_op_const handle_op_drop handle_op_else handle_op_end
    handle_op_get_global handle_op_get_local handle_op_if handle_op_memory_size handle_op_misc
    handle_op_return handle_op_select handle_op_set_global handle_op_set_local handle_op_simd
    handle_op_tee_local handle_saturating handle_simd_access handle_simd_const handle_simd_lane
    handle_simd_lane_access handle_simd_plain handle_simd_shuffle handle_unreachable handle_variable
    has_memory has_module_memory64 imported_global imported_or_own imported_type is_32bit_type
    is_64bit_type is_byte_a_type is_table_table64 is_value_type label_types lane_pops leave_function
    local_at mem_offset_type memory_from memory_realloc need need1 need_cache note_grow note_height
    note_memory numeric_signature offset_memory offset_value_type or_else own_global own_type
    pass_arguments pop_in_block pop_params pop_times pop_types push_cell push_types push_upper_cells
    read_block_type read_leb read_leb_int32 read_leb_int64 read_leb_loop read_leb_mem_offset
    read_leb_uint32 read_local_type read_simd_access read_uint8 read_zero_byte repush_types
    reset_stack rewrite_byte rewrite_bytes rewrite_set_global rewrite_table run same_bits_signature
    saturating_signature select_type set_else sign_extend skip skip_const to_float_signature
    to_int_signature top_cell top_cells type_at type_of vector_signature wasm_get_cell_num
    wasm_loader_check_br wasm_loader_ctx_init wasm_loader_pop_frame_csp wasm_loader_pop_frame_ref
    wasm_loader_prepare_bytecode wasm_loader_push_frame_csp wasm_loader_push_frame_ref
    wasm_loader_push_pop_frame_ref wasm_value_type_cell_num wasm_value_type_size within
beyond_refused = refl

beyond_accepted :
    accepts (
      wasm_loader_prepare_bytecode
        (record (scope_of (with_code 3 (0x42 ∷ 0x2a ∷ []))) { behind = λ i. 0x0b }))
    ≡ true
unfolding access_pops access_pushes accessed_type any_on_top apply_signature arithmetic_signature
    atomic_pops atomic_pushes atomic_type backup_cells block_at block_type_get_arity
    block_type_get_param_types block_type_get_result_types called_type cells cells_to_pop
    check_atomic_access check_block_stack check_branch_block check_depths check_function_index
    check_memory check_memory_access_align check_memory_align_equal check_return_call
    check_simd_access_lane check_simd_memory_access_align check_simd_shuffle_mask check_stack_pop
    check_stack_top_values check_table_index check_targets check_top_bits check_top_types code_bytes
    compare_signature const_type count drop_cells drop_value enter_function exchange extend_opcode
    finish_leb first_memory global_at grow_csp handle_control handle_data_drop handle_memory_copy
    handle_memory_fill handle_memory_init handle_numeric handle_op handle_op_access handle_op_atomic
    handle_op_block_and_loop handle_op_br handle_op_br_if handle_op_br_table handle_op_call
    handle_op_call_indirect handle_op_const handle_op_drop handle_op_else handle_op_end
    handle_op_get_global handle_op_get_local handle_op_if handle_op_memory_size handle_op_misc
    handle_op_return handle_op_select handle_op_set_global handle_op_set_local handle_op_simd
    handle_op_tee_local handle_saturating handle_simd_access handle_simd_const handle_simd_lane
    handle_simd_lane_access handle_simd_plain handle_simd_shuffle handle_unreachable handle_variable
    has_memory has_module_memory64 imported_global imported_or_own imported_type is_32bit_type
    is_64bit_type is_byte_a_type is_table_table64 is_value_type label_types lane_pops leave_function
    local_at mem_offset_type memory_from memory_realloc need need1 need_cache note_grow note_height
    note_memory numeric_signature offset_memory offset_value_type or_else own_global own_type
    pass_arguments pop_in_block pop_params pop_times pop_types push_cell push_types push_upper_cells
    read_block_type read_leb read_leb_int32 read_leb_int64 read_leb_loop read_leb_mem_offset
    read_leb_uint32 read_local_type read_simd_access read_uint8 read_zero_byte repush_types
    reset_stack rewrite_byte rewrite_bytes rewrite_set_global rewrite_table run same_bits_signature
    saturating_signature select_type set_else sign_extend skip skip_const to_float_signature
    to_int_signature top_cell top_cells type_at type_of vector_signature wasm_get_cell_num
    wasm_loader_check_br wasm_loader_ctx_init wasm_loader_pop_frame_csp wasm_loader_pop_frame_ref
    wasm_loader_prepare_bytecode wasm_loader_push_frame_csp wasm_loader_push_frame_ref
    wasm_loader_push_pop_frame_ref wasm_value_type_cell_num wasm_value_type_size within
beyond_accepted = refl

handle_op_atomic_refused_example :
    (e : LoadError) × (handle_op_atomic choice 0xfe i64_context (0x03 ∷ 0x00 ∷ []) ≡ err e)
handle_op_atomic_refused_example = handle_op_atomic_refused choice i64_context (0x03 ∷ 0x00 ∷ [])

check_memory_access_align_iff_example :
    (check_memory_access_align 0x28 2 ≡ ok tt) ↔ (2 ^ 2 ≤ access_bytes 0x28)
check_memory_access_align_iff_example =
    check_memory_access_align_iff 0x28 2 (omega arith) (omega arith)

check_simd_memory_access_align_iff_example :
    (check_simd_memory_access_align 0x5c 2 ≡ ok tt) ↔ (2 ^ 2 ≤ vector_bytes 0x5c)
check_simd_memory_access_align_iff_example =
    check_simd_memory_access_align_iff 0x5c 2 (inr (omega arith, omega arith))
