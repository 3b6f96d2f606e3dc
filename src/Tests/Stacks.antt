-- ===== src/Tests/Stacks.antt =====
-- Runs of the validator's stacks (core/iwasm/common/wasm_loader.c), with room for every push.
use wasm2native.Common.{
  Bool, List, [], arith, false, length, refl, replicate, true, ℕ, ◌∷◌, ◌≡◌, ◌≤◌,
}
use wasm2native.Common.Outcome.{ok}
use wasm2native.Loader.{is_32bit_type, is_value_type}
use wasm2native.Operands.{
  BranchBlock, Flags, LoaderContext, any_on_top, cells_to_pop, check_stack_pop,
  check_stack_top_values, memory_realloc, note_height, pop_in_block, push_cell, push_upper_cells,
  top_cells, wasm_loader_pop_frame_ref, wasm_loader_push_frame_ref,
}
use wasm2native.Operands.Popped.{IsPopped, push-pop_frame_ref, wasm_loader_pop_frame_ref-IsAbove}
use wasm2native.Operands.Pushed.{IsPushed, wasm_loader_push_frame_ref-IsPushed}
use wasm2native.Wasm.{value, wasm_value_type_cell_num, wasm_value_type_size}
use wasm2native.Wasm.Cells.{cells}

abbrev pub room : ℕ → Bool
room size = true

abbrev pub no_flags : Flags
no_flags = record {
  has_op_func_call = false;
  has_op_call_indirect = false;
  has_op_memory_grow = false;
  has_memory_operations = false;
  has_op_set_global_aux_stack = false;
  possible_memory_grow = false;
}

abbrev pub body_block : BranchBlock
body_block = record {
  label_type = 3;
  block_type = value 0x40;
  has_else = false;
  stack_cell_num = 0;
  is_stack_polymorphic = false;
}

-- A function's block, and the given cells.
abbrev pub with_cells : List ℕ → ℕ → LoaderContext
with_cells cells max = record {
  frame_ref = cells;
  frame_ref_size = 32;
  max_stack_cell_num = max;
  frame_csp = body_block ∷ [];
  frame_csp_size = 320;
  max_csp_num = 1;
  flags = no_flags;
  rewrites = [];
  br_table_caches = [];
}

abbrev three_cells : List ℕ
three_cells = 0x7E ∷ 0x7E ∷ 0x7F ∷ []

abbrev i64_pushed :
    wasm_loader_push_frame_ref room (with_cells (0x7F ∷ []) 1) 0x7E
    ≡ ok (with_cells (0x7E ∷ 0x7E ∷ 0x7F ∷ []) 3)
unfolding is_32bit_type memory_realloc note_height push_cell push_upper_cells
    wasm_loader_push_frame_ref
i64_pushed = refl

abbrev i64_is_value : is_value_type 0x7E ≡ true
unfolding is_value_type
i64_is_value = refl

wasm_loader_push_frame_ref-IsPushed_example :
    IsPushed
      (with_cells (0x7F ∷ []) 1)
      (replicate (wasm_value_type_cell_num 0x7E) 0x7E)
      (with_cells (0x7E ∷ 0x7E ∷ 0x7F ∷ []) 3)
    × (length three_cells ≤ 0xFFFF)
wasm_loader_push_frame_ref-IsPushed_example =
    wasm_loader_push_frame_ref-IsPushed room (with_cells (0x7F ∷ []) 1) 0x7E
      (with_cells (0x7E ∷ 0x7E ∷ 0x7F ∷ []) 3) i64_is_value (omega arith) i64_pushed

push-pop_frame_ref_example :
    (c' : LoaderContext) × (wasm_loader_pop_frame_ref (with_cells (0x7E ∷ 0x7E ∷ 0x7F ∷ []) 3) 0x7E
      ≡ ok c')
    × (c'.frame_ref ≡ 0x7F ∷ [])
    × (c'.frame_csp ≡ body_block ∷ [])
push-pop_frame_ref_example =
    push-pop_frame_ref room (with_cells (0x7F ∷ []) 1) 0x7E body_block
      (with_cells (0x7E ∷ 0x7E ∷ 0x7F ∷ []) 3) i64_is_value (omega arith) refl (omega arith)
      i64_pushed

abbrev i64_popped :
    wasm_loader_pop_frame_ref (with_cells (0x7E ∷ 0x7E ∷ 0x7F ∷ []) 3) 0x7E
    ≡ ok (with_cells (0x7F ∷ []) 3)
unfolding any_on_top cells cells_to_pop check_stack_pop check_stack_top_values is_32bit_type
    pop_in_block top_cells wasm_loader_pop_frame_ref wasm_value_type_cell_num wasm_value_type_size
i64_popped = refl

wasm_loader_pop_frame_ref-IsAbove_example :
    IsPopped (with_cells (0x7E ∷ 0x7E ∷ 0x7F ∷ []) 3) 0 (with_cells (0x7F ∷ []) 3)
wasm_loader_pop_frame_ref-IsAbove_example =
    wasm_loader_pop_frame_ref-IsAbove (with_cells (0x7E ∷ 0x7E ∷ 0x7F ∷ []) 3) 0x7E body_block
      (with_cells (0x7F ∷ []) 3) i64_is_value refl (omega arith) i64_popped
