-- ===== src/Tests/Steps.antt =====
-- Steps of the validator (core/iwasm/common/wasm_loader.c): the end of a block and `select`.
use wasm2native.Branches.{
  block_at, check_block_stack, check_top_types, pop_types, push_types, reset_stack,
}
use wasm2native.Common.{[], arith, false, refl, ◌∷◌, ◌≡◌}
use wasm2native.Common.Ensures.{Ensures}
use wasm2native.Common.Outcome.{ok}
use wasm2native.Control.{handle_op_else, handle_op_end, set_else}
use wasm2native.Frames.{
  AreFrames, Follows, Frame, IsStacked, any_cells, cells_of, frame_blocks, frame_refs, select_from,
}
use wasm2native.Loader.{is_32bit_type, is_64bit_type, is_value_type}
use wasm2native.Operands.{
  BranchBlock, LoaderContext, any_on_top, cells_to_pop, check_stack_pop, check_stack_top_values,
  memory_realloc, note_height, pop_in_block, pop_times, push_cell, push_upper_cells, top_cells,
  wasm_loader_pop_frame_csp, wasm_loader_pop_frame_ref, wasm_loader_push_frame_ref,
  wasm_loader_push_pop_frame_ref,
}
use wasm2native.Program.{rewrite_byte}
use wasm2native.Tests.Bodies.{choice}
use wasm2native.Tests.Frames.{i64_block, i64_context}
use wasm2native.Types.{all_value_types}
use wasm2native.Variables.{handle_op_select, select_type, top_cell}
use wasm2native.Variables.Selected.{handle_op_select-Follows}
use wasm2native.Wasm.{
  block_type_get_param_types, block_type_get_result_types, wasm_get_cell_num,
  wasm_value_type_cell_num, wasm_value_type_size,
}
use wasm2native.Wasm.Cells.{cells}

-- A block within the function's, of the same type and with its result on the stack.
abbrev inner_block : BranchBlock
inner_block = record i64_block { label_type = 0 }

abbrev inner_frame : Frame
inner_frame = record { values = 0x7E ∷ []; has_any = false; block = inner_block }

abbrev outer_frame : Frame
outer_frame = record { values = []; has_any = false; block = i64_block }

abbrev inner_context : LoaderContext
inner_context = record i64_context { frame_csp = inner_block ∷ i64_block ∷ []; max_csp_num = 2 }

-- The inner block is left, and the next `end` is that of the function.
inner_ended :
    handle_op_end choice inner_context (0x0b ∷ [])
    ≡ ok (record i64_context { max_csp_num = 2 }, 0x0b ∷ [])
unfolding any_on_top block_at block_type_get_param_types block_type_get_result_types cells
    cells_to_pop check_block_stack check_stack_pop check_stack_top_values check_top_types
    handle_op_else handle_op_end is_32bit_type memory_realloc note_height pop_in_block pop_types
    push_cell push_types push_upper_cells reset_stack set_else top_cells wasm_get_cell_num
    wasm_loader_pop_frame_csp wasm_loader_pop_frame_ref wasm_loader_push_frame_ref
    wasm_value_type_cell_num wasm_value_type_size
inner_ended = refl

-- The condition, and two values of type i64 below it.
abbrev choice_frame : Frame
choice_frame = record { values = 0x7F ∷ 0x7E ∷ 0x7E ∷ []; has_any = false; block = i64_block }

abbrev choice_context : LoaderContext
choice_context = record i64_context {
  frame_ref = 0x7F ∷ 0x7E ∷ 0x7E ∷ 0x7E ∷ 0x7E ∷ [];
  max_stack_cell_num = 5;
}

choice-IsStacked : IsStacked (choice_frame ∷ []) choice_context
unfolding AreFrames all_value_types any_cells block_type_get_param_types block_type_get_result_types
    cells cells_of frame_blocks frame_refs is_value_type wasm_value_type_cell_num
    wasm_value_type_size
choice-IsStacked = record {
  refs = refl;
  csp = refl;
  frames = (
    record {
      values = refl;
      any = λ h. absurd (ground arith);
      base = refl;
      params = refl;
      results = refl;
    },
    tt,
  );
  height = omega arith;
  cells_bounded = omega arith;
  blocks_bounded = omega arith;
}

handle_op_select-Follows_example :
    Ensures
      (Follows [] (select_from choice_frame))
      (handle_op_select choice choice_context (0x0b ∷ []))
handle_op_select-Follows_example =
    handle_op_select-Follows choice choice_frame [] choice_context (0x0b ∷ []) choice-IsStacked

-- One of the two values is left, and the opcode is the one for 64 bits.
choice_selected :
    handle_op_select choice choice_context (0x0b ∷ [])
    ≡ ok (record choice_context { frame_ref = 0x7E ∷ 0x7E ∷ []; rewrites = (2, 0xc6) ∷ [] })
unfolding any_on_top block_at cells cells_to_pop check_stack_pop check_stack_top_values
    handle_op_select is_32bit_type is_64bit_type memory_realloc note_height pop_in_block pop_times
    push_cell push_upper_cells rewrite_byte select_type top_cell top_cells wasm_loader_pop_frame_ref
    wasm_loader_push_frame_ref wasm_loader_push_pop_frame_ref wasm_value_type_cell_num
    wasm_value_type_size
choice_selected = refl
