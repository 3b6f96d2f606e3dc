-- ===== src/Tests/Frames.antt =====
-- Steps of the validator (core/iwasm/common/wasm_loader.c) on a stack with one value of type i64.
use wasm2native.Branches.{
  backup_cells, block_at, check_block_stack, check_top_types, label_types, pop_types, push_types,
  repush_types, wasm_loader_check_br,
}
use wasm2native.Common.{[], arith, false, refl, true, ◌∷◌, ◌≡◌}
use wasm2native.Common.Ensures.{Ensures}
use wasm2native.Common.Outcome.{ok}
use wasm2native.Frames.{
  Agrees, AreFrames, Frame, IsOpen, IsStacked, any_cells, bottom_type, cells_of, drop_from,
  frame_blocks, frame_refs, pop_value,
}
use wasm2native.Frames.Branched.{IsBranched, wasm_loader_check_br-IsBranched}
use wasm2native.Frames.Popped.{wasm_loader_pop_frame_ref-Agrees}
use wasm2native.Frames.Settled.{check_block_stack-IsStacked, settled_frame}
use wasm2native.Loader.{is_32bit_type, is_64bit_type, is_value_type, need}
use wasm2native.Operands.{
  BranchBlock, LoaderContext, any_on_top, cells_to_pop, check_stack_pop, check_stack_top_values,
  memory_realloc, note_height, pop_in_block, push_cell, push_upper_cells, top_cells,
  wasm_loader_pop_frame_ref, wasm_loader_push_frame_ref,
}
use wasm2native.Program.{rewrite_byte}
use wasm2native.Tests.Stacks.{no_flags, room}
use wasm2native.Types.{all_value_types}
use wasm2native.Variables.{drop_cells, drop_value, handle_op_drop, top_cell}
use wasm2native.Variables.Dropped.{handle_op_drop-Agrees}
use wasm2native.Wasm.{
  block_type_get_param_types, block_type_get_result_types, value, wasm_get_cell_num,
  wasm_value_type_cell_num, wasm_value_type_size,
}
use wasm2native.Wasm.Cells.{cells}

abbrev pub i64_block : BranchBlock
i64_block = record {
  label_type = 3;
  block_type = value 0x7E;
  has_else = false;
  stack_cell_num = 0;
  is_stack_polymorphic = false;
}

abbrev pub i64_frame : Frame
i64_frame = record { values = 0x7E ∷ []; has_any = false; block = i64_block }

abbrev pub i64_context : LoaderContext
i64_context = record {
  frame_ref = 0x7E ∷ 0x7E ∷ [];
  frame_ref_size = 32;
  max_stack_cell_num = 2;
  frame_csp = i64_block ∷ [];
  frame_csp_size = 320;
  max_csp_num = 1;
  flags = no_flags;
  rewrites = [];
  br_table_caches = [];
}

pub i64-IsStacked : IsStacked (i64_frame ∷ []) i64_context
unfolding AreFrames all_value_types any_cells block_type_get_param_types block_type_get_result_types
    cells cells_of frame_blocks frame_refs is_value_type wasm_value_type_cell_num
    wasm_value_type_size
i64-IsStacked = record {
  refs = refl;
  csp = refl;
  frames = (
    record {
      values = refl;
      any = λ h. absurd (ground arith);
      base = refl;
      params = refl;
      results = refl;
    },
    tt,
  );
  height = omega arith;
  cells_bounded = omega arith;
  blocks_bounded = omega arith;
}

pub i64-IsOpen : IsOpen (value 0x7E) i64_context
unfolding IsOpen bottom_type
i64-IsOpen = (i64_frame, [], i64-IsStacked, refl)

i64_value : is_value_type 0x7E ≡ true
unfolding is_value_type
i64_value = refl

wasm_loader_pop_frame_ref-Agrees_example :
    Agrees [] (pop_value i64_frame 0x7E) (wasm_loader_pop_frame_ref i64_context 0x7E)
wasm_loader_pop_frame_ref-Agrees_example =
    wasm_loader_pop_frame_ref-Agrees i64_frame [] i64_context 0x7E i64_value i64-IsStacked

check_block_stack-IsStacked_example :
    Ensures
      (IsStacked (settled_frame i64_frame ∷ []))
      (check_block_stack room i64_context i64_block)
check_block_stack-IsStacked_example =
    check_block_stack-IsStacked room i64_frame [] i64_context i64-IsStacked

-- The check passes.
i64_settled : check_block_stack room i64_context i64_block ≡ ok i64_context
unfolding any_on_top block_type_get_result_types cells cells_to_pop check_block_stack
    check_stack_pop check_stack_top_values check_top_types is_32bit_type memory_realloc note_height
    pop_in_block pop_types push_cell push_types push_upper_cells top_cells wasm_get_cell_num
    wasm_loader_pop_frame_ref wasm_loader_push_frame_ref wasm_value_type_cell_num
    wasm_value_type_size
i64_settled = refl

handle_op_drop-Agrees_example :
    Agrees [] (drop_from i64_frame) (handle_op_drop i64_context (0x0b ∷ []))
handle_op_drop-Agrees_example =
    handle_op_drop-Agrees i64_frame [] i64_context (0x0b ∷ []) i64-IsStacked

-- Both cells of the value are gone, and the opcode is the one for 64 bits.
i64_dropped :
    handle_op_drop i64_context (0x0b ∷ [])
    ≡ ok (record i64_context { frame_ref = []; rewrites = (2, 0xc5) ∷ [] })
unfolding block_at cells drop_cells drop_value handle_op_drop is_32bit_type is_64bit_type
    rewrite_byte top_cell wasm_value_type_cell_num wasm_value_type_size
i64_dropped = refl

wasm_loader_check_br-IsBranched_example :
    Ensures (IsBranched [] i64_frame 0 false) (wasm_loader_check_br room i64_context 0 false)
wasm_loader_check_br-IsBranched_example =
    wasm_loader_check_br-IsBranched room i64_frame [] i64_context i64-IsStacked 0 false

-- The branch to the function's end takes the value.
i64_branched : wasm_loader_check_br room i64_context 0 false ≡ ok i64_context
unfolding any_on_top backup_cells block_at block_type_get_param_types block_type_get_result_types
    cells cells_to_pop check_stack_pop check_stack_top_values check_top_types is_32bit_type
    label_types memory_realloc need note_height pop_in_block pop_types push_cell push_types
    push_upper_cells repush_types top_cells wasm_loader_check_br wasm_loader_pop_frame_ref
    wasm_loader_push_frame_ref wasm_value_type_cell_num wasm_value_type_size
i64_branched = refl
