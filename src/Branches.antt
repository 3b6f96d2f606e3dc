-- ===== src/Branches.antt =====
-- Branches and the ends of blocks: `wasm_loader_check_br`, `check_branch_block`, `check_block_stack`
-- and the macros beside them (core/iwasm/common/wasm_loader.c).
use wasm2native.Common.{
  ℕ, ◌-◌, Bool, none, some, List, [], ◌∷◌, length, get_elem?, drop, ltb, ◌==◌, if◌then◌else◌,
}
use wasm2native.Common.Outcome.{
  Result, ok, err, ◌>>=◌, ◌>>◌, check, reject, unknown_label, stack_size_mismatch,
  block_stack_was_empty,
}
use wasm2native.Leb.{Read, read_leb_uint32}
use wasm2native.Operands.{
  BranchBlock, LoaderContext, memory_realloc, check_stack_top_values, wasm_loader_pop_frame_ref,
  wasm_loader_push_frame_ref,
}
use wasm2native.Wasm.{
  label_type_loop, block_type_get_param_types, block_type_get_result_types,
  wasm_value_type_cell_num, wasm_get_cell_num,
}

-- `loader_ctx->frame_csp - (depth + 1)`; where there is no such block the C code reads below its array.
unfoldable pub block_at : LoaderContext → ℕ → Result BranchBlock
block_at ctx depth = elim (get_elem? ctx.frame_csp depth) [
  | none ↦ err block_stack_was_empty
  | some block ↦ ok block
]

-- POP_TYPE of each type, the last one first.
unfoldable pub pop_types : LoaderContext → List ℕ → Result LoaderContext
pop_types ctx [] = ok ctx
pop_types ctx (type ∷ types) = pop_types ctx types >>= λ ctx. wasm_loader_pop_frame_ref ctx type

-- PUSH_TYPE of each type, the first one first.
unfoldable pub push_types : (ℕ → Bool) → LoaderContext → List ℕ → Result LoaderContext
push_types grow ctx [] = ok ctx
push_types grow ctx (type ∷ types) =
    wasm_loader_push_frame_ref grow ctx type >>= λ ctx. push_types grow ctx types

-- `check_stack_top_values` of each type, the last one first, with the stack and the number of cells
-- that are below.
unfoldable pub check_top_types : List ℕ → ℕ → List ℕ → Result (List ℕ × ℕ)
check_top_types frame_ref available_stack_cell [] = ok (frame_ref, available_stack_cell)
check_top_types frame_ref available_stack_cell (type ∷ types) = do
  (frame_ref, available) ← check_top_types frame_ref available_stack_cell types
  check_stack_top_values frame_ref available type
  ok (drop (wasm_value_type_cell_num type) frame_ref, available - wasm_value_type_cell_num type)

-- A branch to a loop goes to its start and takes its parameters.
unfoldable pub label_types : BranchBlock → List ℕ
label_types target =
    if target.label_type == label_type_loop
    then block_type_get_param_types target.block_type
    else block_type_get_result_types target.block_type

-- `frame_ref_buf`, for the cells that have been popped: up to four need no allocation.
unfoldable pub backup_cells : (ℕ → Bool) → ℕ → Result (Unit {0})
backup_cells grow total_size = if ltb 4 total_size then memory_realloc grow total_size else ok tt

-- A block whose stack is polymorphic: its values are popped and pushed again. For `br_table` the
-- cells are then put back as they were, and what is left of the pushes is the room that they took.
unfoldable pub repush_types : (ℕ → Bool) → LoaderContext → List ℕ → Bool → Result LoaderContext
repush_types grow ctx types is_br_table = do
  popped ← pop_types ctx types
  (if is_br_table
      then backup_cells grow (length ctx.frame_ref - length popped.frame_ref)
      else ok tt)
  pushed ← push_types grow popped types
  ok (if is_br_table then record pushed { frame_ref = ctx.frame_ref } else pushed)

-- The context after the check, which changes it where the stack is polymorphic.
unfoldable pub wasm_loader_check_br : (ℕ → Bool) → LoaderContext → ℕ → Bool → Result LoaderContext
wasm_loader_check_br grow ctx depth is_br_table = do
  reject (ltb (length ctx.frame_csp - 1) depth) unknown_label
  cur_block ← block_at ctx 0
  target_block ← block_at ctx depth
  if cur_block.is_stack_polymorphic
      then repush_types grow ctx (label_types target_block) is_br_table
      else (check_top_types ctx.frame_ref (length ctx.frame_ref - cur_block.stack_cell_num)
            (label_types target_block)
          >>= λ left. ok ctx)

unfoldable pub check_branch_block : (ℕ → Bool) → LoaderContext → Bool → List ℕ → Read LoaderContext
check_branch_block grow ctx is_br_table p = do
  (depth, p) ← read_leb_uint32 p
  ctx ← wasm_loader_check_br grow ctx depth is_br_table
  ok (ctx, p)

-- The block is the current one.
unfoldable pub check_block_stack : (ℕ → Bool) → LoaderContext → BranchBlock → Result LoaderContext
check_block_stack grow ctx block = do
  let return_types = block_type_get_result_types block.block_type
  let available_stack_cell = length ctx.frame_ref - block.stack_cell_num
  if block.is_stack_polymorphic
      then (do
        ctx ← pop_types ctx return_types
        check (length ctx.frame_ref == block.stack_cell_num) stack_size_mismatch
        push_types grow ctx return_types)
      else (do
        check (available_stack_cell == wasm_get_cell_num return_types 0) stack_size_mismatch
        left ← check_top_types ctx.frame_ref available_stack_cell return_types
        ok ctx)

-- RESET_STACK for the current block, and SET_CUR_BLOCK_STACK_POLYMORPHIC_STATE, which follows each.
unfoldable pub reset_stack : LoaderContext → Bool → Result LoaderContext
reset_stack ctx flag = elim ctx.frame_csp [
  | [] ↦ err block_stack_was_empty
  | cur_block ∷ outer ↦ ok (record ctx {
    frame_ref = drop (length ctx.frame_ref - cur_block.stack_cell_num) ctx.frame_ref;
    frame_csp = record cur_block { is_stack_polymorphic = flag } ∷ outer;
  })
]
