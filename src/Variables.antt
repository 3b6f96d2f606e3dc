-- ===== src/Variables.antt =====
-- Values and variables: the cases WASM_OP_DROP to WASM_OP_SET_GLOBAL of
-- `wasm_loader_prepare_bytecode` (core/iwasm/common/wasm_loader.c).
pub mod Opened
pub mod Dropped
pub mod Unknown
pub mod Selected
use wasm2native.Branches.{block_at}
use wasm2native.Common.{
  ℕ, suc, true, not, ◌&&◌, ◌||◌, none, some, List, length, get_elem?, drop, ltb, leb, ◌==◌,
  if◌then◌else◌,
}
use wasm2native.Common.Outcome.{
  Result, ok, err, ◌>>=◌, ◌>>◌, check, reject, drop_stack_was_empty, select_stack_was_empty,
  stack_was_empty, type_mismatch, global_is_immutable,
}
use wasm2native.Leb.{Read, read_leb_uint32}
use wasm2native.Loader.{is_32bit_type, is_64bit_type}
use wasm2native.Operands.{
  LoaderContext, wasm_loader_pop_frame_ref, wasm_loader_push_frame_ref,
  wasm_loader_push_pop_frame_ref,
}
use wasm2native.Program.{Scope, read_local_type, global_at, rewrite_byte}
use wasm2native.Wasm.{value_type_i32, value_type_any, value_type_v128}

-- `*(loader_ctx->frame_ref - 1)`, which is read only where the current block has cells.
unfoldable pub top_cell : LoaderContext → Result ℕ
top_cell ctx = elim (get_elem? ctx.frame_ref 0) [ none ↦ err stack_was_empty | some cell ↦ ok cell ]

-- `frame_ref -= n` and `stack_cell_num -= n`
unfoldable pub drop_cells : ℕ → LoaderContext → LoaderContext
drop_cells n ctx = record ctx { frame_ref = drop n ctx.frame_ref }

-- What is dropped, by the cell on top; `at` is the place of the opcode, which is WASM_OP_DROP_64 where
-- the value has 64 bits.
unfoldable pub drop_value : LoaderContext → ℕ → ℕ → Result LoaderContext
drop_value ctx at cell =
    if is_32bit_type cell || cell == value_type_any
    then ok (drop_cells 1 ctx)
    else if is_64bit_type cell
    then ok (rewrite_byte (drop_cells 2 ctx) at 0xc5)
    else if cell == value_type_v128
    then ok (drop_cells 4 ctx)
    else err type_mismatch

unfoldable pub handle_op_drop : LoaderContext → List ℕ → Result LoaderContext
handle_op_drop ctx p = do
  cur_block ← block_at ctx 0
  let is_empty = leb (length ctx.frame_ref) cur_block.stack_cell_num
  reject (is_empty && not cur_block.is_stack_polymorphic) drop_stack_was_empty
  if is_empty then ok ctx else (top_cell ctx >>= λ cell. drop_value ctx (suc (length p)) cell)

-- The type of the values, and the opcode's rewriting to WASM_OP_SELECT_64.
unfoldable pub select_type : LoaderContext → ℕ → ℕ → Result LoaderContext
select_type ctx at cell =
    if is_32bit_type cell
    then ok ctx
    else if is_64bit_type cell
    then ok (rewrite_byte ctx at 0xc6)
    else if cell == value_type_v128
    then ok ctx
    else err type_mismatch

unfoldable pub handle_op_select : Scope → LoaderContext → List ℕ → Result LoaderContext
handle_op_select s ctx p = do
  cur_block ← block_at ctx 0
  ctx ← wasm_loader_pop_frame_ref ctx value_type_i32
  let is_empty = leb (length ctx.frame_ref) cur_block.stack_cell_num
  reject (is_empty && not cur_block.is_stack_polymorphic) select_stack_was_empty
  if is_empty then wasm_loader_push_frame_ref s.grow ctx value_type_any else (do
    ref_type ← top_cell ctx
    ctx ← select_type ctx (suc (length p)) ref_type
    wasm_loader_push_pop_frame_ref s.grow ctx 2 ref_type ref_type)

unfoldable pub handle_op_get_local : Scope → LoaderContext → List ℕ → Read LoaderContext
handle_op_get_local s ctx p = do
  (local_type, p) ← read_local_type s.func p
  ctx ← wasm_loader_push_frame_ref s.grow ctx local_type
  ok (ctx, p)

unfoldable pub handle_op_set_local : Scope → LoaderContext → List ℕ → Read LoaderContext
handle_op_set_local s ctx p = do
  (local_type, p) ← read_local_type s.func p
  ctx ← wasm_loader_pop_frame_ref ctx local_type
  ok (ctx, p)

unfoldable pub handle_op_tee_local : Scope → LoaderContext → List ℕ → Read LoaderContext
handle_op_tee_local s ctx p = do
  (local_type, p) ← read_local_type s.func p
  ctx ← wasm_loader_pop_frame_ref ctx local_type
  ctx ← wasm_loader_push_frame_ref s.grow ctx local_type
  ok (ctx, p)

-- WASM_OP_GET_GLOBAL_64 is 0x1d.
unfoldable pub handle_op_get_global : Scope → LoaderContext → List ℕ → Read LoaderContext
handle_op_get_global s ctx p_index = do
  (global_idx, p) ← read_leb_uint32 p_index
  (global_type, is_mutable) ← global_at s.wasm_module global_idx
  ctx ← wasm_loader_push_frame_ref s.grow ctx global_type
  ok ((if is_64bit_type global_type then rewrite_byte ctx (suc (length p_index)) 0x1d else ctx), p)

-- The opcode is rewritten to WASM_OP_SET_GLOBAL_64, 0x1e, or for the pointer of the auxiliary stack to
-- WASM_OP_SET_GLOBAL_AUX_STACK, 0x1f.
unfoldable pub rewrite_set_global : Scope → ℕ → ℕ → ℕ → LoaderContext → LoaderContext
rewrite_set_global s at global_idx global_type ctx =
    if is_64bit_type global_type
    then rewrite_byte ctx at 0x1e
    else if ltb 0 s.wasm_module.aux_stack_size
        && global_idx == s.wasm_module.aux_stack_top_global_index
    then record (rewrite_byte ctx at 0x1f) {
      flags = record ctx.flags { has_op_set_global_aux_stack = true };
    }
    else ctx

unfoldable pub handle_op_set_global : Scope → LoaderContext → List ℕ → Read LoaderContext
handle_op_set_global s ctx p_index = do
  (global_idx, p) ← read_leb_uint32 p_index
  (global_type, is_mutable) ← global_at s.wasm_module global_idx
  check is_mutable global_is_immutable
  let noted = rewrite_set_global s (suc (length p_index)) global_idx global_type ctx
  ctx ← wasm_loader_pop_frame_ref noted global_type
  ok (ctx, p)
