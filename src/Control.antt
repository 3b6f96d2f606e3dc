-- ===== src/Control.antt =====
-- Blocks: the cases WASM_OP_UNREACHABLE to WASM_OP_END of `wasm_loader_prepare_bytecode`
-- (core/iwasm/common/wasm_loader.c). Each takes the context and the bytes behind the opcode, and
-- returns both as they are behind the instruction.
pub mod Left
pub mod Opened
pub mod Finished
pub mod Closed
use wasm2native.Branches.{block_at, push_types, check_block_stack, reset_stack}
use wasm2native.Common.{
  ℕ, suc, ◌+◌, ◌-◌, true, false, not, ◌&&◌, ◌||◌, List, [], ◌∷◌, length, ltb, leb, ◌==◌,
  if◌then◌else◌,
}
use wasm2native.Common.Outcome.{
  Result, ok, ◌>>=◌, ◌>>◌, reject, unknown_type, else_without_if, section_size_mismatch,
}
use wasm2native.Leb.{Read, read_leb_int32}
use wasm2native.Loader.{read_uint8, is_byte_a_type}
use wasm2native.Operands.{
  BranchBlock, LoaderContext, wasm_loader_pop_frame_ref, wasm_loader_push_frame_csp,
  wasm_loader_pop_frame_csp,
}
use wasm2native.Program.{Scope, type_of, rewrite_byte}
use wasm2native.Wasm.{
  BlockType, value, func, label_type_if, value_type_i32, block_type_get_param_types,
}

-- A type index is signed, and is compared as a uint32.
unfoldable pub read_block_type : Scope → List ℕ → Read BlockType
read_block_type s p = do
  (value_type, p_behind) ← read_uint8 p
  if is_byte_a_type value_type then ok (value value_type, p_behind) else (do
    (type_index, p) ← read_leb_int32 p
    reject (leb (length s.wasm_module.types.types) type_index) unknown_type
    type ← type_of s.wasm_module type_index
    ok (func type, p))

-- Where the block's type is an index, the opcode becomes the extended one: EXT_OP_BLOCK is 0xd3.
unfoldable pub extend_opcode : ℕ → ℕ → LoaderContext → BlockType → LoaderContext
extend_opcode at opcode ctx (value v) = ctx
extend_opcode at opcode ctx (func t) = rewrite_byte ctx at (0xd3 + (opcode - 0x02))

-- The parameters of a block are popped, the last one first, until a polymorphic stack is empty.
unfoldable pub pop_params : LoaderContext → BranchBlock → List ℕ → Result LoaderContext
pop_params ctx cur_block [] = ok ctx
pop_params ctx cur_block (type ∷ types) = pop_params ctx cur_block types >>= λ ctx.
    if leb (length ctx.frame_ref) cur_block.stack_cell_num && cur_block.is_stack_polymorphic
    then ok ctx
    else wasm_loader_pop_frame_ref ctx type

-- WASM_OP_BLOCK, WASM_OP_LOOP and what WASM_OP_IF does behind its pop.
unfoldable pub handle_op_block_and_loop : Scope → ℕ → LoaderContext → List ℕ → Read LoaderContext
handle_op_block_and_loop s opcode ctx p = do
  (block_type, p_behind) ← read_block_type s p
  cur_block ← block_at ctx 0
  let params = block_type_get_param_types block_type
  ctx ← pop_params (extend_opcode (suc (length p)) opcode ctx block_type) cur_block params
  ctx ← wasm_loader_push_frame_csp s.grow s.sizeof_block ctx (opcode - 0x02) block_type
  ctx ← push_types s.grow ctx params
  ok (ctx, p_behind)

unfoldable pub handle_op_if : Scope → LoaderContext → List ℕ → Read LoaderContext
handle_op_if s ctx p = do
  ctx ← wasm_loader_pop_frame_ref ctx value_type_i32
  handle_op_block_and_loop s 0x04 ctx p

-- `block->else_addr = p - 1` for the current block.
unfoldable pub set_else : List BranchBlock → List BranchBlock
set_else [] = []
set_else (block ∷ outer) = record block { has_else = true } ∷ outer

unfoldable pub handle_op_else : Scope → LoaderContext → Result LoaderContext
handle_op_else s ctx = do
  reject (ltb (length ctx.frame_csp) 2) else_without_if
  block ← block_at ctx 0
  reject (not (block.label_type == label_type_if) || block.has_else) else_without_if
  ctx ← check_block_stack s.grow ctx block
  ctx ← reset_stack (record ctx { frame_csp = set_else ctx.frame_csp }) false
  push_types s.grow ctx (block_type_get_param_types block.block_type)

-- The virtual `else` of an `if` that has none leaves the read pointer at the `end`, 0x0b.
unfoldable pub handle_op_end : Scope → LoaderContext → List ℕ → Read LoaderContext
handle_op_end s ctx p = do
  cur_block ← block_at ctx 0
  ctx ← check_block_stack s.grow ctx cur_block
  if cur_block.label_type == label_type_if && not cur_block.has_else
      then (do ctx ← handle_op_else s ctx; ok (ctx, 0x0b ∷ p))
      else (do
        ctx ← wasm_loader_pop_frame_csp ctx
        reject (length ctx.frame_csp == 0 && not (length p == 0)) section_size_mismatch
        ok (ctx, p))
