-- ===== src/Jumps.antt =====
-- Branches, returns and calls: the cases WASM_OP_BR to WASM_OP_RETURN_CALL_INDIRECT of
-- `wasm_loader_prepare_bytecode` (core/iwasm/common/wasm_loader.c).
pub mod Opened
use wasm2native.Branches.{block_at, pop_types, push_types, check_branch_block, reset_stack}
use wasm2native.Common.{
  ℕ, zero, suc, ◌+◌, ◌-◌, ◌*◌, ◌%◌, ◌^◌, Bool, true, false, List, [], ◌∷◌, ◌++◌, length, replicate,
  ltb, leb, ◌==◌, same_bytes, if◌then◌else◌,
}
use wasm2native.Common.Outcome.{
  Result, ok, ◌>>=◌, ◌>>◌, check, reject, unknown_label, unknown_type, br_table_arity,
  return_count_mismatch, expect_other_type,
}
use wasm2native.Leb.{Read, read_leb_uint32}
use wasm2native.Loader.{read_uint8}
use wasm2native.Operands.{LoaderContext, memory_realloc, wasm_loader_pop_frame_ref}
use wasm2native.Program.{Scope, type_of, called_type}
use wasm2native.Segments.{check_table_index, is_table_table64}
use wasm2native.Wasm.{
  WasmType, func, value_type_i32, value_type_i64, block_type_get_arity, block_type_get_param_types,
  block_type_get_result_types,
}

unfoldable pub handle_op_br : Scope → LoaderContext → List ℕ → Read LoaderContext
handle_op_br s ctx p = do
  (ctx, p) ← check_branch_block s.grow ctx false p
  ctx ← reset_stack ctx true
  ok (ctx, p)

unfoldable pub handle_op_br_if : Scope → LoaderContext → List ℕ → Read LoaderContext
handle_op_br_if s ctx p = do
  ctx ← wasm_loader_pop_frame_ref ctx value_type_i32
  check_branch_block s.grow ctx false p

-- Get each depth and check it: the last one is that of the default target.
unfoldable pub check_depths : LoaderContext → ℕ → ℕ → List ℕ → Result ℕ
check_depths ctx zero depth p = ok depth
check_depths ctx (suc left) depth p = do
  (depth, p) ← read_leb_uint32 p
  reject (ltb (length ctx.frame_csp - 1) depth) unknown_label
  check_depths ctx left depth p

-- A cache is there from the first depth on that does not fit into one byte. Its size is computed from a
-- uint32.
unfoldable pub need_cache : Scope → ℕ → Bool → ℕ → Result Bool
need_cache s count cached depth =
    if cached
    then ok true
    else if ltb 255 depth
    then (memory_realloc s.grow (s.offsetof_br_depths + 4 * ((count + 1) % 2 ^ 32)) >> ok true)
    else ok false

-- The second loop: the context, the depths, whether there is a cache, and the bytes that are left.
unfoldable pub check_targets :
    Scope
    → ℕ
    → ℕ
    → ℕ
    → LoaderContext
    → List ℕ
    → Bool
    → List ℕ
    → Result (LoaderContext × List ℕ × Bool × List ℕ)
check_targets s count default_arity zero ctx depths cached p = ok (ctx, depths, cached, p)
check_targets s count default_arity (suc left) ctx depths cached p = do
  (depth, p_behind) ← read_leb_uint32 p
  target_block ← block_at ctx depth
  check (block_type_get_arity target_block.block_type target_block.label_type == default_arity)
      br_table_arity
  (ctx, p) ← check_branch_block s.grow ctx true p
  cached ← need_cache s count cached depth
  check_targets s count default_arity left ctx (depths ++ (depth ∷ [])) cached p

-- Bytes that are written over from one address on.
unfoldable pub rewrite_bytes : ℕ → List ℕ → List (ℕ × ℕ) → List (ℕ × ℕ)
rewrite_bytes at [] rewrites = rewrites
rewrite_bytes at (byte ∷ bytes) rewrites = rewrite_bytes (at - 1) bytes ((at, byte) ∷ rewrites)

-- What becomes of the table's `size` bytes, which start `at` bytes from the end: without a cache, a byte
-- for each depth and then WASM_OP_NOP; else WASM_OP_NOP only, and the opcode, of which `opcode_at` is
-- the place, is EXT_OP_BR_TABLE_CACHE.
unfoldable pub rewrite_table : LoaderContext → ℕ → ℕ → ℕ → List ℕ → Bool → LoaderContext
rewrite_table ctx opcode_at at size depths true = record ctx {
  rewrites = rewrite_bytes at (replicate size 0x01) ((opcode_at, 0xd6) ∷ ctx.rewrites);
  br_table_caches = depths ∷ ctx.br_table_caches;
}
rewrite_table ctx opcode_at at size depths false = record ctx {
  rewrites = rewrite_bytes at (depths ++ replicate (size - length depths) 0x01) ctx.rewrites;
}

unfoldable pub handle_op_br_table : Scope → LoaderContext → List ℕ → Read LoaderContext
handle_op_br_table s ctx p_count = do
  (count, p) ← read_leb_uint32 p_count
  ctx ← wasm_loader_pop_frame_ref ctx value_type_i32
  default_depth ← check_depths ctx (suc count) 0 p
  default_block ← block_at ctx default_depth
  let default_arity = block_type_get_arity default_block.block_type default_block.label_type
  (ctx, depths, cached, p_behind) ← check_targets s count default_arity (suc count) ctx [] false p
  let size = length p - length p_behind
  ctx ← reset_stack (rewrite_table ctx (suc (length p_count)) (length p) size depths cached) true
  ok (ctx, p_behind)

unfoldable pub handle_op_return : Scope → LoaderContext → Result LoaderContext
handle_op_return s ctx = do
  ctx ← pop_types ctx (block_type_get_result_types (func s.func.func_type))
  reset_stack ctx true

-- The results of a tail call are those of the function.
unfoldable pub check_return_call : Scope → LoaderContext → WasmType → Result LoaderContext
check_return_call s ctx func_type = do
  check (func_type.result_count == s.func.func_type.result_count) return_count_mismatch
  check
      (same_bytes (block_type_get_result_types (func func_type))
        (block_type_get_result_types (func s.func.func_type)))
      expect_other_type
  reset_stack ctx true

-- The arguments of a call, and then its results or the tail call's checks.
unfoldable pub pass_arguments : Scope → Bool → LoaderContext → WasmType → Result LoaderContext
pass_arguments s is_tail ctx func_type = do
  ctx ← pop_types ctx (block_type_get_param_types (func func_type))
  if is_tail
      then check_return_call s ctx func_type
      else push_types s.grow ctx (block_type_get_result_types (func func_type))

-- WASM_OP_CALL and WASM_OP_RETURN_CALL
unfoldable pub handle_op_call : Scope → Bool → LoaderContext → List ℕ → Read LoaderContext
handle_op_call s is_tail ctx p = do
  (func_idx, p) ← read_leb_uint32 p
  func_type ← called_type s.wasm_module.loaded func_idx
  ctx ← pass_arguments s is_tail ctx func_type
  ok (record ctx { flags = record ctx.flags { has_op_func_call = true } }, p)

-- WASM_OP_CALL_INDIRECT and WASM_OP_RETURN_CALL_INDIRECT
unfoldable pub handle_op_call_indirect : Scope → Bool → LoaderContext → List ℕ → Read LoaderContext
handle_op_call_indirect s is_tail ctx p = do
  (type_idx, p) ← read_leb_uint32 p
  (table_idx, p) ← read_uint8 p
  check_table_index s.wasm_module.loaded table_idx
  is_table64 ← is_table_table64 s.wasm_module.loaded table_idx
  ctx ← wasm_loader_pop_frame_ref ctx (if is_table64 then value_type_i64 else value_type_i32)
  reject (leb (length s.wasm_module.types.types) type_idx) unknown_type
  func_type ← type_of s.wasm_module type_idx
  ctx ← pass_arguments s is_tail ctx func_type
  ok (
    record ctx {
      flags = record ctx.flags { has_op_func_call = true; has_op_call_indirect = true };
    },
    p,
  )
