-- ===== src/Validator.antt =====
-- The validator of a function's code: `wasm_loader_prepare_bytecode` of
-- core/iwasm/common/wasm_loader.c, with its loop over the instructions.
pub mod Sourced
pub mod Dispatched
pub mod Ended
use wasm2native.Access.{
  handle_op_access, handle_op_memory_size, handle_op_const, handle_op_misc, apply_signature,
}
use wasm2native.Atomic.{handle_op_atomic}
use wasm2native.Branches.{reset_stack}
use wasm2native.Common.{
  ℕ, zero, suc, ◌+◌, ◌-◌, ◌*◌, true, false, ◌||◌, Option, none, some, List, [], ◌∷◌, ◌++◌, length,
  take, ltb, leb, ◌==◌, if◌then◌else◌,
}
use wasm2native.Common.Outcome.{
  Result, ok, err, ◌>>=◌, ◌>>◌, reject, unsupported_opcode, end_expected,
  unexpected_end_of_function,
}
use wasm2native.Control.{handle_op_block_and_loop, handle_op_if, handle_op_else, handle_op_end}
use wasm2native.Jumps.{
  handle_op_br, handle_op_br_if, handle_op_br_table, handle_op_return, handle_op_call,
  handle_op_call_indirect,
}
use wasm2native.Leb.{Read}
use wasm2native.Opcodes.{between, numeric_signature}
use wasm2native.Operands.{LoaderContext, memory_realloc, wasm_loader_push_frame_csp}
use wasm2native.Program.{Scope}
use wasm2native.Variables.{
  handle_op_drop, handle_op_select, handle_op_get_local, handle_op_set_local, handle_op_tee_local,
  handle_op_get_global, handle_op_set_global,
}
use wasm2native.Vector.{handle_op_simd}
use wasm2native.Wasm.{func, label_type_function}

-- An operation that reads nothing behind its opcode.
abbrev pub with_rest : List ℕ → Result LoaderContext → Read LoaderContext
with_rest p r = r >>= λ ctx. ok (ctx, p)

unfoldable pub handle_unreachable : LoaderContext → Result LoaderContext
handle_unreachable ctx = reset_stack ctx true

-- The opcodes up to 0x0f, of blocks and branches.
unfoldable pub handle_control : Scope → ℕ → LoaderContext → List ℕ → Read LoaderContext
handle_control s opcode ctx p =
    if opcode == 0x00
    then with_rest p (handle_unreachable ctx)
    else if opcode == 0x01
    then ok (ctx, p)
    else if opcode == 0x04
    then handle_op_if s ctx p
    else if between 0x02 0x03 opcode
    then handle_op_block_and_loop s opcode ctx p
    else if opcode == 0x05
    then with_rest p (handle_op_else s ctx)
    else if opcode == 0x0b
    then handle_op_end s ctx p
    else if opcode == 0x0c
    then handle_op_br s ctx p
    else if opcode == 0x0d
    then handle_op_br_if s ctx p
    else if opcode == 0x0e
    then handle_op_br_table s ctx p
    else if opcode == 0x0f
    then with_rest p (handle_op_return s ctx)
    else err unsupported_opcode

-- 0x10 to 0x27, of calls, values and variables.
unfoldable pub handle_variable : Scope → ℕ → LoaderContext → List ℕ → Read LoaderContext
handle_variable s opcode ctx p =
    if opcode == 0x10 || opcode == 0x12
    then handle_op_call s (opcode == 0x12) ctx p
    else if opcode == 0x11 || opcode == 0x13
    then handle_op_call_indirect s (opcode == 0x13) ctx p
    else if opcode == 0x1a
    then with_rest p (handle_op_drop ctx p)
    else if opcode == 0x1b
    then with_rest p (handle_op_select s ctx p)
    else if opcode == 0x20
    then handle_op_get_local s ctx p
    else if opcode == 0x21
    then handle_op_set_local s ctx p
    else if opcode == 0x22
    then handle_op_tee_local s ctx p
    else if opcode == 0x23
    then handle_op_get_global s ctx p
    else if opcode == 0x24
    then handle_op_set_global s ctx p
    else err unsupported_opcode

-- The numeric operations, and all else.
unfoldable pub handle_numeric : Scope → ℕ → LoaderContext → List ℕ → Read LoaderContext
handle_numeric s opcode ctx p = elim (numeric_signature opcode) [
  | none ↦ err unsupported_opcode
  | some sig ↦ with_rest p (apply_signature s ctx sig)
]

-- `switch (opcode)`
unfoldable pub handle_op : Scope → ℕ → LoaderContext → List ℕ → Read LoaderContext
handle_op s opcode ctx p =
    if leb opcode 0x0f
    then handle_control s opcode ctx p
    else if leb opcode 0x27
    then handle_variable s opcode ctx p
    else if leb opcode 0x3e
    then handle_op_access s opcode ctx p
    else if leb opcode 0x40
    then handle_op_memory_size s (opcode == 0x40) ctx p
    else if leb opcode 0x44
    then handle_op_const s opcode ctx p
    else if opcode == 0xfc
    then handle_op_misc s ctx p
    else if opcode == 0xfd
    then handle_op_simd s ctx p
    else if opcode == 0xfe
    then handle_op_atomic s opcode ctx p
    else handle_numeric s opcode ctx p

-- `while (p < p_end)`, with so many rounds at most: `none` where they are not enough, which
-- `Validator.Ended` excludes.
unfoldable pub run : ℕ → Scope → LoaderContext → List ℕ → Option (Result LoaderContext)
run fuel s ctx [] = some (ok ctx)
run zero s ctx (opcode ∷ p) = none
run (suc fuel) s ctx (opcode ∷ p) = elim (handle_op s opcode ctx p) [
  | err message ↦ some (err message)
  | ok (ctx, p) ↦ run fuel s ctx p
]

-- `wasm_loader_ctx_init`: room for 32 cells and 8 blocks.
unfoldable pub wasm_loader_ctx_init : Scope → Result LoaderContext
wasm_loader_ctx_init s = do
  memory_realloc s.grow s.sizeof_context
  memory_realloc s.grow 32
  memory_realloc s.grow (s.sizeof_block * 8)
  ok (record {
    frame_ref = [];
    frame_ref_size = 32;
    max_stack_cell_num = 0;
    frame_csp = [];
    frame_csp_size = s.sizeof_block * 8;
    max_csp_num = 0;
    flags = record {
      has_op_func_call = false;
      has_op_call_indirect = false;
      has_op_memory_grow = false;
      has_memory_operations = false;
      has_op_set_global_aux_stack = false;
      possible_memory_grow = false;
    };
    rewrites = [];
    br_table_caches = [];
  })

-- The context at the function's first instruction.
unfoldable pub enter_function : Scope → Result LoaderContext
enter_function s = do
  ctx ← wasm_loader_ctx_init s
  wasm_loader_push_frame_csp s.grow s.sizeof_block ctx label_type_function (func s.func.func_type)

-- A body ends where no block is open. The last function's error has another text.
unfoldable pub leave_function : Scope → LoaderContext → Result LoaderContext
leave_function s ctx =
    reject (ltb 0 (length ctx.frame_csp)) (
      if ltb s.cur_func_idx (length s.wasm_module.loaded.functions - 1)
      then end_expected
      else unexpected_end_of_function)
    >> ok ctx

-- So many bytes of memory from the place on.
unfoldable pub memory_from : (ℕ → ℕ) → ℕ → ℕ → List ℕ
memory_from memory at zero = []
memory_from memory at (suc n) = memory at ∷ memory_from memory (at + 1) n

-- The bytes from `func->code` up to `p_end`. A size that has wrapped goes beyond the code section.
unfoldable pub code_bytes : Scope → List ℕ
code_bytes s =
    take s.func.code_size s.func.code
    ++ memory_from s.behind 0 (s.func.code_size - length s.func.code)

-- The code of the function. The end of an `if` without `else` is read twice, so that twice the size is
-- enough for the loop.
unfoldable pub wasm_loader_prepare_bytecode : Scope → Option (Result LoaderContext)
wasm_loader_prepare_bytecode s = elim (enter_function s) [
  | err message ↦ some (err message)
  | ok ctx ↦
      let code = code_bytes s in
      elim (run (2 * length code + 1) s ctx code) [
        | none ↦ none
        | some r ↦ some (r >>= leave_function s)
      ]
]
