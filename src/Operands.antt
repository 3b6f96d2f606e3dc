-- ===== src/Operands.antt =====
-- The validator's stacks: the types of the operands and the open blocks (WASMLoaderContext of
-- core/iwasm/common/wasm_loader.c). The stack of operands has a cell of 32 bits each, the top first,
-- and so has the list of blocks. `grow` says whether the allocator gives the stacks of a function
-- so many bytes.
pub mod Pushed
pub mod Popped
use wasm2native.Common.{
  ℕ, zero, suc, ◌+◌, ◌-◌, ◌*◌, ◌%◌, ◌^◌, Bool, true, false, not, ◌&&◌, ◌||◌, Option, none, some,
  List, [], ◌∷◌, length, get_elem?, drop, ltb, leb, ◌==◌, if◌then◌else◌,
}
use wasm2native.Common.Outcome.{
  Result, ok, err, ◌>>=◌, ◌>>◌, check, reject, allocate_memory_failed, stack_was_empty,
  expect_other_type, operand_stack_limit, label_stack_limit, block_stack_was_empty,
}
use wasm2native.Loader.{is_32bit_type}
use wasm2native.Wasm.{
  BlockType, value_type_void, value_type_any, value_type_v128, wasm_value_type_cell_num,
}

-- BranchBlock, less the addresses of its code, but for whether there is an `else_addr`.
pub record BranchBlock : Type 0 where
  pub label_type : ℕ
  pub block_type : BlockType
  pub has_else : Bool
  pub stack_cell_num : ℕ
  pub is_stack_polymorphic : Bool

-- What the validator notes for the compiler: flags of WASMFunction, and `possible_memory_grow` of
-- WASMModule.
pub record Flags : Type 0 where
  pub has_op_func_call : Bool
  pub has_op_call_indirect : Bool
  pub has_op_memory_grow : Bool
  pub has_memory_operations : Bool
  pub has_op_set_global_aux_stack : Bool
  pub possible_memory_grow : Bool

-- The lengths of the lists are `stack_cell_num` and `csp_num`. What the validator changes elsewhere
-- stands here, too: the flags; the bytes of the code that it writes over, the last one first, each with
-- the number of bytes from its address to the code's end; and `br_table_cache_list`, of which an
-- entry is its depths.
pub record LoaderContext : Type 0 where
  pub frame_ref : List ℕ
  pub frame_ref_size : ℕ
  pub max_stack_cell_num : ℕ
  pub frame_csp : List BranchBlock
  pub frame_csp_size : ℕ
  pub max_csp_num : ℕ
  pub flags : Flags
  pub rewrites : List (ℕ × ℕ)
  pub br_table_caches : List (List ℕ)

-- MEM_REALLOC; the sizes are of uint32 and stay far below its bound.
unfoldable pub memory_realloc : (ℕ → Bool) → ℕ → Result (Unit {0})
memory_realloc grow size_new =
    check (ltb size_new (2 ^ 32 - 1) && grow size_new) allocate_memory_failed

-- CHECK_STACK_PUSH, with the store of one cell behind it.
unfoldable pub push_cell : (ℕ → Bool) → ℕ → LoaderContext → Result LoaderContext
push_cell grow type ctx =
    if leb ctx.frame_ref_size (length ctx.frame_ref)
    then (memory_realloc grow (ctx.frame_ref_size + 16)
        >> ok (record ctx {
          frame_ref = type ∷ ctx.frame_ref;
          frame_ref_size = ctx.frame_ref_size + 16;
        }))
    else ok (record ctx { frame_ref = type ∷ ctx.frame_ref })

-- The maximum is kept, and is at most UINT16_MAX.
unfoldable pub note_height : LoaderContext → Result LoaderContext
note_height ctx =
    if ltb ctx.max_stack_cell_num (length ctx.frame_ref)
    then (reject (ltb 0xFFFF (length ctx.frame_ref)) operand_stack_limit
        >> ok (record ctx { max_stack_cell_num = length ctx.frame_ref }))
    else ok ctx

unfoldable pub push_upper_cells : (ℕ → Bool) → ℕ → LoaderContext → Result LoaderContext
push_upper_cells grow type ctx =
    if type == value_type_v128
    then (do ctx ← push_cell grow type ctx; push_cell grow type ctx)
    else ok ctx

unfoldable pub wasm_loader_push_frame_ref : (ℕ → Bool) → LoaderContext → ℕ → Result LoaderContext
wasm_loader_push_frame_ref grow ctx type = if type == value_type_void then ok ctx else (do
  ctx ← push_cell grow type ctx
  if is_32bit_type type || type == value_type_any then note_height ctx else (do
    ctx ← push_cell grow type ctx
    ctx ← push_upper_cells grow type ctx
    note_height ctx))

-- The first so many cells have the type.
unfoldable pub top_cells : ℕ → ℕ → List ℕ → Result (Unit {0})
top_cells zero type frame_ref = ok tt
top_cells (suc n) type [] = err expect_other_type
top_cells (suc n) type (cell ∷ frame_ref) =
    check (cell == type) expect_other_type >> top_cells n type frame_ref

-- `stack_cell_num` is how many cells there are to look at.
unfoldable pub check_stack_top_values : List ℕ → ℕ → ℕ → Result (Unit {0})
check_stack_top_values frame_ref stack_cell_num type =
    reject (ltb stack_cell_num (wasm_value_type_cell_num type)) stack_was_empty
    >> top_cells (wasm_value_type_cell_num type) type frame_ref

-- Whether the top is a value of any type.
unfoldable pub any_on_top : List ℕ → Bool
any_on_top [] = false
any_on_top (cell ∷ frame_ref) = cell == value_type_any

unfoldable pub check_stack_pop : List ℕ → ℕ → ℕ → Result (Unit {0})
check_stack_pop frame_ref block_stack_cell_num type =
    if ltb 0 block_stack_cell_num && any_on_top frame_ref
    then ok tt
    else check_stack_top_values frame_ref block_stack_cell_num type

-- How many cells a value that is checked takes off the stack.
unfoldable pub cells_to_pop : List ℕ → ℕ → ℕ
cells_to_pop frame_ref type =
    if is_32bit_type type || any_on_top frame_ref
    then 1
    else if type == value_type_v128
    then 4
    else 2

-- A pop in the current block. The cells above the block's are an int32, which is never negative
-- (`Popped.wasm_loader_pop_frame_ref-IsAbove`).
unfoldable pub pop_in_block : LoaderContext → BranchBlock → ℕ → Result LoaderContext
pop_in_block ctx cur_block type =
    if leb (length ctx.frame_ref) cur_block.stack_cell_num && cur_block.is_stack_polymorphic
    then ok ctx
    else if type == value_type_void
    then ok ctx
    else (check_stack_pop ctx.frame_ref (length ctx.frame_ref - cur_block.stack_cell_num) type
        >> ok (record ctx { frame_ref = drop (cells_to_pop ctx.frame_ref type) ctx.frame_ref }))

-- The current block is always there while a body is read: where there is none, the C code reads below
-- its array.
unfoldable pub wasm_loader_pop_frame_ref : LoaderContext → ℕ → Result LoaderContext
wasm_loader_pop_frame_ref ctx type = elim (get_elem? ctx.frame_csp 0) [
  | none ↦ err block_stack_was_empty
  | some cur_block ↦ pop_in_block ctx cur_block type
]

unfoldable pub pop_times : ℕ → LoaderContext → ℕ → Result LoaderContext
pop_times zero ctx type = ok ctx
pop_times (suc n) ctx type = wasm_loader_pop_frame_ref ctx type >>= λ ctx. pop_times n ctx type

unfoldable pub wasm_loader_push_pop_frame_ref :
    (ℕ → Bool) → LoaderContext → ℕ → ℕ → ℕ → Result LoaderContext
wasm_loader_push_pop_frame_ref grow ctx pop_cnt type_push type_pop =
    pop_times pop_cnt ctx type_pop >>= λ ctx. wasm_loader_push_frame_ref grow ctx type_push

-- CHECK_CSP_PUSH for a block structure of `sizeof_block` bytes.
unfoldable pub grow_csp : (ℕ → Bool) → ℕ → LoaderContext → Result LoaderContext
grow_csp grow sizeof_block ctx =
    if leb ctx.frame_csp_size (length ctx.frame_csp * sizeof_block)
    then (memory_realloc grow (ctx.frame_csp_size + 8 * sizeof_block)
        >> ok (record ctx { frame_csp_size = ctx.frame_csp_size + 8 * sizeof_block }))
    else ok ctx

unfoldable pub wasm_loader_push_frame_csp :
    (ℕ → Bool) → ℕ → LoaderContext → ℕ → BlockType → Result LoaderContext
wasm_loader_push_frame_csp grow sizeof_block ctx label_type block_type = do
  ctx ← grow_csp grow sizeof_block ctx
  let block : BranchBlock = record {
    label_type = label_type;
    block_type = block_type;
    has_else = false;
    stack_cell_num = length ctx.frame_ref;
    is_stack_polymorphic = false;
  }
  let frame_csp = block ∷ ctx.frame_csp
  if ltb ctx.max_csp_num (length frame_csp)
      then (reject (ltb 0xFFFF (length frame_csp)) label_stack_limit
          >> ok (record ctx { frame_csp = frame_csp; max_csp_num = length frame_csp }))
      else ok (record ctx { frame_csp = frame_csp })

unfoldable pub wasm_loader_pop_frame_csp : LoaderContext → Result LoaderContext
wasm_loader_pop_frame_csp ctx =
    reject (ltb (length ctx.frame_csp) 1) block_stack_was_empty
    >> ok (record ctx { frame_csp = drop 1 ctx.frame_csp })
