-- ===== src/Access.antt =====
-- Memory accesses, constants and bulk operations: the cases WASM_OP_I32_LOAD to WASM_OP_F64_CONST,
-- WASM_OP_MISC_PREFIX and WASM_OP_ATOMIC_PREFIX of `wasm_loader_prepare_bytecode`
-- (core/iwasm/common/wasm_loader.c).
pub mod Opened
pub mod Bulk
use wasm2native.Common.{ℕ, Bool, true, ◌||◌, none, some, List, [], ◌∷◌, leb, ◌==◌, if◌then◌else◌}
use wasm2native.Common.Outcome.{
  Result, ok, err, ◌>>=◌, ◌>>◌, check, reject, unsupported_opcode, unknown_memory_0,
  unknown_data_segment, data_count_required,
}
use wasm2native.Leb.{Read, read_leb_uint32, read_leb_int32, read_leb_int64, read_leb_mem_offset}
use wasm2native.Loader.{need, skip}
use wasm2native.Opcodes.{Signature, between, saturating_signature, check_memory_access_align}
use wasm2native.Operands.{LoaderContext, wasm_loader_push_frame_ref, wasm_loader_push_pop_frame_ref}
use wasm2native.Program.{
  Scope, check_memory, has_memory, has_module_memory64, offset_value_type, read_zero_byte, exchange,
}
use wasm2native.Wasm.{value_type_i32, value_type_i64, value_type_f32, value_type_f64}

unfoldable pub note_memory : LoaderContext → LoaderContext
note_memory ctx = record ctx { flags = record ctx.flags { has_memory_operations = true } }

-- The type that a load returns or a store takes: loads are 0x28 to 0x35, stores 0x36 to 0x3e.
unfoldable pub accessed_type : ℕ → ℕ
accessed_type opcode =
    if opcode == 0x28 || (between 0x2c 0x2f opcode || (opcode == 0x36 || between 0x3a 0x3b opcode))
    then value_type_i32
    else if opcode == 0x2a || opcode == 0x38
    then value_type_f32
    else if opcode == 0x2b || opcode == 0x39
    then value_type_f64
    else value_type_i64

-- `mem` is `mem_offset_type`.
unfoldable pub access_pops : ℕ → ℕ → List ℕ
access_pops mem opcode = if leb opcode 0x35 then mem ∷ [] else mem ∷ accessed_type opcode ∷ []

unfoldable pub access_pushes : ℕ → List ℕ
access_pushes opcode = if leb opcode 0x35 then accessed_type opcode ∷ [] else []

unfoldable pub handle_op_access : Scope → ℕ → LoaderContext → List ℕ → Read LoaderContext
handle_op_access s opcode ctx p = do
  let m = s.wasm_module.loaded
  check_memory m
  (align, p) ← read_leb_uint32 p
  (mem_offset, p) ← read_leb_mem_offset (has_module_memory64 m) p
  check_memory_access_align opcode align
  ctx ←
      exchange s.grow (note_memory ctx) (access_pops (offset_value_type m) opcode)
        (access_pushes opcode)
  ok (ctx, p)

unfoldable pub note_grow : Bool → LoaderContext → LoaderContext
note_grow is_grow ctx = record ctx {
  flags = record ctx.flags {
    possible_memory_grow = true;
    has_op_memory_grow = is_grow || ctx.flags.has_op_memory_grow;
    has_memory_operations = true;
  };
}

-- WASM_OP_MEMORY_SIZE and WASM_OP_MEMORY_GROW
unfoldable pub handle_op_memory_size : Scope → Bool → LoaderContext → List ℕ → Read LoaderContext
handle_op_memory_size s is_grow ctx p = do
  let m = s.wasm_module.loaded
  let mem = offset_value_type m
  check_memory m
  p ← read_zero_byte p
  ctx ← exchange s.grow ctx (if is_grow then mem ∷ [] else []) (mem ∷ [])
  ok (note_grow is_grow ctx, p)

-- The bytes behind a constant: 0x41 WASM_OP_I32_CONST to 0x44 WASM_OP_F64_CONST.
unfoldable pub skip_const : ℕ → List ℕ → Result (List ℕ)
skip_const opcode p =
    if opcode == 0x41
    then (do (i32_const, p) ← read_leb_int32 p; ok p)
    else if opcode == 0x42
    then (do (i64_const, p) ← read_leb_int64 p; ok p)
    else if opcode == 0x43
    then skip 4 p
    else skip 8 p

unfoldable pub const_type : ℕ → ℕ
const_type opcode =
    if opcode == 0x41
    then value_type_i32
    else if opcode == 0x42
    then value_type_i64
    else if opcode == 0x43
    then value_type_f32
    else value_type_f64

unfoldable pub handle_op_const : Scope → ℕ → LoaderContext → List ℕ → Read LoaderContext
handle_op_const s opcode ctx p = do
  p ← skip_const opcode p
  ctx ← wasm_loader_push_frame_ref s.grow ctx (const_type opcode)
  ok (ctx, p)

-- POP_AND_PUSH and the like for a signature.
unfoldable pub apply_signature : Scope → LoaderContext → Signature → Result LoaderContext
apply_signature s ctx sig =
    wasm_loader_push_pop_frame_ref s.grow ctx sig.pop_cnt sig.type_push sig.type_pop

unfoldable pub handle_memory_init : Scope → LoaderContext → List ℕ → Read LoaderContext
handle_memory_init s ctx p = do
  let m = s.wasm_module
  (data_seg_idx, p) ← read_leb_uint32 p
  check (has_memory m.loaded) unknown_memory_0
  p ← read_zero_byte p
  reject (leb m.data_seg_count data_seg_idx) unknown_data_segment
  reject (m.data_seg_count1 == 0) data_count_required
  ctx ← exchange s.grow ctx (offset_value_type m.loaded ∷ value_type_i32 ∷ value_type_i32 ∷ []) []
  ok (note_memory ctx, p)

unfoldable pub handle_data_drop : Scope → LoaderContext → List ℕ → Read LoaderContext
handle_data_drop s ctx p = do
  (data_seg_idx, p) ← read_leb_uint32 p
  reject (leb s.wasm_module.data_seg_count data_seg_idx) unknown_data_segment
  reject (s.wasm_module.data_seg_count1 == 0) data_count_required
  ok (note_memory ctx, p)

unfoldable pub handle_memory_copy : Scope → LoaderContext → List ℕ → Read LoaderContext
handle_memory_copy s ctx p = do
  let mem = offset_value_type s.wasm_module.loaded
  need 2 p
  p ← read_zero_byte p
  p ← read_zero_byte p
  check (has_memory s.wasm_module.loaded) unknown_memory_0
  ctx ← exchange s.grow ctx (mem ∷ mem ∷ mem ∷ []) []
  ok (note_memory ctx, p)

unfoldable pub handle_memory_fill : Scope → LoaderContext → List ℕ → Read LoaderContext
handle_memory_fill s ctx p = do
  let mem = offset_value_type s.wasm_module.loaded
  p ← read_zero_byte p
  check (has_memory s.wasm_module.loaded) unknown_memory_0
  ctx ← exchange s.grow ctx (mem ∷ value_type_i32 ∷ mem ∷ []) []
  ok (note_memory ctx, p)

unfoldable pub handle_saturating : Scope → ℕ → LoaderContext → List ℕ → Read LoaderContext
handle_saturating s opcode1 ctx p = elim (saturating_signature opcode1) [
  | none ↦ err unsupported_opcode
  | some sig ↦ (apply_signature s ctx sig >>= λ ctx. ok (ctx, p))
]

unfoldable pub handle_op_misc : Scope → LoaderContext → List ℕ → Read LoaderContext
handle_op_misc s ctx p = do
  (opcode1, p) ← read_leb_uint32 p
  if opcode1 == 8
      then handle_memory_init s ctx p
      else if opcode1 == 9
      then handle_data_drop s ctx p
      else if opcode1 == 10
      then handle_memory_copy s ctx p
      else if opcode1 == 11
      then handle_memory_fill s ctx p
      else handle_saturating s opcode1 ctx p
