-- ===== src/Vector.antt =====
-- The case WASM_OP_SIMD_PREFIX of `wasm_loader_prepare_bytecode`
-- (core/iwasm/common/wasm_loader.c).
pub mod Opened
use wasm2native.Access.{note_memory, apply_signature}
use wasm2native.Common.{
  ℕ, ◌-◌, ◌||◌, none, some, List, [], ◌∷◌, take, drop, ltb, leb, ◌==◌, if◌then◌else◌,
}
use wasm2native.Common.Outcome.{Result, ok, err, ◌>>=◌, ◌>>◌, invalid_simd_opcode}
use wasm2native.Leb.{Read, read_leb_uint32, read_leb_mem_offset}
use wasm2native.Loader.{need1, read_uint8}
use wasm2native.Opcodes.{
  v128, between, within, entry, vector_shift, vector_signature, check_simd_memory_access_align,
  check_simd_access_lane, check_simd_shuffle_mask,
}
use wasm2native.Operands.{LoaderContext, wasm_loader_push_frame_ref, wasm_loader_push_pop_frame_ref}
use wasm2native.Program.{Scope, check_memory, has_module_memory64, offset_value_type, exchange}
use wasm2native.Wasm.{value_type_i32, value_type_i64, value_type_f32, value_type_f64}

-- The address of a vector access.
unfoldable pub read_simd_access : Scope → ℕ → List ℕ → Result (List ℕ)
read_simd_access s opcode1 p = do
  check_memory s.wasm_module.loaded
  (align, p) ← read_leb_uint32 p
  check_simd_memory_access_align opcode1 align
  (mem_offset, p) ← read_leb_mem_offset (has_module_memory64 s.wasm_module.loaded) p
  ok p

-- 0x00 SIMD_v128_load to 0x0a, 0x0b SIMD_v128_store, 0x5c SIMD_v128_load32_zero and
-- 0x5d SIMD_v128_load64_zero.
unfoldable pub handle_simd_access : Scope → ℕ → LoaderContext → List ℕ → Read LoaderContext
handle_simd_access s opcode1 ctx p = do
  let mem = offset_value_type s.wasm_module.loaded
  p ← read_simd_access s opcode1 p
  ctx ←
      (if opcode1 == 0x0b
        then exchange s.grow ctx (mem ∷ v128 ∷ []) []
        else exchange s.grow ctx (mem ∷ []) (v128 ∷ []))
  ok (note_memory ctx, p)

-- 0x54 SIMD_v128_load8_lane to 0x5b SIMD_v128_store64_lane; from 0x58 on they store.
unfoldable pub handle_simd_lane_access : Scope → ℕ → LoaderContext → List ℕ → Read LoaderContext
handle_simd_lane_access s opcode1 ctx p = do
  p ← read_simd_access s opcode1 p
  (lane, p) ← read_uint8 p
  check_simd_access_lane opcode1 lane
  ctx ←
      exchange s.grow ctx (offset_value_type s.wasm_module.loaded ∷ v128 ∷ [])
        (if ltb opcode1 0x58 then v128 ∷ [] else [])
  ok (note_memory ctx, p)

-- 0x0c SIMD_v128_const
unfoldable pub handle_simd_const : Scope → LoaderContext → List ℕ → Read LoaderContext
handle_simd_const s ctx p = do
  need1 16 p
  ctx ← wasm_loader_push_frame_ref s.grow ctx v128
  ok (ctx, drop 16 p)

-- 0x0d SIMD_v8x16_shuffle
unfoldable pub handle_simd_shuffle : Scope → LoaderContext → List ℕ → Read LoaderContext
handle_simd_shuffle s ctx p = do
  need1 16 p
  check_simd_shuffle_mask (take 16 p)
  ctx ← wasm_loader_push_pop_frame_ref s.grow ctx 2 v128 v128
  ok (ctx, drop 16 p)

-- The table `pop_type` of 0x0f SIMD_i8x16_splat to 0x14 SIMD_f64x2_splat.
abbrev pub splat_types : List ℕ
splat_types =
    value_type_i32 ∷ value_type_i32 ∷ value_type_i32 ∷ value_type_i64 ∷ value_type_f32
    ∷ value_type_f64 ∷ []

-- The tables `replace` and `push_type` of 0x15 SIMD_i8x16_extract_lane_s to
-- 0x22 SIMD_f64x2_replace_lane.
abbrev pub replace_types : List ℕ
replace_types =
    0 ∷ 0 ∷ value_type_i32 ∷ 0 ∷ 0 ∷ value_type_i32 ∷ 0 ∷ value_type_i32 ∷ 0 ∷ value_type_i64 ∷ 0
    ∷ value_type_f32 ∷ 0 ∷ value_type_f64 ∷ []

abbrev pub lane_push_types : List ℕ
lane_push_types =
    value_type_i32 ∷ value_type_i32 ∷ v128 ∷ value_type_i32 ∷ value_type_i32 ∷ v128 ∷ value_type_i32
    ∷ v128 ∷ value_type_i64 ∷ v128 ∷ value_type_f32 ∷ v128 ∷ value_type_f64 ∷ v128 ∷ []

-- What an operation on a lane takes: the vector, and the new value where it replaces one.
unfoldable pub lane_pops : ℕ → List ℕ
lane_pops opcode1 =
    let type = entry replace_types (opcode1 - 0x15) in
    if type == 0 then v128 ∷ [] else v128 ∷ type ∷ []

unfoldable pub handle_simd_lane : Scope → ℕ → LoaderContext → List ℕ → Read LoaderContext
handle_simd_lane s opcode1 ctx p = do
  (lane, p) ← read_uint8 p
  check_simd_access_lane opcode1 lane
  ctx ← exchange s.grow ctx (lane_pops opcode1) (entry lane_push_types (opcode1 - 0x15) ∷ [])
  ok (ctx, p)

-- Operations without operands behind the opcode.
unfoldable pub handle_simd_plain : Scope → ℕ → LoaderContext → Result LoaderContext
handle_simd_plain s opcode1 ctx =
    if between 0x0f 0x14 opcode1
    then exchange s.grow ctx (entry splat_types (opcode1 - 0x0f) ∷ []) (v128 ∷ [])
    else if within vector_shift opcode1
    then exchange s.grow ctx (v128 ∷ value_type_i32 ∷ []) (v128 ∷ [])
    else elim (vector_signature opcode1) [
      | none ↦ err invalid_simd_opcode
      | some sig ↦ apply_signature s ctx sig
    ]

unfoldable pub handle_op_simd : Scope → LoaderContext → List ℕ → Read LoaderContext
handle_op_simd s ctx p = do
  (opcode1, p) ← read_leb_uint32 p
  if leb opcode1 0x0b || between 0x5c 0x5d opcode1
      then handle_simd_access s opcode1 ctx p
      else if opcode1 == 0x0c
      then handle_simd_const s ctx p
      else if opcode1 == 0x0d
      then handle_simd_shuffle s ctx p
      else if between 0x15 0x22 opcode1
      then handle_simd_lane s opcode1 ctx p
      else if between 0x54 0x5b opcode1
      then handle_simd_lane_access s opcode1 ctx p
      else (handle_simd_plain s opcode1 ctx >>= λ ctx. ok (ctx, p))
