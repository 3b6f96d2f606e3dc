-- ===== src/Vector/Opened.antt =====
-- Vector operations keep the stacks' invariant: the case WASM_OP_SIMD_PREFIX of
-- `wasm_loader_prepare_bytecode` (core/iwasm/common/wasm_loader.c).
use wasm2native.Access.{note_memory}
use wasm2native.Access.Bulk.{table-IsOpen}
use wasm2native.Access.Opened.{memory_noted}
use wasm2native.Common.{
  ℕ, ◌-◌, ◌≤◌, ◌≡◌, refl, true, ◌||◌, List, [], ◌∷◌, arith, length, take, ltb, leb, ◌==◌,
  length-drop, if◌then◌else◌,
}
use wasm2native.Common.Ensures.{
  Ensures, holds, Ensures-bind, Ensures-then, Ensures-if, Ensures-ok, Ensures-mono,
}
use wasm2native.Common.Outcome.{ok, ◌>>=◌, invalid_simd_opcode}
use wasm2native.Control.Opened.{read_uint8_takes}
use wasm2native.Frames.{IsOpen, IsMoved}
use wasm2native.Frames.Opened.{push-IsOpen, push_pop-IsOpen, exchange-IsOpen}
use wasm2native.Leb.{read_leb_uint32, read_leb_mem_offset}
use wasm2native.Leb.Takes.{read_leb_uint32_takes, read_leb_mem_offset_takes}
use wasm2native.Loader.{need1, read_uint8, is_value_type}
use wasm2native.Opcodes.{
  v128, between, within, entry, vector_shift, vector_signature, check_simd_memory_access_align,
  check_simd_access_lane, check_simd_shuffle_mask,
}
use wasm2native.Opcodes.Typed.{vector-typed}
use wasm2native.Operands.{LoaderContext, wasm_loader_push_frame_ref, wasm_loader_push_pop_frame_ref}
use wasm2native.Program.{Scope, check_memory, has_module_memory64, offset_value_type, exchange}
use wasm2native.Program.Typed.{offset_value_type-value}
use wasm2native.Types.{all_value_types}
use wasm2native.Vector.{
  read_simd_access, handle_simd_access, handle_simd_lane_access, handle_simd_const,
  handle_simd_shuffle, splat_types, lane_push_types, lane_pops, handle_simd_lane, handle_simd_plain,
  handle_op_simd,
}
use wasm2native.Wasm.{BlockType, value_type_i32}

read_simd_access_takes :
    (s : Scope) (opcode1 : ℕ) (p : List ℕ)
    → Ensures (λ (rest : List ℕ). length rest ≤ length p) (read_simd_access s opcode1 p)
unfolding read_simd_access
read_simd_access_takes s opcode1 p =
    let m = s.wasm_module.loaded in
    Ensures-then (check_memory m) λ _. Ensures-bind (read_leb_uint32 p) λ (align, p1) e1.
      Ensures-then (check_simd_memory_access_align opcode1 align) λ _.
        Ensures-bind (read_leb_mem_offset (has_module_memory64 m) p1) λ (offset, p2) e2. holds (
          omega (
            arith,
            (read_leb_uint32_takes p align p1 e1).0,
            read_leb_mem_offset_takes (has_module_memory64 m) p1 offset p2 e2,
          ))

splat-value : (i : ℕ) → i ≤ 5 → is_value_type (entry splat_types i) ≡ true
unfolding is_value_type
splat-value i h = ground arith

all_one : (t : ℕ) → is_value_type t ≡ true → all_value_types (t ∷ []) ≡ true
unfolding all_value_types
all_one t h = ground arith

lane_types-all :
    (opcode1 : ℕ)
    → between 0x15 0x22 opcode1 ≡ true
    → (all_value_types (lane_pops opcode1) ≡ true)
      × (all_value_types (entry lane_push_types (opcode1 - 0x15) ∷ []) ≡ true)
unfolding lane_pops all_value_types is_value_type
lane_types-all opcode1 h = (ground arith, ground arith)

module _ (s : Scope) (root : BlockType) (ctx : LoaderContext) (p : List ℕ)
    (o : IsOpen root ctx) where
  exchange-IsMoved :
      (pops pushes : List ℕ) (rest : List ℕ)
      → all_value_types pops ≡ true
      → all_value_types pushes ≡ true
      → length rest ≤ length p
      → Ensures
          (IsMoved root p)
          (exchange s.grow ctx pops pushes >>= λ ctx. ok (note_memory ctx, rest))
  unfolding IsMoved
  exchange-IsMoved pops pushes rest pop push shorter =
      Ensures-bind (exchange s.grow ctx pops pushes) λ c e. holds (
        memory_noted root c (Ensures-ok (exchange-IsOpen s.grow root ctx pops pushes pop push o) e),
        shorter,
      )

  handle_simd_access-IsMoved :
      (opcode1 : ℕ) → Ensures (IsMoved root p) (handle_simd_access s opcode1 ctx p)
  unfolding handle_simd_access IsMoved all_value_types is_value_type
  handle_simd_access-IsMoved opcode1 =
      let mem = offset_value_type s.wasm_module.loaded in
      let value = offset_value_type-value s.wasm_module.loaded in
      Ensures-bind (read_simd_access s opcode1 p) λ rest e.
        let shorter = Ensures-ok (read_simd_access_takes s opcode1 p) e in
        Ensures-bind
          (if opcode1 == 0x0b
            then exchange s.grow ctx (mem ∷ v128 ∷ []) []
            else exchange s.grow ctx (mem ∷ []) (v128 ∷ []))
          λ c e'. holds (
            memory_noted root c (
                Ensures-ok {Post = IsOpen root}
                  (Ensures-if (opcode1 == 0x0b)
                    (λ _.
                      exchange-IsOpen s.grow root ctx (mem ∷ v128 ∷ []) [] (ground arith) refl o)
                    (λ _.
                      exchange-IsOpen s.grow root ctx (mem ∷ []) (v128 ∷ []) (ground arith) refl o))
                  e'),
            shorter,
          )

  handle_simd_lane_access-IsMoved :
      (opcode1 : ℕ) → Ensures (IsMoved root p) (handle_simd_lane_access s opcode1 ctx p)
  unfolding handle_simd_lane_access all_value_types is_value_type
  handle_simd_lane_access-IsMoved opcode1 =
      let value = offset_value_type-value s.wasm_module.loaded in
      Ensures-bind (read_simd_access s opcode1 p) λ p1 e1.
        Ensures-bind (read_uint8 p1) λ (lane, p2) e2.
          Ensures-then (check_simd_access_lane opcode1 lane) λ _.
            exchange-IsMoved (offset_value_type s.wasm_module.loaded ∷ v128 ∷ [])
              (if ltb opcode1 0x58 then v128 ∷ [] else []) p2 (ground arith) (ground arith)
              (omega (
                arith,
                Ensures-ok (read_simd_access_takes s opcode1 p) e1,
                Ensures-ok (read_uint8_takes p1) e2,
              ))

  handle_simd_const-IsMoved : Ensures (IsMoved root p) (handle_simd_const s ctx p)
  unfolding handle_simd_const IsMoved is_value_type
  handle_simd_const-IsMoved = Ensures-then (need1 16 p) λ _.
      Ensures-bind (wasm_loader_push_frame_ref s.grow ctx v128) λ c e.
        holds
          (Ensures-ok (push-IsOpen s.grow root ctx v128 refl o) e, omega (arith, length-drop 16 p))

  handle_simd_shuffle-IsMoved : Ensures (IsMoved root p) (handle_simd_shuffle s ctx p)
  unfolding handle_simd_shuffle IsMoved is_value_type
  handle_simd_shuffle-IsMoved = Ensures-then (need1 16 p) λ _.
      Ensures-then (check_simd_shuffle_mask (take 16 p)) λ _.
        Ensures-bind (wasm_loader_push_pop_frame_ref s.grow ctx 2 v128 v128) λ c e. holds (
          Ensures-ok (push_pop-IsOpen s.grow root ctx 2 v128 v128 refl refl o) e,
          omega (arith, length-drop 16 p),
        )

  handle_simd_lane-IsMoved :
      (opcode1 : ℕ)
      → between 0x15 0x22 opcode1 ≡ true
      → Ensures (IsMoved root p) (handle_simd_lane s opcode1 ctx p)
  unfolding handle_simd_lane IsMoved
  handle_simd_lane-IsMoved opcode1 h = Ensures-bind (read_uint8 p) λ (lane, rest) e1.
      Ensures-then (check_simd_access_lane opcode1 lane) λ _.
        let pushes = entry lane_push_types (opcode1 - 0x15) ∷ [] in
        Ensures-bind (exchange s.grow ctx (lane_pops opcode1) pushes) λ c e2.
          let (pop, push) = lane_types-all opcode1 h in
          holds (
            Ensures-ok (exchange-IsOpen s.grow root ctx (lane_pops opcode1) pushes pop push o) e2,
            omega (arith, Ensures-ok (read_uint8_takes p) e1),
          )

  handle_simd_plain-IsOpen : (opcode1 : ℕ) → Ensures (IsOpen root) (handle_simd_plain s opcode1 ctx)
  unfolding handle_simd_plain all_value_types is_value_type
  handle_simd_plain-IsOpen opcode1 =
      Ensures-if (between 0x0f 0x14 opcode1)
        (λ h.
          let value = splat-value (opcode1 - 0x0f) (ground arith) in
          exchange-IsOpen s.grow root ctx (entry splat_types (opcode1 - 0x0f) ∷ []) (v128 ∷ [])
            (all_one (entry splat_types (opcode1 - 0x0f)) value) refl o)
        λ _.
          Ensures-if (within vector_shift opcode1)
            (λ _.
              exchange-IsOpen s.grow root ctx (v128 ∷ value_type_i32 ∷ []) (v128 ∷ []) refl refl o)
            λ _.
              table-IsOpen s root ctx (vector_signature opcode1) invalid_simd_opcode
                (vector-typed opcode1) o

pub handle_op_simd-IsMoved :
    (s : Scope) (root : BlockType) (ctx : LoaderContext) (p : List ℕ)
    → IsOpen root ctx
    → Ensures (IsMoved root p) (handle_op_simd s ctx p)
unfolding handle_op_simd IsMoved
handle_op_simd-IsMoved s root ctx p o = Ensures-bind (read_leb_uint32 p) λ (i, rest) e.
    let shorter = (read_leb_uint32_takes p i rest e).0 in
    Ensures-mono
      (Ensures-if (leb i 0x0b || between 0x5c 0x5d i)
        (λ _. handle_simd_access-IsMoved s root ctx rest o i)
        λ _.
          Ensures-if (i == 0x0c) (λ _. handle_simd_const-IsMoved s root ctx rest o)
            λ _.
              Ensures-if (i == 0x0d) (λ _. handle_simd_shuffle-IsMoved s root ctx rest o)
                λ _.
                  Ensures-if (between 0x15 0x22 i)
                    (λ h. handle_simd_lane-IsMoved s root ctx rest o i h)
                    λ _.
                      Ensures-if (between 0x54 0x5b i)
                        (λ _. handle_simd_lane_access-IsMoved s root ctx rest o i)
                        λ _. Ensures-bind (handle_simd_plain s i ctx) λ c e'. holds (
                          Ensures-ok (handle_simd_plain-IsOpen s root ctx rest o i) e',
                          omega arith,
                        ))
      λ out h. (h.0, omega (arith, h.1, shorter))
