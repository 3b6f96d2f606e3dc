-- ===== src/Access/Opened.antt =====
-- Memory accesses, constants and bulk operations keep the stacks' invariant: the cases
-- WASM_OP_I32_LOAD to WASM_OP_F64_CONST and WASM_OP_MISC_PREFIX of `wasm_loader_prepare_bytecode`
-- (core/iwasm/common/wasm_loader.c).
use wasm2native.Access.{
  note_memory, accessed_type, access_pops, access_pushes, handle_op_access, note_grow,
  handle_op_memory_size, skip_const, const_type, handle_op_const,
}
use wasm2native.Common.{
  ℕ, ◌≤◌, ◌<◌, ◌≡◌, refl, Bool, true, not, List, [], ◌∷◌, arith, length, ◌==◌, length-drop,
  if◌then◌else◌,
}
use wasm2native.Common.Ensures.{
  Ensures, holds, refused, Ensures-bind, Ensures-then, Ensures-reject, Ensures-if, Ensures-ok,
}
use wasm2native.Frames.{IsOpen, IsMoved}
use wasm2native.Frames.Opened.{noted-IsOpen, push-IsOpen, exchange-IsOpen}
use wasm2native.Leb.{read_leb_uint32, read_leb_int32, read_leb_int64, read_leb_mem_offset}
use wasm2native.Leb.Takes.{
  read_leb_uint32_takes, read_leb_int32_takes, read_leb_int64_takes, read_leb_mem_offset_takes,
}
use wasm2native.Loader.{need, skip, is_value_type}
use wasm2native.Opcodes.{check_memory_access_align}
use wasm2native.Operands.{LoaderContext, wasm_loader_push_frame_ref}
use wasm2native.Program.{
  Scope, check_memory, has_module_memory64, offset_value_type, read_zero_byte, exchange,
}
use wasm2native.Program.Typed.{offset_value_type-value}
use wasm2native.Types.{all_value_types}
use wasm2native.Wasm.{BlockType}

pub memory_noted :
    (root : BlockType) (ctx : LoaderContext) → IsOpen root ctx → IsOpen root (note_memory ctx)
unfolding note_memory
memory_noted root ctx o = noted-IsOpen root ctx _ refl refl refl refl o

grow_noted :
    (root : BlockType) (is_grow : Bool) (ctx : LoaderContext)
    → IsOpen root ctx
    → IsOpen root (note_grow is_grow ctx)
unfolding note_grow
grow_noted root is_grow ctx o = noted-IsOpen root ctx _ refl refl refl refl o

pub read_zero_byte_takes :
    (p : List ℕ) → Ensures (λ (rest : List ℕ). length rest < length p) (read_zero_byte p)
unfolding read_zero_byte
read_zero_byte_takes [] = refused
read_zero_byte_takes (b ∷ p) = Ensures-reject (not (b == 0)) _ λ _. holds (omega arith)

skip_takes : (n : ℕ) (p : List ℕ) → Ensures (λ (rest : List ℕ). length rest ≤ length p) (skip n p)
unfolding skip
skip_takes n p = Ensures-then (need n p) λ _. holds (omega (arith, length-drop n p))

accessed-value : (opcode : ℕ) → is_value_type (accessed_type opcode) ≡ true
unfolding accessed_type is_value_type
accessed-value opcode = ground arith

const-value : (opcode : ℕ) → is_value_type (const_type opcode) ≡ true
unfolding const_type is_value_type
const-value opcode = ground arith

access_types-all :
    (mem opcode : ℕ)
    → is_value_type mem ≡ true
    → (all_value_types (access_pops mem opcode) ≡ true)
      × (all_value_types (access_pushes opcode) ≡ true)
unfolding access_pops access_pushes all_value_types
access_types-all mem opcode value =
    let accessed = accessed-value opcode in (ground arith, ground arith)

skip_const_takes :
    (opcode : ℕ) (p : List ℕ)
    → Ensures (λ (rest : List ℕ). length rest ≤ length p) (skip_const opcode p)
unfolding skip_const
skip_const_takes opcode p =
    Ensures-if (opcode == 0x41)
      (λ _.
        Ensures-bind (read_leb_int32 p)
          λ (v, rest) e. holds (omega (arith, (read_leb_int32_takes p v rest e).0)))
      λ _.
        Ensures-if (opcode == 0x42)
          (λ _.
            Ensures-bind (read_leb_int64 p)
              λ (v, rest) e. holds (omega (arith, read_leb_int64_takes p v rest e)))
          λ _. Ensures-if (opcode == 0x43) (λ _. skip_takes 4 p) (λ _. skip_takes 8 p)

module _ (s : Scope) (root : BlockType) (ctx : LoaderContext) (p : List ℕ)
    (o : IsOpen root ctx) where
  pub handle_op_access-IsMoved :
      (opcode : ℕ) → Ensures (IsMoved root p) (handle_op_access s opcode ctx p)
  unfolding handle_op_access IsMoved
  handle_op_access-IsMoved opcode =
      let m = s.wasm_module.loaded in
      let mem = offset_value_type m in
      Ensures-then (check_memory m) λ _. Ensures-bind (read_leb_uint32 p) λ (align, p1) e1.
        Ensures-bind (read_leb_mem_offset (has_module_memory64 m) p1) λ (offset, p2) e2.
          Ensures-then (check_memory_access_align opcode align) λ _.
            Ensures-bind
              (exchange s.grow (note_memory ctx) (access_pops mem opcode) (access_pushes opcode))
              λ c e.
                let (pops, pushes) = access_types-all mem opcode (offset_value_type-value m) in
                holds (
                  Ensures-ok
                      (exchange-IsOpen s.grow root (note_memory ctx) (access_pops mem opcode)
                        (access_pushes opcode) pops pushes (memory_noted root ctx o))
                      e,
                  omega (
                    arith,
                    (read_leb_uint32_takes p align p1 e1).0,
                    read_leb_mem_offset_takes (has_module_memory64 m) p1 offset p2 e2,
                  ),
                )

  pub handle_op_memory_size-IsMoved :
      (is_grow : Bool) → Ensures (IsMoved root p) (handle_op_memory_size s is_grow ctx p)
  unfolding handle_op_memory_size IsMoved all_value_types
  handle_op_memory_size-IsMoved is_grow =
      let m = s.wasm_module.loaded in
      let mem = offset_value_type m in
      let value = offset_value_type-value m in
      let pops = if is_grow then mem ∷ [] else [] in
      Ensures-then (check_memory m) λ _. Ensures-bind (read_zero_byte p) λ rest e1.
        Ensures-bind (exchange s.grow ctx pops (mem ∷ [])) λ c e2. holds (
          grow_noted root is_grow c (
              Ensures-ok
                (exchange-IsOpen s.grow root ctx pops (mem ∷ []) (ground arith) (ground arith) o)
                e2),
          omega (arith, Ensures-ok (read_zero_byte_takes p) e1),
        )

  pub handle_op_const-IsMoved :
      (opcode : ℕ) → Ensures (IsMoved root p) (handle_op_const s opcode ctx p)
  unfolding handle_op_const IsMoved
  handle_op_const-IsMoved opcode = Ensures-bind (skip_const opcode p) λ rest e1.
      Ensures-bind (wasm_loader_push_frame_ref s.grow ctx (const_type opcode)) λ c e2. holds (
        Ensures-ok (push-IsOpen s.grow root ctx (const_type opcode) (const-value opcode) o) e2,
        Ensures-ok (skip_const_takes opcode p) e1,
      )
