-- ===== src/Variables/Opened.antt =====
-- Values and variables keep the stacks' invariant: the cases WASM_OP_DROP to WASM_OP_SET_GLOBAL of
-- `wasm_loader_prepare_bytecode` (core/iwasm/common/wasm_loader.c).
use wasm2native.Common.{
  ℕ, suc, refl, Bool, true, false, ◌&&◌, List, arith, length, ltb, ◌==◌, if◌then◌else◌,
}
use wasm2native.Common.Ensures.{Ensures, holds, Ensures-bind, Ensures-check, Ensures-ok}
use wasm2native.Frames.{IsOpen, IsMoved}
use wasm2native.Frames.Opened.{noted-IsOpen, pop-IsOpen, push-IsOpen}
use wasm2native.Leb.{read_leb_uint32}
use wasm2native.Leb.Takes.{read_leb_uint32_takes}
use wasm2native.Loader.{is_64bit_type}
use wasm2native.Operands.{LoaderContext, wasm_loader_pop_frame_ref, wasm_loader_push_frame_ref}
use wasm2native.Program.{Scope, read_local_type, global_at, rewrite_byte}
use wasm2native.Program.Typed.{IsTyped, read_local_type-value, global_at-value}
use wasm2native.Variables.{
  handle_op_get_local, handle_op_set_local, handle_op_tee_local, handle_op_get_global,
  rewrite_set_global, handle_op_set_global,
}
use wasm2native.Wasm.{BlockType}

IsOpen-if :
    (root : BlockType) (b : Bool) (x y : LoaderContext)
    → IsOpen root x
    → IsOpen root y
    → IsOpen root (if b then x else y)
IsOpen-if root true x y ox oy = ox
IsOpen-if root false x y ox oy = oy

set_global-IsOpen :
    (s : Scope) (root : BlockType) (at i t : ℕ) (ctx : LoaderContext)
    → IsOpen root ctx
    → IsOpen root (rewrite_set_global s at i t ctx)
unfolding rewrite_set_global rewrite_byte
set_global-IsOpen s root at i t ctx o =
    IsOpen-if root (is_64bit_type t) _ _ (noted-IsOpen root ctx _ refl refl refl refl o) (
      IsOpen-if root
        (ltb 0 s.wasm_module.aux_stack_size && i == s.wasm_module.aux_stack_top_global_index) _ _
        (noted-IsOpen root ctx _ refl refl refl refl o) o)

module _ (s : Scope) (typed : IsTyped s) (root : BlockType) (ctx : LoaderContext) (p : List ℕ)
    (o : IsOpen root ctx) where
  pub handle_op_get_local-IsMoved : Ensures (IsMoved root p) (handle_op_get_local s ctx p)
  unfolding handle_op_get_local IsMoved
  handle_op_get_local-IsMoved = Ensures-bind (read_local_type s.func p) λ (t, rest) e.
      let (value, shorter) = Ensures-ok (read_local_type-value s typed p) e in
      Ensures-bind (wasm_loader_push_frame_ref s.grow ctx t) λ c e1.
        holds (Ensures-ok (push-IsOpen s.grow root ctx t value o) e1, omega (arith, shorter))

  pub handle_op_set_local-IsMoved : Ensures (IsMoved root p) (handle_op_set_local s ctx p)
  unfolding handle_op_set_local IsMoved
  handle_op_set_local-IsMoved = Ensures-bind (read_local_type s.func p) λ (t, rest) e.
      let (value, shorter) = Ensures-ok (read_local_type-value s typed p) e in
      Ensures-bind (wasm_loader_pop_frame_ref ctx t)
        λ c e1. holds (Ensures-ok (pop-IsOpen root ctx t value o) e1, omega (arith, shorter))

  pub handle_op_tee_local-IsMoved : Ensures (IsMoved root p) (handle_op_tee_local s ctx p)
  unfolding handle_op_tee_local IsMoved
  handle_op_tee_local-IsMoved = Ensures-bind (read_local_type s.func p) λ (t, rest) e.
      let (value, shorter) = Ensures-ok (read_local_type-value s typed p) e in
      Ensures-bind (wasm_loader_pop_frame_ref ctx t) λ c e1.
        Ensures-bind (wasm_loader_push_frame_ref s.grow c t) λ c2 e2.
          let o1 = Ensures-ok (pop-IsOpen root ctx t value o) e1 in
          holds (Ensures-ok (push-IsOpen s.grow root c t value o1) e2, omega (arith, shorter))

  pub handle_op_get_global-IsMoved : Ensures (IsMoved root p) (handle_op_get_global s ctx p)
  unfolding handle_op_get_global IsMoved rewrite_byte
  handle_op_get_global-IsMoved = Ensures-bind (read_leb_uint32 p) λ (i, rest) e.
      Ensures-bind (global_at s.wasm_module i) λ (t, is_mutable) e1.
        Ensures-bind (wasm_loader_push_frame_ref s.grow ctx t) λ c e2.
          let o1 =
            Ensures-ok (push-IsOpen s.grow root ctx t (Ensures-ok (global_at-value s typed i) e1) o)
              e2 in
          holds (
            IsOpen-if root (is_64bit_type t) _ c (noted-IsOpen root c _ refl refl refl refl o1) o1,
            omega (arith, (read_leb_uint32_takes p i rest e).0),
          )

  pub handle_op_set_global-IsMoved : Ensures (IsMoved root p) (handle_op_set_global s ctx p)
  unfolding handle_op_set_global IsMoved
  handle_op_set_global-IsMoved = Ensures-bind (read_leb_uint32 p) λ (i, rest) e.
      Ensures-bind (global_at s.wasm_module i) λ (t, is_mutable) e1. Ensures-check is_mutable _ λ _.
        let noted = rewrite_set_global s (suc (length p)) i t ctx in
        Ensures-bind (wasm_loader_pop_frame_ref noted t) λ c e2. holds (
          Ensures-ok
              (pop-IsOpen root noted t (Ensures-ok (global_at-value s typed i) e1)
                (set_global-IsOpen s root (suc (length p)) i t ctx o))
              e2,
          omega (arith, (read_leb_uint32_takes p i rest e).0),
        )
