-- ===== src/Control/Opened.antt =====
-- The instructions of blocks keep the stacks' invariant: the cases WASM_OP_BLOCK to WASM_OP_END of
-- `wasm_loader_prepare_bytecode` (core/iwasm/common/wasm_loader.c).
use wasm2native.Branches.{block_at, push_types}
use wasm2native.Common.{
  ℕ, suc, ◌-◌, ◌≤◌, ◌<◌, ◌≡◌, refl, ◌∙◌, ap, true, List, [], ◌∷◌, arith, length, leb,
}
use wasm2native.Common.Ensures.{
  Ensures, holds, refused, Ensures-bind, Ensures-reject, Ensures-if, Ensures-ok,
}
use wasm2native.Control.{
  read_block_type, extend_opcode, pop_params, handle_op_block_and_loop, handle_op_if,
}
use wasm2native.Frames.{Frame, IsStacked, IsWithin, IsOpen, IsMoved, bottom_type}
use wasm2native.Frames.Entered.{blocks_noted, push_frame_csp-IsStacked}
use wasm2native.Frames.Within.{
  IsWithin-IsOpen, IsWithin-pop, IsWithin-pop_params, IsWithin-push_types,
}
use wasm2native.Leb.{read_leb_int32}
use wasm2native.Leb.Takes.{read_leb_int32_takes}
use wasm2native.Loader.{read_uint8, is_byte_a_type, is_value_type}
use wasm2native.Operands.{LoaderContext, wasm_loader_pop_frame_ref, wasm_loader_push_frame_csp}
use wasm2native.Program.{Scope, type_of, rewrite_byte}
use wasm2native.Program.Typed.{IsTyped, type_of-typed, param_types-all, result_types-all}
use wasm2native.Types.{all_value_types}
use wasm2native.Wasm.{
  BlockType, value, func, value_type_i32, block_type_get_param_types, block_type_get_result_types,
}

unfoldable pub IsTypedBlockType : BlockType → Type 0
IsTypedBlockType t =
    (all_value_types (block_type_get_param_types t) ≡ true)
    × (all_value_types (block_type_get_result_types t) ≡ true)

byte-typed : (v : ℕ) → is_byte_a_type v ≡ true → IsTypedBlockType (value v)
unfolding IsTypedBlockType is_byte_a_type block_type_get_param_types block_type_get_result_types
    all_value_types
byte-typed v byte = ground arith

pub read_uint8_takes :
    (p : List ℕ) → Ensures (λ (out : ℕ × List ℕ). length out.1 < length p) (read_uint8 p)
unfolding read_uint8
read_uint8_takes [] = refused
read_uint8_takes (b ∷ p) = holds (omega arith)

extended :
    (fs : List Frame) (at opcode : ℕ) (ctx : LoaderContext) (t : BlockType)
    → IsStacked fs ctx
    → IsStacked fs (extend_opcode at opcode ctx t)
unfolding extend_opcode rewrite_byte
extended fs at opcode ctx (value v) st = st
extended fs at opcode ctx (func t) st = blocks_noted fs ctx _ refl refl refl refl st

module _ (s : Scope) (typed : IsTyped s) where
  read_block_type-typed :
      (p : List ℕ)
      → Ensures
          (λ (out : BlockType × List ℕ). IsTypedBlockType out.0 × (length out.1 ≤ length p))
          (read_block_type s p)
  unfolding read_block_type IsTypedBlockType
  read_block_type-typed p = Ensures-bind (read_uint8 p) λ (v, behind) e.
      Ensures-if (is_byte_a_type v)
        (λ byte. holds (byte-typed v byte, omega (arith, Ensures-ok (read_uint8_takes p) e)))
        λ _. Ensures-bind (read_leb_int32 p) λ (i, rest) e'.
          Ensures-reject (leb (length s.wasm_module.types.types) i) _ λ _.
            Ensures-bind (type_of s.wasm_module i) λ t e''.
              let t_typed = Ensures-ok (type_of-typed s typed i) e'' in
              holds (
                (param_types-all t t_typed, result_types-all t t_typed),
                omega (arith, (read_leb_int32_takes p i rest e').0),
              )

  pub handle_op_block_and_loop-IsMoved :
      (root : BlockType) (opcode : ℕ) (ctx : LoaderContext) (p : List ℕ)
      → IsOpen root ctx
      → Ensures (IsMoved root p) (handle_op_block_and_loop s opcode ctx p)
  unfolding handle_op_block_and_loop IsTypedBlockType IsWithin IsOpen IsMoved bottom_type
  handle_op_block_and_loop-IsMoved root opcode ctx p (f, fs, st, bottom) =
      Ensures-bind (read_block_type s p) λ (t, rest) e.
        let ((params, results), shorter) = Ensures-ok (read_block_type-typed p) e in
        let types = block_type_get_param_types t in
        let noted = extend_opcode (suc (length p)) opcode ctx t in
        Ensures-bind (block_at ctx 0) λ cur_block _.
          Ensures-bind (pop_params noted cur_block types) λ c1 e1.
            let (f1, st1, same1) =
              Ensures-ok
                (IsWithin-pop_params fs f.block noted cur_block types params
                  (f, extended (f ∷ fs) (suc (length p)) opcode ctx t st, refl))
                e1 in
            Ensures-bind (wasm_loader_push_frame_csp s.grow s.sizeof_block c1 (opcode - 0x02) t)
              λ c2 e2.
                let (f2, st2, same2) =
                  Ensures-ok
                    (push_frame_csp-IsStacked s.grow s.sizeof_block (f1 ∷ fs) c1 (opcode - 0x02) t
                      params results st1)
                    e2 in
                Ensures-bind (push_types s.grow c2 types) λ c3 e3.
                  let (f3, st3, same3) =
                    Ensures-ok
                      (IsWithin-push_types (f1 ∷ fs) f2.block s.grow c2 types params
                        (f2, st2, refl))
                      e3 in
                  holds (
                    (f3, f1 ∷ fs, st3, ap (λ b. bottom_type b.block_type fs) same1 ∙ bottom),
                    shorter,
                  )

  pub handle_op_if-IsMoved :
      (root : BlockType) (ctx : LoaderContext) (p : List ℕ)
      → IsOpen root ctx
      → Ensures (IsMoved root p) (handle_op_if s ctx p)
  unfolding handle_op_if IsOpen is_value_type IsWithin
  handle_op_if-IsMoved root ctx p (f, fs, st, bottom) =
      Ensures-bind (wasm_loader_pop_frame_ref ctx value_type_i32) λ c e.
        handle_op_block_and_loop-IsMoved root 0x04 c p (
          IsWithin-IsOpen root fs f.block c bottom
            (Ensures-ok (IsWithin-pop fs f.block ctx value_type_i32 refl (f, st, refl)) e))
