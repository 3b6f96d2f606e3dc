-- ===== src/Jumps/Opened.antt =====
-- Branches, returns and calls keep the stacks' invariant: the cases WASM_OP_BR to
-- WASM_OP_RETURN_CALL_INDIRECT of `wasm_loader_prepare_bytecode` (core/iwasm/common/wasm_loader.c).
use wasm2native.Branches.{block_at, pop_types, check_branch_block, reset_stack}
use wasm2native.Common.{
  ℕ, zero, suc, ◌-◌, ◌≤◌, ◌<◌, ◌≡◌, refl, Bool, true, false, List, [], ◌∷◌, ◌++◌, arith, length,
  leb, ◌==◌, same_bytes, if◌then◌else◌,
}
use wasm2native.Common.Ensures.{
  Ensures, holds, Ensures-bind, Ensures-then, Ensures-check, Ensures-reject, Ensures-if, Ensures-ok,
  Ensures-mono,
}
use wasm2native.Control.Opened.{read_uint8_takes}
use wasm2native.Frames.{IsOpen, IsMoved}
use wasm2native.Frames.Branched.{check_branch_block-IsWithin}
use wasm2native.Frames.Opened.{
  reset_stack-IsOpen, noted-IsOpen, pop-IsOpen, pop_types-IsOpen, push_types-IsOpen,
}
use wasm2native.Frames.Within.{IsWithin-IsOpen}
use wasm2native.Jumps.{
  handle_op_br, handle_op_br_if, check_depths, need_cache, check_targets, rewrite_table,
  handle_op_br_table, handle_op_return, check_return_call, pass_arguments, handle_op_call,
  handle_op_call_indirect,
}
use wasm2native.Leb.{read_leb_uint32}
use wasm2native.Leb.Takes.{read_leb_uint32_takes}
use wasm2native.Loader.{read_uint8, is_value_type}
use wasm2native.Operands.{LoaderContext, wasm_loader_pop_frame_ref}
use wasm2native.Program.{Scope, type_of, called_type}
use wasm2native.Program.Typed.{
  IsTyped, IsTypedType, IsTypedFunction, type_of-typed, called_type-typed, param_types-all,
  result_types-all,
}
use wasm2native.Segments.{check_table_index, is_table_table64}
use wasm2native.Wasm.{
  BlockType, WasmType, func, value_type_i32, value_type_i64, block_type_get_arity,
  block_type_get_param_types, block_type_get_result_types,
}

branch-IsOpen :
    (grow : ℕ → Bool) (root : BlockType) (ctx : LoaderContext) (is_br_table : Bool) (p : List ℕ)
    → IsOpen root ctx
    → Ensures
        (λ (out : LoaderContext × List ℕ). IsOpen root out.0 × (length out.1 < length p))
        (check_branch_block grow ctx is_br_table p)
unfolding IsOpen
branch-IsOpen grow root ctx is_br_table p (f, fs, st, bottom) =
    Ensures-mono (check_branch_block-IsWithin grow f fs ctx st is_br_table p)
      λ out h. (IsWithin-IsOpen root fs f.block out.0 bottom h.0, h.1)

rewrite_table-IsOpen :
    (root : BlockType) (ctx : LoaderContext) (opcode_at at size : ℕ) (depths : List ℕ)
    (cached : Bool)
    → IsOpen root ctx
    → IsOpen root (rewrite_table ctx opcode_at at size depths cached)
unfolding rewrite_table
rewrite_table-IsOpen root ctx opcode_at at size depths true o =
    noted-IsOpen root ctx _ refl refl refl refl o
rewrite_table-IsOpen root ctx opcode_at at size depths false o =
    noted-IsOpen root ctx _ refl refl refl refl o

module _ (s : Scope) where
  pub handle_op_br-IsMoved :
      (root : BlockType) (ctx : LoaderContext) (p : List ℕ)
      → IsOpen root ctx
      → Ensures (IsMoved root p) (handle_op_br s ctx p)
  unfolding handle_op_br IsMoved
  handle_op_br-IsMoved root ctx p o =
      Ensures-bind (check_branch_block s.grow ctx false p) λ (c, rest) e.
        let (o', shorter) = Ensures-ok (branch-IsOpen s.grow root ctx false p o) e in
        Ensures-bind (reset_stack c true)
          λ c' e'. holds (Ensures-ok (reset_stack-IsOpen root c true o') e', omega (arith, shorter))

  pub handle_op_br_if-IsMoved :
      (root : BlockType) (ctx : LoaderContext) (p : List ℕ)
      → IsOpen root ctx
      → Ensures (IsMoved root p) (handle_op_br_if s ctx p)
  unfolding handle_op_br_if IsMoved is_value_type
  handle_op_br_if-IsMoved root ctx p o =
      Ensures-bind (wasm_loader_pop_frame_ref ctx value_type_i32) λ c e.
        let o' = Ensures-ok (pop-IsOpen root ctx value_type_i32 refl o) e in
        Ensures-mono (branch-IsOpen s.grow root c false p o') λ out h. (h.0, omega (arith, h.1))

  check_targets-IsMoved :
      (root : BlockType) (count arity left : ℕ) (ctx : LoaderContext) (depths : List ℕ)
      (cached : Bool) (p : List ℕ)
      → IsOpen root ctx
      → Ensures
          (λ (out : LoaderContext × List ℕ × Bool × List ℕ).
            IsOpen root out.0 × (length out.3 ≤ length p))
          (check_targets s count arity left ctx depths cached p)
  unfolding check_targets
  check_targets-IsMoved root count arity zero ctx depths cached p o = holds (o, omega arith)
  check_targets-IsMoved root count arity (suc left) ctx depths cached p o =
      Ensures-bind (read_leb_uint32 p) λ (depth, behind) e.
        Ensures-bind (block_at ctx depth) λ target _.
          Ensures-check (block_type_get_arity target.block_type target.label_type == arity) _ λ _.
            Ensures-bind (check_branch_block s.grow ctx true p) λ (c, rest) e'.
              let (o', shorter) = Ensures-ok (branch-IsOpen s.grow root ctx true p o) e' in
              Ensures-bind (need_cache s count cached depth) λ cached' _.
                Ensures-mono
                  (check_targets-IsMoved root count arity left c (depths ++ (depth ∷ [])) cached'
                    rest o')
                  λ out h. (h.0, omega (arith, h.1, shorter))

  pub handle_op_br_table-IsMoved :
      (root : BlockType) (ctx : LoaderContext) (p : List ℕ)
      → IsOpen root ctx
      → Ensures (IsMoved root p) (handle_op_br_table s ctx p)
  unfolding handle_op_br_table IsMoved is_value_type
  handle_op_br_table-IsMoved root ctx p o = Ensures-bind (read_leb_uint32 p) λ (count, rest) e.
      Ensures-bind (wasm_loader_pop_frame_ref ctx value_type_i32) λ c e1.
        let o1 = Ensures-ok (pop-IsOpen root ctx value_type_i32 refl o) e1 in
        Ensures-bind (check_depths c (suc count) 0 rest) λ default _.
          Ensures-bind (block_at c default) λ target _.
            let arity = block_type_get_arity target.block_type target.label_type in
            Ensures-bind (check_targets s count arity (suc count) c [] false rest)
              λ (c2, depths, cached, behind) e2.
                let (o2, shorter) =
                  Ensures-ok (check_targets-IsMoved root count arity (suc count) c [] false rest o1)
                    e2 in
                let size = length rest - length behind in
                let c3 = rewrite_table c2 (suc (length p)) (length rest) size depths cached in
                Ensures-bind (reset_stack c3 true) λ c4 e4. holds (
                  Ensures-ok
                      (reset_stack-IsOpen root c3 true (
                        rewrite_table-IsOpen root c2 (suc (length p)) (length rest) size depths
                          cached o2))
                      e4,
                  omega (arith, shorter, (read_leb_uint32_takes p count rest e).0),
                )

index-value :
    (is_table64 : Bool)
    → is_value_type (if is_table64 then value_type_i64 else value_type_i32) ≡ true
unfolding is_value_type
index-value true = refl
index-value false = refl

module _ (s : Scope) (typed : IsTyped s) where
  pub handle_op_return-IsOpen :
      (root : BlockType) (ctx : LoaderContext)
      → IsOpen root ctx
      → Ensures (IsOpen root) (handle_op_return s ctx)
  unfolding handle_op_return IsTypedFunction
  handle_op_return-IsOpen root ctx o =
      let types = block_type_get_result_types (func s.func.func_type) in
      Ensures-bind (pop_types ctx types) λ c e. reset_stack-IsOpen root c true (
        Ensures-ok
          (pop_types-IsOpen root ctx types (result_types-all s.func.func_type typed.func.0) o) e)

  pass_arguments-IsOpen :
      (root : BlockType) (is_tail : Bool) (ctx : LoaderContext) (t : WasmType)
      → IsTypedType t
      → IsOpen root ctx
      → Ensures (IsOpen root) (pass_arguments s is_tail ctx t)
  unfolding pass_arguments check_return_call
  pass_arguments-IsOpen root is_tail ctx t t_typed o =
      Ensures-bind (pop_types ctx (block_type_get_param_types (func t))) λ c e.
        let o' =
          Ensures-ok
            (pop_types-IsOpen root ctx (block_type_get_param_types (func t))
              (param_types-all t t_typed) o)
            e in
        Ensures-if is_tail
          (λ _. Ensures-check (t.result_count == s.func.func_type.result_count) _ λ _.
            Ensures-check
              (same_bytes (block_type_get_result_types (func t))
                (block_type_get_result_types (func s.func.func_type)))
              _ λ _. reset_stack-IsOpen root c true o')
          λ _.
            push_types-IsOpen s.grow root c (block_type_get_result_types (func t))
              (result_types-all t t_typed) o'

  pub handle_op_call-IsMoved :
      (root : BlockType) (is_tail : Bool) (ctx : LoaderContext) (p : List ℕ)
      → IsOpen root ctx
      → Ensures (IsMoved root p) (handle_op_call s is_tail ctx p)
  unfolding handle_op_call IsMoved
  handle_op_call-IsMoved root is_tail ctx p o = Ensures-bind (read_leb_uint32 p) λ (i, rest) e.
      Ensures-bind (called_type s.wasm_module.loaded i) λ t e1.
        Ensures-bind (pass_arguments s is_tail ctx t) λ c e2.
          let t_typed = Ensures-ok (called_type-typed s typed i) e1 in
          holds (
            noted-IsOpen root c _ refl refl refl refl
                (Ensures-ok (pass_arguments-IsOpen root is_tail ctx t t_typed o) e2),
            omega (arith, (read_leb_uint32_takes p i rest e).0),
          )

  pub handle_op_call_indirect-IsMoved :
      (root : BlockType) (is_tail : Bool) (ctx : LoaderContext) (p : List ℕ)
      → IsOpen root ctx
      → Ensures (IsMoved root p) (handle_op_call_indirect s is_tail ctx p)
  unfolding handle_op_call_indirect IsMoved
  handle_op_call_indirect-IsMoved root is_tail ctx p o =
      Ensures-bind (read_leb_uint32 p) λ (i, rest) e.
        Ensures-bind (read_uint8 rest) λ (table_idx, rest') e'.
          Ensures-then (check_table_index s.wasm_module.loaded table_idx) λ _.
            Ensures-bind (is_table_table64 s.wasm_module.loaded table_idx) λ is_table64 _.
              let index = if is_table64 then value_type_i64 else value_type_i32 in
              Ensures-bind (wasm_loader_pop_frame_ref ctx index) λ c e1.
                let o1 = Ensures-ok (pop-IsOpen root ctx index (index-value is_table64) o) e1 in
                Ensures-reject (leb (length s.wasm_module.types.types) i) _ λ _.
                  Ensures-bind (type_of s.wasm_module i) λ t e2.
                    Ensures-bind (pass_arguments s is_tail c t) λ c' e3.
                      let t_typed = Ensures-ok (type_of-typed s typed i) e2 in
                      holds (
                        noted-IsOpen root c' _ refl refl refl refl
                            (Ensures-ok (pass_arguments-IsOpen root is_tail c t t_typed o1) e3),
                        omega (
                          arith,
                          (read_leb_uint32_takes p i rest e).0,
                          Ensures-ok (read_uint8_takes rest) e',
                        ),
                      )
