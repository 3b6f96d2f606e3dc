-- ===== src/Variables/Unknown.antt =====
-- Operands of an unknown type, which `select` finds on the empty stack of code that cannot be reached
-- (core/iwasm/common/wasm_loader.c).
use mathlib.Core.Path.{subst}
use wasm2native.Common.{
  ℕ, zero, suc, ◌≡◌, refl, sym, ◌∙◌, ap, Bool, true, false, List, [], ◌∷◌, arith, length, get_elem?,
}
use wasm2native.Common.Ensures.{Ensures, holds, Ensures-bind, Ensures-ok, Ensures-mono}
use wasm2native.Frames.{Frame, cells_of, any_cells, frame_refs, frame_blocks, AreFrames, IsStacked}
use wasm2native.Operands.Popped.{current}
use wasm2native.Frames.Popped.{fewer_cells}
use wasm2native.Frames.Taken.{pop_any, pop_idle}
use wasm2native.Loader.{is_32bit_type}
use wasm2native.Operands.{
  LoaderContext, BranchBlock, push_cell, pop_times, wasm_loader_pop_frame_ref,
  wasm_loader_push_frame_ref, wasm_loader_push_pop_frame_ref,
}
use wasm2native.Operands.Pushed.{cell_pushed, height_noted}
use wasm2native.Types.{all_value_types}
use wasm2native.Wasm.{value_type_any}

-- A value of any type on an empty polymorphic stack.
pub any_pushed :
    (grow : ℕ → Bool) (block : BranchBlock) (fs : List Frame) (ctx : LoaderContext)
    → block.is_stack_polymorphic ≡ true
    → IsStacked (record { values = []; has_any = false; block = block } ∷ fs) ctx
    → Ensures
        (IsStacked (record { values = []; has_any = true; block = block } ∷ fs))
        (wasm_loader_push_frame_ref grow ctx value_type_any)
unfolding wasm_loader_push_frame_ref is_32bit_type frame_refs frame_blocks cells_of any_cells
    AreFrames
any_pushed grow block fs ctx poly st = Ensures-bind (push_cell grow value_type_any ctx) λ c e.
    let (ref, csp, cells, blocks) = Ensures-ok (cell_pushed grow value_type_any ctx) e in
    Ensures-mono (height_noted c) λ c' (out, height). record {
      refs = out.frame_ref ∙ ref ∙ ap (λ l. value_type_any ∷ l) st.refs;
      csp = out.frame_csp ∙ csp ∙ st.csp;
      frames = (
        record {
          values = st.frames.0.values;
          any = λ _. poly;
          base = st.frames.0.base;
          params = st.frames.0.params;
          results = st.frames.0.results;
        },
        st.frames.1,
      );
      height = height;
      cells_bounded = out.bounded (omega (arith, cells, st.cells_bounded));
      blocks_bounded = omega (arith, out.blocks_kept, blocks, st.blocks_bounded);
    }

pop_any-IsStacked :
    (any : Bool) (block : BranchBlock) (fs : List Frame) (ctx : LoaderContext)
    → block.is_stack_polymorphic ≡ true
    → IsStacked (record { values = []; has_any = any; block = block } ∷ fs) ctx
    → Ensures
        (IsStacked (record { values = []; has_any = false; block = block } ∷ fs))
        (wasm_loader_pop_frame_ref ctx value_type_any)
unfolding frame_refs frame_blocks cells_of any_cells AreFrames all_value_types
pop_any-IsStacked false block fs ctx poly st =
    let base : block.stack_cell_num ≡ length ctx.frame_ref =
      st.frames.0.base ∙ ap length (sym st.refs) in
    subst (Ensures _)
      (sym (
        current ctx value_type_any block (ap (λ l. get_elem? l 0) st.csp)
        ∙ pop_idle ctx block value_type_any refl (ground arith) poly))
      (holds st)
pop_any-IsStacked true block fs ctx poly st =
    subst (Ensures _)
      (sym (
        current ctx value_type_any block (ap (λ l. get_elem? l 0) st.csp)
        ∙ pop_any ctx block value_type_any (frame_refs fs) refl st.refs st.frames.0.base))
      (holds (
        fewer_cells [] [] true false block fs ctx (frame_refs fs) st refl (λ h. refl) refl
          (omega (arith, ap length st.refs))))

pop_any_times :
    (n : ℕ) (any : Bool) (block : BranchBlock) (fs : List Frame) (ctx : LoaderContext)
    → block.is_stack_polymorphic ≡ true
    → IsStacked (record { values = []; has_any = any; block = block } ∷ fs) ctx
    → Ensures
        (IsStacked (record { values = []; has_any = false; block = block } ∷ fs))
        (pop_times (suc n) ctx value_type_any)
unfolding pop_times
pop_any_times zero any block fs ctx poly st =
    Ensures-bind (wasm_loader_pop_frame_ref ctx value_type_any)
      λ c e. holds (Ensures-ok (pop_any-IsStacked any block fs ctx poly st) e)
pop_any_times (suc n) any block fs ctx poly st =
    Ensures-bind (wasm_loader_pop_frame_ref ctx value_type_any) λ c e.
      pop_any_times n false block fs c poly
        (Ensures-ok (pop_any-IsStacked any block fs ctx poly st) e)

-- A value of any type is taken twice and put back.
pub any_selected :
    (grow : ℕ → Bool) (block : BranchBlock) (fs : List Frame) (ctx : LoaderContext)
    → block.is_stack_polymorphic ≡ true
    → IsStacked (record { values = []; has_any = true; block = block } ∷ fs) ctx
    → Ensures
        (IsStacked (record { values = []; has_any = true; block = block } ∷ fs))
        (wasm_loader_push_pop_frame_ref grow ctx 2 value_type_any value_type_any)
unfolding wasm_loader_push_pop_frame_ref
any_selected grow block fs ctx poly st = Ensures-bind (pop_times 2 ctx value_type_any) λ c e.
    any_pushed grow block fs c poly (Ensures-ok (pop_any_times 1 true block fs ctx poly st) e)
