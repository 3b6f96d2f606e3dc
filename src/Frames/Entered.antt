-- ===== src/Frames/Entered.antt =====
-- Blocks that are opened and emptied: `wasm_loader_push_frame_csp`, RESET_STACK and what follows it
-- (core/iwasm/common/wasm_loader.c).
use mathlib.Core.List.{append_assoc}
use mathlib.Core.Path.{subst}
use wasm2native.Branches.{reset_stack}
use wasm2native.Common.{
  ℕ, ◌+◌, ◌-◌, ◌*◌, ◌≤◌, ◌≡◌, refl, sym, ◌∙◌, ap, Bool, true, false, List, [], ◌∷◌, ◌++◌, arith,
  length, drop, ltb, leb, length-append, length-drop, drop-append_length,
}
use wasm2native.Common.Ensures.{
  Ensures, holds, Ensures-bind, Ensures-then, Ensures-reject, Ensures-if, Ensures-ok,
}
use wasm2native.Common.Outcome.{ok}
use wasm2native.Frames.{Frame, cells_of, any_cells, frame_refs, frame_blocks, AreFrames, IsStacked}
use wasm2native.Operands.{
  LoaderContext, BranchBlock, memory_realloc, grow_csp, wasm_loader_push_frame_csp,
}
use wasm2native.Types.{all_value_types}
use wasm2native.Wasm.{BlockType, block_type_get_param_types, block_type_get_result_types}

-- Cells above the base go, and the rest is the cells of the enclosing blocks.
drop_above :
    (xs ys zs : List ℕ) (n : ℕ)
    → n ≡ length zs
    → drop (length (xs ++ (ys ++ zs)) - n) (xs ++ (ys ++ zs)) ≡ zs
drop_above xs ys zs n e =
    let size : length (xs ++ (ys ++ zs)) - n ≡ length (xs ++ ys) =
      omega (arith, length-append xs (ys ++ zs), length-append ys zs, length-append xs ys) in
    ap (λ k. drop k (xs ++ (ys ++ zs))) size
    ∙ ap (λ l. drop (length (xs ++ ys)) l) (sym (append_assoc xs ys zs))
    ∙ drop-append_length (xs ++ ys) zs

-- A block that has been entered: its frame has no operands.
abbrev pub empty_frame : BranchBlock → Frame
empty_frame block = record { values = []; has_any = false; block = block }

-- The frames under a context that differs in what they do not see.
pub blocks_noted :
    (fs : List Frame) (ctx c : LoaderContext)
    → c.frame_ref ≡ ctx.frame_ref
    → c.frame_csp ≡ ctx.frame_csp
    → c.max_stack_cell_num ≡ ctx.max_stack_cell_num
    → c.max_csp_num ≡ ctx.max_csp_num
    → IsStacked fs ctx
    → IsStacked fs c
blocks_noted fs ctx c ref csp cells blocks st = record {
  refs = ref ∙ st.refs;
  csp = csp ∙ st.csp;
  frames = st.frames;
  height = omega (arith, ap length ref, st.height, cells);
  cells_bounded = omega (arith, st.cells_bounded, cells);
  blocks_bounded = omega (arith, st.blocks_bounded, blocks);
}

room_for_block :
    (grow : ℕ → Bool) (sizeof_block : ℕ) (fs : List Frame) (ctx : LoaderContext)
    → IsStacked fs ctx
    → Ensures
        (λ (c : LoaderContext). IsStacked fs c × (c.frame_ref ≡ ctx.frame_ref))
        (grow_csp grow sizeof_block ctx)
unfolding grow_csp
room_for_block grow sizeof_block fs ctx st =
    Ensures-if (leb ctx.frame_csp_size (length ctx.frame_csp * sizeof_block))
      (λ _.
        Ensures-then (memory_realloc grow (ctx.frame_csp_size + 8 * sizeof_block))
          λ _. holds (blocks_noted fs ctx _ refl refl refl refl st, refl))
      (λ _. holds (st, refl))

-- The block is put on the list.
entered :
    (fs : List Frame) (ctx : LoaderContext) (block : BranchBlock) (max : ℕ)
    → block.stack_cell_num ≡ length ctx.frame_ref
    → all_value_types (block_type_get_param_types block.block_type) ≡ true
    → all_value_types (block_type_get_result_types block.block_type) ≡ true
    → max ≤ 0xFFFF
    → IsStacked fs ctx
    → IsStacked
        (empty_frame block ∷ fs)
        (record ctx { frame_csp = block ∷ ctx.frame_csp; max_csp_num = max })
unfolding frame_refs frame_blocks cells_of any_cells AreFrames all_value_types
entered fs ctx block max base params results small st = record {
  refs = st.refs;
  csp = ap (λ l. block ∷ l) st.csp;
  frames = (
    record {
      values = refl;
      any = λ h. absurd (ground arith);
      base = base ∙ ap length st.refs;
      params = params;
      results = results;
    },
    st.frames,
  );
  height = st.height;
  cells_bounded = st.cells_bounded;
  blocks_bounded = small;
}

module _ (grow : ℕ → Bool) (sizeof_block : ℕ) (fs : List Frame) where
  -- The new block is the current one, with an empty stack.
  pub push_frame_csp-IsStacked :
      (ctx : LoaderContext) (label_type : ℕ) (block_type : BlockType)
      → all_value_types (block_type_get_param_types block_type) ≡ true
      → all_value_types (block_type_get_result_types block_type) ≡ true
      → IsStacked fs ctx
      → Ensures
          (λ (c : LoaderContext).
            (f : Frame) × IsStacked (f ∷ fs) c × (f.block.block_type ≡ block_type))
          (wasm_loader_push_frame_csp grow sizeof_block ctx label_type block_type)
  unfolding wasm_loader_push_frame_csp
  push_frame_csp-IsStacked ctx label_type block_type params results st =
      Ensures-bind (grow_csp grow sizeof_block ctx) λ c e.
        let (st', same) = Ensures-ok (room_for_block grow sizeof_block fs ctx st) e in
        let block : BranchBlock = record {
          label_type = label_type;
          block_type = block_type;
          has_else = false;
          stack_cell_num = length c.frame_ref;
          is_stack_polymorphic = false;
        } in
        Ensures-if (ltb c.max_csp_num (length (block ∷ c.frame_csp)))
          (λ _. Ensures-reject (ltb 0xFFFF (length (block ∷ c.frame_csp))) _ λ small. holds (
            empty_frame block,
            entered fs c block (length (block ∷ c.frame_csp)) refl params results (ground arith)
                st',
            refl,
          ))
          (λ _. holds (
            empty_frame block,
            entered fs c block c.max_csp_num refl params results st'.blocks_bounded st',
            refl,
          ))

-- RESET_STACK empties the current block.
reset_found :
    (ctx : LoaderContext) (flag : Bool) (block : BranchBlock) (outer : List BranchBlock)
    → ctx.frame_csp ≡ block ∷ outer
    → reset_stack ctx flag
      ≡ ok (record ctx {
        frame_ref = drop (length ctx.frame_ref - block.stack_cell_num) ctx.frame_ref;
        frame_csp = record block { is_stack_polymorphic = flag } ∷ outer;
      })
unfolding reset_stack
reset_found ctx flag block outer e = rw e

abbrev pub reset_frame : Frame → Bool → Frame
reset_frame f flag = empty_frame (record f.block { is_stack_polymorphic = flag })

pub reset_stack-IsStacked :
    (f : Frame) (fs : List Frame) (ctx : LoaderContext) (flag : Bool)
    → IsStacked (f ∷ fs) ctx
    → Ensures (IsStacked (reset_frame f flag ∷ fs)) (reset_stack ctx flag)
unfolding frame_refs frame_blocks cells_of any_cells AreFrames all_value_types
reset_stack-IsStacked f fs ctx flag st =
    let left : drop (length ctx.frame_ref - f.block.stack_cell_num) ctx.frame_ref ≡ frame_refs fs =
      ap (λ l. drop (length l - f.block.stack_cell_num) l) st.refs
      ∙ drop_above (cells_of f.values) (any_cells f.has_any) (frame_refs fs) f.block.stack_cell_num
          st.frames.0.base in
    subst (λ r. Ensures (IsStacked (reset_frame f flag ∷ fs)) r)
      (sym (reset_found ctx flag f.block (frame_blocks fs) st.csp))
      (holds (record {
        refs = left;
        csp = refl;
        frames = (
          record {
            values = refl;
            any = λ h. absurd (ground arith);
            base = st.frames.0.base;
            params = st.frames.0.params;
            results = st.frames.0.results;
          },
          st.frames.1,
        );
        height = omega (
          arith,
          st.height,
          length-drop (length ctx.frame_ref - f.block.stack_cell_num) ctx.frame_ref,
        );
        cells_bounded = st.cells_bounded;
        blocks_bounded = st.blocks_bounded;
      }))
