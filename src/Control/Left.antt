-- ===== src/Control/Left.antt =====
-- Blocks that are left: `wasm_loader_pop_frame_csp` behind the checks of WASM_OP_END
-- (core/iwasm/common/wasm_loader.c).
use mathlib.Core.List.{append_assoc, append-nil}
use wasm2native.Common.{
  ℕ, ◌≤◌, ◌≡◌, refl, sym, ◌∙◌, ap, true, false, List, [], ◌∷◌, ◌++◌, arith, length, drop, replicate,
}
use wasm2native.Frames.{
  Frame, cells_of, any_cells, frame_blocks, frame_refs, AreFrames, IsStacked, push_all,
}
use wasm2native.Frames.Settled.{settled_frame}
use wasm2native.Operands.{BranchBlock, LoaderContext}
use wasm2native.Types.{all_value_types}
use wasm2native.Wasm.{BlockType, wasm_value_type_cell_num, block_type_get_result_types}

-- The function's block has ended: what is on the stack is the results of its type.
pub record IsEnded (root : BlockType) (c : LoaderContext) : Type 0 where
  pub results : c.frame_ref ≡ cells_of (push_all (block_type_get_result_types root) [])
  pub csp : c.frame_csp ≡ []
  pub height : length c.frame_ref ≤ c.max_stack_cell_num
  pub cells_bounded : c.max_stack_cell_num ≤ 0xFFFF
  pub blocks_bounded : c.max_csp_num ≤ 0xFFFF

cells_of-append : (xs ys : List ℕ) → cells_of (xs ++ ys) ≡ cells_of xs ++ cells_of ys
unfolding cells_of
cells_of-append [] ys = refl
cells_of-append (x ∷ xs) ys =
    let top = replicate (wasm_value_type_cell_num x) x in
    ap (λ l. top ++ l) (cells_of-append xs ys) ∙ sym (append_assoc top (cells_of xs) (cells_of ys))

all_value_types-append :
    (xs ys : List ℕ)
    → all_value_types xs ≡ true
    → all_value_types ys ≡ true
    → all_value_types (xs ++ ys) ≡ true
unfolding all_value_types
all_value_types-append [] ys h k = k
all_value_types-append (x ∷ xs) ys h k = ground (arith, all_value_types-append xs ys)

-- A block that is left: its operands are now those of the block around it.
pub left_block :
    (values : List ℕ) (block : BranchBlock) (g : Frame) (gs : List Frame) (c : LoaderContext)
    → IsStacked (record { values = values; has_any = false; block = block } ∷ g ∷ gs) c
    → IsStacked
        (record { values = values ++ g.values; has_any = g.has_any; block = g.block } ∷ gs)
        (record c { frame_csp = drop 1 c.frame_csp })
unfolding frame_refs frame_blocks AreFrames any_cells
left_block values block g gs c st =
    let rest = any_cells g.has_any ++ frame_refs gs in
    record {
      refs =
          st.refs
          ∙ sym (append_assoc (cells_of values) (cells_of g.values) rest)
          ∙ ap (λ l. l ++ rest) (sym (cells_of-append values g.values));
      csp = ap (drop 1) st.csp;
      frames = (
        record {
          values = all_value_types-append values g.values st.frames.0.values st.frames.1.0.values;
          any = st.frames.1.0.any;
          base = st.frames.1.0.base;
          params = st.frames.1.0.params;
          results = st.frames.1.0.results;
        },
        st.frames.1.1,
      );
      height = st.height;
      cells_bounded = st.cells_bounded;
      blocks_bounded = st.blocks_bounded;
    }

pub last_block :
    (f : Frame) (c : LoaderContext)
    → IsStacked (settled_frame f ∷ []) c
    → IsEnded f.block.block_type (record c { frame_csp = drop 1 c.frame_csp })
unfolding frame_refs frame_blocks AreFrames any_cells
last_block f c st = record {
  results = st.refs ∙ append-nil _;
  csp = ap (drop 1) st.csp;
  height = st.height;
  cells_bounded = st.cells_bounded;
  blocks_bounded = st.blocks_bounded;
}
