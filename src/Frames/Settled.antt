-- ===== src/Frames/Settled.antt =====
-- What a block leaves: `check_block_stack` of core/iwasm/common/wasm_loader.c lets a block end only where
-- its operands are exactly the results of its type.
use mathlib.Core.Path.{subst}
use wasm2native.Branches.{check_top_types, check_block_stack, pop_types, push_types}
use wasm2native.Common.{
  ℕ, ◌+◌, ◌-◌, ◌^◌, ◌<◌, ◌≡◌, refl, sym, ◌∙◌, ap, Bool, true, false, List, [], ◌∷◌, ◌++◌, inl, inr,
  Bool-cases, ==_iff, arith, length, replicate, ◌==◌, length-append, length-replicate,
}
use wasm2native.Common.Ensures.{Ensures, holds, Ensures-bind, Ensures-check, Ensures-if, Ensures-ok}
use wasm2native.Common.Outcome.{ok, ◌>>=◌, ◌>>◌, check, stack_size_mismatch}
use wasm2native.Frames.{
  Frame, cells_of, any_cells, frame_refs, frame_blocks, AreFrames, IsStacked, IsWithin, push_all,
}
use wasm2native.Frames.Popped.{all_value_types-head}
use wasm2native.Frames.Taken.{cells_suc}
use wasm2native.Frames.Pushed.{push_types-IsStacked}
use wasm2native.Frames.Within.{IsWithin-pop_types}
use wasm2native.Operands.{LoaderContext}
use wasm2native.Types.{all_value_types}
use wasm2native.Wasm.{
  wasm_value_type_cell_num, wasm_get_cell_num, block_type_get_param_types,
  block_type_get_result_types,
}
use wasm2native.Wasm.Cells.{cells, wasm_get_cell_num-cells}
use wasm2native.Frames.Topped.{all_value_types-push_all, top_values}

length-cells_of : (vs : List ℕ) → length (cells_of vs) ≡ cells vs
unfolding cells_of cells
length-cells_of [] = refl
length-cells_of (v ∷ vs) = omega (
  arith,
  length-append (replicate (wasm_value_type_cell_num v) v) (cells_of vs),
  length-replicate (wasm_value_type_cell_num v) v,
  length-cells_of vs,
)

cells-push_all : (ts vs : List ℕ) → cells (push_all ts vs) ≡ cells ts + cells vs
unfolding push_all cells
cells-push_all [] vs = omega arith
cells-push_all (t ∷ ts) vs = omega (arith, cells-push_all ts (t ∷ vs))

no_cells : (vs : List ℕ) → all_value_types vs ≡ true → cells vs ≡ 0 → vs ≡ []
unfolding cells
no_cells [] all none_there = refl
no_cells (v ∷ vs) all none_there =
    let (n, many) = cells_suc v (all_value_types-head v vs all).0 in absurd (omega (arith, many))

-- The values are exactly those of the types where the number of cells is that of the types, too.
all_values :
    (types rest : List ℕ)
    → length (cells_of (push_all types rest)) < 2 ^ 32
    → length (cells_of (push_all types rest)) ≡ wasm_get_cell_num types 0
    → all_value_types rest ≡ true
    → rest ≡ []
all_values types rest small size all =
    let sum = cells-push_all types rest in
    let length_sum = length-cells_of (push_all types rest) in
    no_cells rest all
      (omega (arith, sum, length_sum, wasm_get_cell_num-cells types 0 (omega arith)))

-- A block that may end: its operands are the results of its type, and nothing else.
abbrev pub settled_frame : Frame → Frame
settled_frame f = record {
  values = push_all (block_type_get_result_types f.block.block_type) [];
  has_any = false;
  block = f.block;
}

same_length : (xs ys zs : List ℕ) → length (xs ++ (ys ++ zs)) ≡ length zs → xs ++ (ys ++ zs) ≡ zs
same_length [] [] zs e = refl
same_length [] (y ∷ ys) zs e = absurd (omega (arith, length-append ys zs))
same_length (x ∷ xs) ys zs e =
    absurd (omega (arith, length-append xs (ys ++ zs), length-append ys zs))

settled :
    (f : Frame) (fs : List Frame) (ctx : LoaderContext) (rest : List ℕ)
    → f.values ≡ push_all (block_type_get_result_types f.block.block_type) rest
    → f.has_any ≡ false
    → length (cells_of f.values) < 2 ^ 32
    → length (cells_of f.values)
      ≡ wasm_get_cell_num (block_type_get_result_types f.block.block_type) 0
    → IsStacked (f ∷ fs) ctx
    → IsStacked (settled_frame f ∷ fs) ctx
unfolding AreFrames
settled f fs ctx rest same no_any small size st =
    let types = block_type_get_result_types f.block.block_type in
    let count = ap (λ l. length (cells_of l)) same in
    let kept =
      all_value_types-push_all types rest (ap all_value_types (sym same) ∙ st.frames.0.values) in
    let nothing = all_values types rest (omega (arith, count)) (sym count ∙ size) kept in
    subst (λ v. IsStacked (record { values = v; has_any = false; block = f.block } ∷ fs) ctx)
      (same ∙ ap (push_all types) nothing)
      (subst (λ a. IsStacked (record { values = f.values; has_any = a; block = f.block } ∷ fs) ctx)
        no_any st)

pub emptied :
    (f g : Frame) (fs : List Frame) (ctx : LoaderContext)
    → IsStacked (g ∷ fs) ctx
    → g.block ≡ f.block
    → (length ctx.frame_ref == f.block.stack_cell_num) ≡ true
    → IsStacked (record { values = []; has_any = false; block = f.block } ∷ fs) ctx
unfolding AreFrames frame_refs frame_blocks cells_of any_cells all_value_types
emptied f g fs ctx st same height = record {
  refs =
      st.refs
      ∙ same_length (cells_of g.values) (any_cells g.has_any) (frame_refs fs) (
          ap length (sym st.refs)
          ∙ (==_iff _ _).0 height
          ∙ ap (λ b. b.stack_cell_num) (sym same)
          ∙ st.frames.0.base);
  csp = st.csp ∙ ap (λ b. b ∷ frame_blocks fs) same;
  frames = (
    record {
      values = refl;
      any = λ h. absurd (ground arith);
      base = ap (λ b. b.stack_cell_num) (sym same) ∙ st.frames.0.base;
      params =
          ap (λ b. all_value_types (block_type_get_param_types b.block_type)) (sym same)
          ∙ st.frames.0.params;
      results =
          ap (λ b. all_value_types (block_type_get_result_types b.block_type)) (sym same)
          ∙ st.frames.0.results;
    },
    st.frames.1,
  );
  height = st.height;
  cells_bounded = st.cells_bounded;
  blocks_bounded = st.blocks_bounded;
}

module _ (grow : ℕ → Bool) (f : Frame) (fs : List Frame) (ctx : LoaderContext)
    (st : IsStacked (f ∷ fs) ctx) where
  unreachable_settled : Ensures (IsStacked (settled_frame f ∷ fs)) (
      pop_types ctx (block_type_get_result_types f.block.block_type) >>= λ ctx.
      check (length ctx.frame_ref == f.block.stack_cell_num) stack_size_mismatch
      >> push_types grow ctx (block_type_get_result_types f.block.block_type))
  unfolding IsWithin AreFrames
  unreachable_settled =
      let types = block_type_get_result_types f.block.block_type in
      Ensures-bind (pop_types ctx types) λ c e.
        let (g, st', same) =
          Ensures-ok (IsWithin-pop_types fs f.block ctx types st.frames.0.results (f, st, refl))
            e in
        Ensures-check (length c.frame_ref == f.block.stack_cell_num) _ λ height.
          push_types-IsStacked grow fs types
            (record { values = []; has_any = false; block = f.block }) c st.frames.0.results
            (emptied f g fs c st' same height)

  reachable_settled :
      f.block.is_stack_polymorphic ≡ false
      → Ensures (IsStacked (settled_frame f ∷ fs)) (
          check
            (length ctx.frame_ref - f.block.stack_cell_num
              == wasm_get_cell_num (block_type_get_result_types f.block.block_type) 0)
            stack_size_mismatch
          >> (check_top_types ctx.frame_ref
                (length ctx.frame_ref - f.block.stack_cell_num)
                (block_type_get_result_types f.block.block_type)
              >>= λ left. ok ctx))
  unfolding AreFrames frame_refs any_cells
  reachable_settled strict = elim (Bool-cases f.has_any) [
    | inl any ↦ absurd (ground (arith, st.frames.0.any any))
    | inr no_any ↦
        let types = block_type_get_result_types f.block.block_type in
        let below = frame_refs fs in
        let avail = length ctx.frame_ref - f.block.stack_cell_num in
        let ref : ctx.frame_ref ≡ cells_of f.values ++ below =
          st.refs ∙ ap (λ a. cells_of f.values ++ (any_cells a ++ below)) no_any in
        let there : avail ≡ length (cells_of f.values) =
          omega (arith, ap length ref, length-append (cells_of f.values) below, st.frames.0.base) in
        Ensures-check (avail == wasm_get_cell_num types 0) _ λ size.
          Ensures-bind (check_top_types ctx.frame_ref avail types) λ left e.
            let (rest, same, is_left) =
              Ensures-ok (top_values types f.values below st.frames.0.values st.frames.0.results) (
                ap (λ l. check_top_types l (length (cells_of f.values)) types) (sym ref)
                ∙ ap (λ n. check_top_types ctx.frame_ref n types) (sym there)
                ∙ e) in
            holds (
              settled f fs ctx rest same no_any (omega (arith, there, st.height, st.cells_bounded))
                (sym there ∙ (==_iff _ _).0 size) st)
  ]

-- The operands of the current block, where it may end, are the results of the block's type, the last one
-- on top, whether or not its end can be reached; the blocks around it are as they were.
pub check_block_stack-IsStacked :
    (grow : ℕ → Bool) (f : Frame) (fs : List Frame) (ctx : LoaderContext)
    → IsStacked (f ∷ fs) ctx
    → Ensures (IsStacked (settled_frame f ∷ fs)) (check_block_stack grow ctx f.block)
unfolding check_block_stack
check_block_stack-IsStacked grow f fs ctx st =
    Ensures-if f.block.is_stack_polymorphic (λ poly. unreachable_settled grow f fs ctx st)
      (λ strict. reachable_settled grow f fs ctx st strict)
