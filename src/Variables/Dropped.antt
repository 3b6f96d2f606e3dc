-- ===== src/Variables/Dropped.antt =====
-- The instructions that look at the type of the top value: WASM_OP_DROP and WASM_OP_SELECT of
-- `wasm_loader_prepare_bytecode` (core/iwasm/common/wasm_loader.c).
use mathlib.Core.List.{append_assoc}
use wasm2native.Branches.{block_at}
use wasm2native.Common.{
  ℕ, suc, ◌≡◌, refl, sym, ◌∙◌, ap, Bool, true, false, not, ◌&&◌, ◌||◌, some, List, [], ◌∷◌, ◌++◌,
  arith, length, drop, replicate, get_elem?, leb, ◌==◌, length-drop, length-replicate,
  drop-append_length, Bool-cases, inl, inr, if◌then◌else◌,
}
use wasm2native.Common.Ensures.{Ensures, holds, Ensures-mono, Ensures-option}
use wasm2native.Common.Outcome.{ok, err, stack_was_empty, drop_stack_was_empty}
use wasm2native.Frames.{
  Frame, cells_of, any_cells, frame_refs, frame_blocks, AreFrames, IsStacked, IsOpen, Agrees,
  drop_top, drop_from,
}
use wasm2native.Frames.Entered.{blocks_noted}
use wasm2native.Frames.Within.{IsWithin-IsOpen}
use wasm2native.Frames.Popped.{
  all_value_types-head, fewer_cells, below, agree, disagree, Agrees-IsWithin,
}
use wasm2native.Frames.Taken.{cells_suc}
use wasm2native.Loader.{is_value_type, is_32bit_type, is_64bit_type}
use wasm2native.Operands.{LoaderContext, BranchBlock}
use wasm2native.Program.{rewrite_byte}
use wasm2native.Types.{all_value_types}
use wasm2native.Variables.{top_cell, drop_cells, drop_value, handle_op_drop}
use wasm2native.Wasm.{
  BlockType, value_type_any, value_type_v128, wasm_value_type_cell_num, wasm_value_type_size,
}

-- As many cells are dropped as the type of the top cell has.
dropped_cells :
    (v : ℕ) (vs : List ℕ) (any : Bool) (block : BranchBlock) (fs : List Frame) (ctx : LoaderContext)
    (n : ℕ)
    → IsStacked (record { values = v ∷ vs; has_any = any; block = block } ∷ fs) ctx
    → n ≡ wasm_value_type_cell_num v
    → IsStacked (record { values = vs; has_any = any; block = block } ∷ fs) (drop_cells n ctx)
unfolding drop_cells frame_refs cells_of AreFrames
dropped_cells v vs any block fs ctx n st count =
    let top = replicate (wasm_value_type_cell_num v) v in
    let rest = any_cells any ++ frame_refs fs in
    let ref : drop n ctx.frame_ref ≡ cells_of vs ++ rest =
      ap (λ k. drop k ctx.frame_ref) (count ∙ sym (length-replicate (wasm_value_type_cell_num v) v))
      ∙ ap (drop (length top)) (st.refs ∙ append_assoc top (cells_of vs) rest)
      ∙ drop-append_length top (cells_of vs ++ rest) in
    fewer_cells (v ∷ vs) vs any any block fs ctx (drop n ctx.frame_ref) st
      (all_value_types-head v vs st.frames.0.values).1 (λ h. h) ref
      (omega (arith, length-drop n ctx.frame_ref))

counts :
    (v : ℕ)
    → is_value_type v ≡ true
    → ((is_32bit_type v || v == value_type_any) ≡ true → 1 ≡ wasm_value_type_cell_num v)
      × (is_64bit_type v ≡ true → 2 ≡ wasm_value_type_cell_num v)
      × ((v == value_type_v128) ≡ true → 4 ≡ wasm_value_type_cell_num v)
unfolding is_value_type is_32bit_type is_64bit_type wasm_value_type_cell_num wasm_value_type_size
counts v value = (λ h. ground arith, λ h. ground arith, λ h. ground arith)

pub rewritten :
    (fs : List Frame) (ctx : LoaderContext) (at byte : ℕ)
    → IsStacked fs ctx
    → IsStacked fs (rewrite_byte ctx at byte)
unfolding rewrite_byte
rewritten fs ctx at byte st = blocks_noted fs ctx _ refl refl refl refl st

pub top_cell-first :
    (v : ℕ) (rest : List ℕ) (ctx : LoaderContext)
    → ctx.frame_ref ≡ v ∷ rest
    → Ensures (λ (cell : ℕ). v ≡ cell) (top_cell ctx)
unfolding top_cell
top_cell-first v rest ctx e =
    Ensures-option (get_elem? ctx.frame_ref 0) stack_was_empty
      λ cell found. holds (some-eq v cell (ap (λ l. get_elem? l 0) (sym e) ∙ found))
  where
    some-eq : (a b : ℕ) → some a ≡ some b → a ≡ b
    some-eq a b e = cc

pub block_at-top :
    (f : Frame) (fs : List Frame) (ctx : LoaderContext)
    → IsStacked (f ∷ fs) ctx
    → block_at ctx 0 ≡ ok f.block
unfolding block_at frame_blocks
block_at-top f fs ctx st = rw st.csp refl

pub top_cell-top :
    (v : ℕ) (rest : List ℕ) (ctx : LoaderContext) → ctx.frame_ref ≡ v ∷ rest → top_cell ctx ≡ ok v
unfolding top_cell
top_cell-top v rest ctx e = rw e refl

-- The context behind a drop of a value of the type on top.
abbrev dropped_value : LoaderContext → ℕ → ℕ → LoaderContext
dropped_value ctx at v =
    if is_64bit_type v
    then rewrite_byte (drop_cells 2 ctx) at 0xc5
    else drop_cells (wasm_value_type_cell_num v) ctx

drop_value-known :
    (ctx : LoaderContext) (at v : ℕ)
    → is_value_type v ≡ true
    → drop_value ctx at v ≡ ok (dropped_value ctx at v)
unfolding drop_value is_value_type is_32bit_type is_64bit_type wasm_value_type_cell_num
    wasm_value_type_size
drop_value-known ctx at v value = ground arith

-- The handler where the current block has operands.
drop_there :
    (f : Frame) (fs : List Frame) (ctx : LoaderContext) (p rest : List ℕ) (v : ℕ)
    → IsStacked (f ∷ fs) ctx
    → ctx.frame_ref ≡ v ∷ rest
    → leb (length ctx.frame_ref) f.block.stack_cell_num ≡ false
    → handle_op_drop ctx p ≡ drop_value ctx (suc (length p)) v
unfolding handle_op_drop
drop_there f fs ctx p rest v st ref more =
    rw (block_at-top f fs ctx st, more, top_cell-top v rest ctx ref) refl

-- The handler on an empty block.
drop_nothing :
    (f : Frame) (fs : List Frame) (ctx : LoaderContext) (p : List ℕ)
    → IsStacked (f ∷ fs) ctx
    → leb (length ctx.frame_ref) f.block.stack_cell_num ≡ true
    → (f.block.is_stack_polymorphic ≡ true → handle_op_drop ctx p ≡ ok ctx)
      × (f.block.is_stack_polymorphic ≡ false → handle_op_drop ctx p ≡ err drop_stack_was_empty)
unfolding handle_op_drop
drop_nothing f fs ctx p st empty = (
  λ poly. rw (block_at-top f fs ctx st, empty, poly) refl,
  λ strict. rw (block_at-top f fs ctx st, empty, strict) refl,
)

drop_top-Agrees :
    (values : List ℕ) (any : Bool) (block : BranchBlock) (fs : List Frame) (ctx : LoaderContext)
    (p : List ℕ)
    → IsStacked (record { values = values; has_any = any; block = block } ∷ fs) ctx
    → Agrees fs
        (drop_top values (record { values = values; has_any = any; block = block }))
        (handle_op_drop ctx p)
unfolding drop_top drop_cells all_value_types frame_refs cells_of any_cells AreFrames drop_value
    is_32bit_type
drop_top-Agrees [] false block fs ctx p st =
    let none_there : length ctx.frame_ref ≡ block.stack_cell_num =
      ap length st.refs ∙ sym st.frames.0.base in
    let nothing = drop_nothing _ fs ctx p st (ground arith) in
    elim (Bool-cases block.is_stack_polymorphic) [
      | inl poly ↦
          agree fs (record { values = []; has_any = false; block = block }) ctx (rw poly)
            (nothing.0 poly) st
      | inr strict ↦ disagree fs drop_stack_was_empty (rw strict) (nothing.1 strict)
    ]
drop_top-Agrees [] true block fs ctx p st =
    let size : length ctx.frame_ref ≡ suc (length (frame_refs fs)) = ap length st.refs in
    let base = st.frames.0.base in
    agree fs (record { values = []; has_any = false; block = block }) (drop_cells 1 ctx)
      (rw (st.frames.0.any refl))
      (drop_there _ fs ctx p (frame_refs fs) value_type_any st st.refs (ground (arith, size, base)))
      (fewer_cells [] [] true false block fs ctx (drop 1 ctx.frame_ref) st refl (λ h. refl)
        (ap (drop 1) st.refs) (omega (arith, length-drop 1 ctx.frame_ref)))
drop_top-Agrees (v ∷ vs) any block fs ctx p st =
    let value = (all_value_types-head v vs st.frames.0.values).0 in
    let (m, some_cells) = cells_suc v value in
    let rest = any_cells any ++ frame_refs fs in
    let first : ctx.frame_ref ≡ v ∷ (replicate m v ++ cells_of vs ++ rest) =
      st.refs ∙ ap (λ k. replicate k v ++ cells_of vs ++ rest) some_cells in
    let least = below (replicate m v ++ cells_of vs) (any_cells any) (frame_refs fs) in
    let size : length ctx.frame_ref ≡ suc (length (replicate m v ++ cells_of vs ++ rest)) =
      ap length first in
    let base = st.frames.0.base in
    let at = suc (length p) in
    let left : (n : ℕ)
        → n ≡ wasm_value_type_cell_num v
        → IsStacked (record { values = vs; has_any = any; block = block } ∷ fs) (drop_cells n ctx) =
      λ n h. dropped_cells v vs any block fs ctx n st h in
    agree fs (record { values = vs; has_any = any; block = block }) (dropped_value ctx at v) refl
      (drop_there _ fs ctx p _ v st first (ground (arith, size, base, least))
        ∙ drop_value-known ctx at v value)
      (elim (Bool-cases (is_64bit_type v)) [
        | inl wide ↦
            rw wide (rewritten _ (drop_cells 2 ctx) at 0xc5 (left 2 ((counts v value).1 wide)))
        | inr narrow ↦ rw narrow (left (wasm_value_type_cell_num v) refl)
      ])

pub polymorphic : (a b : Bool) → (a && not b) ≡ false → a ≡ true → b ≡ true
polymorphic a b h k = ground arith

-- WASM_OP_DROP is the step of the specification: the code refuses exactly what that refuses, and what the
-- code leaves stands for what that leaves. The top value of the current block is taken, whatever its
-- type and number of cells; an empty block is refused, but where its code cannot be reached.
pub handle_op_drop-Agrees :
    (f : Frame) (fs : List Frame) (ctx : LoaderContext) (p : List ℕ)
    → IsStacked (f ∷ fs) ctx
    → Agrees fs (drop_from f) (handle_op_drop ctx p)
unfolding drop_from
handle_op_drop-Agrees f fs ctx p st = drop_top-Agrees f.values f.has_any f.block fs ctx p st

drop_top-block : (values : List ℕ) (f g : Frame) → drop_top values f ≡ some g → g.block ≡ f.block
unfolding drop_top
drop_top-block [] f g e = ground arith
drop_top-block (v ∷ vs) f g e = ground arith

pub handle_op_drop-IsOpen :
    (root : BlockType) (ctx : LoaderContext) (p : List ℕ)
    → IsOpen root ctx
    → Ensures (IsOpen root) (handle_op_drop ctx p)
unfolding IsOpen drop_from
handle_op_drop-IsOpen root ctx p (f, fs, st, bottom) =
    Ensures-mono
      (Agrees-IsWithin fs f.block (handle_op_drop-Agrees f fs ctx p st)
        (λ g e. drop_top-block f.values f g e))
      λ c h. IsWithin-IsOpen root fs f.block c bottom h
