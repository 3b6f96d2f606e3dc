-- ===== src/Variables/Selected.antt =====
-- WASM_OP_SELECT of `wasm_loader_prepare_bytecode` (core/iwasm/common/wasm_loader.c), which works on values of
-- the type that is on top.
use mathlib.Core.Path.{subst}
use wasm2native.Branches.{block_at}
use wasm2native.Common.{
  ℕ, suc, ◌≡◌, refl, sym, ◌∙◌, ap, Bool, true, false, not, ◌&&◌, none, some, List, [], ◌∷◌, ◌++◌,
  arith, length, replicate, leb, ◌==◌, ==_iff, Option-cases, inl, inr, if◌then◌else◌,
}
use wasm2native.Common.Ensures.{
  Ensures, holds, refused, Ensures-bind, Ensures-reject, Ensures-if, Ensures-ok, Ensures-mono,
}
use wasm2native.Common.Outcome.{Result, ◌>>=◌, ◌>>◌, reject, select_stack_was_empty}
use wasm2native.Frames.{
  Frame, cells_of, any_cells, frame_refs, AreFrames, IsStacked, IsWithin, IsOpen, Follows,
  pop_value, pop_from, select_top, select_from,
}
use wasm2native.Frames.Branched.{block_at-current}
use wasm2native.Frames.Pushed.{push-IsStacked, with_values}
use wasm2native.Frames.Within.{IsWithin-IsOpen}
use wasm2native.Variables.Dropped.{top_cell-first, rewritten, polymorphic}
use wasm2native.Frames.Popped.{
  all_value_types-head, below, pop_from-block, Agrees-Follows, wasm_loader_pop_frame_ref-Agrees,
}
use wasm2native.Frames.Taken.{cells_suc}
use wasm2native.Loader.{is_value_type, is_32bit_type, is_64bit_type}
use wasm2native.Operands.{
  LoaderContext, BranchBlock, pop_times, wasm_loader_pop_frame_ref, wasm_loader_push_frame_ref,
  wasm_loader_push_pop_frame_ref,
}
use wasm2native.Program.{Scope}
use wasm2native.Variables.{top_cell, select_type, handle_op_select}
use wasm2native.Variables.Unknown.{any_pushed, any_selected}
use wasm2native.Wasm.{BlockType, value_type_i32, value_type_any, value_type_v128}

-- Two pops of one type.
popped_twice :
    (f g : Frame) (fs : List Frame) (ctx : LoaderContext) (v : ℕ)
    → is_value_type v ≡ true
    → pop_value f v ≡ some g
    → IsStacked (f ∷ fs) ctx
    → Ensures (Follows fs (pop_value g v)) (pop_times 2 ctx v)
unfolding pop_times Follows
popped_twice f g fs ctx v value first st = Ensures-bind (wasm_loader_pop_frame_ref ctx v) λ c e.
    let (g', same, st1) =
      Ensures-ok (Agrees-Follows fs (wasm_loader_pop_frame_ref-Agrees f fs ctx v value st)) e in
    let equal : g' ≡ g = cc in
    let st2 = subst (λ g. IsStacked (g ∷ fs) c) equal st1 in
    Ensures-bind (wasm_loader_pop_frame_ref c v) λ c' e'.
      holds
        (Ensures-ok (Agrees-Follows fs (wasm_loader_pop_frame_ref-Agrees g fs c v value st2)) e')

-- Two values of the type on top are taken, and one is put back.
value_selected :
    (grow : ℕ → Bool) (v : ℕ) (vs : List ℕ) (any : Bool) (block : BranchBlock) (fs : List Frame)
    (ctx : LoaderContext)
    → is_value_type v ≡ true
    → IsStacked (record { values = v ∷ vs; has_any = any; block = block } ∷ fs) ctx
    → Ensures
        (Follows fs
          (select_top (v ∷ vs) (record { values = v ∷ vs; has_any = any; block = block })))
        (wasm_loader_push_pop_frame_ref grow ctx 2 v v)
unfolding wasm_loader_push_pop_frame_ref select_top Follows pop_value pop_from
value_selected grow v vs any block fs ctx value st =
    let g : Frame = record { values = vs; has_any = any; block = block } in
    let equal : (v == v) ≡ true = (==_iff v v).1 refl in
    Ensures-bind (pop_times 2 ctx v) λ c e.
      let (h, taken, st2) = Ensures-ok (popped_twice _ g fs ctx v value (rw equal refl) st) e in
      Ensures-mono (push-IsStacked grow fs h c v value st2) λ c' w. (
        with_values h (v ∷ h.values),
        ap (λ o. elim o [ none ↦ none | some g ↦ some (record g { values = v ∷ g.values }) ]) taken,
        w,
      )

popped_block : (f : Frame) (type : ℕ) (g : Frame) → pop_value f type ≡ some g → g.block ≡ f.block
unfolding pop_value
popped_block f type g e = pop_from-block f.values f type g e

noted_type :
    (fs : List Frame) (ctx : LoaderContext) (at cell : ℕ)
    → IsStacked fs ctx
    → Ensures (IsStacked fs) (select_type ctx at cell)
unfolding select_type
noted_type fs ctx at cell st =
    Ensures-if (is_32bit_type cell) (λ _. holds st)
      λ _.
        Ensures-if (is_64bit_type cell) (λ _. holds (rewritten fs ctx at 0xc6 st))
          λ _. Ensures-if (cell == value_type_v128) (λ _. holds st) (λ _. refused)

-- What is behind the pop of the condition.
abbrev select_rest : Scope → BranchBlock → List ℕ → LoaderContext → Result LoaderContext
select_rest s block p ctx =
    reject (leb (length ctx.frame_ref) block.stack_cell_num && not block.is_stack_polymorphic)
      select_stack_was_empty
    >> (if leb (length ctx.frame_ref) block.stack_cell_num
        then wasm_loader_push_frame_ref s.grow ctx value_type_any
        else (top_cell ctx >>= λ t. select_type ctx (suc (length p)) t >>= λ ctx.
            wasm_loader_push_pop_frame_ref s.grow ctx 2 t t))

select_rest-Follows :
    (s : Scope) (values : List ℕ) (any : Bool) (block : BranchBlock) (fs : List Frame)
    (ctx : LoaderContext) (p : List ℕ)
    → IsStacked (record { values = values; has_any = any; block = block } ∷ fs) ctx
    → Ensures
        (Follows fs (select_top values (record { values = values; has_any = any; block = block })))
        (select_rest s block p ctx)
unfolding frame_refs cells_of any_cells AreFrames Follows select_top
select_rest-Follows s [] false block fs ctx p st =
    let none_there : length ctx.frame_ref ≡ block.stack_cell_num =
      ap length st.refs ∙ sym st.frames.0.base in
    let empty = leb (length ctx.frame_ref) block.stack_cell_num in
    Ensures-reject (empty && not block.is_stack_polymorphic) _ λ fine.
      Ensures-if empty
        (λ h.
          let poly = polymorphic empty block.is_stack_polymorphic fine h in
          Ensures-mono (any_pushed s.grow block fs ctx poly st) λ c w. (_, rw poly refl, w))
        λ more. absurd (ground arith)
select_rest-Follows s [] true block fs ctx p st =
    let size : length ctx.frame_ref ≡ suc (length (frame_refs fs)) = ap length st.refs in
    let base = st.frames.0.base in
    let empty = leb (length ctx.frame_ref) block.stack_cell_num in
    let poly = st.frames.0.any refl in
    Ensures-reject (empty && not block.is_stack_polymorphic) _ λ fine.
      Ensures-if empty (λ h. absurd (ground (arith, size, base)))
        λ more. Ensures-bind (top_cell ctx) λ t e.
          let same = Ensures-ok (top_cell-first value_type_any (frame_refs fs) ctx st.refs) e in
          Ensures-bind (select_type ctx (suc (length p)) t) λ c e1.
            let st1 = Ensures-ok (noted_type _ ctx (suc (length p)) t st) e1 in
            subst
              (λ t.
                Ensures
                  (Follows fs
                    (select_top [] (record { values = []; has_any = true; block = block })))
                  (wasm_loader_push_pop_frame_ref s.grow c 2 t t))
              same
              (Ensures-mono (any_selected s.grow block fs c poly st1) λ c w. (_, rw poly refl, w))
select_rest-Follows s (v ∷ vs) any block fs ctx p st =
    let value = (all_value_types-head v vs st.frames.0.values).0 in
    let (m, some_cells) = cells_suc v value in
    let rest = any_cells any ++ frame_refs fs in
    let first : ctx.frame_ref ≡ v ∷ (replicate m v ++ cells_of vs ++ rest) =
      st.refs ∙ ap (λ k. replicate k v ++ cells_of vs ++ rest) some_cells in
    let size : length ctx.frame_ref ≡ suc (length (replicate m v ++ cells_of vs ++ rest)) =
      ap length first in
    let base = st.frames.0.base in
    let least = below (replicate m v ++ cells_of vs) (any_cells any) (frame_refs fs) in
    let empty = leb (length ctx.frame_ref) block.stack_cell_num in
    Ensures-reject (empty && not block.is_stack_polymorphic) _ λ fine.
      Ensures-if empty (λ h. absurd (ground (arith, size, base, least)))
        λ more. Ensures-bind (top_cell ctx) λ t e.
          let same =
            Ensures-ok (top_cell-first v (replicate m v ++ cells_of vs ++ rest) ctx first) e in
          Ensures-bind (select_type ctx (suc (length p)) t) λ c e1.
            let st1 = Ensures-ok (noted_type _ ctx (suc (length p)) t st) e1 in
            subst
              (λ t.
                Ensures
                  (Follows fs (
                    select_top (v ∷ vs) (record { values = v ∷ vs; has_any = any; block = block })))
                  (wasm_loader_push_pop_frame_ref s.grow c 2 t t))
              same (value_selected s.grow v vs any block fs c value st1)

-- WASM_OP_SELECT succeeds only where the specification takes the step, and what it leaves stands for what
-- that leaves: an i32 is popped, and then two operands of the type that is on top, of which one is
-- left; on an empty block it is a value of an unknown type, and only where the code cannot be reached.
pub handle_op_select-Follows :
    (s : Scope) (f : Frame) (fs : List Frame) (ctx : LoaderContext) (p : List ℕ)
    → IsStacked (f ∷ fs) ctx
    → Ensures (Follows fs (select_from f)) (handle_op_select s ctx p)
unfolding handle_op_select select_from Follows is_value_type
handle_op_select-Follows s f fs ctx p st = Ensures-bind (block_at ctx 0) λ b e0.
    let same = Ensures-ok (block_at-current f fs ctx st) e0 in
    Ensures-bind (wasm_loader_pop_frame_ref ctx value_type_i32) λ c e.
      let (g, taken, st1) =
        Ensures-ok
          (Agrees-Follows fs (wasm_loader_pop_frame_ref-Agrees f fs ctx value_type_i32 refl st))
          e in
      let found : g.block ≡ b = popped_block f value_type_i32 g taken ∙ same in
      subst (λ b. Ensures (Follows fs (select_from f)) (select_rest s b p c)) found
        (Ensures-mono (select_rest-Follows s g.values g.has_any g.block fs c p st1)
          λ c' (h, e', st').
            (h, ap (λ o. elim o [ none ↦ none | some g ↦ select_top g.values g ]) taken ∙ e', st'))

select_top-block :
    (values : List ℕ) (f g : Frame) → select_top values f ≡ some g → g.block ≡ f.block
unfolding select_top
select_top-block [] f g e = ground arith
select_top-block (v ∷ vs) f g e = elim (Option-cases (pop_value (record f { values = vs }) v)) [
  | inl none_there ↦ absurd (ground arith)
  | inr (h, taken) ↦
      let same = popped_block (record f { values = vs }) v h taken in
      let equal : g ≡ record h { values = v ∷ h.values } = ground arith in
      ap (λ g. g.block) equal ∙ same
]

pub handle_op_select-IsOpen :
    (s : Scope) (root : BlockType) (ctx : LoaderContext) (p : List ℕ)
    → IsOpen root ctx
    → Ensures (IsOpen root) (handle_op_select s ctx p)
unfolding IsOpen IsWithin Follows select_from
handle_op_select-IsOpen s root ctx p (f, fs, st, bottom) =
    Ensures-mono (handle_op_select-Follows s f fs ctx p st) λ c (g, taken, st').
      elim (Option-cases (pop_value f value_type_i32)) [
        | inl none_there ↦ absurd (ground arith)
        | inr (h, popped) ↦
            let same =
              select_top-block h.values h g (ground arith)
              ∙ popped_block f value_type_i32 h popped in
            IsWithin-IsOpen root fs f.block c bottom (g, st', same)
      ]
