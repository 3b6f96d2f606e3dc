-- ===== src/Frames/Branched.antt =====
-- Branches leave the blocks and the stack as they need them: `wasm_loader_check_br` of
-- core/iwasm/common/wasm_loader.c.
use mathlib.Core.Path.{subst}
use wasm2native.Branches.{
  block_at, pop_types, push_types, check_top_types, label_types, backup_cells, repush_types,
  wasm_loader_check_br, check_branch_block,
}
use wasm2native.Common.{
  ℕ, zero, suc, ◌-◌, ◌≤◌, ◌<◌, ◌≡◌, refl, sym, ◌∙◌, ap, Bool, true, false, some, List, [], ◌∷◌,
  if◌then◌else◌, arith, length, get_elem?, ltb, ◌++◌, Bool-cases, inl, inr, length-append,
}
use wasm2native.Common.Ensures.{
  Ensures, holds, Ensures-bind, Ensures-then, Ensures-reject, Ensures-if, Ensures-ok, Ensures-mono,
  Ensures-option,
}
use wasm2native.Common.Outcome.{ok, ◌>>=◌, block_stack_was_empty}
use wasm2native.Frames.{
  Frame, cells_of, any_cells, frame_refs, frame_blocks, AreFrames, IsStacked, IsWithin, Follows,
  pop_all, push_all,
}
use wasm2native.Frames.Pushed.{push_types-IsStacked, with_values}
use wasm2native.Frames.Topped.{top_values}
use wasm2native.Frames.Heights.{pop_types-IsHigher, push_types-IsHigher}
use wasm2native.Frames.Labels.{
  branch_from, pop_types-Follows, pop_all-block, pop_all-pushed, branch_from-popped,
  branch_from-block,
}
use wasm2native.Leb.{read_leb_uint32}
use wasm2native.Leb.Takes.{read_leb_uint32_takes}
use wasm2native.Operands.{LoaderContext, BranchBlock}
use wasm2native.Types.{all_value_types}
use wasm2native.Wasm.{block_type_get_param_types, block_type_get_result_types}

-- The types of an open block.
unfoldable pub IsTypedBlock : BranchBlock → Type 0
IsTypedBlock block =
    (all_value_types (block_type_get_param_types block.block_type) ≡ true)
    × (all_value_types (block_type_get_result_types block.block_type) ≡ true)

frame_types :
    (fs : List Frame) (i : ℕ) (block : BranchBlock)
    → AreFrames fs
    → get_elem? (frame_blocks fs) i ≡ some block
    → IsTypedBlock block
unfolding AreFrames frame_blocks IsTypedBlock
frame_types [] i block are found = ground arith
frame_types (f ∷ fs) zero block are found =
    let same : f.block ≡ block = cc in subst IsTypedBlock same (are.0.params, are.0.results)
frame_types (f ∷ fs) (suc i) block are found = frame_types fs i block are.1 found

at_depth :
    (ctx : LoaderContext) (depth : ℕ) (blocks : List BranchBlock)
    → ctx.frame_csp ≡ blocks
    → Ensures (λ (b : BranchBlock). get_elem? blocks depth ≡ some b) (block_at ctx depth)
unfolding block_at
at_depth ctx depth blocks same =
    Ensures-option (get_elem? ctx.frame_csp depth) block_stack_was_empty
      λ b found. holds (ap (λ l. get_elem? l depth) (sym same) ∙ found)

label_types-all :
    (target : BranchBlock) → IsTypedBlock target → all_value_types (label_types target) ≡ true
unfolding label_types IsTypedBlock
label_types-all target typed = ground arith

-- The block that is so many blocks out has the label, and its types have been found.
unfoldable pub IsBranched : List Frame → Frame → ℕ → Bool → LoaderContext → Type 0
IsBranched fs f depth is_br_table c =
    (target : BranchBlock) × (get_elem? (frame_blocks (f ∷ fs)) depth ≡ some target)
    × Follows fs (branch_from f (label_types target) is_br_table) c

-- The current block is that of the top frame.
pub block_at-current :
    (f : Frame) (fs : List Frame) (ctx : LoaderContext)
    → IsStacked (f ∷ fs) ctx
    → Ensures (λ (b : BranchBlock). f.block ≡ b) (block_at ctx 0)
unfolding frame_blocks
block_at-current f fs ctx st =
    Ensures-mono (at_depth ctx 0 (frame_blocks (f ∷ fs)) st.csp) λ b found. cc

module _ (grow : ℕ → Bool) (f : Frame) (fs : List Frame) (ctx : LoaderContext)
    (st : IsStacked (f ∷ fs) ctx) where
  pub block_at-typed : (depth : ℕ) → Ensures IsTypedBlock (block_at ctx depth)
  block_at-typed depth =
      Ensures-mono (at_depth ctx depth (frame_blocks (f ∷ fs)) st.csp)
        λ b found. frame_types (f ∷ fs) depth b st.frames found

  -- The cells are put back as they were.
  restored :
      (c : LoaderContext)
      → c.frame_csp ≡ ctx.frame_csp
      → c.max_stack_cell_num ≤ 0xFFFF
      → c.max_csp_num ≤ 0xFFFF
      → ctx.max_stack_cell_num ≤ c.max_stack_cell_num
      → IsStacked (f ∷ fs) (record c { frame_ref = ctx.frame_ref })
  restored c same cells blocks higher = record {
    refs = st.refs;
    csp = same ∙ st.csp;
    frames = st.frames;
    height = omega (arith, st.height, higher);
    cells_bounded = cells;
    blocks_bounded = blocks;
  }

  repush_types-Follows :
      (types : List ℕ) (is_br_table : Bool)
      → all_value_types types ≡ true
      → Ensures
          (Follows fs (branch_from f types is_br_table))
          (repush_types grow ctx types is_br_table)
  unfolding repush_types Follows frame_blocks
  repush_types-Follows types is_br_table all = Ensures-bind (pop_types ctx types) λ popped e.
      let (g, taken, st1) = Ensures-ok (pop_types-Follows f fs ctx types all st) e in
      Ensures-then
        (if is_br_table
          then backup_cells grow (length ctx.frame_ref - length popped.frame_ref)
          else ok tt)
        λ _. Ensures-bind (push_types grow popped types) λ pushed e'.
          let st2 = Ensures-ok (push_types-IsStacked grow fs types g popped all st1) e' in
          let same = pop_all-block types f g taken in
          let csp : pushed.frame_csp ≡ ctx.frame_csp =
            st2.csp ∙ ap (λ b. b ∷ frame_blocks fs) same ∙ sym st.csp in
          let higher : ctx.max_stack_cell_num ≤ pushed.max_stack_cell_num = omega (
            arith,
            Ensures-ok (pop_types-IsHigher types ctx) e,
            Ensures-ok (push_types-IsHigher grow types popped all) e',
          ) in
          elim is_br_table
            as (λ b.
              Ensures (Follows fs (branch_from f types b))
                (ok (if b then record pushed { frame_ref = ctx.frame_ref } else pushed))) [
                  | true ↦ holds (
                    f,
                    branch_from-popped f g types true taken,
                    restored pushed csp st2.cells_bounded st2.blocks_bounded higher,
                  )
                  | false ↦ holds (_, branch_from-popped f g types false taken, st2)
                ]

  -- A block the end of which can be reached: its top values have the types.
  found_types :
      (types : List ℕ) (is_br_table : Bool)
      → f.block.is_stack_polymorphic ≡ false
      → all_value_types types ≡ true
      → Ensures (Follows fs (branch_from f types is_br_table)) (
          check_top_types ctx.frame_ref (length ctx.frame_ref - f.block.stack_cell_num) types
          >>= λ left. ok ctx)
  unfolding AreFrames frame_refs any_cells Follows
  found_types types is_br_table strict all = elim (Bool-cases f.has_any) [
    | inl any ↦ absurd (ground (arith, st.frames.0.any any))
    | inr no_any ↦
        let below = frame_refs fs in
        let avail = length ctx.frame_ref - f.block.stack_cell_num in
        let ref : ctx.frame_ref ≡ cells_of f.values ++ below =
          st.refs ∙ ap (λ a. cells_of f.values ++ (any_cells a ++ below)) no_any in
        let there : avail ≡ length (cells_of f.values) =
          omega (arith, ap length ref, length-append (cells_of f.values) below, st.frames.0.base) in
        Ensures-bind (check_top_types ctx.frame_ref avail types) λ left e.
          let (rest, same, is_left) =
            Ensures-ok (top_values types f.values below st.frames.0.values all) (
              ap (λ l. check_top_types l (length (cells_of f.values)) types) (sym ref)
              ∙ ap (λ n. check_top_types ctx.frame_ref n types) (sym there)
              ∙ e) in
          let taken : pop_all f types ≡ some (with_values f rest) =
            ap (λ v. pop_all (with_values f v) types) same ∙ pop_all-pushed types rest f in
          let kept : (if is_br_table then f else with_values f (push_all types rest)) ≡ f =
            elim is_br_table as (λ b. (if b then f else with_values f (push_all types rest)) ≡ f) [
              | true ↦ refl
              | false ↦ ap (with_values f) (sym same)
            ] in
          holds (
            f,
            branch_from-popped f (with_values f rest) types is_br_table taken ∙ ap some kept,
            st,
          )
  ]

  -- A branch is accepted only where its label is that of an open block and the types that the label takes
  -- can be popped off the current block, as the specification pops them: off its own operands, or
  -- off an empty stack where its code cannot be reached. The current block is then left with these types
  -- pushed again, or, for a label of `br_table`, as it was; the blocks around it stay as they were.
  pub wasm_loader_check_br-IsBranched :
      (depth : ℕ) (is_br_table : Bool)
      → Ensures
          (IsBranched fs f depth is_br_table)
          (wasm_loader_check_br grow ctx depth is_br_table)
  unfolding wasm_loader_check_br IsBranched
  wasm_loader_check_br-IsBranched depth is_br_table =
      Ensures-reject (ltb (length ctx.frame_csp - 1) depth) _ λ _.
        Ensures-bind (block_at ctx 0) λ cur_block e0. Ensures-bind (block_at ctx depth) λ target e.
          let found = Ensures-ok (at_depth ctx depth (frame_blocks (f ∷ fs)) st.csp) e in
          let all = label_types-all target (Ensures-ok (block_at-typed depth) e) in
          let same = Ensures-ok (block_at-current f fs ctx st) e0 in
          Ensures-if cur_block.is_stack_polymorphic
            (λ _.
              Ensures-mono (repush_types-Follows (label_types target) is_br_table all)
                λ c h. (target, found, h))
            λ strict.
              let base = ap (λ (b : BranchBlock). b.stack_cell_num) same in
              Ensures-mono
                (subst
                  (λ n. Ensures (Follows fs (branch_from f (label_types target) is_br_table)) (
                    check_top_types ctx.frame_ref (length ctx.frame_ref - n) (label_types target)
                    >>= λ left. ok ctx))
                  base
                  (found_types (label_types target) is_br_table
                    (ap (λ (b : BranchBlock). b.is_stack_polymorphic) same ∙ strict) all))
                λ c h. (target, found, h)

  pub wasm_loader_check_br-IsWithin :
      (depth : ℕ) (is_br_table : Bool)
      → Ensures (IsWithin fs f.block) (wasm_loader_check_br grow ctx depth is_br_table)
  unfolding IsWithin IsBranched Follows
  wasm_loader_check_br-IsWithin depth is_br_table =
      Ensures-mono (wasm_loader_check_br-IsBranched depth is_br_table)
        λ c (target, found, (g, e, st')).
          (g, st', branch_from-block f g (label_types target) is_br_table e)

  pub check_branch_block-IsWithin :
      (is_br_table : Bool) (p : List ℕ)
      → Ensures
          (λ (out : LoaderContext × List ℕ). IsWithin fs f.block out.0 × (length out.1 < length p))
          (check_branch_block grow ctx is_br_table p)
  unfolding check_branch_block
  check_branch_block-IsWithin is_br_table p = Ensures-bind (read_leb_uint32 p) λ (depth, rest) e.
      Ensures-bind (wasm_loader_check_br grow ctx depth is_br_table) λ c e'. holds (
        Ensures-ok (wasm_loader_check_br-IsWithin depth is_br_table) e',
        (read_leb_uint32_takes p depth rest e).0,
      )
