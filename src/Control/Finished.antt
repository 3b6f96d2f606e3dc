-- ===== src/Control/Finished.antt =====
-- What the instructions `else` and `end` leave, exactly: the cases WASM_OP_ELSE and WASM_OP_END of
-- `wasm_loader_prepare_bytecode` (core/iwasm/common/wasm_loader.c).
use mathlib.Core.Path.{subst}
use wasm2native.Branches.{block_at, check_block_stack, push_types, reset_stack}
use wasm2native.Common.{
  ℕ, ◌≡◌, refl, ◌∙◌, ap, Bool, true, false, not, ◌&&◌, ◌||◌, List, [], ◌∷◌, ◌++◌, arith, length,
  drop, ltb, ◌==◌,
}
use wasm2native.Common.Ensures.{
  Ensures, holds, Ensures-bind, Ensures-reject, Ensures-if, Ensures-ok,
}
use wasm2native.Common.Outcome.{Result, ok, ◌>>◌, reject, section_size_mismatch}
use wasm2native.Control.{set_else, handle_op_else, handle_op_end}
use wasm2native.Frames.{Frame, frame_blocks, frame_refs, AreFrames, IsStacked, push_all}
use wasm2native.Frames.Branched.{block_at-current}
use wasm2native.Frames.Entered.{reset_stack-IsStacked}
use wasm2native.Frames.Settled.{settled_frame, check_block_stack-IsStacked}
use wasm2native.Frames.Pushed.{push_types-IsStacked}
use wasm2native.Operands.{BranchBlock, LoaderContext, wasm_loader_pop_frame_csp}
use wasm2native.Program.{Scope}
use wasm2native.Wasm.{label_type_if, block_type_get_param_types, block_type_get_result_types}
use wasm2native.Control.Left.{IsEnded, left_block, last_block}

else_noted :
    (f : Frame) (fs : List Frame) (ctx : LoaderContext)
    → IsStacked (f ∷ fs) ctx
    → IsStacked
        (record {
          values = f.values;
          has_any = f.has_any;
          block = record f.block { has_else = true };
        }
          ∷ fs)
        (record ctx { frame_csp = set_else ctx.frame_csp })
unfolding set_else frame_refs frame_blocks AreFrames
else_noted f fs ctx st = record {
  refs = st.refs;
  csp = ap set_else st.csp;
  frames = (
    record {
      values = st.frames.0.values;
      any = st.frames.0.any;
      base = st.frames.0.base;
      params = st.frames.0.params;
      results = st.frames.0.results;
    },
    st.frames.1,
  );
  height = st.height;
  cells_bounded = st.cells_bounded;
  blocks_bounded = st.blocks_bounded;
}

settled :
    (grow : ℕ → Bool) (f : Frame) (fs : List Frame) (ctx : LoaderContext) (b : BranchBlock)
    → f.block ≡ b
    → IsStacked (f ∷ fs) ctx
    → Ensures (IsStacked (settled_frame f ∷ fs)) (check_block_stack grow ctx b)
settled grow f fs ctx b same st =
    subst (λ b. Ensures (IsStacked (settled_frame f ∷ fs)) (check_block_stack grow ctx b)) same
      (check_block_stack-IsStacked grow f fs ctx st)

popped :
    (c : LoaderContext)
    → Ensures
        (λ (c' : LoaderContext). record c { frame_csp = drop 1 c.frame_csp } ≡ c')
        (wasm_loader_pop_frame_csp c)
unfolding wasm_loader_pop_frame_csp
popped c = Ensures-reject (ltb (length c.frame_csp) 1) _ λ _. holds refl

abbrev no_bytes : List ℕ
no_bytes = []

-- The test behind the pop of a block.
abbrev leave_block : LoaderContext → List ℕ → Result (LoaderContext × List ℕ)
leave_block c p =
    reject (length c.frame_csp == 0 && not (length p == 0)) section_size_mismatch >> ok (c, p)

-- The block of an `else`.
abbrev pub else_block : BranchBlock → BranchBlock
else_block block = record block { has_else = true; is_stack_polymorphic = false }

-- The frame behind an `else`: the parameters of the block.
abbrev pub else_frame : Frame → Frame
else_frame f = record {
  values = push_all (block_type_get_param_types f.block.block_type) [];
  has_any = false;
  block = else_block f.block;
}

-- The frame around a block that is left, with the results of the block on top of its own values.
abbrev pub left_frame : Frame → Frame → Frame
left_frame f g = record {
  values = push_all (block_type_get_result_types f.block.block_type) [] ++ g.values;
  has_any = g.has_any;
  block = g.block;
}

abbrev pub is_virtual : BranchBlock → Bool
is_virtual block = block.label_type == label_type_if && not block.has_else

-- What the `end` of the block of a frame leaves, and the bytes to read on from: the results in the block
-- around it; behind the function's block, which ends with the code, the results alone; and behind an
-- `if` without `else` the block again, as behind an `else`, with the `end` still to be read.
pub data Ends (f : Frame) (fs : List Frame) (p : List ℕ) : LoaderContext × List ℕ → Type 0 where
  left_inner :
      {g : Frame} {gs : List Frame} {c : LoaderContext}
      → is_virtual f.block ≡ false
      → fs ≡ g ∷ gs
      → IsStacked (left_frame f g ∷ gs) c
      → Ends f fs p (c, p)
  left_function :
      {c : LoaderContext}
      → is_virtual f.block ≡ false
      → fs ≡ []
      → p ≡ []
      → IsEnded f.block.block_type c
      → Ends f fs p (c, [])
  else_inserted :
      {c : LoaderContext}
      → is_virtual f.block ≡ true
      → IsStacked (else_frame f ∷ fs) c
      → Ends f fs p (c, 0x0b ∷ p)

module _ (s : Scope) where
  -- An `else` is met with the results of the block on the stack, and leaves the parameters.
  pub handle_op_else-IsStacked :
      (f : Frame) (fs : List Frame) (ctx : LoaderContext)
      → IsStacked (f ∷ fs) ctx
      → Ensures (IsStacked (else_frame f ∷ fs)) (handle_op_else s ctx)
  unfolding handle_op_else AreFrames
  handle_op_else-IsStacked f fs ctx st = Ensures-reject (ltb (length ctx.frame_csp) 2) _ λ _.
      Ensures-bind (block_at ctx 0) λ block e0.
        Ensures-reject (not (block.label_type == label_type_if) || block.has_else) _ λ _.
          let same = Ensures-ok (block_at-current f fs ctx st) e0 in
          Ensures-bind (check_block_stack s.grow ctx block) λ c1 e1.
            let st1 = Ensures-ok (settled s.grow f fs ctx block same st) e1 in
            Ensures-bind (reset_stack (record c1 { frame_csp = set_else c1.frame_csp }) false)
              λ c2 e2.
                let st2 =
                  Ensures-ok (reset_stack-IsStacked _ fs _ false (else_noted _ fs c1 st1)) e2 in
                subst
                  (λ (b : BranchBlock).
                    Ensures (IsStacked (else_frame f ∷ fs))
                      (push_types s.grow c2 (block_type_get_param_types b.block_type)))
                  same
                  (push_types-IsStacked s.grow fs (block_type_get_param_types f.block.block_type) _
                    c2 st.frames.0.params st2)

  -- What is left when the block is taken off the list.
  after_pop :
      (f : Frame) (fs : List Frame) (c : LoaderContext) (p : List ℕ)
      → is_virtual f.block ≡ false
      → IsStacked (settled_frame f ∷ fs) c
      → Ensures (Ends f fs p) (leave_block (record c { frame_csp = drop 1 c.frame_csp }) p)
  unfolding frame_blocks
  after_pop f [] c [] real st =
      Ensures-reject (length (drop 1 c.frame_csp) == 0 && not (length no_bytes == 0)) _
        λ _. holds (left_function real refl refl (last_block f c st))
  after_pop f [] c (b ∷ p) real st =
      let gone : length (drop 1 c.frame_csp) ≡ 0 = ap (λ l. length (drop 1 l)) st.csp in
      Ensures-reject (length (drop 1 c.frame_csp) == 0 && not (length (b ∷ p) == 0)) _
        λ more. absurd (ground arith)
  after_pop f (g ∷ gs) c p real st =
      Ensures-reject (length (drop 1 c.frame_csp) == 0 && not (length p == 0)) _ λ _. holds (
        left_inner real refl (
          left_block (push_all (block_type_get_result_types f.block.block_type) []) f.block g gs c
            st))

  pub handle_op_end-Ends :
      (f : Frame) (fs : List Frame) (ctx : LoaderContext) (p : List ℕ)
      → IsStacked (f ∷ fs) ctx
      → Ensures (Ends f fs p) (handle_op_end s ctx p)
  unfolding handle_op_end
  handle_op_end-Ends f fs ctx p st = Ensures-bind (block_at ctx 0) λ b e0.
      let same = Ensures-ok (block_at-current f fs ctx st) e0 in
      Ensures-bind (check_block_stack s.grow ctx b) λ c1 e1.
        let st1 = Ensures-ok (settled s.grow f fs ctx b same st) e1 in
        Ensures-if (is_virtual b)
          (λ virtual. Ensures-bind (handle_op_else s c1) λ c2 e2. holds (
            else_inserted (ap is_virtual same ∙ virtual)
              (Ensures-ok (handle_op_else-IsStacked (settled_frame f) fs c1 st1) e2)))
          λ real. Ensures-bind (wasm_loader_pop_frame_csp c1) λ c2 e2.
            subst (λ c. Ensures (Ends f fs p) (leave_block c p)) (Ensures-ok (popped c1) e2)
              (after_pop f fs c1 p (ap is_virtual same ∙ real) st1)
