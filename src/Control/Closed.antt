-- ===== src/Control/Closed.antt =====
-- The ends of blocks keep the stacks' invariant: the cases WASM_OP_ELSE and WASM_OP_END of
-- `wasm_loader_prepare_bytecode` (core/iwasm/common/wasm_loader.c).
use mathlib.Core.Path.{subst}
use wasm2native.Common.{
  ℕ, ◌≡◌, refl, sym, ◌∙◌, ap, Bool, not, ◌&&◌, List, [], ◌∷◌, arith, ◌==◌, if◌then◌else◌,
}
use wasm2native.Common.Ensures.{Ensures, Ensures-mono}
use wasm2native.Control.{handle_op_else, handle_op_end}
use wasm2native.Frames.{Frame, frame_blocks, IsStacked, IsOpen, IsMoved, bottom_type}
use wasm2native.Operands.{BranchBlock, LoaderContext}
use wasm2native.Program.{Scope}
use wasm2native.Wasm.{BlockType, label_type_if}
use wasm2native.Control.Finished.{
  Ends, left_inner, left_function, else_inserted, left_frame, else_frame, handle_op_end-Ends,
  handle_op_else-IsStacked,
}
use wasm2native.Control.Left.{IsEnded}

-- An `if` whose `else` has not been met, the end of which is read twice.
unfoldable pub pending_block : BranchBlock → Bool
pending_block block = block.label_type == label_type_if && not block.has_else

unfoldable pub pending : List BranchBlock → ℕ
pending [] = 0
pending (block ∷ outer) = if pending_block block then 1 else 0

-- What an instruction leaves. The last case is the virtual `else`, behind which the `end` is read once more.
pub data IsNext (root : BlockType) (ctx : LoaderContext) (p : List ℕ)
    : LoaderContext × List ℕ → Type 0 where
  moved : {out : LoaderContext × List ℕ} → IsMoved root p out → IsNext root ctx p out
  ended : {c : LoaderContext} → IsEnded root c → IsNext root ctx p (c, [])
  doubled :
      {c : LoaderContext}
      → IsOpen root c
      → pending ctx.frame_csp ≡ 1
      → pending c.frame_csp ≡ 0
      → IsNext root ctx p (c, 0x0b ∷ p)

-- The exact step is one of the three.
Ends-IsNext :
    (root : BlockType) (f : Frame) (fs : List Frame) (ctx : LoaderContext) (p : List ℕ)
    (out : LoaderContext × List ℕ)
    → IsStacked (f ∷ fs) ctx
    → bottom_type f.block.block_type fs ≡ root
    → Ends f fs p out
    → IsNext root ctx p out
unfolding bottom_type IsOpen IsMoved pending pending_block frame_blocks
Ends-IsNext root f fs ctx p out st bottom (left_inner {g} {gs} {c} real same st') = moved (
  (left_frame f g, gs, st', ap (bottom_type f.block.block_type) (sym same) ∙ bottom),
  omega arith,
)
Ends-IsNext root f fs ctx p out st bottom (left_function {c} real same none_left done) =
    ended (subst (λ t. IsEnded t c) (ap (bottom_type f.block.block_type) (sym same) ∙ bottom) done)
Ends-IsNext root f fs ctx p out st bottom (else_inserted {c} virtual st') =
    doubled (else_frame f, fs, st', bottom) (ap pending st.csp ∙ rw virtual refl)
      (ap pending st'.csp ∙ ground arith)

module _ (s : Scope) where
  -- Where the end of a block is accepted, a block is open and no byte is given back; or none is open and
  -- no byte is left; or the end of an `if` without `else` is read again, which happens once.
  pub handle_op_end-IsNext :
      (root : BlockType) (ctx : LoaderContext) (p : List ℕ)
      → IsOpen root ctx
      → Ensures (IsNext root ctx p) (handle_op_end s ctx p)
  unfolding IsOpen
  handle_op_end-IsNext root ctx p (f, fs, st, bottom) =
      Ensures-mono (handle_op_end-Ends s f fs ctx p st)
        λ out h. Ends-IsNext root f fs ctx p out st bottom h

  pub handle_op_else-IsMoved :
      (root : BlockType) (ctx : LoaderContext)
      → IsOpen root ctx
      → Ensures (IsOpen root) (handle_op_else s ctx)
  unfolding IsOpen
  handle_op_else-IsMoved root ctx (f, fs, st, bottom) =
      Ensures-mono (handle_op_else-IsStacked s f fs ctx st) λ c h. (else_frame f, fs, h, bottom)
