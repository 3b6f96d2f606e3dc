-- ===== src/Frames/Heights.antt =====
-- Pushes and pops do not lower the maximum height of the validator's stack
-- (core/iwasm/common/wasm_loader.c).
use wasm2native.Branches.{pop_types, push_types}
use wasm2native.Common.{
  ℕ, ◌-◌, ◌≤◌, ◌≡◌, Bool, true, List, [], ◌∷◌, ◌&&◌, arith, length, get_elem?, leb, ◌==◌,
}
use wasm2native.Common.Ensures.{
  Ensures, holds, Ensures-bind, Ensures-then, Ensures-if, Ensures-ok, Ensures-mono, Ensures-option,
}
use wasm2native.Common.Outcome.{block_stack_was_empty}
use wasm2native.Frames.Popped.{all_value_types-head}
use wasm2native.Operands.{
  LoaderContext, BranchBlock, check_stack_pop, pop_in_block, wasm_loader_pop_frame_ref,
  wasm_loader_push_frame_ref,
}
use wasm2native.Operands.Pushed.{push_known}
use wasm2native.Types.{all_value_types}
use wasm2native.Wasm.{value_type_void}

-- The maximum does not shrink.
abbrev pub IsHigher : LoaderContext → LoaderContext → Type 0
IsHigher ctx c = ctx.max_stack_cell_num ≤ c.max_stack_cell_num

pop_in_block-IsHigher :
    (ctx : LoaderContext) (block : BranchBlock) (type : ℕ)
    → Ensures (IsHigher ctx) (pop_in_block ctx block type)
unfolding pop_in_block
pop_in_block-IsHigher ctx block type =
    Ensures-if (leb (length ctx.frame_ref) block.stack_cell_num && block.is_stack_polymorphic)
      (λ _. holds (omega arith))
      λ _.
        Ensures-if (type == value_type_void) (λ _. holds (omega arith))
          λ _.
            Ensures-then
              (check_stack_pop ctx.frame_ref (length ctx.frame_ref - block.stack_cell_num) type)
              λ _. holds (omega arith)

pop-IsHigher :
    (ctx : LoaderContext) (type : ℕ) → Ensures (IsHigher ctx) (wasm_loader_pop_frame_ref ctx type)
unfolding wasm_loader_pop_frame_ref
pop-IsHigher ctx type =
    Ensures-option (get_elem? ctx.frame_csp 0) block_stack_was_empty
      λ block _. pop_in_block-IsHigher ctx block type

pub pop_types-IsHigher :
    (types : List ℕ) (ctx : LoaderContext) → Ensures (IsHigher ctx) (pop_types ctx types)
unfolding pop_types
pop_types-IsHigher [] ctx = holds (omega arith)
pop_types-IsHigher (t ∷ ts) ctx = Ensures-bind (pop_types ctx ts) λ c e.
    Ensures-mono (pop-IsHigher c t)
      λ c' h. omega (arith, Ensures-ok (pop_types-IsHigher ts ctx) e, h)

pub push_types-IsHigher :
    (grow : ℕ → Bool) (types : List ℕ) (ctx : LoaderContext)
    → all_value_types types ≡ true
    → Ensures (IsHigher ctx) (push_types grow ctx types)
unfolding push_types
push_types-IsHigher grow [] ctx all = holds (omega arith)
push_types-IsHigher grow (t ∷ ts) ctx all =
    let (value, rest) = all_value_types-head t ts all in
    Ensures-bind (wasm_loader_push_frame_ref grow ctx t) λ c e.
      Ensures-mono (push_types-IsHigher grow ts c rest)
        λ c' h. omega (arith, (Ensures-ok (push_known grow ctx t value) e).0.max_kept, h)
