-- ===== src/Operands/Popped.antt =====
-- What a pop takes off the validator's stack (core/iwasm/common/wasm_loader.c,
-- `wasm_loader_pop_frame_ref`).
use wasm2native.Common.{
  ℕ, zero, suc, ◌+◌, ◌-◌, ◌≤◌, ◌≡◌, refl, sym, ◌∙◌, ap, Bool, true, false, ◌&&◌, some, List, ◌++◌,
  arith, length, get_elem?, drop, replicate, leb, ◌==◌, length-drop, drop-append_length,
  length-append, length-replicate,
}
use wasm2native.Common.Ensures.{Ensures, holds, Ensures-then, Ensures-ok, Ensures-if}
use wasm2native.Common.Outcome.{ok}
use wasm2native.Loader.{is_32bit_type, is_value_type}
use wasm2native.Operands.{
  LoaderContext, BranchBlock, top_cells, check_stack_top_values, any_on_top, check_stack_pop,
  cells_to_pop, pop_in_block, wasm_loader_pop_frame_ref, wasm_loader_push_frame_ref,
}
use wasm2native.Operands.Pushed.{wasm_loader_push_frame_ref-IsPushed}
use wasm2native.Wasm.{value_type_void, wasm_value_type_cell_num, wasm_value_type_size}

-- The context is as it was, but for some cells that are gone from the top of its stack.
pub record IsPopped (ctx : LoaderContext) (base : ℕ) (c : LoaderContext) : Type 0 where
  pub frame_ref : (n : ℕ) × (c.frame_ref ≡ drop n ctx.frame_ref)
  pub frame_csp : c.frame_csp ≡ ctx.frame_csp
  pub above : base ≤ length c.frame_ref

-- The cells that are taken off are there, above the block's.
enough :
    (ref : List ℕ) (avail t : ℕ)
    → is_value_type t ≡ true
    → check_stack_pop ref avail t ≡ ok tt
    → cells_to_pop ref t ≤ avail
unfolding check_stack_pop check_stack_top_values cells_to_pop is_value_type is_32bit_type
    wasm_value_type_cell_num wasm_value_type_size
enough ref avail t v e = ground arith

pub current :
    (ctx : LoaderContext) (t : ℕ) (block : BranchBlock)
    → get_elem? ctx.frame_csp 0 ≡ some block
    → wasm_loader_pop_frame_ref ctx t ≡ pop_in_block ctx block t
unfolding wasm_loader_pop_frame_ref
current ctx t block found = ground arith

pop_known :
    (ctx : LoaderContext) (t : ℕ) (block : BranchBlock)
    → is_value_type t ≡ true
    → block.stack_cell_num ≤ length ctx.frame_ref
    → Ensures (IsPopped ctx block.stack_cell_num) (pop_in_block ctx block t)
unfolding pop_in_block
pop_known ctx t block value above =
    Ensures-if (leb (length ctx.frame_ref) block.stack_cell_num && block.is_stack_polymorphic)
      (λ _. holds same)
      λ _.
        Ensures-if (t == value_type_void) (λ _. holds same)
          λ _.
            Ensures-then
              (check_stack_pop ctx.frame_ref (length ctx.frame_ref - block.stack_cell_num) t)
              λ e. holds (record {
                frame_ref = (cells_to_pop ctx.frame_ref t, refl);
                frame_csp = refl;
                above = omega (
                  arith,
                  length-drop (cells_to_pop ctx.frame_ref t) ctx.frame_ref,
                  enough ctx.frame_ref (length ctx.frame_ref - block.stack_cell_num) t value e,
                );
              })
  where
    same : IsPopped ctx block.stack_cell_num ctx
    same = record { frame_ref = (0, refl); frame_csp = refl; above = above }

-- Where the stack is not below the base of the current block, a pop of a value type takes cells
-- off the top only, never those of an enclosing block, and leaves the blocks alone.
pub wasm_loader_pop_frame_ref-IsAbove :
    (ctx : LoaderContext) (t : ℕ) (block : BranchBlock) (c : LoaderContext)
    → is_value_type t ≡ true
    → get_elem? ctx.frame_csp 0 ≡ some block
    → block.stack_cell_num ≤ length ctx.frame_ref
    → wasm_loader_pop_frame_ref ctx t ≡ ok c
    → IsPopped ctx block.stack_cell_num c
wasm_loader_pop_frame_ref-IsAbove ctx t block c value found above e =
    Ensures-ok (pop_known ctx t block value above) (sym (current ctx t block found) ∙ e)

-- The pop of what has been pushed.
top_replicated : (n t : ℕ) (ref : List ℕ) → top_cells n t (replicate n t ++ ref) ≡ ok tt
unfolding top_cells
top_replicated zero t ref = refl
top_replicated (suc n) t ref = ground (arith, top_replicated n t ref)

same_cells :
    (t : ℕ) (ref : List ℕ)
    → is_value_type t ≡ true
    → (cells_to_pop (replicate (wasm_value_type_cell_num t) t ++ ref) t
        ≡ wasm_value_type_cell_num t)
      × (any_on_top (replicate (wasm_value_type_cell_num t) t ++ ref) ≡ false)
unfolding cells_to_pop any_on_top is_value_type is_32bit_type wasm_value_type_cell_num
    wasm_value_type_size
same_cells t ref v = ground arith

checked :
    (t avail : ℕ) (ref : List ℕ)
    → is_value_type t ≡ true
    → wasm_value_type_cell_num t ≤ avail
    → check_stack_pop (replicate (wasm_value_type_cell_num t) t ++ ref) avail t ≡ ok tt
unfolding check_stack_pop check_stack_top_values
checked t avail ref v h =
    ground (arith, top_replicated (wasm_value_type_cell_num t) t ref, (same_cells t ref v).1)

pub some_cells : (t : ℕ) → is_value_type t ≡ true → 1 ≤ wasm_value_type_cell_num t
unfolding is_value_type wasm_value_type_cell_num wasm_value_type_size
some_cells t v = ground arith

pub not_void : (t : ℕ) → is_value_type t ≡ true → (t == value_type_void) ≡ false
unfolding is_value_type
not_void t v = ground arith

pub dropped :
    (t : ℕ) (whole ref : List ℕ)
    → is_value_type t ≡ true
    → whole ≡ replicate (wasm_value_type_cell_num t) t ++ ref
    → drop (cells_to_pop whole t) whole ≡ ref
dropped t whole ref v e =
    let cells = replicate (wasm_value_type_cell_num t) t in
    let count : cells_to_pop whole t ≡ length cells =
      ap (λ l. cells_to_pop l t) e
      ∙ (same_cells t ref v).0
      ∙ sym (length-replicate (wasm_value_type_cell_num t) t) in
    ap (λ n. drop n whole) count ∙ ap (λ l. drop (length cells) l) e ∙ drop-append_length cells ref

longer :
    (t : ℕ) (whole ref : List ℕ)
    → is_value_type t ≡ true
    → whole ≡ replicate (wasm_value_type_cell_num t) t ++ ref
    → (length whole ≡ wasm_value_type_cell_num t + length ref) × (1 ≤ wasm_value_type_cell_num t)
longer t whole ref v e = (
  ap length e
      ∙ length-append (replicate (wasm_value_type_cell_num t) t) ref
      ∙ ap (λ n. n + length ref) (length-replicate (wasm_value_type_cell_num t) t),
  some_cells t v,
)

pub pop_pushed :
    (c : LoaderContext) (block : BranchBlock) (t : ℕ) (ref : List ℕ)
    → is_value_type t ≡ true
    → block.stack_cell_num ≤ length ref
    → c.frame_ref ≡ replicate (wasm_value_type_cell_num t) t ++ ref
    → pop_in_block c block t
      ≡ ok (record c { frame_ref = drop (cells_to_pop c.frame_ref t) c.frame_ref })
unfolding pop_in_block
pop_pushed c block t ref v above e =
    let (size, present) = longer t c.frame_ref ref v e in
    let avail = length c.frame_ref - block.stack_cell_num in
    let full : wasm_value_type_cell_num t ≤ avail = omega arith in
    let fine : check_stack_pop c.frame_ref avail t ≡ ok tt =
      ap (λ l. check_stack_pop l avail t) e ∙ checked t avail ref v full in
    let some_there : leb (length c.frame_ref) block.stack_cell_num ≡ false = ground arith in
    let value : (t == value_type_void) ≡ false = not_void t v in rw (some_there, value, fine)

-- What is pushed can be popped: a value of a value type that goes on the stack, at or above the
-- base of the current block and within 65535 cells, comes off it again, and the operands and the
-- blocks are as they were.
pub push-pop_frame_ref :
    (grow : ℕ → Bool) (ctx : LoaderContext) (t : ℕ) (block : BranchBlock) (c : LoaderContext)
    → is_value_type t ≡ true
    → ctx.max_stack_cell_num ≤ 0xFFFF
    → get_elem? ctx.frame_csp 0 ≡ some block
    → block.stack_cell_num ≤ length ctx.frame_ref
    → wasm_loader_push_frame_ref grow ctx t ≡ ok c
    → (c' : LoaderContext) × (wasm_loader_pop_frame_ref c t ≡ ok c')
      × (c'.frame_ref ≡ ctx.frame_ref)
      × (c'.frame_csp ≡ ctx.frame_csp)
push-pop_frame_ref grow ctx t block c v bounded found above e =
    let (out, height) = wasm_loader_push_frame_ref-IsPushed grow ctx t c v bounded e in
    (
      record c { frame_ref = drop (cells_to_pop c.frame_ref t) c.frame_ref },
      current c t block (ap (λ l. get_elem? l 0) out.frame_csp ∙ found)
          ∙ pop_pushed c block t ctx.frame_ref v above out.frame_ref,
      dropped t c.frame_ref ctx.frame_ref v out.frame_ref,
      out.frame_csp,
    )
