-- ===== src/Frames/Taken.antt =====
-- The cases of a pop in the current block (`wasm_loader_pop_frame_ref` of
-- core/iwasm/common/wasm_loader.c).
use wasm2native.Common.{
  ℕ, suc, ◌+◌, ◌-◌, ◌≤◌, ◌≡◌, inl, inr, Bool-cases, ◌∙◌, ap, true, false, ◌&&◌, List, ◌∷◌, ◌++◌,
  arith, length, drop, replicate, leb, ltb, ◌==◌, length-append, length-replicate,
}
use wasm2native.Common.Outcome.{LoadError, ok, err, expect_other_type, stack_was_empty}
use wasm2native.Loader.{is_value_type}
use wasm2native.Operands.{
  LoaderContext, BranchBlock, top_cells, check_stack_top_values, any_on_top, check_stack_pop,
  cells_to_pop, pop_in_block,
}
use wasm2native.Operands.Popped.{not_void, some_cells}
use wasm2native.Wasm.{value_type_void, value_type_any, wasm_value_type_cell_num}

-- A value of another type is on top.
other_on_top :
    (v t avail n : ℕ) (rest : List ℕ)
    → is_value_type v ≡ true
    → wasm_value_type_cell_num t ≡ suc n
    → (v == t) ≡ false
    → (e : LoadError) × (check_stack_pop (v ∷ rest) avail t ≡ err e)
unfolding check_stack_pop check_stack_top_values top_cells any_on_top is_value_type
other_on_top v t avail n rest hv many other = elim (Bool-cases (ltb avail (suc n))) [
  | inl short ↦ (stack_was_empty, ground (arith, many))
  | inr enough ↦ (expect_other_type, ground (arith, many))
]

none_left :
    (ref : List ℕ) (t n : ℕ)
    → wasm_value_type_cell_num t ≡ suc n
    → check_stack_pop ref 0 t ≡ err stack_was_empty
unfolding check_stack_pop check_stack_top_values
none_left ref t n many = ground (arith, many)

pub cells_suc : (t : ℕ) → is_value_type t ≡ true → (n : ℕ) × (wasm_value_type_cell_num t ≡ suc n)
cells_suc t v = (wasm_value_type_cell_num t - 1, omega (arith, some_cells t v))

-- The four cases of a pop in the current block.
module _ (ctx : LoaderContext) (block : BranchBlock) (t : ℕ)
    (void : (t == value_type_void) ≡ false) where
  pub pop_idle :
      leb (length ctx.frame_ref) block.stack_cell_num ≡ true
      → block.is_stack_polymorphic ≡ true
      → pop_in_block ctx block t ≡ ok ctx
  unfolding pop_in_block
  pop_idle empty poly = rw (empty, poly)

  pop_failing :
      (leb (length ctx.frame_ref) block.stack_cell_num && block.is_stack_polymorphic) ≡ false
      → (e : LoadError)
      → check_stack_pop ctx.frame_ref (length ctx.frame_ref - block.stack_cell_num) t ≡ err e
      → pop_in_block ctx block t ≡ err e
  unfolding pop_in_block
  pop_failing there e fails = rw (there, void, fails)

  pop_passing :
      (leb (length ctx.frame_ref) block.stack_cell_num && block.is_stack_polymorphic) ≡ false
      → (rest : List ℕ)
      → check_stack_pop ctx.frame_ref (length ctx.frame_ref - block.stack_cell_num) t ≡ ok tt
      → drop (cells_to_pop ctx.frame_ref t) ctx.frame_ref ≡ rest
      → pop_in_block ctx block t ≡ ok (record ctx { frame_ref = rest })
  unfolding pop_in_block
  pop_passing there rest passes left = rw (there, void, passes, left)

-- A value of any type stands for a value of every type.
any_passes : (rest : List ℕ) (t n : ℕ) → check_stack_pop (value_type_any ∷ rest) (suc n) t ≡ ok tt
unfolding check_stack_pop any_on_top
any_passes rest t n = ground arith

any_cell :
    (rest : List ℕ) (t : ℕ)
    → drop (cells_to_pop (value_type_any ∷ rest) t) (value_type_any ∷ rest) ≡ rest
unfolding cells_to_pop any_on_top
any_cell rest t = ground arith

pub pop_any :
    (ctx : LoaderContext) (block : BranchBlock) (t : ℕ) (rest : List ℕ)
    → (t == value_type_void) ≡ false
    → ctx.frame_ref ≡ value_type_any ∷ rest
    → block.stack_cell_num ≡ length rest
    → pop_in_block ctx block t ≡ ok (record ctx { frame_ref = rest })
pop_any ctx block t rest void ref base =
    let size : length ctx.frame_ref ≡ suc (length rest) = ap length ref in
    pop_passing ctx block t void (ground arith) rest
      (ap (λ l. check_stack_pop l (length ctx.frame_ref - block.stack_cell_num) t) ref
        ∙ ap (λ n. check_stack_pop (value_type_any ∷ rest) n t) (omega arith)
        ∙ any_passes rest t 0)
      (ap (λ l. drop (cells_to_pop l t) l) ref ∙ any_cell rest t)

length_cells :
    (t : ℕ) (rest : List ℕ)
    → length (replicate (wasm_value_type_cell_num t) t ++ rest)
      ≡ wasm_value_type_cell_num t + length rest
length_cells t rest =
    length-append (replicate (wasm_value_type_cell_num t) t) rest
    ∙ ap (λ n. n + length rest) (length-replicate (wasm_value_type_cell_num t) t)

-- Another value's cells are no value of the type.
pub pop_other :
    (ctx : LoaderContext) (block : BranchBlock) (v t : ℕ) (rest : List ℕ)
    → is_value_type v ≡ true
    → is_value_type t ≡ true
    → (v == t) ≡ false
    → ctx.frame_ref ≡ replicate (wasm_value_type_cell_num v) v ++ rest
    → block.stack_cell_num ≤ length rest
    → (e : LoadError) × (pop_in_block ctx block t ≡ err e)
pop_other ctx block v t rest hv ht other ref base =
    let (m, cells) = cells_suc v hv in
    let (n, many) = cells_suc t ht in
    let size : length ctx.frame_ref ≡ wasm_value_type_cell_num v + length rest =
      ap length ref ∙ length_cells v rest in
    let avail = length ctx.frame_ref - block.stack_cell_num in
    let (e, fails) = other_on_top v t avail n (replicate m v ++ rest) hv many other in
    (
      e,
      pop_failing ctx block t (not_void t ht) (ground arith) e (
          ap (λ l. check_stack_pop l avail t) (ref ∙ ap (λ k. replicate k v ++ rest) cells)
          ∙ fails),
    )

pub pop_empty :
    (ctx : LoaderContext) (block : BranchBlock) (t : ℕ)
    → is_value_type t ≡ true
    → block.stack_cell_num ≡ length ctx.frame_ref
    → block.is_stack_polymorphic ≡ false
    → pop_in_block ctx block t ≡ err stack_was_empty
pop_empty ctx block t value base strict =
    let (n, many) = cells_suc t value in
    pop_failing ctx block t (not_void t value) (ground arith) stack_was_empty
      (ap (λ k. check_stack_pop ctx.frame_ref k t) (omega arith) ∙ none_left ctx.frame_ref t n many)
