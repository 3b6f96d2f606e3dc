-- ===== src/Operands/Pushed.antt =====
-- What a push leaves on the validator's stacks (core/iwasm/common/wasm_loader.c,
-- `wasm_loader_push_frame_ref`, `wasm_loader_push_frame_csp`).
use mathlib.Core.Path.{subst}
use wasm2native.Common.{
  ℕ, ◌+◌, ◌≤◌, ◌≡◌, refl, sym, ◌∙◌, ap, Bool, true, false, ◌||◌, List, [], ◌∷◌, ◌++◌, arith, length,
  replicate, ltb, leb, ◌==◌, if◌then◌else◌,
}
use wasm2native.Common.Ensures.{
  Ensures, holds, Ensures-bind, Ensures-reject, Ensures-then, Ensures-ok, Ensures-if, Ensures-mono,
}
use wasm2native.Common.Outcome.{ok, ◌>>=◌}
use wasm2native.Loader.{is_32bit_type, is_value_type}
use wasm2native.Operands.{
  LoaderContext, memory_realloc, push_cell, note_height, push_upper_cells,
  wasm_loader_push_frame_ref,
}
use wasm2native.Wasm.{
  value_type_void, value_type_any, value_type_v128, wasm_value_type_cell_num, wasm_value_type_size,
}

-- The context is as it was, but for cells on top of its stack.
pub record IsPushed (ctx : LoaderContext) (cells : List ℕ) (c : LoaderContext) : Type 0 where
  pub frame_ref : c.frame_ref ≡ cells ++ ctx.frame_ref
  pub frame_csp : c.frame_csp ≡ ctx.frame_csp
  pub blocks_kept : c.max_csp_num ≡ ctx.max_csp_num
  pub max_kept : ctx.max_stack_cell_num ≤ c.max_stack_cell_num
  pub bounded : ctx.max_stack_cell_num ≤ 0xFFFF → c.max_stack_cell_num ≤ 0xFFFF

pub cell_pushed :
    (grow : ℕ → Bool) (type : ℕ) (ctx : LoaderContext)
    → Ensures
        (λ (c : LoaderContext).
          (c.frame_ref ≡ type ∷ ctx.frame_ref)
          × (c.frame_csp ≡ ctx.frame_csp)
          × (c.max_stack_cell_num ≡ ctx.max_stack_cell_num)
          × (c.max_csp_num ≡ ctx.max_csp_num))
        (push_cell grow type ctx)
unfolding push_cell
cell_pushed grow type ctx =
    Ensures-if (leb ctx.frame_ref_size (length ctx.frame_ref))
      (λ _.
        Ensures-then (memory_realloc grow (ctx.frame_ref_size + 16))
          λ _. holds (refl, refl, refl, refl))
      (λ _. holds (refl, refl, refl, refl))

pub height_noted :
    (ctx : LoaderContext)
    → Ensures
        (λ (c : LoaderContext). IsPushed ctx [] c × (length c.frame_ref ≤ c.max_stack_cell_num))
        (note_height ctx)
unfolding note_height
height_noted ctx =
    Ensures-if (ltb ctx.max_stack_cell_num (length ctx.frame_ref))
      (λ higher. Ensures-reject (ltb 0xFFFF (length ctx.frame_ref)) _ λ small. holds (
        record {
          frame_ref = refl;
          frame_csp = refl;
          blocks_kept = refl;
          max_kept = ground arith;
          bounded = λ _. ground arith;
        },
        omega arith,
      ))
      (λ low. holds (
        record {
          frame_ref = refl;
          frame_csp = refl;
          blocks_kept = refl;
          max_kept = omega arith;
          bounded = λ h. h;
        },
        ground arith,
      ))

one_cell :
    (t : ℕ)
    → is_value_type t ≡ true
    → (is_32bit_type t || t == value_type_any) ≡ true
    → wasm_value_type_cell_num t ≡ 1
unfolding is_value_type is_32bit_type wasm_value_type_cell_num wasm_value_type_size
one_cell t v h = ground arith

four_cells : (t : ℕ) → (t == value_type_v128) ≡ true → wasm_value_type_cell_num t ≡ 4
unfolding wasm_value_type_cell_num wasm_value_type_size
four_cells t h = ground arith

two_cells :
    (t : ℕ)
    → is_value_type t ≡ true
    → (is_32bit_type t || t == value_type_any) ≡ false
    → (t == value_type_v128) ≡ false
    → wasm_value_type_cell_num t ≡ 2
unfolding is_value_type is_32bit_type wasm_value_type_cell_num wasm_value_type_size
two_cells t v h k = ground arith

not_void : (t : ℕ) → is_value_type t ≡ true → (t == value_type_void) ≡ false
unfolding is_value_type
not_void t v = ground arith

-- From a push of cells and the note of the height.
pushed :
    (ctx c c' : LoaderContext) (t n : ℕ)
    → c.frame_ref ≡ replicate n t ++ ctx.frame_ref
    → c.frame_csp ≡ ctx.frame_csp
    → c.max_stack_cell_num ≡ ctx.max_stack_cell_num
    → c.max_csp_num ≡ ctx.max_csp_num
    → IsPushed c [] c'
    → IsPushed ctx (replicate n t) c'
pushed ctx c c' t n ref csp top blocks noted = record {
  frame_ref = noted.frame_ref ∙ ref;
  frame_csp = noted.frame_csp ∙ csp;
  blocks_kept = noted.blocks_kept ∙ blocks;
  max_kept = omega (arith, noted.max_kept);
  bounded = λ h. noted.bounded (omega arith);
}

module _ (grow : ℕ → Bool) (ctx : LoaderContext) (t : ℕ) (value : is_value_type t ≡ true) where
  pub push_known :
      Ensures
        (λ (c : LoaderContext).
          IsPushed ctx (replicate (wasm_value_type_cell_num t) t) c
          × (length c.frame_ref ≤ c.max_stack_cell_num))
        (wasm_loader_push_frame_ref grow ctx t)
  unfolding wasm_loader_push_frame_ref push_upper_cells
  push_known =
      Ensures-if (t == value_type_void) (λ void. absurd (ground (arith, not_void t value)))
        λ _. Ensures-bind (push_cell grow t ctx) λ c1 e1.
          let (r1, b1, m1, k1) = Ensures-ok (cell_pushed grow t ctx) e1 in
          Ensures-if (is_32bit_type t || t == value_type_any)
            (λ narrow. Ensures-mono (height_noted c1) λ c h. (
              subst (λ n. IsPushed ctx (replicate n t) c) (sym (one_cell t value narrow))
                  (pushed ctx c1 c t 1 r1 b1 m1 k1 h.0),
              h.1,
            ))
            λ wide. Ensures-bind (push_cell grow t c1) λ c2 e2.
              let (r2, b2, m2, k2) = Ensures-ok (cell_pushed grow t c1) e2 in
              Ensures-bind
                (if t == value_type_v128
                  then (push_cell grow t c2 >>= λ c. push_cell grow t c)
                  else ok c2)
                λ c3 e3.
                  let (r3, b3, m3, k3) =
                    Ensures-ok
                      (upper c2 (r2 ∙ ap (λ l. t ∷ l) r1) (b2 ∙ b1) (m2 ∙ m1) (k2 ∙ k1) wide) e3 in
                  Ensures-mono (height_noted c3)
                    λ c h. (pushed ctx c3 c t (wasm_value_type_cell_num t) r3 b3 m3 k3 h.0, h.1)
    where
      upper :
          (c2 : LoaderContext)
          → c2.frame_ref ≡ t ∷ t ∷ ctx.frame_ref
          → c2.frame_csp ≡ ctx.frame_csp
          → c2.max_stack_cell_num ≡ ctx.max_stack_cell_num
          → c2.max_csp_num ≡ ctx.max_csp_num
          → (is_32bit_type t || t == value_type_any) ≡ false
          → Ensures
              (λ (c : LoaderContext).
                (c.frame_ref ≡ replicate (wasm_value_type_cell_num t) t ++ ctx.frame_ref)
                × (c.frame_csp ≡ ctx.frame_csp)
                × (c.max_stack_cell_num ≡ ctx.max_stack_cell_num)
                × (c.max_csp_num ≡ ctx.max_csp_num))
              (if t == value_type_v128
                then (push_cell grow t c2 >>= λ c. push_cell grow t c)
                else ok c2)
      upper c2 r b m k wide =
          Ensures-if (t == value_type_v128)
            (λ four. Ensures-bind (push_cell grow t c2) λ c3 e3.
              let (r3, b3, m3, k3) = Ensures-ok (cell_pushed grow t c2) e3 in
              Ensures-mono (cell_pushed grow t c3) λ c h. (
                h.0
                    ∙ ap (λ l. t ∷ l) (r3 ∙ ap (λ l. t ∷ l) r)
                    ∙ ap (λ n. replicate n t ++ ctx.frame_ref) (sym (four_cells t four)),
                h.1 ∙ b3 ∙ b,
                h.2 ∙ m3 ∙ m,
                h.3 ∙ k3 ∙ k,
              ))
            (λ two. holds (
              r ∙ ap (λ n. replicate n t ++ ctx.frame_ref) (sym (two_cells t value wide two)),
              b,
              m,
              k,
            ))

-- A push of a value type, where the maximum so far is at most 65535 cells, puts as many cells of
-- the type on the stack as the type has, changes no cell below and no block, and leaves at most
-- 65535 cells; the maximum does not shrink.
pub wasm_loader_push_frame_ref-IsPushed :
    (grow : ℕ → Bool) (ctx : LoaderContext) (t : ℕ) (c : LoaderContext)
    → is_value_type t ≡ true
    → ctx.max_stack_cell_num ≤ 0xFFFF
    → wasm_loader_push_frame_ref grow ctx t ≡ ok c
    → IsPushed ctx (replicate (wasm_value_type_cell_num t) t) c × (length c.frame_ref ≤ 0xFFFF)
wasm_loader_push_frame_ref-IsPushed grow ctx t c value h e =
    let (out, height) = Ensures-ok (push_known grow ctx t value) e in
    (out, omega (arith, out.bounded h))
