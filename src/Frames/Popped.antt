-- ===== src/Frames/Popped.antt =====
-- A pop of the validator (`wasm_loader_pop_frame_ref` of core/iwasm/common/wasm_loader.c) against the
-- pop of the specification.
use mathlib.Core.Path.{subst}
use mathlib.Core.List.{append_assoc}
use wasm2native.Common.{
  ℕ, ◌≤◌, ◌≡◌, ==_iff, inl, inr, Bool-cases, refl, sym, ◌∙◌, ap, Bool, true, false, Option, none,
  some, List, [], ◌∷◌, ◌++◌, arith, length, get_elem?, drop, replicate, ◌==◌, length-append,
  length-drop,
}
use wasm2native.Common.Ensures.{Ensures, holds, refused}
use wasm2native.Common.Outcome.{Result, LoadError, ok, err, stack_was_empty}
use wasm2native.Frames.{
  Frame, cells_of, any_cells, frame_refs, frame_blocks, AreFrames, IsStacked, IsWithin, pop_from,
  pop_value, Agrees, done, failed, Follows,
}
use wasm2native.Loader.{is_value_type}
use wasm2native.Operands.{
  LoaderContext, BranchBlock, cells_to_pop, pop_in_block, wasm_loader_pop_frame_ref,
}
use wasm2native.Operands.Popped.{pop_pushed, current, not_void, dropped}
use wasm2native.Types.{all_value_types}
use wasm2native.Wasm.{wasm_value_type_cell_num}
use wasm2native.Frames.Taken.{pop_idle, pop_any, pop_other, pop_empty}

pub agree :
    (fs : List Frame) {o : Option Frame} {r : Result LoaderContext} (f : Frame) (c : LoaderContext)
    → o ≡ some f
    → r ≡ ok c
    → IsStacked (f ∷ fs) c
    → Agrees fs o r
agree fs {o} {r} f c e1 e2 st =
    subst (λ o. Agrees fs o r) (sym e1) (subst (λ r. Agrees fs (some f) r) (sym e2) (done st))

pub disagree :
    (fs : List Frame) {o : Option Frame} {r : Result LoaderContext} (e : LoadError)
    → o ≡ none
    → r ≡ err e
    → Agrees fs o r
disagree fs {o} {r} e e1 e2 =
    subst (λ o. Agrees fs o r) (sym e1) (subst (λ r. Agrees fs none r) (sym e2) failed)

pub all_value_types-head :
    (t : ℕ) (ts : List ℕ)
    → all_value_types (t ∷ ts) ≡ true
    → (is_value_type t ≡ true) × (all_value_types ts ≡ true)
unfolding all_value_types
all_value_types-head t ts h = ground arith

-- Fewer cells of the same frame.
pub fewer_cells :
    (values values' : List ℕ) (has_any has_any' : Bool) (block : BranchBlock) (fs : List Frame)
    (ctx : LoaderContext) (rest : List ℕ)
    → IsStacked (record { values = values; has_any = has_any; block = block } ∷ fs) ctx
    → all_value_types values' ≡ true
    → (has_any' ≡ true → has_any ≡ true)
    → rest ≡ cells_of values' ++ (any_cells has_any' ++ frame_refs fs)
    → length rest ≤ length ctx.frame_ref
    → IsStacked
        (record { values = values'; has_any = has_any'; block = block } ∷ fs)
        (record ctx { frame_ref = rest })
unfolding frame_refs AreFrames frame_blocks
fewer_cells values values' has_any has_any' block fs ctx rest st all still e less = record {
  refs = e;
  csp = st.csp;
  frames = (
    record {
      values = all;
      any = λ h. st.frames.0.any (still h);
      base = st.frames.0.base;
      params = st.frames.0.params;
      results = st.frames.0.results;
    },
    st.frames.1,
  );
  height = omega (arith, st.height);
  cells_bounded = st.cells_bounded;
  blocks_bounded = st.blocks_bounded;
}

pub below : (xs ys zs : List ℕ) → length zs ≤ length (xs ++ (ys ++ zs))
below xs ys zs = omega (arith, length-append xs (ys ++ zs), length-append ys zs)

pop_from-Agrees :
    (values : List ℕ) (has_any : Bool) (block : BranchBlock) (fs : List Frame) (ctx : LoaderContext)
    (t : ℕ)
    → is_value_type t ≡ true
    → IsStacked (record { values = values; has_any = has_any; block = block } ∷ fs) ctx
    → Agrees fs
        (pop_from values (record { values = values; has_any = has_any; block = block }) t)
        (pop_in_block ctx block t)
unfolding pop_from frame_refs cells_of any_cells AreFrames all_value_types
pop_from-Agrees [] false block fs ctx t value st =
    let base : block.stack_cell_num ≡ length ctx.frame_ref =
      st.frames.0.base ∙ ap length (sym st.refs) in
    elim (Bool-cases block.is_stack_polymorphic) [
      | inl poly ↦
          agree fs (record { values = []; has_any = false; block = block }) ctx (rw poly)
            (pop_idle ctx block t (not_void t value) (ground arith) poly) st
      | inr strict ↦
          disagree fs stack_was_empty (rw strict) (pop_empty ctx block t value base strict)
    ]
pop_from-Agrees [] true block fs ctx t value st =
    agree fs (record { values = []; has_any = false; block = block })
      (record ctx { frame_ref = frame_refs fs }) (rw (st.frames.0.any refl))
      (pop_any ctx block t (frame_refs fs) (not_void t value) st.refs st.frames.0.base)
      (fewer_cells [] [] true false block fs ctx (frame_refs fs) st refl (λ h. refl) refl
        (omega (arith, ap length st.refs)))
pop_from-Agrees (v ∷ vs) any block fs ctx t value st =
    let rest = cells_of vs ++ (any_cells any ++ frame_refs fs) in
    let (hv, hvs) = all_value_types-head v vs st.frames.0.values in
    let ref : ctx.frame_ref ≡ replicate (wasm_value_type_cell_num v) v ++ rest =
      st.refs
      ∙ append_assoc (replicate (wasm_value_type_cell_num v) v) (cells_of vs)
          (any_cells any ++ frame_refs fs) in
    let base : block.stack_cell_num ≤ length rest =
      omega (arith, st.frames.0.base, below (cells_of vs) (any_cells any) (frame_refs fs)) in
    elim (Bool-cases (v == t)) [
      | inl same ↦
          let ref_t : ctx.frame_ref ≡ replicate (wasm_value_type_cell_num t) t ++ rest =
            ref
            ∙ ap (λ k. replicate (wasm_value_type_cell_num k) k ++ rest) ((==_iff v t).0 same) in
          agree fs (record { values = vs; has_any = any; block = block })
            (record ctx { frame_ref = drop (cells_to_pop ctx.frame_ref t) ctx.frame_ref }) (rw same)
            (pop_pushed ctx block t rest value base ref_t)
            (fewer_cells (v ∷ vs) vs any any block fs ctx _ st hvs (λ h. h)
              (dropped t ctx.frame_ref rest value ref_t)
              (omega (arith, length-drop (cells_to_pop ctx.frame_ref t) ctx.frame_ref)))
      | inr other ↦
          let (e, fails) = pop_other ctx block v t rest hv value other ref base in
          disagree fs e (rw other) fails
    ]

-- On a context that stands for open blocks, a pop of a value type is the pop of the specification: the
-- code refuses exactly what that refuses, and what the code leaves stands for what that leaves. In
-- particular a value on top is popped only at its own type, and an empty block only gives a value
-- where its code cannot be reached.
pub wasm_loader_pop_frame_ref-Agrees :
    (f : Frame) (fs : List Frame) (ctx : LoaderContext) (type : ℕ)
    → is_value_type type ≡ true
    → IsStacked (f ∷ fs) ctx
    → Agrees fs (pop_value f type) (wasm_loader_pop_frame_ref ctx type)
unfolding pop_value frame_blocks
wasm_loader_pop_frame_ref-Agrees f fs ctx type value st =
    subst (λ r. Agrees fs (pop_from f.values f type) r)
      (sym (current ctx type f.block (ap (λ l. get_elem? l 0) st.csp)))
      (pop_from-Agrees f.values f.has_any f.block fs ctx type value st)

-- The block of the frame stays.
pub pop_from-block :
    (values : List ℕ) (f : Frame) (type : ℕ) (g : Frame)
    → pop_from values f type ≡ some g
    → g.block ≡ f.block
unfolding pop_from
pop_from-block [] f type g e = ground arith
pop_from-block (v ∷ vs) f type g e = ground arith

pub Agrees-Follows :
    (fs : List Frame) {o : Option Frame} {r : Result LoaderContext}
    → Agrees fs o r
    → Ensures (Follows fs o) r
unfolding Follows
Agrees-Follows fs (done {f} st) = holds (f, refl, st)
Agrees-Follows fs failed = refused

pub Agrees-IsWithin :
    (fs : List Frame) (block : BranchBlock) {o : Option Frame} {r : Result LoaderContext}
    → Agrees fs o r
    → ((g : Frame) → o ≡ some g → g.block ≡ block)
    → Ensures (IsWithin fs block) r
unfolding IsWithin
Agrees-IsWithin fs block (done {f} st) same = holds (f, st, same f refl)
Agrees-IsWithin fs block failed same = refused

pub pop-IsWithin :
    (f : Frame) (fs : List Frame) (ctx : LoaderContext) (type : ℕ)
    → is_value_type type ≡ true
    → IsStacked (f ∷ fs) ctx
    → Ensures (IsWithin fs f.block) (wasm_loader_pop_frame_ref ctx type)
unfolding pop_value
pop-IsWithin f fs ctx type value st =
    Agrees-IsWithin fs f.block (wasm_loader_pop_frame_ref-Agrees f fs ctx type value st)
      (pop_from-block f.values f type)
