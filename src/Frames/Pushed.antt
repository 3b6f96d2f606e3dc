-- ===== src/Frames/Pushed.antt =====
-- Pushes of the validator (`wasm_loader_push_frame_ref` of core/iwasm/common/wasm_loader.c) on the
-- current block.
use mathlib.Core.List.{append_assoc}
use wasm2native.Branches.{push_types}
use wasm2native.Common.{ℕ, ◌≡◌, sym, ◌∙◌, ap, Bool, true, List, [], ◌∷◌, ◌++◌, arith, replicate}
use wasm2native.Common.Ensures.{Ensures, holds, Ensures-bind, Ensures-ok, Ensures-mono}
use wasm2native.Frames.{
  Frame, cells_of, any_cells, frame_refs, frame_blocks, AreFrames, IsStacked, push_all,
}
use wasm2native.Frames.Popped.{all_value_types-head}
use wasm2native.Loader.{is_value_type}
use wasm2native.Operands.{LoaderContext, wasm_loader_push_frame_ref}
use wasm2native.Operands.Pushed.{push_known}
use wasm2native.Types.{all_value_types}
use wasm2native.Wasm.{wasm_value_type_cell_num}

all_value_types-cons :
    (t : ℕ) (ts : List ℕ)
    → is_value_type t ≡ true
    → all_value_types ts ≡ true
    → all_value_types (t ∷ ts) ≡ true
unfolding all_value_types
all_value_types-cons t ts h k = ground arith

-- The top frame with other operands.
abbrev pub with_values : Frame → List ℕ → Frame
with_values f values = record { values = values; has_any = f.has_any; block = f.block }

module _ (grow : ℕ → Bool) (fs : List Frame) where
  pub push-IsStacked :
      (f : Frame) (ctx : LoaderContext) (t : ℕ)
      → is_value_type t ≡ true
      → IsStacked (f ∷ fs) ctx
      → Ensures
          (IsStacked (with_values f (t ∷ f.values) ∷ fs))
          (wasm_loader_push_frame_ref grow ctx t)
  unfolding frame_refs cells_of AreFrames frame_blocks
  push-IsStacked f ctx t value st = Ensures-mono (push_known grow ctx t value) λ c h. record {
    refs =
        h.0.frame_ref
        ∙ ap (λ l. replicate (wasm_value_type_cell_num t) t ++ l) st.refs
        ∙ sym (
            append_assoc (replicate (wasm_value_type_cell_num t) t) (cells_of f.values)
              (any_cells f.has_any ++ frame_refs fs));
    csp = h.0.frame_csp ∙ st.csp;
    frames = (
      record {
        values = all_value_types-cons t f.values value st.frames.0.values;
        any = st.frames.0.any;
        base = st.frames.0.base;
        params = st.frames.0.params;
        results = st.frames.0.results;
      },
      st.frames.1,
    );
    height = h.1;
    cells_bounded = h.0.bounded st.cells_bounded;
    blocks_bounded = omega (arith, h.0.blocks_kept, st.blocks_bounded);
  }

  pub push_types-IsStacked :
      (ts : List ℕ) (f : Frame) (ctx : LoaderContext)
      → all_value_types ts ≡ true
      → IsStacked (f ∷ fs) ctx
      → Ensures (IsStacked (with_values f (push_all ts f.values) ∷ fs)) (push_types grow ctx ts)
  unfolding push_types push_all
  push_types-IsStacked [] f ctx all st = holds st
  push_types-IsStacked (t ∷ ts) f ctx all st =
      let (value, rest) = all_value_types-head t ts all in
      Ensures-bind (wasm_loader_push_frame_ref grow ctx t) λ c e.
        push_types-IsStacked ts (with_values f (t ∷ f.values)) c rest
          (Ensures-ok (push-IsStacked f ctx t value st) e)
