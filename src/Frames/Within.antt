-- ===== src/Frames/Within.antt =====
-- Sequences of pushes and pops stay in the current block: the helpers that the instructions of
-- `wasm_loader_prepare_bytecode` (core/iwasm/common/wasm_loader.c) are made of.
use wasm2native.Branches.{pop_types, push_types}
use wasm2native.Common.{ℕ, zero, suc, ◌≡◌, ap, ◌∙◌, Bool, true, ◌&&◌, List, [], ◌∷◌, length, leb}
use wasm2native.Common.Ensures.{Ensures, holds, Ensures-bind, Ensures-ok, Ensures-mono, Ensures-if}
use wasm2native.Control.{pop_params}
use wasm2native.Frames.{Frame, IsWithin, IsOpen, bottom_type, push_all}
use wasm2native.Frames.Popped.{pop-IsWithin, all_value_types-head}
use wasm2native.Frames.Pushed.{with_values, push-IsStacked, push_types-IsStacked}
use wasm2native.Loader.{is_value_type}
use wasm2native.Operands.{
  LoaderContext, BranchBlock, wasm_loader_pop_frame_ref, wasm_loader_push_frame_ref, pop_times,
  wasm_loader_push_pop_frame_ref,
}
use wasm2native.Program.{exchange}
use wasm2native.Types.{all_value_types}
use wasm2native.Wasm.{BlockType}

module _ (fs : List Frame) (block : BranchBlock) where
  pub IsWithin-pop :
      (ctx : LoaderContext) (type : ℕ)
      → is_value_type type ≡ true
      → IsWithin fs block ctx
      → Ensures (IsWithin fs block) (wasm_loader_pop_frame_ref ctx type)
  unfolding IsWithin
  IsWithin-pop ctx type value (f, st, same) =
      Ensures-mono (pop-IsWithin f fs ctx type value st) λ c h. (h.0, h.1, h.2 ∙ same)

  pub IsWithin-push :
      (grow : ℕ → Bool) (ctx : LoaderContext) (type : ℕ)
      → is_value_type type ≡ true
      → IsWithin fs block ctx
      → Ensures (IsWithin fs block) (wasm_loader_push_frame_ref grow ctx type)
  unfolding IsWithin
  IsWithin-push grow ctx type value (f, st, same) =
      Ensures-mono (push-IsStacked grow fs f ctx type value st)
        λ c h. (with_values f (type ∷ f.values), h, same)

  pub IsWithin-push_types :
      (grow : ℕ → Bool) (ctx : LoaderContext) (types : List ℕ)
      → all_value_types types ≡ true
      → IsWithin fs block ctx
      → Ensures (IsWithin fs block) (push_types grow ctx types)
  unfolding IsWithin
  IsWithin-push_types grow ctx types all (f, st, same) =
      Ensures-mono (push_types-IsStacked grow fs types f ctx all st)
        λ c h. (with_values f (push_all types f.values), h, same)

  pub IsWithin-pop_types :
      (ctx : LoaderContext) (types : List ℕ)
      → all_value_types types ≡ true
      → IsWithin fs block ctx
      → Ensures (IsWithin fs block) (pop_types ctx types)
  unfolding pop_types
  IsWithin-pop_types ctx [] all w = holds w
  IsWithin-pop_types ctx (t ∷ ts) all w =
      let (value, rest) = all_value_types-head t ts all in
      Ensures-bind (pop_types ctx ts)
        λ c e. IsWithin-pop c t value (Ensures-ok (IsWithin-pop_types ctx ts rest w) e)

  pub IsWithin-pop_params :
      (ctx : LoaderContext) (cur_block : BranchBlock) (types : List ℕ)
      → all_value_types types ≡ true
      → IsWithin fs block ctx
      → Ensures (IsWithin fs block) (pop_params ctx cur_block types)
  unfolding pop_params
  IsWithin-pop_params ctx cur_block [] all w = holds w
  IsWithin-pop_params ctx cur_block (t ∷ ts) all w =
      let (value, rest) = all_value_types-head t ts all in
      Ensures-bind (pop_params ctx cur_block ts) λ c e.
        let w' = Ensures-ok (IsWithin-pop_params ctx cur_block ts rest w) e in
        Ensures-if
          (leb (length c.frame_ref) cur_block.stack_cell_num && cur_block.is_stack_polymorphic)
          (λ _. holds w') λ _. IsWithin-pop c t value w'

  pub IsWithin-pop_times :
      (n : ℕ) (ctx : LoaderContext) (type : ℕ)
      → is_value_type type ≡ true
      → IsWithin fs block ctx
      → Ensures (IsWithin fs block) (pop_times n ctx type)
  unfolding pop_times
  IsWithin-pop_times zero ctx type value w = holds w
  IsWithin-pop_times (suc n) ctx type value w =
      Ensures-bind (wasm_loader_pop_frame_ref ctx type)
        λ c e. IsWithin-pop_times n c type value (Ensures-ok (IsWithin-pop ctx type value w) e)

  pub IsWithin-push_pop :
      (grow : ℕ → Bool) (ctx : LoaderContext) (n type_push type_pop : ℕ)
      → is_value_type type_push ≡ true
      → is_value_type type_pop ≡ true
      → IsWithin fs block ctx
      → Ensures (IsWithin fs block) (wasm_loader_push_pop_frame_ref grow ctx n type_push type_pop)
  unfolding wasm_loader_push_pop_frame_ref
  IsWithin-push_pop grow ctx n type_push type_pop push pop w =
      Ensures-bind (pop_times n ctx type_pop) λ c e.
        IsWithin-push grow c type_push push (Ensures-ok (IsWithin-pop_times n ctx type_pop pop w) e)

  pub IsWithin-exchange :
      (grow : ℕ → Bool) (ctx : LoaderContext) (pops pushes : List ℕ)
      → all_value_types pops ≡ true
      → all_value_types pushes ≡ true
      → IsWithin fs block ctx
      → Ensures (IsWithin fs block) (exchange grow ctx pops pushes)
  unfolding exchange
  IsWithin-exchange grow ctx pops pushes pop push w = Ensures-bind (pop_types ctx pops) λ c e.
      IsWithin-push_types grow c pushes push (Ensures-ok (IsWithin-pop_types ctx pops pop w) e)

pub IsWithin-IsOpen :
    (root : BlockType) (fs : List Frame) (block : BranchBlock) (c : LoaderContext)
    → bottom_type block.block_type fs ≡ root
    → IsWithin fs block c
    → IsOpen root c
unfolding IsWithin IsOpen
IsWithin-IsOpen root fs block c bottom (f, st, same) =
    (f, fs, st, ap (λ b. bottom_type b.block_type fs) same ∙ bottom)
