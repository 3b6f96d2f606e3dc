-- ===== src/Frames/Opened.antt =====
-- The operations on the stacks keep the invariant of an open block: what the instructions of
-- `wasm_loader_prepare_bytecode` (core/iwasm/common/wasm_loader.c) are made of.
use wasm2native.Branches.{pop_types, push_types, reset_stack}
use wasm2native.Common.{ℕ, ◌≡◌, refl, Bool, true, List, ◌∷◌}
use wasm2native.Common.Ensures.{Ensures, Ensures-bind, Ensures-ok, Ensures-mono}
use wasm2native.Frames.{IsWithin, IsOpen}
use wasm2native.Frames.Entered.{blocks_noted, reset_frame, reset_stack-IsStacked}
use wasm2native.Frames.Within.{
  IsWithin-IsOpen, IsWithin-pop, IsWithin-push, IsWithin-push_pop, IsWithin-pop_types,
  IsWithin-push_types,
}
use wasm2native.Loader.{is_value_type}
use wasm2native.Operands.{
  LoaderContext, wasm_loader_pop_frame_ref, wasm_loader_push_frame_ref,
  wasm_loader_push_pop_frame_ref,
}
use wasm2native.Program.{exchange}
use wasm2native.Types.{all_value_types}
use wasm2native.Wasm.{BlockType}

-- RESET_STACK of an open block.
pub reset_stack-IsOpen :
    (root : BlockType) (ctx : LoaderContext) (flag : Bool)
    → IsOpen root ctx
    → Ensures (IsOpen root) (reset_stack ctx flag)
unfolding IsOpen
reset_stack-IsOpen root ctx flag (f, fs, st, bottom) =
    Ensures-mono (reset_stack-IsStacked f fs ctx flag st) λ c h. (reset_frame f flag, fs, h, bottom)

-- What the stacks do not show may change.
pub noted-IsOpen :
    (root : BlockType) (ctx c : LoaderContext)
    → c.frame_ref ≡ ctx.frame_ref
    → c.frame_csp ≡ ctx.frame_csp
    → c.max_stack_cell_num ≡ ctx.max_stack_cell_num
    → c.max_csp_num ≡ ctx.max_csp_num
    → IsOpen root ctx
    → IsOpen root c
unfolding IsOpen
noted-IsOpen root ctx c ref csp cells blocks (f, fs, st, bottom) =
    (f, fs, blocks_noted (f ∷ fs) ctx c ref csp cells blocks st, bottom)

pub pop-IsOpen :
    (root : BlockType) (ctx : LoaderContext) (type : ℕ)
    → is_value_type type ≡ true
    → IsOpen root ctx
    → Ensures (IsOpen root) (wasm_loader_pop_frame_ref ctx type)
unfolding IsOpen IsWithin
pop-IsOpen root ctx type value (f, fs, st, bottom) =
    Ensures-mono (IsWithin-pop fs f.block ctx type value (f, st, refl))
      λ c h. IsWithin-IsOpen root fs f.block c bottom h

pub pop_types-IsOpen :
    (root : BlockType) (ctx : LoaderContext) (types : List ℕ)
    → all_value_types types ≡ true
    → IsOpen root ctx
    → Ensures (IsOpen root) (pop_types ctx types)
unfolding IsOpen IsWithin
pop_types-IsOpen root ctx types all (f, fs, st, bottom) =
    Ensures-mono (IsWithin-pop_types fs f.block ctx types all (f, st, refl))
      λ c h. IsWithin-IsOpen root fs f.block c bottom h

pub push_types-IsOpen :
    (grow : ℕ → Bool) (root : BlockType) (ctx : LoaderContext) (types : List ℕ)
    → all_value_types types ≡ true
    → IsOpen root ctx
    → Ensures (IsOpen root) (push_types grow ctx types)
unfolding IsOpen IsWithin
push_types-IsOpen grow root ctx types all (f, fs, st, bottom) =
    Ensures-mono (IsWithin-push_types fs f.block grow ctx types all (f, st, refl))
      λ c h. IsWithin-IsOpen root fs f.block c bottom h

pub push-IsOpen :
    (grow : ℕ → Bool) (root : BlockType) (ctx : LoaderContext) (type : ℕ)
    → is_value_type type ≡ true
    → IsOpen root ctx
    → Ensures (IsOpen root) (wasm_loader_push_frame_ref grow ctx type)
unfolding IsOpen IsWithin
push-IsOpen grow root ctx type value (f, fs, st, bottom) =
    Ensures-mono (IsWithin-push fs f.block grow ctx type value (f, st, refl))
      λ c h. IsWithin-IsOpen root fs f.block c bottom h

pub exchange-IsOpen :
    (grow : ℕ → Bool) (root : BlockType) (ctx : LoaderContext) (pops pushes : List ℕ)
    → all_value_types pops ≡ true
    → all_value_types pushes ≡ true
    → IsOpen root ctx
    → Ensures (IsOpen root) (exchange grow ctx pops pushes)
unfolding exchange
exchange-IsOpen grow root ctx pops pushes pop push o = Ensures-bind (pop_types ctx pops) λ c e.
    push_types-IsOpen grow root c pushes push (Ensures-ok (pop_types-IsOpen root ctx pops pop o) e)

pub push_pop-IsOpen :
    (grow : ℕ → Bool) (root : BlockType) (ctx : LoaderContext) (n type_push type_pop : ℕ)
    → is_value_type type_push ≡ true
    → is_value_type type_pop ≡ true
    → IsOpen root ctx
    → Ensures (IsOpen root) (wasm_loader_push_pop_frame_ref grow ctx n type_push type_pop)
unfolding IsOpen IsWithin
push_pop-IsOpen grow root ctx n type_push type_pop push pop (f, fs, st, bottom) =
    Ensures-mono (IsWithin-push_pop fs f.block grow ctx n type_push type_pop push pop (f, st, refl))
      λ c h. IsWithin-IsOpen root fs f.block c bottom h
