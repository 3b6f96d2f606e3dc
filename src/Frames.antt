-- ===== src/Frames.antt =====
-- The validator's stacks as the WebAssembly specification sees them: for each open block the types of its
-- own operands, and how the two arrays of WASMLoaderContext (core/iwasm/common/wasm_loader.c) represent
-- them.
pub mod Taken
pub mod Topped
pub mod Popped
pub mod Pushed
pub mod Within
pub mod Entered
pub mod Settled
pub mod Heights
pub mod Labels
pub mod Branched
pub mod Opened
use wasm2native.Common.{
  ℕ, ◌≤◌, ◌≡◌, Bool, true, false, Option, none, some, List, [], ◌∷◌, ◌++◌, length, replicate, ◌==◌,
  if◌then◌else◌,
}
use wasm2native.Common.Outcome.{Result, ok, err, LoadError}
use wasm2native.Operands.{LoaderContext, BranchBlock}
use wasm2native.Types.{all_value_types}
use wasm2native.Wasm.{
  BlockType, value_type_i32, value_type_any, wasm_value_type_cell_num, block_type_get_param_types,
  block_type_get_result_types,
}

-- The types of a block's operands, the top first; `has_any` says whether a value of any type, which
-- `select` leaves on a polymorphic stack, lies below them.
pub record Frame : Type 0 where
  pub values : List ℕ
  pub has_any : Bool
  pub block : BranchBlock

-- Every value has as many cells as its type.
unfoldable pub cells_of : List ℕ → List ℕ
cells_of [] = []
cells_of (t ∷ ts) = replicate (wasm_value_type_cell_num t) t ++ cells_of ts

unfoldable pub any_cells : Bool → List ℕ
any_cells true = value_type_any ∷ []
any_cells false = []

unfoldable pub frame_refs : List Frame → List ℕ
frame_refs [] = []
frame_refs (f ∷ fs) = cells_of f.values ++ (any_cells f.has_any ++ frame_refs fs)

unfoldable pub frame_blocks : List Frame → List BranchBlock
frame_blocks [] = []
frame_blocks (f ∷ fs) = f.block ∷ frame_blocks fs

-- A frame on top of so many cells.
pub record IsFrame (f : Frame) (below : ℕ) : Type 0 where
  pub values : all_value_types f.values ≡ true
  pub any : f.has_any ≡ true → f.block.is_stack_polymorphic ≡ true
  pub base : f.block.stack_cell_num ≡ below
  pub params : all_value_types (block_type_get_param_types f.block.block_type) ≡ true
  pub results : all_value_types (block_type_get_result_types f.block.block_type) ≡ true

unfoldable pub AreFrames : List Frame → Type 0
AreFrames [] = Unit
AreFrames (f ∷ fs) = IsFrame f (length (frame_refs fs)) × AreFrames fs

-- The context stands for the frames, within the bounds of its 16-bit results.
pub record IsStacked (fs : List Frame) (ctx : LoaderContext) : Type 0 where
  pub refs : ctx.frame_ref ≡ frame_refs fs
  pub csp : ctx.frame_csp ≡ frame_blocks fs
  pub frames : AreFrames fs
  pub height : length ctx.frame_ref ≤ ctx.max_stack_cell_num
  pub cells_bounded : ctx.max_stack_cell_num ≤ 0xFFFF
  pub blocks_bounded : ctx.max_csp_num ≤ 0xFFFF

-- A pop as the specification has it: an operand of that very type, or any type from an empty stack that
-- is polymorphic.
unfoldable pub pop_from : List ℕ → Frame → ℕ → Option Frame
pop_from [] f type =
    if f.block.is_stack_polymorphic then some (record f { has_any = false }) else none
pop_from (v ∷ vs) f type = if v == type then some (record f { values = vs }) else none

unfoldable pub pop_value : Frame → ℕ → Option Frame
pop_value f type = pop_from f.values f type

-- Pops of each type, the last one first.
unfoldable pub pop_all : Frame → List ℕ → Option Frame
pop_all f [] = some f
pop_all f (t ∷ ts) = elim (pop_all f ts) [ none ↦ none | some g ↦ pop_value g t ]

-- The step of `drop`: the top value, or an unknown one of an empty stack that is polymorphic.
unfoldable pub drop_top : List ℕ → Frame → Option Frame
drop_top [] f = if f.block.is_stack_polymorphic then some (record f { has_any = false }) else none
drop_top (v ∷ vs) f = some (record f { values = vs })

unfoldable pub drop_from : Frame → Option Frame
drop_from f = drop_top f.values f

-- The step of `select` behind its condition: two operands of the type that is on top, and one of them
-- is left. On an empty stack that is polymorphic the type is not known.
unfoldable pub select_top : List ℕ → Frame → Option Frame
select_top [] f = if f.block.is_stack_polymorphic then some (record f { has_any = true }) else none
select_top (v ∷ vs) f = elim (pop_value (record f { values = vs }) v) [
  | none ↦ none
  | some g ↦ some (record g { values = v ∷ g.values })
]

unfoldable pub select_from : Frame → Option Frame
select_from f = elim (pop_value f value_type_i32) [ none ↦ none | some g ↦ select_top g.values g ]

-- Pushes, the first type first.
unfoldable pub push_all : List ℕ → List ℕ → List ℕ
push_all [] values = values
push_all (t ∷ ts) values = push_all ts (t ∷ values)

-- The code agrees with a step on the top frame: both fail, or both succeed and the context stands for
-- the new frames.
pub data Agrees (fs : List Frame) : Option Frame → Result LoaderContext → Type 0 where
  done : {f : Frame} {c : LoaderContext} → IsStacked (f ∷ fs) c → Agrees fs (some f) (ok c)
  failed : {e : LoadError} → Agrees fs none (err e)

-- The specification takes a step, and the context stands for the frames behind it.
unfoldable pub Follows : List Frame → Option Frame → LoaderContext → Type 0
Follows fs o c = (g : Frame) × (o ≡ some g) × IsStacked (g ∷ fs) c

-- The context stands for open blocks, the innermost of which is `block`, over the frames `fs`.
unfoldable pub IsWithin : List Frame → BranchBlock → LoaderContext → Type 0
IsWithin fs block c = (f : Frame) × IsStacked (f ∷ fs) c × (f.block ≡ block)

-- The type of the outermost block, which is the function's.
unfoldable pub bottom_type : BlockType → List Frame → BlockType
bottom_type t [] = t
bottom_type t (f ∷ fs) = bottom_type f.block.block_type fs

-- Some block is open, and the outermost one has the type.
unfoldable pub IsOpen : BlockType → LoaderContext → Type 0
IsOpen root c =
    (f : Frame) × (fs : List Frame) × IsStacked (f ∷ fs) c
    × (bottom_type f.block.block_type fs ≡ root)

-- What an instruction leaves: some block is open, and no byte has been given back.
unfoldable pub IsMoved : BlockType → List ℕ → LoaderContext × List ℕ → Type 0
IsMoved root p out = IsOpen root out.0 × (length out.1 ≤ length p)
