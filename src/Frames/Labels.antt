-- ===== src/Frames/Labels.antt =====
-- The types that a label takes, popped and pushed again: what the checks of a branch leave
-- (core/iwasm/common/wasm_loader.c).
use wasm2native.Branches.{pop_types}
use wasm2native.Common.{
  ℕ, ◌≡◌, refl, ◌∙◌, ap, Bool, true, false, Option, none, some, List, [], ◌∷◌, if◌then◌else◌, arith,
  ◌==◌, ==_iff, Option-cases, inl, inr,
}
use wasm2native.Common.Ensures.{Ensures, holds, Ensures-bind, Ensures-ok, Ensures-mono}
use wasm2native.Frames.{Frame, IsStacked, Follows, pop_value, pop_from, pop_all, push_all}
use wasm2native.Frames.Popped.{
  all_value_types-head, pop_from-block, Agrees-Follows, wasm_loader_pop_frame_ref-Agrees,
}
use wasm2native.Frames.Pushed.{with_values}
use wasm2native.Operands.{LoaderContext}
use wasm2native.Types.{all_value_types}

-- The pops of the code are those of the specification.
pub pop_types-Follows :
    (f : Frame) (fs : List Frame) (ctx : LoaderContext) (types : List ℕ)
    → all_value_types types ≡ true
    → IsStacked (f ∷ fs) ctx
    → Ensures (Follows fs (pop_all f types)) (pop_types ctx types)
unfolding pop_types pop_all Follows
pop_types-Follows f fs ctx [] all st = holds (f, refl, st)
pop_types-Follows f fs ctx (t ∷ ts) all st =
    let (value, rest) = all_value_types-head t ts all in
    Ensures-bind (pop_types ctx ts) λ c e.
      let (g, taken, st1) = Ensures-ok (pop_types-Follows f fs ctx ts rest st) e in
      Ensures-mono (Agrees-Follows fs (wasm_loader_pop_frame_ref-Agrees g fs c t value st1))
        λ c' (h, e', st').
          (h, ap (λ o. elim o [ none ↦ none | some g ↦ pop_value g t ]) taken ∙ e', st')

pub pop_all-block : (types : List ℕ) (f g : Frame) → pop_all f types ≡ some g → g.block ≡ f.block
unfolding pop_all pop_value
pop_all-block [] f g e = let same : g ≡ f = cc in ap (λ (g : Frame). g.block) same
pop_all-block (t ∷ ts) f g e = elim (Option-cases (pop_all f ts)) [
  | inl none_there ↦ absurd (ground arith)
  | inr (h, taken) ↦ pop_from-block h.values h t g (ground arith) ∙ pop_all-block ts f h taken
]

-- What has been pushed is popped.
pub pop_all-pushed :
    (types rest : List ℕ) (f : Frame)
    → pop_all (with_values f (push_all types rest)) types ≡ some (with_values f rest)
unfolding pop_all push_all pop_value pop_from
pop_all-pushed [] rest f = refl
pop_all-pushed (t ∷ ts) rest f =
    let equal : (t == t) ≡ true = (==_iff t t).1 refl in
    ap (λ o. elim o [ none ↦ none | some g ↦ pop_value g t ]) (pop_all-pushed ts (t ∷ rest) f)
    ∙ rw equal refl

-- The frame behind a branch that is not taken: the values of the label are popped and pushed again. For
-- `br_table` they are only looked at.
unfoldable pub branch_from : Frame → List ℕ → Bool → Option Frame
branch_from f types is_br_table = elim (pop_all f types) [
  | none ↦ none
  | some g ↦ some (if is_br_table then f else with_values g (push_all types g.values))
]

pub branch_from-popped :
    (f g : Frame) (types : List ℕ) (is_br_table : Bool)
    → pop_all f types ≡ some g
    → branch_from f types is_br_table
      ≡ some (if is_br_table then f else with_values g (push_all types g.values))
unfolding branch_from
branch_from-popped f g types is_br_table taken =
    ap
      (λ o. elim o [
        | none ↦ none
        | some g ↦ some (if is_br_table then f else with_values g (push_all types g.values))
      ])
      taken

pub branch_from-block :
    (f g : Frame) (types : List ℕ) (is_br_table : Bool)
    → branch_from f types is_br_table ≡ some g
    → g.block ≡ f.block
unfolding branch_from
branch_from-block f g types is_br_table e = elim (Option-cases (pop_all f types)) [
  | inl none_there ↦ absurd (ground arith)
  | inr (h, taken) ↦
      let same = pop_all-block types f h taken in
      let left : g ≡ (if is_br_table then f else with_values h (push_all types h.values)) =
        ground arith in
      ap (λ (g : Frame). g.block) left
      ∙ elim is_br_table
          as (λ b. (if b then f else with_values h (push_all types h.values)).block ≡ f.block) [
            | true ↦ refl
            | false ↦ same
          ]
]
