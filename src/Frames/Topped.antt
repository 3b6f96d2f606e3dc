-- ===== src/Frames/Topped.antt =====
-- The check of the values on top of the stack (`check_stack_top_values` of
-- core/iwasm/common/wasm_loader.c, as a block's end and a branch apply it).
use mathlib.Core.List.{append_assoc}
use mathlib.Core.Path.{subst}
use wasm2native.Branches.{check_top_types}
use wasm2native.Common.{
  ℕ, suc, ◌-◌, ◌≡◌, ◌≢◌, refl, sym, ◌∙◌, ap, true, List, [], ◌∷◌, ◌++◌, inl, inr, Bool-cases,
  ==_iff, arith, length, drop, replicate, ltb, ◌==◌, length-append, length-replicate,
  drop-append_length,
}
use wasm2native.Common.Ensures.{Ensures, holds, Ensures-bind, Ensures-then, Ensures-ok}
use wasm2native.Common.Outcome.{ok}
use wasm2native.Frames.{cells_of, push_all}
use wasm2native.Frames.Popped.{all_value_types-head}
use wasm2native.Frames.Taken.{cells_suc}
use wasm2native.Loader.{is_value_type}
use wasm2native.Operands.{check_stack_top_values, top_cells}
use wasm2native.Types.{all_value_types}
use wasm2native.Wasm.{wasm_value_type_cell_num}

nothing_on_top :
    (ref : List ℕ) (t n : ℕ)
    → wasm_value_type_cell_num t ≡ suc n
    → check_stack_top_values ref 0 t ≢ ok tt
unfolding check_stack_top_values
nothing_on_top ref t n many e = ground (arith, many)

same_on_top :
    (v t avail n : ℕ) (ref : List ℕ)
    → wasm_value_type_cell_num t ≡ suc n
    → check_stack_top_values (v ∷ ref) avail t ≡ ok tt
    → v ≡ t
unfolding check_stack_top_values top_cells
same_on_top v t avail n ref many e = elim (Bool-cases (ltb avail (suc n))) [
  | inl short ↦ absurd (ground (arith, many))
  | inr enough ↦ elim (Bool-cases (v == t)) [
    | inl same ↦ (==_iff v t).0 same
    | inr other ↦ absurd (ground (arith, many))
  ]
]

-- On the cells of some values, the check of one value finds that value on top.
top_value :
    (values : List ℕ) (below : List ℕ) (t : ℕ)
    → all_value_types values ≡ true
    → is_value_type t ≡ true
    → check_stack_top_values (cells_of values ++ below) (length (cells_of values)) t ≡ ok tt
    → (rest : List ℕ) × (values ≡ t ∷ rest)
unfolding cells_of
top_value [] below t all value e =
    let (n, many) = cells_suc t value in absurd (nothing_on_top below t n many e)
top_value (v ∷ vs) below t all value e =
    let (n, many) = cells_suc t value in
    let (m, some_cells) = cells_suc v (all_value_types-head v vs all).0 in
    let whole = cells_of (v ∷ vs) in
    let on_top : whole ++ below ≡ v ∷ ((replicate m v ++ cells_of vs) ++ below) =
      ap (λ k. (replicate k v ++ cells_of vs) ++ below) some_cells in
    (
      vs,
      ap (λ k. k ∷ vs)
          (same_on_top v t (length whole) n _ many
            (ap (λ l. check_stack_top_values l (length whole) t) (sym on_top) ∙ e)),
    )

-- The state of the check: the values that are left, with the cells below them.
unfoldable pub IsLeft : List ℕ → List ℕ → List ℕ × ℕ → Type 0
IsLeft values below left = (left.0 ≡ cells_of values ++ below) × (left.1 ≡ length (cells_of values))

drop-IsLeft :
    (t : ℕ) (vs below : List ℕ) (left : List ℕ × ℕ)
    → IsLeft (t ∷ vs) below left
    → IsLeft vs below
        (drop (wasm_value_type_cell_num t) left.0, left.1 - wasm_value_type_cell_num t)
unfolding IsLeft cells_of
drop-IsLeft t vs below left (ref, avail) =
    let top = replicate (wasm_value_type_cell_num t) t in
    let size = length-replicate (wasm_value_type_cell_num t) t in
    (
      ap (λ l. drop (wasm_value_type_cell_num t) l) ref
          ∙ ap (λ l. drop (wasm_value_type_cell_num t) l) (append_assoc top (cells_of vs) below)
          ∙ ap (λ k. drop k (top ++ (cells_of vs ++ below))) (sym size)
          ∙ drop-append_length top (cells_of vs ++ below),
      omega (arith, avail, size, length-append top (cells_of vs)),
    )

pub all_value_types-push_all :
    (ts vs : List ℕ) → all_value_types (push_all ts vs) ≡ true → all_value_types vs ≡ true
unfolding push_all
all_value_types-push_all [] vs h = h
all_value_types-push_all (t ∷ ts) vs h =
    (all_value_types-head t vs (all_value_types-push_all ts (t ∷ vs) h)).1

-- The check of some types passes only on values of these types, with the last one on top.
pub top_values :
    (types values below : List ℕ)
    → all_value_types values ≡ true
    → all_value_types types ≡ true
    → Ensures
        (λ (left : List ℕ × ℕ).
          (rest : List ℕ) × (values ≡ push_all types rest) × IsLeft rest below left)
        (check_top_types (cells_of values ++ below) (length (cells_of values)) types)
unfolding check_top_types push_all IsLeft
top_values [] values below all types = holds (values, refl, (refl, refl))
top_values (t ∷ ts) values below all types =
    let whole = cells_of values ++ below in
    let (value, others) = all_value_types-head t ts types in
    Ensures-bind (check_top_types whole (length (cells_of values)) ts) λ left e.
      let (rest, same, is_left) = Ensures-ok (top_values ts values below all others) e in
      Ensures-then (check_stack_top_values left.0 left.1 t) λ passes.
        let kept = all_value_types-push_all ts rest (ap all_value_types (sym same) ∙ all) in
        let (rest', top) = top_value rest below t kept value (checked rest left is_left passes) in
        holds (
          rest',
          same ∙ ap (λ l. push_all ts l) top,
          drop-IsLeft t rest' below left (subst (λ l. IsLeft l below left) top is_left),
        )
  where
    checked :
        (rest : List ℕ) (left : List ℕ × ℕ)
        → IsLeft rest below left
        → check_stack_top_values left.0 left.1 t ≡ ok tt
        → check_stack_top_values (cells_of rest ++ below) (length (cells_of rest)) t ≡ ok tt
    checked rest left (ref, avail) passes =
        ap (λ l. check_stack_top_values l (length (cells_of rest)) t) (sym ref)
        ∙ ap (λ n. check_stack_top_values left.0 n t) (sym avail)
        ∙ passes
