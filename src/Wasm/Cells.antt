-- ===== src/Wasm/Cells.antt =====
-- Facts about the cells of value types (core/iwasm/common/wasm.h).
use wasm2native.Common.{ℕ, ◌+◌, ◌*◌, ◌%◌, ◌^◌, ◌≤◌, ◌<◌, ◌≡◌, List, [], ◌∷◌, ◌++◌, arith, length}
use wasm2native.Wasm.{wasm_value_type_cell_num, wasm_get_cell_num}

-- The cells of a list of types, as a plain sum.
unfoldable pub cells : List ℕ → ℕ
cells [] = 0
cells (t ∷ ts) = wasm_value_type_cell_num t + cells ts

pub cell_num_small : (t : ℕ) → wasm_value_type_cell_num t ≤ 4
unfolding wasm_value_type_cell_num
cell_num_small t = ground arith

pub cells-le : (ts : List ℕ) → cells ts ≤ 4 * length ts
unfolding cells
cells-le [] = omega arith
cells-le (t ∷ ts) = omega (arith, cell_num_small t, cells-le ts)

-- The loop counts the cells; the uint32 does not wrap while the sum stays below 2 ^ 32.
pub wasm_get_cell_num-cells :
    (ts : List ℕ) (n : ℕ) → n + cells ts < 2 ^ 32 → wasm_get_cell_num ts n ≡ n + cells ts
unfolding wasm_get_cell_num cells
wasm_get_cell_num-cells [] n h = omega arith
wasm_get_cell_num-cells (t ∷ ts) n h =
    ground (arith, wasm_get_cell_num-cells ts ((n + wasm_value_type_cell_num t) % 2 ^ 32))

pub cells-append : (xs ys : List ℕ) → cells (xs ++ ys) ≡ cells xs + cells ys
unfolding cells
cells-append [] ys = omega arith
cells-append (x ∷ xs) ys = omega (arith, cells-append xs ys)
