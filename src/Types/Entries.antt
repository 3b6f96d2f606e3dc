-- ===== src/Types/Entries.antt =====
-- One entry of the type section (`load_type_entry`, from `load_type_section` of
-- core/iwasm/common/wasm_loader.c).
use wasm2native.Common.{
  ℕ, ◌+◌, ◌≤◌, ◌≡◌, refl, true, false, not, ◌||◌, List, ◌++◌, arith, length, ltb, ◌==◌,
  length-append, take, drop, take-append_length, drop-append_length,
}
use wasm2native.Common.Outcome.{ok}
use wasm2native.Common.Ensures.{
  Ensures, holds, Ensures-bind, Ensures-reject, Ensures-check, Ensures-then,
}
use wasm2native.Leb.{read_leb_uint32}
use wasm2native.Loader.{Host, read_uint8s, skip, need, read_uint8, loader_malloc, type_entry}
use wasm2native.Loader.Reads.{read_uint8s_takes, read_uint8s-drop, skip_takes}
use wasm2native.Types.{load_type_entry, all_value_types}
use wasm2native.Wasm.{WasmType, wasm_get_cell_num}
use wasm2native.Wasm.Cells.{cells, cells-le, wasm_get_cell_num-cells}

-- What the rest of the compiler relies on about a function type.
pub record IsWellFormed (t : WasmType) : Type 0 where
  pub counts : length t.types ≡ t.param_count + t.result_count
  pub small : (t.param_count ≤ 0xFFFF) × (t.result_count ≤ 0xFFFF)
  pub value_types : all_value_types t.types ≡ true
  pub param_cells : t.param_cell_num ≡ cells (take t.param_count t.types)
  pub ret_cells : t.ret_cell_num ≡ cells (drop t.param_count t.types)
  pub cells_fit : (t.param_cell_num ≤ 0xFFFF) × (t.ret_cell_num ≤ 0xFFFF)

-- The count of the results is read twice, from one place.
same_count :
    (n : ℕ) (p p2 : List ℕ) (results : ℕ × List ℕ) (ps : List ℕ × List ℕ) (count : ℕ × List ℕ)
    → skip n p ≡ ok p2
    → read_leb_uint32 p2 ≡ ok results
    → read_uint8s n p ≡ ok ps
    → read_leb_uint32 ps.1 ≡ ok count
    → results.0 ≡ count.0
same_count n p p2 results ps count e3 e4 e5 e6 =
    cc (read_uint8s-drop n p ps.0 ps.1 e5, (skip_takes n p p2 e3).1)

module _ (ps rs : List ℕ) (param_count result_count count : ℕ) (hp : length ps ≡ param_count)
    (hr : length rs ≡ count) (same : result_count ≡ count)
    (small : (ltb 0xFFFF param_count || ltb 0xFFFF result_count) ≡ false)
    (types : all_value_types (ps ++ rs) ≡ true)
    (fit : (ltb 0xFFFF (wasm_get_cell_num ps 0) || ltb 0xFFFF (wasm_get_cell_num rs 0))
      ≡ false) where
  bounds : (param_count ≤ 0xFFFF) × (count ≤ 0xFFFF)
  bounds = ground arith

  entry : IsWellFormed (record {
    param_count = param_count;
    result_count = count;
    param_cell_num = wasm_get_cell_num ps 0;
    ret_cell_num = wasm_get_cell_num rs 0;
    ref_count = 1;
    types = ps ++ rs;
  })
  entry = record {
    counts = omega (arith, length-append ps rs);
    small = bounds;
    value_types = types;
    param_cells =
        rw (← hp, take-append_length ps rs)
          (omega (arith, wasm_get_cell_num-cells ps 0 (omega (arith, bounds, cells-le ps))));
    ret_cells =
        rw (← hp, drop-append_length ps rs)
          (omega (arith, wasm_get_cell_num-cells rs 0 (omega (arith, bounds, cells-le rs))));
    cells_fit = ground arith;
  }

module _ (host : Host) (i : ℕ) (p : List ℕ) where
  pub load_type_entry-Ensures :
      Ensures (λ t. IsWellFormed t.0 × (t.0.ref_count ≡ 1)) (load_type_entry host i p)
  unfolding load_type_entry
  load_type_entry-Ensures = Ensures-bind (read_uint8 p) λ flag e1.
      Ensures-reject (not (flag.0 == 0x60)) _ λ _.
        Ensures-bind (read_leb_uint32 flag.1) λ params e2.
          Ensures-bind (skip params.0 params.1) λ p2 e3.
            Ensures-bind (read_leb_uint32 p2) λ results e4.
              Ensures-then (need results.0 results.1) λ _.
                Ensures-reject (ltb 0xFFFF params.0 || ltb 0xFFFF results.0) _ λ small.
                  Ensures-then (loader_malloc host (type_entry i) _) λ _.
                    Ensures-bind (read_uint8s params.0 params.1) λ ps e5.
                      Ensures-bind (read_leb_uint32 ps.1) λ count e6.
                        Ensures-bind (read_uint8s count.0 count.1) λ rs e7.
                          Ensures-check (all_value_types (ps.0 ++ rs.0)) _ λ types.
                            Ensures-reject
                              (ltb 0xFFFF (wasm_get_cell_num ps.0 0)
                                || ltb 0xFFFF (wasm_get_cell_num rs.0 0))
                              _
                              λ fit. holds (
                                entry ps.0 rs.0 params.0 results.0 count.0
                                    (read_uint8s_takes _ _ _ _ e5).1
                                    (read_uint8s_takes _ _ _ _ e7).1
                                    (same_count params.0 params.1 p2 results ps count e3 e4 e5 e6)
                                    small types fit,
                                refl,
                              )
