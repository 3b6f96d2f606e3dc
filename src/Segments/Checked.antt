-- ===== src/Segments/Checked.antt =====
-- What holds of the segments and the start function of a module that loads
-- (core/iwasm/common/wasm_loader.c).
use wasm2native.Common.{
  ℕ, zero, suc, ◌+◌, ◌*◌, ◌%◌, ◌^◌, ◌≤◌, ◌<◌, ◌≡◌, refl, Bool, true, false, Option, none, some,
  List, [], arith, length, All, leb, ◌==◌, if◌then◌else◌, inl, inr, ◌⊎◌,
}
use wasm2native.Common.Ensures.{
  Ensures, holds, Ensures-bind, Ensures-reject, Ensures-check, Ensures-then, Ensures-ok, Ensures-if,
}
use wasm2native.Common.Outcome.{ok, ◌>>◌}
use wasm2native.Functions.{check_function_index}
use wasm2native.Globals.{InitExpr, load_init_expr}
use wasm2native.Globals.Checked.{IsConstant, load_init_expr-IsConstant}
use wasm2native.Leb.{read_leb_uint32}
use wasm2native.Loader.{Host, table_segments_array, func_indexes, loader_malloc}
use wasm2native.Segments.{
  Loaded, TableSegment, check_table_index, load_table_index, load_func_indexes, load_func_index_vec,
  is_table_table64, load_table_segment, load_table_segments, load_table_segment_section,
  function_type, check_start_type, load_start_section,
}
use wasm2native.Wasm.{WasmType, value_type_i32, value_type_i64}

-- The number of functions, as the uint32 sum.
abbrev pub function_count : Loaded → ℕ
function_count m = (length m.imports.functions + length m.functions) % 2 ^ 32

-- The segment fills the one table there is, from a constant offset on, with functions that exist.
pub record IsSoundElem (m : Loaded) (s : TableSegment) : Type 0 where
  pub first_table : s.table_index ≡ 0
  pub table_exists : 1 ≤ length m.imports.tables + length m.tables
  pub functions_exist : All (λ f. f < function_count m) s.func_indexes
  pub constant_offset :
      IsConstant m.imports.globals value_type_i32 s.base_offset
      ⊎ IsConstant m.imports.globals value_type_i64 s.base_offset

module _ (m : Loaded) where
  index_known :
      (i : ℕ)
      → check_table_index m i ≡ ok tt
      → (i ≡ 0) × (1 ≤ length m.imports.tables + length m.tables)
  unfolding check_table_index
  index_known i e = ground arith

  table_known :
      (p : List ℕ)
      → Ensures
          (λ r. (r.0 ≡ 0) × (1 ≤ length m.imports.tables + length m.tables))
          (load_table_index m p)
  unfolding load_table_index
  table_known p =
      Ensures-bind (read_leb_uint32 p)
        λ i e. Ensures-then (check_table_index m i.0) λ e1. holds (index_known i.0 e1)

  function_known :
      (i : ℕ)
      → check_function_index (length m.imports.functions) (length m.functions) i ≡ ok tt
      → i < function_count m
  unfolding check_function_index
  function_known i e = ground arith

  indexes_known :
      (n : ℕ) (p : List ℕ)
      → Ensures (λ r. All (λ f. f < function_count m) r.0) (load_func_indexes m n p)
  unfolding load_func_indexes
  indexes_known zero p = holds tt
  indexes_known (suc n) p = Ensures-bind (read_leb_uint32 p) λ i e.
      Ensures-then (check_function_index (length m.imports.functions) (length m.functions) i.0)
        λ e1.
          Ensures-bind (load_func_indexes m n i.1)
            λ is e2. holds (function_known i.0 e1, Ensures-ok (indexes_known n i.1) e2)

  vec_known :
      (host : Host) (i : ℕ) (p : List ℕ)
      → Ensures (λ r. All (λ f. f < function_count m) r.0) (load_func_index_vec host m i p)
  unfolding load_func_index_vec
  vec_known host i p = Ensures-bind (read_leb_uint32 p) λ n e.
      Ensures-then (if n.0 == 0 then ok tt else loader_malloc host (func_indexes i) (4 * n.0))
        λ _. indexes_known n.0 n.1

  offset-IsConstant :
      (is_table64 : Bool) (p : List ℕ) (r : InitExpr × List ℕ)
      → load_init_expr m.imports.globals (if is_table64 then value_type_i64 else value_type_i32) p
        ≡ ok r
      → IsConstant m.imports.globals value_type_i32 r.0
        ⊎ IsConstant m.imports.globals value_type_i64 r.0
  offset-IsConstant true p r e = inr (load_init_expr-IsConstant _ _ p r.0 r.1 e)
  offset-IsConstant false p r e = inl (load_init_expr-IsConstant _ _ p r.0 r.1 e)

  elem_sound :
      (host : Host) (i : ℕ) (p : List ℕ)
      → Ensures (λ r. IsSoundElem m r.0) (load_table_segment host m i p)
  unfolding load_table_segment
  elem_sound host i p = Ensures-reject (length p == 0) _ λ _.
      Ensures-bind (load_table_index m p) λ t e1. Ensures-bind (is_table_table64 m t.0) λ wide e2.
        Ensures-bind
          (load_init_expr m.imports.globals (if wide then value_type_i64 else value_type_i32) t.1)
          λ offset e3. Ensures-bind (load_func_index_vec host m i offset.1) λ fs e4.
            let (first, exists) = Ensures-ok (table_known p) e1 in
            holds (record {
              first_table = first;
              table_exists = exists;
              functions_exist = Ensures-ok (vec_known host i offset.1) e4;
              constant_offset = offset-IsConstant wide t.1 offset e3;
            })

  elems_sound :
      (host : Host) (n i : ℕ) (p : List ℕ)
      → Ensures (λ r. All (IsSoundElem m) r.0) (load_table_segments host m n i p)
  unfolding load_table_segments
  elems_sound host zero i p = holds tt
  elems_sound host (suc n) i p = Ensures-bind (load_table_segment host m i p) λ s e1.
      Ensures-bind (load_table_segments host m n (i + 1) s.1) λ ss e2.
        holds (Ensures-ok (elem_sound host i p) e1, Ensures-ok (elems_sound host n (i + 1) s.1) e2)

  elem_section :
      (host : Host) (p : List ℕ)
      → Ensures (All (IsSoundElem m)) (load_table_segment_section host m p)
  unfolding load_table_segment_section
  elem_section host p = Ensures-bind (read_leb_uint32 p) λ n e1.
      Ensures-bind _
        λ r e2. Ensures-check (length r.1 == 0) _ λ _. holds (Ensures-ok (loaded n.0 n.1) e2)
    where
      loaded :
          (n : ℕ) (p : List ℕ)
          → Ensures
              (λ (r : List TableSegment × List ℕ). All (IsSoundElem m) r.0)
              (if n == 0
                then ok ([], p)
                else (loader_malloc host table_segments_array (host.sizeof_table_seg * n)
                    >> load_table_segments host m n 0 p))
      loaded n p =
          Ensures-if (n == 0) (λ _. holds tt)
            (λ _.
              Ensures-then (loader_malloc host table_segments_array (host.sizeof_table_seg * n))
                λ _. elems_sound host n 0 p)

-- The element segments of a module that loads fill its table from constant offsets on with functions
-- that the module has.
pub load_table_segment_section-IsSound :
    (host : Host) (m : Loaded) (p : List ℕ) (ss : List TableSegment)
    → load_table_segment_section host m p ≡ ok ss
    → All (IsSoundElem m) ss
load_table_segment_section-IsSound host m p ss e = Ensures-ok (elem_section m host p) e

start_known :
    (o : Option WasmType)
    → check_start_type o ≡ ok tt
    → (t : WasmType) × (o ≡ some t) × (t.param_count ≡ 0) × (t.result_count ≡ 0)
unfolding check_start_type
start_known none e = cc
start_known (some t) e = (t, refl, ground arith, ground arith)

start_sound :
    (m : Loaded) (p : List ℕ)
    → Ensures
        (λ f.
          (f < (length m.functions + length m.imports.functions) % 2 ^ 32)
          × ((t : WasmType) × (function_type m f ≡ some t)
              × (t.param_count ≡ 0)
              × (t.result_count ≡ 0)))
        (load_start_section m p)
unfolding load_start_section
start_sound m p = Ensures-bind (read_leb_uint32 p) λ f e1.
    Ensures-reject (leb ((length m.functions + length m.imports.functions) % 2 ^ 32) f.0) _ λ range.
      Ensures-then (check_start_type (function_type m f.0)) λ e2.
        Ensures-check (length f.1 == 0) _
          λ _. holds (ground arith, start_known (function_type m f.0) e2)

-- The start function of a module that loads is one of its functions, and takes and returns nothing.
pub load_start_section-IsSound :
    (m : Loaded) (p : List ℕ) (f : ℕ)
    → load_start_section m p ≡ ok f
    → (f < (length m.functions + length m.imports.functions) % 2 ^ 32)
      × ((t : WasmType) × (function_type m f ≡ some t) × (t.param_count ≡ 0) × (t.result_count ≡ 0))
load_start_section-IsSound m p f e = Ensures-ok (start_sound m p) e
