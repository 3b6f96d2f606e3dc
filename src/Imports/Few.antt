-- ===== src/Imports/Few.antt =====
-- How many tables and memories a module imports (core/iwasm/common/wasm_loader.c,
-- `load_import_section`).
use wasm2native.Common.{
  ℕ, zero, suc, ◌+◌, ◌*◌, ◌≤◌, ◌≡◌, Bool, List, arith, length, ltb, ◌==◌, if◌then◌else◌,
}
use wasm2native.Common.Ensures.{
  Ensures, holds, Ensures-bind, Ensures-reject, Ensures-check, Ensures-then, Ensures-ok,
  Ensures-of_ok, Ensures-if,
}
use wasm2native.Common.Outcome.{ok, ◌>>=◌, ◌>>◌}
use wasm2native.Imports.{
  Imports, Counts, ImportKind, import_func, import_table, import_memory, import_global, skip_limits,
  skip_name, count_import, scan_imports, resolve_imports, load_import_section, no_counts,
  no_imports, import_kind,
}
use wasm2native.Leb.{read_leb_uint32}
use wasm2native.Loader.{imports_array, loader_malloc, Host, read_uint8, skip}
use wasm2native.Types.{TypeTable}
use wasm2native.Imports.Counted.{IsCounted, resolve_imports-IsCounted}

IsSmall : Counts → Type 0
IsSmall c = (c.import_table_count ≤ 1) × (c.import_memory_count ≤ 1)

count_import-IsSmall :
    (kind : ImportKind) (c : Counts) (p : List ℕ)
    → IsSmall c
    → Ensures (λ r. IsSmall r.0) (count_import kind c p)
unfolding count_import IsSmall
count_import-IsSmall import_func c p h = Ensures-bind (read_leb_uint32 p) λ x e. holds h
count_import-IsSmall import_table c p h = Ensures-bind (read_uint8 p) λ x e.
    Ensures-bind (skip_limits x.1)
      λ q e1. Ensures-reject (ltb 1 (c.import_table_count + 1)) _ λ few. holds (ground arith, h.1)
count_import-IsSmall import_memory c p h =
    Ensures-bind (skip_limits p)
      λ q e1. Ensures-reject (ltb 1 (c.import_memory_count + 1)) _ λ few. holds (h.0, ground arith)
count_import-IsSmall import_global c p h = Ensures-bind (skip 2 p) λ x e. holds h

scan_imports-IsSmall :
    (left : ℕ) (c : Counts) (p : List ℕ) → IsSmall c → Ensures IsSmall (scan_imports left c p)
unfolding scan_imports
scan_imports-IsSmall zero c p h = holds h
scan_imports-IsSmall (suc left) c p h = Ensures-bind (skip_name p) λ q e1.
    Ensures-bind (skip_name q) λ r e2. Ensures-bind (read_uint8 r) λ k e3.
      Ensures-bind (import_kind k.0) λ kind e4. Ensures-bind (count_import kind c k.1) λ d e5.
        scan_imports-IsSmall left d.0 d.1 (Ensures-ok (count_import-IsSmall kind c k.1 h) e5)

HasFew : Imports → Type 0
HasFew imports = (length imports.tables ≤ 1) × (length imports.memories ≤ 1)

few_from_counts :
    (c : Counts) (imports : Imports) → IsSmall c → IsCounted c imports → HasFew imports
unfolding IsSmall HasFew
few_from_counts c imports small counted =
    let tables = counted.tables in
    let memories = counted.memories in (omega (arith, small.0), omega (arith, small.1))

none_few : Unit {0} → HasFew no_imports
unfolding HasFew
none_few u = (omega arith, omega arith)

scanned : (n : ℕ) (p : List ℕ) (c : Counts) → scan_imports n no_counts p ≡ ok c → IsSmall c
unfolding IsSmall
scanned n p c e = Ensures-ok (scan_imports-IsSmall n no_counts p (omega arith, omega arith)) e

section_few :
    (host : Host) (types : TypeTable) (in_buf : Bool) (names : List (List ℕ)) (p : List ℕ)
    → Ensures (λ r. HasFew r.0) (load_import_section host types in_buf names p)
unfolding load_import_section
section_few host types in_buf names p = Ensures-bind (read_leb_uint32 p) λ n e1.
    Ensures-bind _
      λ r e2. Ensures-check (length r.1 == 0) _ λ _. holds (Ensures-ok (loaded n.0 n.1) e2)
  where
    loaded :
        (n : ℕ) (p : List ℕ)
        → Ensures
            (λ (r : (Imports × List (List ℕ)) × List ℕ). HasFew r.0.0)
            (if n == 0 then ok ((no_imports, names), p) else (do
              loader_malloc host imports_array (host.sizeof_import * n)
              counts ← scan_imports n no_counts p
              resolve_imports host types in_buf n 0 names no_imports p))
    loaded n p =
        Ensures-if (n == 0) (λ _. holds (none_few tt))
          (λ _. Ensures-then (loader_malloc host imports_array (host.sizeof_import * n)) λ _.
            Ensures-bind (scan_imports n no_counts p) λ c e1.
              Ensures-of_ok (resolve_imports host types in_buf n 0 names no_imports p) λ r e2.
                few_from_counts c r.0.0 (scanned n p c e1)
                  (resolve_imports-IsCounted host types in_buf n names p c r e1 e2))

-- A module imports one table and one memory at most.
pub load_import_section_few :
    (host : Host) (types : TypeTable) (in_buf : Bool) (names : List (List ℕ)) (p : List ℕ)
    (r : Imports × List (List ℕ))
    → load_import_section host types in_buf names p ≡ ok r
    → (length r.0.tables ≤ 1) × (length r.0.memories ≤ 1)
unfolding HasFew
load_import_section_few host types in_buf names p r e =
    Ensures-ok (section_few host types in_buf names p) e
