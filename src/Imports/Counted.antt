-- ===== src/Imports/Counted.antt =====
-- What the two passes over the imports agree on (core/iwasm/common/wasm_loader.c,
-- `load_import_section`).
use mathlib.Core.Path.{subst}
use wasm2native.Common.{
  ℕ, zero, suc, ◌+◌, ◌≡◌, refl, sym, Bool, List, [], ◌∷◌, ◌++◌, arith, length, take, leb,
  length-append, inl, inr,
}
use wasm2native.Common.Ensures.{
  Ensures, holds, Ensures-bind, Ensures-reject, Ensures-then, Ensures-ok,
}
use wasm2native.Common.Outcome.{ok, Result-cases}
use wasm2native.Globals.{GlobalImport, load_global_import}
use wasm2native.Imports.{
  require_type, Imports, Counts, ImportKind, import_func, import_table, import_memory,
  import_global, skip_limits, skip_name, count_import, scan_imports, load_function_import,
  load_name, load_import, resolve_imports, no_counts, no_imports, import_kind,
}
use wasm2native.Leb.{read_leb_uint32}
use wasm2native.Limits.{WasmTable, WasmMemory, load_table_import, load_memory_import}
use wasm2native.Loader.{Host, read_uint8, skip, need}
use wasm2native.Names.{const_str_list_insert}
use wasm2native.Types.{TypeTable}
use wasm2native.Imports.Skipped.{table_import_skips, memory_import_skips, global_import_skips}

-- The counts are the lengths of the parts of the array that are filled.
pub record IsCounted (c : Counts) (imports : Imports) : Type 0 where
  pub functions : length imports.functions ≡ c.import_function_count
  pub tables : length imports.tables ≡ c.import_table_count
  pub memories : length imports.memories ≡ c.import_memory_count
  pub globals : length imports.globals ≡ c.import_global_count

one_more :
    {A : Type 0} (xs : List A) (x : A) (n : ℕ) → length xs ≡ n → length (xs ++ (x ∷ [])) ≡ n + 1
one_more xs x n h = omega (arith, length-append xs (x ∷ []))

module _ (types : TypeTable) (module_name name : List ℕ) where
  table_both :
      (p : List ℕ) (t : WasmTable) (rest : List ℕ)
      → load_table_import module_name name p ≡ ok (t, rest)
      → (b : ℕ) × (p1 : List ℕ) × (read_uint8 p ≡ ok (b, p1)) × (skip_limits p1 ≡ ok rest)
  table_both p t rest e = Ensures-ok (table_import_skips module_name name p) e

  memory_both :
      (p : List ℕ) (m : WasmMemory) (rest : List ℕ)
      → load_memory_import module_name name p ≡ ok (m, rest)
      → skip_limits p ≡ ok rest
  memory_both p m rest e = Ensures-ok (memory_import_skips module_name name p) e

  global_both :
      (p : List ℕ) (g : GlobalImport) (rest : List ℕ)
      → load_global_import module_name name p ≡ ok (g, rest)
      → skip 2 p ≡ ok rest
  global_both p g rest e = Ensures-ok (global_import_skips module_name name p) e

  function_both :
      (i : ℕ) (p : List ℕ)
      → Ensures
          (λ r. (n : ℕ) × (read_leb_uint32 p ≡ ok (n, r.1)))
          (load_function_import types module_name name i p)
  unfolding load_function_import
  function_both i p = Ensures-bind (read_leb_uint32 p) λ n e.
      Ensures-reject (leb (length types.types) n.0) _
        λ _. Ensures-bind (require_type types n.0) λ t e1. holds (n.0, e)

  both_passes :
      (kind : ImportKind) (c : Counts) (imports : Imports) (p : List ℕ) (c' : Counts × List ℕ)
      → IsCounted c imports
      → count_import kind c p ≡ ok c'
      → Ensures
          (λ r. IsCounted c'.0 r.0 × (r.1 ≡ c'.1))
          (load_import types module_name name kind imports p)
  unfolding count_import load_import
  both_passes import_func c imports p c' h e =
      Ensures-bind (load_function_import types module_name name (length imports.functions) p)
        λ x e1.
          let (n, e2) = Ensures-ok (function_both (length imports.functions) p) e1 in
          let same : c' ≡ (record c { import_function_count = c.import_function_count + 1 }, x.1) =
            ground arith in
          holds (
            subst
              (λ d.
                IsCounted d.0 (record imports { functions = imports.functions ++ (x.0 ∷ []) })
                × (x.1 ≡ d.1))
              (sym same)
              (
                record {
                  functions = one_more imports.functions x.0 c.import_function_count h.functions;
                  tables = h.tables;
                  memories = h.memories;
                  globals = h.globals;
                },
                refl,
              ))
  both_passes import_table c imports p c' h e =
      Ensures-bind (load_table_import module_name name p) λ x e1.
        let (b, p1, e2, e3) = table_both p x.0 x.1 e1 in
        let same : c' ≡ (record c { import_table_count = c.import_table_count + 1 }, x.1) =
          ground arith in
        holds (
          subst
            (λ d.
              IsCounted d.0 (record imports { tables = imports.tables ++ (x.0 ∷ []) })
              × (x.1 ≡ d.1))
            (sym same)
            (
              record {
                functions = h.functions;
                tables = one_more imports.tables x.0 c.import_table_count h.tables;
                memories = h.memories;
                globals = h.globals;
              },
              refl,
            ))
  both_passes import_memory c imports p c' h e =
      Ensures-bind (load_memory_import module_name name p) λ x e1.
        let e2 = memory_both p x.0 x.1 e1 in
        let same : c' ≡ (record c { import_memory_count = c.import_memory_count + 1 }, x.1) =
          ground arith in
        holds (
          subst
            (λ d.
              IsCounted d.0 (record imports { memories = imports.memories ++ (x.0 ∷ []) })
              × (x.1 ≡ d.1))
            (sym same)
            (
              record {
                functions = h.functions;
                tables = h.tables;
                memories = one_more imports.memories x.0 c.import_memory_count h.memories;
                globals = h.globals;
              },
              refl,
            ))
  both_passes import_global c imports p c' h e =
      Ensures-bind (load_global_import module_name name p) λ x e1.
        let e2 = global_both p x.0 x.1 e1 in
        let same : c' ≡ (record c { import_global_count = c.import_global_count + 1 }, x.1) =
          ground arith in
        holds (
          subst
            (λ d.
              IsCounted d.0 (record imports { globals = imports.globals ++ (x.0 ∷ []) })
              × (x.1 ≡ d.1))
            (sym same)
            (
              record {
                functions = h.functions;
                tables = h.tables;
                memories = h.memories;
                globals = one_more imports.globals x.0 c.import_global_count h.globals;
              },
              refl,
            ))

name_skipped :
    (host : Host) (n : ℕ) (in_buf : Bool) (names : List (List ℕ)) (p : List ℕ)
    → Ensures (λ r. skip_name p ≡ ok r.1) (load_name host n in_buf names p)
unfolding load_name skip_name skip
name_skipped host n in_buf names p = Ensures-bind (read_leb_uint32 p) λ len e1.
    Ensures-then (need len.0 len.1) λ e2.
      Ensures-bind (const_str_list_insert host n (take len.0 len.1) in_buf names)
        λ named e3. holds (ground arith)

-- One round of the first pass, undone.
counted :
    (kind : ImportKind) (k left : ℕ) (c : Counts) (p q r s : List ℕ) (c_end : Counts)
    → skip_name p ≡ ok q
    → skip_name q ≡ ok r
    → read_uint8 r ≡ ok (k, s)
    → import_kind k ≡ ok kind
    → scan_imports (suc left) c p ≡ ok c_end
    → (d : Counts × List ℕ) × (count_import kind c s ≡ ok d)
      × (scan_imports left d.0 d.1 ≡ ok c_end)
unfolding scan_imports
counted kind k left c p q r s c_end e1 e2 e3 e4 e = elim (Result-cases (count_import kind c s)) [
  | inl (d, e5) ↦ (d, e5, ground arith)
  | inr (x, e5) ↦ absurd (ground arith)
]

counts_scanned :
    (host : Host) (types : TypeTable) (in_buf : Bool) (left n : ℕ) (names : List (List ℕ))
    (c : Counts) (imports : Imports) (p : List ℕ) (c_end : Counts)
    → IsCounted c imports
    → scan_imports left c p ≡ ok c_end
    → Ensures
        (λ r. IsCounted c_end r.0.0)
        (resolve_imports host types in_buf left n names imports p)
unfolding scan_imports resolve_imports
counts_scanned host types in_buf zero n names c imports p c_end h e =
    holds (subst (λ d. IsCounted d imports) (ground arith) h)
counts_scanned host types in_buf (suc left) n names c imports p c_end h e =
    Ensures-bind (load_name host n in_buf names p) λ a e1.
      Ensures-bind (load_name host (n + 1) in_buf a.0.1 a.1) λ b e2.
        Ensures-bind (read_uint8 b.1) λ k e3. Ensures-bind (import_kind k.0) λ kind e4.
          Ensures-bind (load_import types a.0.0 b.0.0 kind imports k.1) λ loaded e5.
            let first = Ensures-ok (name_skipped host n in_buf names p) e1 in
            let second = Ensures-ok (name_skipped host (n + 1) in_buf a.0.1 a.1) e2 in
            let (d, e6, e7) : (d : Counts × List ℕ) × (count_import kind c k.1 ≡ ok d)
                × (scan_imports left d.0 d.1 ≡ ok c_end) =
              counted kind k.0 left c p a.1 b.1 k.1 c_end first second e3 e4 e in
            let (same, rest) =
              Ensures-ok (both_passes types a.0.0 b.0.0 kind c imports k.1 d h e6) e5 in
            counts_scanned host types in_buf left (n + 2) b.0.1 d.0 loaded.0 loaded.1 c_end same
              (rw (rest, e7))

-- Where both passes over the imports succeed, the second one stores of each kind just as many as the
-- first has counted: each part of the array is filled and none runs into the next.
pub resolve_imports-IsCounted :
    (host : Host) (types : TypeTable) (in_buf : Bool) (count : ℕ) (names : List (List ℕ))
    (p : List ℕ) (c : Counts) (r : (Imports × List (List ℕ)) × List ℕ)
    → scan_imports count no_counts p ≡ ok c
    → resolve_imports host types in_buf count 0 names no_imports p ≡ ok r
    → IsCounted c r.0.0
resolve_imports-IsCounted host types in_buf count names p c r e1 e2 =
    Ensures-ok
      (counts_scanned host types in_buf count 0 names no_counts no_imports p c
        (record { functions = refl; tables = refl; memories = refl; globals = refl }) e1)
      e2
