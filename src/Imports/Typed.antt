-- ===== src/Imports/Typed.antt =====
-- The import section (core/iwasm/common/wasm_loader.c) gives the types that the validator of a
-- function's code reads.
use wasm2native.Common.{
  ℕ, zero, suc, ◌+◌, ◌*◌, Bool, List, [], ◌∷◌, ◌++◌, length, get_elem?, All, leb, ◌==◌,
  if◌then◌else◌,
}
use wasm2native.Common.Ensures.{
  Ensures, holds, Ensures-bind, Ensures-then, Ensures-check, Ensures-reject, Ensures-if, Ensures-ok,
  Ensures-option,
}
use wasm2native.Common.Outcome.{ok, ◌>>=◌, ◌>>◌, unknown_type}
use wasm2native.Globals.{
  GlobalImport, link_global, lookup_builtin_import_global, spectest_import_globals,
  load_global_import,
}
use wasm2native.Imports.{
  FunctionImport, ImportKind, import_func, import_table, import_memory, import_global, Imports,
  no_imports, no_counts, import_kind, require_type, load_function_import, load_name, load_import,
  scan_imports, resolve_imports, load_import_section,
}
use wasm2native.Leb.{read_leb_uint32}
use wasm2native.Limits.{load_table_import, load_memory_import}
use wasm2native.Loader.{Host, imports_array, loader_malloc, need, read_uint8, is_value_type}
use wasm2native.Program.Typed.{IsTypedType, IsTypedImport, IsTypedGlobalImport, object-typed}
use wasm2native.Types.{TypeTable, type_at}
use wasm2native.Wasm.{wasm_get_smallest_type_idx}

All-snoc :
    {A : Type 0} (P : A → Type 0) (xs : List A) (x : A) → All P xs → P x → All P (xs ++ (x ∷ []))
All-snoc P [] x h k = (k, tt)
All-snoc P (y ∷ ys) x (h, hs) k = (h, All-snoc P ys x hs k)

-- The imports whose types the validator reads.
unfoldable pub IsTypedImports : Imports → Type 0
IsTypedImports m = All IsTypedImport m.functions × All IsTypedGlobalImport m.globals

module _ (types : TypeTable) (objects : All IsTypedType types.objects) where
  pub require_type-IsTypedType : (i : ℕ) → Ensures IsTypedType (require_type types i)
  unfolding require_type type_at
  require_type-IsTypedType i =
      let j = wasm_get_smallest_type_idx (type_at types) i in
      Ensures-option (type_at types j) unknown_type
        λ t found. holds (object-typed (get_elem? types.types j) types.objects t objects found)

  function_import-IsTypedImport :
      (module_name name : List ℕ) (n : ℕ) (p : List ℕ)
      → Ensures
          (λ (out : FunctionImport × List ℕ). IsTypedImport out.0)
          (load_function_import types module_name name n p)
  unfolding load_function_import IsTypedImport
  function_import-IsTypedImport module_name name n p =
      Ensures-bind (read_leb_uint32 p) λ (i, rest) e.
        Ensures-reject (leb (length types.types) i) _ λ _.
          Ensures-bind (require_type types i)
            λ t e'. holds (Ensures-ok (require_type-IsTypedType i) e')

  global_import-IsTypedGlobalImport :
      (module_name name p : List ℕ)
      → Ensures
          (λ (out : GlobalImport × List ℕ). IsTypedGlobalImport out.0)
          (load_global_import module_name name p)
  unfolding load_global_import IsTypedGlobalImport
  global_import-IsTypedGlobalImport module_name name p = Ensures-then (need 2 p) λ _.
      Ensures-bind (read_uint8 p) λ (t, p1) e1. Ensures-check (is_value_type t) _ λ value.
        Ensures-bind (read_uint8 p1) λ (m, p2) e2. Ensures-reject (leb 2 m) _ λ _.
          Ensures-bind
            (link_global (lookup_builtin_import_global module_name name spectest_import_globals) t
              m)
            λ _ _. holds value

  import-IsTypedImports :
      (module_name name : List ℕ) (kind : ImportKind) (m : Imports) (p : List ℕ)
      → IsTypedImports m
      → Ensures
          (λ (out : Imports × List ℕ). IsTypedImports out.0)
          (load_import types module_name name kind m p)
  unfolding load_import IsTypedImports
  import-IsTypedImports module_name name import_func m p h =
      Ensures-bind (load_function_import types module_name name (length m.functions) p)
        λ (f, rest) e. holds (
          All-snoc IsTypedImport m.functions f h.0 (
              Ensures-ok (function_import-IsTypedImport module_name name (length m.functions) p) e),
          h.1,
        )
  import-IsTypedImports module_name name import_table m p h =
      Ensures-bind (load_table_import module_name name p) λ _ _. holds h
  import-IsTypedImports module_name name import_memory m p h =
      Ensures-bind (load_memory_import module_name name p) λ _ _. holds h
  import-IsTypedImports module_name name import_global m p h =
      Ensures-bind (load_global_import module_name name p) λ (g, rest) e. holds (
        h.0,
        All-snoc IsTypedGlobalImport m.globals g h.1
            (Ensures-ok (global_import-IsTypedGlobalImport module_name name p) e),
      )

  imports-IsTypedImports :
      (host : Host) (from_file : Bool) (left n : ℕ) (names : List (List ℕ)) (m : Imports)
      (p : List ℕ)
      → IsTypedImports m
      → Ensures
          (λ (out : (Imports × List (List ℕ)) × List ℕ). IsTypedImports out.0.0)
          (resolve_imports host types from_file left n names m p)
  unfolding resolve_imports
  imports-IsTypedImports host from_file zero n names m p h = holds h
  imports-IsTypedImports host from_file (suc left) n names m p h =
      Ensures-bind (load_name host n from_file names p) λ ((m1, names1), p1) _.
        Ensures-bind (load_name host (n + 1) from_file names1 p1) λ ((m2, names2), p2) _.
          Ensures-bind (read_uint8 p2) λ (k, p3) _. Ensures-bind (import_kind k) λ kind _.
            Ensures-bind (load_import types m1 m2 kind m p3) λ (m', p4) e.
              imports-IsTypedImports host from_file left (n + 2) names2 m' p4
                (Ensures-ok (import-IsTypedImports m1 m2 kind m p3 h) e)

  pub load_import_section-IsTypedImports :
      (host : Host) (from_file : Bool) (names : List (List ℕ)) (p : List ℕ)
      → Ensures
          (λ (out : Imports × List (List ℕ)). IsTypedImports out.0)
          (load_import_section host types from_file names p)
  unfolding load_import_section IsTypedImports
  load_import_section-IsTypedImports host from_file names p =
      Ensures-bind (read_leb_uint32 p) λ (import_count, p1) _. Ensures-bind _ λ out e.
        Ensures-check (length out.1 == 0) _ λ _. holds (Ensures-ok (loaded import_count p1) e)
    where
      loaded :
          (count : ℕ) (p : List ℕ)
          → Ensures
              (λ (out : (Imports × List (List ℕ)) × List ℕ). IsTypedImports out.0.0)
              (if count == 0 then ok ((no_imports, names), p) else (do
                loader_malloc host imports_array (host.sizeof_import * count)
                counts ← scan_imports count no_counts p
                resolve_imports host types from_file count 0 names no_imports p))
      loaded count p =
          Ensures-if (count == 0) (λ _. holds (tt, tt))
            (λ _. Ensures-then (loader_malloc host imports_array (host.sizeof_import * count)) λ _.
              Ensures-bind (scan_imports count no_counts p)
                λ _ _. imports-IsTypedImports host from_file count 0 names no_imports p (tt, tt))
