-- ===== src/Imports.antt =====
-- The import section: `load_import_section` and `load_function_import` of
-- core/iwasm/common/wasm_loader.c. The section is read twice: the first pass counts the imports of
-- each kind, which lays out the one array for all of them; the second fills it, kind by kind.
pub mod Skipped
pub mod Counted
pub mod Few
pub mod Typed
use wasm2native.Common.{
  ℕ, zero, suc, ◌+◌, ◌*◌, Bool, true, false, Option, none, some, List, [], ◌∷◌, ◌++◌, length, drop,
  ltb, leb, ◌==◌, bit_and, nonzero, take, if◌then◌else◌,
}
use wasm2native.Common.Outcome.{
  Result, ok, err, ◌>>=◌, ◌>>◌, check, reject, multiple_tables, multiple_memories,
  invalid_import_kind, section_size_mismatch, unknown_type,
}
use wasm2native.Globals.{GlobalImport, load_global_import}
use wasm2native.Leb.{Read, read_leb_uint32}
use wasm2native.Limits.{WasmTable, WasmMemory, load_table_import, load_memory_import}
use wasm2native.Loader.{Host, imports_array, loader_malloc, need, skip, read_uint8}
use wasm2native.Names.{const_str_list_insert}
use wasm2native.Types.{TypeTable, type_at}
use wasm2native.Wasm.{WasmType, wasm_get_smallest_type_idx}

pub data ImportKind : Type 0 where
  import_func import_table import_memory import_global : ImportKind

-- The `switch (kind)` of both passes.
unfoldable pub import_kind : ℕ → Result ImportKind
import_kind kind =
    if kind == 0
    then ok import_func
    else if kind == 1
    then ok import_table
    else if kind == 2
    then ok import_memory
    else if kind == 3
    then ok import_global
    else err invalid_import_kind

pub record Counts : Type 0 where
  pub import_function_count : ℕ
  pub import_table_count : ℕ
  pub import_memory_count : ℕ
  pub import_global_count : ℕ

unfoldable pub skip_name : List ℕ → Result (List ℕ)
skip_name p = do (name_len, p) ← read_leb_uint32 p; skip name_len p

unfoldable pub skip_max : ℕ → List ℕ → Result (List ℕ)
skip_max flags p =
    if nonzero (bit_and flags 1) then (do (u32, p) ← read_leb_uint32 p; ok p) else ok p

unfoldable pub skip_limits : List ℕ → Result (List ℕ)
skip_limits p = do (flags, p) ← read_leb_uint32 p; (u32, p) ← read_leb_uint32 p; skip_max flags p

-- What the first pass skips for each kind, and counts.
unfoldable pub count_import : ImportKind → Counts → List ℕ → Read Counts
count_import import_func c p = do
  (type_index, p) ← read_leb_uint32 p
  ok (record c { import_function_count = c.import_function_count + 1 }, p)
count_import import_table c p = do
  (u8, p) ← read_uint8 p
  p ← skip_limits p
  reject (ltb 1 (c.import_table_count + 1)) multiple_tables
  ok (record c { import_table_count = c.import_table_count + 1 }, p)
count_import import_memory c p = do
  p ← skip_limits p
  reject (ltb 1 (c.import_memory_count + 1)) multiple_memories
  ok (record c { import_memory_count = c.import_memory_count + 1 }, p)
count_import import_global c p = do
  p ← skip 2 p
  ok (record c { import_global_count = c.import_global_count + 1 }, p)

-- Scan firstly to get import count of each type. The last pointer is given up.
unfoldable pub scan_imports : ℕ → Counts → List ℕ → Result Counts
scan_imports zero c p = ok c
scan_imports (suc left) c p = do
  p ← skip_name p
  p ← skip_name p
  (kind, p) ← read_uint8 p
  kind ← import_kind kind
  (c, p) ← count_import kind c p
  scan_imports left c p

pub record FunctionImport : Type 0 where
  pub module_name : List ℕ
  pub field_name : List ℕ
  pub func_idx : ℕ
  pub func_type : WasmType

-- `module->types[i]` where the index is in range.
unfoldable pub require_type : TypeTable → ℕ → Result WasmType
require_type types i = elim (type_at types (wasm_get_smallest_type_idx (type_at types) i)) [
  | none ↦ err unknown_type
  | some type ↦ ok type
]

unfoldable pub load_function_import : TypeTable → List ℕ → List ℕ → ℕ → List ℕ → Read FunctionImport
load_function_import types sub_module_name function_name func_idx p = do
  (declare_type_index, p) ← read_leb_uint32 p
  reject (leb (length types.types) declare_type_index) unknown_type
  declare_func_type ← require_type types declare_type_index
  ok (
    record {
      module_name = sub_module_name;
      field_name = function_name;
      func_idx = func_idx;
      func_type = declare_func_type;
    },
    p,
  )

-- The array of imports, one list for the part of each kind.
pub record Imports : Type 0 where
  pub functions : List FunctionImport
  pub tables : List WasmTable
  pub memories : List WasmMemory
  pub globals : List GlobalImport

abbrev pub no_imports : Imports
no_imports = record { functions = []; tables = []; memories = []; globals = [] }

-- The names are inserted before their bytes are passed.
unfoldable pub load_name : Host → ℕ → Bool → List (List ℕ) → List ℕ → Read (List ℕ × List (List ℕ))
load_name host n is_load_from_file_buf names p = do
  (name_len, p) ← read_leb_uint32 p
  need name_len p
  named ← const_str_list_insert host n (take name_len p) is_load_from_file_buf names
  ok (named, drop name_len p)

-- The second pass for each kind: the structure is put behind those of its kind.
unfoldable pub load_import :
    TypeTable → List ℕ → List ℕ → ImportKind → Imports → List ℕ → Read Imports
load_import types sub_module_name field_name import_func imports p = do
  (f, p) ← load_function_import types sub_module_name field_name (length imports.functions) p
  ok (record imports { functions = imports.functions ++ (f ∷ []) }, p)
load_import types sub_module_name field_name import_table imports p = do
  (t, p) ← load_table_import sub_module_name field_name p
  ok (record imports { tables = imports.tables ++ (t ∷ []) }, p)
load_import types sub_module_name field_name import_memory imports p = do
  (m, p) ← load_memory_import sub_module_name field_name p
  ok (record imports { memories = imports.memories ++ (m ∷ []) }, p)
load_import types sub_module_name field_name import_global imports p = do
  (g, p) ← load_global_import sub_module_name field_name p
  ok (record imports { globals = imports.globals ++ (g ∷ []) }, p)

-- Scan again to resolve the data. `n` numbers the names of the section.
unfoldable pub resolve_imports :
    Host
    → TypeTable
    → Bool
    → ℕ
    → ℕ
    → List (List ℕ)
    → Imports
    → List ℕ
    → Read (Imports × List (List ℕ))
resolve_imports host types is_load_from_file_buf zero n names imports p = ok ((imports, names), p)
resolve_imports host types is_load_from_file_buf (suc left) n names imports p = do
  ((sub_module_name, names), p) ← load_name host n is_load_from_file_buf names p
  ((field_name, names), p) ← load_name host (n + 1) is_load_from_file_buf names p
  (kind, p) ← read_uint8 p
  kind ← import_kind kind
  (imports, p) ← load_import types sub_module_name field_name kind imports p
  resolve_imports host types is_load_from_file_buf left (n + 2) names imports p

abbrev pub no_counts : Counts
no_counts = record {
  import_function_count = 0;
  import_table_count = 0;
  import_memory_count = 0;
  import_global_count = 0;
}

-- The imports, and the module's list of strings.
unfoldable pub load_import_section :
    Host → TypeTable → Bool → List (List ℕ) → List ℕ → Result (Imports × List (List ℕ))
load_import_section host types is_load_from_file_buf names p = do
  (import_count, p) ← read_leb_uint32 p
  loaded ←
      (if import_count == 0 then ok ((no_imports, names), p) else (do
        loader_malloc host imports_array (host.sizeof_import * import_count)
        counts ← scan_imports import_count no_counts p
        resolve_imports host types is_load_from_file_buf import_count 0 names no_imports p))
  check (length loaded.1 == 0) section_size_mismatch
  ok loaded.0
