-- ===== src/Exports.antt =====
-- The export section: `load_export_section` of core/iwasm/common/wasm_loader.c.
pub mod Checked
use wasm2native.Common.{
  ℕ, zero, suc, ◌+◌, ◌*◌, ◌%◌, ◌^◌, Bool, true, false, ◌||◌, List, [], ◌∷◌, ◌++◌, length, take,
  drop, ltb, leb, ◌==◌, same_bytes, if◌then◌else◌,
}
use wasm2native.Common.Outcome.{
  Result, ok, err, ◌>>=◌, ◌>>◌, check, reject, LoadError, length_out_of_bounds,
  duplicate_export_name, invalid_export_kind, section_size_mismatch, unknown_function,
  unknown_table, unknown_memory, unknown_global,
}
use wasm2native.Leb.{Read, read_leb_uint32}
use wasm2native.Loader.{Host, exports_array, loader_malloc, need, read_uint8}
use wasm2native.Names.{const_str_list_insert}

pub record Export : Type 0 where
  pub name : List ℕ
  pub kind : ℕ
  pub index : ℕ

-- The number of functions, tables, memories and globals of the module, imports included: sums of
-- uint32 counts.
pub record Spaces : Type 0 where
  pub functions : ℕ
  pub tables : ℕ
  pub memories : ℕ
  pub globals : ℕ

-- strlen: a name ends at its first zero byte.
unfoldable pub c_string : List ℕ → List ℕ
c_string [] = []
c_string (b ∷ bs) = let rest = c_string bs in if b == 0 then [] else b ∷ rest

-- The loop over the exports before this one: `strlen(name) == str_len && memcmp(name, p, str_len) == 0`
unfoldable pub already_exported : List ℕ → List Export → Bool
already_exported str [] = false
already_exported str (e ∷ es) = same_bytes (c_string e.name) str || already_exported str es

-- The `switch` over the kind.
unfoldable pub check_export_index : Spaces → ℕ → ℕ → Result (Unit {0})
check_export_index spaces kind index =
    if kind == 0
    then reject (leb spaces.functions index) unknown_function
    else if kind == 1
    then reject (leb spaces.tables index) unknown_table
    else if kind == 2
    then reject (leb spaces.memories index) unknown_memory
    else if kind == 3
    then reject (leb spaces.globals index) unknown_global
    else err invalid_export_kind

-- One export behind those in `exports`; `n` numbers the names.
unfoldable pub load_export :
    Host → Spaces → Bool → ℕ → List (List ℕ) → List Export → List ℕ → Read (Export × List (List ℕ))
load_export host spaces is_load_from_file_buf n names exports p = do
  reject (length p == 0) length_out_of_bounds
  (str_len, p) ← read_leb_uint32 p
  need str_len p
  let str = take str_len p
  reject (already_exported str exports) duplicate_export_name
  (name, names) ← const_str_list_insert host n str is_load_from_file_buf names
  (kind, p) ← read_uint8 (drop str_len p)
  (index, p) ← read_leb_uint32 p
  check_export_index spaces kind index
  ok ((record { name = name; kind = kind; index = index }, names), p)

unfoldable pub load_exports :
    Host
    → Spaces
    → Bool
    → ℕ
    → ℕ
    → List (List ℕ)
    → List Export
    → List ℕ
    → Read (List Export × List (List ℕ))
load_exports host spaces is_load_from_file_buf zero n names exports p = ok ((exports, names), p)
load_exports host spaces is_load_from_file_buf (suc left) n names exports p = do
  ((export, names), p) ← load_export host spaces is_load_from_file_buf n names exports p
  load_exports host spaces is_load_from_file_buf left (n + 1) names (exports ++ (export ∷ [])) p

-- The exports, and the module's list of strings; the names of the section are numbered from `n` on.
unfoldable pub load_export_section :
    Host → Spaces → Bool → ℕ → List (List ℕ) → List ℕ → Result (List Export × List (List ℕ))
load_export_section host spaces is_load_from_file_buf n names p = do
  (export_count, p) ← read_leb_uint32 p
  loaded ←
      (if export_count == 0
        then ok (([], names), p)
        else (loader_malloc host exports_array (host.sizeof_export * export_count)
            >> load_exports host spaces is_load_from_file_buf export_count n names [] p))
  check (length loaded.1 == 0) section_size_mismatch
  ok loaded.0
