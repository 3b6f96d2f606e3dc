-- ===== src/Types.antt =====
-- The type section: `load_type_section` of core/iwasm/common/wasm_loader.c. Types that are equal
-- share one object, whose `ref_count` counts the entries that point to it.
pub mod Entries
pub mod Sharing
pub mod Section
use wasm2native.Common.{
  ℕ, zero, suc, ◌+◌, ◌-◌, ◌*◌, ◌<◌, Bool, true, false, not, ◌&&◌, ◌||◌, Option, none, some, List,
  [], ◌∷◌, ◌++◌, length, get_elem?, ltb, ◌==◌, if◌then◌else◌,
}
use wasm2native.Common.Outcome.{
  Result, ok, err, ◌>>=◌, ◌>>◌, check, reject, invalid_type_flag, counts_too_large,
  unknown_value_type, ref_count_too_large, section_size_mismatch,
}
use wasm2native.Leb.{Read, read_leb_uint32}
use wasm2native.Loader.{
  Host, types_array, type_entry, loader_malloc, need, skip, read_uint8, read_uint8s, is_value_type,
}
use wasm2native.Wasm.{WasmType, wasm_get_cell_num, wasm_type_equal}

unfoldable pub all_value_types : List ℕ → Bool
all_value_types [] = true
all_value_types (t ∷ ts) = is_value_type t && all_value_types ts

-- One entry, up to the search for an equal type. The counts are read ahead of the types, so that the
-- object can be allocated.
unfoldable pub load_type_entry : Host → ℕ → List ℕ → Read WasmType
load_type_entry host i p = do
  (flag, p) ← read_uint8 p
  reject (not (flag == 0x60)) invalid_type_flag
  (param_count, p_org) ← read_leb_uint32 p
  p ← skip param_count p_org
  (result_count, p) ← read_leb_uint32 p
  need result_count p
  reject (ltb 0xFFFF param_count || ltb 0xFFFF result_count) counts_too_large
  loader_malloc host (type_entry i) (host.sizeof_type + (param_count + result_count))
  (params, p) ← read_uint8s param_count p_org
  (result_count, p) ← read_leb_uint32 p
  (results, p) ← read_uint8s result_count p
  check (all_value_types (params ++ results)) unknown_value_type
  let param_cell_num = wasm_get_cell_num params 0
  let ret_cell_num = wasm_get_cell_num results 0
  reject (ltb 0xFFFF param_cell_num || ltb 0xFFFF ret_cell_num) counts_too_large
  ok (
    record {
      param_count = param_count;
      result_count = result_count;
      param_cell_num = param_cell_num;
      ret_cell_num = ret_cell_num;
      ref_count = 1;
      types = params ++ results;
    },
    p,
  )

-- The types of a module: `types` is the array of pointers, and a pointer is the place of its object
-- among `objects`.
pub record TypeTable : Type 0 where
  pub objects : List WasmType
  pub types : List ℕ

-- `module->types[j]->ref_count++` for the object at a place; `none` where it has reached UINT16_MAX.
unfoldable pub add_reference : List WasmType → ℕ → Option (List WasmType)
add_reference [] a = none
add_reference (o ∷ os) zero =
    if o.ref_count == 0xFFFF then none else some (record o { ref_count = o.ref_count + 1 } ∷ os)
add_reference (o ∷ os) (suc a) = elim (add_reference os a) [
  | none ↦ none
  | some os' ↦ some (o ∷ os')
]

-- `for (j = 0; j < i; j++) if (wasm_type_equal(type, module->types[j]))`: the pointer in the first
-- entry whose object equals `type`.
unfoldable pub find_equal : WasmType → List WasmType → List ℕ → Option ℕ
find_equal type objects [] = none
find_equal type objects (a ∷ pointers) =
    let rest = find_equal type objects pointers in
    elim (get_elem? objects a) [
      | none ↦ rest
      | some o ↦ if wasm_type_equal type o then some a else rest
    ]

-- If there is already a same type created, use it instead: the new object is freed.
unfoldable pub share_type : WasmType → TypeTable → Result TypeTable
share_type type t = elim (find_equal type t.objects t.types) [
  | none ↦
      ok (record { objects = t.objects ++ (type ∷ []); types = t.types ++ (length t.objects ∷ []) })
  | some a ↦ elim (add_reference t.objects a) [
    | none ↦ err ref_count_too_large
    | some os ↦ ok (record { objects = os; types = t.types ++ (a ∷ []) })
  ]
]

unfoldable pub load_types : Host → ℕ → ℕ → List ℕ → TypeTable → Read TypeTable
load_types host zero i p t = ok (t, p)
load_types host (suc left) i p t = do
  (type, p) ← load_type_entry host i p
  t ← share_type type t
  load_types host left (i + 1) p t

abbrev pub no_types : TypeTable
no_types = record { objects = []; types = [] }

-- The type behind an entry.
unfoldable pub type_at : TypeTable → ℕ → Option WasmType
type_at t i = elim (get_elem? t.types i) [ none ↦ none | some a ↦ get_elem? t.objects a ]

unfoldable pub load_type_section : Host → List ℕ → Result TypeTable
load_type_section host p = do
  (type_count, p) ← read_leb_uint32 p
  loaded ←
      (if type_count == 0 then ok (no_types, p) else (do
        loader_malloc host types_array (host.sizeof_pointer * type_count)
        load_types host type_count 0 p no_types))
  check (length loaded.1 == 0) section_size_mismatch
  ok loaded.0
