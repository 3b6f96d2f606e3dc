-- ===== src/Limits.antt =====
-- Tables and memories, defined and imported: the limits that core/iwasm/common/wasm_loader.c reads,
-- checks and adjusts. `load_table`, `load_memory` and the sections that call them.
pub mod Memories
pub mod Tables
use wasm2native.Common.{
  ℕ, zero, suc, ◌+◌, ◌-◌, ◌*◌, ◌%◌, ◌^◌, Bool, true, false, not, ◌&&◌, ◌||◌, List, [], ◌∷◌, length,
  bit_and, ltb, leb, ◌==◌, nonzero, same_bytes, if◌then◌else◌,
}
use wasm2native.Common.Outcome.{
  Result, ok, err, ◌>>=◌, ◌>>◌, check, reject, incompatible_import_type,
  incompatible_or_unknown_import, integer_too_large, size_minimum_too_large, memory_too_large,
  memory64_too_large, invalid_limits_flags, shared_memory_needs_maximum, tables_cannot_be_shared,
  multiple_tables, multiple_memories, section_size_mismatch,
}
use wasm2native.Leb.{Read, read_leb_uint32}
use wasm2native.Loader.{Host, tables_array, memories_array, loader_malloc, read_uint8}
use wasm2native.Wasm.{value_type_funcref}

-- A C string literal of the source, as bytes.
abbrev pub name_spectest : List ℕ
name_spectest = b's' ∷ b'p' ∷ b'e' ∷ b'c' ∷ b't' ∷ b'e' ∷ b's' ∷ b't' ∷ []

abbrev pub name_table : List ℕ
name_table = b't' ∷ b'a' ∷ b'b' ∷ b'l' ∷ b'e' ∷ []

abbrev pub name_memory : List ℕ
name_memory = b'm' ∷ b'e' ∷ b'm' ∷ b'o' ∷ b'r' ∷ b'y' ∷ []

abbrev pub table_max_size : ℕ
table_max_size = 1024

-- `init_size * 2` is a uint32.
unfoldable pub adjust_table_max_size : ℕ → ℕ → ℕ → ℕ
adjust_table_max_size init_size max_size_flag max_size =
    let doubled = init_size * 2 % 2 ^ 32 in
    let default_max_size = if ltb table_max_size doubled then doubled else table_max_size in
    if nonzero max_size_flag
    then (if ltb init_size max_size
        then (if ltb max_size default_max_size then max_size else default_max_size)
        else max_size)
    else default_max_size

unfoldable pub check_table_max_size : ℕ → ℕ → Result (Unit {0})
check_table_max_size init_size max_size = reject (ltb max_size init_size) size_minimum_too_large

-- WASMTable, and the part of WASMTableImport that says the same.
pub record WasmTable : Type 0 where
  pub elem_type : ℕ
  pub flags : ℕ
  pub init_size : ℕ
  pub max_size : ℕ

-- The maximum, where there is one: 0 is the value of the cleared structure.
unfoldable pub read_table_max : ℕ → ℕ → List ℕ → Read ℕ
read_table_max flags init_size p =
    if nonzero flags
    then (do
      (max_size, p) ← read_leb_uint32 p
      check_table_max_size init_size max_size
      ok (max_size, p))
    else ok (0, p)

unfoldable pub load_table : List ℕ → Read WasmTable
load_table p = do
  (elem_type, p) ← read_uint8 p
  reject (not (value_type_funcref == elem_type)) incompatible_import_type
  (flags, p) ← read_leb_uint32 p
  reject (ltb 7 flags) invalid_limits_flags
  reject (nonzero (bit_and flags 0x02)) tables_cannot_be_shared
  (init_size, p) ← read_leb_uint32 p
  (max_size, p) ← read_table_max flags init_size p
  ok (
    record {
      elem_type = elem_type;
      flags = flags;
      init_size = init_size;
      max_size = adjust_table_max_size init_size flags max_size;
    },
    p,
  )

-- The table that the test suite's host module offers.
unfoldable pub link_table : List ℕ → List ℕ → WasmTable → Result WasmTable
link_table sub_module_name table_name table =
    if same_bytes name_spectest sub_module_name
    then (do
      check (same_bytes name_table table_name) incompatible_or_unknown_import
      reject (ltb 10 table.init_size || ltb table.max_size 20) incompatible_import_type
      ok (record table { init_size = 10; max_size = 20 }))
    else ok table

unfoldable pub load_table_import : List ℕ → List ℕ → List ℕ → Read WasmTable
load_table_import sub_module_name table_name p = do
  (elem_type, p) ← read_uint8 p
  reject (not (value_type_funcref == elem_type)) incompatible_import_type
  (flags, p) ← read_leb_uint32 p
  reject (ltb 1 flags) integer_too_large
  (init_size, p) ← read_leb_uint32 p
  (max_size, p) ← read_table_max flags init_size p
  table ← link_table sub_module_name table_name (record {
    elem_type = elem_type;
    flags = flags;
    init_size = init_size;
    max_size = adjust_table_max_size init_size flags max_size;
  })
  ok (table, p)

abbrev pub max_page_count_flag : ℕ
max_page_count_flag = 0x01

abbrev pub shared_memory_flag : ℕ
shared_memory_flag = 0x02

abbrev pub memory64_flag : ℕ
memory64_flag = 0x04

-- `is_memory64 ? DEFAULT_MEM64_MAX_PAGES : DEFAULT_MAX_PAGES`
abbrev pub default_max_pages : Bool → ℕ
default_max_pages is_memory64 = if is_memory64 then 2 ^ 32 - 1 else 65536

abbrev pub too_many_pages : Bool → ℕ → Result (Unit {0})
too_many_pages is_memory64 size =
    if not is_memory64 && ltb (default_max_pages is_memory64) size
    then err memory_too_large
    else if is_memory64 && ltb (default_max_pages is_memory64) size
    then err memory64_too_large
    else ok tt

unfoldable pub check_memory_init_size : Bool → ℕ → Result (Unit {0})
check_memory_init_size is_memory64 init_size = too_many_pages is_memory64 init_size

unfoldable pub check_memory_max_size : Bool → ℕ → ℕ → Result (Unit {0})
check_memory_max_size is_memory64 init_size max_size =
    reject (ltb max_size init_size) size_minimum_too_large >> too_many_pages is_memory64 max_size

unfoldable pub check_memory_flags : ℕ → Result (Unit {0})
check_memory_flags memory_flags =
    if ltb (max_page_count_flag + shared_memory_flag + memory64_flag) memory_flags
    then err invalid_limits_flags
    else if nonzero (bit_and memory_flags shared_memory_flag)
        && not (nonzero (bit_and memory_flags max_page_count_flag))
    then err shared_memory_needs_maximum
    else ok tt

-- WASMMemory, and the part of WASMMemoryImport that says the same.
pub record WasmMemory : Type 0 where
  pub flags : ℕ
  pub num_bytes_per_page : ℕ
  pub init_page_count : ℕ
  pub max_page_count : ℕ

unfoldable pub read_memory_max : ℕ → Bool → ℕ → List ℕ → Read ℕ
read_memory_max memory_flags is_memory64 init_page_count p =
    if nonzero (bit_and memory_flags max_page_count_flag)
    then (do
      (max_page_count, p) ← read_leb_uint32 p
      check_memory_max_size is_memory64 init_page_count max_page_count
      ok (
        if ltb (default_max_pages is_memory64) max_page_count
            then default_max_pages is_memory64
            else max_page_count,
        p,
      ))
    else ok (default_max_pages is_memory64, p)

-- The flags take one byte: `p - p_org > 1` is refused.
unfoldable pub load_memory : List ℕ → Read WasmMemory
load_memory p_org = do
  (memory_flags, p) ← read_leb_uint32 p_org
  let is_memory64 = nonzero (bit_and memory_flags memory64_flag)
  reject (ltb 1 (length p_org - length p)) invalid_limits_flags
  check_memory_flags memory_flags
  (init_page_count, p) ← read_leb_uint32 p
  check_memory_init_size is_memory64 init_page_count
  (max_page_count, p) ← read_memory_max memory_flags is_memory64 init_page_count p
  ok (
    record {
      flags = memory_flags;
      num_bytes_per_page = 65536;
      init_page_count = init_page_count;
      max_page_count = max_page_count;
    },
    p,
  )

unfoldable pub link_memory : List ℕ → List ℕ → WasmMemory → Result WasmMemory
link_memory sub_module_name memory_name memory =
    if same_bytes name_spectest sub_module_name
    then (do
      check (same_bytes name_memory memory_name) incompatible_or_unknown_import
      reject (ltb 1 memory.init_page_count || ltb memory.max_page_count 2) incompatible_import_type
      ok (record memory { init_page_count = 1; max_page_count = 2 }))
    else ok memory

-- Up to the host module's memory the import reads what `load_memory` reads.
unfoldable pub load_memory_import : List ℕ → List ℕ → List ℕ → Read WasmMemory
load_memory_import sub_module_name memory_name p = do
  (memory, p) ← load_memory p
  memory ← link_memory sub_module_name memory_name memory
  ok (memory, p)

unfoldable pub load_tables : ℕ → List ℕ → Read (List WasmTable)
load_tables zero p = ok ([], p)
load_tables (suc left) p = do
  (table, p) ← load_table p
  (tables, p) ← load_tables left p
  ok (table ∷ tables, p)

unfoldable pub load_memories : ℕ → List ℕ → Read (List WasmMemory)
load_memories zero p = ok ([], p)
load_memories (suc left) p = do
  (memory, p) ← load_memory p
  (memories, p) ← load_memories left p
  ok (memory ∷ memories, p)

-- The sum of the counts is a uint32.
unfoldable pub load_table_section : Host → ℕ → List ℕ → Result (List WasmTable)
load_table_section host import_table_count p = do
  (table_count, p) ← read_leb_uint32 p
  reject (ltb 1 ((import_table_count + table_count) % 2 ^ 32)) multiple_tables
  loaded ←
      (if table_count == 0
        then ok ([], p)
        else (loader_malloc host tables_array (host.sizeof_table * table_count)
            >> load_tables table_count p))
  check (length loaded.1 == 0) section_size_mismatch
  ok loaded.0

unfoldable pub load_memory_section : Host → ℕ → List ℕ → Result (List WasmMemory)
load_memory_section host import_memory_count p = do
  (memory_count, p) ← read_leb_uint32 p
  reject (ltb 1 ((import_memory_count + memory_count) % 2 ^ 32)) multiple_memories
  loaded ←
      (if memory_count == 0
        then ok ([], p)
        else (loader_malloc host memories_array (host.sizeof_memory * memory_count)
            >> load_memories memory_count p))
  check (length loaded.1 == 0) section_size_mismatch
  ok loaded.0
