-- ===== src/Tests/Reads.antt =====
-- Runs of the readers of core/iwasm/common/wasm_loader.c.
use wasm2native.Common.{[], arith, refl, true, ℕ, ◌-◌, ◌<◌, ◌^◌, ◌↔◌, ◌∷◌, ◌≡◌, ◌≢◌, ◌≤◌}
use wasm2native.Common.Outcome.{ok}
use wasm2native.Leb.{
  check_top_bits, finish_leb, read_leb, read_leb_int32, read_leb_loop, read_leb_uint32, sign_extend,
}
use wasm2native.Leb.Signed.{StartsWithInt32, read_leb_int32_iff}
use wasm2native.Leb.Unsigned.{StartsWithUint32, read_leb_uint32_iff}
use wasm2native.Limits.{
  WasmMemory, adjust_table_max_size, check_memory_flags, check_memory_init_size,
  check_memory_max_size, link_memory, load_memory, load_memory_import, read_memory_max,
}
use wasm2native.Limits.Memories.{IsValidMemory, load_memory-IsValid, load_memory_import-IsValid}
use wasm2native.Limits.Tables.{adjust_table_max_size_cases}
use wasm2native.Loader.{check_buf}
use wasm2native.Loader.Reads.{check_buf_iff}
use wasm2native.Utf8.{check_utf8_str}
use wasm2native.Utf8.Valid.{IsUtf8, check_utf8_str_iff}

-- 624485 in three bytes, and a byte behind it.
read_leb_uint32_iff_example :
    (read_leb_uint32 (0xE5 ∷ 0x8E ∷ 0x26 ∷ 0x01 ∷ []) ≡ ok (624485, 0x01 ∷ []))
    ↔ StartsWithUint32 (0xE5 ∷ 0x8E ∷ 0x26 ∷ 0x01 ∷ []) 624485 (0x01 ∷ [])
read_leb_uint32_iff_example =
    read_leb_uint32_iff (0xE5 ∷ 0x8E ∷ 0x26 ∷ 0x01 ∷ []) 624485 (0x01 ∷ [])
      (omega arith, (omega arith, (omega arith, (omega arith, tt))))

-- -123456 as a pattern of 32 bits.
read_leb_int32_iff_example :
    (read_leb_int32 (0xC0 ∷ 0xBB ∷ 0x78 ∷ []) ≡ ok (4294843840, []))
    ↔ StartsWithInt32 (0xC0 ∷ 0xBB ∷ 0x78 ∷ []) 4294843840 []
read_leb_int32_iff_example =
    read_leb_int32_iff (0xC0 ∷ 0xBB ∷ 0x78 ∷ []) 4294843840 []
      (omega arith, (omega arith, (omega arith, tt)))

-- A euro sign.
check_utf8_str_iff_example :
    (check_utf8_str (0xE2 ∷ 0x82 ∷ 0xAC ∷ []) ≡ true) ↔ IsUtf8 (0xE2 ∷ 0x82 ∷ 0xAC ∷ [])
check_utf8_str_iff_example = check_utf8_str_iff (0xE2 ∷ 0x82 ∷ 0xAC ∷ [])

check_buf_iff_example : (check_buf 4096 4104 8 ≡ true) ↔ (8 ≤ 4104 - 4096)
check_buf_iff_example = check_buf_iff 4096 4104 8 (omega arith) (omega arith) (omega arith)

abbrev many : ℕ
many = 3000000000

-- Three billion entries with a larger maximum.
adjust_table_max_size_cases_example :
    (3000000000 < 2 ^ 31
      → (3000000000 ≤ adjust_table_max_size 3000000000 1 4000000000)
        × (adjust_table_max_size 3000000000 1 4000000000 ≤ 4000000000))
    × (2 ^ 31 ≤ 3000000000
        → many ≢ 4000000000
        → adjust_table_max_size 3000000000 1 4000000000 < 3000000000)
adjust_table_max_size_cases_example =
    adjust_table_max_size_cases 3000000000 1 4000000000 (λ e. omega arith) (omega arith)
      (omega arith)

abbrev shared_memory : WasmMemory
shared_memory = record {
  flags = 3;
  num_bytes_per_page = 65536;
  init_page_count = 1;
  max_page_count = 2;
}

abbrev memory_loaded : load_memory (3 ∷ 1 ∷ 2 ∷ []) ≡ ok (shared_memory, [])
unfolding check_memory_flags check_memory_init_size check_memory_max_size check_top_bits finish_leb
    load_memory read_leb read_leb_loop read_leb_uint32 read_memory_max sign_extend
memory_loaded = refl

load_memory-IsValid_example : IsValidMemory shared_memory
load_memory-IsValid_example = load_memory-IsValid (3 ∷ 1 ∷ 2 ∷ []) shared_memory [] memory_loaded

abbrev memory_imported :
    load_memory_import (b'e' ∷ []) (b'm' ∷ []) (3 ∷ 1 ∷ 2 ∷ []) ≡ ok (shared_memory, [])
unfolding check_memory_flags check_memory_init_size check_memory_max_size check_top_bits finish_leb
    link_memory load_memory load_memory_import read_leb read_leb_loop read_leb_uint32
    read_memory_max sign_extend
memory_imported = refl

load_memory_import-IsValid_example : IsValidMemory shared_memory
load_memory_import-IsValid_example =
    load_memory_import-IsValid (b'e' ∷ []) (b'm' ∷ []) (3 ∷ 1 ∷ 2 ∷ []) shared_memory []
      memory_imported
