-- ===== src/Loader.antt =====
-- What the parts of the loader (core/iwasm/common/wasm_loader.c) share: the bounds check, reads of
-- single bytes, the allocator, and the classes of value types.
pub mod Reads
use wasm2native.Common.{
  ℕ, zero, suc, ◌+◌, ◌-◌, ◌%◌, ◌^◌, Bool, true, false, not, ◌&&◌, ◌||◌, List, [], ◌∷◌, length, drop,
  ltb, leb, ◌==◌, if◌then◌else◌,
}
use wasm2native.Common.Outcome.{
  Result, ok, err, ◌>>=◌, ◌>>◌, check, unexpected_end_of_section, unexpected_end,
  allocate_memory_failed,
}
use wasm2native.Leb.{Read}
use wasm2native.Wasm.{
  value_type_i32, value_type_i64, value_type_f32, value_type_f64, value_type_v128, value_type_void,
  value_type_any,
}

-- `check_buf` over addresses, which are uintptr_t of 64 bits: the sum that is compared may wrap.
unfoldable pub check_buf : ℕ → ℕ → ℕ → Bool
check_buf buf buf_end count =
    let end_of_read = (buf + count) % 2 ^ 64 in not (ltb end_of_read buf || ltb buf_end end_of_read)

-- CHECK_BUF over the bytes that are left: `Reads.check_buf_iff` relates the two.
unfoldable pub need : ℕ → List ℕ → Result (Unit {0})
need n p = check (leb n (length p)) unexpected_end_of_section

-- CHECK_BUF1, which says less.
unfoldable pub need1 : ℕ → List ℕ → Result (Unit {0})
need1 n p = check (leb n (length p)) unexpected_end

-- CHECK_BUF(p, p_end, 1) and read_uint8(p).
unfoldable pub read_uint8 : List ℕ → Read ℕ
read_uint8 [] = err unexpected_end_of_section
read_uint8 (b ∷ p) = ok (b, p)

-- A loop of such reads.
unfoldable pub read_uint8s : ℕ → List ℕ → Read (List ℕ)
read_uint8s zero p = ok ([], p)
read_uint8s (suc n) p = do (b, p) ← read_uint8 p; (bs, p) ← read_uint8s n p; ok (b ∷ bs, p)

-- CHECK_BUF(p, p_end, n) and p += n.
unfoldable pub skip : ℕ → List ℕ → Result (List ℕ)
skip n p = need n p >> ok (drop n p)

-- The places where the loader allocates; the number is the round of the loop around the place.
pub data Site : Type 0 where
  types_array imports_array functions_array tables_array memories_array globals_array : Site
  exports_array table_segments_array data_segments_array : Site
  type_entry function_entry local_offsets func_indexes data_segment section_entry string_node :
      ℕ → Site

-- What the build and the C library decide: the size of each structure, and whether the allocation
-- of so many bytes at a place succeeds. Each place is passed once in a load, so the answers of
-- any allocator, whatever it remembers, are such a function.
pub record Host : Type 0 where
  pub malloc : Site → ℕ → Bool
  pub sizeof_pointer : ℕ
  pub sizeof_type : ℕ
  pub sizeof_import : ℕ
  pub sizeof_function : ℕ
  pub sizeof_table : ℕ
  pub sizeof_memory : ℕ
  pub sizeof_global : ℕ
  pub sizeof_export : ℕ
  pub sizeof_table_seg : ℕ
  pub sizeof_data_seg : ℕ
  pub sizeof_section : ℕ
  pub sizeof_string_node : ℕ

-- `size >= UINT32_MAX || !(mem = wasm_runtime_malloc((uint32)size))`
unfoldable pub loader_malloc : Host → Site → ℕ → Result (Unit {0})
loader_malloc host site size =
    check (ltb size (2 ^ 32 - 1) && host.malloc site size) allocate_memory_failed

unfoldable pub is_32bit_type : ℕ → Bool
is_32bit_type type = type == value_type_i32 || (type == value_type_f32 || type == value_type_any)

unfoldable pub is_64bit_type : ℕ → Bool
is_64bit_type type = type == value_type_i64 || type == value_type_f64

unfoldable pub is_value_type : ℕ → Bool
is_value_type type =
    type == value_type_i32
    || (type == value_type_i64
        || (type == value_type_f32 || (type == value_type_f64 || type == value_type_v128)))

unfoldable pub is_byte_a_type : ℕ → Bool
unfolding is_value_type
is_byte_a_type type = is_value_type type || type == value_type_void
