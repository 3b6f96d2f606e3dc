-- ===== src/Opcodes.antt =====
-- Instructions that only take values off the stack and put one on it, as
-- `wasm_loader_prepare_bytecode` of core/iwasm/common/wasm_loader.c reads them, and the checks of
-- alignments and lanes beside it.
pub mod Typed
pub mod Aligned
use wasm2native.Common.{
  ℕ, ◌-◌, ◌%◌, Bool, false, ◌&&◌, ◌||◌, Option, none, some, List, [], ◌∷◌, get_elem?, ltb, leb,
  ◌==◌, if◌then◌else◌,
}
use wasm2native.Common.Outcome.{
  Result, ok, err, ◌>>◌, check, reject, alignment_too_large, alignment_not_natural, no_memarg,
  invalid_lane_index,
}
use wasm2native.Wasm.{
  value_type_i32, value_type_i64, value_type_f32, value_type_f64, value_type_v128,
}

-- POP_AND_PUSH and POP2_AND_PUSH: so many values of a type are taken, and one is put back.
pub record Signature : Type 0 where
  pub pop_cnt : ℕ
  pub type_pop : ℕ
  pub type_push : ℕ

abbrev pub takes : ℕ → ℕ → ℕ → Option Signature
takes pop_cnt type_pop type_push =
    some (record { pop_cnt = pop_cnt; type_pop = type_pop; type_push = type_push })

-- A run of `case` labels.
abbrev pub between : ℕ → ℕ → ℕ → Bool
between first last opcode = leb first opcode && leb opcode last

-- Some runs of them.
unfoldable pub within : List (ℕ × ℕ) → ℕ → Bool
within [] opcode = false
within ((first, last) ∷ runs) opcode = between first last opcode || within runs opcode

-- Comparisons: 0x45 WASM_OP_I32_EQZ to 0x66 WASM_OP_F64_GE.
unfoldable pub compare_signature : ℕ → Option Signature
compare_signature opcode =
    if opcode == 0x45
    then takes 1 value_type_i32 value_type_i32
    else if between 0x46 0x4f opcode
    then takes 2 value_type_i32 value_type_i32
    else if opcode == 0x50
    then takes 1 value_type_i64 value_type_i32
    else if between 0x51 0x5a opcode
    then takes 2 value_type_i64 value_type_i32
    else if between 0x5b 0x60 opcode
    then takes 2 value_type_f32 value_type_i32
    else if between 0x61 0x66 opcode
    then takes 2 value_type_f64 value_type_i32
    else none

-- Arithmetic: 0x67 WASM_OP_I32_CLZ to 0xa6 WASM_OP_F64_COPYSIGN.
unfoldable pub arithmetic_signature : ℕ → Option Signature
arithmetic_signature opcode =
    if between 0x67 0x69 opcode
    then takes 1 value_type_i32 value_type_i32
    else if between 0x6a 0x78 opcode
    then takes 2 value_type_i32 value_type_i32
    else if between 0x79 0x7b opcode
    then takes 1 value_type_i64 value_type_i64
    else if between 0x7c 0x8a opcode
    then takes 2 value_type_i64 value_type_i64
    else if between 0x8b 0x91 opcode
    then takes 1 value_type_f32 value_type_f32
    else if between 0x92 0x98 opcode
    then takes 2 value_type_f32 value_type_f32
    else if between 0x99 0x9f opcode
    then takes 1 value_type_f64 value_type_f64
    else if between 0xa0 0xa6 opcode
    then takes 2 value_type_f64 value_type_f64
    else none

-- Conversions to integers: 0xa7 WASM_OP_I32_WRAP_I64 to 0xb1 WASM_OP_I64_TRUNC_U_F64.
unfoldable pub to_int_signature : ℕ → Option Signature
to_int_signature opcode =
    if opcode == 0xa7
    then takes 1 value_type_i64 value_type_i32
    else if between 0xa8 0xa9 opcode
    then takes 1 value_type_f32 value_type_i32
    else if between 0xaa 0xab opcode
    then takes 1 value_type_f64 value_type_i32
    else if between 0xac 0xad opcode
    then takes 1 value_type_i32 value_type_i64
    else if between 0xae 0xaf opcode
    then takes 1 value_type_f32 value_type_i64
    else if between 0xb0 0xb1 opcode
    then takes 1 value_type_f64 value_type_i64
    else none

-- Conversions to floats: 0xb2 WASM_OP_F32_CONVERT_S_I32 to 0xbb WASM_OP_F64_PROMOTE_F32.
unfoldable pub to_float_signature : ℕ → Option Signature
to_float_signature opcode =
    if between 0xb2 0xb3 opcode
    then takes 1 value_type_i32 value_type_f32
    else if between 0xb4 0xb5 opcode
    then takes 1 value_type_i64 value_type_f32
    else if opcode == 0xb6
    then takes 1 value_type_f64 value_type_f32
    else if between 0xb7 0xb8 opcode
    then takes 1 value_type_i32 value_type_f64
    else if between 0xb9 0xba opcode
    then takes 1 value_type_i64 value_type_f64
    else if opcode == 0xbb
    then takes 1 value_type_f32 value_type_f64
    else none

-- Reinterpretations and sign extensions: 0xbc WASM_OP_I32_REINTERPRET_F32 to 0xc4
-- WASM_OP_I64_EXTEND32_S.
unfoldable pub same_bits_signature : ℕ → Option Signature
same_bits_signature opcode =
    if opcode == 0xbc
    then takes 1 value_type_f32 value_type_i32
    else if opcode == 0xbd
    then takes 1 value_type_f64 value_type_i64
    else if opcode == 0xbe
    then takes 1 value_type_i32 value_type_f32
    else if opcode == 0xbf
    then takes 1 value_type_i64 value_type_f64
    else if between 0xc0 0xc1 opcode
    then takes 1 value_type_i32 value_type_i32
    else if between 0xc2 0xc4 opcode
    then takes 1 value_type_i64 value_type_i64
    else none

-- Behind WASM_OP_MISC_PREFIX: 0 WASM_OP_I32_TRUNC_SAT_S_F32 to 7 WASM_OP_I64_TRUNC_SAT_U_F64.
unfoldable pub saturating_signature : ℕ → Option Signature
saturating_signature opcode1 =
    if between 0 1 opcode1
    then takes 1 value_type_f32 value_type_i32
    else if between 2 3 opcode1
    then takes 1 value_type_f64 value_type_i32
    else if between 4 5 opcode1
    then takes 1 value_type_f32 value_type_i64
    else if between 6 7 opcode1
    then takes 1 value_type_f64 value_type_i64
    else none

unfoldable pub or_else : Option Signature → Option Signature → Option Signature
or_else none other = other
or_else (some s) other = some s

unfoldable pub numeric_signature : ℕ → Option Signature
numeric_signature opcode = or_else (compare_signature opcode) (
    or_else (arithmetic_signature opcode) (
      or_else (to_int_signature opcode)
        (or_else (to_float_signature opcode) (same_bits_signature opcode))))

abbrev pub v128 : ℕ
v128 = value_type_v128

-- Behind WASM_OP_SIMD_PREFIX: the operations that take one vector and return one.
abbrev pub vector_unary : List (ℕ × ℕ)
vector_unary =
    (0x4d, 0x4d)
    ∷ (0x5e, 0x5f)
    ∷ (0x60, 0x62)
    ∷ (0x67, 0x6a)
    ∷ (0x74, 0x75)
    ∷ (0x7a, 0x7a)
    ∷ (0x7c, 0x7f)
    ∷ (0x80, 0x81)
    ∷ (0x87, 0x8a)
    ∷ (0x94, 0x94)
    ∷ (0xa0, 0xa1)
    ∷ (0xa7, 0xaa)
    ∷ (0xc0, 0xc1)
    ∷ (0xc7, 0xca)
    ∷ (0xe0, 0xe1)
    ∷ (0xe3, 0xe3)
    ∷ (0xec, 0xed)
    ∷ (0xef, 0xef)
    ∷ (0xf8, 0xff)
    ∷ []

-- Those that take two vectors.
abbrev pub vector_binary : List (ℕ × ℕ)
vector_binary =
    (0x0e, 0x0e)
    ∷ (0x23, 0x4c)
    ∷ (0x4e, 0x51)
    ∷ (0x65, 0x66)
    ∷ (0x6e, 0x73)
    ∷ (0x76, 0x79)
    ∷ (0x7b, 0x7b)
    ∷ (0x82, 0x82)
    ∷ (0x85, 0x86)
    ∷ (0x8e, 0x93)
    ∷ (0x95, 0x99)
    ∷ (0x9b, 0x9f)
    ∷ (0xae, 0xae)
    ∷ (0xb1, 0xb1)
    ∷ (0xb5, 0xba)
    ∷ (0xbc, 0xbf)
    ∷ (0xce, 0xce)
    ∷ (0xd1, 0xd1)
    ∷ (0xd5, 0xdf)
    ∷ (0xe4, 0xeb)
    ∷ (0xf0, 0xf7)
    ∷ []

-- Those that return a number.
abbrev pub vector_test : List (ℕ × ℕ)
vector_test = (0x53, 0x53) ∷ (0x63, 0x64) ∷ (0x83, 0x84) ∷ (0xa3, 0xa4) ∷ (0xc3, 0xc4) ∷ []

-- Those that shift the lanes of a vector by a number.
abbrev pub vector_shift : List (ℕ × ℕ)
vector_shift = (0x6b, 0x6d) ∷ (0x8b, 0x8d) ∷ (0xab, 0xad) ∷ (0xcb, 0xcd) ∷ []

-- 0x52 SIMD_v128_bitselect takes three vectors.
unfoldable pub vector_signature : ℕ → Option Signature
vector_signature opcode1 =
    if within vector_unary opcode1
    then takes 1 v128 v128
    else if within vector_binary opcode1
    then takes 2 v128 v128
    else if within vector_test opcode1
    then takes 1 v128 value_type_i32
    else if opcode1 == 0x52
    then takes 3 v128 v128
    else none

-- An entry of a table of the C code; a read behind its end does not happen.
abbrev pub entry : List ℕ → ℕ → ℕ
entry table i = elim (get_elem? table i) [ none ↦ 0 | some n ↦ n ]

-- Loads from 0x28 WASM_OP_I32_LOAD on, and stores up to 0x3e WASM_OP_I64_STORE32: the exponent of
-- the largest alignment of each.
abbrev pub mem_access_aligns : List ℕ
mem_access_aligns =
    2 ∷ 3 ∷ 2 ∷ 3 ∷ 0 ∷ 0 ∷ 1 ∷ 1 ∷ 0 ∷ 0 ∷ 1 ∷ 1 ∷ 2 ∷ 2 ∷ 2 ∷ 3 ∷ 2 ∷ 3 ∷ 0 ∷ 1 ∷ 0 ∷ 1 ∷ 2 ∷ []

unfoldable pub check_memory_access_align : ℕ → ℕ → Result (Unit {0})
check_memory_access_align opcode align =
    reject (ltb (entry mem_access_aligns (opcode - 0x28)) align) alignment_too_large

abbrev pub simd_access_aligns : List ℕ
simd_access_aligns = 4 ∷ 3 ∷ 3 ∷ 3 ∷ 3 ∷ 3 ∷ 3 ∷ 0 ∷ 1 ∷ 2 ∷ 3 ∷ 4 ∷ []

abbrev pub simd_load_lane_aligns : List ℕ
simd_load_lane_aligns = 0 ∷ 1 ∷ 2 ∷ 3 ∷ 0 ∷ 1 ∷ 2 ∷ 3 ∷ 2 ∷ 3 ∷ []

unfoldable pub check_simd_memory_access_align : ℕ → ℕ → Result (Unit {0})
check_simd_memory_access_align opcode align =
    check (leb opcode 0x0b || between 0x54 0x5d opcode) no_memarg
    >> reject
        ((leb opcode 0x0b && ltb (entry simd_access_aligns opcode) align)
          || (between 0x54 0x5d opcode && ltb (entry simd_load_lane_aligns (opcode - 0x54)) align))
        alignment_too_large

-- The number of lanes of the operations 0x54 SIMD_v128_load8_lane to 0x5d SIMD_v128_load64_zero.
abbrev pub max_lanes : List ℕ
max_lanes = 16 ∷ 8 ∷ 4 ∷ 2 ∷ 16 ∷ 8 ∷ 4 ∷ 2 ∷ 4 ∷ 2 ∷ []

unfoldable pub check_simd_access_lane : ℕ → ℕ → Result (Unit {0})
check_simd_access_lane opcode lane =
    if between 0x15 0x17 opcode
    then reject (leb 16 lane) invalid_lane_index
    else if between 0x18 0x1a opcode
    then reject (leb 8 lane) invalid_lane_index
    else if between 0x1b 0x1c opcode || between 0x1f 0x20 opcode
    then reject (leb 4 lane) invalid_lane_index
    else if between 0x1d 0x1e opcode || between 0x21 0x22 opcode
    then reject (leb 2 lane) invalid_lane_index
    else if between 0x54 0x5d opcode
    then reject (leb (entry max_lanes (opcode - 0x54)) lane) invalid_lane_index
    else err invalid_lane_index

-- The bytes are signed in the C code: those from 128 on are negative.
unfoldable pub check_simd_shuffle_mask : List ℕ → Result (Unit {0})
check_simd_shuffle_mask [] = ok tt
check_simd_shuffle_mask (lane ∷ mask) =
    reject (leb 128 lane || leb 32 lane) invalid_lane_index >> check_simd_shuffle_mask mask

abbrev pub wait_notify_aligns : List ℕ
wait_notify_aligns = 2 ∷ 2 ∷ 3 ∷ []

abbrev pub atomic_access_aligns : List ℕ
atomic_access_aligns = 2 ∷ 3 ∷ 0 ∷ 1 ∷ 0 ∷ 1 ∷ 2 ∷ []

-- 0 to 2 are the notification and the waits; then every seven operations access memory alike. The
-- difference is an int.
unfoldable pub check_memory_align_equal : ℕ → ℕ → Result (Unit {0})
check_memory_align_equal opcode align =
    let expect =
      if leb opcode 0x02
      then entry wait_notify_aligns opcode
      else entry atomic_access_aligns ((opcode - 0x10) % 7) in
    check (align == expect) alignment_not_natural
