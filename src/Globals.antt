-- ===== src/Globals.antt =====
-- Globals: the constant expressions that initialise them, the host's globals that imports are linked
-- to, and the global section (core/iwasm/common/wasm_loader.c, `load_init_expr`,
-- `load_global_import`, `load_global_section`). Floats are kept as the bytes or the bits of the file.
pub mod Checked
use wasm2native.Common.{
  ℕ, zero, suc, ◌+◌, ◌-◌, ◌*◌, ◌%◌, ◌^◌, Bool, true, false, not, ◌&&◌, ◌||◌, Option, none, some,
  List, [], ◌∷◌, length, get_elem?, ltb, leb, ◌==◌, same_bytes, if◌then◌else◌,
}
use wasm2native.Common.Outcome.{
  Result, ok, err, ◌>>=◌, ◌>>◌, check, reject, const_type_mismatch, illegal_const_opcode,
  unknown_global, constant_expression_required, type_mismatch, invalid_mutability,
  incompatible_import_type, global_count_too_large, section_size_mismatch,
}
use wasm2native.Leb.{Read, read_leb_uint32, read_leb_int32, read_leb_int64}
use wasm2native.Loader.{
  Host, globals_array, loader_malloc, need, read_uint8, read_uint8s, is_value_type,
}
use wasm2native.Wasm.{
  value_type_i32, value_type_i64, value_type_f32, value_type_f64, value_type_v128,
  wasm_value_type_size,
}

-- InitializerExpression: the opcode, and its operand. Integers are two's complement patterns, the
-- operands of the float and vector constants the bytes of the file.
pub data InitExpr : Type 0 where
  i32_const i64_const get_global : ℕ → InitExpr
  f32_const f64_const v128_const : List ℕ → InitExpr

-- The linked value of an imported global, as a bit pattern.
pub record GlobalImport : Type 0 where
  pub module_name : List ℕ
  pub field_name : List ℕ
  pub type : ℕ
  pub is_mutable : Bool
  pub global_data_linked : ℕ
  pub is_linked : Bool

-- `get_global` may name only imported globals that are immutable.
unfoldable pub check_global_operand : List GlobalImport → ℕ → Result (Unit {0})
check_global_operand import_globals global_idx = elim (get_elem? import_globals global_idx) [
  | none ↦ err unknown_global
  | some g ↦ reject g.is_mutable constant_expression_required
]

-- CHECK_BUF of the whole operand, and then its bytes.
unfoldable pub read_operand : ℕ → List ℕ → Read (List ℕ)
read_operand n p = need n p >> read_uint8s n p

-- The operand of each opcode, and the expression.
unfoldable pub read_init_value : List GlobalImport → ℕ → ℕ → List ℕ → Read InitExpr
read_init_value import_globals type flag p =
    if flag == 0x41
    then (do
      check (type == value_type_i32) const_type_mismatch
      (v, p) ← read_leb_int32 p
      ok (i32_const v, p))
    else if flag == 0x42
    then (do
      check (type == value_type_i64) const_type_mismatch
      (v, p) ← read_leb_int64 p
      ok (i64_const v, p))
    else if flag == 0x43
    then (do
      check (type == value_type_f32) const_type_mismatch
      (v, p) ← read_operand 4 p
      ok (f32_const v, p))
    else if flag == 0x44
    then (do
      check (type == value_type_f64) const_type_mismatch
      (v, p) ← read_operand 8 p
      ok (f64_const v, p))
    else if flag == 0xFD
    then (do
      check (type == value_type_v128) const_type_mismatch
      (flag, p) ← read_uint8 p
      (v, p) ← read_operand 16 p
      ok (v128_const v, p))
    else if flag == 0x23
    then (do
      (global_idx, p) ← read_leb_uint32 p
      check_global_operand import_globals global_idx
      ok (get_global global_idx, p))
    else err illegal_const_opcode

unfoldable pub load_init_expr : List GlobalImport → ℕ → List ℕ → Read InitExpr
load_init_expr import_globals type p = do
  (flag, p) ← read_uint8 p
  (expr, p) ← read_init_value import_globals type flag p
  (end_byte, p) ← read_uint8 p
  check (end_byte == 0x0b) const_type_mismatch
  ok (expr, p)

-- WASMNativeGlobal: module and name, type, mutability, value.
pub record NativeGlobal : Type 0 where
  pub module_name : List ℕ
  pub global_name : List ℕ
  pub type : ℕ
  pub is_mutable : Bool
  pub value : ℕ

abbrev name_spectest : List ℕ
name_spectest = b's' ∷ b'p' ∷ b'e' ∷ b'c' ∷ b't' ∷ b'e' ∷ b's' ∷ b't' ∷ []

abbrev name_test : List ℕ
name_test = b't' ∷ b'e' ∷ b's' ∷ b't' ∷ []

-- "global_" or "global-" and what follows.
abbrev global_named : ℕ → List ℕ → List ℕ
global_named separator rest = b'g' ∷ b'l' ∷ b'o' ∷ b'b' ∷ b'a' ∷ b'l' ∷ separator ∷ rest

abbrev native_global : List ℕ → List ℕ → ℕ → Bool → ℕ → NativeGlobal
native_global module_name global_name type is_mutable value = record {
  module_name = module_name;
  global_name = global_name;
  type = type;
  is_mutable = is_mutable;
  value = value;
}

-- The value 666.6 is written as the bits that the compiler rounds it to.
abbrev pub spectest_import_globals : List NativeGlobal
spectest_import_globals =
    native_global name_spectest (global_named b'_' (b'i' ∷ b'3' ∷ b'2' ∷ [])) value_type_i32 false
      666
    ∷ native_global name_spectest (global_named b'_' (b'i' ∷ b'6' ∷ b'4' ∷ [])) value_type_i64 false
        666
    ∷ native_global name_spectest (global_named b'_' (b'f' ∷ b'3' ∷ b'2' ∷ [])) value_type_f32 false
        0x4426A666
    ∷ native_global name_spectest (global_named b'_' (b'f' ∷ b'6' ∷ b'4' ∷ [])) value_type_f64 false
        0x4084D4CCCCCCCCCD
    ∷ native_global name_test (global_named b'-' (b'i' ∷ b'3' ∷ b'2' ∷ [])) value_type_i32 false 0
    ∷ native_global name_test (global_named b'-' (b'f' ∷ b'3' ∷ b'2' ∷ [])) value_type_f32 false 0
    ∷ native_global name_test
        (global_named b'-' (b'm' ∷ b'u' ∷ b't' ∷ b'-' ∷ b'i' ∷ b'3' ∷ b'2' ∷ [])) value_type_i32
        true 0
    ∷ native_global name_test
        (global_named b'-' (b'm' ∷ b'u' ∷ b't' ∷ b'-' ∷ b'i' ∷ b'6' ∷ b'4' ∷ [])) value_type_i64
        true 0
    ∷ []

-- The loop over the table.
unfoldable pub lookup_builtin_import_global :
    List ℕ → List ℕ → List NativeGlobal → Option NativeGlobal
lookup_builtin_import_global module_name global_name [] = none
lookup_builtin_import_global module_name global_name (def ∷ defs) =
    let rest = lookup_builtin_import_global module_name global_name defs in
    if same_bytes def.module_name module_name && same_bytes def.global_name global_name
    then some def
    else rest

abbrev bool_num : Bool → ℕ
bool_num true = 1
bool_num false = 0

-- The linked value of a global that the host does not offer stays 0.
unfoldable pub link_global : Option NativeGlobal → ℕ → ℕ → Result (ℕ × Bool)
link_global none declare_type declare_mutable = ok (0, false)
link_global (some def) declare_type declare_mutable =
    reject (not (def.type == declare_type) || not (bool_num def.is_mutable == declare_mutable))
      incompatible_import_type
    >> ok (def.value, true)

unfoldable pub load_global_import : List ℕ → List ℕ → List ℕ → Read GlobalImport
load_global_import sub_module_name global_name p = do
  need 2 p
  (declare_type, p) ← read_uint8 p
  check (is_value_type declare_type) type_mismatch
  (declare_mutable, p) ← read_uint8 p
  reject (leb 2 declare_mutable) invalid_mutability
  (data_linked, is_linked) ←
      link_global (lookup_builtin_import_global sub_module_name global_name spectest_import_globals)
        declare_type declare_mutable
  ok (
    record {
      module_name = sub_module_name;
      field_name = global_name;
      type = declare_type;
      is_mutable = declare_mutable == 1;
      global_data_linked = data_linked;
      is_linked = is_linked;
    },
    p,
  )

pub record WasmGlobal : Type 0 where
  pub type : ℕ
  pub is_mutable : Bool
  pub init_expr : InitExpr

-- The check of `get_global` that the section makes once more.
abbrev recheck_operand : ℕ → InitExpr → Result (Unit {0})
recheck_operand import_global_count (get_global i) =
    reject (leb import_global_count i) unknown_global
recheck_operand import_global_count _ = ok tt

unfoldable pub load_global : List GlobalImport → List ℕ → Read WasmGlobal
load_global import_globals p = do
  need 2 p
  (type, p) ← read_uint8 p
  check (is_value_type type) type_mismatch
  (mutable, p) ← read_uint8 p
  reject (leb 2 mutable) invalid_mutability
  (init_expr, p) ← load_init_expr import_globals type p
  recheck_operand (length import_globals) init_expr
  ok (record { type = type; is_mutable = not (mutable == 0); init_expr = init_expr }, p)

unfoldable pub load_globals : List GlobalImport → ℕ → List ℕ → Read (List WasmGlobal)
load_globals import_globals zero p = ok ([], p)
load_globals import_globals (suc left) p = do
  (global, p) ← load_global import_globals p
  (globals, p) ← load_globals import_globals left p
  ok (global ∷ globals, p)

unfoldable pub load_global_section : Host → List GlobalImport → List ℕ → Result (List WasmGlobal)
load_global_section host import_globals p = do
  (global_count, p) ← read_leb_uint32 p
  reject (ltb (2 ^ 32 - 1 - length import_globals) global_count) global_count_too_large
  loaded ←
      (if global_count == 0
        then ok ([], p)
        else (loader_malloc host globals_array (host.sizeof_global * global_count)
            >> load_globals import_globals global_count p))
  check (length loaded.1 == 0) section_size_mismatch
  ok loaded.0

-- The sum is a uint32.
unfoldable pub add_sizes : List ℕ → ℕ → ℕ
add_sizes [] data_offset = data_offset
add_sizes (type ∷ types) data_offset =
    add_sizes types ((data_offset + wasm_value_type_size type) % 2 ^ 32)

unfoldable pub import_types : List GlobalImport → List ℕ
import_types [] = []
import_types (g ∷ gs) = g.type ∷ import_types gs

unfoldable pub global_types : List WasmGlobal → List ℕ
global_types [] = []
global_types (g ∷ gs) = g.type ∷ global_types gs

unfoldable pub calculate_global_data_offset : List GlobalImport → List WasmGlobal → ℕ
calculate_global_data_offset import_globals globals =
    add_sizes (global_types globals) (add_sizes (import_types import_globals) 0)
