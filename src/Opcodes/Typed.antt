-- ===== src/Opcodes/Typed.antt =====
-- The tables of operations (`wasm_loader_prepare_bytecode` of core/iwasm/common/wasm_loader.c) name
-- value types only.
use wasm2native.Common.{
  ℕ, ◌≡◌, refl, Bool, true, false, Option, none, some, arith, ◌==◌, if◌then◌else◌,
}
use wasm2native.Loader.{is_value_type}
use wasm2native.Opcodes.{
  Signature, or_else, within, vector_unary, vector_binary, vector_test, compare_signature,
  arithmetic_signature, to_int_signature, to_float_signature, same_bits_signature,
  saturating_signature, numeric_signature, vector_signature,
}

-- The types of an operation, if there is one.
unfoldable pub IsTypedSignature : Option Signature → Type 0
IsTypedSignature none = Unit
IsTypedSignature (some sig) =
    (is_value_type sig.type_push ≡ true) × (is_value_type sig.type_pop ≡ true)

typed-if :
    (b : Bool) (x y : Option Signature)
    → IsTypedSignature x
    → IsTypedSignature y
    → IsTypedSignature (if b then x else y)
typed-if true x y hx hy = hx
typed-if false x y hx hy = hy

typed-or_else :
    (x y : Option Signature)
    → IsTypedSignature x
    → IsTypedSignature y
    → IsTypedSignature (or_else x y)
unfolding or_else
typed-or_else none y hx hy = hy
typed-or_else (some s) y hx hy = hx

compare-typed : (opcode : ℕ) → IsTypedSignature (compare_signature opcode)
unfolding compare_signature IsTypedSignature is_value_type
compare-typed opcode = ground arith

arithmetic-typed : (opcode : ℕ) → IsTypedSignature (arithmetic_signature opcode)
unfolding arithmetic_signature IsTypedSignature is_value_type
arithmetic-typed opcode = ground arith

to_int-typed : (opcode : ℕ) → IsTypedSignature (to_int_signature opcode)
unfolding to_int_signature IsTypedSignature is_value_type
to_int-typed opcode = ground arith

to_float-typed : (opcode : ℕ) → IsTypedSignature (to_float_signature opcode)
unfolding to_float_signature IsTypedSignature is_value_type
to_float-typed opcode = ground arith

same_bits-typed : (opcode : ℕ) → IsTypedSignature (same_bits_signature opcode)
unfolding same_bits_signature IsTypedSignature is_value_type
same_bits-typed opcode = ground arith

pub saturating-typed : (opcode : ℕ) → IsTypedSignature (saturating_signature opcode)
unfolding saturating_signature IsTypedSignature is_value_type
saturating-typed opcode = ground arith

pub numeric-typed : (opcode : ℕ) → IsTypedSignature (numeric_signature opcode)
unfolding numeric_signature
numeric-typed opcode = typed-or_else (compare_signature opcode) _ (compare-typed opcode) (
    typed-or_else (arithmetic_signature opcode) _ (arithmetic-typed opcode) (
      typed-or_else (to_int_signature opcode) _ (to_int-typed opcode) (
        typed-or_else (to_float_signature opcode) (same_bits_signature opcode)
          (to_float-typed opcode) (same_bits-typed opcode))))

pub vector-typed : (opcode1 : ℕ) → IsTypedSignature (vector_signature opcode1)
unfolding vector_signature IsTypedSignature is_value_type
vector-typed opcode1 =
    typed-if (within vector_unary opcode1) _ _ (refl, refl)
      (typed-if (within vector_binary opcode1) _ _ (refl, refl)
        (typed-if (within vector_test opcode1) _ _ (refl, refl)
          (typed-if (opcode1 == 0x52) _ _ (refl, refl) tt)))
