-- ===== src/Access/Bulk.antt =====
-- Bulk operations keep the stacks' invariant: the case WASM_OP_MISC_PREFIX of
-- `wasm_loader_prepare_bytecode` (core/iwasm/common/wasm_loader.c).
use wasm2native.Access.{
  note_memory, apply_signature, handle_memory_init, handle_data_drop, handle_memory_copy,
  handle_memory_fill, handle_saturating, handle_op_misc,
}
use wasm2native.Access.Opened.{memory_noted, read_zero_byte_takes}
use wasm2native.Common.{
  ℕ, ◌≤◌, ◌≡◌, refl, true, Option, none, some, List, [], ◌∷◌, arith, length, leb, ◌==◌,
}
use wasm2native.Common.Ensures.{
  Ensures, holds, refused, Ensures-bind, Ensures-then, Ensures-check, Ensures-reject, Ensures-if,
  Ensures-ok, Ensures-mono,
}
use wasm2native.Common.Outcome.{Result, LoadError, ◌>>=◌, ok, err, unsupported_opcode}
use wasm2native.Frames.{IsOpen, IsMoved}
use wasm2native.Frames.Opened.{push_pop-IsOpen, exchange-IsOpen}
use wasm2native.Leb.{read_leb_uint32}
use wasm2native.Leb.Takes.{read_leb_uint32_takes}
use wasm2native.Loader.{need, is_value_type}
use wasm2native.Opcodes.{Signature, saturating_signature}
use wasm2native.Opcodes.Typed.{IsTypedSignature, saturating-typed}
use wasm2native.Operands.{LoaderContext}
use wasm2native.Program.{Scope, has_memory, offset_value_type, read_zero_byte, exchange}
use wasm2native.Program.Typed.{offset_value_type-value}
use wasm2native.Types.{all_value_types}
use wasm2native.Wasm.{BlockType, value_type_i32}

signature-IsOpen :
    (s : Scope) (root : BlockType) (ctx : LoaderContext) (sig : Signature)
    → IsTypedSignature (some sig)
    → IsOpen root ctx
    → Ensures (IsOpen root) (apply_signature s ctx sig)
unfolding apply_signature IsTypedSignature
signature-IsOpen s root ctx sig (push, pop) o =
    push_pop-IsOpen s.grow root ctx sig.pop_cnt sig.type_push sig.type_pop push pop o

-- The operation of a table, if there is one.
pub table-IsOpen :
    (s : Scope) (root : BlockType) (ctx : LoaderContext) (found : Option Signature) (e : LoadError)
    → IsTypedSignature found
    → IsOpen root ctx
    → Ensures (IsOpen root) (elim found [ none ↦ err e | some sig ↦ apply_signature s ctx sig ])
table-IsOpen s root ctx none e typed o = refused
table-IsOpen s root ctx (some sig) e typed o = signature-IsOpen s root ctx sig typed o

-- The operation of a table, with the bytes behind it.
pub table-IsMoved :
    (s : Scope) (root : BlockType) (ctx : LoaderContext) (p rest : List ℕ)
    (found : Option Signature) (e : LoadError)
    → IsTypedSignature found
    → length rest ≤ length p
    → IsOpen root ctx
    → Ensures (IsMoved root p) (elim found as (λ _. Result (LoaderContext × List ℕ)) [
      | none ↦ err e
      | some sig ↦ (apply_signature s ctx sig >>= λ ctx. ok (ctx, rest))
    ])
unfolding IsMoved
table-IsMoved s root ctx p rest none e typed shorter o = refused
table-IsMoved s root ctx p rest (some sig) e typed shorter o =
    Ensures-bind (apply_signature s ctx sig)
      λ c e'. holds (Ensures-ok (signature-IsOpen s root ctx sig typed o) e', shorter)

module _ (s : Scope) (root : BlockType) (ctx : LoaderContext) (p : List ℕ)
    (o : IsOpen root ctx) where
  exchange_noted :
      (pops : List ℕ) (rest whole : List ℕ)
      → all_value_types pops ≡ true
      → length rest ≤ length whole
      → Ensures
          (IsMoved root whole)
          (exchange s.grow ctx pops [] >>= λ ctx. ok (note_memory ctx, rest))
  unfolding IsMoved all_value_types
  exchange_noted pops rest whole all shorter = Ensures-bind (exchange s.grow ctx pops []) λ c e.
      holds (
        memory_noted root c (Ensures-ok (exchange-IsOpen s.grow root ctx pops [] all refl o) e),
        shorter,
      )

  handle_memory_init-IsMoved : Ensures (IsMoved root p) (handle_memory_init s ctx p)
  unfolding handle_memory_init all_value_types is_value_type
  handle_memory_init-IsMoved =
      let m = s.wasm_module in
      let value = offset_value_type-value m.loaded in
      Ensures-bind (read_leb_uint32 p) λ (i, p1) e1. Ensures-check (has_memory m.loaded) _ λ _.
        Ensures-bind (read_zero_byte p1) λ p2 e2. Ensures-reject (leb m.data_seg_count i) _ λ _.
          Ensures-reject (m.data_seg_count1 == 0) _ λ _.
            exchange_noted (offset_value_type m.loaded ∷ value_type_i32 ∷ value_type_i32 ∷ []) p2 p
              (ground arith)
              (omega (
                arith,
                (read_leb_uint32_takes p i p1 e1).0,
                Ensures-ok (read_zero_byte_takes p1) e2,
              ))

  handle_data_drop-IsMoved : Ensures (IsMoved root p) (handle_data_drop s ctx p)
  unfolding handle_data_drop IsMoved
  handle_data_drop-IsMoved = Ensures-bind (read_leb_uint32 p) λ (i, p1) e1.
      Ensures-reject (leb s.wasm_module.data_seg_count i) _ λ _.
        Ensures-reject (s.wasm_module.data_seg_count1 == 0) _
          λ _. holds (memory_noted root ctx o, omega (arith, (read_leb_uint32_takes p i p1 e1).0))

  handle_memory_copy-IsMoved : Ensures (IsMoved root p) (handle_memory_copy s ctx p)
  unfolding handle_memory_copy all_value_types
  handle_memory_copy-IsMoved =
      let mem = offset_value_type s.wasm_module.loaded in
      let value = offset_value_type-value s.wasm_module.loaded in
      Ensures-then (need 2 p) λ _. Ensures-bind (read_zero_byte p) λ p1 e1.
        Ensures-bind (read_zero_byte p1) λ p2 e2.
          Ensures-check (has_memory s.wasm_module.loaded) _ λ _.
            exchange_noted (mem ∷ mem ∷ mem ∷ []) p2 p (ground arith) (
              omega (
                arith,
                Ensures-ok (read_zero_byte_takes p) e1,
                Ensures-ok (read_zero_byte_takes p1) e2,
              ))

  handle_memory_fill-IsMoved : Ensures (IsMoved root p) (handle_memory_fill s ctx p)
  unfolding handle_memory_fill all_value_types is_value_type
  handle_memory_fill-IsMoved =
      let mem = offset_value_type s.wasm_module.loaded in
      let value = offset_value_type-value s.wasm_module.loaded in
      Ensures-bind (read_zero_byte p) λ p1 e1.
        Ensures-check (has_memory s.wasm_module.loaded) _ λ _.
          exchange_noted (mem ∷ value_type_i32 ∷ mem ∷ []) p1 p (ground arith)
            (omega (arith, Ensures-ok (read_zero_byte_takes p) e1))

pub handle_op_misc-IsMoved :
    (s : Scope) (root : BlockType) (ctx : LoaderContext) (p : List ℕ)
    → IsOpen root ctx
    → Ensures (IsMoved root p) (handle_op_misc s ctx p)
unfolding handle_op_misc handle_saturating IsMoved
handle_op_misc-IsMoved s root ctx p o = Ensures-bind (read_leb_uint32 p) λ (i, rest) e.
    let shorter = (read_leb_uint32_takes p i rest e).0 in
    Ensures-mono
      (Ensures-if (i == 8) (λ _. handle_memory_init-IsMoved s root ctx rest o)
        λ _.
          Ensures-if (i == 9) (λ _. handle_data_drop-IsMoved s root ctx rest o)
            λ _.
              Ensures-if (i == 10) (λ _. handle_memory_copy-IsMoved s root ctx rest o)
                λ _.
                  Ensures-if (i == 11) (λ _. handle_memory_fill-IsMoved s root ctx rest o)
                    λ _.
                      table-IsMoved s root ctx rest rest (saturating_signature i) unsupported_opcode
                        (saturating-typed i) (omega arith) o)
      λ out h. (h.0, omega (arith, h.1, shorter))
