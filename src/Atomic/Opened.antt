-- ===== src/Atomic/Opened.antt =====
-- Atomic operations (core/iwasm/common/wasm_loader.c, the case WASM_OP_ATOMIC_PREFIX of
-- `wasm_loader_prepare_bytecode`).
use wasm2native.Access.Opened.{memory_noted, read_zero_byte_takes}
use wasm2native.Access.{note_memory}
use wasm2native.Atomic.{
  atomic_type, atomic_pops, atomic_pushes, check_atomic_access, is_atomic, handle_op_atomic,
}
use wasm2native.Common.{ℕ, inl, inr, ◌≤◌, ◌≡◌, true, List, arith, length, ◌==◌, if◌then◌else◌}
use wasm2native.Common.Ensures.{
  Ensures, holds, Ensures-bind, Ensures-then, Ensures-check, Ensures-if, Ensures-ok, Ensures-mono,
}
use wasm2native.Common.Outcome.{ok, err, LoadError, Result-cases, unsupported_opcode}
use wasm2native.Frames.{IsOpen, IsMoved}
use wasm2native.Frames.Opened.{exchange-IsOpen}
use wasm2native.Leb.{read_leb_uint32, read_leb_mem_offset}
use wasm2native.Leb.Takes.{read_leb_uint32_takes, read_leb_mem_offset_takes}
use wasm2native.Loader.{is_value_type}
use wasm2native.Opcodes.{check_memory_align_equal}
use wasm2native.Operands.{LoaderContext}
use wasm2native.Program.{
  Scope, check_memory, has_module_memory64, offset_value_type, read_zero_byte, exchange,
}
use wasm2native.Program.Typed.{offset_value_type-value}
use wasm2native.Types.{all_value_types}
use wasm2native.Wasm.{BlockType}

atomic-value : (opcode1 : ℕ) → is_value_type (atomic_type opcode1) ≡ true
unfolding atomic_type is_value_type
atomic-value opcode1 = ground arith

atomic_pops-all :
    (mem opcode1 : ℕ) → is_value_type mem ≡ true → all_value_types (atomic_pops mem opcode1) ≡ true
unfolding atomic_pops all_value_types is_value_type
atomic_pops-all mem opcode1 value = let t = atomic-value opcode1 in ground arith

atomic_pushes-all : (opcode1 : ℕ) → all_value_types (atomic_pushes opcode1) ≡ true
unfolding atomic_pushes all_value_types is_value_type
atomic_pushes-all opcode1 = let t = atomic-value opcode1 in ground arith

check_atomic_access_takes :
    (s : Scope) (opcode1 : ℕ) (p : List ℕ)
    → Ensures (λ (rest : List ℕ). length rest ≤ length p) (check_atomic_access s opcode1 p)
unfolding check_atomic_access
check_atomic_access_takes s opcode1 p =
    let m = s.wasm_module.loaded in
    Ensures-then (check_memory m) λ _. Ensures-bind (read_leb_uint32 p) λ (align, p1) e1.
      Ensures-bind (read_leb_mem_offset (has_module_memory64 m) p1) λ (offset, p2) e2.
        Ensures-then (check_memory_align_equal opcode1 align) λ _. holds (
          omega (
            arith,
            (read_leb_uint32_takes p align p1 e1).0,
            read_leb_mem_offset_takes (has_module_memory64 m) p1 offset p2 e2,
          ))

abbrev IsLeft : List ℕ → List ℕ → Type 0
IsLeft p rest = length rest ≤ length p

pub handle_op_atomic-IsMoved :
    (s : Scope) (opcode : ℕ) (root : BlockType) (ctx : LoaderContext) (p : List ℕ)
    → IsOpen root ctx
    → Ensures (IsMoved root p) (handle_op_atomic s opcode ctx p)
unfolding handle_op_atomic IsMoved
handle_op_atomic-IsMoved s opcode root ctx p o = Ensures-bind (read_leb_uint32 p) λ (i, p1) e1.
    let mem = offset_value_type s.wasm_module.loaded in
    Ensures-check (is_atomic opcode) _ λ _.
      Ensures-bind (if i == 3 then ok p1 else check_atomic_access s i p1) λ p2 e2.
        Ensures-check (is_atomic i) _ λ _.
          Ensures-bind (if i == 3 then read_zero_byte p2 else ok p2) λ p3 e3.
            Ensures-bind (exchange s.grow (note_memory ctx) (atomic_pops mem i) (atomic_pushes i))
              λ c e4.
                let shorter2 : length p2 ≤ length p1 =
                  Ensures-ok {Post = IsLeft p1}
                    (Ensures-if (i == 3) (λ _. holds (omega arith))
                      (λ _. check_atomic_access_takes s i p1))
                    e2 in
                let shorter3 : length p3 ≤ length p2 =
                  Ensures-ok {Post = IsLeft p2}
                    (Ensures-if (i == 3)
                      (λ _. Ensures-mono (read_zero_byte_takes p2) λ rest h. omega (arith, h))
                      (λ _. holds (omega arith)))
                    e3 in
                holds (
                  Ensures-ok
                      (exchange-IsOpen s.grow root (note_memory ctx) (atomic_pops mem i)
                        (atomic_pushes i)
                        (atomic_pops-all mem i (offset_value_type-value s.wasm_module.loaded))
                        (atomic_pushes-all i) (memory_noted root ctx o))
                      e4,
                  omega (arith, (read_leb_uint32_takes p i p1 e1).0, shorter2, shorter3),
                )

-- Every atomic operation is refused: the code tests whether the prefix 0xfe, and not the opcode behind it,
-- is that of an atomic operation.
pub handle_op_atomic_refused :
    (s : Scope) (ctx : LoaderContext) (p : List ℕ)
    → (e : LoadError) × (handle_op_atomic s 0xfe ctx p ≡ err e)
unfolding handle_op_atomic
handle_op_atomic_refused s ctx p = elim (Result-cases (read_leb_uint32 p)) [
  | inl ((i, rest), e) ↦ (unsupported_opcode, rw e)
  | inr (e, h) ↦ (e, rw h)
]
