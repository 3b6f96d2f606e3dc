-- ===== src/Atomic.antt =====
-- The case WASM_OP_ATOMIC_PREFIX of `wasm_loader_prepare_bytecode`
-- (core/iwasm/common/wasm_loader.c).
pub mod Opened
use wasm2native.Access.{note_memory}
use wasm2native.Common.{ℕ, ◌-◌, ◌%◌, Bool, ◌||◌, List, [], ◌∷◌, leb, ◌==◌, if◌then◌else◌}
use wasm2native.Common.Outcome.{Result, ok, ◌>>=◌, ◌>>◌, check, unsupported_opcode}
use wasm2native.Leb.{Read, read_leb_uint32, read_leb_mem_offset}
use wasm2native.Opcodes.{between, check_memory_align_equal}
use wasm2native.Operands.{LoaderContext}
use wasm2native.Program.{
  Scope, check_memory, has_module_memory64, offset_value_type, read_zero_byte, exchange,
}
use wasm2native.Wasm.{value_type_i32, value_type_i64}

-- From 0x10 WASM_OP_ATOMIC_I32_LOAD on, every seven operations have these types: i32, i64, i32 of 8 and
-- 16 bits, i64 of 8, 16 and 32 bits.
unfoldable pub atomic_type : ℕ → ℕ
atomic_type opcode1 =
    let place = (opcode1 - 0x10) % 7 in
    if place == 0 || between 2 3 place then value_type_i32 else value_type_i64

-- What is popped, the last one first: 0 WASM_OP_ATOMIC_NOTIFY, 1 WASM_OP_ATOMIC_WAIT32,
-- 2 WASM_OP_ATOMIC_WAIT64, 3 WASM_OP_ATOMIC_FENCE, then loads, stores, the operations from 0x1e on that
-- read and write, and the exchanges with a comparison from 0x48 on.
unfoldable pub atomic_pops : ℕ → ℕ → List ℕ
atomic_pops mem opcode1 =
    if opcode1 == 0
    then mem ∷ value_type_i32 ∷ []
    else if opcode1 == 1
    then mem ∷ value_type_i32 ∷ value_type_i64 ∷ []
    else if opcode1 == 2
    then mem ∷ value_type_i64 ∷ value_type_i64 ∷ []
    else if opcode1 == 3
    then []
    else if leb opcode1 0x16
    then mem ∷ []
    else if leb opcode1 0x47
    then mem ∷ atomic_type opcode1 ∷ []
    else mem ∷ atomic_type opcode1 ∷ atomic_type opcode1 ∷ []

unfoldable pub atomic_pushes : ℕ → List ℕ
atomic_pushes opcode1 =
    if leb opcode1 2
    then value_type_i32 ∷ []
    else if opcode1 == 3 || between 0x17 0x1d opcode1
    then []
    else atomic_type opcode1 ∷ []

-- The address and its alignment.
unfoldable pub check_atomic_access : Scope → ℕ → List ℕ → Result (List ℕ)
check_atomic_access s opcode1 p = do
  check_memory s.wasm_module.loaded
  (align, p) ← read_leb_uint32 p
  (mem_offset, p) ← read_leb_mem_offset (has_module_memory64 s.wasm_module.loaded) p
  check_memory_align_equal opcode1 align
  ok p

-- `opcode <= WASM_OP_ATOMIC_FENCE || (opcode >= WASM_OP_ATOMIC_I32_LOAD && opcode <=
-- WASM_OP_ATOMIC_RMW_I64_CMPXCHG32_U)`
abbrev pub is_atomic : ℕ → Bool
is_atomic opcode = leb opcode 3 || between 0x10 0x4e opcode

-- The test looks at `opcode`, the prefix, as the C code does. The `default` of the switch behind it is
-- for the operations that the test does not let pass, had it looked at `opcode1`.
unfoldable pub handle_op_atomic : Scope → ℕ → LoaderContext → List ℕ → Read LoaderContext
handle_op_atomic s opcode ctx p = do
  (opcode1, p) ← read_leb_uint32 p
  check (is_atomic opcode) unsupported_opcode
  p ← (if opcode1 == 3 then ok p else check_atomic_access s opcode1 p)
  check (is_atomic opcode1) unsupported_opcode
  p ← (if opcode1 == 3 then read_zero_byte p else ok p)
  ctx ←
      exchange s.grow (note_memory ctx)
        (atomic_pops (offset_value_type s.wasm_module.loaded) opcode1) (atomic_pushes opcode1)
  ok (ctx, p)
