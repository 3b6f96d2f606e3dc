-- ===== src/Opcodes/Aligned.antt =====
-- The alignments of memory accesses that `check_memory_access_align` and
-- `check_simd_memory_access_align` (core/iwasm/common/wasm_loader.c) let pass.
use mathlib.Core.Path.{subst}
use native.Mathlib.Nat.{pow-le-pow_right, one-le-pow, pow-succ'}
use wasm2native.Common.{
  ℕ, ◌-◌, ◌^◌, ◌≤◌, ◌≡◌, suc, sym, ◌↔◌, ◌⊎◌, inl, inr, Bool-cases, Bool, true, false, ◌&&◌, ◌||◌,
  arith, ltb, leb, ◌==◌, if◌then◌else◌,
}
use wasm2native.Common.Outcome.{ok, ◌>>◌, check, no_memarg, reject, alignment_too_large}
use wasm2native.Opcodes.{
  between, entry, mem_access_aligns, check_memory_access_align, simd_access_aligns,
  simd_load_lane_aligns, check_simd_memory_access_align,
}

-- The bytes that each of 0x28 i32.load to 0x3e i64.store32 reads or writes, as the WebAssembly
-- specification has it.
unfoldable pub access_bytes : ℕ → ℕ
access_bytes opcode =
    if between 0x2c 0x2d opcode || (between 0x30 0x31 opcode || (opcode == 0x3a || opcode == 0x3c))
    then 1
    else if between 0x2e 0x2f opcode
        || (between 0x32 0x33 opcode || (opcode == 0x3b || opcode == 0x3d))
    then 2
    else if opcode == 0x29 || (opcode == 0x2b || (opcode == 0x37 || opcode == 0x39))
    then 8
    else 4

access_bytes_power :
    (opcode : ℕ)
    → 0x28 ≤ opcode
    → opcode ≤ 0x3e
    → access_bytes opcode ≡ 2 ^ entry mem_access_aligns (opcode - 0x28)
unfolding access_bytes
access_bytes_power opcode low high = ground arith

pow-le_iff : (a b : ℕ) → (2 ^ a ≤ 2 ^ b) ↔ (a ≤ b)
pow-le_iff a b = (
  λ h. elim (Bool-cases (leb a b)) [
    | inl le ↦ ground arith
    | inr more ↦
        let larger : suc b ≤ a = ground arith in
        let positive = one-le-pow b 2 (omega arith) in
        absurd
          (omega (arith, h, positive, pow-le-pow_right {n = 2} (omega arith) larger, pow-succ' 2 b))
  ],
  λ h. pow-le-pow_right {n = 2} (omega arith) h,
)

-- From exponents to sizes.
within_size :
    {P : Type 0} (align n size : ℕ) → size ≡ 2 ^ n → P ↔ (align ≤ n) → P ↔ (2 ^ align ≤ size)
within_size align n size same (to, from) =
    let (shrink, grow) = pow-le_iff align n in
    (
      λ e. subst (λ k. 2 ^ align ≤ k) (sym same) (grow (to e)),
      λ h. from (shrink (subst (λ k. 2 ^ align ≤ k) same h)),
    )

-- A load or a store passes exactly with an alignment of at most the bytes that it accesses.
pub check_memory_access_align_iff :
    (opcode align : ℕ)
    → 0x28 ≤ opcode
    → opcode ≤ 0x3e
    → (check_memory_access_align opcode align ≡ ok tt) ↔ (2 ^ align ≤ access_bytes opcode)
unfolding check_memory_access_align
check_memory_access_align_iff opcode align low high =
    within_size align (entry mem_access_aligns (opcode - 0x28)) (access_bytes opcode)
      (access_bytes_power opcode low high) (λ e. ground arith, λ h. ground arith)

-- The bytes that each of 0x00 v128.load to 0x0b v128.store and of 0x54 v128.load8_lane to
-- 0x5d v128.load64_zero reads or writes.
unfoldable pub vector_bytes : ℕ → ℕ
vector_bytes opcode1 =
    if opcode1 == 0x00 || opcode1 == 0x0b
    then 16
    else if opcode1 == 0x07 || (opcode1 == 0x54 || opcode1 == 0x58)
    then 1
    else if opcode1 == 0x08 || (opcode1 == 0x55 || opcode1 == 0x59)
    then 2
    else if opcode1 == 0x09 || (opcode1 == 0x56 || (opcode1 == 0x5a || opcode1 == 0x5c))
    then 4
    else 8

simple_power :
    (opcode1 : ℕ) → opcode1 ≤ 0x0b → vector_bytes opcode1 ≡ 2 ^ entry simd_access_aligns opcode1
unfolding vector_bytes
simple_power opcode1 low = ground arith

lane_power :
    (opcode1 : ℕ)
    → 0x54 ≤ opcode1
    → opcode1 ≤ 0x5d
    → vector_bytes opcode1 ≡ 2 ^ entry simd_load_lane_aligns (opcode1 - 0x54)
unfolding vector_bytes
lane_power opcode1 low high = ground arith

module _ (memarg simple lane : Bool) (n m align : ℕ) where
  first_test :
      memarg ≡ true
      → simple ≡ true
      → lane ≡ false
      → (check memarg no_memarg
            >> reject ((simple && ltb n align) || (lane && ltb m align)) alignment_too_large
          ≡ ok tt)
        ↔ (align ≤ n)
  first_test h k l = (λ e. ground arith, λ e. ground arith)

  second_test :
      memarg ≡ true
      → simple ≡ false
      → lane ≡ true
      → (check memarg no_memarg
            >> reject ((simple && ltb n align) || (lane && ltb m align)) alignment_too_large
          ≡ ok tt)
        ↔ (align ≤ m)
  second_test h k l = (λ e. ground arith, λ e. ground arith)

simple_iff :
    (opcode1 align : ℕ)
    → opcode1 ≤ 0x0b
    → (check_simd_memory_access_align opcode1 align ≡ ok tt)
      ↔ (align ≤ entry simd_access_aligns opcode1)
unfolding check_simd_memory_access_align
simple_iff opcode1 align low =
    first_test (leb opcode1 0x0b || between 0x54 0x5d opcode1) (leb opcode1 0x0b)
      (between 0x54 0x5d opcode1) (entry simd_access_aligns opcode1) _ align (ground arith)
      (ground arith) (ground arith)

lane_iff :
    (opcode1 align : ℕ)
    → 0x54 ≤ opcode1
    → opcode1 ≤ 0x5d
    → (check_simd_memory_access_align opcode1 align ≡ ok tt)
      ↔ (align ≤ entry simd_load_lane_aligns (opcode1 - 0x54))
unfolding check_simd_memory_access_align
lane_iff opcode1 align low high =
    second_test (leb opcode1 0x0b || between 0x54 0x5d opcode1) (leb opcode1 0x0b)
      (between 0x54 0x5d opcode1) (entry simd_access_aligns opcode1) _ align (ground arith)
      (ground arith) (ground arith)

-- A vector access passes exactly with an alignment of at most the bytes that it accesses.
pub check_simd_memory_access_align_iff :
    (opcode1 align : ℕ)
    → (opcode1 ≤ 0x0b) ⊎ ((0x54 ≤ opcode1) × (opcode1 ≤ 0x5d))
    → (check_simd_memory_access_align opcode1 align ≡ ok tt) ↔ (2 ^ align ≤ vector_bytes opcode1)
check_simd_memory_access_align_iff opcode1 align (inl low) =
    within_size align (entry simd_access_aligns opcode1) (vector_bytes opcode1)
      (simple_power opcode1 low) (simple_iff opcode1 align low)
check_simd_memory_access_align_iff opcode1 align (inr (low, high)) =
    within_size align (entry simd_load_lane_aligns (opcode1 - 0x54)) (vector_bytes opcode1)
      (lane_power opcode1 low high) (lane_iff opcode1 align low high)
