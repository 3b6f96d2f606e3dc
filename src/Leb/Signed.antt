-- ===== src/Leb/Signed.antt =====
-- `read_leb_int32` of core/iwasm/common/wasm_loader.c against the digits of signed LEB128.
use wasm2native.Common.{
  ℕ, ◌+◌, ◌-◌, ◌*◌, ◌/◌, ◌%◌, ◌^◌, ◌≤◌, ◌<◌, ◌≡◌, sym, ap, ◌∙◌, ◌⊎◌, ◌↔◌, inl, inr, List, ◌++◌,
  arith, length, All, true,
}
use wasm2native.Common.Bits.{high_nibble, sixth_bit, third_bit, bit_or_join}
use wasm2native.Common.Outcome.{ok}
use wasm2native.Leb.{finish_leb, sign_extend, check_top_bits, read_leb, read_leb_int32}
use wasm2native.Leb.Digits.{leb_value, IsLeb, last_byte}
use wasm2native.Leb.Loop.{IsByte, Run, read_leb_loop_sound, read_leb_loop_complete}
use wasm2native.Leb.Takes.{read_leb-eq-ok, read_leb_int32-eq-ok}
use wasm2native.Leb.Unsigned.{Top-cases}

-- `b` is the last of `k` digits, whose unsigned value is `r`, and `v` is the two's complement
-- pattern, in 32 bits, of the number that they stand for: that is `r`, less 2 ^ (7 * k) where the
-- second-highest bit of `b` is set, and it lies between -2 ^ 31 and 2 ^ 31 - 1.
abbrev pub IsSigned32 : ℕ → ℕ → ℕ → ℕ → Type 0
IsSigned32 k b r v =
    ((b / 64 % 2 ≡ 0) × (v ≡ r) × (v < 2 ^ 31))
    ⊎ ((b / 64 % 2 ≡ 1) × (v + 2 ^ (7 * k) ≡ r + 2 ^ 32) × (2 ^ 31 ≤ v) × (v < 2 ^ 32))

-- What the checks after the loop do: `v` is the pattern exactly when they pass and leave it in the
-- lower half of the result `w`.
abbrev Finishes : ℕ → ℕ → ℕ → ℕ → Type 0
Finishes k b r w =
    ((u : ℕ) → finish_leb 32 true b (7 * k) r ≡ ok u → IsSigned32 k b r (u % 2 ^ 32))
    × ((v : ℕ) → IsSigned32 k b r v → (finish_leb 32 true b (7 * k) r ≡ ok w) × (w % 2 ^ 32 ≡ v))

module _ (b r : ℕ) (hb : b < 128) where
  -- The sign bits are filled in for a number of 1 digit.
  fill_7 : r < 2 ^ 7 → b / 64 % 2 ≡ 1 → sign_extend b 7 r ≡ r + (2 ^ 64 - 2 ^ 7)
  unfolding sign_extend
  fill_7 hr h = ground (arith, sixth_bit b, bit_or_join 7 r (2 ^ 57 - 1))

  -- The sign bits are filled in for a number of 2 digits.
  fill_14 : r < 2 ^ 14 → b / 64 % 2 ≡ 1 → sign_extend b 14 r ≡ r + (2 ^ 64 - 2 ^ 14)
  unfolding sign_extend
  fill_14 hr h = ground (arith, sixth_bit b, bit_or_join 14 r (2 ^ 50 - 1))

  -- The sign bits are filled in for a number of 3 digits.
  fill_21 : r < 2 ^ 21 → b / 64 % 2 ≡ 1 → sign_extend b 21 r ≡ r + (2 ^ 64 - 2 ^ 21)
  unfolding sign_extend
  fill_21 hr h = ground (arith, sixth_bit b, bit_or_join 21 r (2 ^ 43 - 1))

  -- The sign bits are filled in for a number of 4 digits.
  fill_28 : r < 2 ^ 28 → b / 64 % 2 ≡ 1 → sign_extend b 28 r ≡ r + (2 ^ 64 - 2 ^ 28)
  unfolding sign_extend
  fill_28 hr h = ground (arith, sixth_bit b, bit_or_join 28 r (2 ^ 36 - 1))

  keep : (s : ℕ) → b / 64 % 2 ≡ 0 → sign_extend b s r ≡ r
  unfolding sign_extend
  keep s h = ground (arith, sixth_bit b)

  finish_7 : b * 1 ≤ r → r < b * 1 + 1 → Finishes 1 b r (sign_extend b 7 r)
  unfolding finish_leb
  finish_7 lo hi = (λ u e. ground (arith, fill_7, keep 7), λ v s. ground (arith, fill_7, keep 7))

  finish_14 : b * 2 ^ 7 ≤ r → r < b * 2 ^ 7 + 2 ^ 7 → Finishes 2 b r (sign_extend b 14 r)
  unfolding finish_leb
  finish_14 lo hi =
      (λ u e. ground (arith, fill_14, keep 14), λ v s. ground (arith, fill_14, keep 14))

  finish_21 : b * 2 ^ 14 ≤ r → r < b * 2 ^ 14 + 2 ^ 14 → Finishes 3 b r (sign_extend b 21 r)
  unfolding finish_leb
  finish_21 lo hi =
      (λ u e. ground (arith, fill_21, keep 21), λ v s. ground (arith, fill_21, keep 21))

  finish_28 : b * 2 ^ 21 ≤ r → r < b * 2 ^ 21 + 2 ^ 21 → Finishes 4 b r (sign_extend b 28 r)
  unfolding finish_leb
  finish_28 lo hi =
      (λ u e. ground (arith, fill_28, keep 28), λ v s. ground (arith, fill_28, keep 28))

  finish_35 : b * 2 ^ 28 ≤ r → r < b * 2 ^ 28 + 2 ^ 28 → Finishes 5 b r r
  unfolding finish_leb check_top_bits
  finish_35 lo hi = (
    λ u e. ground (arith, third_bit b, high_nibble b),
    λ v s. ground (arith, third_bit b, high_nibble b),
  )

finishes :
    (ds : List ℕ)
    → IsLeb ds
    → length ds ≤ 5
    → (w : ℕ) × Finishes (length ds) (last_byte ds) (leb_value ds) w
finishes ds h n = elim (Top-cases ds h n) [
  | inl (k, lo, hi, b) ↦ rw k (_, finish_7 _ _ b (omega arith) (omega arith))
  | inr (inl (k, lo, hi, b)) ↦ rw k (_, finish_14 _ _ b (omega arith) (omega arith))
  | inr (inr (inl (k, lo, hi, b))) ↦ rw k (_, finish_21 _ _ b (omega arith) (omega arith))
  | inr (inr (inr (inl (k, lo, hi, b)))) ↦ rw k (_, finish_28 _ _ b (omega arith) (omega arith))
  | inr (inr (inr (inr (k, lo, hi, b)))) ↦ rw k (_, finish_35 _ _ b (omega arith) (omega arith))
]

-- The pattern `v` stands at the front of `p`, in at most five bytes, and `rest` follows.
abbrev pub StartsWithInt32 : List ℕ → ℕ → List ℕ → Type 0
StartsWithInt32 p v rest =
    (digits : List ℕ) × (p ≡ digits ++ rest)
    × IsLeb digits
    × (length digits ≤ 5)
    × IsSigned32 (length digits) (last_byte digits) (leb_value digits) v

from_Run :
    (p : List ℕ) (v : ℕ) (rest : List ℕ) (w : ℕ) (out : ℕ × ℕ × ℕ × List ℕ)
    → Run p 5 0 0 out
    → finish_leb 32 true out.0 out.1 out.2 ≡ ok w
    → out.3 ≡ rest
    → w % 2 ^ 32 ≡ v
    → StartsWithInt32 p v rest
from_Run p v rest w out run finish same low =
    let n : length run.digits ≤ 5 = omega (arith, run.within) in
    let (u, both) = finishes run.digits run.well_formed n in
    let at_end : (out.0 ≡ last_byte run.digits)
        × (out.1 ≡ 7 * length run.digits)
        × (out.2 ≡ leb_value run.digits) =
      (sym run.last, omega (arith, run.shift_end), omega (arith, run.joined)) in
    (
      run.digits,
      run.split ∙ ap (λ t. run.digits ++ t) same,
      run.well_formed,
      n,
      rw (← low) (both.0 w (rw (sym at_end.0, sym at_end.1, sym at_end.2) finish)),
    )

from_read :
    (p : List ℕ) (v : ℕ) (rest : List ℕ)
    → All IsByte p
    → read_leb_int32 p ≡ ok (v, rest)
    → StartsWithInt32 p v rest
from_read p v rest hp e =
    let (w, e0, low) = read_leb_int32-eq-ok p v rest e in
    let (out, loop, finish, same) = read_leb-eq-ok p 32 true w rest e0 in
    from_Run p v rest w out (read_leb_loop_sound p 32 0 0 out hp (omega arith) (omega arith) loop)
      finish same low

to_read :
    (p : List ℕ) (v : ℕ) (rest : List ℕ)
    → StartsWithInt32 p v rest
    → read_leb_int32 p ≡ ok (v, rest)
unfolding read_leb_int32 read_leb
to_read p v rest (digits, split, h, n, s) =
    let (u, both) = finishes digits h n in
    let (passed, low) = both.1 v s in
    rw
      (split, read_leb_loop_complete digits rest 32 0 0 h (omega arith) (omega arith) (omega arith))
      (ground (arith, passed, low))

-- On a list of bytes `read_leb_int32` succeeds exactly when a signed number from -2 ^ 31 to 2 ^ 31
-- - 1 stands at the front in at most five bytes, and it returns the two's complement pattern of
-- that number and the bytes behind it.
pub read_leb_int32_iff :
    (p : List ℕ) (v : ℕ) (rest : List ℕ)
    → All IsByte p
    → (read_leb_int32 p ≡ ok (v, rest)) ↔ StartsWithInt32 p v rest
read_leb_int32_iff p v rest hp = (from_read p v rest hp, to_read p v rest)
