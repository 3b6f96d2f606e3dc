-- ===== src/Loader/Reads.antt =====
-- The reads that the parts of the loader share (core/iwasm/common/wasm_loader.c).
use wasm2native.Common.{
  ℕ, zero, suc, ◌-◌, ◌^◌, ◌≤◌, ◌<◌, ◌≡◌, ◌↔◌, true, List, [], ◌∷◌, ◌++◌, arith, length, drop,
}
use wasm2native.Common.Outcome.{ok}
use wasm2native.Loader.{check_buf, need, read_uint8, read_uint8s, skip}

-- `check_buf` accepts a read of fewer than 2 ^ 32 bytes exactly when that many are left before the
-- bound, for any pointer of 64 bits that is not behind its bound.
pub check_buf_iff :
    (buf buf_end count : ℕ)
    → buf ≤ buf_end
    → buf_end < 2 ^ 64
    → count < 2 ^ 32
    → (check_buf buf buf_end count ≡ true) ↔ (count ≤ buf_end - buf)
unfolding check_buf
check_buf_iff buf buf_end count h k l = ground arith

pub read_uint8_takes :
    (p : List ℕ) (b : ℕ) (rest : List ℕ) → read_uint8 p ≡ ok (b, rest) → p ≡ b ∷ rest
unfolding read_uint8
read_uint8_takes [] b rest e = cc
read_uint8_takes (c ∷ p) b rest e = ground arith

pub skip_takes : (n : ℕ) (p rest : List ℕ) → skip n p ≡ ok rest → (n ≤ length p) × (rest ≡ drop n p)
unfolding skip need
skip_takes n p rest e = ground arith

pub read_uint8s_takes :
    (n : ℕ) (p bs rest : List ℕ)
    → read_uint8s n p ≡ ok (bs, rest)
    → (p ≡ bs ++ rest) × (length bs ≡ n)
unfolding read_uint8s read_uint8
read_uint8s_takes zero p bs rest e = ground arith
read_uint8s_takes (suc n) [] bs rest e = cc
read_uint8s_takes (suc n) (b ∷ p) [] rest e = ground arith
read_uint8s_takes (suc n) (b ∷ p) (c ∷ cs) rest e = ground (arith, read_uint8s_takes n p cs rest)

pub read_uint8s-drop :
    (n : ℕ) (p bs rest : List ℕ) → read_uint8s n p ≡ ok (bs, rest) → rest ≡ drop n p
unfolding read_uint8s read_uint8
read_uint8s-drop zero p bs rest e = ground arith
read_uint8s-drop (suc n) [] bs rest e = cc
read_uint8s-drop (suc n) (b ∷ p) [] rest e = ground arith
read_uint8s-drop (suc n) (b ∷ p) (c ∷ cs) rest e = ground (arith, read_uint8s-drop n p cs rest)
