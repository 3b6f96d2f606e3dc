-- ===== src/Leb/Unsigned.antt =====
-- `read_leb_uint32` of core/iwasm/common/wasm_loader.c against the digits of LEB128.
use wasm2native.Common.{
  ℕ, ◌+◌, ◌*◌, ◌%◌, ◌^◌, ◌≤◌, ◌<◌, ◌≡◌, sym, ap, ◌∙◌, ◌⊎◌, ◌↔◌, inl, inr, List, [], ◌∷◌, ◌++◌,
  arith, length, All, false,
}
use wasm2native.Common.Bits.{high_nibble}
use wasm2native.Common.Outcome.{ok}
use wasm2native.Leb.{finish_leb, read_leb, read_leb_uint32}
use wasm2native.Leb.Digits.{leb_value, IsLeb, last_byte}
use wasm2native.Leb.Loop.{IsByte, Run, read_leb_loop_sound, read_leb_loop_complete}
use wasm2native.Leb.Takes.{read_leb-eq-ok, read_leb_uint32-eq-ok}

-- `ds` has `k` digits, and the last stands at weight `w` above the others.
abbrev pub Top : ℕ → ℕ → List ℕ → Type 0
Top k w ds =
    (length ds ≡ k)
    × (last_byte ds * w ≤ leb_value ds)
    × (leb_value ds < last_byte ds * w + w)
    × (last_byte ds < 128)

pub Top-cases :
    (ds : List ℕ)
    → IsLeb ds
    → length ds ≤ 5
    → Top 1 1 ds ⊎ Top 2 (2 ^ 7) ds ⊎ Top 3 (2 ^ 14) ds ⊎ Top 4 (2 ^ 21) ds ⊎ Top 5 (2 ^ 28) ds
Top-cases [] h n = absurd h
Top-cases (a ∷ []) h n = inl (omega arith)
Top-cases (a ∷ b ∷ []) h n = inr (inl (omega arith))
Top-cases (a ∷ b ∷ c ∷ []) h n = inr (inr (inl (omega arith)))
Top-cases (a ∷ b ∷ c ∷ d ∷ []) h n = inr (inr (inr (inl (omega arith))))
Top-cases (a ∷ b ∷ c ∷ d ∷ e ∷ []) h n = inr (inr (inr (inr (omega arith))))
Top-cases (a ∷ b ∷ c ∷ d ∷ e ∷ f ∷ ds) h n = absurd (omega arith)

-- The check on the top bits passes exactly the numbers below 2 ^ 32.
finish_uint32 :
    (ds : List ℕ)
    → IsLeb ds
    → length ds ≤ 5
    → leb_value ds < 2 ^ 32
    → finish_leb 32 false (last_byte ds) (7 * length ds) (leb_value ds) ≡ ok (leb_value ds)
unfolding finish_leb
finish_uint32 ds h n v = ground (arith, Top-cases ds h n, high_nibble (last_byte ds))

finish_uint32_fits :
    (ds : List ℕ) (v : ℕ)
    → IsLeb ds
    → length ds ≤ 5
    → finish_leb 32 false (last_byte ds) (7 * length ds) (leb_value ds) ≡ ok v
    → (leb_value ds ≡ v) × (v < 2 ^ 32)
unfolding finish_leb
finish_uint32_fits ds v h n e = ground (arith, Top-cases ds h n, high_nibble (last_byte ds))

-- `v` stands at the front of `p`, in at most five bytes, and `rest` follows.
abbrev pub StartsWithUint32 : List ℕ → ℕ → List ℕ → Type 0
StartsWithUint32 p v rest =
    (digits : List ℕ) × (p ≡ digits ++ rest)
    × IsLeb digits
    × (length digits ≤ 5)
    × (leb_value digits ≡ v)
    × (v < 2 ^ 32)

from_Run :
    (p : List ℕ) (v : ℕ) (rest : List ℕ) (w : ℕ) (out : ℕ × ℕ × ℕ × List ℕ)
    → Run p 5 0 0 out
    → finish_leb 32 false out.0 out.1 out.2 ≡ ok w
    → out.3 ≡ rest
    → w % 2 ^ 32 ≡ v
    → StartsWithUint32 p v rest
from_Run p v rest w out run finish same low =
    let n : length run.digits ≤ 5 = omega (arith, run.within) in
    let at_end : (out.0 ≡ last_byte run.digits)
        × (out.1 ≡ 7 * length run.digits)
        × (out.2 ≡ leb_value run.digits) =
      (sym run.last, omega (arith, run.shift_end), omega (arith, run.joined)) in
    let fits : (leb_value run.digits ≡ w) × (w < 2 ^ 32) =
      finish_uint32_fits run.digits w run.well_formed n
        (rw (sym at_end.0, sym at_end.1, sym at_end.2) finish) in
    (
      run.digits,
      run.split ∙ ap (λ t. run.digits ++ t) same,
      run.well_formed,
      n,
      omega arith,
      omega arith,
    )

sound :
    (p : List ℕ) (v : ℕ) (rest : List ℕ)
    → All IsByte p
    → read_leb_uint32 p ≡ ok (v, rest)
    → StartsWithUint32 p v rest
sound p v rest hp e =
    let (w, e0, low) = read_leb_uint32-eq-ok p v rest e in
    let (out, loop, finish, same) = read_leb-eq-ok p 32 false w rest e0 in
    from_Run p v rest w out (read_leb_loop_sound p 32 0 0 out hp (omega arith) (omega arith) loop)
      finish same low

complete :
    (p : List ℕ) (v : ℕ) (rest : List ℕ)
    → StartsWithUint32 p v rest
    → read_leb_uint32 p ≡ ok (v, rest)
unfolding read_leb_uint32 read_leb
complete p v rest (digits, split, h, n, value, fits) =
    rw
      (split, read_leb_loop_complete digits rest 32 0 0 h (omega arith) (omega arith) (omega arith))
      (ground (arith, finish_uint32 digits h n (omega arith)))

-- On a list of bytes `read_leb_uint32` succeeds exactly when a number below 2 ^ 32 stands at the
-- front in at most five bytes, and it returns that number and the bytes behind it.
pub read_leb_uint32_iff :
    (p : List ℕ) (v : ℕ) (rest : List ℕ)
    → All IsByte p
    → (read_leb_uint32 p ≡ ok (v, rest)) ↔ StartsWithUint32 p v rest
read_leb_uint32_iff p v rest hp = (sound p v rest hp, complete p v rest)
