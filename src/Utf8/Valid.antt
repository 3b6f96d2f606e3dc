-- ===== src/Utf8/Valid.antt =====
-- `check_utf8_str` (core/iwasm/common/wasm_loader.c) accepts exactly the encodings of scalar values.
use wasm2native.Common.{
  ℕ, ◌+◌, ◌-◌, ◌*◌, ◌/◌, ◌%◌, ◌≤◌, ◌<◌, ◌≡◌, refl, ◌∙◌, ◌⊎◌, ◌↔◌, inl, inr, true, false, List, [],
  ◌∷◌, ◌++◌, arith, All, ltb, Bool-cases,
}
use wasm2native.Utf8.{
  check_utf8_str, bad_three, bad_four, leads_two, leads_three, leads_four, outside,
}
use wasm2native.Utf8.Scalars.{IsScalar, encode, encode_all}

module _ (c : ℕ) where
  -- What one step does on a string long enough for its lead byte.
  step_one : (p : List ℕ) → 0 < c → c < 0x80 → check_utf8_str (c ∷ p) ≡ check_utf8_str p
  unfolding check_utf8_str
  step_one [] h k = ground arith
  step_one (a ∷ []) h k = ground arith
  step_one (a ∷ b ∷ []) h k = ground arith
  step_one (a ∷ b ∷ d ∷ p) h k = ground arith

  step_two :
      (p1 : ℕ) (p : List ℕ)
      → leads_two c ≡ true
      → outside 0x80 0xBF p1 ≡ false
      → check_utf8_str (c ∷ p1 ∷ p) ≡ check_utf8_str p
  unfolding check_utf8_str
  step_two p1 [] h k = ground arith
  step_two p1 (b ∷ []) h k = ground arith
  step_two p1 (b ∷ d ∷ p) h k = ground arith

  step_three :
      (p1 p2 : ℕ) (p : List ℕ)
      → leads_three c ≡ true
      → bad_three c p1 p2 ≡ false
      → check_utf8_str (c ∷ p1 ∷ p2 ∷ p) ≡ check_utf8_str p
  unfolding check_utf8_str
  step_three p1 p2 [] h k = ground arith
  step_three p1 p2 (d ∷ p) h k = ground arith

  step_four :
      (p1 p2 p3 : ℕ) (p : List ℕ)
      → leads_four c ≡ true
      → bad_four c p1 p2 p3 ≡ false
      → check_utf8_str (c ∷ p1 ∷ p2 ∷ p3 ∷ p) ≡ check_utf8_str p
  unfolding check_utf8_str
  step_four p1 p2 p3 p h k = ground arith

module _ (n : ℕ) (p : List ℕ) (h : IsScalar n) where
  accept_two :
      0x80 ≤ n
      → n < 0x800
      → check_utf8_str ((0xC0 + n / 64) ∷ (0x80 + n % 64) ∷ p) ≡ check_utf8_str p
  accept_two lo hi = step_two _ _ p (ground arith) (ground arith)

  accept_three :
      0x800 ≤ n
      → n < 0x10000
      → check_utf8_str ((0xE0 + n / 4096) ∷ (0x80 + n / 64 % 64) ∷ (0x80 + n % 64) ∷ p)
        ≡ check_utf8_str p
  accept_three lo hi = step_three _ _ _ p (ground arith) (unfold bad_three in ground arith)

  accept_four :
      0x10000 ≤ n
      → check_utf8_str (
          (0xF0 + n / 262144) ∷ (0x80 + n / 4096 % 64) ∷ (0x80 + n / 64 % 64) ∷ (0x80 + n % 64) ∷ p)
        ≡ check_utf8_str p
  accept_four lo = step_four _ _ _ _ p (ground arith) (unfold bad_four in ground arith)

  -- The encoding of a scalar value in front of a string changes nothing about the string.
  accept_encode : check_utf8_str (encode n ++ p) ≡ check_utf8_str p
  unfolding encode
  accept_encode = ground (arith, step_one n p, accept_two, accept_three, accept_four)

accept-All : (ns : List ℕ) → All IsScalar ns → check_utf8_str (encode_all ns) ≡ true
unfolding encode_all
accept-All [] h = unfold check_utf8_str in refl
accept-All (n ∷ ns) (h, hs) = accept_encode n (encode_all ns) h ∙ accept-All ns hs

-- A lead byte with the bytes that it wants is the encoding of a scalar value.
IsEncoded : List ℕ → Type 0
IsEncoded bs = (n : ℕ) × IsScalar n × (encode n ≡ bs)

module _ (c : ℕ) where
  IsEncoded-one : 0 < c → c < 0x80 → IsEncoded (c ∷ [])
  unfolding encode IsEncoded
  IsEncoded-one h k = (c, omega arith, ground arith)

  IsEncoded-two :
      (p1 : ℕ) → leads_two c ≡ true → outside 0x80 0xBF p1 ≡ false → IsEncoded (c ∷ p1 ∷ [])
  unfolding encode IsEncoded
  IsEncoded-two p1 h k = ((c - 0xC0) * 64 + (p1 - 0x80), ground arith, ground arith)

  IsEncoded-three :
      (p1 p2 : ℕ) → leads_three c ≡ true → bad_three c p1 p2 ≡ false → IsEncoded (c ∷ p1 ∷ p2 ∷ [])
  unfolding encode IsEncoded bad_three
  IsEncoded-three p1 p2 h k =
      ((c - 0xE0) * 4096 + (p1 - 0x80) * 64 + (p2 - 0x80), ground arith, ground arith)

  IsEncoded-four :
      (p1 p2 p3 : ℕ)
      → leads_four c ≡ true
      → bad_four c p1 p2 p3 ≡ false
      → IsEncoded (c ∷ p1 ∷ p2 ∷ p3 ∷ [])
  unfolding encode IsEncoded bad_four
  IsEncoded-four p1 p2 p3 h k = (
    (c - 0xF0) * 262144 + (p1 - 0x80) * 4096 + (p2 - 0x80) * 64 + (p3 - 0x80),
    ground arith,
    ground arith,
  )

-- A string that is the encoding of a list of scalar values.
abbrev pub IsUtf8 : List ℕ → Type 0
IsUtf8 s = (ns : List ℕ) × All IsScalar ns × (encode_all ns ≡ s)

attach : (bs s : List ℕ) → IsEncoded bs → IsUtf8 s → IsUtf8 (bs ++ s)
unfolding IsEncoded encode_all
attach bs s (n, h, e) (ns, hs, es) = (n ∷ ns, (h, hs), rw (e, es))

-- The ways in which the function accepts a string, by the number of bytes that are there.
module _ (c : ℕ) where
  way_one : check_utf8_str (c ∷ []) ≡ true → (0 < c) × (c < 0x80)
  unfolding check_utf8_str
  way_one e = ground arith

  way_two :
      (p1 : ℕ)
      → check_utf8_str (c ∷ p1 ∷ []) ≡ true
      → ((0 < c) × (c < 0x80) × (check_utf8_str (p1 ∷ []) ≡ true))
        ⊎ ((leads_two c ≡ true) × (outside 0x80 0xBF p1 ≡ false))
  unfolding check_utf8_str
  way_two p1 e = ground arith

  way_three :
      (p1 p2 : ℕ)
      → check_utf8_str (c ∷ p1 ∷ p2 ∷ []) ≡ true
      → ((0 < c) × (c < 0x80) × (check_utf8_str (p1 ∷ p2 ∷ []) ≡ true))
        ⊎ ((leads_two c ≡ true)
            × (outside 0x80 0xBF p1 ≡ false)
            × (check_utf8_str (p2 ∷ []) ≡ true))
        ⊎ ((leads_three c ≡ true) × (bad_three c p1 p2 ≡ false))
  unfolding check_utf8_str
  way_three p1 p2 e = ground arith

  way_four :
      (p1 p2 p3 : ℕ) (p : List ℕ)
      → check_utf8_str (c ∷ p1 ∷ p2 ∷ p3 ∷ p) ≡ true
      → ((0 < c) × (c < 0x80) × (check_utf8_str (p1 ∷ p2 ∷ p3 ∷ p) ≡ true))
        ⊎ ((leads_two c ≡ true)
            × (outside 0x80 0xBF p1 ≡ false)
            × (check_utf8_str (p2 ∷ p3 ∷ p) ≡ true))
        ⊎ ((leads_three c ≡ true) × (bad_three c p1 p2 ≡ false) × (check_utf8_str (p3 ∷ p) ≡ true))
        ⊎ ((leads_four c ≡ true) × (bad_four c p1 p2 p3 ≡ false) × (check_utf8_str p ≡ true))
  unfolding check_utf8_str
  way_four p1 p2 p3 p e = elim (Bool-cases (ltb c 0x80)) [
    | inl low ↦ inl (ground arith)
    | inr high ↦ elim (Bool-cases (leads_two c)) [
      | inl two ↦ inr (inl (ground arith))
      | inr not_two ↦ elim (Bool-cases (leads_three c)) [
        | inl three ↦ inr (inr (inl (ground arith)))
        | inr not_three ↦ inr (inr (inr (ground arith)))
      ]
    ]
  ]

nothing : IsUtf8 []
nothing = ([], tt, unfold encode_all in refl)

accepted : (s : List ℕ) → check_utf8_str s ≡ true → IsUtf8 s
accepted [] e = nothing
accepted (c ∷ []) e = let (lo, hi) = way_one c e in attach _ _ (IsEncoded-one c lo hi) nothing
accepted (c ∷ p1 ∷ []) e = elim (way_two c p1 e) [
  | inl (lo, hi, r) ↦ attach _ _ (IsEncoded-one c lo hi) (accepted (p1 ∷ []) r)
  | inr (h, k) ↦ attach _ _ (IsEncoded-two c p1 h k) nothing
]
accepted (c ∷ p1 ∷ p2 ∷ []) e = elim (way_three c p1 p2 e) [
  | inl (lo, hi, r) ↦ attach _ _ (IsEncoded-one c lo hi) (accepted (p1 ∷ p2 ∷ []) r)
  | inr (inl (h, k, r)) ↦ attach _ _ (IsEncoded-two c p1 h k) (accepted (p2 ∷ []) r)
  | inr (inr (h, k)) ↦ attach _ _ (IsEncoded-three c p1 p2 h k) nothing
]
accepted (c ∷ p1 ∷ p2 ∷ p3 ∷ p) e = elim (way_four c p1 p2 p3 p e) [
  | inl (lo, hi, r) ↦ attach _ _ (IsEncoded-one c lo hi) (accepted (p1 ∷ p2 ∷ p3 ∷ p) r)
  | inr (inl (h, k, r)) ↦ attach _ _ (IsEncoded-two c p1 h k) (accepted (p2 ∷ p3 ∷ p) r)
  | inr (inr (inl (h, k, r))) ↦ attach _ _ (IsEncoded-three c p1 p2 h k) (accepted (p3 ∷ p) r)
  | inr (inr (inr (h, k, r))) ↦ attach _ _ (IsEncoded-four c p1 p2 p3 h k) (accepted p r)
]

-- `check_utf8_str` accepts a string exactly when it is the UTF-8 encoding of a list of Unicode
-- scalar values other than zero.
pub check_utf8_str_iff : (s : List ℕ) → (check_utf8_str s ≡ true) ↔ IsUtf8 s
check_utf8_str_iff s = (accepted s, λ (ns, hs, e). rw (← e) (accept-All ns hs))
