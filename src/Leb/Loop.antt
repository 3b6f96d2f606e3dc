-- ===== src/Leb/Loop.antt =====
-- The loop of `read_leb` (core/iwasm/common/wasm_loader.c) against the digits of LEB128.
use native.Mathlib.Nat.{pow-le-pow_right, mod-eq_of_lt}
use native.Mathlib.Numerals.{towards_suc}
use wasm2native.Common.{
  ℕ, ◌+◌, ◌*◌, ◌/◌, ◌%◌, ◌^◌, ◌≤◌, ◌<◌, bit_and, bit_or, ◌≡◌, refl, ap, ◌∙◌, ◌⊎◌, inl, inr, List,
  [], ◌∷◌, ◌++◌, arith, length, All, nonzero, true, false,
}
use wasm2native.Common.Bits.{low_seven, top_bit, bit_or_join}
use wasm2native.Common.Outcome.{ok}
use wasm2native.Leb.{read_leb_loop}
use wasm2native.Leb.Digits.{leb_value, IsLeb, last_byte}

abbrev pub IsByte : ℕ → Type 0
IsByte b = b < 256

pub shift_seven : (s : ℕ) → 2 ^ (s + 7) ≡ 128 * 2 ^ s
shift_seven s = simp towards_suc (omega arith)

shift_next : (j : ℕ) → 2 ^ (7 * (j + 1)) ≡ 128 * 2 ^ (7 * j)
shift_next j = let e : 7 * (j + 1) ≡ 7 * j + 7 = omega arith in rw e (shift_seven (7 * j))

-- One round joins the group `b % 128` at bit `s`, and nothing is cut off below bit 64.
pub join_group :
    (s r b : ℕ)
    → b < 256
    → s ≤ 56
    → r < 2 ^ s
    → bit_or r (bit_and b 0x7f * 2 ^ s % 2 ^ 64) ≡ r + b % 128 * 2 ^ s
join_group s r b hb hs hr =
    let small : 2 ^ s ≤ 2 ^ 56 = pow-le-pow_right (omega arith) hs in
    let fits : b % 128 * 2 ^ s < 2 ^ 64 = grind arith in
    rw (low_seven b hb) (rw (mod-eq_of_lt fits) (bit_or_join s r (b % 128) hr))

pub continues : (b : ℕ) → b < 256 → nonzero (bit_and b 0x80) ≡ true → 128 ≤ b
continues b hb h = ground (arith, top_bit b hb)

pub ends : (b : ℕ) → b < 256 → nonzero (bit_and b 0x80) ≡ false → b < 128
ends b hb h = ground (arith, top_bit b hb)

-- What a run of the loop from `bcnt` bytes on has read, if it ends in `out`.
pub record Run (p : List ℕ) (limit bcnt result : ℕ) (out : ℕ × ℕ × ℕ × List ℕ) : Type 0 where
  pub digits : List ℕ
  pub split : p ≡ digits ++ out.3
  pub well_formed : IsLeb digits
  pub within : bcnt + length digits ≤ limit
  pub shift_end : out.1 ≡ 7 * (bcnt + length digits)
  pub last : last_byte digits ≡ out.0
  pub joined : out.2 ≡ result + leb_value digits * 2 ^ (7 * bcnt)

module _ (p : List ℕ) (limit bcnt : ℕ) (out : ℕ × ℕ × ℕ × List ℕ) where
  one_more :
      (b result : ℕ)
      → b < 256
      → 128 ≤ b
      → Run p limit (bcnt + 1) (result + b % 128 * 2 ^ (7 * bcnt)) out
      → Run (b ∷ p) limit bcnt result out
  one_more b result hb hc r = record {
    digits = b ∷ r.digits;
    split = ap (λ t. b ∷ t) r.split;
    well_formed = cons_well_formed r.digits r.well_formed;
    within = omega (arith, r.within);
    shift_end = omega (arith, r.shift_end);
    last = cons_last r.digits r.well_formed ∙ r.last;
    joined = omega (arith, r.joined, ap (λ (t : ℕ). leb_value r.digits * t) (shift_next bcnt));
  }
    where
      cons_well_formed : (ds : List ℕ) → IsLeb ds → IsLeb (b ∷ ds)
      cons_well_formed [] h = absurd h
      cons_well_formed (d ∷ ds) h = (hc, hb, h)

      cons_last : (ds : List ℕ) → IsLeb ds → last_byte (b ∷ ds) ≡ last_byte ds
      cons_last [] h = absurd h
      cons_last (d ∷ ds) h = refl

abbrev joined_with : ℕ → ℕ → ℕ → ℕ
joined_with result bcnt b = bit_or result (bit_and b 0x7f * 2 ^ (7 * bcnt) % 2 ^ 64)

next_fits :
    (bcnt result b : ℕ)
    → result < 2 ^ (7 * bcnt)
    → result + b % 128 * 2 ^ (7 * bcnt) < 2 ^ (7 * (bcnt + 1))
next_fits bcnt result b hr =
    let e : 7 * (bcnt + 1) ≡ 7 * bcnt + 7 = omega arith in
    rw (e, shift_seven (7 * bcnt)) (grind arith)

module _ (b : ℕ) (p : List ℕ) (maxbits bcnt result : ℕ) (out : ℕ × ℕ × ℕ × List ℕ) where
  -- A round that does not refuse, by the byte's top bit.
  loop_round :
      read_leb_loop (b ∷ p) maxbits bcnt (7 * bcnt) result ≡ ok out
      → (bcnt + 1 ≤ (maxbits + 6) / 7)
        × ((nonzero (bit_and b 0x80) ≡ true)
              × (read_leb_loop p maxbits (bcnt + 1) (7 * bcnt + 7) (joined_with result bcnt b)
                  ≡ ok out)
            ⊎ (nonzero (bit_and b 0x80) ≡ false)
              × (out ≡ (b, 7 * bcnt + 7, joined_with result bcnt b, p)))
  unfolding read_leb_loop
  loop_round e = ground arith

-- A run that ends has read the digits of one number.
pub read_leb_loop_sound :
    (p : List ℕ) (maxbits bcnt result : ℕ) (out : ℕ × ℕ × ℕ × List ℕ)
    → All IsByte p
    → (maxbits + 6) / 7 ≤ 9
    → result < 2 ^ (7 * bcnt)
    → read_leb_loop p maxbits bcnt (7 * bcnt) result ≡ ok out
    → Run p ((maxbits + 6) / 7) bcnt result out
read_leb_loop_sound [] maxbits bcnt result out hp hm hr e = unfold read_leb_loop in ground arith
read_leb_loop_sound (b ∷ p) maxbits bcnt result out (hb, hp) hm hr e =
    let (within, way) = loop_round b p maxbits bcnt result out e in
    let j : joined_with result bcnt b ≡ result + b % 128 * 2 ^ (7 * bcnt) =
      join_group (7 * bcnt) result b hb (omega arith) hr in
    elim way [
      | inl (more, rest) ↦
          one_more p ((maxbits + 6) / 7) bcnt out b result hb (continues b hb more) (
            read_leb_loop_sound p maxbits (bcnt + 1) _ out hp hm (next_fits bcnt result b hr)
              (ground arith))
      | inr (stop, e') ↦ record {
        digits = b ∷ [];
        split = ground arith;
        well_formed = ends b hb stop;
        within = omega arith;
        shift_end = ground arith;
        last = ground arith;
        joined = ground arith;
      }
    ]

-- A round on a byte with its top bit set.
more_round :
    (b : ℕ) (p : List ℕ) (maxbits bcnt result : ℕ)
    → b < 256
    → 128 ≤ b
    → bcnt + 1 ≤ (maxbits + 6) / 7
    → (maxbits + 6) / 7 ≤ 9
    → result < 2 ^ (7 * bcnt)
    → read_leb_loop (b ∷ p) maxbits bcnt (7 * bcnt) result
      ≡ read_leb_loop p maxbits (bcnt + 1) (7 * (bcnt + 1)) (result + b % 128 * 2 ^ (7 * bcnt))
unfolding read_leb_loop
more_round b p maxbits bcnt result hb hc fit hm hr =
    ground (arith, join_group (7 * bcnt) result b, top_bit b)

-- On the digits of one number that is not too long, whatever follows them, the loop ends.
pub read_leb_loop_complete :
    (digits rest : List ℕ) (maxbits bcnt result : ℕ)
    → IsLeb digits
    → bcnt + length digits ≤ (maxbits + 6) / 7
    → (maxbits + 6) / 7 ≤ 9
    → result < 2 ^ (7 * bcnt)
    → read_leb_loop (digits ++ rest) maxbits bcnt (7 * bcnt) result
      ≡ ok (
        last_byte digits,
        7 * (bcnt + length digits),
        result + leb_value digits * 2 ^ (7 * bcnt),
        rest,
      )
read_leb_loop_complete [] rest maxbits bcnt result h fit hm hr = absurd h
read_leb_loop_complete (b ∷ []) rest maxbits bcnt result h fit hm hr =
    unfold read_leb_loop in ground (arith, join_group (7 * bcnt) result b, top_bit b)
read_leb_loop_complete (b ∷ c ∷ cs) rest maxbits bcnt result (hc, hb, h) fit hm hr =
    more_round b (c ∷ cs ++ rest) maxbits bcnt result hb hc (omega arith) hm hr
    ∙ read_leb_loop_complete (c ∷ cs) rest maxbits (bcnt + 1) (result + b % 128 * 2 ^ (7 * bcnt)) h
        (omega arith) hm (next_fits bcnt result b hr)
    ∙ ground (arith, ap (λ (t : ℕ). leb_value (c ∷ cs) * t) (shift_next bcnt))
