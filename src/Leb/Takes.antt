-- ===== src/Leb/Takes.antt =====
-- What every read of a number does, whatever the bytes are: `read_leb` and the macros over it
-- (core/iwasm/common/wasm_loader.c) use up at least one byte.
use wasm2native.Common.{
  ℕ, ◌+◌, ◌*◌, ◌%◌, ◌^◌, ◌-◌, ◌<◌, ◌≡◌, bit_and, bit_or, List, [], ◌∷◌, Bool, true, false,
  if◌then◌else◌, arith, length,
}
use wasm2native.Common.Bits.{bit_or_bounded}
use wasm2native.Common.Outcome.{ok, err, Result, ◌>>=◌}
use wasm2native.Leb.{
  read_leb_loop, finish_leb, read_leb, read_leb_uint32, read_leb_int32, read_leb_int64,
  read_leb_mem_offset, say_out_of_range, sign_extend, check_top_bits,
}

-- The loop takes a byte at least.
pub read_leb_loop_takes :
    (p : List ℕ) (maxbits bcnt shift result : ℕ) (out : ℕ × ℕ × ℕ × List ℕ)
    → read_leb_loop p maxbits bcnt shift result ≡ ok out
    → length out.3 < length p
unfolding read_leb_loop
read_leb_loop_takes [] maxbits bcnt shift result out e = ground arith
read_leb_loop_takes (b ∷ p) maxbits bcnt shift result out e = ground (
  arith,
  read_leb_loop_takes p maxbits (bcnt + 1) (shift + 7)
      (bit_or result (bit_and b 0x7f * 2 ^ shift % 2 ^ 64)) out,
)

-- A read that succeeds went through the loop and then through the checks on the top bits.
pub read_leb-eq-ok :
    (p : List ℕ) (maxbits : ℕ) (sign : Bool) (v : ℕ) (rest : List ℕ)
    → read_leb p maxbits sign ≡ ok (v, rest)
    → (out : ℕ × ℕ × ℕ × List ℕ) × (read_leb_loop p maxbits 0 0 0 ≡ ok out)
      × (finish_leb maxbits sign out.0 out.1 out.2 ≡ ok v)
      × (out.3 ≡ rest)
unfolding read_leb
read_leb-eq-ok p maxbits sign v rest e = ground arith

pub read_leb_takes :
    (p : List ℕ) (maxbits : ℕ) (sign : Bool) (v : ℕ) (rest : List ℕ)
    → read_leb p maxbits sign ≡ ok (v, rest)
    → length rest < length p
read_leb_takes p maxbits sign v rest e =
    let (out, loop, finish, same) = read_leb-eq-ok p maxbits sign v rest e in
    ground (arith, read_leb_loop_takes p maxbits 0 0 0 out loop)

-- A cast of the value that was read to 32 bits.
cast-eq-ok :
    (r : Result (ℕ × List ℕ)) (v : ℕ) (rest : List ℕ)
    → ◌>>=◌ {Next = ℕ × List ℕ} r (λ t. ok (t.0 % 2 ^ 32, t.1)) ≡ ok (v, rest)
    → (w : ℕ) × (r ≡ ok (w, rest)) × (w % 2 ^ 32 ≡ v)
cast-eq-ok (ok (w, q)) v rest e = (w, ground arith, ground arith)
cast-eq-ok (err x) v rest e = cc

pub read_leb_uint32-eq-ok :
    (p : List ℕ) (v : ℕ) (rest : List ℕ)
    → read_leb_uint32 p ≡ ok (v, rest)
    → (w : ℕ) × (read_leb p 32 false ≡ ok (w, rest)) × (w % 2 ^ 32 ≡ v)
unfolding read_leb_uint32
read_leb_uint32-eq-ok p v rest e = cast-eq-ok (read_leb p 32 false) v rest e

pub read_leb_int32-eq-ok :
    (p : List ℕ) (v : ℕ) (rest : List ℕ)
    → read_leb_int32 p ≡ ok (v, rest)
    → (w : ℕ) × (read_leb p 32 true ≡ ok (w, rest)) × (w % 2 ^ 32 ≡ v)
unfolding read_leb_int32
read_leb_int32-eq-ok p v rest e = cast-eq-ok (read_leb p 32 true) v rest e

pub read_leb_uint32_takes :
    (p : List ℕ) (v : ℕ) (rest : List ℕ)
    → read_leb_uint32 p ≡ ok (v, rest)
    → (length rest < length p) × (v < 2 ^ 32)
read_leb_uint32_takes p v rest e =
    let (w, e1, e2) = read_leb_uint32-eq-ok p v rest e in
    omega (arith, read_leb_takes p 32 false w rest e1)

pub read_leb_int32_takes :
    (p : List ℕ) (v : ℕ) (rest : List ℕ)
    → read_leb_int32 p ≡ ok (v, rest)
    → (length rest < length p) × (v < 2 ^ 32)
read_leb_int32_takes p v rest e =
    let (w, e1, e2) = read_leb_int32-eq-ok p v rest e in
    omega (arith, read_leb_takes p 32 true w rest e1)

-- The bits that are joined stay a word of 64 bits.
read_leb_loop_bounded :
    (p : List ℕ) (maxbits bcnt shift result : ℕ) (out : ℕ × ℕ × ℕ × List ℕ)
    → result < 2 ^ 64
    → read_leb_loop p maxbits bcnt shift result ≡ ok out
    → out.2 < 2 ^ 64
unfolding read_leb_loop
read_leb_loop_bounded [] maxbits bcnt shift result out h e = ground arith
read_leb_loop_bounded (b ∷ p) maxbits bcnt shift result out h e =
    let term = bit_and b 0x7f * 2 ^ shift % 2 ^ 64 in
    let joined : bit_or result term < 2 ^ 64 = bit_or_bounded 64 result term h (omega arith) in
    ground (
      arith,
      read_leb_loop_bounded p maxbits (bcnt + 1) (shift + 7) (bit_or result term) out joined,
    )

sign_extend_bounded :
    (byte shift result : ℕ) → result < 2 ^ 64 → sign_extend byte shift result < 2 ^ 64
unfolding sign_extend
sign_extend_bounded byte shift result h =
    let ones = (2 ^ 64 - 1) * 2 ^ shift % 2 ^ 64 in
    ground (arith, bit_or_bounded 64 result ones h (omega arith))

finish_int64_bounded :
    (byte shift result v : ℕ)
    → result < 2 ^ 64
    → finish_leb 64 true byte shift result ≡ ok v
    → v < 2 ^ 64
unfolding finish_leb check_top_bits
finish_int64_bounded byte shift result v h e =
    ground (arith, sign_extend_bounded byte shift result h)

pub read_leb_int64_takes :
    (p : List ℕ) (v : ℕ) (rest : List ℕ)
    → read_leb_int64 p ≡ ok (v, rest)
    → (length rest < length p) × (v < 2 ^ 64)
unfolding read_leb_int64
read_leb_int64_takes p v rest e =
    let (out, loop, finish, same) = read_leb-eq-ok p 64 true v rest e in
    (
      read_leb_takes p 64 true v rest e,
      finish_int64_bounded out.0 out.1 out.2 v
          (read_leb_loop_bounded p 64 0 0 0 out (omega arith) loop) finish,
    )

in_range : {A : Type 0} (r : Result A) {a : A} → say_out_of_range r ≡ ok a → r ≡ ok a
in_range (ok a) e = e
in_range (err x) e = cc

pub read_leb_mem_offset_takes :
    (is_memory64 : Bool) (p : List ℕ) (v : ℕ) (rest : List ℕ)
    → read_leb_mem_offset is_memory64 p ≡ ok (v, rest)
    → length rest < length p
unfolding read_leb_mem_offset
read_leb_mem_offset_takes is_memory64 p v rest e =
    read_leb_takes p (if is_memory64 then 64 else 32) false v rest (in_range _ e)
