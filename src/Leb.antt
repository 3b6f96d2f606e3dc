-- ===== src/Leb.antt =====
-- The LEB128 reader of core/iwasm/common/wasm_loader.c: `read_leb` and the macros over it.
-- The bytes from the read pointer up to its bound are a list; a read returns what is left of it,
-- and reading at the bound is the empty list.
pub mod Digits
pub mod Loop
pub mod Unsigned
pub mod Signed
pub mod Takes
use wasm2native.Common.{
  ℕ, suc, ◌+◌, ◌-◌, ◌*◌, ◌/◌, ◌%◌, ◌^◌, bit_and, bit_or, Bool, true, false, not, ◌&&◌, ◌||◌, List,
  [], ◌∷◌, ltb, leb, ◌==◌, nonzero, if◌then◌else◌,
}
use wasm2native.Common.Outcome.{
  Result, ok, err, ◌>>=◌, unexpected_end_of_section, representation_too_long, integer_too_large,
  offset_out_of_range,
}

-- What a read returns: the value, and the bytes behind it.
abbrev pub Read : Type 0 → Type 0
Read A = Result (A × List ℕ)

-- The `while (true)` loop: it ends at a byte whose top bit is clear, and hands on that byte, the
-- shift, the bits joined so far and the bytes that are left. Shifts stay at most 63.
unfoldable pub read_leb_loop : List ℕ → ℕ → ℕ → ℕ → ℕ → Result (ℕ × ℕ × ℕ × List ℕ)
read_leb_loop [] maxbits bcnt shift result =
    if ltb ((maxbits + 6) / 7) (bcnt + 1)
    then err representation_too_long
    else err unexpected_end_of_section
read_leb_loop (byte ∷ p) maxbits bcnt shift result =
    let joined = bit_or result (bit_and byte 0x7f * 2 ^ shift % 2 ^ 64) in
    let more = read_leb_loop p maxbits (bcnt + 1) (shift + 7) joined in
    if ltb ((maxbits + 6) / 7) (bcnt + 1)
    then err representation_too_long
    else if nonzero (bit_and byte 0x80)
    then more
    else ok (byte, shift + 7, joined, p)

-- `if (byte & 0x40) result |= (~((uint64)0)) << shift`
unfoldable pub sign_extend : ℕ → ℕ → ℕ → ℕ
sign_extend byte shift result =
    if nonzero (bit_and byte 0x40)
    then bit_or result ((2 ^ 64 - 1) * 2 ^ shift % 2 ^ 64)
    else result

-- The bits of the last byte that do not fit must repeat the sign bit.
unfoldable pub check_top_bits : Bool → ℕ → ℕ → ℕ → Result ℕ
check_top_bits sign_bit_set top_bits all_set result =
    if (sign_bit_set && not (top_bits == all_set)) || (not sign_bit_set && not (top_bits == 0))
    then err integer_too_large
    else ok result

-- What follows the loop.
unfoldable pub finish_leb : ℕ → Bool → ℕ → ℕ → ℕ → Result ℕ
finish_leb maxbits sign byte shift result =
    if not sign && (maxbits == 32 && leb maxbits shift)
    then (if nonzero (bit_and byte 0xf0) then err integer_too_large else ok result)
    else if sign && maxbits == 32
    then (if ltb shift maxbits
        then ok (sign_extend byte shift result)
        else check_top_bits (nonzero (bit_and byte 0x8)) (bit_and byte 0xf0) 0x70 result)
    else if sign && maxbits == 64
    then (if ltb shift maxbits
        then ok (sign_extend byte shift result)
        else check_top_bits (nonzero (bit_and byte 0x1)) (bit_and byte 0xfe) 0x7e result)
    else ok result

unfoldable pub read_leb : List ℕ → ℕ → Bool → Read ℕ
read_leb p maxbits sign = do
  (byte, shift, result, rest) ← read_leb_loop p maxbits 0 0 0
  value ← finish_leb maxbits sign byte shift result
  ok (value, rest)

unfoldable pub read_leb_uint64 : List ℕ → Read ℕ
read_leb_uint64 p = read_leb p 64 false

-- The bit pattern of the int64.
unfoldable pub read_leb_int64 : List ℕ → Read ℕ
read_leb_int64 p = read_leb p 64 true

unfoldable pub read_leb_uint32 : List ℕ → Read ℕ
read_leb_uint32 p = do (res64, rest) ← read_leb p 32 false; ok (res64 % 2 ^ 32, rest)

-- The bit pattern of the int32.
unfoldable pub read_leb_int32 : List ℕ → Read ℕ
read_leb_int32 p = do (res64, rest) ← read_leb p 32 true; ok (res64 % 2 ^ 32, rest)

-- Whatever went wrong, the macro writes its own message over it.
abbrev pub say_out_of_range {ℓ} : {A : Type ℓ} → Result A → Result A
say_out_of_range (ok a) = ok a
say_out_of_range (err e) = err offset_out_of_range

unfoldable pub read_leb_mem_offset : Bool → List ℕ → Read ℕ
read_leb_mem_offset is_memory64 p =
    say_out_of_range (read_leb p (if is_memory64 then 64 else 32) false)
