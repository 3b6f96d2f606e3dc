-- ===== src/Utf8.antt =====
-- `check_utf8_str` of core/iwasm/common/wasm_loader.c: the names of a module must be UTF-8 with no
-- zero byte.
pub mod Scalars
pub mod Valid
use wasm2native.Common.{
  ℕ, ◌≤◌, Bool, true, false, ◌&&◌, ◌||◌, List, [], ◌∷◌, ltb, leb, ◌==◌, if◌then◌else◌,
}

-- `x < lo || x > hi`
abbrev pub outside : ℕ → ℕ → ℕ → Bool
outside lo hi x = ltb x lo || ltb hi x

-- The bytes behind a lead byte 0xE0 to 0xEF.
unfoldable pub bad_three : ℕ → ℕ → ℕ → Bool
bad_three chr p1 p2 =
    if chr == 0xE0
    then outside 0xA0 0xBF p1 || outside 0x80 0xBF p2
    else if chr == 0xED
    then outside 0x80 0x9F p1 || outside 0x80 0xBF p2
    else outside 0x80 0xBF p1 || outside 0x80 0xBF p2

-- The bytes behind a lead byte 0xF0 to 0xF4.
unfoldable pub bad_four : ℕ → ℕ → ℕ → ℕ → Bool
bad_four chr p1 p2 p3 =
    if chr == 0xF0
    then outside 0x90 0xBF p1 || (outside 0x80 0xBF p2 || outside 0x80 0xBF p3)
    else if leb chr 0xF3
    then outside 0x80 0xBF p1 || (outside 0x80 0xBF p2 || outside 0x80 0xBF p3)
    else outside 0x80 0x8F p1 || (outside 0x80 0xBF p2 || outside 0x80 0xBF p3)

-- The lead byte of two, three or four bytes.
abbrev pub leads_two : ℕ → Bool
leads_two chr = leb 0xC2 chr && leb chr 0xDF

abbrev pub leads_three : ℕ → Bool
leads_three chr = leb 0xE0 chr && leb chr 0xEF

abbrev pub leads_four : ℕ → Bool
leads_four chr = leb 0xF0 chr && leb chr 0xF4

-- The loop from `p` to `p_end`; the list is the bytes that are left. A lead byte is taken for one
-- only where the bytes that it wants are there.
unfoldable pub check_utf8_str : List ℕ → Bool
check_utf8_str [] = true
check_utf8_str (c ∷ []) = if c == 0 then false else ltb c 0x80
check_utf8_str (c ∷ p1 ∷ []) =
    let after_one = check_utf8_str (p1 ∷ []) in
    if c == 0
    then false
    else if ltb c 0x80
    then after_one
    else leads_two c && (if outside 0x80 0xBF p1 then false else true)
check_utf8_str (c ∷ p1 ∷ p2 ∷ []) =
    let after_one = check_utf8_str (p1 ∷ p2 ∷ []) in
    let after_two = check_utf8_str (p2 ∷ []) in
    if c == 0
    then false
    else if ltb c 0x80
    then after_one
    else if leads_two c
    then (if outside 0x80 0xBF p1 then false else after_two)
    else leads_three c && (if bad_three c p1 p2 then false else true)
check_utf8_str (c ∷ p1 ∷ p2 ∷ p3 ∷ p) =
    let after_one = check_utf8_str (p1 ∷ p2 ∷ p3 ∷ p) in
    let after_two = check_utf8_str (p2 ∷ p3 ∷ p) in
    let after_three = check_utf8_str (p3 ∷ p) in
    let after_four = check_utf8_str p in
    if c == 0
    then false
    else if ltb c 0x80
    then after_one
    else if leads_two c
    then (if outside 0x80 0xBF p1 then false else after_two)
    else if leads_three c
    then (if bad_three c p1 p2 then false else after_three)
    else leads_four c && (if bad_four c p1 p2 p3 then false else after_four)
