-- ===== src/Utf8/Scalars.antt =====
-- UTF-8 as the Unicode standard defines it: the encoding of a scalar value.
use wasm2native.Common.{ℕ, ◌+◌, ◌/◌, ◌%◌, ◌≤◌, ◌<◌, ◌⊎◌, List, [], ◌∷◌, ◌++◌, ltb, if◌then◌else◌}

-- A code point that is no surrogate; zero is left out.
abbrev pub IsScalar : ℕ → Type 0
IsScalar n = (0 < n) × ((n < 0xD800) ⊎ ((0xE000 ≤ n) × (n < 0x110000)))

unfoldable pub encode : ℕ → List ℕ
encode n =
    if ltb n 0x80
    then n ∷ []
    else if ltb n 0x800
    then (0xC0 + n / 64) ∷ (0x80 + n % 64) ∷ []
    else if ltb n 0x10000
    then (0xE0 + n / 4096) ∷ (0x80 + n / 64 % 64) ∷ (0x80 + n % 64) ∷ []
    else (0xF0 + n / 262144) ∷ (0x80 + n / 4096 % 64) ∷ (0x80 + n / 64 % 64) ∷ (0x80 + n % 64) ∷ []

unfoldable pub encode_all : List ℕ → List ℕ
encode_all [] = []
encode_all (n ∷ ns) = encode n ++ encode_all ns
