-- ===== src/Leb/Digits.antt =====
-- LEB128 numbers as the WebAssembly specification defines them, apart from the reader.
use wasm2native.Common.{ℕ, ◌+◌, ◌*◌, ◌%◌, ◌≤◌, ◌<◌, List, [], ◌∷◌}

-- Seven bits a byte, lowest group first.
abbrev pub leb_value : List ℕ → ℕ
leb_value [] = 0
leb_value (b ∷ bs) = b % 128 + 128 * leb_value bs

-- Every byte but the last has its top bit set.
abbrev pub IsLeb : List ℕ → Type 0
IsLeb [] = ⊥
IsLeb (b ∷ []) = b < 128
IsLeb (b ∷ c ∷ cs) = (128 ≤ b) × (b < 256) × IsLeb (c ∷ cs)

abbrev pub last_byte : List ℕ → ℕ
last_byte [] = 0
last_byte (b ∷ []) = b
last_byte (b ∷ c ∷ cs) = last_byte (c ∷ cs)
