-- ===== src/Common/Bits.antt =====
-- Facts about `bit_and` and `bit_or`: masks on one byte by tables, and the join of disjoint parts
-- of a word for every width.
mod Join
pub use Join.{bit_or_join, bit_or_bounded}
use Prim.Native.Nat.{ℕ, zero, suc, ◌*◌, ◌/◌, ◌%◌, ◌<◌, bit_and}
use mathlib.Core.Path.{◌≡◌, refl}
use mathlib.Core.Bool.{Bool, true, ◌&&◌}
use native.Mathlib.Omega.{arith}
use wasm2native.Common.Tests.{◌==◌}

-- Two functions agree on every value below a bound.
pub agree_below : ℕ → (ℕ → ℕ) → (ℕ → ℕ) → Bool
agree_below zero f g = true
agree_below (suc n) f g = f n == g n && agree_below n f g

pub agree_below_sound : (n : ℕ) (f g : ℕ → ℕ) (x : ℕ) → agree_below n f g ≡ true → x < n → f x ≡ g x
unfolding agree_below
agree_below_sound zero f g x h lt = absurd (omega arith)
agree_below_sound (suc n) f g x h lt = ground (arith, agree_below_sound n f g x)

pub low_seven : (b : ℕ) → b < 256 → bit_and b 0x7f ≡ b % 128
unfolding agree_below
low_seven b h = agree_below_sound 256 (λ x. bit_and x 0x7f) (λ x. x % 128) b refl h

pub top_bit : (b : ℕ) → b < 256 → bit_and b 0x80 ≡ b / 128 * 128
unfolding agree_below
top_bit b h = agree_below_sound 256 (λ x. bit_and x 0x80) (λ x. x / 128 * 128) b refl h

pub sixth_bit : (b : ℕ) → b < 256 → bit_and b 0x40 ≡ b / 64 % 2 * 64
unfolding agree_below
sixth_bit b h = agree_below_sound 256 (λ x. bit_and x 0x40) (λ x. x / 64 % 2 * 64) b refl h

pub third_bit : (b : ℕ) → b < 256 → bit_and b 0x8 ≡ b / 8 % 2 * 8
unfolding agree_below
third_bit b h = agree_below_sound 256 (λ x. bit_and x 0x8) (λ x. x / 8 % 2 * 8) b refl h

pub lowest_bit : (b : ℕ) → b < 256 → bit_and b 0x1 ≡ b % 2
unfolding agree_below
lowest_bit b h = agree_below_sound 256 (λ x. bit_and x 0x1) (λ x. x % 2) b refl h

pub high_nibble : (b : ℕ) → b < 256 → bit_and b 0xf0 ≡ b / 16 * 16
unfolding agree_below
high_nibble b h = agree_below_sound 256 (λ x. bit_and x 0xf0) (λ x. x / 16 * 16) b refl h

pub all_but_lowest : (b : ℕ) → b < 256 → bit_and b 0xfe ≡ b / 2 * 2
unfolding agree_below
all_but_lowest b h = agree_below_sound 256 (λ x. bit_and x 0xfe) (λ x. x / 2 * 2) b refl h
