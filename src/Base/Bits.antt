-- ===== src/Base/Bits.antt =====
-- Masks and shifts on one byte as arithmetic; each is a table checked by evaluation.
use Prim.Native.Nat.{ℕ, zero, suc, ◌+◌, ◌*◌, ◌/◌, ◌%◌, ◌<◌, bit_and, bit_or, bit_xor}
use mathlib.Core.Path.{◌≡◌, refl, ◌∙◌, sym, ap}
use mathlib.Core.Bool.{Bool, true, ◌&&◌}
use mathlib.Core.Logic.{inl, inr}
use native.Mathlib.Omega.{arith}
use minihttp.Base.Tests.{◌==◌, ==_iff, &&-true, Bool-cases}

-- Two functions have the same values below a bound.
unfoldable pub same_below : (ℕ → ℕ) → (ℕ → ℕ) → ℕ → Bool
same_below f g zero = true
same_below f g (suc n) = f n == g n && same_below f g n

pub agree : (n : ℕ) (f g : ℕ → ℕ) → same_below f g n ≡ true → (x : ℕ) → x < n → f x ≡ g x
unfolding same_below
agree zero f g h x lt = absurd (omega arith)
agree (suc n) f g h x lt =
    let (top, rest) = &&-true (f n == g n) _ h in
    elim (Bool-cases (x == n)) [
      | inl same ↦
          let e : x ≡ n = (==_iff x n).0 same in ap f e ∙ (==_iff (f n) (g n)).0 top ∙ sym (ap g e)
      | inr other ↦ agree n f g rest x (ground arith)
    ]

pub low_seven : (b : ℕ) → b < 256 → bit_and b 0x7f ≡ b % 128
unfolding same_below
low_seven = agree 256 (λ b. bit_and b 0x7f) (λ b. b % 128) refl

pub low_four : (b : ℕ) → b < 256 → bit_and b 0x0f ≡ b % 16
unfolding same_below
low_four = agree 256 (λ b. bit_and b 0x0f) (λ b. b % 16) refl

pub top_bit : (b : ℕ) → b < 256 → bit_and b 0x80 ≡ b / 128 * 128
unfolding same_below
top_bit = agree 256 (λ b. bit_and b 0x80) (λ b. b / 128 * 128) refl

pub set_top_bit : (b : ℕ) → b < 128 → bit_or b 0x80 ≡ b + 128
unfolding same_below
set_top_bit = agree 128 (λ b. bit_or b 0x80) (λ b. b + 128) refl

pub set_no_bit : (b : ℕ) → b < 128 → bit_or b 0 ≡ b
unfolding same_below
set_no_bit = agree 128 (λ b. bit_or b 0) (λ b. b) refl

-- Over pairs of bytes, one number for each.
toggled_twice : ℕ → ℕ
toggled_twice p = let k = p % 256 in bit_xor (bit_xor (p / 256) k) k

xor_excess : ℕ → ℕ
xor_excess p = bit_xor (p / 256) (p % 256) / 256

toggled_twice_lem : (p : ℕ) → p < 65536 → toggled_twice p ≡ p / 256
unfolding same_below toggled_twice
toggled_twice_lem = agree 65536 toggled_twice (λ p. p / 256) refl

xor_excess_lem : (p : ℕ) → p < 65536 → xor_excess p ≡ 0
unfolding same_below xor_excess
xor_excess_lem = agree 65536 xor_excess (λ p. 0) refl

-- One byte under another, twice.
pub xor_xor : (a k : ℕ) → a < 256 → k < 256 → (bit_xor (bit_xor a k) k ≡ a) × (bit_xor a k < 256)
unfolding toggled_twice xor_excess
xor_xor a k ha hk =
    let ea : (a * 256 + k) / 256 ≡ a = omega arith in
    let ek : (a * 256 + k) % 256 ≡ k = omega arith in
    let twice = rw (ea, ek) at (toggled_twice_lem (a * 256 + k) (omega arith)) in
    let none_over = rw (ea, ek) at (xor_excess_lem (a * 256 + k) (omega arith)) in
    (twice, omega arith)
