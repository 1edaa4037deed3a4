-- ===== src/Base/Bits/Step.antt =====
-- One equation for the lowest binary digit of each operation. The native operations stand for a
-- recursion on digits that carries a count; here the count is gone.
use Prim.Native.Nat.{
  ℕ, zero, suc, ◌+◌, ◌-◌, ◌*◌, ◌/◌, ◌%◌, ◌≤◌, ◌<◌, min, max, bit_and, bit_or, bit_xor, digits,
  bitwise, bit_and-bitwise, bit_or-bitwise, bit_xor-bitwise, differ,
}
use mathlib.Core.Path.{◌≡◌, refl, ap, ◌∙◌}
use native.Mathlib.Nat.{le_refl}
use native.Mathlib.Omega.{arith}

-- Halving goes down, so a fact about every number follows from that about its half.
below_half :
    (P : ℕ → Type 0) → P 0 → ((n : ℕ) → P (suc n / 2) → P (suc n)) → (k n : ℕ) → n ≤ k → P n
below_half P z s k zero h = z
below_half P z s zero (suc n) h = absurd (omega arith)
below_half P z s (suc k) (suc n) h = s n (below_half P z s k (suc n / 2) (omega arith))

pub by_half : (P : ℕ → Type 0) → P 0 → ((n : ℕ) → P (suc n / 2) → P (suc n)) → (n : ℕ) → P n
by_half P z s n = below_half P z s n n (le_refl n)

module _ (z : ℕ → ℕ) (f : ℕ → ℕ → ℕ) where
  -- A count that covers the first number may as well be one more, and so any number more.
  one_more : (x y n : ℕ) → x ≤ n → digits z f (suc n) x y ≡ digits z f n x y
  one_more zero y zero h = refl
  one_more zero y (suc n) h = refl
  one_more (suc x) y zero h = absurd (omega arith)
  one_more (suc x) y (suc n) h = rw (one_more (suc x / 2) (y / 2) n (omega arith)) refl

  many_more : (k x y n m : ℕ) → m ≡ k + n → x ≤ n → digits z f m x y ≡ digits z f n x y
  many_more zero x y n m e h = ap (λ i. digits z f i x y) {x = m} (omega arith)
  many_more (suc k) x y n m e h =
      many_more k x y (suc n) m (omega arith) (omega arith) ∙ one_more x y n h

  bitwise-halves :
      (x y : ℕ)
      → bitwise z f (suc x) y ≡ f (suc x % 2) (y % 2) + 2 * bitwise z f (suc x / 2) (y / 2)
  bitwise-halves x y = omega (
    arith,
    many_more (x - suc x / 2) (suc x / 2) (y / 2) (suc x / 2) x (omega arith) (omega arith),
  )

pub bit_and_step : (x y : ℕ) → bit_and x y ≡ min (x % 2) (y % 2) + 2 * bit_and (x / 2) (y / 2)
bit_and_step zero y = simp bit_and-bitwise (omega arith)
bit_and_step (suc x) y = simp bit_and-bitwise (bitwise-halves (λ k. 0) min x y)

pub bit_or_step : (x y : ℕ) → bit_or x y ≡ max (x % 2) (y % 2) + 2 * bit_or (x / 2) (y / 2)
bit_or_step zero y = simp bit_or-bitwise (omega arith)
bit_or_step (suc x) y = simp bit_or-bitwise (bitwise-halves (λ k. k) max x y)

differ_digits : (x y : ℕ) → x < 2 → y < 2 → differ x y ≡ (x + y) % 2
differ_digits zero y p q = omega arith
differ_digits (suc zero) zero p q = refl
differ_digits (suc zero) (suc zero) p q = refl
differ_digits (suc zero) (suc (suc y)) p q = absurd (omega arith)
differ_digits (suc (suc x)) y p q = absurd (omega arith)

-- Exclusive or adds the digits without a carry.
pub bit_xor_step : (x y : ℕ) → bit_xor x y ≡ (x % 2 + y % 2) % 2 + 2 * bit_xor (x / 2) (y / 2)
bit_xor_step zero y = simp bit_xor-bitwise (omega arith)
bit_xor_step (suc x) y = simp bit_xor-bitwise (
    omega (
      arith,
      bitwise-halves (λ k. k) differ x y,
      differ_digits (suc x % 2) (y % 2) (omega arith) (omega arith),
    ))
