-- ===== src/Base/Bits/Fields.antt =====
-- `|` of disjoint fields is a sum and `&` with a low mask is a remainder, at every width.
use native.Mathlib.Nat.{pow-suc, one-le-pow}
use rc_monitor.Base.Bits.Step.{bit_and_step, bit_or_step, by_half}
use Prim.Native.Nat.{
  ℕ, zero, suc, ◌+◌, ◌-◌, ◌*◌, ◌/◌, ◌%◌, ◌^◌, ◌<◌, bit_and, bit_or, bit_or-bitwise,
}
use mathlib.Core.Path.{◌≡◌, refl, ap}
use native.Mathlib.Omega.{arith}

or_zero : (a : ℕ) → bit_or a 0 ≡ a
or_zero = by_half (λ a. bit_or a 0 ≡ a) refl (λ n ih. omega (arith, bit_or_step (suc n) 0, ih))

and_zero : (a : ℕ) → bit_and a 0 ≡ 0
and_zero = by_half (λ a. bit_and a 0 ≡ 0) refl (λ n ih. omega (arith, bit_and_step (suc n) 0, ih))

double_shift : (q k : ℕ) → q * 2 ^ suc k ≡ 2 * (q * 2 ^ k)
double_shift q k = omega (arith, ap (λ (t : ℕ). q * t) (pow-suc 2 k))

-- `(q << k) | r` is a sum when `r` fits `k` bits.
pub or_fields : (k q r : ℕ) → r < 2 ^ k → bit_or (q * 2 ^ k) r ≡ q * 2 ^ k + r
or_fields zero q r fits = ground (arith, or_zero q)
or_fields (suc k) q r fits =
    ground
      (arith, bit_or_step (q * 2 ^ suc k) r, double_shift q k, or_fields k q (r / 2) (omega arith))

-- The same with the fields the other way round.
pub or_fields_low : (k q r : ℕ) → r < 2 ^ k → bit_or r (q * 2 ^ k) ≡ r + q * 2 ^ k
or_fields_low zero q r fits = ground (arith, bit_or_zero q)
  where
    bit_or_zero : (a : ℕ) → bit_or 0 a ≡ a
    bit_or_zero a = bit_or-bitwise 0 a
or_fields_low (suc k) q r fits = ground (
  arith,
  bit_or_step r (q * 2 ^ suc k),
  double_shift q k,
  or_fields_low k q (r / 2) (omega arith),
)

mask_fields : (k q r : ℕ) → r < 2 ^ k → bit_and (q * 2 ^ k + r) (2 ^ k - 1) ≡ r
mask_fields zero q r fits = rw and_zero (omega arith)
mask_fields (suc k) q r fits = ground (
  arith,
  bit_and_step (q * 2 ^ suc k + r) (2 ^ suc k - 1),
  double_shift q k,
  pow-suc 2 k,
  mask_fields k q (r / 2) (omega arith),
)

-- A mask of `k` low bits is the remainder by `2 ^ k`.
pub and_mask : (k a : ℕ) → bit_and a (2 ^ k - 1) ≡ a % 2 ^ k
and_mask k a = ground (arith, one-le-pow k 2, mask_fields k (a / 2 ^ k) (a % 2 ^ k))
