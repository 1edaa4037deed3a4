-- ===== src/Base/Bits/Xor.antt =====
-- Exclusive or is associative, commutative and its own inverse, and keeps to a width.
use rc_monitor.Base.Bits.Step.{bit_xor_step, by_half}
use native.Mathlib.Nat.{pow-suc, pow-zero, div-one, div-div-eq-div-mul}
use Prim.Native.Nat.{ℕ, zero, suc, ◌+◌, ◌*◌, ◌/◌, ◌%◌, ◌^◌, ◌<◌, bit_xor, bit_xor-bitwise}
use mathlib.Core.Path.{◌≡◌, refl, ap, sym, ◌∙◌}
use native.Mathlib.Omega.{arith}

pub xor_zero : (a : ℕ) → bit_xor a 0 ≡ a
xor_zero = by_half (λ a. bit_xor a 0 ≡ a) refl (λ n ih. omega (arith, bit_xor_step (suc n) 0, ih))

pub zero_xor : (a : ℕ) → bit_xor 0 a ≡ a
zero_xor a = bit_xor-bitwise 0 a

pub xor_self : (a : ℕ) → bit_xor a a ≡ 0
xor_self =
    by_half (λ a. bit_xor a a ≡ 0) refl (λ n ih. omega (arith, bit_xor_step (suc n) (suc n), ih))

pub xor_comm : (a b : ℕ) → bit_xor a b ≡ bit_xor b a
xor_comm =
    by_half (λ a. (b : ℕ) → bit_xor a b ≡ bit_xor b a) (λ b. zero_xor b ∙ sym (xor_zero b))
      (λ n ih b. omega (arith, bit_xor_step (suc n) b, bit_xor_step b (suc n), ih (b / 2)))

-- The two parts of an exclusive or.
pub xor_parts :
    (a b : ℕ)
    → (bit_xor a b / 2 ≡ bit_xor (a / 2) (b / 2)) × (bit_xor a b % 2 ≡ (a % 2 + b % 2) % 2)
xor_parts a b = (omega (arith, bit_xor_step a b), omega (arith, bit_xor_step a b))

eq_of_parts : (x y : ℕ) → x / 2 ≡ y / 2 → x % 2 ≡ y % 2 → x ≡ y
eq_of_parts x y p q = omega arith

pub xor_assoc : (a b c : ℕ) → bit_xor (bit_xor a b) c ≡ bit_xor a (bit_xor b c)
xor_assoc =
    by_half (λ a. (b c : ℕ) → bit_xor (bit_xor a b) c ≡ bit_xor a (bit_xor b c))
      (λ b c. ap (λ t. bit_xor t c) (zero_xor b) ∙ sym (zero_xor (bit_xor b c)))
      (λ n ih b c.
        eq_of_parts _ _
          ((xor_parts (bit_xor (suc n) b) c).0
            ∙ ap (λ t. bit_xor t (c / 2)) (xor_parts (suc n) b).0
            ∙ ih (b / 2) (c / 2)
            ∙ ap (λ t. bit_xor (suc n / 2) t) (sym (xor_parts b c).0)
            ∙ sym (xor_parts (suc n) (bit_xor b c)).0)
          (omega (
            arith,
            (xor_parts (bit_xor (suc n) b) c).1,
            (xor_parts (suc n) b).1,
            (xor_parts b c).1,
            (xor_parts (suc n) (bit_xor b c)).1,
          )))

pub xor_cancel_left : (a b : ℕ) → bit_xor a (bit_xor a b) ≡ b
xor_cancel_left a b = sym (xor_assoc a a b) ∙ ap (λ t. bit_xor t b) (xor_self a) ∙ zero_xor b

pub xor-injective_left : (a : ℕ) {b c : ℕ} → bit_xor a b ≡ bit_xor a c → b ≡ c
xor-injective_left a {b} {c} e = sym (xor_cancel_left a b) ∙ ap (bit_xor a) e ∙ xor_cancel_left a c

pub xor-injective_right : (c : ℕ) {a b : ℕ} → bit_xor a c ≡ bit_xor b c → a ≡ b
xor-injective_right c {a} {b} e = xor-injective_left c (xor_comm c a ∙ e ∙ xor_comm b c)

-- Exclusive or of two numbers of `k` digits has `k` digits.
pub xor-lt : (k : ℕ) {a b : ℕ} → a < 2 ^ k → b < 2 ^ k → bit_xor a b < 2 ^ k
xor-lt zero {a = zero} {b} p q = rw zero_xor q
xor-lt zero {a = suc a} p q = absurd (omega arith)
xor-lt (suc k) {a} {b} p q = omega (
  arith,
  bit_xor_step a b,
  pow-suc 2 k,
  xor-lt k {a = a / 2} {b = b / 2} (omega (arith, pow-suc 2 k)) (omega (arith, pow-suc 2 k)),
)

half_pow : (k a : ℕ) → a / 2 ^ suc k ≡ a / 2 ^ k / 2
half_pow k a = ap (λ t. a / t) (pow-suc 2 k) ∙ sym (div-div-eq-div-mul a (2 ^ k) 2)

-- Shifting goes through an exclusive or.
pub shift_xor : (k a b : ℕ) → bit_xor a b / 2 ^ k ≡ bit_xor (a / 2 ^ k) (b / 2 ^ k)
shift_xor zero a b = simp (pow-zero, div-one)
shift_xor (suc k) a b =
    simp half_pow (ap (λ t. t / 2) (shift_xor k a b) ∙ (xor_parts (a / 2 ^ k) (b / 2 ^ k)).0)

double_shift : (q k : ℕ) → q * 2 ^ suc k ≡ 2 * (q * 2 ^ k)
double_shift q k = omega (arith, ap (λ (t : ℕ). q * t) (pow-suc 2 k))

-- Exclusive or of disjoint fields is a sum.
pub xor_fields : (k q r : ℕ) → r < 2 ^ k → bit_xor (q * 2 ^ k) r ≡ q * 2 ^ k + r
xor_fields zero q r fits = ground (arith, xor_zero q)
xor_fields (suc k) q r fits =
    ground (
      arith,
      bit_xor_step (q * 2 ^ suc k) r,
      double_shift q k,
      xor_fields k q (r / 2) (omega arith),
    )
