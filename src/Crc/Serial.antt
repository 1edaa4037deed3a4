-- ===== src/Crc/Serial.antt =====
-- What the tables stand for: the bit-serial checksums with the reflected polynomials 0x8c (8 bits)
-- and 0x8408 (16 bits, the CCITT polynomial), one shift for each bit of the message.
use rc_monitor.Base.{ℕ, zero, suc, ◌*◌, ◌/◌, ◌%◌, ◌^◌, ◌<◌, bit_and, bit_xor}
use rc_monitor.Base.{◌≡◌, refl, sym, ap, ap₂, ◌∙◌, true, List, [], ◌∷◌, get_or, IsBytes}
use rc_monitor.Base.{◌==◌, ==_iff, if◌then◌else◌, arith}
use rc_monitor.Base.Bits.{
  and_mask, xor-lt, shift_xor, xor_zero, zero_xor, xor_self, xor_comm, xor_assoc, xor_parts,
}
use rc_monitor.Base.Bits.{xor_fields}
use native.Mathlib.Nat.{pow-suc}
use rc_monitor.Crc.Table.{crc8_table, crc16_table}
use rc_monitor.Crc.{crc8_round, crc8_from, duml_crc8, crc16_round, crc16_from, duml_crc16}
use rc_monitor.Crc.Bounds.{holds_from, holds_from_lem, crc8_round-lt}

double : (q n : ℕ) → q * 2 ^ suc n ≡ 2 * (q * 2 ^ n)
double q n = omega (arith, ap (λ (t : ℕ). q * t) (pow-suc 2 n))

module _ (poly : ℕ) where
  -- One shift of the register, with the polynomial subtracted if a one falls out.
  pub shift_bit : ℕ → ℕ
  shift_bit x = bit_xor (x / 2) (if x % 2 == 0 then 0 else poly)

  pub shift_bits : ℕ → ℕ → ℕ
  shift_bits zero x = x
  shift_bits (suc n) x = shift_bits n (shift_bit x)

  -- The checksum of a message, bit by bit: each byte enters at the low end, and eight shifts follow.
  pub serial_crc : ℕ → List ℕ → ℕ
  serial_crc reg [] = reg
  serial_crc reg (b ∷ bs) = serial_crc (shift_bits 8 (bit_xor reg b)) bs

  xor_swap :
      (a b c d : ℕ) → bit_xor (bit_xor a b) (bit_xor c d) ≡ bit_xor (bit_xor a c) (bit_xor b d)
  xor_swap a b c d =
      xor_assoc a b (bit_xor c d)
      ∙ ap (bit_xor a)
          (sym (xor_assoc b c d) ∙ ap (λ t. bit_xor t d) (xor_comm b c) ∙ xor_assoc c b d)
      ∙ sym (xor_assoc a c (bit_xor b d))

  subtracted :
      (a b : ℕ)
      → (if bit_xor a b % 2 == 0 then 0 else poly)
        ≡ bit_xor (if a % 2 == 0 then 0 else poly) (if b % 2 == 0 then 0 else poly)
  subtracted a b =
      ground (arith, xor_parts a b, xor_zero poly, zero_xor poly, xor_self poly, xor_zero 0)

  -- Shifting is linear.
  shift_bit-xor : (a b : ℕ) → shift_bit (bit_xor a b) ≡ bit_xor (shift_bit a) (shift_bit b)
  unfolding shift_bit
  shift_bit-xor a b = ap₂ bit_xor (xor_parts a b).0 (subtracted a b) ∙ xor_swap (a / 2) (b / 2) _ _

  shift_bits-xor :
      (n a b : ℕ) → shift_bits n (bit_xor a b) ≡ bit_xor (shift_bits n a) (shift_bits n b)
  unfolding shift_bits
  shift_bits-xor zero a b = refl
  shift_bits-xor (suc n) a b = ap (shift_bits n) (shift_bit-xor a b) ∙ shift_bits-xor n _ _

  shift_bit_even : (m : ℕ) → shift_bit (2 * m) ≡ m
  unfolding shift_bit
  shift_bit_even m = ground (arith, xor_zero m)

  shift_bits_high : (n q : ℕ) → shift_bits n (q * 2 ^ n) ≡ q
  unfolding shift_bits
  shift_bits_high zero q = omega arith
  shift_bits_high (suc n) q =
      ap (shift_bits n) (ap shift_bit (double q n) ∙ shift_bit_even (q * 2 ^ n))
      ∙ shift_bits_high n q

  -- The high byte of the register only moves down.
  pub shift_bits_split : (x : ℕ) → shift_bits 8 x ≡ bit_xor (shift_bits 8 (x % 256)) (x / 256)
  shift_bits_split x =
      ap (shift_bits 8) (omega (arith, xor_fields 8 (x / 256) (x % 256) (omega arith)))
      ∙ shift_bits-xor 8 (x / 256 * 2 ^ 8) (x % 256)
      ∙ ap (λ t. bit_xor t (shift_bits 8 (x % 256))) (shift_bits_high 8 (x / 256))
      ∙ xor_comm (x / 256) (shift_bits 8 (x % 256))

crc8_table_serial : holds_from (λ i. get_or crc8_table i 0 == shift_bits 0x8c 8 i) 0 256 ≡ true
unfolding holds_from crc8_table shift_bits shift_bit
crc8_table_serial = refl

crc16_table_serial : holds_from (λ i. get_or crc16_table i 0 == shift_bits 0x8408 8 i) 0 256 ≡ true
unfolding holds_from crc16_table shift_bits shift_bit
crc16_table_serial = refl

crc8_entry : (i : ℕ) → i < 256 → get_or crc8_table i 0 ≡ shift_bits 0x8c 8 i
crc8_entry i h = (==_iff _ _).0 (
    holds_from_lem (λ i. get_or crc8_table i 0 == shift_bits 0x8c 8 i) 0 256 i crc8_table_serial
      (omega arith) (omega arith))

crc16_entry : (i : ℕ) → i < 256 → get_or crc16_table i 0 ≡ shift_bits 0x8408 8 i
crc16_entry i h = (==_iff _ _).0 (
    holds_from_lem (λ i. get_or crc16_table i 0 == shift_bits 0x8408 8 i) 0 256 i crc16_table_serial
      (omega arith) (omega arith))

crc8_round_serial :
    (crc b : ℕ) → crc < 256 → b < 256 → crc8_round crc b ≡ shift_bits 0x8c 8 (bit_xor crc b)
unfolding crc8_round
crc8_round_serial crc b hc hb =
    let small : bit_xor crc b < 256 = xor-lt 8 hc hb in
    let index : bit_and (bit_xor crc b) 0xff ≡ bit_xor crc b =
      omega (arith, and_mask 8 (bit_xor crc b)) in
    ap (λ i. get_or crc8_table i 0) index ∙ crc8_entry (bit_xor crc b) small

crc16_round_serial : (crc b : ℕ) → b < 256 → crc16_round crc b ≡ shift_bits 0x8408 8 (bit_xor crc b)
unfolding crc16_round
crc16_round_serial crc b hb = ap₂ bit_xor entry high ∙ sym (shift_bits_split 0x8408 (bit_xor crc b))
  where
    low : bit_and (bit_xor crc b) 0xff ≡ bit_xor crc b % 256
    low = and_mask 8 (bit_xor crc b)

    entry :
        get_or crc16_table (bit_and (bit_xor crc b) 0xff) 0
        ≡ shift_bits 0x8408 8 (bit_xor crc b % 256)
    entry = ap (λ i. get_or crc16_table i 0) low ∙ crc16_entry (bit_xor crc b % 256) (omega arith)

    high : crc / 256 ≡ bit_xor crc b / 256
    high =
        sym (xor_zero (crc / 256))
        ∙ ap (bit_xor (crc / 256)) (omega arith)
        ∙ sym (shift_xor 8 crc b)

crc8_from_serial :
    (crc : ℕ) (bs : List ℕ) → crc < 256 → IsBytes bs → crc8_from crc bs ≡ serial_crc 0x8c crc bs
unfolding crc8_from serial_crc
crc8_from_serial crc [] h bytes = refl
crc8_from_serial crc (b ∷ bs) h bytes =
    crc8_from_serial (crc8_round crc b) bs (crc8_round-lt crc b) bytes.1
    ∙ ap (λ t. serial_crc 0x8c t bs) (crc8_round_serial crc b h bytes.0)

crc16_from_serial :
    (crc : ℕ) (bs : List ℕ) → IsBytes bs → crc16_from crc bs ≡ serial_crc 0x8408 crc bs
unfolding crc16_from serial_crc
crc16_from_serial crc [] bytes = refl
crc16_from_serial crc (b ∷ bs) bytes =
    crc16_from_serial (crc16_round crc b) bs bytes.1
    ∙ ap (λ t. serial_crc 0x8408 t bs) (crc16_round_serial crc b bytes.0)

-- On every string of bytes, `duml_crc8` is the bit-serial CRC with the reflected polynomial 0x8c and
-- seed 0x77, and `duml_crc16` that with the reflected polynomial 0x8408 and seed 0x3692.
pub duml_crc_serial :
    (bs : List ℕ)
    → IsBytes bs
    → (duml_crc8 bs ≡ serial_crc 0x8c 0x77 bs) × (duml_crc16 bs ≡ serial_crc 0x8408 0x3692 bs)
unfolding duml_crc8 duml_crc16
duml_crc_serial bs bytes =
    (crc8_from_serial 0x77 bs (omega arith) bytes, crc16_from_serial 0x3692 bs bytes)
