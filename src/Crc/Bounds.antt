-- ===== src/Crc/Bounds.antt =====
-- Facts about all 256 entries of the tables, by evaluation, and the ranges of the registers.
use native.Mathlib.Decide.{ℕ_discrete}
use rc_monitor.Base.{
  subst, ◌+◌, ◌≤◌, ℕ, zero, suc, ◌<◌, bit_and, bit_xor, ◌≡◌, refl, Bool, true, ◌&&◌,
}
use rc_monitor.Base.{List, [], ◌∷◌, get_or, ltb, ltb→lt, arith}
use rc_monitor.Base.Bits.{and_mask, xor-lt}
use rc_monitor.Crc.Table.{crc8_table, crc16_table}
use rc_monitor.Crc.{crc8_round, crc8_from, duml_crc8}
use rc_monitor.Crc.{crc16_round, crc16_from, duml_crc16}

-- A test of the numbers from `i` on, `k` of them, by evaluation.
unfoldable pub holds_from : (ℕ → Bool) → ℕ → ℕ → Bool
holds_from test i zero = true
holds_from test i (suc k) = test i && holds_from test (i + 1) k

pub holds_from_lem :
    (test : ℕ → Bool) (i k j : ℕ) → holds_from test i k ≡ true → i ≤ j → j < i + k → test j ≡ true
unfolding holds_from
holds_from_lem test i zero j all from to = absurd (omega arith)
holds_from_lem test i (suc k) j all from to = elim (ℕ_discrete i j) [
  | yes same ↦ subst (λ n. test n ≡ true) same (ground arith)
  | no other ↦ holds_from_lem test (i + 1) k j (ground arith) (omega arith) (omega arith)
]

crc8_entries_small : holds_from (λ i. ltb (get_or crc8_table i 0) 256) 0 256 ≡ true
unfolding holds_from crc8_table
crc8_entries_small = refl

crc16_entries_small : holds_from (λ i. ltb (get_or crc16_table i 0) 65536) 0 256 ≡ true
unfolding holds_from crc16_table
crc16_entries_small = refl

pub crc8_entry-lt : (i : ℕ) → i < 256 → get_or crc8_table i 0 < 256
crc8_entry-lt i h = ltb→lt _ _ (
    holds_from_lem (λ i. ltb (get_or crc8_table i 0) 256) 0 256 i crc8_entries_small (omega arith)
      (omega arith))

pub crc16_entry-lt : (i : ℕ) → i < 256 → get_or crc16_table i 0 < 65536
crc16_entry-lt i h = ltb→lt _ _ (
    holds_from_lem (λ i. ltb (get_or crc16_table i 0) 65536) 0 256 i crc16_entries_small
      (omega arith) (omega arith))

-- The index of a lookup is in the table.
pub index-lt : (x : ℕ) → bit_and x 0xff < 256
index-lt x = omega (arith, and_mask 8 x)

pub crc8_round-lt : (crc b : ℕ) → crc8_round crc b < 256
unfolding crc8_round
crc8_round-lt crc b = crc8_entry-lt _ (index-lt (bit_xor crc b))

pub crc16_round-lt : (crc b : ℕ) → crc < 65536 → crc16_round crc b < 65536
unfolding crc16_round
crc16_round-lt crc b h = xor-lt 16 (crc16_entry-lt _ (index-lt (bit_xor crc b))) (omega arith)

pub crc8_from-lt : (crc : ℕ) (bs : List ℕ) → crc < 256 → crc8_from crc bs < 256
unfolding crc8_from
crc8_from-lt crc [] h = h
crc8_from-lt crc (b ∷ bs) h = crc8_from-lt (crc8_round crc b) bs (crc8_round-lt crc b)

pub crc16_from-lt : (crc : ℕ) (bs : List ℕ) → crc < 65536 → crc16_from crc bs < 65536
unfolding crc16_from
crc16_from-lt crc [] h = h
crc16_from-lt crc (b ∷ bs) h = crc16_from-lt (crc16_round crc b) bs (crc16_round-lt crc b h)

-- The checksums fit a `uint8_t` and a `uint16_t`.
pub duml_crc8-lt : (bs : List ℕ) → duml_crc8 bs < 256
unfolding duml_crc8
duml_crc8-lt bs = crc8_from-lt 0x77 bs (omega arith)

pub duml_crc16-lt : (bs : List ℕ) → duml_crc16 bs < 65536
unfolding duml_crc16
duml_crc16-lt bs = crc16_from-lt 0x3692 bs (omega arith)
