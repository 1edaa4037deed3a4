-- ===== src/Crc/Detect.antt =====
-- The checksums detect every corruption of a single byte.
use rc_monitor.Base.{
  ℕ, zero, suc, ◌/◌, ◌%◌, ◌<◌, bit_and, bit_xor, ◌≡◌, ◌≢◌, refl, sym, ap, ap₂, ◌∙◌,
}
use rc_monitor.Base.{Bool, true, false, List, [], ◌∷◌, ◌++◌, get_or, IsBytes, ◌==◌, ==_iff, arith}
use rc_monitor.Base.Bits.{and_mask, xor_zero, shift_xor, xor-injective_left, xor-injective_right}
use rc_monitor.Crc.Table.{crc8_table, crc16_table}
use rc_monitor.Crc.{crc8_round, crc8_from, duml_crc8, crc16_round, crc16_from, duml_crc16}
use rc_monitor.Crc.Bounds.{holds_from, holds_from_lem, crc8_round-lt, crc16_round-lt, index-lt}

-- A function with a left inverse on bytes is injective there. Both inverses are searched for by evaluation.
find_below : (ℕ → Bool) → ℕ → ℕ
find_below p zero = 0
find_below p (suc n) = let rest = find_below p n in elim (p n) [ true ↦ n | false ↦ rest ]

-- The entry of the 8-bit table that holds `v`, and the entry of the 16-bit table whose high byte is `v`.
index8 : ℕ → ℕ
index8 v = find_below (λ i. get_or crc8_table i 0 == v) 256

index16 : ℕ → ℕ
index16 v = find_below (λ i. get_or crc16_table i 0 / 256 == v) 256

index8_table : holds_from (λ i. index8 (get_or crc8_table i 0) == i) 0 256 ≡ true
unfolding holds_from crc8_table index8 find_below
index8_table = refl

index16_table : holds_from (λ i. index16 (get_or crc16_table i 0 / 256) == i) 0 256 ≡ true
unfolding holds_from crc16_table index16 find_below
index16_table = refl

-- The 8-bit table is a permutation of the bytes.
crc8_entry-injective :
    (i j : ℕ) → i < 256 → j < 256 → get_or crc8_table i 0 ≡ get_or crc8_table j 0 → i ≡ j
crc8_entry-injective i j hi hj e = sym (back i hi) ∙ ap index8 e ∙ back j hj
  where
    back : (i : ℕ) → i < 256 → index8 (get_or crc8_table i 0) ≡ i
    back i h = (==_iff _ _).0 (
        holds_from_lem (λ i. index8 (get_or crc8_table i 0) == i) 0 256 i index8_table (omega arith)
          (omega arith))

-- So are the high bytes of the 16-bit table.
crc16_high-injective :
    (i j : ℕ)
    → i < 256
    → j < 256
    → get_or crc16_table i 0 / 256 ≡ get_or crc16_table j 0 / 256
    → i ≡ j
crc16_high-injective i j hi hj e = sym (back i hi) ∙ ap index16 e ∙ back j hj
  where
    back : (i : ℕ) → i < 256 → index16 (get_or crc16_table i 0 / 256) ≡ i
    back i h = (==_iff _ _).0 (
        holds_from_lem (λ i. index16 (get_or crc16_table i 0 / 256) == i) 0 256 i index16_table
          (omega arith) (omega arith))

eq_of_halves : (x y : ℕ) → x / 256 ≡ y / 256 → x % 256 ≡ y % 256 → x ≡ y
eq_of_halves x y p q = omega arith

crc8_index-injective :
    (c d b e : ℕ) → crc8_round c b ≡ crc8_round d e → bit_xor c b % 256 ≡ bit_xor d e % 256
unfolding crc8_round
crc8_index-injective c d b e h =
    sym (and_mask 8 (bit_xor c b))
    ∙ crc8_entry-injective _ _ (index-lt (bit_xor c b)) (index-lt (bit_xor d e)) h
    ∙ and_mask 8 (bit_xor d e)

crc16_round_high :
    (c b : ℕ)
    → c < 65536
    → crc16_round c b / 256 ≡ get_or crc16_table (bit_and (bit_xor c b) 0xff) 0 / 256
unfolding crc16_round
crc16_round_high c b h =
    shift_xor 8 (get_or crc16_table (bit_and (bit_xor c b) 0xff) 0) (c / 256)
    ∙ ap (bit_xor (get_or crc16_table (bit_and (bit_xor c b) 0xff) 0 / 256)) (omega arith)
    ∙ xor_zero _

-- A round of the 16-bit checksum determines the index of its lookup.
crc16_index-injective :
    (c d b e : ℕ)
    → c < 65536
    → d < 65536
    → crc16_round c b ≡ crc16_round d e
    → bit_and (bit_xor c b) 0xff ≡ bit_and (bit_xor d e) 0xff
crc16_index-injective c d b e hc hd h =
    crc16_high-injective _ _ (index-lt (bit_xor c b)) (index-lt (bit_xor d e))
      (sym (crc16_round_high c b hc) ∙ ap (λ x. x / 256) h ∙ crc16_round_high d e hd)

-- It determines the high byte of the register before it, too.
crc16_high_before :
    (c d b e : ℕ) → c < 65536 → d < 65536 → crc16_round c b ≡ crc16_round d e → c / 256 ≡ d / 256
unfolding crc16_round
crc16_high_before c d b e hc hd h =
    xor-injective_left (get_or crc16_table (bit_and (bit_xor c b) 0xff) 0) (
      h
      ∙ ap (λ i. bit_xor (get_or crc16_table i 0) (d / 256))
          (sym (crc16_index-injective c d b e hc hd h)))

-- Two registers that a byte takes to one are equal, and so are two bytes.
same_low :
    (x y b e : ℕ)
    → bit_xor x b % 256 ≡ bit_xor y e % 256
    → x / 256 ≡ y / 256
    → b < 256
    → e < 256
    → bit_xor x b ≡ bit_xor y e
same_low x y b e low high hb he =
    eq_of_halves _ _ (shift_xor 8 x b ∙ ap₂ bit_xor high (omega arith) ∙ sym (shift_xor 8 y e)) low

crc8_register-injective :
    (c d b : ℕ) → c < 256 → d < 256 → b < 256 → crc8_round c b ≡ crc8_round d b → c ≡ d
crc8_register-injective c d b hc hd hb h =
    xor-injective_right b (same_low c d b b (crc8_index-injective c d b b h) (omega arith) hb hb)

crc8_byte-injective : (c b e : ℕ) → b < 256 → e < 256 → crc8_round c b ≡ crc8_round c e → b ≡ e
crc8_byte-injective c b e hb he h =
    xor-injective_left c (same_low c c b e (crc8_index-injective c c b e h) refl hb he)

crc16_low :
    (c d b e : ℕ)
    → c < 65536
    → d < 65536
    → crc16_round c b ≡ crc16_round d e
    → bit_xor c b % 256 ≡ bit_xor d e % 256
crc16_low c d b e hc hd h =
    sym (and_mask 8 (bit_xor c b))
    ∙ crc16_index-injective c d b e hc hd h
    ∙ and_mask 8 (bit_xor d e)

crc16_register-injective :
    (c d b : ℕ) → c < 65536 → d < 65536 → b < 256 → crc16_round c b ≡ crc16_round d b → c ≡ d
crc16_register-injective c d b hc hd hb h =
    xor-injective_right b
      (same_low c d b b (crc16_low c d b b hc hd h) (crc16_high_before c d b b hc hd h) hb hb)

crc16_byte-injective :
    (c b e : ℕ) → c < 65536 → b < 256 → e < 256 → crc16_round c b ≡ crc16_round c e → b ≡ e
crc16_byte-injective c b e hc hb he h =
    xor-injective_left c (same_low c c b e (crc16_low c c b e hc hc h) refl hb he)

-- The rest of the message keeps different registers apart.
crc8_from-injective :
    (c d : ℕ) (bs : List ℕ)
    → c < 256
    → d < 256
    → IsBytes bs
    → crc8_from c bs ≡ crc8_from d bs
    → c ≡ d
unfolding crc8_from
crc8_from-injective c d [] hc hd bytes h = h
crc8_from-injective c d (b ∷ bs) hc hd bytes h = crc8_register-injective c d b hc hd bytes.0 (
    crc8_from-injective (crc8_round c b) (crc8_round d b) bs (crc8_round-lt c b) (crc8_round-lt d b)
      bytes.1 h)

crc16_from-injective :
    (c d : ℕ) (bs : List ℕ)
    → c < 65536
    → d < 65536
    → IsBytes bs
    → crc16_from c bs ≡ crc16_from d bs
    → c ≡ d
unfolding crc16_from
crc16_from-injective c d [] hc hd bytes h = h
crc16_from-injective c d (b ∷ bs) hc hd bytes h = crc16_register-injective c d b hc hd bytes.0 (
    crc16_from-injective (crc16_round c b) (crc16_round d b) bs (crc16_round-lt c b hc)
      (crc16_round-lt d b hd) bytes.1 h)

crc8_from_detects :
    (c : ℕ) (xs : List ℕ) (b e : ℕ) (ys : List ℕ)
    → b < 256
    → e < 256
    → IsBytes ys
    → crc8_from c (xs ++ (b ∷ ys)) ≡ crc8_from c (xs ++ (e ∷ ys))
    → b ≡ e
unfolding crc8_from
crc8_from_detects c [] b e ys hb he bytes h =
    crc8_byte-injective c b e hb he
      (crc8_from-injective _ _ ys (crc8_round-lt c b) (crc8_round-lt c e) bytes h)
crc8_from_detects c (x ∷ xs) b e ys hb he bytes h =
    crc8_from_detects (crc8_round c x) xs b e ys hb he bytes h

pub crc16_from_detects :
    (c : ℕ) (xs : List ℕ) (b e : ℕ) (ys : List ℕ)
    → c < 65536
    → b < 256
    → e < 256
    → IsBytes ys
    → crc16_from c (xs ++ (b ∷ ys)) ≡ crc16_from c (xs ++ (e ∷ ys))
    → b ≡ e
unfolding crc16_from
crc16_from_detects c [] b e ys hc hb he bytes h =
    crc16_byte-injective c b e hc hb he
      (crc16_from-injective _ _ ys (crc16_round-lt c b hc) (crc16_round-lt c e hc) bytes h)
crc16_from_detects c (x ∷ xs) b e ys hc hb he bytes h =
    crc16_from_detects (crc16_round c x) xs b e ys (crc16_round-lt c x hc) hb he bytes h

-- Changing one byte of a message, anywhere in it, changes both checksums.
pub duml_crc_detects_byte :
    (xs : List ℕ) (b e : ℕ) (ys : List ℕ)
    → b < 256
    → e < 256
    → IsBytes ys
    → b ≢ e
    → (duml_crc8 (xs ++ (b ∷ ys)) ≢ duml_crc8 (xs ++ (e ∷ ys)))
      × (duml_crc16 (xs ++ (b ∷ ys)) ≢ duml_crc16 (xs ++ (e ∷ ys)))
unfolding duml_crc8 duml_crc16
duml_crc_detects_byte xs b e ys hb he bytes ne = (
  λ h. ne (crc8_from_detects 0x77 xs b e ys hb he bytes h),
  λ h. ne (crc16_from_detects 0x3692 xs b e ys (omega arith) hb he bytes h),
)
