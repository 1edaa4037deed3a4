-- ===== src/Crc.antt =====
-- src/rc_monitor.c: the checksum functions `duml_crc8` and `duml_crc16` of the DUML protocol.
-- The tables stand in `Crc/Table`.
pub mod Table
pub mod Bounds
pub mod Serial
pub mod Detect
mod Tests
use Table.{crc8_table, crc16_table}
use rc_monitor.Base.{ℕ, bit_and, bit_xor, List, [], ◌∷◌, get_or}
use rc_monitor.Base.Word.{shr}

-- One round of the loop of `duml_crc8`. The table is read in range: the index is below 256.
unfoldable pub crc8_round : ℕ → ℕ → ℕ
crc8_round crc b = get_or crc8_table (bit_and (bit_xor crc b) 0xff) 0

-- The loop of `duml_crc8`, from the register `crc` on.
unfoldable pub crc8_from : ℕ → List ℕ → ℕ
crc8_from crc [] = crc
crc8_from crc (b ∷ bs) = crc8_from (crc8_round crc b) bs

-- `data[0..len)` is the list.
unfoldable pub duml_crc8 : List ℕ → ℕ
duml_crc8 bytes = crc8_from 0x77 bytes

unfoldable pub crc16_round : ℕ → ℕ → ℕ
crc16_round crc b = bit_xor (get_or crc16_table (bit_and (bit_xor crc b) 0xff) 0) (shr crc 8)

unfoldable pub crc16_from : ℕ → List ℕ → ℕ
crc16_from crc [] = crc
crc16_from crc (b ∷ bs) = crc16_from (crc16_round crc b) bs

unfoldable pub duml_crc16 : List ℕ → ℕ
duml_crc16 bytes = crc16_from 0x3692 bytes
