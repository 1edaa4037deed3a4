-- ===== src/Crc/Tests.antt =====
-- Runs of the checksums on known inputs.
use rc_monitor.Base.{◌≢◌, ℕ, List, arith, ◌≡◌, refl, [], ◌∷◌}
use rc_monitor.Crc.Serial.{serial_crc, duml_crc_serial}
use rc_monitor.Crc.Detect.{duml_crc_detects_byte}
use rc_monitor.Crc.Table.{crc8_table}
use rc_monitor.Crc.{crc8_round, crc8_from, duml_crc8, crc16_from, duml_crc16}

-- The header of a 14-byte frame.
crc8_header : duml_crc8 (0x55 ∷ 0x0e ∷ 0x04 ∷ []) ≡ 0x66
unfolding duml_crc8 crc8_from crc8_round crc8_table
crc8_header = refl

crc16_seed : duml_crc16 [] ≡ 0x3692
unfolding duml_crc16 crc16_from
crc16_seed = refl

abbrev header : List ℕ
header = 0x55 ∷ 0x0e ∷ 0x04 ∷ []

duml_crc_serial_example :
    (duml_crc8 header ≡ serial_crc 0x8c 0x77 header)
    × (duml_crc16 header ≡ serial_crc 0x8408 0x3692 header)
duml_crc_serial_example = duml_crc_serial header (omega arith)

duml_crc_detects_byte_example :
    (duml_crc8 (0x55 ∷ 0x0e ∷ 0x04 ∷ []) ≢ duml_crc8 (0x55 ∷ 0x0f ∷ 0x04 ∷ []))
    × (duml_crc16 (0x55 ∷ 0x0e ∷ 0x04 ∷ []) ≢ duml_crc16 (0x55 ∷ 0x0f ∷ 0x04 ∷ []))
duml_crc_detects_byte_example =
    duml_crc_detects_byte (0x55 ∷ []) 0x0e 0x0f (0x04 ∷ []) (omega arith) (omega arith)
      (omega arith) (omega arith)
