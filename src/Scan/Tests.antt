-- ===== src/Scan/Tests.antt =====
-- Divisions of short strings.
use rc_monitor.Base.{◌≡◌, refl, [], ◌∷◌}
use rc_monitor.Scan.{Scans, stop, pass, front, incomplete}

-- A start byte waits for more bytes.
start_waits : front (0x55 ∷ 0x0e ∷ []) ≡ incomplete
unfolding front
start_waits = refl

one_byte : Scans (7 ∷ 0x55 ∷ []) [] (0x55 ∷ [])
unfolding front
one_byte = pass 1 refl (stop refl)
