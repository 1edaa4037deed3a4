-- ===== src/Scan.antt =====
-- What the parser promises, with no ring, no state and no fuel: how a string of bytes divides into
-- frames. A decision about the front of the string, and the relation that repeats it.
pub mod Laws
mod Tests
use rc_monitor.Base.{
  ℕ, ◌+◌, ◌-◌, ◌*◌, ◌%◌, ◌≡◌, Bool, ◌&&◌, not, List, [], ◌∷◌, get_or, take, drop, length,
}
use rc_monitor.Base.{ltb, leb, ◌==◌, if◌then◌else◌}
use rc_monitor.State.{duml_sof, duml_min_frame_len, duml_max_frame_len}
use rc_monitor.Crc.{duml_crc8, duml_crc16}

-- The little-endian number at `i`.
abbrev pub word_at : List ℕ → ℕ → ℕ
word_at xs i = get_or xs i 0 + 256 * get_or xs (i + 1) 0

-- The length that a header announces: the low ten bits of its second and third byte.
unfoldable pub announced : List ℕ → ℕ
announced xs = word_at xs 1 % 1024

-- A good header: its checksum, and a length in range.
unfoldable pub header_ok : List ℕ → Bool
header_ok xs =
    (duml_crc8 (take 3 xs) == get_or xs 3 0)
    && (leb duml_min_frame_len (announced xs) && leb (announced xs) duml_max_frame_len)

-- A good frame of `n` bytes: its last two bytes are the checksum of the others.
unfoldable pub frame_ok : List ℕ → ℕ → Bool
frame_ok xs n = duml_crc16 (take (n - 2) xs) == word_at xs (n - 2)

-- What can be said of the front of a string: it may still become a frame, its first bytes belong to
-- no frame, or it begins with a frame of so many bytes.
pub data Front : Type 0 where
  incomplete : Front
  skip frame : ℕ → Front

-- A string that begins with a good header.
unfoldable pub body_front : List ℕ → Front
body_front xs =
    if ltb (length xs) (announced xs)
    then incomplete
    else if frame_ok xs (announced xs)
    then frame (announced xs)
    else skip (announced xs)

unfoldable pub front : List ℕ → Front
front xs =
    if length xs == 0
    then incomplete
    else if not (get_or xs 0 0 == duml_sof)
    then skip 1
    else if ltb (length xs) 4
    then incomplete
    else if header_ok xs
    then body_front xs
    else skip 1

-- `Scans xs fs rest`: the frames of `xs` are `fs`, in order, and `rest` may still become one.
pub data Scans : List ℕ → List (List ℕ) → List ℕ → Type 0 where
  stop : {xs : List ℕ} → front xs ≡ incomplete → Scans xs [] xs
  pass :
      {xs : List ℕ} {fs : List (List ℕ)} {rest : List ℕ} (n : ℕ)
      → front xs ≡ skip n
      → Scans (drop n xs) fs rest
      → Scans xs fs rest
  found :
      {xs : List ℕ} {fs : List (List ℕ)} {rest : List ℕ} (n : ℕ)
      → front xs ≡ frame n
      → Scans (drop n xs) fs rest
      → Scans xs (take n xs ∷ fs) rest
