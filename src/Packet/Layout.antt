-- ===== src/Packet/Layout.antt =====
-- The layout of the packets that `rcm_build_packet` writes.
use rc_monitor.Base.{
  ℕ, suc, ◌+◌, ◌-◌, ◌*◌, ◌/◌, ◌%◌, ◌<◌, ◌≤◌, bit_and, ◌≡◌, refl, sym, ap, ◌∙◌, arith,
}
use rc_monitor.Base.{
  ◌⊎◌, List, [], ◌∷◌, ◌++◌, take, drop, length, replicate, append_assoc, length-append,
  length-replicate, take-append, take_all, Option, some, none, IsBytes, All-append,
}
use rc_monitor.Base.Int.{pos, negsuc}
use rc_monitor.Base.Word.{u8}
use rc_monitor.Base.Bits.{and_mask, or_fields, or_fields_low}
use rc_monitor.Crc.{duml_crc8, duml_crc16}
use rc_monitor.Crc.Bounds.{duml_crc8-lt}
use rc_monitor.Packet.{
  Header, device_byte, cmd_type_byte, ver_len, write_header, write_packet, build_packet,
  write_u16_le, copy_to, clear,
}
use rc_monitor.Packet.Buffer.{
  low_byte, high_byte, drop-replicate, word_bytes, write_u16_le_lem, copy_to_lem, clear_lem,
}

-- The first three bytes: the start byte, then ten bits of length and six of version.
unfoldable pub prefix : ℕ → List ℕ
prefix total = 0x55 ∷ (total % 256) ∷ (total % 1024 / 256 + 4) ∷ []

-- The eleven bytes of the header.
unfoldable pub header_bytes : Header → ℕ → List ℕ
unfolding prefix
header_bytes h total =
    0x55
    ∷ (total % 256)
    ∷ (total % 1024 / 256 + 4)
    ∷ duml_crc8 (prefix total)
    ∷ (h.sender_type % 32 + 32 * (h.sender_index % 8))
    ∷ (h.receiver_type % 32 + 32 * (h.receiver_index % 8))
    ∷ (h.seq_num % 256)
    ∷ (h.seq_num / 256 % 256)
    ∷ (128 * (h.pack_type % 2) + 32 * (h.ack_type % 4) + h.encrypt_type % 8)
    ∷ h.cmd_set
    ∷ h.cmd_id
    ∷ []

-- A packet: header, payload, and the checksum of both.
unfoldable pub packet : Header → List ℕ → List ℕ
packet h payload =
    let body = header_bytes h (13 + length payload) ++ payload in
    body ++ word_bytes (duml_crc16 body)

device_byte_lem : (t i : ℕ) → device_byte t i ≡ t % 32 + 32 * (i % 8)
unfolding device_byte
device_byte_lem t i =
    rw (and_mask 5 t, and_mask 3 i, or_fields_low 5 (i % 8) (t % 32) (omega arith)) (omega arith)

cmd_type_byte_lem : (p a e : ℕ) → cmd_type_byte p a e ≡ 128 * (p % 2) + 32 * (a % 4) + e % 8
unfolding cmd_type_byte
cmd_type_byte_lem p a e =
    rw
      (
        and_mask 1 p,
        and_mask 2 a,
        and_mask 3 e,
        or_fields 7 (p % 2) (a % 4 * 32) (omega arith),
        shared,
        or_fields 5 (p % 2 * 4 + a % 4) (e % 8) (omega arith),
      )
      (omega arith)
  where
    shared : p % 2 * 128 + a % 4 * 32 ≡ (p % 2 * 4 + a % 4) * 32
    shared = omega arith

ver_len_lem : (n : ℕ) → ver_len n ≡ n % 1024 + 1024
unfolding ver_len
ver_len_lem n =
    rw (and_mask 10 (n % 65536), or_fields_low 10 1 (n % 65536 % 1024) (omega arith)) (omega arith)

-- An array of at least 13 bytes, cleared: the eleven bytes of the header stand apart.
cleared :
    (out : List ℕ) (n : ℕ)
    → 13 + n ≤ length out
    → clear out (13 + n)
      ≡ 0 ∷ 0 ∷ 0 ∷ 0 ∷ 0 ∷ 0 ∷ 0 ∷ 0 ∷ 0 ∷ 0 ∷ 0 ∷ (replicate (n + 2) 0 ++ drop (13 + n) out)
cleared out n h = clear_lem out (13 + n) h ∙ ap (λ k. replicate k 0 ++ drop (13 + n) out) eleven
  where
    eleven : 13 + n ≡ suc (suc (suc (suc (suc (suc (suc (suc (suc (suc (suc (n + 2)))))))))))
    eleven = omega arith

-- The header's writes, on an array that was cleared.
write_header_lem :
    (out : List ℕ) (h : Header) (n : ℕ)
    → 13 + n ≤ length out
    → write_header out h (13 + n)
      ≡ header_bytes h (13 + n) ++ (replicate (n + 2) 0 ++ drop (13 + n) out)
unfolding write_header header_bytes write_u16_le
write_header_lem out h n le = rw (cleared out n le) (
    cc (
      low,
      high,
      device_byte_lem h.sender_type h.sender_index,
      device_byte_lem h.receiver_type h.receiver_index,
      low_byte h.seq_num,
      high_byte h.seq_num,
      cmd_type_byte_lem h.pack_type h.ack_type h.encrypt_type,
    ))
  where
    low : u8 (bit_and (ver_len (13 + n)) 0xff) ≡ (13 + n) % 256
    low = omega (arith, low_byte (ver_len (13 + n)), ver_len_lem (13 + n))

    high : u8 (bit_and (ver_len (13 + n) / 256) 0xff) ≡ (13 + n) % 1024 / 256 + 4
    high = omega (arith, high_byte (ver_len (13 + n)), ver_len_lem (13 + n))

pub length-header_bytes : (h : Header) (n : ℕ) → length (header_bytes h n) ≡ 11
unfolding header_bytes
length-header_bytes h n = refl

-- The whole packet is written over the front of the array, and what stands behind it stays.
pub write_packet_lem :
    (out : List ℕ) (h : Header) (payload : List ℕ)
    → 13 + length payload ≤ length out
    → write_packet out h payload (13 + length payload)
      ≡ packet h payload ++ drop (13 + length payload) out
unfolding write_packet packet
write_packet_lem out h payload le =
    ap (λ l. write_u16_le l at (duml_crc16 (take at l))) written
    ∙ ap (λ c. write_u16_le (body ++ (0 ∷ 0 ∷ rest)) at (duml_crc16 c)) front
    ∙ write_u16_le_lem body 0 0 (duml_crc16 body) at rest place
    ∙ sym (append_assoc body (word_bytes (duml_crc16 body)) rest)
  where
    total : ℕ
    total = 13 + length payload

    at : ℕ
    at = total - 2

    rest : List ℕ
    rest = drop total out

    body : List ℕ
    body = header_bytes h total ++ payload

    place : at ≡ length body
    place = omega (arith, length-append (header_bytes h total) payload, length-header_bytes h total)

    written : copy_to (write_header out h total) 11 payload ≡ body ++ (0 ∷ 0 ∷ rest)
    written =
        ap (λ l. copy_to l 11 payload) (write_header_lem out h (length payload) le)
        ∙ copy_to_lem (header_bytes h total) payload (replicate (length payload + 2) 0 ++ rest) 11
            (sym (length-header_bytes h total))
            (omega (
              arith,
              length-append (replicate (length payload + 2) 0) rest,
              length-replicate (length payload + 2) (◌+◌ 0 0),
            ))
        ∙ ap (λ l. header_bytes h total ++ (payload ++ l)) (drop-replicate (length payload) 2 rest)
        ∙ sym (append_assoc (header_bytes h total) payload (0 ∷ 0 ∷ rest))

    front : take at (body ++ (0 ∷ 0 ∷ rest)) ≡ body
    front = ap (λ k. take k (body ++ (0 ∷ 0 ∷ rest))) place ∙ take-append body (0 ∷ 0 ∷ rest)

pub length-packet :
    (h : Header) (payload : List ℕ) → length (packet h payload) ≡ 13 + length payload
unfolding packet
length-packet h payload =
    length-append (header_bytes h (13 + length payload) ++ payload) (word_bytes _)
    ∙ omega (
      arith,
      length-append (header_bytes h (13 + length payload)) payload,
      length-header_bytes h (13 + length payload),
    )

-- A packet consists of bytes.
pub IsBytes-packet :
    (h : Header) (payload : List ℕ)
    → h.cmd_set < 256
    → h.cmd_id < 256
    → IsBytes payload
    → IsBytes (packet h payload)
unfolding packet
IsBytes-packet h payload set id bytes =
    All-append (λ b. b < 256) (header_bytes h (13 + length payload) ++ payload) (word_bytes _)
      (All-append (λ b. b < 256) (header_bytes h (13 + length payload)) payload header bytes)
      (omega arith)
  where
    header : IsBytes (header_bytes h (13 + length payload))
    header =
        unfold header_bytes in omega (arith, duml_crc8-lt (prefix (13 + length payload)), set, id)

-- The arguments that the builder accepts.
abbrev pub Fits : List ℕ → ℕ → ℕ → Type 0
Fits out out_size n = (13 + n ≤ out_size) × (13 + n ≤ 1400) × (out_size ≤ length out)

-- With room for it in the array and at most 1400 bytes, `rcm_build_packet` returns the length of the
-- packet and writes it over the front of the array: the start byte, ten bits of length and the
-- version, the header's checksum, sender, receiver, sequence number and kind, the command, the
-- payload, and the checksum of all of it. The bytes behind it stay as they were.
pub build_packet_lem :
    (out : List ℕ) (out_size : ℕ) (h : Header) (payload : List ℕ)
    → Fits out out_size (length payload)
    → build_packet (some out) out_size h (some payload) (length payload)
      ≡ (pos (13 + length payload), some (packet h payload ++ drop (13 + length payload) out))
unfolding build_packet
build_packet_lem out out_size h payload fits =
    rw sum (ground (arith, take_all payload, write_packet_lem out h payload (omega arith)))
  where
    sum : 11 + length payload + 2 ≡ 13 + length payload
    sum = omega arith

-- `rcm_build_packet` refuses a null output, a packet that is longer than the array or than 1400 bytes,
-- and a null payload of positive length; it then returns -1 and leaves the array as it was.
pub build_packet_refuses :
    (out : Option (List ℕ)) (out_size : ℕ) (h : Header) (payload : Option (List ℕ)) (n : ℕ)
    → (out ≡ none) ⊎ ((out_size < 13 + n) ⊎ ((1400 < 13 + n) ⊎ ((payload ≡ none) × (0 < n))))
    → build_packet out out_size h payload n ≡ (negsuc 0, out)
unfolding build_packet
build_packet_refuses none out_size h payload n bad = refl
build_packet_refuses (some out) out_size h none n bad = ground arith
build_packet_refuses (some out) out_size h (some bytes) n bad = ground arith
