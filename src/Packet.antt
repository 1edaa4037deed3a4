-- ===== src/Packet.antt =====
-- src/rc_monitor.c: the packet builders. The output buffer is an array that is written in place.
pub mod Buffer
pub mod Layout
pub mod RoundTrip
pub mod Delivery
pub mod Corrupt
pub mod Loss
pub mod Limits
pub mod Recover
pub mod Noise
mod Tests
use rc_monitor.Base.{ℕ, zero, suc, ◌+◌, ◌-◌, ◌%◌, ◌^◌, bit_and, bit_or, Bool, ◌||◌, ◌&&◌}
use rc_monitor.Base.{
  List, [], ◌∷◌, ◌++◌, set, take, drop, replicate, Option, none, some, ltb, if◌then◌else◌,
}
use rc_monitor.Base.Int.{ℤ, pos, negsuc}
use rc_monitor.Base.Word.{u8, u16, shl, shr}
use rc_monitor.State.{
  duml_sof, duml_version, duml_header_len, duml_footer_len, duml_max_frame_len, duml_cmd_set_rc,
}
use rc_monitor.Crc.{duml_crc8, duml_crc16}

-- `write_u16_le(p + i, v)`
unfoldable pub write_u16_le : List ℕ → ℕ → ℕ → List ℕ
write_u16_le out i v = set (set out i (u8 (bit_and v 0xff))) (i + 1) (u8 (bit_and (shr v 8) 0xff))

-- `memcpy(out + i, bytes, length bytes)`
unfoldable pub copy_to : List ℕ → ℕ → List ℕ → List ℕ
copy_to out i [] = out
copy_to out i (b ∷ bs) = copy_to (set out i b) (i + 1) bs

-- `memset(out, 0, n)`
unfoldable pub clear : List ℕ → ℕ → List ℕ
unfolding copy_to
clear out n = copy_to out 0 (replicate n 0)

-- The arguments of `rcm_build_packet` that go into the header.
pub record Header : Type 0 where
  pub sender_type : ℕ
  pub sender_index : ℕ
  pub receiver_type : ℕ
  pub receiver_index : ℕ
  pub seq_num : ℕ
  pub pack_type : ℕ
  pub ack_type : ℕ
  pub encrypt_type : ℕ
  pub cmd_set : ℕ
  pub cmd_id : ℕ

-- `(type & 0x1F) | ((index & 0x07) << 5)`, as it is stored in a byte
unfoldable pub device_byte : ℕ → ℕ → ℕ
device_byte type index = u8 (bit_or (bit_and type 0x1f) (shl (bit_and index 0x07) 5))

-- `((pack & 0x01) << 7) | ((ack & 0x03) << 5) | (encrypt & 0x07)`
unfoldable pub cmd_type_byte : ℕ → ℕ → ℕ → ℕ
cmd_type_byte pack ack encrypt =
    u8 (
      bit_or (bit_or (shl (bit_and pack 0x01) 7) (shl (bit_and ack 0x03) 5)) (bit_and encrypt 0x07))

-- `ver_len`
unfoldable pub ver_len : ℕ → ℕ
ver_len total = u16 (bit_or (bit_and (u16 total) 0x03ff) (shl (u16 duml_version) 10))

-- The writes of `rcm_build_packet`, once its arguments are accepted, in the order of the source.
unfoldable pub write_header : List ℕ → Header → ℕ → List ℕ
write_header out h total =
    let out = clear out total in
    let out = set out 0 duml_sof in
    let out = write_u16_le out 1 (ver_len total) in
    let out = set out 3 (duml_crc8 (take 3 out)) in
    let out = set out 4 (device_byte h.sender_type h.sender_index) in
    let out = set out 5 (device_byte h.receiver_type h.receiver_index) in
    let out = write_u16_le out 6 h.seq_num in
    let out = set out 8 (cmd_type_byte h.pack_type h.ack_type h.encrypt_type) in
    let out = set out 9 h.cmd_set in set out 10 h.cmd_id

unfoldable pub write_packet : List ℕ → Header → List ℕ → ℕ → List ℕ
write_packet out h payload total =
    let out = copy_to (write_header out h total) duml_header_len payload in
    write_u16_le out (total - duml_footer_len) (duml_crc16 (take (total - duml_footer_len) out))

-- `rcm_build_packet`: the result and what the buffer holds afterwards. `none` is a null pointer; a
-- payload is read up to `payload_len`.
unfoldable pub build_packet :
    Option (List ℕ) → ℕ → Header → Option (List ℕ) → ℕ → ℤ × Option (List ℕ)
build_packet none out_size h payload payload_len = (negsuc 0, none)
build_packet (some out) out_size h payload payload_len =
    let total = duml_header_len + payload_len + duml_footer_len in
    if ltb duml_max_frame_len payload_len
    then (negsuc 0, some out)
    else if ltb out_size total || ltb duml_max_frame_len total
    then (negsuc 0, some out)
    else elim payload [
      | none ↦
          if ltb 0 payload_len
          then (negsuc 0, some out)
          else (pos total, some (write_packet out h [] total))
      | some bytes ↦ (pos total, some (write_packet out h (take payload_len bytes) total))
    ]

-- `DUML_DEV_PC`, `DUML_DEV_RC`, `DUML_DEV_APP` and the command ids and kinds of the library's own packets.
abbrev pub duml_dev_app : ℕ
duml_dev_app = 2

abbrev pub duml_dev_rc : ℕ
duml_dev_rc = 6

abbrev pub duml_dev_pc : ℕ
duml_dev_pc = 10

abbrev pub duml_cmd_rc_channel : ℕ
duml_cmd_rc_channel = 0x01

abbrev pub duml_cmd_rc_enable : ℕ
duml_cmd_rc_enable = 0x24

abbrev pub duml_pack_request : ℕ
duml_pack_request = 0

abbrev pub duml_ack_no_ack : ℕ
duml_ack_no_ack = 0

abbrev pub duml_ack_after_exec : ℕ
duml_ack_after_exec = 2

-- The header of the two requests to the controller.
unfoldable pub request_header : ℕ → ℕ → Header
request_header seq cmd_id = record {
  sender_type = duml_dev_pc;
  sender_index = 0;
  receiver_type = duml_dev_rc;
  receiver_index = 0;
  seq_num = seq;
  pack_type = duml_pack_request;
  ack_type = duml_ack_after_exec;
  encrypt_type = 0;
  cmd_set = duml_cmd_set_rc;
  cmd_id = cmd_id;
}

-- `rcm_build_enable_cmd`
unfoldable pub build_enable_cmd : Option (List ℕ) → ℕ → ℕ → ℤ × Option (List ℕ)
build_enable_cmd out out_size seq =
    build_packet out out_size (request_header seq duml_cmd_rc_enable) (some (0x01 ∷ [])) 1

-- `rcm_build_channel_request`
unfoldable pub build_channel_request : Option (List ℕ) → ℕ → ℕ → ℤ × Option (List ℕ)
build_channel_request out out_size seq =
    build_packet out out_size (request_header seq duml_cmd_rc_channel) none 0
