-- ===== src/Tcp/Codec.antt =====
-- The object representation of `td_wire_msg_t` (include/td_transport.h): bytes to message and back.
use tee_dist.Base.{
  ◌^◌, ◌<◌, ◌≡◌, ◌∙◌, ap, arith, read_range, to_le, from_le, length, length-append, length-to_le,
  from_le-to_le, u64_mod, u32_mod,
}
use tee_dist.Region.{word_at, header_of_bytes, bytes_of_header}
use tee_dist.Region.Codec.{skip, skip_word, word_first, first, whole}
use tee_dist.Region.Open.{HeaderFits, length-bytes_of_header, header_of_bytes-bytes_of_header}
use tee_dist.Tcp.{WireMsg, bytes_of_msg, msg_of_bytes, msg_bytes}

-- The fields of a message hold what their C types hold.
pub record MsgFits (m : WireMsg) : Type 0 where
  pub magic_fits : m.magic < u32_mod
  pub op_fits : m.op < 2 ^ 16
  pub status_fits : m.status < 2 ^ 16
  pub offset_fits : m.offset < u64_mod
  pub length_fits : m.length < u64_mod
  pub compare_fits : m.compare < u64_mod
  pub swap_fits : m.swap < u64_mod
  pub remote_addr_fits : m.remote_addr < u64_mod
  pub rkey_fits : m.rkey < u32_mod
  pub flags_fits : m.flags < u32_mod
  pub reserved_fits : m.reserved < u32_mod
  pub header_fits : HeaderFits m.header
  pub profile_total_ns_fits : m.profile_total_ns < u64_mod
  pub profile_stage1_ns_fits : m.profile_stage1_ns < u64_mod
  pub profile_stage2_ns_fits : m.profile_stage2_ns < u64_mod
  pub profile_stage3_ns_fits : m.profile_stage3_ns < u64_mod

pub length-bytes_of_msg : (m : WireMsg) → length (bytes_of_msg m) ≡ msg_bytes
unfolding bytes_of_msg
length-bytes_of_msg m = simp (length-append, length-to_le, length-bytes_of_header) (omega arith)

-- A message whose fields hold what their C types hold is read back from its bytes.
pub msg_of_bytes-bytes_of_msg : (m : WireMsg) → MsgFits m → msg_of_bytes (bytes_of_msg m) ≡ m
unfolding bytes_of_msg msg_of_bytes word_at
msg_of_bytes-bytes_of_msg m f =
    let bytes = bytes_of_msg m in
    let long = length-bytes_of_header m.header in
    let magic_read : word_at 4 bytes 0 ≡ m.magic = word_first 4 m.magic _ f.magic_fits in
    let op_read : word_at 2 bytes 4 ≡ m.op =
      ap from_le (skip_word 4 _ _ 0 2) ∙ word_first 2 m.op _ f.op_fits in
    let status_read : word_at 2 bytes 6 ≡ m.status =
      ap from_le (skip_word 4 _ _ 2 2 ∙ skip_word 2 _ _ 0 2)
      ∙ word_first 2 m.status _ f.status_fits in
    let offset_read : word_at 8 bytes 8 ≡ m.offset =
      ap from_le (skip_word 4 _ _ 4 8 ∙ skip_word 2 _ _ 2 8 ∙ skip_word 2 _ _ 0 8)
      ∙ word_first 8 m.offset _ f.offset_fits in
    let length_read : word_at 8 bytes 16 ≡ m.length =
      ap from_le
        (skip_word 4 _ _ 12 8 ∙ skip_word 2 _ _ 10 8 ∙ skip_word 2 _ _ 8 8 ∙ skip_word 8 _ _ 0 8)
      ∙ word_first 8 m.length _ f.length_fits in
    let compare_read : word_at 8 bytes 24 ≡ m.compare =
      ap from_le (
        skip_word 4 _ _ 20 8
        ∙ skip_word 2 _ _ 18 8
        ∙ skip_word 2 _ _ 16 8
        ∙ skip_word 8 _ _ 8 8
        ∙ skip_word 8 _ _ 0 8)
      ∙ word_first 8 m.compare _ f.compare_fits in
    let swap_read : word_at 8 bytes 32 ≡ m.swap =
      ap from_le (
        skip_word 4 _ _ 28 8
        ∙ skip_word 2 _ _ 26 8
        ∙ skip_word 2 _ _ 24 8
        ∙ skip_word 8 _ _ 16 8
        ∙ skip_word 8 _ _ 8 8
        ∙ skip_word 8 _ _ 0 8)
      ∙ word_first 8 m.swap _ f.swap_fits in
    let remote_addr_read : word_at 8 bytes 40 ≡ m.remote_addr =
      ap from_le (
        skip_word 4 _ _ 36 8
        ∙ skip_word 2 _ _ 34 8
        ∙ skip_word 2 _ _ 32 8
        ∙ skip_word 8 _ _ 24 8
        ∙ skip_word 8 _ _ 16 8
        ∙ skip_word 8 _ _ 8 8
        ∙ skip_word 8 _ _ 0 8)
      ∙ word_first 8 m.remote_addr _ f.remote_addr_fits in
    let rkey_read : word_at 4 bytes 48 ≡ m.rkey =
      ap from_le (
        skip_word 4 _ _ 44 4
        ∙ skip_word 2 _ _ 42 4
        ∙ skip_word 2 _ _ 40 4
        ∙ skip_word 8 _ _ 32 4
        ∙ skip_word 8 _ _ 24 4
        ∙ skip_word 8 _ _ 16 4
        ∙ skip_word 8 _ _ 8 4
        ∙ skip_word 8 _ _ 0 4)
      ∙ word_first 4 m.rkey _ f.rkey_fits in
    let flags_read : word_at 4 bytes 52 ≡ m.flags =
      ap from_le (
        skip_word 4 _ _ 48 4
        ∙ skip_word 2 _ _ 46 4
        ∙ skip_word 2 _ _ 44 4
        ∙ skip_word 8 _ _ 36 4
        ∙ skip_word 8 _ _ 28 4
        ∙ skip_word 8 _ _ 20 4
        ∙ skip_word 8 _ _ 12 4
        ∙ skip_word 8 _ _ 4 4
        ∙ skip_word 4 _ _ 0 4)
      ∙ word_first 4 m.flags _ f.flags_fits in
    let reserved_read : word_at 4 bytes 56 ≡ m.reserved =
      ap from_le (
        skip_word 4 _ _ 52 4
        ∙ skip_word 2 _ _ 50 4
        ∙ skip_word 2 _ _ 48 4
        ∙ skip_word 8 _ _ 40 4
        ∙ skip_word 8 _ _ 32 4
        ∙ skip_word 8 _ _ 24 4
        ∙ skip_word 8 _ _ 16 4
        ∙ skip_word 8 _ _ 8 4
        ∙ skip_word 4 _ _ 4 4
        ∙ skip_word 4 _ _ 0 4)
      ∙ word_first 4 m.reserved _ f.reserved_fits in
    let header_read : header_of_bytes (read_range bytes 64 88) ≡ m.header =
      ap header_of_bytes (
        skip_word 4 _ _ 60 88
        ∙ skip_word 2 _ _ 58 88
        ∙ skip_word 2 _ _ 56 88
        ∙ skip_word 8 _ _ 48 88
        ∙ skip_word 8 _ _ 40 88
        ∙ skip_word 8 _ _ 32 88
        ∙ skip_word 8 _ _ 24 88
        ∙ skip_word 8 _ _ 16 88
        ∙ skip_word 4 _ _ 12 88
        ∙ skip_word 4 _ _ 8 88
        ∙ skip_word 4 _ _ 4 88
        ∙ skip_word 4 _ _ 0 88
        ∙ first (bytes_of_header m.header) _ 88 long)
      ∙ header_of_bytes-bytes_of_header m.header f.header_fits in
    let profile_total_ns_read : word_at 8 bytes 152 ≡ m.profile_total_ns =
      ap from_le (
        skip_word 4 _ _ 148 8
        ∙ skip_word 2 _ _ 146 8
        ∙ skip_word 2 _ _ 144 8
        ∙ skip_word 8 _ _ 136 8
        ∙ skip_word 8 _ _ 128 8
        ∙ skip_word 8 _ _ 120 8
        ∙ skip_word 8 _ _ 112 8
        ∙ skip_word 8 _ _ 104 8
        ∙ skip_word 4 _ _ 100 8
        ∙ skip_word 4 _ _ 96 8
        ∙ skip_word 4 _ _ 92 8
        ∙ skip_word 4 _ _ 88 8
        ∙ skip (bytes_of_header m.header) _ 88 0 8 long)
      ∙ word_first 8 m.profile_total_ns _ f.profile_total_ns_fits in
    let profile_stage1_ns_read : word_at 8 bytes 160 ≡ m.profile_stage1_ns =
      ap from_le (
        skip_word 4 _ _ 156 8
        ∙ skip_word 2 _ _ 154 8
        ∙ skip_word 2 _ _ 152 8
        ∙ skip_word 8 _ _ 144 8
        ∙ skip_word 8 _ _ 136 8
        ∙ skip_word 8 _ _ 128 8
        ∙ skip_word 8 _ _ 120 8
        ∙ skip_word 8 _ _ 112 8
        ∙ skip_word 4 _ _ 108 8
        ∙ skip_word 4 _ _ 104 8
        ∙ skip_word 4 _ _ 100 8
        ∙ skip_word 4 _ _ 96 8
        ∙ skip (bytes_of_header m.header) _ 88 8 8 long
        ∙ skip_word 8 _ _ 0 8)
      ∙ word_first 8 m.profile_stage1_ns _ f.profile_stage1_ns_fits in
    let profile_stage2_ns_read : word_at 8 bytes 168 ≡ m.profile_stage2_ns =
      ap from_le (
        skip_word 4 _ _ 164 8
        ∙ skip_word 2 _ _ 162 8
        ∙ skip_word 2 _ _ 160 8
        ∙ skip_word 8 _ _ 152 8
        ∙ skip_word 8 _ _ 144 8
        ∙ skip_word 8 _ _ 136 8
        ∙ skip_word 8 _ _ 128 8
        ∙ skip_word 8 _ _ 120 8
        ∙ skip_word 4 _ _ 116 8
        ∙ skip_word 4 _ _ 112 8
        ∙ skip_word 4 _ _ 108 8
        ∙ skip_word 4 _ _ 104 8
        ∙ skip (bytes_of_header m.header) _ 88 16 8 long
        ∙ skip_word 8 _ _ 8 8
        ∙ skip_word 8 _ _ 0 8)
      ∙ word_first 8 m.profile_stage2_ns _ f.profile_stage2_ns_fits in
    let profile_stage3_ns_read : word_at 8 bytes 176 ≡ m.profile_stage3_ns =
      ap from_le (
        skip_word 4 _ _ 172 8
        ∙ skip_word 2 _ _ 170 8
        ∙ skip_word 2 _ _ 168 8
        ∙ skip_word 8 _ _ 160 8
        ∙ skip_word 8 _ _ 152 8
        ∙ skip_word 8 _ _ 144 8
        ∙ skip_word 8 _ _ 136 8
        ∙ skip_word 8 _ _ 128 8
        ∙ skip_word 4 _ _ 124 8
        ∙ skip_word 4 _ _ 120 8
        ∙ skip_word 4 _ _ 116 8
        ∙ skip_word 4 _ _ 112 8
        ∙ skip (bytes_of_header m.header) _ 88 24 8 long
        ∙ skip_word 8 _ _ 16 8
        ∙ skip_word 8 _ _ 8 8
        ∙ skip_word 8 _ _ 0 8)
      ∙ (ap from_le (whole (to_le 8 m.profile_stage3_ns) 8 (length-to_le 8 m.profile_stage3_ns))
          ∙ from_le-to_le 8 m.profile_stage3_ns f.profile_stage3_ns_fits) in
    λ i. record {
      magic = magic_read i;
      op = op_read i;
      status = status_read i;
      offset = offset_read i;
      length = length_read i;
      compare = compare_read i;
      swap = swap_read i;
      remote_addr = remote_addr_read i;
      rkey = rkey_read i;
      flags = flags_read i;
      reserved = reserved_read i;
      header = header_read i;
      profile_total_ns = profile_total_ns_read i;
      profile_stage1_ns = profile_stage1_ns_read i;
      profile_stage2_ns = profile_stage2_ns_read i;
      profile_stage3_ns = profile_stage3_ns_read i;
    }
