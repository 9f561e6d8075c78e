-- ===== src/Tcp.antt =====
-- The messages between a client and a memory node: include/td_transport.h and src/transport_tcp.c.
-- A client sends one request on its connection and waits for the response; the memory node's thread for
-- the connection answers one request after another.
pub mod Codec
pub mod Socket
pub mod Client
pub mod Server
pub mod Fits
pub mod Loopback
pub mod Links
pub mod Framing
pub mod Refines
use tee_dist.Base.{ℕ, Option, Bytes, ◌++◌, to_le, read_range}
use tee_dist.Region.{RegionHeader, word_at, header_of_bytes, bytes_of_header}
use tee_dist.Cluster.Monad.{no_header}

-- `TD_WIRE_MAGIC`
abbrev pub wire_magic : ℕ
wire_magic = 0x54445752

-- `TD_WIRE_FLAG_PROFILE`
abbrev pub flag_profile : ℕ
flag_profile = 1

-- `td_wire_op_t`
pub data WireOp : Type 0 where
  hello read write cas evict ack close : WireOp

abbrev pub op_code : WireOp → ℕ
op_code hello = 1
op_code read = 2
op_code write = 3
op_code cas = 4
op_code evict = 5
op_code ack = 6
op_code close = 7

-- `td_wire_msg_t`
pub record WireMsg : Type 0 where
  pub magic : ℕ
  pub op : ℕ
  pub status : ℕ
  pub offset : ℕ
  pub length : ℕ
  pub compare : ℕ
  pub swap : ℕ
  pub remote_addr : ℕ
  pub rkey : ℕ
  pub flags : ℕ
  pub reserved : ℕ
  pub header : RegionHeader
  pub profile_total_ns : ℕ
  pub profile_stage1_ns : ℕ
  pub profile_stage2_ns : ℕ
  pub profile_stage3_ns : ℕ

-- `memset(&request, 0, sizeof(request))`
abbrev pub zero_msg : WireMsg
zero_msg = record {
  magic = 0;
  op = 0;
  status = 0;
  offset = 0;
  length = 0;
  compare = 0;
  swap = 0;
  remote_addr = 0;
  rkey = 0;
  flags = 0;
  reserved = 0;
  header = no_header;
  profile_total_ns = 0;
  profile_stage1_ns = 0;
  profile_stage2_ns = 0;
  profile_stage3_ns = 0;
}

-- `sizeof(td_wire_msg_t)`: the header stands on an 8-byte boundary, behind four bytes of padding.
abbrev pub msg_bytes : ℕ
msg_bytes = 184

-- The object representation of a message that was cleared before its fields were set; the source sends
-- the struct as it stands in memory.
unfoldable pub bytes_of_msg : WireMsg → Bytes
bytes_of_msg m =
    to_le 4 m.magic
    ++ (to_le 2 m.op
        ++ (to_le 2 m.status
            ++ (to_le 8 m.offset
                ++ (to_le 8 m.length
                    ++ (to_le 8 m.compare
                        ++ (to_le 8 m.swap
                            ++ (to_le 8 m.remote_addr
                                ++ (to_le 4 m.rkey
                                    ++ (to_le 4 m.flags
                                        ++ (to_le 4 m.reserved
                                            ++ (to_le 4 0
                                                ++ (bytes_of_header m.header
                                                    ++ (to_le 8 m.profile_total_ns
                                                        ++ (to_le 8 m.profile_stage1_ns
                                                            ++ (to_le 8 m.profile_stage2_ns
                                                            ++ to_le 8
                                                            m.profile_stage3_ns)))))))))))))))

-- The message that these bytes represent.
unfoldable pub msg_of_bytes : Bytes → WireMsg
msg_of_bytes b = record {
  magic = word_at 4 b 0;
  op = word_at 2 b 4;
  status = word_at 2 b 6;
  offset = word_at 8 b 8;
  length = word_at 8 b 16;
  compare = word_at 8 b 24;
  swap = word_at 8 b 32;
  remote_addr = word_at 8 b 40;
  rkey = word_at 4 b 48;
  flags = word_at 4 b 52;
  reserved = word_at 4 b 56;
  header = header_of_bytes (read_range b 64 88);
  profile_total_ns = word_at 8 b 152;
  profile_stage1_ns = word_at 8 b 160;
  profile_stage2_ns = word_at 8 b 168;
  profile_stage3_ns = word_at 8 b 176;
}

-- A connection as the functions above the socket use it: `td_send_all` and `td_recv_all` of a number of
-- bytes; `none` is -1.
pub record Stream (S : Type 0) : Type 0 where
  pub send_all : Bytes → S → Option (Unit {0}) × S
  pub recv_all : ℕ → S → Option Bytes × S
