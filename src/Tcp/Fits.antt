-- ===== src/Tcp/Fits.antt =====
-- What the requests of a client and the responses of a memory node (src/transport_tcp.c) hold fits the
-- fields of a message.
use tee_dist.Base.{
  ℕ, zero, suc, Bool, true, false, ◌^◌, ◌<◌, ◌≡◌, arith, AllBytes, Bytes, [], ◌∷◌, take, drop,
  read_range, from_le, u64_mod, u32_mod,
}
use native.Mathlib.Nat.{pow-suc}
use tee_dist.Region.{RegionHeader, header_of_bytes, word_at}
use tee_dist.Region.Open.{HeaderFits}
use tee_dist.Cluster.Monad.{no_header}
use tee_dist.Tcp.{WireOp, hello, read, write, cas, evict, ack, close, op_code, WireMsg}
use tee_dist.Tcp.Codec.{MsgFits}
use tee_dist.Tcp.Server.{Round, response_to, measured}
use tee_dist.Tcp.Client.{request_flags, read_request, write_request, cas_request, control_request}

-- A round that is not stopped, and whose times a 64-bit word holds.
pub record IsRunning (round : Round) : Type 0 where
  pub running : round.stopped ≡ false
  pub total_fits : round.total_ns < u64_mod
  pub stage1_fits : round.stage1_ns < u64_mod
  pub stage2_fits : round.stage2_ns < u64_mod

request_flags_lt : (profiled : Bool) → request_flags profiled < u32_mod
request_flags_lt true = omega arith
request_flags_lt false = omega arith

measured_lt : (request : WireMsg) (ns : ℕ) → ns < u64_mod → measured request ns < u64_mod
measured_lt request ns h = ground arith

pub no_header-HeaderFits : HeaderFits no_header
no_header-HeaderFits = record {
  magic_fits = omega arith;
  version_fits = omega arith;
  node_id_fits = omega arith;
  prime_slot_count_fits = omega arith;
  cache_slot_count_fits = omega arith;
  backup_slot_count_fits = omega arith;
  max_value_fits = omega arith;
  cache_usage_fits = omega arith;
  eviction_cursor_fits = omega arith;
  cache_mode_fits = omega arith;
  region_size_fits = omega arith;
}

module _ (profiled : Bool) where
  pub read_request-MsgFits :
      (offset len : ℕ)
      → offset < u64_mod
      → len < u64_mod
      → MsgFits (read_request profiled offset len)
  unfolding read_request
  read_request-MsgFits offset len offset_lt len_lt = record {
    magic_fits = omega arith;
    op_fits = omega arith;
    status_fits = omega arith;
    offset_fits = omega arith;
    length_fits = omega arith;
    compare_fits = omega arith;
    swap_fits = omega arith;
    remote_addr_fits = omega arith;
    rkey_fits = omega arith;
    flags_fits = request_flags_lt profiled;
    reserved_fits = omega arith;
    header_fits = no_header-HeaderFits;
    profile_total_ns_fits = omega arith;
    profile_stage1_ns_fits = omega arith;
    profile_stage2_ns_fits = omega arith;
    profile_stage3_ns_fits = omega arith;
  }

  pub write_request-MsgFits :
      (offset len : ℕ)
      → offset < u64_mod
      → len < u64_mod
      → MsgFits (write_request profiled offset len)
  unfolding write_request
  write_request-MsgFits offset len offset_lt len_lt = record {
    magic_fits = omega arith;
    op_fits = omega arith;
    status_fits = omega arith;
    offset_fits = omega arith;
    length_fits = omega arith;
    compare_fits = omega arith;
    swap_fits = omega arith;
    remote_addr_fits = omega arith;
    rkey_fits = omega arith;
    flags_fits = request_flags_lt profiled;
    reserved_fits = omega arith;
    header_fits = no_header-HeaderFits;
    profile_total_ns_fits = omega arith;
    profile_stage1_ns_fits = omega arith;
    profile_stage2_ns_fits = omega arith;
    profile_stage3_ns_fits = omega arith;
  }

  pub cas_request-MsgFits :
      (offset compare swap : ℕ)
      → offset < u64_mod
      → compare < u64_mod
      → swap < u64_mod
      → MsgFits (cas_request profiled offset compare swap)
  unfolding cas_request
  cas_request-MsgFits offset compare swap offset_lt compare_lt swap_lt = record {
    magic_fits = omega arith;
    op_fits = omega arith;
    status_fits = omega arith;
    offset_fits = omega arith;
    length_fits = omega arith;
    compare_fits = omega arith;
    swap_fits = omega arith;
    remote_addr_fits = omega arith;
    rkey_fits = omega arith;
    flags_fits = request_flags_lt profiled;
    reserved_fits = omega arith;
    header_fits = no_header-HeaderFits;
    profile_total_ns_fits = omega arith;
    profile_stage1_ns_fits = omega arith;
    profile_stage2_ns_fits = omega arith;
    profile_stage3_ns_fits = omega arith;
  }

  op_code_lt : (op : WireOp) → op_code op < 2 ^ 16
  op_code_lt hello = omega arith
  op_code_lt read = omega arith
  op_code_lt write = omega arith
  op_code_lt cas = omega arith
  op_code_lt evict = omega arith
  op_code_lt ack = omega arith
  op_code_lt close = omega arith

  pub control_request-MsgFits : (op : WireOp) → MsgFits (control_request profiled op)
  unfolding control_request
  control_request-MsgFits op = record {
    magic_fits = omega arith;
    op_fits = op_code_lt op;
    status_fits = omega arith;
    offset_fits = omega arith;
    length_fits = omega arith;
    compare_fits = omega arith;
    swap_fits = omega arith;
    remote_addr_fits = omega arith;
    rkey_fits = omega arith;
    flags_fits = request_flags_lt profiled;
    reserved_fits = omega arith;
    header_fits = no_header-HeaderFits;
    profile_total_ns_fits = omega arith;
    profile_stage1_ns_fits = omega arith;
    profile_stage2_ns_fits = omega arith;
    profile_stage3_ns_fits = omega arith;
  }

-- A response whose times, status, length, observed word and header fit.
pub response_to-MsgFits :
    (request : WireMsg) (total stage1 stage2 : ℕ)
    → MsgFits request
    → total < u64_mod
    → stage1 < u64_mod
    → stage2 < u64_mod
    → (status len observed : ℕ) (header : RegionHeader) → status < 2 ^ 16
    → len < u64_mod
    → observed < u64_mod
    → HeaderFits header
    → MsgFits (record (response_to request total stage1 stage2) {
      status = status;
      length = len;
      compare = observed;
      header = header;
    })
unfolding response_to
response_to-MsgFits request total stage1 stage2 request_fits total_lt stage1_lt stage2_lt status len
      observed header status_lt length_lt compare_lt header_lt =
    record {
      magic_fits = omega arith;
      op_fits = omega arith;
      status_fits = status_lt;
      offset_fits = omega arith;
      length_fits = length_lt;
      compare_fits = compare_lt;
      swap_fits = omega arith;
      remote_addr_fits = omega arith;
      rkey_fits = omega arith;
      flags_fits = request_fits.flags_fits;
      reserved_fits = omega arith;
      header_fits = header_lt;
      profile_total_ns_fits = measured_lt request total total_lt;
      profile_stage1_ns_fits = measured_lt request stage1 stage1_lt;
      profile_stage2_ns_fits = measured_lt request stage2 stage2_lt;
      profile_stage3_ns_fits = omega arith;
    }

AllBytes-drop : (n : ℕ) (bs : Bytes) → AllBytes bs → AllBytes (drop n bs)
AllBytes-drop zero bs h = h
AllBytes-drop (suc n) [] h = tt
AllBytes-drop (suc n) (b ∷ bs) h = AllBytes-drop n bs h.1

-- The word that at most `n` bytes make.
from_le-take_lt : (n : ℕ) (bs : Bytes) → AllBytes bs → from_le (take n bs) < 256 ^ n
unfolding from_le
from_le-take_lt zero bs h = omega arith
from_le-take_lt (suc n) [] h = rw pow-suc (omega (arith, from_le-take_lt n [] tt))
from_le-take_lt (suc n) (b ∷ bs) h = rw pow-suc (omega (arith, h.0, from_le-take_lt n bs h.1))

-- A word of a memory of bytes.
pub word_at-lt : (m : Bytes) (off : ℕ) → AllBytes m → word_at 8 m off < u64_mod
unfolding word_at read_range
word_at-lt m off h = from_le-take_lt 8 (drop off m) (AllBytes-drop off m h)

-- The header of a memory of bytes.
pub header_of_bytes-HeaderFits : (m : Bytes) → AllBytes m → HeaderFits (header_of_bytes m)
unfolding header_of_bytes
header_of_bytes-HeaderFits m h = record {
  magic_fits = word_at-lt m 0 h;
  version_fits = word_at-lt m 8 h;
  node_id_fits = word_at-lt m 16 h;
  prime_slot_count_fits = word_at-lt m 24 h;
  cache_slot_count_fits = word_at-lt m 32 h;
  backup_slot_count_fits = word_at-lt m 40 h;
  max_value_fits = word_at-lt m 48 h;
  cache_usage_fits = word_at-lt m 56 h;
  eviction_cursor_fits = word_at-lt m 64 h;
  cache_mode_fits = word_at-lt m 72 h;
  region_size_fits = word_at-lt m 80 h;
}
