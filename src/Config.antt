-- ===== src/Config.antt =====
-- The configuration: include/td_config.h and src/config.c.
pub mod Slots
pub mod Shares
pub mod Fits
pub mod Text
pub mod Lines
pub mod Accepted
pub mod Load
use tee_dist.Base.{ℕ, ◌-◌, ◌^◌, Bool, false, true, List, [], ◌∷◌, Bytes, u32_mod}

-- `td_mode_t`, `td_transport_t`
pub data Mode : Type 0 where
  cn : Mode
  mn : Mode

pub data TransportKind : Type 0 where
  tcp : TransportKind
  rdma : TransportKind

-- `td_endpoint_t`; an `int` is a number below 2^32, in two's complement.
pub record Endpoint : Type 0 where
  pub host : Bytes
  pub port : ℕ
  pub node_id : ℕ

-- `td_config_t`; the endpoints in use are the first `mn_count` of the array.
pub record Config : Type 0 where
  pub mode : Mode
  pub transport : TransportKind
  pub replication : ℕ
  pub tdx : Bool
  pub cache_on : Bool
  pub mn_memory_size : ℕ
  pub encryption_key_hex : Bytes
  pub rdma_device : Bytes
  pub rdma_gid_index : ℕ
  pub listen_host : Bytes
  pub listen_port : ℕ
  pub node_id : ℕ
  pub memory_file : Bytes
  pub prime_slots : ℕ
  pub cache_slots : ℕ
  pub backup_slots : ℕ
  pub prime_explicit : Bool
  pub cache_explicit : Bool
  pub backup_explicit : Bool
  pub max_value : ℕ
  pub eviction_threshold_pct : ℕ
  pub recv_queue_depth : ℕ
  pub mn_endpoints : List Endpoint

-- The `int` -1.
abbrev pub minus_one : ℕ
minus_one = u32_mod - 1
