-- ===== src/Config/Load.antt =====
-- Reading a configuration file: `td_config_init_defaults` and `td_config_load` (src/config.c). The
-- file is its bytes; the error texts are not modelled.
use tee_dist.Base.{
  ℕ, ◌-◌, ◌*◌, ◌==◌, ltb, leb, if◌then◌else◌, true, false, ◌||◌, Option, none, some, List, [], ◌∷◌,
  ◌++◌, Bytes, length, get_or,
}
use tee_dist.Common.{trim}
use tee_dist.Crypto.{same_bytes}
use tee_dist.Region.{max_value_size}
use tee_dist.Config.{cn, mn, tcp, Endpoint, Config, minus_one}
use tee_dist.Config.Slots.{resolve_mn_slots}
use tee_dist.Config.Text.{
  clip, strtoull, atoi, int_le_zero, parse_mode, parse_transport, parse_toggle, normalize_value,
  parse_size_literal, parse_size_bytes, split_colon, parse_host_port,
}

-- "mlx5_0", "0.0.0.0" and "/tmp/tee-dist-mn.dat"
abbrev pub default_device : Bytes
default_device = b'm' ∷ b'l' ∷ b'x' ∷ b'5' ∷ b'_' ∷ b'0' ∷ []

abbrev pub default_host : Bytes
default_host = b'0' ∷ b'.' ∷ b'0' ∷ b'.' ∷ b'0' ∷ b'.' ∷ b'0' ∷ []

abbrev pub default_file : Bytes
default_file =
    b'/' ∷ b't' ∷ b'm' ∷ b'p' ∷ b'/' ∷ b't' ∷ b'e' ∷ b'e' ∷ b'-' ∷ b'd' ∷ b'i' ∷ b's' ∷ b't' ∷ b'-'
    ∷ b'm' ∷ b'n' ∷ b'.' ∷ b'd' ∷ b'a' ∷ b't' ∷ []

-- `td_config_init_defaults`
abbrev pub default_config : Config
default_config = record {
  mode = cn;
  transport = tcp;
  replication = 3;
  tdx = false;
  cache_on = true;
  mn_memory_size = 64 * 1024 * 1024;
  encryption_key_hex = [];
  rdma_device = default_device;
  rdma_gid_index = 0;
  listen_host = default_host;
  listen_port = 0;
  node_id = minus_one;
  memory_file = default_file;
  prime_slots = 0;
  cache_slots = 0;
  backup_slots = 0;
  prime_explicit = false;
  cache_explicit = false;
  backup_explicit = false;
  max_value = max_value_size;
  eviction_threshold_pct = 80;
  recv_queue_depth = 32;
  mn_endpoints = [];
}

-- The keys of a configuration file.
pub data Key : Type 0 where
  key_mode : Key
  key_transport : Key
  key_replication : Key
  key_tdx : Key
  key_cache : Key
  key_mn_memory_size : Key
  key_encryption_key_hex : Key
  key_rdma_device : Key
  key_rdma_gid_index : Key
  key_listen_host : Key
  key_listen_port : Key
  key_node_id : Key
  key_memory_file : Key
  key_prime_slots : Key
  key_cache_slots : Key
  key_backup_slots : Key
  key_max_value_size : Key
  key_eviction_threshold_pct : Key
  key_recv_queue_depth : Key
  key_mn_endpoint : Key
  key_unknown : Key

-- The comparisons of a key, in the order of the code.
unfoldable pub key_of : Bytes → Key
key_of key =
    if same_bytes key (b'm' ∷ b'o' ∷ b'd' ∷ b'e' ∷ [])
    then key_mode
    else if same_bytes key (b't' ∷ b'r' ∷ b'a' ∷ b'n' ∷ b's' ∷ b'p' ∷ b'o' ∷ b'r' ∷ b't' ∷ [])
    then key_transport
    else if same_bytes key
        (b'r' ∷ b'e' ∷ b'p' ∷ b'l' ∷ b'i' ∷ b'c' ∷ b'a' ∷ b't' ∷ b'i' ∷ b'o' ∷ b'n' ∷ [])
    then key_replication
    else if same_bytes key (b't' ∷ b'd' ∷ b'x' ∷ [])
    then key_tdx
    else if same_bytes key (b'c' ∷ b'a' ∷ b'c' ∷ b'h' ∷ b'e' ∷ [])
    then key_cache
    else if same_bytes key (
        b'm' ∷ b'n' ∷ b'_' ∷ b'm' ∷ b'e' ∷ b'm' ∷ b'o' ∷ b'r' ∷ b'y' ∷ b'_' ∷ b's' ∷ b'i' ∷ b'z'
        ∷ b'e' ∷ [])
    then key_mn_memory_size
    else if same_bytes key (
        b'e' ∷ b'n' ∷ b'c' ∷ b'r' ∷ b'y' ∷ b'p' ∷ b't' ∷ b'i' ∷ b'o' ∷ b'n' ∷ b'_' ∷ b'k' ∷ b'e'
        ∷ b'y' ∷ b'_' ∷ b'h' ∷ b'e' ∷ b'x' ∷ [])
    then key_encryption_key_hex
    else if same_bytes key
        (b'r' ∷ b'd' ∷ b'm' ∷ b'a' ∷ b'_' ∷ b'd' ∷ b'e' ∷ b'v' ∷ b'i' ∷ b'c' ∷ b'e' ∷ [])
    then key_rdma_device
    else if same_bytes key (
        b'r' ∷ b'd' ∷ b'm' ∷ b'a' ∷ b'_' ∷ b'g' ∷ b'i' ∷ b'd' ∷ b'_' ∷ b'i' ∷ b'n' ∷ b'd' ∷ b'e'
        ∷ b'x' ∷ [])
    then key_rdma_gid_index
    else if same_bytes key
        (b'l' ∷ b'i' ∷ b's' ∷ b't' ∷ b'e' ∷ b'n' ∷ b'_' ∷ b'h' ∷ b'o' ∷ b's' ∷ b't' ∷ [])
    then key_listen_host
    else if same_bytes key
        (b'l' ∷ b'i' ∷ b's' ∷ b't' ∷ b'e' ∷ b'n' ∷ b'_' ∷ b'p' ∷ b'o' ∷ b'r' ∷ b't' ∷ [])
    then key_listen_port
    else if same_bytes key (b'n' ∷ b'o' ∷ b'd' ∷ b'e' ∷ b'_' ∷ b'i' ∷ b'd' ∷ [])
    then key_node_id
    else if same_bytes key
        (b'm' ∷ b'e' ∷ b'm' ∷ b'o' ∷ b'r' ∷ b'y' ∷ b'_' ∷ b'f' ∷ b'i' ∷ b'l' ∷ b'e' ∷ [])
    then key_memory_file
    else if same_bytes key
        (b'p' ∷ b'r' ∷ b'i' ∷ b'm' ∷ b'e' ∷ b'_' ∷ b's' ∷ b'l' ∷ b'o' ∷ b't' ∷ b's' ∷ [])
    then key_prime_slots
    else if same_bytes key
        (b'c' ∷ b'a' ∷ b'c' ∷ b'h' ∷ b'e' ∷ b'_' ∷ b's' ∷ b'l' ∷ b'o' ∷ b't' ∷ b's' ∷ [])
    then key_cache_slots
    else if same_bytes key
        (b'b' ∷ b'a' ∷ b'c' ∷ b'k' ∷ b'u' ∷ b'p' ∷ b'_' ∷ b's' ∷ b'l' ∷ b'o' ∷ b't' ∷ b's' ∷ [])
    then key_backup_slots
    else if same_bytes key (
        b'm' ∷ b'a' ∷ b'x' ∷ b'_' ∷ b'v' ∷ b'a' ∷ b'l' ∷ b'u' ∷ b'e' ∷ b'_' ∷ b's' ∷ b'i' ∷ b'z'
        ∷ b'e' ∷ [])
    then key_max_value_size
    else if same_bytes key (
        b'e' ∷ b'v' ∷ b'i' ∷ b'c' ∷ b't' ∷ b'i' ∷ b'o' ∷ b'n' ∷ b'_' ∷ b't' ∷ b'h' ∷ b'r' ∷ b'e'
        ∷ b's' ∷ b'h' ∷ b'o' ∷ b'l' ∷ b'd' ∷ b'_' ∷ b'p' ∷ b'c' ∷ b't' ∷ [])
    then key_eviction_threshold_pct
    else if same_bytes key (
        b'r' ∷ b'e' ∷ b'c' ∷ b'v' ∷ b'_' ∷ b'q' ∷ b'u' ∷ b'e' ∷ b'u' ∷ b'e' ∷ b'_' ∷ b'd' ∷ b'e'
        ∷ b'p' ∷ b't' ∷ b'h' ∷ [])
    then key_recv_queue_depth
    else if same_bytes key
        (b'm' ∷ b'n' ∷ b'_' ∷ b'e' ∷ b'n' ∷ b'd' ∷ b'p' ∷ b'o' ∷ b'i' ∷ b'n' ∷ b't' ∷ [])
    then key_mn_endpoint
    else key_unknown

-- An endpoint is added, with its position as its node.
unfoldable pub add_endpoint : Config → Option Endpoint → Option Config
add_endpoint cfg none = none
add_endpoint cfg (some e) = some (record cfg {
  mn_endpoints = cfg.mn_endpoints ++ (record e { node_id = length cfg.mn_endpoints } ∷ []);
})

-- What a line with the key does to the configuration; `none` is -1.
unfoldable pub set_key : Key → Config → Bytes → Option Config
set_key key_mode cfg value = elim (parse_mode value) [
  | none ↦ none
  | some m ↦ some (record cfg { mode = m })
]
set_key key_transport cfg value = elim (parse_transport value) [
  | none ↦ none
  | some t ↦ some (record cfg { transport = t })
]
set_key key_replication cfg value = some (record cfg { replication = atoi value })
set_key key_tdx cfg value = elim (parse_toggle value) [
  | none ↦ none
  | some b ↦ some (record cfg { tdx = b })
]
set_key key_cache cfg value = elim (parse_toggle value) [
  | none ↦ none
  | some b ↦ some (record cfg { cache_on = b })
]
set_key key_mn_memory_size cfg value = elim (parse_size_bytes value) [
  | none ↦ none
  | some n ↦ some (record cfg { mn_memory_size = n })
]
set_key key_encryption_key_hex cfg value = some (record cfg { encryption_key_hex = clip 65 value })
set_key key_rdma_device cfg value = some (record cfg { rdma_device = clip 64 value })
set_key key_rdma_gid_index cfg value = some (record cfg { rdma_gid_index = atoi value })
set_key key_listen_host cfg value = some (record cfg { listen_host = clip 64 value })
set_key key_listen_port cfg value = some (record cfg { listen_port = atoi value })
set_key key_node_id cfg value = some (record cfg { node_id = atoi value })
set_key key_memory_file cfg value = some (record cfg { memory_file = clip 256 value })
set_key key_prime_slots cfg value =
    if length value == 0 then some cfg else elim (parse_size_literal value) [
      | none ↦ none
      | some n ↦ some (record cfg { prime_slots = n; prime_explicit = true })
    ]
set_key key_cache_slots cfg value =
    if length value == 0 then some cfg else elim (parse_size_literal value) [
      | none ↦ none
      | some n ↦ some (record cfg { cache_slots = n; cache_explicit = true })
    ]
set_key key_backup_slots cfg value =
    if length value == 0 then some cfg else elim (parse_size_literal value) [
      | none ↦ none
      | some n ↦ some (record cfg { backup_slots = n; backup_explicit = true })
    ]
set_key key_max_value_size cfg value = some (record cfg { max_value = (strtoull value).value })
set_key key_eviction_threshold_pct cfg value =
    some (record cfg { eviction_threshold_pct = (strtoull value).value })
set_key key_recv_queue_depth cfg value =
    some (record cfg { recv_queue_depth = (strtoull value).value })
set_key key_mn_endpoint cfg value =
    if leb 8 (length cfg.mn_endpoints) then none else add_endpoint cfg (parse_host_port value)
set_key key_unknown cfg value = some cfg

-- A string ends at its first NUL.
unfoldable pub c_string : Bytes → Bytes
c_string [] = []
c_string (c ∷ cs) = let rest = c_string cs in if c == 0 then [] else c ∷ rest

-- One round of the loop.
unfoldable pub config_line : Config → Bytes → Option Config
config_line cfg line =
    let text = trim (c_string line) in
    if length text == 0 || get_or text 0 0 == b'#' then some cfg else elim (split_colon text) [
      | none ↦ none
      | some (front, back) ↦ set_key (key_of (trim front)) cfg (normalize_value back)
    ]

-- What `fgets` reads into `line[512]`, call after call: up to a newline, or the `room` that is left.
unfoldable pub lines_of : Bytes → ℕ → List Bytes
lines_of [] room = []
lines_of (c ∷ cs) room =
    let ends = c == 10 || leb room 1 in
    let rest = lines_of cs (if ends then 511 else room - 1) in
    if ends
    then (c ∷ []) ∷ rest
    else elim rest [ [] ↦ (c ∷ []) ∷ [] | line ∷ lines ↦ (c ∷ line) ∷ lines ]

-- The loop over the lines.
unfoldable pub config_lines : Config → List Bytes → Option Config
config_lines cfg [] = some cfg
config_lines cfg (line ∷ lines) = elim (config_line cfg line) [
  | none ↦ none
  | some next ↦ config_lines next lines
]

-- The checks of `mode` behind the loop.
unfoldable pub check_mode : Config → Option Config
check_mode cfg = elim cfg.mode [
  | cn ↦ if length cfg.mn_endpoints == 0 then none else some cfg
  | mn ↦ if int_le_zero cfg.listen_port then none else resolve_mn_slots cfg
]

-- The last check.
unfoldable pub check_key : Option Config → Option Config
check_key none = none
check_key (some cfg) = if length cfg.encryption_key_hex == 0 then none else some cfg

-- The checks behind the loop.
unfoldable pub finish_config : Config → Option Config
finish_config cfg =
    if ltb max_value_size cfg.max_value
    then none
    else check_key
        (check_mode (if int_le_zero cfg.replication then record cfg { replication = 1 } else cfg))

-- `td_config_load`, where the file opens: its bytes are `text`.
unfoldable pub config_load : Bytes → Option Config
config_load text = elim (config_lines default_config (lines_of text 511)) [
  | none ↦ none
  | some cfg ↦ finish_config cfg
]
