-- ===== src/Tests/Files.antt =====
-- The witnesses of the properties of the configuration and of hexadecimal texts.
use tee_dist.Base.{
  ℕ, ◌<◌, u32_mod, u64_mod, ◌++◌, ◌*◌, Bytes, Option, [], arith, none, refl, some, true, ℕ, ◌+◌,
  ◌<◌, ◌∷◌, ◌≡◌,
}
use tee_dist.Common.{hex_to_bytes, trim, trim_end, trim_start}
use tee_dist.Common.Hex.{hex_of, hex_to_bytes-hex_of}
use tee_dist.Config.{Config, mn}
use tee_dist.Region.Geometry.{LayoutFits}
use tee_dist.Region.Access.{IsMapped}
use tee_dist.Region.Commit.{slot_at}
use tee_dist.Region.Usage.{Counted, InUse, count_cache_usage, count_cache_usage_lem}
use tee_dist.Region.Open.{Os, fresh_region, region_open, IsOpenFor, region_open-IsOpenFor}
use tee_dist.Config.Accepted.{Accepted, config_load-Accepted}
use tee_dist.Config.Fits.{
  Resolved, config_slots, given_slots, resolve_mn_slots-Resolved, resolve_mn_slots_fills,
}
use tee_dist.Config.Load.{
  add_endpoint, c_string, check_key, check_mode, config_line, config_lines, config_load,
  default_config, finish_config, key_of, lines_of, set_key,
}
use tee_dist.Config.Slots.{
  allocate_buckets, allocate_weighted_slots, allocated, beats, best_bucket, buckets_of, cleared,
  give_one, hand_out, resolve_mn_slots, shared_out, weight_sum, with_buckets,
}
use tee_dist.Config.Text.{
  atoi, clip, decimal, ends_quoted, normalize_value, parse_host_port, sign_of, span, split_colon,
  split_last_colon,
}
use tee_dist.Crypto.{same_bytes}
use tee_dist.Region.{
  cache, Region, RegionKind, header_bytes, header_of, kind_slot_count, slot_bytes,
  slot_offset_for_index,
}

-- "mn_endpoint: h:7" and "encryption_key_hex: ab"
abbrev first_line : Bytes
first_line =
    b'm' ∷ b'n' ∷ b'_' ∷ b'e' ∷ b'n' ∷ b'd' ∷ b'p' ∷ b'o' ∷ b'i' ∷ b'n' ∷ b't' ∷ b':' ∷ b' ' ∷ b'h'
    ∷ b':' ∷ b'7' ∷ 10 ∷ []

abbrev second_line : Bytes
second_line =
    b'e' ∷ b'n' ∷ b'c' ∷ b'r' ∷ b'y' ∷ b'p' ∷ b't' ∷ b'i' ∷ b'o' ∷ b'n' ∷ b'_' ∷ b'k' ∷ b'e' ∷ b'y'
    ∷ b'_' ∷ b'h' ∷ b'e' ∷ b'x' ∷ b':' ∷ b' ' ∷ b'a' ∷ b'b' ∷ 10 ∷ []

abbrev file : Bytes
file = first_line ++ second_line

abbrev config_or : Option Config → Config
config_or none = default_config
config_or (some cfg) = cfg

abbrev loaded : Option Config
loaded = config_load file

loaded_ok : loaded ≡ some (config_or loaded)
unfolding config_load finish_config check_key check_mode config_lines lines_of config_line c_string
    set_key key_of add_endpoint clip span decimal sign_of atoi ends_quoted normalize_value
    split_last_colon split_colon parse_host_port same_bytes trim trim_start trim_end
loaded_ok = refl

config_load-Accepted_example : Accepted (config_or loaded)
config_load-Accepted_example = config_load-Accepted file (config_or loaded) loaded_ok

-- A memory node of ten slots, three of which are for PRIME.
abbrev small_node : Config
small_node = record default_config {
  mode = mn;
  mn_memory_size = 3600;
  prime_slots = 3;
  prime_explicit = true;
}

abbrev resolved : Option Config
resolved = resolve_mn_slots small_node

resolved_ok : resolved ≡ some (config_or resolved)
unfolding resolve_mn_slots allocate_weighted_slots allocate_buckets buckets_of with_buckets
    weight_sum cleared shared_out allocated beats best_bucket give_one hand_out
resolved_ok = refl

resolve_mn_slots-Resolved_example : Resolved small_node (config_or resolved)
resolve_mn_slots-Resolved_example =
    resolve_mn_slots-Resolved small_node (config_or resolved) (omega arith) (omega arith)
      resolved_ok

given_all : given_slots small_node ≡ config_slots small_node
unfolding given_slots
given_all = refl

resolve_mn_slots_fills_example :
    3600 < header_bytes + (config_slots (config_or resolved) + 1) * slot_bytes
resolve_mn_slots_fills_example =
    resolve_mn_slots_fills small_node (config_or resolved) (omega arith) (omega arith) resolved_ok
      refl given_all

hex_to_bytes-hex_of_example : hex_to_bytes (hex_of (171 ∷ 7 ∷ [])) 2 ≡ some (171 ∷ 7 ∷ [])
hex_to_bytes-hex_of_example = hex_to_bytes-hex_of (171 ∷ 7 ∷ []) (omega arith, (omega arith, tt))

abbrev mixed_case : Bytes
mixed_case = b'A' ∷ b'b' ∷ []

abbrev willing : Os
willing = record { opens = λ path. true; truncates = λ size. true; maps = λ size. true }

opened_ok : region_open willing (config_or resolved) ≡ some (fresh_region (config_or resolved))
unfolding region_open resolve_mn_slots allocate_weighted_slots with_buckets allocate_buckets
    weight_sum buckets_of hand_out allocated shared_out cleared best_bucket beats give_one
opened_ok = refl

node_small : (config_or resolved).node_id < u32_mod
unfolding resolve_mn_slots allocate_weighted_slots with_buckets allocate_buckets weight_sum
    buckets_of hand_out allocated shared_out cleared best_bucket beats give_one
node_small = omega arith

value_small : (config_or resolved).max_value < u64_mod
unfolding resolve_mn_slots allocate_weighted_slots with_buckets allocate_buckets weight_sum
    buckets_of hand_out allocated shared_out cleared best_bucket beats give_one
value_small = omega arith

region_open-IsOpenFor_example : IsOpenFor (config_or resolved) (fresh_region (config_or resolved))
region_open-IsOpenFor_example =
    region_open-IsOpenFor willing small_node (config_or resolved)
      (fresh_region (config_or resolved)) (omega arith) (omega arith) node_small value_small
      resolved_ok opened_ok

-- The region of the memory node of ten slots.
abbrev opened_region : Region
opened_region = fresh_region (config_or resolved)

opened_region-IsOpenFor : IsOpenFor (config_or resolved) opened_region
opened_region-IsOpenFor =
    region_open-IsOpenFor willing small_node (config_or resolved)
      (fresh_region (config_or resolved)) (omega arith) (omega arith) node_small value_small
      resolved_ok opened_ok

opened_layout : LayoutFits (header_of opened_region) opened_region.mapped_bytes
opened_layout = rw opened_region-IsOpenFor.header opened_region-IsOpenFor.layout

count_cache_usage_lem_example :
    Counted
      (λ i.
        InUse
          (slot_at opened_region.memory (slot_offset_for_index (header_of opened_region) cache i)))
      (header_of opened_region).cache_slot_count
      (count_cache_usage opened_region).0
    × ((header_of (count_cache_usage opened_region).1).cache_usage
        ≡ (count_cache_usage opened_region).0)
    × IsMapped (count_cache_usage opened_region).1
    × ((k : RegionKind) (i : ℕ)
        → i < kind_slot_count (header_of opened_region) k
        → slot_at
            (count_cache_usage opened_region).1.memory
            (slot_offset_for_index (header_of opened_region) k i)
          ≡ slot_at opened_region.memory (slot_offset_for_index (header_of opened_region) k i))
count_cache_usage_lem_example =
    count_cache_usage_lem opened_region opened_region-IsOpenFor.mapped opened_layout
