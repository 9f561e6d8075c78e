-- ===== src/Region/Open.antt =====
-- Opening a region: `td_region_open` (src/layout.c). The calls of the operating system are a parameter.
use tee_dist.Base.{
  ℕ, ◌+◌, ◌*◌, ◌^◌, ◌<◌, ◌≤◌, ◌≡◌, ◌⊎◌, inl, inr, refl, sym, ap, ◌∙◌, arith, Bool, not,
  if◌then◌else◌, leb, Option, none, some, Bytes, length, length-append, length-replicate,
  length-write_range, replicate, read_range, read_range-read_range, read-write_sized, write_range,
  to_le, from_le, length-to_le, from_le-to_le, u64_mod, u32_mod,
}
use tee_dist.Region.{
  RegionHeader, Region, header_bytes, slot_bytes, word_at, header_of_bytes, bytes_of_header,
  header_of,
}
use tee_dist.Region.Codec.{skip_word, word_first, whole}
use tee_dist.Region.Access.{IsMapped}
use tee_dist.Region.Geometry.{LayoutFits}
use tee_dist.Config.{Config, TransportKind, tcp, rdma}
use tee_dist.Config.Slots.{resolve_mn_slots}
use tee_dist.Config.Fits.{config_slots, resolve_mn_slots-Resolved}

-- Whether the calls succeed: `open` of a path, and `ftruncate` and `mmap` for a size. A mapping that
-- succeeds has that many bytes.
pub record Os : Type 0 where
  pub opens : Bytes → Bool
  pub truncates : ℕ → Bool
  pub maps : ℕ → Bool

-- The header that the function writes.
unfoldable pub region_header : Config → RegionHeader
region_header cfg = record {
  magic = 6072053279323605846;
  version = 1;
  node_id = if leb (2 ^ 31) cfg.node_id then 0 else cfg.node_id;
  prime_slot_count = cfg.prime_slots;
  cache_slot_count = cfg.cache_slots;
  backup_slot_count = cfg.backup_slots;
  max_value = cfg.max_value;
  cache_usage = 0;
  eviction_cursor = 0;
  cache_mode = if cfg.cache_on then 1 else 0;
  region_size = cfg.mn_memory_size;
}

-- The mapped bytes: zeros, with the header in front.
unfoldable pub fresh_region : Config → Region
fresh_region cfg = record {
  memory = write_range (replicate cfg.mn_memory_size 0) 0 (bytes_of_header (region_header cfg));
  mapped_bytes = cfg.mn_memory_size;
}

-- `td_region_open`; `none` is -1.
unfoldable pub region_open : Os → Config → Option Region
region_open os cfg = elim cfg.transport [
  | rdma ↦ if os.maps cfg.mn_memory_size then some (fresh_region cfg) else none
  | tcp ↦
      if not (os.opens cfg.memory_file)
      then none
      else if not (os.truncates cfg.mn_memory_size)
      then none
      else if os.maps cfg.mn_memory_size
      then some (fresh_region cfg)
      else none
]

-- The fields of a header fit their words.
pub record HeaderFits (h : RegionHeader) : Type 0 where
  pub magic_fits : h.magic < u64_mod
  pub version_fits : h.version < u64_mod
  pub node_id_fits : h.node_id < u64_mod
  pub prime_slot_count_fits : h.prime_slot_count < u64_mod
  pub cache_slot_count_fits : h.cache_slot_count < u64_mod
  pub backup_slot_count_fits : h.backup_slot_count < u64_mod
  pub max_value_fits : h.max_value < u64_mod
  pub cache_usage_fits : h.cache_usage < u64_mod
  pub eviction_cursor_fits : h.eviction_cursor < u64_mod
  pub cache_mode_fits : h.cache_mode < u64_mod
  pub region_size_fits : h.region_size < u64_mod

pub length-bytes_of_header : (h : RegionHeader) → length (bytes_of_header h) ≡ 88
unfolding bytes_of_header
length-bytes_of_header h = simp (length-append, length-to_le) (omega arith)

-- A header is read back from its bytes.
pub header_of_bytes-bytes_of_header :
    (h : RegionHeader) → HeaderFits h → header_of_bytes (bytes_of_header h) ≡ h
unfolding header_of_bytes bytes_of_header word_at
header_of_bytes-bytes_of_header h f =
    let bytes = bytes_of_header h in
    let magic_read : word_at 8 bytes 0 ≡ h.magic = word_first 8 h.magic _ f.magic_fits in
    let version_read : word_at 8 bytes 8 ≡ h.version =
      ap from_le (skip_word 8 _ _ 0 8) ∙ word_first 8 h.version _ f.version_fits in
    let node_id_read : word_at 8 bytes 16 ≡ h.node_id =
      ap from_le (skip_word 8 _ _ 8 8 ∙ skip_word 8 _ _ 0 8)
      ∙ word_first 8 h.node_id _ f.node_id_fits in
    let prime_slot_count_read : word_at 8 bytes 24 ≡ h.prime_slot_count =
      ap from_le (skip_word 8 _ _ 16 8 ∙ skip_word 8 _ _ 8 8 ∙ skip_word 8 _ _ 0 8)
      ∙ word_first 8 h.prime_slot_count _ f.prime_slot_count_fits in
    let cache_slot_count_read : word_at 8 bytes 32 ≡ h.cache_slot_count =
      ap from_le
        (skip_word 8 _ _ 24 8 ∙ skip_word 8 _ _ 16 8 ∙ skip_word 8 _ _ 8 8 ∙ skip_word 8 _ _ 0 8)
      ∙ word_first 8 h.cache_slot_count _ f.cache_slot_count_fits in
    let backup_slot_count_read : word_at 8 bytes 40 ≡ h.backup_slot_count =
      ap from_le (
        skip_word 8 _ _ 32 8
        ∙ skip_word 8 _ _ 24 8
        ∙ skip_word 8 _ _ 16 8
        ∙ skip_word 8 _ _ 8 8
        ∙ skip_word 8 _ _ 0 8)
      ∙ word_first 8 h.backup_slot_count _ f.backup_slot_count_fits in
    let max_value_read : word_at 8 bytes 48 ≡ h.max_value =
      ap from_le (
        skip_word 8 _ _ 40 8
        ∙ skip_word 8 _ _ 32 8
        ∙ skip_word 8 _ _ 24 8
        ∙ skip_word 8 _ _ 16 8
        ∙ skip_word 8 _ _ 8 8
        ∙ skip_word 8 _ _ 0 8)
      ∙ word_first 8 h.max_value _ f.max_value_fits in
    let cache_usage_read : word_at 8 bytes 56 ≡ h.cache_usage =
      ap from_le (
        skip_word 8 _ _ 48 8
        ∙ skip_word 8 _ _ 40 8
        ∙ skip_word 8 _ _ 32 8
        ∙ skip_word 8 _ _ 24 8
        ∙ skip_word 8 _ _ 16 8
        ∙ skip_word 8 _ _ 8 8
        ∙ skip_word 8 _ _ 0 8)
      ∙ word_first 8 h.cache_usage _ f.cache_usage_fits in
    let eviction_cursor_read : word_at 8 bytes 64 ≡ h.eviction_cursor =
      ap from_le (
        skip_word 8 _ _ 56 8
        ∙ skip_word 8 _ _ 48 8
        ∙ skip_word 8 _ _ 40 8
        ∙ skip_word 8 _ _ 32 8
        ∙ skip_word 8 _ _ 24 8
        ∙ skip_word 8 _ _ 16 8
        ∙ skip_word 8 _ _ 8 8
        ∙ skip_word 8 _ _ 0 8)
      ∙ word_first 8 h.eviction_cursor _ f.eviction_cursor_fits in
    let cache_mode_read : word_at 8 bytes 72 ≡ h.cache_mode =
      ap from_le (
        skip_word 8 _ _ 64 8
        ∙ skip_word 8 _ _ 56 8
        ∙ skip_word 8 _ _ 48 8
        ∙ skip_word 8 _ _ 40 8
        ∙ skip_word 8 _ _ 32 8
        ∙ skip_word 8 _ _ 24 8
        ∙ skip_word 8 _ _ 16 8
        ∙ skip_word 8 _ _ 8 8
        ∙ skip_word 8 _ _ 0 8)
      ∙ word_first 8 h.cache_mode _ f.cache_mode_fits in
    let region_size_read : word_at 8 bytes 80 ≡ h.region_size =
      ap from_le (
        skip_word 8 _ _ 72 8
        ∙ skip_word 8 _ _ 64 8
        ∙ skip_word 8 _ _ 56 8
        ∙ skip_word 8 _ _ 48 8
        ∙ skip_word 8 _ _ 40 8
        ∙ skip_word 8 _ _ 32 8
        ∙ skip_word 8 _ _ 24 8
        ∙ skip_word 8 _ _ 16 8
        ∙ skip_word 8 _ _ 8 8
        ∙ skip_word 8 _ _ 0 8)
      ∙ (ap from_le (whole (to_le 8 h.region_size) 8 (length-to_le 8 h.region_size))
          ∙ from_le-to_le 8 h.region_size f.region_size_fits) in
    λ i. record {
      magic = magic_read i;
      version = version_read i;
      node_id = node_id_read i;
      prime_slot_count = prime_slot_count_read i;
      cache_slot_count = cache_slot_count_read i;
      backup_slot_count = backup_slot_count_read i;
      max_value = max_value_read i;
      cache_usage = cache_usage_read i;
      eviction_cursor = eviction_cursor_read i;
      cache_mode = cache_mode_read i;
      region_size = region_size_read i;
    }

-- Only the first 88 bytes matter to a header.
header_of_bytes-front : (m : Bytes) → header_of_bytes (read_range m 0 88) ≡ header_of_bytes m
unfolding header_of_bytes word_at
header_of_bytes-front m =
    let word = λ (o : ℕ) (h : o + 8 ≤ 88). ap from_le (read_range-read_range m 0 88 o 8 h) in
    λ i. record {
      magic = word 0 (omega arith) i;
      version = word 8 (omega arith) i;
      node_id = word 16 (omega arith) i;
      prime_slot_count = word 24 (omega arith) i;
      cache_slot_count = word 32 (omega arith) i;
      backup_slot_count = word 40 (omega arith) i;
      max_value = word 48 (omega arith) i;
      cache_usage = word 56 (omega arith) i;
      eviction_cursor = word 64 (omega arith) i;
      cache_mode = word 72 (omega arith) i;
      region_size = word 80 (omega arith) i;
    }

region_header-HeaderFits :
    (cfg : Config)
    → cfg.node_id < u32_mod
    → cfg.max_value < u64_mod
    → cfg.mn_memory_size < u64_mod
    → config_slots cfg < u64_mod
    → HeaderFits (region_header cfg)
unfolding region_header
region_header-HeaderFits cfg node value size slots = record {
  magic_fits = ground arith;
  version_fits = ground arith;
  node_id_fits = ground arith;
  prime_slot_count_fits = ground arith;
  cache_slot_count_fits = ground arith;
  backup_slot_count_fits = ground arith;
  max_value_fits = ground arith;
  cache_usage_fits = ground arith;
  eviction_cursor_fits = ground arith;
  cache_mode_fits = ground arith;
  region_size_fits = ground arith;
}

transport_cases : (t : TransportKind) → (t ≡ tcp) ⊎ (t ≡ rdma)
transport_cases tcp = inl refl
transport_cases rdma = inr refl

-- A region that opens is the fresh one, by either transport.
region_open_fresh :
    (os : Os) (cfg : Config) (r : Region) → region_open os cfg ≡ some r → fresh_region cfg ≡ r
unfolding region_open
region_open_fresh os cfg r e = elim (transport_cases cfg.transport) [
  | inl socket ↦ ground arith
  | inr verbs ↦ ground arith
]

fresh_region-header :
    (cfg : Config)
    → 88 ≤ cfg.mn_memory_size
    → HeaderFits (region_header cfg)
    → header_of (fresh_region cfg) ≡ region_header cfg
unfolding fresh_region
fresh_region-header cfg large f =
    let zeros = replicate cfg.mn_memory_size 0 in
    let h = bytes_of_header (region_header cfg) in
    let len = length-bytes_of_header (region_header cfg) in
    sym (header_of_bytes-front (write_range zeros 0 h))
    ∙ ap header_of_bytes (
        read-write_sized zeros 0 h 88 len
          (omega (arith, length-replicate {A = ℕ} cfg.mn_memory_size 0)))
    ∙ header_of_bytes-bytes_of_header (region_header cfg) f

-- A region that carries the header of a configuration and holds the slots that it counts.
pub record IsOpenFor (cfg : Config) (r : Region) : Type 0 where
  pub mapped : IsMapped r
  pub header : header_of r ≡ region_header cfg
  pub layout : LayoutFits (region_header cfg) r.mapped_bytes

fresh_region-IsOpenFor :
    (cfg : Config)
    → cfg.mn_memory_size < u64_mod
    → header_bytes + config_slots cfg * slot_bytes ≤ cfg.mn_memory_size
    → cfg.node_id < u32_mod
    → cfg.max_value < u64_mod
    → IsOpenFor cfg (fresh_region cfg)
unfolding fresh_region region_header
fresh_region-IsOpenFor cfg size inside node value =
    let zeros =
      length-write_range (replicate cfg.mn_memory_size 0) 0 (bytes_of_header (region_header cfg)) in
    record {
      mapped = record {
        mapped = zeros ∙ length-replicate {A = ℕ} cfg.mn_memory_size 0;
        small = size;
      };
      header =
          fresh_region-header cfg (omega arith)
            (region_header-HeaderFits cfg node value size (omega arith));
      layout = record { inside = inside; small = size };
    }

-- Whatever region opens for a configuration whose slots were resolved is mapped, carries the header of
-- the configuration, and holds all the slots that this header counts, provided that the numbers of the
-- configuration fit their types and that the counts did not wrap.
pub region_open-IsOpenFor :
    (os : Os) (asked cfg : Config) (r : Region)
    → asked.mn_memory_size < u64_mod
    → config_slots asked < u64_mod
    → cfg.node_id < u32_mod
    → cfg.max_value < u64_mod
    → resolve_mn_slots asked ≡ some cfg
    → region_open os cfg ≡ some r
    → IsOpenFor cfg r
region_open-IsOpenFor os asked cfg r size slots node value resolves opens =
    let done = resolve_mn_slots-Resolved asked cfg size slots resolves in
    let inside = done.inside in
    let same_memory = done.same_memory in
    let same = region_open_fresh os cfg r opens in
    let fresh : IsOpenFor cfg (fresh_region cfg) =
      fresh_region-IsOpenFor cfg (omega arith) (omega arith) node value in
    rw same at fresh
