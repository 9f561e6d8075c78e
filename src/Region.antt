-- ===== src/Region.antt =====
-- The memory node's region: include/td_layout.h and src/layout.c.
-- A region is one byte array that starts with the header and goes on with the PRIME, the CACHE and
-- the BACKUP slots. Every operation of the program reads and writes these bytes.
pub mod Codec
pub mod Geometry
pub mod Access
pub mod Commit
pub mod Open
pub mod Usage
pub mod Evict
use tee_dist.Base.{
  ℕ, ◌%◌, ◌==◌, if◌then◌else◌, ltb, ◌||◌, not, Option, none, some, ◌++◌, Bytes, read_range,
  write_range, to_le, from_le, length, add64, mul64,
}

-- `TD_MAX_VALUE_SIZE`
abbrev pub max_value_size : ℕ
max_value_size = 256

abbrev pub flag_valid : ℕ
flag_valid = 1

abbrev pub flag_tombstone : ℕ
flag_tombstone = 2

-- `td_region_kind_t`
pub data RegionKind : Type 0 where
  prime cache backup : RegionKind

-- `td_slot_t`
pub record Slot : Type 0 where
  pub guard_epoch : ℕ
  pub visible_epoch : ℕ
  pub key_hash : ℕ
  pub tie_breaker : ℕ
  pub flags : ℕ
  pub value_len : ℕ
  pub iv : Bytes
  pub mac : Bytes
  pub ciphertext : Bytes

-- `td_region_header_t`
pub record RegionHeader : Type 0 where
  pub magic : ℕ
  pub version : ℕ
  pub node_id : ℕ
  pub prime_slot_count : ℕ
  pub cache_slot_count : ℕ
  pub backup_slot_count : ℕ
  pub max_value : ℕ
  pub cache_usage : ℕ
  pub eviction_cursor : ℕ
  pub cache_mode : ℕ
  pub region_size : ℕ

-- `sizeof(td_region_header_t)`: eleven 8-byte fields.
abbrev pub header_bytes : ℕ
header_bytes = 88

-- `sizeof(td_slot_t)`: 32 + 8 + 16 + 32 + 256 bytes, with no padding.
abbrev pub slot_bytes : ℕ
slot_bytes = 344

-- `offsetof(td_slot_t, visible_epoch)`
abbrev pub body_start : ℕ
body_start = 8

-- The bytes of a slot behind `guard_epoch`, in the order of the struct.
unfoldable pub body_bytes : Slot → Bytes
body_bytes s =
    to_le 8 s.visible_epoch
    ++ (to_le 8 s.key_hash
        ++ (to_le 8 s.tie_breaker
            ++ (to_le 4 s.flags ++ (to_le 4 s.value_len ++ (s.iv ++ (s.mac ++ s.ciphertext))))))

-- The object representation of a slot, which the source copies as it stands in memory.
unfoldable pub bytes_of_slot : Slot → Bytes
unfolding body_bytes
bytes_of_slot s = to_le 8 s.guard_epoch ++ body_bytes s

-- A word of `n` bytes at an offset.
unfoldable pub word_at : ℕ → Bytes → ℕ → ℕ
word_at n m off = from_le (read_range m off n)

-- The slot that 344 bytes represent.
unfoldable pub slot_of_bytes : Bytes → Slot
slot_of_bytes m = record {
  guard_epoch = word_at 8 m 0;
  visible_epoch = word_at 8 m 8;
  key_hash = word_at 8 m 16;
  tie_breaker = word_at 8 m 24;
  flags = word_at 4 m 32;
  value_len = word_at 4 m 36;
  iv = read_range m 40 16;
  mac = read_range m 56 32;
  ciphertext = read_range m 88 256;
}

-- The header that the first 88 bytes represent.
unfoldable pub header_of_bytes : Bytes → RegionHeader
header_of_bytes m = record {
  magic = word_at 8 m 0;
  version = word_at 8 m 8;
  node_id = word_at 8 m 16;
  prime_slot_count = word_at 8 m 24;
  cache_slot_count = word_at 8 m 32;
  backup_slot_count = word_at 8 m 40;
  max_value = word_at 8 m 48;
  cache_usage = word_at 8 m 56;
  eviction_cursor = word_at 8 m 64;
  cache_mode = word_at 8 m 72;
  region_size = word_at 8 m 80;
}

unfoldable pub bytes_of_header : RegionHeader → Bytes
bytes_of_header h =
    to_le 8 h.magic
    ++ (to_le 8 h.version
        ++ (to_le 8 h.node_id
            ++ (to_le 8 h.prime_slot_count
                ++ (to_le 8 h.cache_slot_count
                    ++ (to_le 8 h.backup_slot_count
                        ++ (to_le 8 h.max_value
                            ++ (to_le 8 h.cache_usage
                                ++ (to_le 8 h.eviction_cursor
                                    ++ (to_le 8 h.cache_mode ++ to_le 8 h.region_size)))))))))

-- `td_local_region_t`: the mapped bytes and their number. The file descriptor, the path and the
-- mutex have no part in what the operations compute.
pub record Region : Type 0 where
  pub memory : Bytes
  pub mapped_bytes : ℕ

-- `region->header`
abbrev pub header_of : Region → RegionHeader
header_of r = header_of_bytes r.memory

-- `td_region_kind_slot_count`
unfoldable pub kind_slot_count : RegionHeader → RegionKind → ℕ
kind_slot_count h prime = h.prime_slot_count
kind_slot_count h cache = h.cache_slot_count
kind_slot_count h backup = h.backup_slot_count

-- `td_region_kind_base_offset`
unfoldable pub kind_base_offset : RegionHeader → RegionKind → ℕ
kind_base_offset h prime = header_bytes
kind_base_offset h cache = add64 header_bytes (mul64 h.prime_slot_count slot_bytes)
kind_base_offset h backup =
    add64 (add64 header_bytes (mul64 h.prime_slot_count slot_bytes))
      (mul64 h.cache_slot_count slot_bytes)

-- `td_region_slot_index`
unfoldable pub slot_index : RegionHeader → RegionKind → ℕ → ℕ
unfolding kind_slot_count
slot_index h kind key_hash =
    let count = kind_slot_count h kind in if count == 0 then 0 else key_hash % count

-- `td_region_slot_offset_for_index`, which `td_region_slot_ptr` computes too
unfoldable pub slot_offset_for_index : RegionHeader → RegionKind → ℕ → ℕ
unfolding kind_base_offset
slot_offset_for_index h kind i = add64 (kind_base_offset h kind) (mul64 i slot_bytes)

-- `td_region_slot_offset`
unfoldable pub slot_offset : RegionHeader → RegionKind → ℕ → ℕ
unfolding slot_offset_for_index slot_index
slot_offset h kind key_hash = slot_offset_for_index h kind (slot_index h kind key_hash)

-- `td_region_read_bytes`; `none` is -1. Where the end of the range wraps and the range is accepted, the
-- source copies from outside the mapping; the model then returns the bytes of the range that there are.
unfoldable pub read_bytes : Region → ℕ → ℕ → Option Bytes
read_bytes r off len =
    if ltb r.mapped_bytes (add64 off len) then none else some (read_range r.memory off len)

-- `td_region_write_bytes`; `none` is -1, and the region is then as it was.
unfoldable pub write_bytes : Region → ℕ → Bytes → Option Region
write_bytes r off bs =
    if ltb r.mapped_bytes (add64 off (length bs))
    then none
    else some (record r { memory = write_range r.memory off bs })

-- `td_region_cas64`; `none` is -1. The observed word and the region afterwards.
unfoldable pub cas64 : Region → ℕ → ℕ → ℕ → Option (ℕ × Region)
cas64 r off compare swap =
    if ltb r.mapped_bytes (add64 off 8) || not (off % 8 == 0)
    then none
    else let observed = word_at 8 r.memory off in
      if observed == compare
      then some (observed, record r { memory = write_range r.memory off (to_le 8 swap) })
      else some (observed, r)
