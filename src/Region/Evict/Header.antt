-- ===== src/Region/Evict/Header.antt =====
-- What the writes of an eviction make of the header of a region.
use tee_dist.Base.{
  ℕ, ◌+◌, ◌<◌, ◌≤◌, ◌≡◌, inl, inr, ap, arith, Bytes, to_le, from_le, length, write_range,
  length-to_le, u64_mod,
}
use tee_dist.Region.{header_bytes, header_of_bytes, word_at}
use tee_dist.Region.Access.{Apart, read-write-Apart, word_at-write_self}

word_kept :
    (m : Bytes) (off : ℕ) (bs : Bytes) (o : ℕ)
    → Apart o 8 off (length bs)
    → word_at 8 (write_range m off bs) o ≡ word_at 8 m o
unfolding word_at
word_kept m off bs o apart = ap from_le (read-write-Apart m o 8 off bs apart)

-- A write behind the header leaves it alone.
pub header_of_bytes-behind :
    (m : Bytes) (off : ℕ) (bs : Bytes)
    → header_bytes ≤ off
    → header_of_bytes (write_range m off bs) ≡ header_of_bytes m
unfolding header_of_bytes
header_of_bytes-behind m off bs behind =
    let word = λ (o : ℕ) (h : o + 8 ≤ 88). word_kept m off bs o (inl (omega arith)) in
    λ i. record {
      magic = word 0 (omega arith) i;
      version = word 8 (omega arith) i;
      node_id = word 16 (omega arith) i;
      prime_slot_count = word 24 (omega arith) i;
      cache_slot_count = word 32 (omega arith) i;
      backup_slot_count = word 40 (omega arith) i;
      max_value = word 48 (omega arith) i;
      cache_usage = word 56 (omega arith) i;
      eviction_cursor = word 64 (omega arith) i;
      cache_mode = word 72 (omega arith) i;
      region_size = word 80 (omega arith) i;
    }

-- A new usage.
pub header_of_bytes-cache_usage :
    (m : Bytes) (x : ℕ)
    → header_bytes ≤ length m
    → x < u64_mod
    → header_of_bytes (write_range m 56 (to_le 8 x))
      ≡ record (header_of_bytes m) { cache_usage = x }
unfolding header_of_bytes
header_of_bytes-cache_usage m x large fits =
    let word = word_kept m 56 (to_le 8 x) in
    λ i. record {
      magic = word 0 (inl (omega arith)) i;
      version = word 8 (inl (omega arith)) i;
      node_id = word 16 (inl (omega arith)) i;
      prime_slot_count = word 24 (inl (omega arith)) i;
      cache_slot_count = word 32 (inl (omega arith)) i;
      backup_slot_count = word 40 (inl (omega arith)) i;
      max_value = word 48 (inl (omega arith)) i;
      cache_usage = word_at-write_self m 56 x (omega arith) fits i;
      eviction_cursor = word 64 (inr (omega (arith, length-to_le 8 x))) i;
      cache_mode = word 72 (inr (omega (arith, length-to_le 8 x))) i;
      region_size = word 80 (inr (omega (arith, length-to_le 8 x))) i;
    }

-- A new cursor.
pub header_of_bytes-eviction_cursor :
    (m : Bytes) (x : ℕ)
    → header_bytes ≤ length m
    → x < u64_mod
    → header_of_bytes (write_range m 64 (to_le 8 x))
      ≡ record (header_of_bytes m) { eviction_cursor = x }
unfolding header_of_bytes
header_of_bytes-eviction_cursor m x large fits =
    let word = word_kept m 64 (to_le 8 x) in
    λ i. record {
      magic = word 0 (inl (omega arith)) i;
      version = word 8 (inl (omega arith)) i;
      node_id = word 16 (inl (omega arith)) i;
      prime_slot_count = word 24 (inl (omega arith)) i;
      cache_slot_count = word 32 (inl (omega arith)) i;
      backup_slot_count = word 40 (inl (omega arith)) i;
      max_value = word 48 (inl (omega arith)) i;
      cache_usage = word 56 (inl (omega arith)) i;
      eviction_cursor = word_at-write_self m 64 x (omega arith) fits i;
      cache_mode = word 72 (inr (omega (arith, length-to_le 8 x))) i;
      region_size = word 80 (inr (omega (arith, length-to_le 8 x))) i;
    }
