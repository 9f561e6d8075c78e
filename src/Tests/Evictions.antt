-- ===== src/Tests/Evictions.antt =====
-- The witnesses of the properties of evictions.
use tee_dist.Base.{
  length, ◌∙◌, ℕ, ◌*◌, ◌<◌, ◌≡◌, refl, ap, arith, Bytes, [], ◌∷◌, none, some, replicate, read_range,
  write_range, overlay, to_le, from_le, length-write_range, u64_mod,
}
use tee_dist.Region.{
  Region, RegionHeader, header_of, header_of_bytes, bytes_of_header, word_at, slot_of_bytes,
  slot_offset_for_index, kind_base_offset,
}
use tee_dist.Region.Access.{IsMapped}
use tee_dist.Region.Geometry.{LayoutFits}
use tee_dist.Region.Commit.{slot_at}
use tee_dist.Region.Evict.{evict_if_needed, is_valid}
use tee_dist.Region.Evict.Window.{window}
use tee_dist.Region.Evict.Kept.{IsReady, Evicted, valid_slots}
use tee_dist.Region.Evict.Ends.{EvictedCount, evict_if_needed_ends}
use tee_dist.Region.Evict.Stuck.{evict_if_needed_stuck}
use tee_dist.Tests.Toy.{toy_header}

-- A region with the toy header and empty slots, and one whose cache slot is in use.
abbrev empty_memory : Bytes
empty_memory = write_range (replicate 1120 0) 0 (bytes_of_header toy_header)

abbrev empty_region : Region
empty_region = record { memory = empty_memory; mapped_bytes = 1120 }

abbrev used_region : Region
used_region = record { memory = write_range empty_memory 464 (1 ∷ []); mapped_bytes = 1120 }

header_of-empty_region : header_of empty_region ≡ toy_header
unfolding header_of_bytes word_at read_range write_range overlay bytes_of_header to_le from_le
header_of-empty_region = refl

header_of-used_region : header_of used_region ≡ toy_header
unfolding header_of_bytes word_at read_range write_range overlay bytes_of_header to_le from_le
header_of-used_region = refl

IsReady-of :
    (r : Region)
    → IsMapped r
    → r.mapped_bytes ≡ 1120
    → header_of r ≡ toy_header
    → IsReady (header_of r) r
IsReady-of r mapped size same =
    let counts = ap (λ (h : RegionHeader). h.cache_slot_count) same in
    let cursor = ap (λ (h : RegionHeader). h.eviction_cursor) same in
    let fits : LayoutFits toy_header r.mapped_bytes = record {
      inside = omega arith;
      small = omega arith;
    } in
    record {
      mapped = mapped;
      layout = rw same fits;
      primes = refl;
      caches = refl;
      backups = refl;
      cursor = omega arith;
    }

length-empty_memory : length empty_memory ≡ 1120
length-empty_memory = length-write_range (replicate 1120 0) 0 (bytes_of_header toy_header)

length-used_memory : length used_region.memory ≡ 1120
length-used_memory = length-write_range empty_memory 464 (1 ∷ []) ∙ length-empty_memory

empty_region-IsReady : IsReady (header_of empty_region) empty_region
empty_region-IsReady =
    IsReady-of empty_region (record { mapped = length-empty_memory; small = omega arith }) refl
      header_of-empty_region

used_region-IsReady : IsReady (header_of used_region) used_region
used_region-IsReady =
    IsReady-of used_region (record { mapped = length-used_memory; small = omega arith }) refl
      header_of-used_region

small_threshold : 80 * (header_of used_region).cache_slot_count < u64_mod
small_threshold = omega (arith, ap (λ (h : RegionHeader). h.cache_slot_count) header_of-used_region)

evict_if_needed_ends_example :
    (r' : Region) × (n : ℕ) × (evict_if_needed
        (header_of used_region).cache_slot_count
        used_region
        80
      ≡ some r')
    × Evicted (header_of used_region) used_region r' n
    × EvictedCount used_region 80 n
evict_if_needed_ends_example =
    evict_if_needed_ends used_region 80 used_region-IsReady (omega arith) small_threshold

none_valid : valid_slots (header_of empty_region) empty_region ≡ 0
unfolding window is_valid slot_at slot_of_bytes slot_offset_for_index kind_base_offset
    header_of_bytes word_at read_range write_range overlay bytes_of_header to_le from_le
none_valid = refl

evict_if_needed_stuck_example : evict_if_needed 7 empty_region 0 ≡ none
evict_if_needed_stuck_example =
    evict_if_needed_stuck 7 empty_region 0 empty_region-IsReady none_valid (omega arith)
