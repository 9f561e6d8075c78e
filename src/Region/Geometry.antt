-- ===== src/Region/Geometry.antt =====
-- Where the slots of a region lie (src/layout.c): inside the mapped bytes, apart from one another
-- and from the header, on 8-byte boundaries.
use tee_dist.Base.{ℕ, ◌+◌, ◌*◌, ◌%◌, ◌<◌, ◌≤◌, ◌≡◌, ◌≢◌, ◌⊎◌, arith, u64_mod}
use tee_dist.Region.{
  RegionHeader, RegionKind, prime, cache, backup, header_bytes, slot_bytes, kind_slot_count,
  slot_index, slot_offset_for_index,
}

-- The number of slots that stand in front of those of a kind.
abbrev pub slots_before : RegionHeader → RegionKind → ℕ
slots_before h prime = 0
slots_before h cache = h.prime_slot_count
slots_before h backup = h.prime_slot_count + h.cache_slot_count

abbrev pub total_slots : RegionHeader → ℕ
total_slots h = h.prime_slot_count + h.cache_slot_count + h.backup_slot_count

-- The header and all the slots lie in `n` bytes, which a `size_t` counts.
pub record LayoutFits (h : RegionHeader) (n : ℕ) : Type 0 where
  pub inside : header_bytes + total_slots h * slot_bytes ≤ n
  pub small : n < u64_mod

-- In a region that fits, no offset computation wraps: slots lie one behind another.
pub slot_offset_plain :
    (h : RegionHeader) (k : RegionKind) (i n : ℕ)
    → LayoutFits h n
    → i < kind_slot_count h k
    → slot_offset_for_index h k i ≡ header_bytes + (slots_before h k + i) * slot_bytes
unfolding slot_offset_for_index kind_slot_count
slot_offset_plain h prime i n f lt = omega arith
slot_offset_plain h cache i n f lt = omega arith
slot_offset_plain h backup i n f lt = omega arith

-- Every slot lies behind the header and inside the mapped bytes, and begins, as its guard word
-- does, on an 8-byte boundary.
pub slot_in_bounds :
    (h : RegionHeader) (k : RegionKind) (i n : ℕ)
    → LayoutFits h n
    → i < kind_slot_count h k
    → (header_bytes ≤ slot_offset_for_index h k i)
      × (slot_offset_for_index h k i + slot_bytes ≤ n)
      × (slot_offset_for_index h k i % 8 ≡ 0)
unfolding kind_slot_count
slot_in_bounds h prime i n f lt = omega (arith, slot_offset_plain h prime i n f lt)
slot_in_bounds h cache i n f lt = omega (arith, slot_offset_plain h cache i n f lt)
slot_in_bounds h backup i n f lt = omega (arith, slot_offset_plain h backup i n f lt)

-- Two different slots share no byte.
pub slots_disjoint :
    (h : RegionHeader) (j k : RegionKind) (a b n : ℕ)
    → LayoutFits h n
    → a < kind_slot_count h j
    → b < kind_slot_count h k
    → slots_before h j + a ≢ slots_before h k + b
    → (slot_offset_for_index h j a + slot_bytes ≤ slot_offset_for_index h k b)
      ⊎ (slot_offset_for_index h k b + slot_bytes ≤ slot_offset_for_index h j a)
slots_disjoint h j k a b n f la lb ne =
    grind (arith, slot_offset_plain h j a n f la, slot_offset_plain h k b n f lb)

-- The home slot of a key is a slot of the kind, wherever the kind has slots.
pub home_in_bounds :
    (h : RegionHeader) (k : RegionKind) (key_hash : ℕ)
    → 0 < kind_slot_count h k
    → slot_index h k key_hash < kind_slot_count h k
unfolding slot_index
home_in_bounds h k key_hash pos = grind arith
