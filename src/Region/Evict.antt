-- ===== src/Region/Evict.antt =====
-- Evicting cache slots: `td_region_evict_if_needed` (src/layout.c).
pub mod Window
pub mod Header
pub mod Kept
pub mod Clear
pub mod Loop
pub mod Ends
pub mod Stuck
use tee_dist.Base.{
  ℕ, zero, suc, ◌-◌, ◌/◌, ◌%◌, ◌==◌, ltb, if◌then◌else◌, not, Bool, Option, none, some, Bytes,
  bit_and, to_le, replicate, write_range, add64, mul64,
}
use tee_dist.Region.{Slot, cache, Region, flag_valid, slot_bytes, header_of, slot_offset_for_index}
use tee_dist.Region.Commit.{slot_at}
use tee_dist.Region.Usage.{count_cache_usage}

-- `(slot->flags & TD_SLOT_FLAG_VALID) != 0`
unfoldable pub is_valid : Slot → Bool
is_valid s = not (bit_and s.flags flag_valid == 0)

-- The bytes of a slot that was cleared.
unfoldable pub zero_bytes : Bytes
zero_bytes = replicate slot_bytes 0

-- `memset(slot, 0, sizeof(*slot))`
unfoldable pub clear_slot : Region → ℕ → Region
clear_slot r off = record r { memory = write_range r.memory off zero_bytes }

-- The cursor of the header, moved on by one modulo the number of cache slots.
unfoldable pub advance_cursor : Region → Region
advance_cursor r =
    let h = header_of r in
    record r {
      memory = write_range r.memory 64 (to_le 8 (add64 h.eviction_cursor 1 % h.cache_slot_count));
    }

-- The offset of the slot that the cursor is at.
unfoldable pub cursor_offset : Region → ℕ
cursor_offset r =
    let h = header_of r in slot_offset_for_index h cache (h.eviction_cursor % h.cache_slot_count)

-- The body of the loop: the target and the region afterwards.
unfoldable pub evict_round : ℕ → Region → ℕ × Region
unfolding cursor_offset is_valid clear_slot advance_cursor
evict_round target r =
    let off = cursor_offset r in
    if is_valid (slot_at r.memory off)
    then (target - 1, advance_cursor (clear_slot r off))
    else (target, advance_cursor r)

-- The loop, for as many rounds as the fuel has; `none` if slots are still to be evicted then.
unfoldable pub evict_loop : ℕ → ℕ → Region → Option Region
unfolding evict_round
evict_loop fuel zero r = some r
evict_loop zero (suc target) r = none
evict_loop (suc fuel) (suc target) r =
    let (target', r') = evict_round (suc target) r in evict_loop fuel target' r'

-- How many slots are evicted if `used` slots are in use.
unfoldable pub evict_target : ℕ → ℕ
evict_target used = let target = used / 4 in if target == 0 then 1 else target

-- The last recount.
unfoldable pub recount : Option Region → Option Region
unfolding count_cache_usage
recount none = none
recount (some r) = some (count_cache_usage r).1

-- `td_region_evict_if_needed`, on fuel.
unfoldable pub evict_if_needed : ℕ → Region → ℕ → Option Region
unfolding count_cache_usage evict_target evict_loop recount
evict_if_needed fuel r threshold_pct =
    let total = (header_of r).cache_slot_count in
    let (used, counted) = count_cache_usage r in
    if total == 0
    then some r
    else if ltb (mul64 used 100) (mul64 threshold_pct total)
    then some counted
    else recount (evict_loop fuel (evict_target used) counted)
