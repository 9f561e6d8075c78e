-- ===== src/Region/Usage.antt =====
-- Counting the cache slots in use: `td_region_count_cache_usage` (src/layout.c).
use tee_dist.Base.{
  ℕ, zero, suc, ◌+◌, ◌%◌, ◌<◌, ◌≤◌, ◌==◌, not, ◌&&◌, if◌then◌else◌, ◌≡◌, inr, ◌∙◌, refl, arith,
  Bool, Bool-cases, inl, true, bit_and-one, sym, Bytes, bit_and, to_le, write_range, length-to_le,
  length-write_range,
}
use mathlib.Core.Bool.{true≢false}
use tee_dist.Region.{
  Slot, RegionKind, cache, Region, flag_valid, header_of, header_of_bytes, word_at, kind_slot_count,
  slot_offset_for_index,
}
use tee_dist.Region.Access.{IsMapped, word_at-write_self}
use tee_dist.Region.Geometry.{LayoutFits, slot_in_bounds}
use tee_dist.Region.Commit.{slot_at, slot_at-Apart}

-- A cache slot in use: valid, and with equal epochs.
unfoldable pub is_used : Slot → Bool
is_used s = not (bit_and s.flags flag_valid == 0) && s.guard_epoch == s.visible_epoch

-- The loop, for the `n` slots from `idx` on.
unfoldable pub used_from : Region → ℕ → ℕ → ℕ → ℕ
used_from r zero idx used = used
used_from r (suc n) idx used = used_from r n (idx + 1) (
    if is_used (slot_at r.memory (slot_offset_for_index (header_of r) cache idx))
    then used + 1
    else used)

-- `td_region_count_cache_usage`: the number, and the region with the number in its header.
unfoldable pub count_cache_usage : Region → ℕ × Region
count_cache_usage r =
    let used = used_from r (header_of r).cache_slot_count 0 0 in
    (used, record r { memory = write_range r.memory 56 (to_le 8 used) })

pub used_from-le : (r : Region) (n idx used : ℕ) → used_from r n idx used ≤ used + n
unfolding used_from
used_from-le r zero idx used = omega arith
used_from-le r (suc n) idx used = ground (
  arith,
  used_from-le r n (idx + 1) (
      if is_used (slot_at r.memory (slot_offset_for_index (header_of r) cache idx))
      then used + 1
      else used),
)

header_usage : (m : Bytes) → (header_of_bytes m).cache_usage ≡ word_at 8 m 56
unfolding header_of_bytes
header_usage m = refl

-- `used` of the numbers below `n` have a property.
pub data Counted (P : ℕ → Type 0) : ℕ → ℕ → Type 0 where
  nothing : Counted P 0 0
  one_more : {n used : ℕ} → Counted P n used → P n → Counted P (n + 1) (used + 1)
  passed : {n used : ℕ} → Counted P n used → ¬ P n → Counted P (n + 1) used

-- A slot is in use if the lowest bit of its flags, TD_SLOT_FLAG_VALID, is set, and the two epoch words
-- agree.
abbrev pub InUse : Slot → Type 0
InUse s = (s.flags % 2 ≡ 1) × (s.guard_epoch ≡ s.visible_epoch)

is_used-InUse : (s : Slot) → is_used s ≡ true → InUse s
unfolding is_used
is_used-InUse s h = let bit = bit_and-one s.flags in (ground arith, ground arith)

InUse-is_used : (s : Slot) → InUse s → is_used s ≡ true
unfolding is_used
InUse-is_used s u = let bit = bit_and-one s.flags in let (odd, same) = u in ground arith

-- The loop counts the slots from `idx` up to `last`, on top of those below.
used_from-Counted :
    (r : Region) (P : ℕ → Type 0) (n idx last used : ℕ)
    → ((i : ℕ)
        → is_used (slot_at r.memory (slot_offset_for_index (header_of r) cache i)) ≡ true
        → P i)
    → ((i : ℕ)
        → P i
        → is_used (slot_at r.memory (slot_offset_for_index (header_of r) cache i)) ≡ true)
    → last ≡ idx + n
    → Counted P idx used
    → Counted P last (used_from r n idx used)
unfolding used_from
used_from-Counted r P zero idx last used to_use from_use ends before =
    let same : idx ≡ last = omega arith in rw same at before
used_from-Counted r P (suc n) idx last used to_use from_use ends before =
    elim (Bool-cases (is_used (slot_at r.memory (slot_offset_for_index (header_of r) cache idx)))) [
      | inl here ↦ rw here (
          used_from-Counted r P n (idx + 1) last (used + 1) to_use from_use (omega arith)
            (one_more before (to_use idx here)))
      | inr other ↦ rw other (
          used_from-Counted r P n (idx + 1) last used to_use from_use (omega arith)
            (passed before (λ p. true≢false (sym (from_use idx p) ∙ other))))
    ]

-- In a mapped region that holds the slots of its header, the function counts the cache slots in use,
-- the number stands in the header afterwards, and no slot of any kind is changed by it.
pub count_cache_usage_lem :
    (r : Region)
    → IsMapped r
    → LayoutFits (header_of r) r.mapped_bytes
    → Counted
        (λ i. InUse (slot_at r.memory (slot_offset_for_index (header_of r) cache i)))
        (header_of r).cache_slot_count
        (count_cache_usage r).0
      × ((header_of (count_cache_usage r).1).cache_usage ≡ (count_cache_usage r).0)
      × IsMapped (count_cache_usage r).1
      × ((k : RegionKind) (i : ℕ)
          → i < kind_slot_count (header_of r) k
          → slot_at (count_cache_usage r).1.memory (slot_offset_for_index (header_of r) k i)
            ≡ slot_at r.memory (slot_offset_for_index (header_of r) k i))
unfolding count_cache_usage
count_cache_usage_lem r m f =
    let used = used_from r (header_of r).cache_slot_count 0 0 in
    let bound = used_from-le r (header_of r).cache_slot_count 0 0 in
    let inside = f.inside in
    let small = f.small in
    (
      used_from-Counted r
          (λ i. InUse (slot_at r.memory (slot_offset_for_index (header_of r) cache i)))
          (header_of r).cache_slot_count 0 (header_of r).cache_slot_count 0
          (λ i. is_used-InUse (slot_at r.memory (slot_offset_for_index (header_of r) cache i)))
          (λ i. InUse-is_used (slot_at r.memory (slot_offset_for_index (header_of r) cache i)))
          (omega arith) nothing,
      header_usage (write_range r.memory 56 (to_le 8 used))
          ∙ word_at-write_self r.memory 56 used (omega (arith, m.mapped)) (omega arith),
      record { mapped = length-write_range r.memory 56 (to_le 8 used) ∙ m.mapped; small = m.small },
      λ k i lt.
          let (behind, rest, aligned) = slot_in_bounds (header_of r) k i r.mapped_bytes f lt in
          slot_at-Apart r.memory (slot_offset_for_index (header_of r) k i) 56 (to_le 8 used)
            (inr (omega (arith, length-to_le 8 used))),
    )
