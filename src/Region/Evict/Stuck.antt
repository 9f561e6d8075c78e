-- ===== src/Region/Evict/Stuck.antt =====
-- When `td_region_evict_if_needed` (src/layout.c) does not end.
use tee_dist.Base.{
  ℕ, zero, suc, ◌-◌, ◌<◌, ◌≡◌, inl, inr, refl, sym, ap, ◌∙◌, arith, false, Bool-cases, none, mul64,
}
use tee_dist.Region.{RegionHeader, Region, header_of}
use tee_dist.Region.Commit.{slot_at}
use tee_dist.Region.Usage.{count_cache_usage}
use tee_dist.Region.Evict.{
  is_valid, advance_cursor, cursor_offset, evict_round, evict_loop, evict_target, evict_if_needed,
  recount,
}
use tee_dist.Region.Evict.Window.{window, window_turn}
use tee_dist.Region.Evict.Kept.{
  IsReady, valid_at, valid_slots, count_cache_usage-Evicted, advance_cursor-Evicted,
}
use tee_dist.Region.Evict.Loop.{ahead_first, evict_round_invalid, cursor_offset_lem}
use tee_dist.Region.Evict.Ends.{evict_target_positive, third_branch}

evict_loop-none : (target : ℕ) (r : Region) → evict_loop 0 (suc target) r ≡ none
unfolding evict_loop
evict_loop-none target r = refl

evict_loop_next :
    (fuel target : ℕ) (r : Region)
    → evict_loop (suc fuel) (suc target) r
      ≡ evict_loop fuel (evict_round (suc target) r).0 (evict_round (suc target) r).1
unfolding evict_loop
evict_loop_next fuel target r = refl

evict_target-suc : (used : ℕ) → (t : ℕ) × (evict_target used ≡ suc t)
evict_target-suc used = (evict_target used - 1, omega (arith, evict_target_positive used))

-- Where the threshold's product is zero the function always evicts.
evict_from :
    (r : Region) (fuel threshold_pct : ℕ)
    → 0 < (header_of r).cache_slot_count
    → mul64 threshold_pct (header_of r).cache_slot_count ≡ 0
    → evict_if_needed fuel r threshold_pct
      ≡ recount (evict_loop fuel (evict_target (count_cache_usage r).0) (count_cache_usage r).1)
unfolding evict_if_needed
evict_from r fuel threshold_pct some_slots wraps =
    third_branch _ (mul64 (count_cache_usage r).0 100)
      (mul64 threshold_pct (header_of r).cache_slot_count) _ _ _ some_slots (omega (arith, wraps))

module _ (h : RegionHeader) where
  -- Where no slot is valid, the one at the cursor is not.
  none_valid :
      (r : Region)
      → IsReady h r
      → valid_slots h r ≡ 0
      → is_valid (slot_at r.memory (cursor_offset r)) ≡ false
  none_valid r ready empty =
      let c = (header_of r).eviction_cursor in
      let n = h.cache_slot_count - 1 in
      let all : h.cache_slot_count ≡ suc n = omega (arith, ready.cursor) in
      let turn =
        sym (ap (window h.cache_slot_count (valid_at h r) c) all)
        ∙ window_turn h.cache_slot_count (valid_at h r) c in
      let first = ahead_first h r n ready in
      elim (Bool-cases (valid_at h r c)) [
        | inl valid ↦ let one = rw valid at first in absurd (omega (arith, one, turn, empty))
        | inr invalid ↦ rw (cursor_offset_lem h r ready) invalid
      ]

  -- Then no number of rounds suffices.
  evict_loop_stuck :
      (fuel target : ℕ) (r : Region)
      → IsReady h r
      → valid_slots h r ≡ 0
      → evict_loop fuel (suc target) r ≡ none
  evict_loop_stuck zero target r ready empty = evict_loop-none target r
  evict_loop_stuck (suc fuel) target r ready empty =
      let moved = advance_cursor-Evicted h r ready in
      evict_loop_next fuel target r
      ∙ rw (evict_round_invalid (suc target) r (none_valid r ready empty)) (
          evict_loop_stuck fuel target (advance_cursor r) moved.ready
            (omega (arith, moved.freed, empty)))

recount-none : recount none ≡ none
unfolding recount
recount-none = refl

-- In a mapped region whose header counts slots that lie inside, whose cursor is at a cache slot, and none
-- of whose cache slots is valid, an eviction with a threshold whose product with the number of slots is
-- zero in 64 bits, because it is zero or because it wraps, does not end, whatever the number of rounds.
pub evict_if_needed_stuck :
    (fuel : ℕ) (r : Region) (threshold_pct : ℕ)
    → IsReady (header_of r) r
    → valid_slots (header_of r) r ≡ 0
    → mul64 threshold_pct (header_of r).cache_slot_count ≡ 0
    → evict_if_needed fuel r threshold_pct ≡ none
evict_if_needed_stuck fuel r threshold_pct ready empty wraps =
    let counted = count_cache_usage-Evicted (header_of r) r ready in
    let (target, some_target) = evict_target-suc (count_cache_usage r).0 in
    let stuck =
      evict_loop_stuck (header_of r) fuel target (count_cache_usage r).1 counted.ready
        (omega (arith, counted.freed, empty)) in
    evict_from r fuel threshold_pct (omega (arith, ready.cursor)) wraps
    ∙ ap (λ t. recount (evict_loop fuel t (count_cache_usage r).1)) some_target
    ∙ ap recount stuck
    ∙ recount-none
