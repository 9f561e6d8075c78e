-- ===== src/Region/Evict/Loop.antt =====
-- The loop of `td_region_evict_if_needed` (src/layout.c): a round, and enough rounds.
use tee_dist.Base.{
  ℕ, zero, suc, ◌+◌, ◌-◌, ◌<◌, ◌≤◌, ◌≡◌, inl, inr, refl, ap, ◌∙◌, arith, true, false, Bool-cases,
  some,
}
use native.Mathlib.Nat.{mod-lt, mod-eq_of_lt}
use tee_dist.Region.{
  RegionHeader, cache, Region, header_of, slot_offset_for_index, kind_base_offset,
}
use tee_dist.Region.Commit.{slot_at}
use tee_dist.Region.Evict.{
  is_valid, clear_slot, advance_cursor, cursor_offset, evict_round, evict_loop,
}
use tee_dist.Region.Evict.Window.{window, window-mod, window-first, window-agree, count_of}
use tee_dist.Region.Evict.Kept.{
  IsReady, valid_at, Evicted, Evicted-refl, Evicted-trans, advance_cursor-Evicted,
  advance_cursor_cursor, advance_cursor_same,
}
use tee_dist.Region.Evict.Clear.{clear_slot-Evicted, clear_slot_ahead, clear_slot_cursor}

evict_round_valid :
    (target : ℕ) (r : Region)
    → is_valid (slot_at r.memory (cursor_offset r)) ≡ true
    → evict_round target r ≡ (target - 1, advance_cursor (clear_slot r (cursor_offset r)))
unfolding evict_round
evict_round_valid target r valid = rw valid refl

pub evict_round_invalid :
    (target : ℕ) (r : Region)
    → is_valid (slot_at r.memory (cursor_offset r)) ≡ false
    → evict_round target r ≡ (target, advance_cursor r)
unfolding evict_round
evict_round_invalid target r invalid = rw invalid refl

module _ (h : RegionHeader) where
  -- How many of the next `n` slots at the cursor are valid.
  abbrev pub ahead : Region → ℕ → ℕ
  ahead r n = window h.cache_slot_count (valid_at h r) (header_of r).eviction_cursor n

  -- Moving the cursor on leaves the next slots.
  ahead-advance :
      (r : Region) (n : ℕ)
      → IsReady h r
      → ahead (advance_cursor r) n
        ≡ window h.cache_slot_count (valid_at h r) (suc (header_of r).eviction_cursor) n
  ahead-advance r n ready =
      let next = advance_cursor_cursor h r ready in
      ap (λ c. window h.cache_slot_count (valid_at h (advance_cursor r)) c n) next
      ∙ window-mod h.cache_slot_count (valid_at h (advance_cursor r))
          (suc (header_of r).eviction_cursor) n
      ∙ window-agree h.cache_slot_count _ _ _ n (λ k lt.
        ap is_valid (advance_cursor_same h r _ ready (mod-lt _ (omega (arith, ready.cursor)))))

  -- The cursor is at a slot of the layout.
  pub cursor_offset_lem :
      (r : Region)
      → IsReady h r
      → cursor_offset r ≡ slot_offset_for_index h cache (header_of r).eviction_cursor
  unfolding cursor_offset slot_offset_for_index kind_base_offset
  cursor_offset_lem r ready = rw (ready.primes, ready.caches, mod-eq_of_lt ready.cursor) refl

  -- The next slot, and those behind it.
  pub ahead_first :
      (r : Region) (n : ℕ)
      → IsReady h r
      → ahead r (suc n)
        ≡ count_of (valid_at h r (header_of r).eviction_cursor)
          + window h.cache_slot_count (valid_at h r) (suc (header_of r).eviction_cursor) n
  ahead_first r n ready =
      rw (mod-eq_of_lt ready.cursor) at
        (window-first h.cache_slot_count (valid_at h r) (header_of r).eviction_cursor n)

  pub Evicted-count : (r s : Region) (m n : ℕ) → m ≡ n → Evicted h r s m → Evicted h r s n
  Evicted-count r s m n e cleared = rw e at cleared

  -- One round: it clears `k` slots, and the valid slots ahead are those that were, less these.
  evict_round_lem :
      (target : ℕ) (r : Region) (n : ℕ)
      → IsReady h r
      → n < h.cache_slot_count
      → 0 < target
      → (k : ℕ) × Evicted h r (evict_round target r).1 k
        × ((evict_round target r).0 + k ≡ target)
        × (ahead (evict_round target r).1 n + k ≡ ahead r (suc n))
  evict_round_lem target r n ready small more =
      let c = (header_of r).eviction_cursor in
      let off = cursor_offset_lem r ready in
      let first = ahead_first r n ready in
      elim (Bool-cases (is_valid (slot_at r.memory (cursor_offset r)))) [
        | inl valid ↦
            let here : valid_at h r c ≡ true = rw off at valid in
            let r₁ = clear_slot r (slot_offset_for_index h cache c) in
            let cleared = clear_slot-Evicted h r c ready ready.cursor here in
            let moved = advance_cursor-Evicted h r₁ cleared.ready in
            let next = ahead-advance r₁ n cleared.ready in
            let same = clear_slot_cursor h r c ready ready.cursor in
            let rest = clear_slot_ahead h r c n ready ready.cursor small in
            let was = rw here at first in
            let is = rw (same, rest) at next in
            rw (evict_round_valid target r valid, off)
              (
                1,
                Evicted-trans h r r₁ (advance_cursor r₁) 1 0 cleared moved,
                omega arith,
                omega (arith, was, is),
              )
        | inr invalid ↦
            let here : valid_at h r c ≡ false = rw off at invalid in
            let was = rw here at first in
            rw (evict_round_invalid target r invalid) (
              0,
              advance_cursor-Evicted h r ready,
              omega arith,
              omega (arith, was, ahead-advance r n ready),
            )
      ]

  -- As many rounds as there are slots left suffice, if enough of these slots are valid.
  pub evict_loop_lem :
      (fuel target : ℕ) (r : Region)
      → IsReady h r
      → fuel ≤ h.cache_slot_count
      → target ≤ ahead r fuel
      → (r' : Region) × (evict_loop fuel target r ≡ some r') × Evicted h r r' target
  unfolding evict_loop window
  evict_loop_lem fuel zero r ready small enough = (r, refl, Evicted-refl h r ready)
  evict_loop_lem zero (suc target) r ready small enough = absurd (omega arith)
  evict_loop_lem (suc fuel) (suc target) r ready small enough =
      let (k, cleared, left, rest) =
        evict_round_lem (suc target) r fuel ready small (omega arith) in
      let sum : k + (evict_round (suc target) r).0 ≡ suc target = omega arith in
      let (r₂, done, more) =
        evict_loop_lem fuel (evict_round (suc target) r).0 (evict_round (suc target) r).1
          cleared.ready (omega arith) (omega arith) in
      (
        r₂,
        done,
        Evicted-count r r₂ _ _ sum
            (Evicted-trans h r _ r₂ k (evict_round (suc target) r).0 cleared more),
      )
