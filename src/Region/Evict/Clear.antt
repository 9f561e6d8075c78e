-- ===== src/Region/Evict/Clear.antt =====
-- What clearing a slot in `td_region_evict_if_needed` (src/layout.c) changes in a region.
use tee_dist.Base.{
  ℕ, suc, ◌+◌, ◌-◌, ◌%◌, ◌<◌, ◌≡◌, ◌≢◌, inl, inr, refl, sym, ap, ◌∙◌, arith, Bool, true, false,
  length, read_range, from_le, read-write_sized,
}
use native.Mathlib.Decide.{ℕ_discrete}
use native.Mathlib.Nat.{mod-lt, mod-eq_of_lt}
use tee_dist.Region.{
  RegionHeader, RegionKind, prime, cache, backup, Region, slot_bytes, header_of, word_at,
  slot_of_bytes, kind_slot_count, slot_offset_for_index,
}
use tee_dist.Region.Geometry.{slot_in_bounds, slots_disjoint, slots_before}
use tee_dist.Region.Commit.{slot_at, slot_at-Apart}
use tee_dist.Region.Evict.{is_valid, zero_bytes, clear_slot}
use tee_dist.Region.Evict.Window.{window, window_turn, window-first, window-agree, no_return}
use tee_dist.Region.Evict.Header.{header_of_bytes-behind}
use tee_dist.Region.Evict.Kept.{
  IsReady, empty_slot, slot_of, valid_at, valid_slots, Evicted, IsReady-write,
}

length-zero_bytes : length zero_bytes ≡ slot_bytes
unfolding zero_bytes
length-zero_bytes = refl

empty_invalid : is_valid empty_slot ≡ false
unfolding is_valid empty_slot zero_bytes slot_of_bytes word_at read_range from_le
empty_invalid = refl

module _ (h : RegionHeader) where
  -- A slot of another kind is another slot.
  other_kind :
      (k : RegionKind) (i j : ℕ)
      → k ≢ cache
      → i < h.cache_slot_count
      → j < kind_slot_count h k
      → slots_before h k + j ≢ slots_before h cache + i
  unfolding kind_slot_count
  other_kind prime i j other lt small e = omega arith
  other_kind cache i j other lt small e = other refl
  other_kind backup i j other lt small e = omega arith

  -- A slot that is not cleared.
  clear_slot_other :
      (r : Region) (i : ℕ) (k : RegionKind) (j : ℕ)
      → IsReady h r
      → i < h.cache_slot_count
      → j < kind_slot_count h k
      → slots_before h k + j ≢ slots_before h cache + i
      → slot_of h (clear_slot r (slot_offset_for_index h cache i)) k j ≡ slot_of h r k j
  unfolding clear_slot kind_slot_count
  clear_slot_other r i k j ready lt small other =
      slot_at-Apart r.memory (slot_offset_for_index h k j) (slot_offset_for_index h cache i)
        zero_bytes
        (rw length-zero_bytes
          (slots_disjoint h k cache j i r.mapped_bytes ready.layout small lt other))

  clear_slot_self :
      (r : Region) (i : ℕ)
      → IsReady h r
      → i < h.cache_slot_count
      → slot_of h (clear_slot r (slot_offset_for_index h cache i)) cache i ≡ empty_slot
  unfolding clear_slot kind_slot_count slot_at empty_slot
  clear_slot_self r i ready lt =
      let (behind, rest, aligned) = slot_in_bounds h cache i r.mapped_bytes ready.layout lt in
      ap slot_of_bytes (
        read-write_sized r.memory (slot_offset_for_index h cache i) zero_bytes slot_bytes
          length-zero_bytes (omega (arith, ready.mapped.mapped)))

  -- The next indices of the window are not the cleared one.
  pub clear_slot_ahead :
      (r : Region) (i n : ℕ)
      → IsReady h r
      → i < h.cache_slot_count
      → n < h.cache_slot_count
      → window h.cache_slot_count
          (valid_at h (clear_slot r (slot_offset_for_index h cache i)))
          (suc i)
          n
        ≡ window h.cache_slot_count (valid_at h r) (suc i) n
  unfolding kind_slot_count
  clear_slot_ahead r i n ready lt small = window-agree h.cache_slot_count _ _ (suc i) n (λ k less.
      let j = (suc i + k) % h.cache_slot_count in
      let inside : j < h.cache_slot_count = mod-lt (suc i + k) (omega arith) in
      let fresh : j ≢ i = no_return h.cache_slot_count i k lt (omega arith) in
      ap is_valid (clear_slot_other r i cache j ready lt inside (λ e. fresh (omega arith))))

  -- Clearing a valid slot leaves one valid slot less.
  clear_slot_freed :
      (r : Region) (i : ℕ)
      → IsReady h r
      → i < h.cache_slot_count
      → valid_at h r i ≡ true
      → valid_slots h (clear_slot r (slot_offset_for_index h cache i)) + 1 ≡ valid_slots h r
  clear_slot_freed r i ready lt valid =
      let r' = clear_slot r (slot_offset_for_index h cache i) in
      let n = h.cache_slot_count - 1 in
      let all : h.cache_slot_count ≡ suc n = omega arith in
      let turn = λ (v : ℕ → Bool).
        sym (window_turn h.cache_slot_count v i)
        ∙ ap (window h.cache_slot_count v i) all
        ∙ window-first h.cache_slot_count v i n in
      let here = mod-eq_of_lt lt in
      let before : valid_at h r (i % h.cache_slot_count) ≡ true = rw here valid in
      let after : valid_at h r' (i % h.cache_slot_count) ≡ false =
        ap (valid_at h r') here ∙ ap is_valid (clear_slot_self r i ready lt) ∙ empty_invalid in
      let was = rw before at (turn (valid_at h r)) in
      let is = rw after at (turn (valid_at h r')) in
      omega (arith, was, is, clear_slot_ahead r i n ready lt (omega arith))

  pub clear_slot_cursor :
      (r : Region) (i : ℕ)
      → IsReady h r
      → i < h.cache_slot_count
      → (header_of (clear_slot r (slot_offset_for_index h cache i))).eviction_cursor
        ≡ (header_of r).eviction_cursor
  unfolding clear_slot kind_slot_count
  clear_slot_cursor r i ready lt =
      let (behind, rest, aligned) = slot_in_bounds h cache i r.mapped_bytes ready.layout lt in
      let off = slot_offset_for_index h cache i in
      ap (λ (g : RegionHeader). g.eviction_cursor)
        (header_of_bytes-behind r.memory off zero_bytes behind)

  -- Clearing a valid cache slot.
  pub clear_slot-Evicted :
      (r : Region) (i : ℕ)
      → IsReady h r
      → i < h.cache_slot_count
      → valid_at h r i ≡ true
      → Evicted h r (clear_slot r (slot_offset_for_index h cache i)) 1
  unfolding clear_slot kind_slot_count
  clear_slot-Evicted r i ready lt valid =
      let (behind, rest, aligned) = slot_in_bounds h cache i r.mapped_bytes ready.layout lt in
      let off = slot_offset_for_index h cache i in
      let same = header_of_bytes-behind r.memory off zero_bytes behind in
      record {
        ready =
            IsReady-write h r off zero_bytes ready
              (ap (λ (g : RegionHeader). g.prime_slot_count) same ∙ ready.primes)
              (ap (λ (g : RegionHeader). g.cache_slot_count) same ∙ ready.caches)
              (ap (λ (g : RegionHeader). g.backup_slot_count) same ∙ ready.backups)
              (rw (ap (λ (g : RegionHeader). g.eviction_cursor) same) ready.cursor);
        size = refl;
        kept = λ k j other small.
            clear_slot_other r i k j ready lt small (other_kind k i j other lt small);
        cleared = λ j small. elim (ℕ_discrete j i) [
          | yes e ↦ inr (rw e valid, rw e (clear_slot_self r i ready lt))
          | no other ↦ inl (clear_slot_other r i cache j ready lt small (λ e. other (omega arith)))
        ];
        freed = clear_slot_freed r i ready lt valid;
      }
