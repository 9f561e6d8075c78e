-- ===== src/Region/Evict/Ends.antt =====
-- When `td_region_evict_if_needed` (src/layout.c) ends, and what it evicts then.
use tee_dist.Base.{
  ℕ, zero, suc, ◌+◌, ◌*◌, ◌%◌, ◌<◌, ◌≤◌, ◌≡◌, ◌⊎◌, inl, inr, refl, ap, ◌∙◌, arith, Option, some,
  if◌then◌else◌, ltb, ◌==◌, u64_mod, mul64,
}
use native.Mathlib.Decide.{dec_lt}
use native.Mathlib.Nat.{mul-pos, mod-eq_of_lt}
use tee_dist.Region.{
  RegionHeader, cache, Slot, Region, header_of, slot_offset_for_index, kind_base_offset,
}
use tee_dist.Region.Usage.{is_used, count_cache_usage, used_from, used_from-le}
use tee_dist.Region.Evict.{is_valid, evict_loop, evict_target, evict_if_needed, recount}
use tee_dist.Region.Evict.Window.{window, window_turn, count_of}
use tee_dist.Region.Evict.Kept.{
  IsReady, slot_of, valid_at, Evicted, Evicted-trans, count_cache_usage-Evicted,
}
use tee_dist.Region.Evict.Loop.{ahead, Evicted-count, evict_loop_lem}

used_valid :
    (s : Slot) (used : ℕ) → (if is_used s then used + 1 else used) ≤ used + count_of (is_valid s)
unfolding is_used is_valid
used_valid s used = ground arith

pub evict_target_positive : (used : ℕ) → 0 < evict_target used
unfolding evict_target
evict_target_positive used = ground arith

evict_target_bounds : (used : ℕ) → 0 < used → (0 < evict_target used) × (evict_target used ≤ used)
unfolding evict_target
evict_target_bounds used some_used = ground arith

module _ (h : RegionHeader) where
  slot_offset_same :
      (r : Region) (i : ℕ)
      → (header_of r).prime_slot_count ≡ h.prime_slot_count
      → slot_offset_for_index (header_of r) cache i ≡ slot_offset_for_index h cache i
  unfolding slot_offset_for_index kind_base_offset
  slot_offset_same r i primes = rw primes refl

  -- A slot in use is valid.
  used_from-window :
      (r : Region) (n idx used : ℕ)
      → (header_of r).prime_slot_count ≡ h.prime_slot_count
      → idx + n ≤ h.cache_slot_count
      → used_from r n idx used ≤ used + window h.cache_slot_count (valid_at h r) idx n
  unfolding used_from window
  used_from-window r zero idx used primes small = omega arith
  used_from-window r (suc n) idx used primes small =
      let same = slot_offset_same r idx primes in
      let slot = slot_of h r cache idx in
      let here : valid_at h r (idx % h.cache_slot_count) ≡ is_valid slot =
        ap (valid_at h r) (mod-eq_of_lt (omega arith)) in
      let next : idx + 1 ≡ suc idx = omega arith in
      let rest =
        used_from-window r n (suc idx) (if is_used slot then used + 1 else used) primes
          (omega arith) in
      rw (same, here, next) (omega (arith, rest, used_valid slot used))

recount-some : (r : Region) → recount (some r) ≡ some (count_cache_usage r).1
unfolding recount
recount-some r = refl

used_cache : (r : Region) → (count_cache_usage r).0 ≡ used_from r (header_of r).cache_slot_count 0 0
unfolding count_cache_usage
used_cache r = refl

-- After the count the loop has enough to clear.
evict_counted :
    (r : Region)
    → IsReady (header_of r) r
    → 0 < (count_cache_usage r).0
    → (r' : Region) × (recount (
          evict_loop
            (header_of r).cache_slot_count
            (evict_target (count_cache_usage r).0)
            (count_cache_usage r).1)
        ≡ some r')
      × Evicted (header_of r) r r' (evict_target (count_cache_usage r).0)
evict_counted r ready some_used =
    let h = header_of r in
    let used = (count_cache_usage r).0 in
    let r₁ = (count_cache_usage r).1 in
    let counted = count_cache_usage-Evicted h r ready in
    let bounds = evict_target_bounds used some_used in
    let window_all = used_from-window h r h.cache_slot_count 0 0 refl (omega arith) in
    let turn = window_turn h.cache_slot_count (valid_at h r₁) (header_of r₁).eviction_cursor in
    let enough : evict_target used ≤ ahead h r₁ h.cache_slot_count =
      omega (arith, bounds.1, used_cache r, window_all, turn, counted.freed) in
    let (r₂, done, cleared) =
      evict_loop_lem h h.cache_slot_count (evict_target used) r₁ counted.ready (omega arith)
        enough in
    let again = count_cache_usage-Evicted h r₂ cleared.ready in
    (
      (count_cache_usage r₂).1,
      rw done (recount-some r₂),
      Evicted-count h r _ _ _ (omega arith) (
          Evicted-trans h r r₂ _ (0 + evict_target used) 0
            (Evicted-trans h r r₁ r₂ 0 (evict_target used) counted cleared) again),
    )

-- The branches of the function.
second_branch :
    (total a b : ℕ) (x y z : Option Region)
    → 0 < total
    → a < b
    → (if total == 0 then x else if ltb a b then y else z) ≡ y
second_branch total a b x y z some_slots below = ground arith

pub third_branch :
    (total a b : ℕ) (x y z : Option Region)
    → 0 < total
    → b ≤ a
    → (if total == 0 then x else if ltb a b then y else z) ≡ z
third_branch total a b x y z some_slots above = ground arith

module _ (r : Region) (threshold_pct : ℕ) (some_slots : 0 < (header_of r).cache_slot_count) where
  evict_below :
      mul64 (count_cache_usage r).0 100 < mul64 threshold_pct (header_of r).cache_slot_count
      → evict_if_needed (header_of r).cache_slot_count r threshold_pct
        ≡ some (count_cache_usage r).1
  unfolding evict_if_needed
  evict_below below = second_branch _ _ _ _ _ _ some_slots below

  evict_above :
      mul64 threshold_pct (header_of r).cache_slot_count ≤ mul64 (count_cache_usage r).0 100
      → evict_if_needed (header_of r).cache_slot_count r threshold_pct
        ≡ recount (
            evict_loop
              (header_of r).cache_slot_count
              (evict_target (count_cache_usage r).0)
              (count_cache_usage r).1)
  unfolding evict_if_needed
  evict_above above = third_branch _ _ _ _ _ _ some_slots above

-- What decides whether slots are evicted, and how many.
abbrev pub EvictedCount : Region → ℕ → ℕ → Type 0
EvictedCount r threshold_pct n =
    ((((count_cache_usage r).0 * 100 < threshold_pct * (header_of r).cache_slot_count) × (n ≡ 0))
      ⊎ ((threshold_pct * (header_of r).cache_slot_count ≤ (count_cache_usage r).0 * 100)
          × (n ≡ evict_target (count_cache_usage r).0)))

-- In a mapped region whose header counts slots that lie inside, whose cursor is at a cache slot, and with
-- a threshold above zero whose product with the number of cache slots does not wrap, as many rounds as
-- there are cache slots suffice. The region is ready again; no PRIME and no BACKUP slot is changed; each
-- cache slot is as before, or it was valid and is zeros. The number of valid cache slots has become less by
-- `n`: 0 if the slots in use are below the threshold, and else a quarter of them, or 1.
pub evict_if_needed_ends :
    (r : Region) (threshold_pct : ℕ)
    → IsReady (header_of r) r
    → 0 < threshold_pct
    → threshold_pct * (header_of r).cache_slot_count < u64_mod
    → (r' : Region) × (n : ℕ) × (evict_if_needed (header_of r).cache_slot_count r threshold_pct
        ≡ some r')
      × Evicted (header_of r) r r' n
      × EvictedCount r threshold_pct n
evict_if_needed_ends r threshold_pct ready positive small =
    let h = header_of r in
    let used = (count_cache_usage r).0 in
    let bound : used ≤ h.cache_slot_count =
      omega (arith, used_cache r, used_from-le r h.cache_slot_count 0 0) in
    let inside = ready.layout.inside in
    let fits = ready.layout.small in
    let cursor = ready.cursor in
    let some_slots : 0 < h.cache_slot_count = omega arith in
    let reached = mul-pos positive some_slots in
    elim (dec_lt (used * 100) (threshold_pct * h.cache_slot_count)) [
      | yes below ↦ (
        (count_cache_usage r).1,
        0,
        evict_below r threshold_pct some_slots (omega arith),
        count_cache_usage-Evicted h r ready,
        inl (below, refl),
      )
      | no above ↦
          let (r', done, cleared) = evict_counted r ready (omega arith) in
          (
            r',
            evict_target used,
            evict_above r threshold_pct some_slots (omega arith) ∙ done,
            cleared,
            inr (omega arith, refl),
          )
    ]
