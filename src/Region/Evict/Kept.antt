-- ===== src/Region/Evict/Kept.antt =====
-- What the steps of `td_region_evict_if_needed` (src/layout.c) change in a region.
use tee_dist.Base.{
  ℕ, suc, ◌+◌, ◌%◌, ◌<◌, ◌≤◌, ◌≡◌, ◌≢◌, ◌⊎◌, inl, inr, refl, sym, ap, ◌∙◌, arith, Bool, true, Bytes,
  to_le, length-to_le, write_range, length-write_range, add64,
}
use native.Mathlib.Nat.{mod-lt}
use tee_dist.Region.{
  RegionHeader, RegionKind, cache, Slot, Region, header_bytes, header_of, header_of_bytes,
  slot_of_bytes, kind_slot_count, slot_offset_for_index,
}
use tee_dist.Region.Access.{IsMapped}
use tee_dist.Region.Geometry.{LayoutFits, slot_in_bounds}
use tee_dist.Region.Commit.{slot_at, slot_at-Apart}
use tee_dist.Region.Usage.{count_cache_usage, used_from, used_from-le}
use tee_dist.Region.Evict.{is_valid, zero_bytes, advance_cursor}
use tee_dist.Region.Evict.Window.{window, window-agree}
use tee_dist.Region.Evict.Header.{header_of_bytes-cache_usage, header_of_bytes-eviction_cursor}

-- A region with the slot counts of a header, whose slots lie inside, and whose cursor is at a cache slot.
pub record IsReady (h : RegionHeader) (r : Region) : Type 0 where
  pub mapped : IsMapped r
  pub layout : LayoutFits h r.mapped_bytes
  pub primes : (header_of r).prime_slot_count ≡ h.prime_slot_count
  pub caches : (header_of r).cache_slot_count ≡ h.cache_slot_count
  pub backups : (header_of r).backup_slot_count ≡ h.backup_slot_count
  pub cursor : (header_of r).eviction_cursor < h.cache_slot_count

-- A slot of zeros.
unfoldable pub empty_slot : Slot
empty_slot = slot_of_bytes zero_bytes

abbrev pub slot_of : RegionHeader → Region → RegionKind → ℕ → Slot
slot_of h r k i = slot_at r.memory (slot_offset_for_index h k i)

abbrev pub valid_at : RegionHeader → Region → ℕ → Bool
valid_at h r i = is_valid (slot_of h r cache i)

-- The number of valid cache slots.
abbrev pub valid_slots : RegionHeader → Region → ℕ
valid_slots h r = window h.cache_slot_count (valid_at h r) 0 h.cache_slot_count

-- Between the two regions `n` valid cache slots were cleared, and no other slot was changed.
pub record Evicted (h : RegionHeader) (r r' : Region) (n : ℕ) : Type 0 where
  pub ready : IsReady h r'
  pub size : r'.mapped_bytes ≡ r.mapped_bytes
  pub kept :
      (k : RegionKind) (i : ℕ)
      → k ≢ cache
      → i < kind_slot_count h k
      → slot_of h r' k i ≡ slot_of h r k i
  pub cleared :
      (i : ℕ)
      → i < h.cache_slot_count
      → (slot_of h r' cache i ≡ slot_of h r cache i)
        ⊎ ((is_valid (slot_of h r cache i) ≡ true) × (slot_of h r' cache i ≡ empty_slot))
  pub freed : valid_slots h r' + n ≡ valid_slots h r

module _ (h : RegionHeader) where
  pub Evicted-refl : (r : Region) → IsReady h r → Evicted h r r 0
  Evicted-refl r ready = record {
    ready = ready;
    size = refl;
    kept = λ k i other lt. refl;
    cleared = λ i lt. inl refl;
    freed = omega arith;
  }

  pub Evicted-trans :
      (r s t : Region) (m n : ℕ) → Evicted h r s m → Evicted h s t n → Evicted h r t (m + n)
  Evicted-trans r s t m n first second = record {
    ready = second.ready;
    size = second.size ∙ first.size;
    kept = λ k i other lt. second.kept k i other lt ∙ first.kept k i other lt;
    cleared = λ i lt. elim (first.cleared i lt) [
      | inl same ↦ elim (second.cleared i lt) [
        | inl again ↦ inl (again ∙ same)
        | inr now ↦ inr (ap is_valid (sym same) ∙ now.0, now.1)
      ]
      | inr before ↦ elim (second.cleared i lt) [
        | inl again ↦ inr (before.0, again ∙ before.1)
        | inr now ↦ inr (before.0, now.1)
      ]
    ];
    freed = omega (arith, first.freed, second.freed);
  }

  -- What a write must leave for the region to stay ready.
  pub IsReady-write :
      (r : Region) (off : ℕ) (bs : Bytes)
      → IsReady h r
      → (header_of_bytes (write_range r.memory off bs)).prime_slot_count ≡ h.prime_slot_count
      → (header_of_bytes (write_range r.memory off bs)).cache_slot_count ≡ h.cache_slot_count
      → (header_of_bytes (write_range r.memory off bs)).backup_slot_count ≡ h.backup_slot_count
      → (header_of_bytes (write_range r.memory off bs)).eviction_cursor < h.cache_slot_count
      → IsReady h (record r { memory = write_range r.memory off bs })
  IsReady-write r off bs ready primes caches backups cursor = record {
    mapped = record {
      mapped = length-write_range r.memory off bs ∙ ready.mapped.mapped;
      small = ready.mapped.small;
    };
    layout = ready.layout;
    primes = primes;
    caches = caches;
    backups = backups;
    cursor = cursor;
  }

  -- Cache slots that look alike are valid alike.
  valid_slots-agree :
      (r s : Region)
      → ((i : ℕ) → i < h.cache_slot_count → slot_of h r cache i ≡ slot_of h s cache i)
      → valid_slots h r ≡ valid_slots h s
  valid_slots-agree r s same =
      window-agree h.cache_slot_count (valid_at h r) (valid_at h s) 0 h.cache_slot_count
        (λ k lt. ap is_valid (same ((0 + k) % h.cache_slot_count) (mod-lt (0 + k) (omega arith))))

  -- A write into the header changes no slot.
  header_write_same :
      (r : Region) (off x : ℕ)
      → IsReady h r
      → off + 8 ≤ header_bytes
      → (k : RegionKind) (i : ℕ) → i < kind_slot_count h k
      → slot_at (write_range r.memory off (to_le 8 x)) (slot_offset_for_index h k i)
        ≡ slot_of h r k i
  header_write_same r off x ready low k i lt =
      let (behind, rest, aligned) = slot_in_bounds h k i r.mapped_bytes ready.layout lt in
      slot_at-Apart r.memory (slot_offset_for_index h k i) off (to_le 8 x)
        (inr (omega (arith, length-to_le 8 x)))

  -- A write into the header that keeps the counts and a cursor.
  header_write :
      (r : Region) (off x : ℕ)
      → IsReady h r
      → off + 8 ≤ header_bytes
      → IsReady h (record r { memory = write_range r.memory off (to_le 8 x) })
      → Evicted h r (record r { memory = write_range r.memory off (to_le 8 x) }) 0
  unfolding kind_slot_count
  header_write r off x ready low ready' =
      let same = header_write_same r off x ready low in
      record {
        ready = ready';
        size = refl;
        kept = λ k i other lt. same k i lt;
        cleared = λ i lt. inl (same cache i lt);
        freed = omega (
          arith,
          valid_slots-agree (record r { memory = write_range r.memory off (to_le 8 x) }) r
              (same cache),
        );
      }

  -- Counting the cache slots in use changes no slot.
  pub count_cache_usage-Evicted : (r : Region) → IsReady h r → Evicted h r (count_cache_usage r).1 0
  unfolding count_cache_usage
  count_cache_usage-Evicted r ready =
      let used = used_from r (header_of r).cache_slot_count 0 0 in
      let bound = used_from-le r (header_of r).cache_slot_count 0 0 in
      let inside = ready.layout.inside in
      let small = ready.layout.small in
      let caches = ready.caches in
      let counted =
        header_of_bytes-cache_usage r.memory used (omega (arith, ready.mapped.mapped))
          (omega arith) in
      header_write r 56 used ready (omega arith) (
        IsReady-write r 56 (to_le 8 used) ready
          (ap (λ (g : RegionHeader). g.prime_slot_count) counted ∙ ready.primes)
          (ap (λ (g : RegionHeader). g.cache_slot_count) counted ∙ ready.caches)
          (ap (λ (g : RegionHeader). g.backup_slot_count) counted ∙ ready.backups)
          (rw (ap (λ (g : RegionHeader). g.eviction_cursor) counted) ready.cursor))

  -- The next cursor does not wrap.
  advance_value :
      (r : Region)
      → IsReady h r
      → add64 (header_of r).eviction_cursor 1 % (header_of r).cache_slot_count
        ≡ suc (header_of r).eviction_cursor % h.cache_slot_count
  advance_value r ready =
      let inside = ready.layout.inside in
      let small = ready.layout.small in
      let cursor = ready.cursor in
      let plain : add64 (header_of r).eviction_cursor 1 ≡ suc (header_of r).eviction_cursor =
        omega arith in
      rw (plain, ready.caches) refl

  -- The header with the next cursor.
  advanced :
      (r : Region)
      → IsReady h r
      → header_of (advance_cursor r) ≡ record (header_of r) {
        eviction_cursor = add64 (header_of r).eviction_cursor 1 % (header_of r).cache_slot_count;
      }
  unfolding advance_cursor
  advanced r ready =
      let inside = ready.layout.inside in
      let small = ready.layout.small in
      let positive : 0 < h.cache_slot_count = omega (arith, ready.cursor) in
      let in_range = mod-lt (suc (header_of r).eviction_cursor) positive in
      header_of_bytes-eviction_cursor r.memory _ (omega (arith, ready.mapped.mapped))
        (omega (arith, advance_value r ready))

  pub advance_cursor-Evicted : (r : Region) → IsReady h r → Evicted h r (advance_cursor r) 0
  unfolding advance_cursor
  advance_cursor-Evicted r ready =
      let written = advanced r ready in
      let positive : 0 < h.cache_slot_count = omega (arith, ready.cursor) in
      let in_range = mod-lt (suc (header_of r).eviction_cursor) positive in
      header_write r 64 _ ready (omega arith) (
        IsReady-write r 64 _ ready
          (ap (λ (g : RegionHeader). g.prime_slot_count) written ∙ ready.primes)
          (ap (λ (g : RegionHeader). g.cache_slot_count) written ∙ ready.caches)
          (ap (λ (g : RegionHeader). g.backup_slot_count) written ∙ ready.backups)
          (rw (ap (λ (g : RegionHeader). g.eviction_cursor) written ∙ advance_value r ready)
            in_range))

  pub advance_cursor_cursor :
      (r : Region)
      → IsReady h r
      → (header_of (advance_cursor r)).eviction_cursor
        ≡ suc (header_of r).eviction_cursor % h.cache_slot_count
  unfolding advance_cursor
  advance_cursor_cursor r ready =
      let written = advanced r ready in
      ap (λ (g : RegionHeader). g.eviction_cursor) written ∙ advance_value r ready

  pub advance_cursor_same :
      (r : Region) (i : ℕ)
      → IsReady h r
      → i < h.cache_slot_count
      → slot_of h (advance_cursor r) cache i ≡ slot_of h r cache i
  unfolding advance_cursor kind_slot_count
  advance_cursor_same r i ready lt = header_write_same r 64 _ ready (omega arith) cache i lt
