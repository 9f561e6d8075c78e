-- ===== src/Region/Access.antt =====
-- `td_region_read_bytes`, `td_region_write_bytes` and `td_region_cas64` (src/layout.c): what they
-- return, what they change and what they leave alone.
use tee_dist.Base.{
  ℕ, ltb, if◌then◌else◌, ◌+◌, ◌%◌, ◌-◌, ◌<◌, ◌≤◌, ◌==◌, ◌≡◌, ◌≢◌, ◌⊎◌, inl, inr, refl, ap, ◌∙◌,
  arith, none, some, Bool-cases, Bytes, read_range, write_range, to_le, from_le, length, u64_mod,
  length-write_range, read-write_self, read-write_sized, read-write_before, read-write_after,
  length-read_range, length-to_le, from_le-to_le,
}
use tee_dist.Region.{Region, word_at, read_bytes, write_bytes, cas64}

-- The region's memory has the size that the bounds checks use, and a `size_t` holds that size.
pub record IsMapped (r : Region) : Type 0 where
  pub mapped : length r.memory ≡ r.mapped_bytes
  pub small : r.mapped_bytes < u64_mod

-- `[o, o + n)` and `[p, p + k)` have no byte in common.
abbrev pub Apart : ℕ → ℕ → ℕ → ℕ → Type 0
Apart o n p k = (o + n ≤ p) ⊎ (p + k ≤ o)

-- A range apart from a write is unchanged.
pub read-write-Apart :
    (m : Bytes) (o n off : ℕ) (bs : Bytes)
    → Apart o n off (length bs)
    → read_range (write_range m off bs) o n ≡ read_range m o n
read-write-Apart m o n off bs (inl h) = read-write_before m o n off bs h
read-write-Apart m o n off bs (inr h) = read-write_after m o n off bs h

-- Where `offset + len` does not wrap, a read is refused exactly when it would pass the end of the
-- mapping; otherwise it returns the `len` bytes at the offset.
pub read_bytes_lem :
    (r : Region) (off len : ℕ)
    → IsMapped r
    → off + len < u64_mod
    → ((r.mapped_bytes < off + len) × (read_bytes r off len ≡ none))
      ⊎ ((off + len ≤ r.mapped_bytes)
          × (read_bytes r off len ≡ some (read_range r.memory off len))
          × (length (read_range r.memory off len) ≡ len))
unfolding read_bytes
read_bytes_lem r off len m h = elim (Bool-cases (ltb r.mapped_bytes (off + len))) [
  | inl past ↦ inl (ground arith, ground arith)
  | inr inside ↦ inr (ground arith, ground arith, length-read_range r.memory off len (ground arith))
]

-- A write inside the mapping succeeds. It keeps the mapping's size, is read back, and leaves every
-- range apart from it as it was.
pub write_bytes_lem :
    (r : Region) (off : ℕ) (bs : Bytes)
    → IsMapped r
    → off + length bs ≤ r.mapped_bytes
    → (r' : Region) × (write_bytes r off bs ≡ some r')
      × IsMapped r'
      × (read_bytes r' off (length bs) ≡ some bs)
      × ((o n : ℕ) → Apart o n off (length bs) → read_bytes r' o n ≡ read_bytes r o n)
unfolding write_bytes read_bytes
write_bytes_lem r off bs m h = (
  record r { memory = write_range r.memory off bs },
  ground arith,
  record { mapped = length-write_range r.memory off bs ∙ m.mapped; small = m.small },
  ground (arith, read-write_self r.memory off bs (omega (arith, m.mapped))),
  λ o n apart. rw (read-write-Apart r.memory o n off bs apart),
)

-- A word that was written is read back.
pub word_at-write_self :
    (m : Bytes) (off x : ℕ)
    → off + 8 ≤ length m
    → x < u64_mod
    → word_at 8 (write_range m off (to_le 8 x)) off ≡ x
unfolding word_at
word_at-write_self m off x h fits =
    ap from_le (read-write_sized m off (to_le 8 x) 8 (length-to_le 8 x) h) ∙ from_le-to_le 8 x fits

-- The word at an offset, after a compare-and-swap that observed `observed`.
abbrev pub swapped : ℕ → ℕ → ℕ → ℕ
swapped observed compare swap = if observed == compare then swap else observed

-- An aligned compare-and-swap inside the mapping succeeds and returns the word that was there. The
-- word becomes `swap` if it was `compare` and stays otherwise; every range apart from it stays.
pub cas64_lem :
    (r : Region) (off compare swap : ℕ)
    → IsMapped r
    → off + 8 ≤ r.mapped_bytes
    → off % 8 ≡ 0
    → swap < u64_mod
    → (r' : Region) × (cas64 r off compare swap ≡ some (word_at 8 r.memory off, r'))
      × IsMapped r'
      × (r'.mapped_bytes ≡ r.mapped_bytes)
      × (word_at 8 r'.memory off ≡ swapped (word_at 8 r.memory off) compare swap)
      × ((o n : ℕ) → Apart o n off 8 → read_range r'.memory o n ≡ read_range r.memory o n)
unfolding cas64
cas64_lem r off compare swap m h al fits =
    let observed = word_at 8 r.memory off in
    elim (Bool-cases (observed == compare)) [
      | inr differs ↦ (r, rw differs (ground arith), m, refl, rw differs refl, λ o n apart. refl)
      | inl same ↦ (
        record r { memory = write_range r.memory off (to_le 8 swap) },
        rw same (ground arith),
        record {
          mapped = length-write_range r.memory off (to_le 8 swap) ∙ m.mapped;
          small = m.small;
        },
        refl,
        rw same (word_at-write_self r.memory off swap (omega (arith, m.mapped)) fits),
        λ o n apart.
            read-write-Apart r.memory o n off (to_le 8 swap) (rw (length-to_le 8 swap) apart),
      )
    ]

-- The bounds check adds `offset` and `len` in a `size_t`: a pair whose sum wraps to a number inside
-- the mapping is accepted, though the range begins past its end.
pub read_bytes_wraps :
    (r : Region) (off len : ℕ)
    → u64_mod ≤ off + len
    → off + len - u64_mod ≤ r.mapped_bytes
    → off + len < u64_mod + u64_mod
    → r.mapped_bytes < off
    → read_bytes r off len ≢ none
unfolding read_bytes
read_bytes_wraps r off len w inside small past = ground arith
