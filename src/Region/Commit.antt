-- ===== src/Region/Commit.antt =====
-- The two accesses of a commit on one region: the body of a slot, then its guard word.
use tee_dist.Base.{
  ℕ, ◌+◌, ◌%◌, ◌≤◌, ◌≡◌, inl, inr, sym, ap, ◌∙◌, ◌++◌, arith, some, Bytes, read_range, write_range,
  from_le, length, length-write_range, read-write_sized, read-write_before, read_range-add,
  read_range-read_range, length-read_range,
}
use tee_dist.Region.{
  Slot, slot_bytes, Region, body_bytes, slot_of_bytes, word_at, write_bytes, cas64,
}
use tee_dist.Region.Codec.{SlotFits, slot_of_bytes-body, length-body_bytes}
use tee_dist.Region.Access.{IsMapped, Apart, read-write-Apart, cas64_lem, swapped}

-- The slot whose bytes begin at an offset.
unfoldable pub slot_at : Bytes → ℕ → Slot
slot_at m off = slot_of_bytes (read_range m off slot_bytes)

module _ (m : Bytes) (off : ℕ) where
  -- A slot is its guard word and its body.
  slot_split :
      (s : Slot)
      → SlotFits s
      → off + slot_bytes ≤ length m
      → read_range m (off + 8) 336 ≡ body_bytes s
      → slot_at m off ≡ record s { guard_epoch = word_at 8 m off }
  unfolding slot_at word_at
  slot_split s f h body =
      ap slot_of_bytes (read_range-add m off 8 336 ∙ ap (λ b. read_range m off 8 ++ b) body)
      ∙ slot_of_bytes-body (read_range m off 8) s (length-read_range m off 8 (omega arith)) f

-- A slot apart from a write is unchanged.
pub slot_at-Apart :
    (m : Bytes) (o off : ℕ) (bs : Bytes)
    → Apart o slot_bytes off (length bs)
    → slot_at (write_range m off bs) o ≡ slot_at m o
unfolding slot_at
slot_at-Apart m o off bs h = ap slot_of_bytes (read-write-Apart m o slot_bytes off bs h)

pub slot_at-guard : (m : Bytes) (off : ℕ) → (slot_at m off).guard_epoch ≡ word_at 8 m off
unfolding slot_at slot_of_bytes word_at
slot_at-guard m off = ap from_le (
    read_range-read_range m off slot_bytes 0 8 (omega arith)
    ∙ ap (λ o. read_range m o 8) (omega arith))

slot_at-ranges :
    (m m' : Bytes) (o : ℕ)
    → read_range m o slot_bytes ≡ read_range m' o slot_bytes
    → slot_at m o ≡ slot_at m' o
unfolding slot_at
slot_at-ranges m m' o e = ap slot_of_bytes e

-- A range apart from another is apart from its parts.
Apart-part : (o n p k p' k' : ℕ) → Apart o n p k → p ≤ p' → p' + k' ≤ p + k → Apart o n p' k'
Apart-part o n p k p' k' (inl h) lo hi = inl (omega arith)
Apart-part o n p k p' k' (inr h) lo hi = inr (omega arith)

-- After the two accesses the slot is the new one, but for the guard word: that is the new epoch if
-- the compare-and-swap found the old one, and what it found otherwise.
pub commit_lem :
    (r : Region) (off : ℕ) (s : Slot) (compare : ℕ)
    → IsMapped r
    → SlotFits s
    → off + slot_bytes ≤ r.mapped_bytes
    → off % 8 ≡ 0
    → (r₁ : Region) × (r₂ : Region) × (write_bytes r (off + 8) (body_bytes s) ≡ some r₁)
      × (cas64 r₁ off compare s.visible_epoch ≡ some ((slot_at r.memory off).guard_epoch, r₂))
      × IsMapped r₂
      × (r₂.mapped_bytes ≡ r.mapped_bytes)
      × (slot_at r₂.memory off ≡ record s {
        guard_epoch = swapped (slot_at r.memory off).guard_epoch compare s.visible_epoch;
      })
      × ((o : ℕ) → Apart o slot_bytes off slot_bytes → slot_at r₂.memory o ≡ slot_at r.memory o)
unfolding write_bytes
commit_lem r off s compare m f h al =
    let len = length-body_bytes s f in
    let m₁ = write_range r.memory (off + 8) (body_bytes s) in
    let r₁ : Region = record r { memory = m₁ } in
    let mapped₁ : IsMapped r₁ = record {
      mapped = length-write_range r.memory (off + 8) (body_bytes s) ∙ m.mapped;
      small = m.small;
    } in
    let body₁ =
      read-write_sized r.memory (off + 8) (body_bytes s) 336 len (omega (arith, m.mapped)) in
    let guard₁ : word_at 8 m₁ off ≡ word_at 8 r.memory off =
      unfold word_at in
      ap from_le (read-write_before r.memory off 8 (off + 8) (body_bytes s) (omega arith)) in
    let old = slot_at-guard r.memory off in
    let (r₂, swaps, mapped₂, size₂, word₂, keeps) =
      cas64_lem r₁ off compare s.visible_epoch mapped₁ (omega arith) al f.visible_fits in
    let body₂ = keeps (off + 8) 336 (inr (omega arith)) ∙ body₁ in
    let split = slot_split r₂.memory off s f (omega (arith, mapped₂.mapped)) body₂ in
    (
      r₁,
      r₂,
      ground (arith, len),
      swaps ∙ ap (λ g. some (g, r₂)) (guard₁ ∙ sym old),
      mapped₂,
      size₂,
      split
          ∙ ap (λ g. record s { guard_epoch = g })
              (word₂ ∙ ap (λ g. swapped g compare s.visible_epoch) (guard₁ ∙ sym old)),
      λ o apart. slot_at-ranges r₂.memory r.memory o (
          keeps o slot_bytes
            (Apart-part o slot_bytes off 344 off 8 apart (omega arith) (omega arith))
          ∙ read-write-Apart r.memory o slot_bytes (off + 8) (body_bytes s) (
              Apart-part o slot_bytes off 344 (off + 8) (length (body_bytes s)) apart (omega arith)
                (omega arith))),
    )
