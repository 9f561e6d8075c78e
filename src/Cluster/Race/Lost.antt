-- ===== src/Cluster/Race/Lost.antt =====
-- What a lost compare-and-swap leaves behind (`td_commit_slot_at`, src/cluster.c): the body is written
-- before it.
use tee_dist.Base.{
  ℕ, ◌+◌, ◌%◌, ◌<◌, ◌==◌, ◌≡◌, inl, inr, refl, sym, ap, ◌∙◌, arith, false, some, ltb, not, ◌||◌,
  Bool-cases, add64, u64_mod,
}
use mathlib.Core.Option.{none-ne-some, some-injective}
use mathlib.Core.Bool.{true≢false}
use tee_dist.Region.{Slot, body_start, Region, body_bytes, word_at, write_bytes, cas64}
use tee_dist.Region.Codec.{length-body_bytes}
use tee_dist.Region.Access.{write_bytes_lem, cas64_lem, swapped}
use tee_dist.Region.Commit.{slot_at, slot_at-guard, commit_lem}
use tee_dist.Cluster.Race.{
  found, stored, won, lost, Shared, update, outcome, look, store, swap, Reach, here, next,
}
use tee_dist.Cluster.Race.Winners.{Proposes, guard, IsStart, store_lem, outcome_won, outcome_lost}

-- A compare-and-swap that fails changes nothing.
cas64_miss :
    (r : Region) (off e v : ℕ) (saw : ℕ) (r' : Region)
    → cas64 r off e v ≡ some (saw, r')
    → (saw == e) ≡ false
    → r' ≡ r
unfolding cas64
cas64_miss r off e v saw r' h misses =
    elim (Bool-cases (ltb r.mapped_bytes (add64 off 8) || not (off % 8 == 0))) [
      | inl refused ↦ absurd (none-ne-some (saw, r') (rw refused at h))
      | inr fine ↦ elim (Bool-cases (word_at 8 r.memory off == e)) [
        | inl hits ↦
            let both = some-injective _ _ (rw (fine, hits) at h) in
            let same : word_at 8 r.memory off ≡ saw = ap (λ (q : ℕ × Region). q.0) both in
            absurd (true≢false (sym hits ∙ ap (λ w. w == e) same ∙ misses))
        | inr other ↦
            let both = some-injective _ _ (rw (fine, other) at h) in
            sym (ap (λ (q : ℕ × Region). q.1) both)
      ]
    ]

swapped_same : (g v : ℕ) → swapped g g v ≡ v
swapped_same g v = ground arith

-- Two clients that find the same epoch of a slot can make their steps so that the first wins the epoch
-- and the second loses it, and yet the slot is then, guard word and all, the one that the second proposed,
-- if its proposal carries the new epoch in both epoch words, as every slot that is made does.
pub loser_overwrites :
    (off : ℕ) (proposals : ℕ → ℕ → Slot) (s : Shared)
    → IsStart off s
    → Proposes proposals
    → guard off s + 1 < u64_mod
    → (proposals 1 (guard off s)).guard_epoch ≡ (proposals 1 (guard off s)).visible_epoch
    → (t : Shared) × Reach off proposals s 6 t
      × (t.pc 0 ≡ won (guard off s))
      × (t.pc 1 ≡ lost (guard off s))
      × (slot_at t.region.memory off ≡ proposals 1 (guard off s))
loser_overwrites off proposals s start ps small whole =
    let g = guard off s in
    let r = s.region in
    let mine = proposals 0 g in
    let theirs = proposals 1 g in
    let m = start.mapped in
    let fits = m.small in
    let inside = start.inside in
    let size = length-body_bytes mine (ps.fits 0 g) in
    let body_at : add64 off body_start ≡ off + 8 = omega arith in
    let (r₁, writes₁, mapped₁, reads₁, apart₁) =
      write_bytes_lem r (off + 8) (body_bytes mine) m (omega arith) in
    let stores₁ : write_bytes r (add64 off body_start) (body_bytes mine) ≡ some r₁ =
      ap (λ o. write_bytes r o (body_bytes mine)) body_at ∙ writes₁ in
    let (m₁, size₁, guard₁) = store_lem off mine r r₁ m inside (ps.fits 0 g) stores₁ in
    let (r₂, r₃, writes₂, swaps₃, m₃, size₃, slot₃, others) =
      commit_lem r₁ off theirs g m₁ (ps.fits 1 g) (omega arith) start.aligned in
    let stores₂ : write_bytes r₁ (add64 off body_start) (body_bytes theirs) ≡ some r₂ =
      ap (λ o. write_bytes r₁ o (body_bytes theirs)) body_at ∙ writes₂ in
    let same_epoch : theirs.visible_epoch ≡ mine.visible_epoch =
      ps.epoch 1 g ∙ sym (ps.epoch 0 g) in
    let next_epoch : theirs.visible_epoch ≡ g + 1 = ps.epoch 1 g ∙ omega arith in
    let swaps : cas64 r₂ off g mine.visible_epoch ≡ some (g, r₃) =
      ap (λ v. cas64 r₂ off g v) (sym same_epoch) ∙ swaps₃ ∙ ap (λ w. some (w, r₃)) guard₁ in
    let (r₄, swaps₄, m₄, size₄, word₄, keeps₄) =
      cas64_lem r₃ off g theirs.visible_epoch m₃ (omega arith) start.aligned
        (ps.fits 1 g).visible_fits in
    let whole₃ : slot_at r₃.memory off ≡ theirs =
      slot₃
      ∙ ap (λ w. record theirs { guard_epoch = w })
          (ap (λ w. swapped w g theirs.visible_epoch) guard₁
            ∙ swapped_same g theirs.visible_epoch
            ∙ sym whole) in
    let saw : word_at 8 r₃.memory off ≡ g + 1 =
      sym (slot_at-guard r₃.memory off)
      ∙ ap (λ (q : Slot). q.guard_epoch) whole₃
      ∙ whole
      ∙ next_epoch in
    let misses : (word_at 8 r₃.memory off == g) ≡ false = ground arith in
    let unchanged =
      cas64_miss r₃ off g theirs.visible_epoch (word_at 8 r₃.memory off) r₄ swaps₄ misses in
    let s₁ : Shared = record s { pc = update s.pc 0 (found g) } in
    let s₂ : Shared = record s { pc = update s₁.pc 1 (found g) } in
    let s₃ : Shared = record { region = r₁; pc = update s₂.pc 0 (stored g) } in
    let s₄ : Shared = record { region = r₂; pc = update s₃.pc 1 (stored g) } in
    let s₅ : Shared = record { region = r₃; pc = update s₄.pc 0 (outcome g g) } in
    let s₆ : Shared = record {
      region = r₄;
      pc = update s₅.pc 1 (outcome (word_at 8 r₃.memory off) g);
    } in
    let all : Reach off proposals s 6 s₆ =
      next
        (next
          (next
            (next (next (next here (look s 0 (start.idle 0))) (look s₁ 1 (start.idle 1)))
              (store s₂ 0 g r₁ refl stores₁))
            (store s₃ 1 g r₂ refl stores₂))
          (swap s₄ 0 g g r₃ refl swaps))
        (swap s₅ 1 g (word_at 8 r₃.memory off) r₄ refl swaps₄) in
    (
      s₆,
      all,
      outcome_won g g (ground arith),
      outcome_lost (word_at 8 r₃.memory off) g misses,
      ap (λ (q : Region). slot_at q.memory off) unchanged ∙ whole₃,
    )
