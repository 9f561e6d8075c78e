-- ===== src/Cluster/Commits.antt =====
-- What `td_fetch_slot_at` and `td_commit_slot_at` (src/cluster.c) do to regions that fit.
use tee_dist.Base.{
  ℕ, ◌+◌, ◌<◌, add64, ◌≡◌, ◌≢◌, sym, ap, ◌∙◌, arith, some, length, set, length-set, u64_mod,
}
use native.Mathlib.Decide.{ℕ_discrete}
use tee_dist.Region.{
  Slot, RegionKind, Region, body_start, body_bytes, kind_slot_count, slot_offset_for_index,
  read_bytes, write_bytes, cas64,
}
use tee_dist.Region.Codec.{SlotFits}
use tee_dist.Region.Access.{IsMapped, swapped}
use tee_dist.Region.Geometry.{LayoutFits, slots_before, slot_in_bounds, slots_disjoint}
use tee_dist.Region.Commit.{slot_at, commit_lem}
use tee_dist.Cluster.Monad.{Cluster, session_header, session_count, ok}
use tee_dist.Cluster.Probe.{fetch_slot_at}
use tee_dist.Cluster.Commit.{commit_slot_at}
use tee_dist.Cluster.Local.{
  World, node, no_region, put_region, put_swapped, local, get_or-set_self, get_or-set_other,
  WorldFits, view,
}

module _ (c : Cluster) (w : World) (fits : WorldFits c w) (session : ℕ)
    (there : session < session_count c) (kind : RegionKind) where
  -- Every slot of the layout can be fetched; fetching changes nothing.
  pub fetch_slot_at-view :
      (i : ℕ)
      → i < kind_slot_count (session_header c session) kind
      → fetch_slot_at local c session kind i w ≡ (ok (view c w session kind i), w)
  unfolding fetch_slot_at slot_at read_bytes
  fetch_slot_at-view i lt =
      let n = fits.nodes session there in
      let off = slot_offset_for_index (session_header c session) kind i in
      let bounds =
        slot_in_bounds (session_header c session) kind i (node w session).mapped_bytes n.layout
          lt in
      let small = n.layout.small in ground arith

-- The two calls of a commit, once it is known what they return.
commit_run :
    (c : Cluster) (w : World) (session : ℕ) (kind : RegionKind) (i : ℕ) (s : Slot)
    (compare seen : ℕ) (r₁ r₂ : Region)
    → session < length w
    → let off = slot_offset_for_index (session_header c session) kind i in
      off + 8 < u64_mod
      → write_bytes (node w session) (off + 8) (body_bytes s) ≡ some r₁
      → cas64 r₁ off compare s.visible_epoch ≡ some (seen, r₂)
      → commit_slot_at local c session kind i s compare w
        ≡ (ok seen, set (set w session r₁) session r₂)
unfolding commit_slot_at put_region put_swapped
commit_run c w session kind i s compare seen r₁ r₂ there small writes swaps =
    let off = slot_offset_for_index (session_header c session) kind i in
    let plain : add64 off body_start ≡ off + 8 = omega arith in
    rw (plain, writes, get_or-set_self w session r₁ no_region there, swaps)

-- The world after the two writes to one node.
module _ (w : World) (session : ℕ) (r₁ r₂ : Region) where
  abbrev world_after : World
  world_after = set (set w session r₁) session r₂

  node_after : session < length w → node world_after session ≡ r₂
  node_after there =
      get_or-set_self (set w session r₁) session r₂ no_region (rw (length-set w session r₁) there)

  node_other : (other : ℕ) → session ≢ other → node world_after other ≡ node w other
  node_other other ne =
      get_or-set_other (set w session r₁) session other r₂ no_region ne
      ∙ get_or-set_other w session other r₁ no_region ne

  world_after-WorldFits :
      (c : Cluster)
      → WorldFits c w
      → session < session_count c
      → IsMapped r₂
      → r₂.mapped_bytes ≡ (node w session).mapped_bytes
      → WorldFits c world_after
  world_after-WorldFits c fits there mapped size = record {
    sessions = length-set (set w session r₁) session r₂ ∙ length-set w session r₁ ∙ fits.sessions;
    nodes = λ i lt. elim (ℕ_discrete session i) [
      | no other ↦ rw (node_other i other) (fits.nodes i lt)
      | yes same ↦
          let here : node world_after i ≡ r₂ =
            ap (node world_after) (sym same) ∙ node_after (rw fits.sessions there) in
          let layout : LayoutFits (session_header c i) (node w i).mapped_bytes =
            (fits.nodes i lt).layout in
          let sized : (node w i).mapped_bytes ≡ r₂.mapped_bytes =
            ap (λ j. (node w j).mapped_bytes) (sym same) ∙ sym size in
          rw here (record { mapped = mapped; layout = rw sized at layout })
    ];
  }

-- What a commit does to one slot.
pub record Committed (c : Cluster) (w w' : World) (session : ℕ) (kind : RegionKind) (i : ℕ)
    (s : Slot) (compare : ℕ) : Type 0 where
  pub fits : WorldFits c w'
  pub stored : view c w' session kind i ≡ record s {
    guard_epoch = swapped (view c w session kind i).guard_epoch compare s.visible_epoch;
  }
  pub kept :
      (k : RegionKind) (j : ℕ)
      → j < kind_slot_count (session_header c session) k
      → slots_before (session_header c session) kind + i
        ≢ slots_before (session_header c session) k + j
      → view c w' session k j ≡ view c w session k j
  pub others : (other : ℕ) → session ≢ other → node w' other ≡ node w other

-- A commit to a slot of the layout returns the guard word that it found. It stores the slot, whose
-- guard word becomes the new epoch if the old one was the expected one and stays otherwise; all
-- other slots, and all other nodes, stay.
pub commit_slot_at-Committed :
    (c : Cluster) (w : World) (session : ℕ) (kind : RegionKind) (i : ℕ) (s : Slot) (compare : ℕ)
    → WorldFits c w
    → session < session_count c
    → i < kind_slot_count (session_header c session) kind
    → SlotFits s
    → (w' : World) × (commit_slot_at local c session kind i s compare w
        ≡ (ok (view c w session kind i).guard_epoch, w'))
      × Committed c w w' session kind i s compare
unfolding commit_slot_at
commit_slot_at-Committed c w session kind i s compare fits there lt sf =
    let h = session_header c session in
    let r = node w session in
    let n = fits.nodes session there in
    let off = slot_offset_for_index h kind i in
    let (behind, inside, aligned) = slot_in_bounds h kind i r.mapped_bytes n.layout lt in
    let (r₁, r₂, writes, swaps, mapped, size, stores, keeps) =
      commit_lem r off s compare n.mapped sf inside aligned in
    let in_world : session < length w = rw fits.sessions there in
    let w' = world_after w session r₁ r₂ in
    let here = node_after w session r₁ r₂ in_world in
    let small = n.layout.small in
    (
      w',
      commit_run c w session kind i s compare _ r₁ r₂ in_world (omega arith) writes swaps,
      record {
        fits = world_after-WorldFits w session r₁ r₂ c fits there mapped size;
        stored = ap (λ x. slot_at x.memory off) here ∙ stores;
        kept = λ k j lj ne.
            ap (λ x. slot_at x.memory (slot_offset_for_index h k j)) here
            ∙ keeps (slot_offset_for_index h k j)
                (slots_disjoint h k kind j i r.mapped_bytes n.layout lj lt (λ e. ne (sym e)));
        others = node_other w session r₁ r₂;
      },
    )
