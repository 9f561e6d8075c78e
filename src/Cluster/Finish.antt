-- ===== src/Cluster/Finish.antt =====
-- How a write that the votes let through ends (`td_cluster_write_value`, src/cluster.c), whatever the
-- transport does and whatever other clients do between its calls.
use tee_dist.Base.{ℕ, ◌==◌, ◌≡◌, ◌≢◌, inl, inr, refl, ap, ◌∙◌, arith, Bool-cases, List}
use tee_dist.Region.{Slot, prime}
use tee_dist.Cluster.Monad.{Transport, Cluster, Result, ok, failed, Error, primary_cas_failed}
use tee_dist.Cluster.Probe.{Probe}
use tee_dist.Cluster.Commit.{commit_slot_at, primary_session}
use tee_dist.Cluster.Votes.{Vote}
use tee_dist.Cluster.Write.{committed, finish_write}
use tee_dist.Cluster.Total.{refresh-Total, repair-Total}

module _ {W : Type 0} (t : Transport W) (c : Cluster) (key_hash : ℕ) (q : Probe) (s : Slot)
    (votes : List Vote) (rule : ℕ) (w : W) where
  -- The commit of the proposal to the slot of the primary's probe, expecting the epoch that it saw.
  abbrev pub primary_commit : Result ℕ × W
  primary_commit =
      commit_slot_at t c (primary_session c key_hash) prime q.candidate_index s
        q.candidate_slot.guard_epoch w

  -- The ways to end.
  pub data Finished : Type 0 where
    wins :
        (w₁ w' : W)
        → primary_commit ≡ (ok q.candidate_slot.guard_epoch, w₁)
        → finish_write t c key_hash q s votes rule w ≡ (ok rule, w')
        → Finished
    beaten :
        (observed : ℕ) (w₁ : W)
        → primary_commit ≡ (ok observed, w₁)
        → observed ≢ q.candidate_slot.guard_epoch
        → finish_write t c key_hash q s votes rule w ≡ (failed primary_cas_failed, w₁)
        → Finished
    broken :
        (e : Error) (w₁ : W)
        → primary_commit ≡ (failed e, w₁)
        → finish_write t c key_hash q s votes rule w ≡ (failed primary_cas_failed, w₁)
        → Finished

  after_commit : (x : Result ℕ × W) → primary_commit ≡ x → Finished
  unfolding finish_write committed
  after_commit (failed e, w₁) run = broken e w₁ run (rw run refl)
  after_commit (ok observed, w₁) run =
      elim (Bool-cases (observed == q.candidate_slot.guard_epoch)) [
        | inl same ↦
            let epoch : observed ≡ q.candidate_slot.guard_epoch = ground arith in
            let (u, w₂, repaired) = (repair-Total t c key_hash s votes 0).returns w₁ in
            let (v, w₃, refreshed) = (refresh-Total t c key_hash s).returns w₂ in
            wins w₁ w₃ (run ∙ ap (λ x. (ok x, w₁)) epoch) (rw (run, same, repaired, refreshed) refl)
        | inr other ↦ beaten observed w₁ run (ground arith) (rw (run, other) refl)
      ]

-- Whatever the transport does and whatever other clients do between its calls: if the commit to the
-- primary observes the epoch that the probe saw, the write returns its rule, whatever comes of the
-- repairs and of the cache. If it observes another epoch or fails, the write fails as one whose
-- compare-and-swap failed, and nothing is done after the commit.
pub finish_write-Finished :
    {W : Type 0} (t : Transport W) (c : Cluster) (key_hash : ℕ) (q : Probe) (s : Slot)
    (votes : List Vote) (rule : ℕ) (w : W)
    → Finished t c key_hash q s votes rule w
finish_write-Finished t c key_hash q s votes rule w =
    after_commit t c key_hash q s votes rule w (primary_commit t c key_hash q s votes rule w) refl
