-- ===== src/Cluster/Backups.antt =====
-- The proposal to the backups, their repair and the refresh of the cache leave every PRIME slot of
-- every node alone (src/cluster.c).
use tee_dist.Base.{ℕ, zero, suc, ◌+◌, ◌<◌, ◌≢◌, arith, List, [], ◌∷◌}
use tee_dist.Region.{Slot, RegionKind, prime, cache, backup, kind_slot_count}
use tee_dist.Region.Codec.{SlotFits}
use tee_dist.Cluster.Monad.{Cluster, session_header, session_count, pure, ◌>>=◌, attempt}
use tee_dist.Cluster.Probe.{probe_slot}
use tee_dist.Cluster.Commit.{
  primary_session, replica_session, refresh_candidate, refresh_cache, commit_slot_at,
}
use tee_dist.Cluster.Votes.{Vote}
use tee_dist.Cluster.Write.{observed_after, propose, repair_candidate, repair_one, repair}
use tee_dist.Cluster.Local.{local}
use tee_dist.Cluster.Quiet.{
  Quiet, bind-Quiet, pure-Quiet, fail-Quiet, attempt-Quiet, if-Quiet, commit-Quiet, probe-Quiet,
  attempt_probe-Quiet,
}

pub primary-lt :
    (c : Cluster) (key_hash : ℕ)
    → 0 < session_count c
    → primary_session c key_hash < session_count c
unfolding primary_session
primary-lt c key_hash pos = omega arith

pub replica-lt :
    (c : Cluster) (key_hash ordinal : ℕ)
    → 0 < session_count c
    → replica_session c key_hash ordinal < session_count c
unfolding replica_session
replica-lt c key_hash ordinal pos = omega arith

backup≢prime : backup ≢ prime
backup≢prime = λ e. cc

cache≢prime : cache ≢ prime
cache≢prime = λ e. cc

module _ (c : Cluster) (pos : 0 < session_count c) (key_hash : ℕ) (s : Slot)
    (fits : SlotFits s) where
  -- Proposing to the backups changes no PRIME slot, whatever comes of it.
  pub propose-Quiet :
      (n idx observed : ℕ) → Quiet c prime (propose local c key_hash s n idx observed)
  unfolding propose
  propose-Quiet zero idx observed = pure-Quiet c prime []
  propose-Quiet (suc n) idx observed =
      let session = replica_session c key_hash (idx + 1) in
      let there = replica-lt c key_hash (idx + 1) pos in
      probe-Quiet c prime session there backup key_hash _ (λ p lt.
        if-Quiet c prime _ _ _ (fail-Quiet c prime _) (
          bind-Quiet c prime _ _
            (attempt-Quiet c prime _ (
              commit-Quiet c prime session backup p.candidate_index s _ backup≢prime there lt fits))
            (λ result.
              bind-Quiet c prime _ _ (propose-Quiet n (idx + 1) (observed_after result observed))
                (λ votes. pure-Quiet c prime _))))

  module _ (session : ℕ) (there : session < session_count c) where
    -- A commit whose result is ignored.
    commit_ignored-Quiet :
        (target : RegionKind) (i compare : ℕ)
        → target ≢ prime
        → i < kind_slot_count (session_header c session) target
        → Quiet c prime
            (attempt (commit_slot_at local c session target i s compare) >>= λ _. pure tt)
    commit_ignored-Quiet target i compare ne lt =
        bind-Quiet c prime _ _
          (attempt-Quiet c prime _
            (commit-Quiet c prime session target i s compare ne there lt fits))
          (λ _. pure-Quiet c prime tt)

    repair_probed-Quiet : Quiet c prime (
        attempt (probe_slot local c session backup key_hash) >>= repair_candidate local c session s)
    unfolding repair_candidate
    repair_probed-Quiet =
        attempt_probe-Quiet c prime session there backup key_hash _ (pure-Quiet c prime tt) (λ p lt.
          if-Quiet c prime _ _ _ (pure-Quiet c prime tt)
            (commit_ignored-Quiet backup p.candidate_index _ backup≢prime lt))

    refresh_probed-Quiet : Quiet c prime (
        attempt (probe_slot local c session cache key_hash) >>= refresh_candidate local c session s)
    unfolding refresh_candidate
    refresh_probed-Quiet =
        attempt_probe-Quiet c prime session there cache key_hash _ (pure-Quiet c prime tt) (λ p lt.
          if-Quiet c prime _ _ _ (pure-Quiet c prime tt)
            (commit_ignored-Quiet cache p.candidate_index _ cache≢prime lt))

  -- Repairing the backups changes no PRIME slot.
  pub repair-Quiet :
      (votes : List Vote) (idx : ℕ) → Quiet c prime (repair local c key_hash s votes idx)
  unfolding repair repair_one
  repair-Quiet [] idx = pure-Quiet c prime tt
  repair-Quiet (v ∷ votes) idx =
      bind-Quiet c prime _ _
        (if-Quiet c prime _ _ _ (pure-Quiet c prime tt) (
          repair_probed-Quiet (replica_session c key_hash (idx + 1))
            (replica-lt c key_hash (idx + 1) pos)))
        (λ _. repair-Quiet votes (idx + 1))

  -- Refreshing the cache changes no PRIME slot.
  pub refresh-Quiet : Quiet c prime (refresh_cache local c key_hash s)
  unfolding refresh_cache
  refresh-Quiet =
      if-Quiet c prime _ _ _ (pure-Quiet c prime tt)
        (refresh_probed-Quiet (primary_session c key_hash) (primary-lt c key_hash pos))
