-- ===== src/Cluster/Write.antt =====
-- Writing a key: `td_cluster_write_value` and the operations on top of it (src/cluster.c), with no
-- profile.
use tee_dist.Base.{
  ℕ, zero, suc, ◌+◌, ◌-◌, add64, ◌==◌, ltb, if◌then◌else◌, Bool, true, false, not, ◌&&◌, ◌||◌,
  Option, none, some, List, [], ◌∷◌, Bytes, bit_or,
}
use tee_dist.Region.{Slot, prime, backup, flag_valid, flag_tombstone}
use tee_dist.Common.{hash64_string}
use tee_dist.Crypto.{OpenSsl, make_slot}
use tee_dist.Cluster.Monad.{
  Transport, Cluster, session_count, M, pure, fail, ◌>>=◌, ◌>>◌, attempt, no_candidate,
  key_not_found, prepare_failed, consensus_lost, primary_cas_failed,
}
use tee_dist.Cluster.Probe.{Probe, slot_present, probe_slot}
use tee_dist.Cluster.Commit.{commit_slot_at, primary_session, replica_session, refresh_cache}
use tee_dist.Cluster.Votes.{Vote, evaluate_votes}

-- The vote of a backup whose commit returned `result`; `observed` is the variable of that name
-- before the commit, which a commit that fails leaves alone.
unfoldable pub vote_of : Option ℕ → ℕ → Slot → Vote
vote_of none observed candidate = record {
  success = false;
  observed_epoch = observed;
  observed_tie = candidate.tie_breaker;
}
vote_of (some epoch) observed candidate =
    if epoch == candidate.guard_epoch
    then record { success = true; observed_epoch = 0; observed_tie = 0 }
    else record { success = false; observed_epoch = epoch; observed_tie = candidate.tie_breaker }

-- `observed` after the commit.
unfoldable pub observed_after : Option ℕ → ℕ → ℕ
observed_after none observed = observed
observed_after (some epoch) observed = epoch

-- Whether a compare-and-swap that was to find `expected` did so.
unfoldable pub committed : Option ℕ → ℕ → Bool
committed none expected = false
committed (some epoch) expected = epoch == expected

-- Whether a probe shows that the primary is no longer at the old epoch.
unfoldable pub primary_changed : Option Probe → ℕ → Bool
primary_changed none old_epoch = false
primary_changed (some p) old_epoch = not p.found || not (p.slot.guard_epoch == old_epoch)

module _ {W : Type 0} (t : Transport W) (c : Cluster) where
  -- `backup_count`
  unfoldable pub backup_count : ℕ
  backup_count =
      let replica_count =
        if ltb (session_count c) c.replication then session_count c else c.replication in
      if ltb 0 replica_count then replica_count - 1 else 0

  -- `td_wait_for_primary_change`, with the attempts that are left; the caller ignores its result.
  unfoldable pub wait_for_primary_change : ℕ → ℕ → ℕ → M W Bool
  wait_for_primary_change key_hash old_epoch zero = pure false
  wait_for_primary_change key_hash old_epoch (suc n) =
      attempt (probe_slot t c (primary_session c key_hash) prime key_hash) >>= λ seen.
      elim (primary_changed seen old_epoch) [
        | true ↦ pure true
        | false ↦ λ w. wait_for_primary_change key_hash old_epoch n (t.usleep 10000 w)
      ]

  -- The loop over the backups, for those from `idx` on: a vote of each.
  unfoldable pub propose : ℕ → Slot → ℕ → ℕ → ℕ → M W (List Vote)
  propose key_hash proposal zero idx observed = pure []
  propose key_hash proposal (suc n) idx observed =
      probe_slot t c (replica_session c key_hash (idx + 1)) backup key_hash >>= λ p.
      if not p.candidate_valid then fail no_candidate else (do
        let session = replica_session c key_hash (idx + 1)
        let prior_epoch = p.candidate_slot.guard_epoch
        result ← attempt (commit_slot_at t c session backup p.candidate_index proposal prior_epoch)
        votes ← propose key_hash proposal n (idx + 1) (observed_after result observed)
        pure (vote_of result observed p.candidate_slot ∷ votes))

  -- The repair of one backup, by what a second probe of it returned.
  unfoldable pub repair_candidate : ℕ → Slot → Option Probe → M W (Unit {0})
  repair_candidate session proposal none = pure tt
  repair_candidate session proposal (some p) = if not p.candidate_valid then pure tt else (do
    _ ←
        attempt (
          commit_slot_at t c session backup p.candidate_index proposal p.candidate_slot.guard_epoch)
    pure tt)

  -- One round of the repair.
  unfoldable pub repair_one : ℕ → Slot → Vote → ℕ → M W (Unit {0})
  repair_one key_hash proposal v idx = if v.success then pure tt else (do
    let session = replica_session c key_hash (idx + 1)
    p ← attempt (probe_slot t c session backup key_hash)
    repair_candidate session proposal p)

  -- The loop of the repair over the votes from `idx` on.
  unfoldable pub repair : ℕ → Slot → List Vote → ℕ → M W (Unit {0})
  repair key_hash proposal [] idx = pure tt
  repair key_hash proposal (v ∷ votes) idx =
      repair_one key_hash proposal v idx >>= λ _. repair key_hash proposal votes (idx + 1)

  -- The commit to the primary, the repair of the backups and the refresh of the cache.
  unfoldable pub finish_write : ℕ → Probe → Slot → List Vote → ℕ → M W ℕ
  finish_write key_hash primary proposal votes rule = do
    let session = primary_session c key_hash
    let current_epoch = primary.candidate_slot.guard_epoch
    result ←
        attempt (commit_slot_at t c session prime primary.candidate_index proposal current_epoch)
    if not (committed result current_epoch)
        then fail primary_cas_failed
        else (do repair key_hash proposal votes 0; refresh_cache t c key_hash proposal; pure rule)

  -- The proposal to the backups, the rule, and what follows it.
  unfoldable pub replicate_slot : ℕ → Probe → Slot → M W ℕ
  replicate_slot key_hash primary proposal = do
    votes ← propose key_hash proposal backup_count 0 0
    let rule = evaluate_votes votes proposal.tie_breaker
    if rule == 0
        then (do
          _ ← wait_for_primary_change key_hash primary.candidate_slot.guard_epoch 50
          fail consensus_lost)
        else finish_write key_hash primary proposal votes rule

-- The flags of a proposal.
abbrev pub proposal_flags : Bool → ℕ
proposal_flags tombstone = if tombstone then bit_or flag_valid flag_tombstone else flag_valid

module _ {W : Type 0} (o : OpenSsl) (t : Transport W) (c : Cluster) where
  -- What follows the making of the slot.
  unfoldable pub with_proposal : ℕ → Probe → Option Slot → M W ℕ
  with_proposal key_hash primary none = fail prepare_failed
  with_proposal key_hash primary (some proposal) = replicate_slot t c key_hash primary proposal

  -- `td_cluster_write_value`: the rule by which the write won.
  unfoldable pub write_value : Bytes → Bytes → Bool → Bool → M W ℕ
  write_value key value update_only tombstone = do
    let key_hash = hash64_string key
    primary ← probe_slot t c (primary_session c key_hash) prime key_hash
    if update_only
          && (not primary.found || primary.tombstone || not (slot_present primary.slot key_hash))
        then fail key_not_found
        else with_proposal key_hash primary (
            make_slot o c.crypto key value (proposal_flags tombstone)
              (add64 primary.candidate_slot.guard_epoch 1))

  -- `td_cluster_write_kv`
  unfoldable pub write_kv : Bytes → Bytes → M W ℕ
  write_kv key value = write_value key value false false

  -- `td_cluster_update_kv`
  unfoldable pub update_kv : Bytes → Bytes → M W ℕ
  update_kv key value = write_value key value true false

  -- `td_cluster_delete_kv`
  unfoldable pub delete_kv : Bytes → M W ℕ
  delete_kv key = write_value key [] false true
