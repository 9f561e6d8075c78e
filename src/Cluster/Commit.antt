-- ===== src/Cluster/Commit.antt =====
-- Writing a slot: `td_commit_slot_at` and `td_refresh_cache_best_effort` (src/cluster.c).
use tee_dist.Base.{ℕ, ◌%◌, add64, if◌then◌else◌, not, Option, none, some}
use tee_dist.Region.{Slot, RegionKind, cache, body_start, body_bytes, slot_offset_for_index}
use tee_dist.Cluster.Monad.{
  Transport, Cluster, session_header, session_count, M, pure, ◌>>=◌, ◌>>◌, attempt, required,
}
use tee_dist.Cluster.Probe.{Probe, probe_slot}

-- `td_primary_session`, as the number of the session
unfoldable pub primary_session : Cluster → ℕ → ℕ
primary_session c key_hash = key_hash % session_count c

-- `td_replica_session`
unfoldable pub replica_session : Cluster → ℕ → ℕ → ℕ
replica_session c key_hash ordinal = add64 (key_hash % session_count c) ordinal % session_count c

module _ {W : Type 0} (t : Transport W) (c : Cluster) where
  -- `td_commit_slot_at`: the body first, then the guard word by compare-and-swap. The result is
  -- `*observed_epoch`.
  unfoldable pub commit_slot_at : ℕ → RegionKind → ℕ → Slot → ℕ → M W ℕ
  commit_slot_at session kind i s compare_epoch = do
    let offset = slot_offset_for_index (session_header c session) kind i
    required (t.write_region session (add64 offset body_start) (body_bytes s))
    required (t.cas64 session offset compare_epoch s.visible_epoch)

  -- The commit into the slot that the probe of the cache proposes, if it found one.
  unfoldable pub refresh_candidate : ℕ → Slot → Option Probe → M W (Unit {0})
  refresh_candidate session s none = pure tt
  refresh_candidate session s (some p) = if not p.candidate_valid then pure tt else (do
    _ ← attempt (commit_slot_at session cache p.candidate_index s p.candidate_slot.guard_epoch)
    pure tt)

  -- `td_refresh_cache_best_effort`, for the hash of its key
  unfoldable pub refresh_cache : ℕ → Slot → M W (Unit {0})
  refresh_cache key_hash s = if not c.cache_on then pure tt else (do
    let session = primary_session c key_hash
    p ← attempt (probe_slot t c session cache key_hash)
    refresh_candidate session s p)
