-- ===== src/Cluster/Read.antt =====
-- Reading a key: `td_cluster_read_value` and `td_cluster_read_kv` (src/cluster.c), with no profile.
use tee_dist.Base.{ℕ, ◌==◌, if◌then◌else◌, Bool, not, ◌&&◌, ◌||◌, Option, none, some, Bytes}
use tee_dist.Region.{Slot, prime, cache}
use tee_dist.Common.{hash64_string}
use tee_dist.Crypto.{OpenSsl, decode_slot}
use tee_dist.Cluster.Monad.{Transport, Cluster, M, pure, fail, ◌>>=◌, ◌>>◌, attempt, mac_failed}
use tee_dist.Cluster.Probe.{Probe, slot_present, probe_slot}
use tee_dist.Cluster.Commit.{primary_session, refresh_cache}

-- `cache_consistent`
unfoldable pub cache_consistent : ℕ → Probe → Probe → Bool
cache_consistent key_hash cached primary =
    cached.found
    && (primary.found
        && (cached.slot.guard_epoch == primary.slot.guard_epoch
            && (cached.slot.visible_epoch == primary.slot.visible_epoch
                && slot_present cached.slot key_hash)))

module _ {W : Type 0} (o : OpenSsl) (t : Transport W) (c : Cluster) where
  -- The probe of the cache, where there is a cache. Its failure is a miss.
  unfoldable pub probe_cache : ℕ → ℕ → M W (Option Probe)
  probe_cache session key_hash =
      if c.cache_on then attempt (probe_slot t c session cache key_hash) else pure none

  -- The value of a cache slot that is consistent with the primary's and that decodes.
  unfoldable pub cached_value : ℕ → Option Probe → Probe → Option Bytes
  cached_value key_hash none primary = none
  cached_value key_hash (some cached) primary =
      if cache_consistent key_hash cached primary then decode_slot o c.crypto cached.slot else none

  -- The value of a slot of the primary that was decoded; the cache is refreshed with the slot.
  unfoldable pub serve_prime : ℕ → Slot → Option Bytes → M W (Option Bytes)
  serve_prime key_hash s none = fail mac_failed
  serve_prime key_hash s (some value) = do refresh_cache t c key_hash s; pure (some value)

  -- What follows the two probes. `ok none` is a return of 0 with `*found` 0.
  unfoldable pub read_probed : ℕ → Probe → Option Bytes → M W (Option Bytes)
  read_probed key_hash primary (some value) = pure (some value)
  read_probed key_hash primary none =
      if not primary.found || not (slot_present primary.slot key_hash)
      then pure none
      else serve_prime key_hash primary.slot (decode_slot o c.crypto primary.slot)

  -- `td_cluster_read_value`
  unfoldable pub read_value : Bytes → M W (Option Bytes)
  read_value key = do
    let key_hash = hash64_string key
    let session = primary_session c key_hash
    primary ← probe_slot t c session prime key_hash
    cached ← probe_cache session key_hash
    read_probed key_hash primary (cached_value key_hash cached primary)

  -- `td_cluster_read_kv`
  unfoldable pub read_kv : Bytes → M W (Option Bytes)
  read_kv key = read_value key
