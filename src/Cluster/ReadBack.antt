-- ===== src/Cluster/ReadBack.antt =====
-- What a read returns after a write, an update or a deletion of the same key (src/cluster.c), with
-- the cache on or off and no other client in between.
use tee_dist.Base.{ℕ, ◌<◌, ◌≡◌, refl, arith, Bool, true, false, none, some, [], Bytes}
use tee_dist.Common.{hash64_string}
use tee_dist.Region.{Slot, flag_valid}
use tee_dist.Crypto.{OpenSsl, OpenSslLaws}
use tee_dist.Crypto.Make.{IsMade}
use tee_dist.Crypto.Open.{decode_slot-make_slot}
use tee_dist.Cluster.Monad.{Cluster, ok, session_count}
use tee_dist.Cluster.Probe.{slot_present}
use tee_dist.Cluster.Read.{cached_value, read_kv}
use tee_dist.Cluster.Write.{write_value, delete_kv}
use tee_dist.Cluster.Local.{World, local, WorldFits}
use tee_dist.Cluster.Landing.{Landed, silent, holds, refresh_cache-CacheSays}
use tee_dist.Cluster.RoundTrip.{
  proposal_matches, write_value-Written, made_present, read_prime, read_cached, read_dead,
  cached_dead,
}

module _ (o : OpenSsl) (laws : OpenSslLaws o) (c : Cluster) (pos : 0 < session_count c)
    (key : Bytes) where
  read-Landed :
      (value : Bytes) (s : Slot) (epoch : ℕ) (w : World)
      → IsMade o c.crypto key value flag_valid epoch s
      → Landed o c (hash64_string key) s w
      → (w' : World) × (read_kv o local c key w ≡ (ok (some value), w'))
  read-Landed value s epoch w m landed =
      let present = made_present o laws c pos key value epoch s m in
      let opened = decode_slot-make_slot o c.crypto key value flag_valid epoch s refl m in
      let (matches, alive, whole) = proposal_matches o laws c pos key value false epoch s m in
      elim landed.in_cache [
        | silent silence ↦
            let (w', refreshed, says) =
              refresh_cache-CacheSays o c pos (hash64_string key) s m.fits whole matches w
                landed.fits in
            (
              w',
              read_prime o laws c pos key s landed.at value w w' landed.on_prime silence present
                  opened refreshed,
            )
        | holds j hit ↦ (
          w,
          read_cached o laws c pos key s landed.at j value w landed.on_prime hit present opened,
        )
      ]

  -- After a write or an update that returned a rule, a read of the key returns the value written.
  pub write_value-read_kv :
      (value : Bytes) (update_only : Bool) (w : World) (rule : ℕ) (w' : World)
      → WorldFits c w
      → write_value o local c key value update_only false w ≡ (ok rule, w')
      → (w'' : World) × (read_kv o local c key w' ≡ (ok (some value), w''))
  write_value-read_kv value update_only w rule w' fits e =
      let done = write_value-Written o laws c pos key value update_only false w rule w' fits e in
      read-Landed value done.slot done.epoch w' done.made done.landed

  dead_absent :
      (value : Bytes) (s : Slot) (epoch : ℕ)
      → IsMade o c.crypto key value 3 epoch s
      → slot_present s (hash64_string key) ≡ false
  unfolding slot_present
  dead_absent value s epoch m =
      let (matches, dead, whole) = proposal_matches o laws c pos key value true epoch s m in
      ground arith

  -- After a deletion that returned a rule, a read of the key finds nothing, and is no error.
  pub delete_kv-read_kv :
      (w : World) (rule : ℕ) (w' : World)
      → WorldFits c w
      → delete_kv o local c key w ≡ (ok rule, w')
      → read_kv o local c key w' ≡ (ok none, w')
  unfolding delete_kv
  delete_kv-read_kv w rule w' fits e =
      let done = write_value-Written o laws c pos key [] false true w rule w' fits e in
      let absent = dead_absent [] done.slot done.epoch done.made in
      let first = done.landed.on_prime in
      elim done.landed.in_cache [
        | silent silence ↦
            read_dead o laws c pos key done.slot done.landed.at none w' first silence
              (unfold cached_value in refl) absent
        | holds j hit ↦
            read_dead o laws c pos key done.slot done.landed.at _ w' first hit
              (cached_dead o laws c pos key done.slot done.landed.at j absent) absent
      ]
