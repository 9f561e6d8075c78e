-- ===== src/Cluster/Landing.antt =====
-- Where a successful write leaves its slot (src/cluster.c): on the primary, and in the cache where
-- the cache has a place for it.
use tee_dist.Base.{
  ℕ, ◌<◌, ◌≡◌, ◌⊎◌, inl, inr, refl, sym, ap, ◌∙◌, arith, true, false, none, some, List, Bool-cases,
}
use tee_dist.Region.{Slot, prime, cache}
use tee_dist.Region.Codec.{SlotFits}
use tee_dist.Cluster.Monad.{
  Cluster, Result, ok, failed, session_count, M, bind_result, pure, ◌>>=◌, ◌>>◌, Error,
}
use tee_dist.Cluster.Probe.{Probe, found_probe, probe_slot}
use tee_dist.Cluster.Probe.Step.{matches_key}
use tee_dist.Cluster.Commit.{commit_slot_at, primary_session, refresh_candidate, refresh_cache}
use tee_dist.Cluster.Votes.{Vote}
use tee_dist.Cluster.Read.{probe_cache}
use tee_dist.Cluster.Write.{committed, repair, finish_write}
use tee_dist.Cluster.Local.{World, local, WorldFits}
use tee_dist.Cluster.Quiet.{Keeps, Keeps-trans, probe_slot-view}
use tee_dist.Cluster.Backups.{primary-lt, repair-Quiet, refresh-Quiet}
use tee_dist.Cluster.Candidate.{probe-Keeps, candidate_is_valid, probe-IsProbed, commit_candidate}
use tee_dist.Crypto.{OpenSsl}

module _ {W A : Type 0} where
  -- A result is a value or an error.
  pub result_cases :
      (x : Result A × W)
      → ((a : A) × (w : W) × (x ≡ (ok a, w))) ⊎ ((e : Error) × (w : W) × (x ≡ (failed e, w)))
  result_cases (ok a, w) = inl (a, w, refl)
  result_cases (failed e, w) = inr (e, w, refl)

  bind_result_ok :
      {B : Type 0} (x : Result A × W) (f : A → M W B) (b : B) (w' : W)
      → bind_result x f ≡ (ok b, w')
      → (a : A) × (w₁ : W) × (x ≡ (ok a, w₁)) × (f a w₁ ≡ (ok b, w'))
  bind_result_ok (ok a, w₁) f b w' e = (a, w₁, refl, e)
  bind_result_ok (failed x, w₁) f b w' e = absurd (cc)

  -- Where a sequence succeeds, both of its parts do.
  pub bind_ok :
      {B : Type 0} (m : M W A) (f : A → M W B) (w : W) (b : B) (w' : W)
      → (m >>= f) w ≡ (ok b, w')
      → (a : A) × (w₁ : W) × (m w ≡ (ok a, w₁)) × (f a w₁ ≡ (ok b, w'))
  bind_ok m f w b w' e = bind_result_ok (m w) f b w' e

-- What a probe of the cache says after the write of a slot: nothing, or that slot.
pub data CacheSays (o : OpenSsl) (c : Cluster) (key_hash : ℕ) (s : Slot) (w : World) : Type 0 where
  silent :
      probe_cache o local c (primary_session c key_hash) key_hash w ≡ (ok none, w)
      → CacheSays o c key_hash s w
  holds :
      (j : ℕ)
      → probe_cache o local c (primary_session c key_hash) key_hash w
        ≡ (ok (some (found_probe s j)), w)
      → CacheSays o c key_hash s w

-- The world after the write: the primary's probe finds the slot, and the cache contradicts nothing.
pub record Landed (o : OpenSsl) (c : Cluster) (key_hash : ℕ) (s : Slot) (w : World) : Type 0 where
  pub fits : WorldFits c w
  pub at : ℕ
  pub on_prime :
      probe_slot local c (primary_session c key_hash) prime key_hash w ≡ (ok (found_probe s at), w)
  pub in_cache : CacheSays o c key_hash s w

module _ (o : OpenSsl) (c : Cluster) (pos : 0 < session_count c) (key_hash : ℕ) (s : Slot)
    (sf : SlotFits s) (whole : s.guard_epoch ≡ s.visible_epoch)
    (matches : matches_key key_hash s ≡ true) where
  abbrev session : ℕ
  session = primary_session c key_hash

  -- The calls of a refresh whose probe finds a candidate.
  refresh_run :
      (w w' : World) (q : Probe) (g : ℕ)
      → c.cache_on ≡ true
      → probe_slot local c session cache key_hash w ≡ (ok q, w)
      → q.candidate_valid ≡ true
      → commit_slot_at local c session cache q.candidate_index s q.candidate_slot.guard_epoch w
        ≡ (ok g, w')
      → refresh_cache local c key_hash s w ≡ (ok tt, w')
  unfolding refresh_cache refresh_candidate
  refresh_run w w' q g on hit valid run = ground arith

  refresh_missed :
      (w : World) (e : Error)
      → c.cache_on ≡ true
      → probe_slot local c session cache key_hash w ≡ (failed e, w)
      → refresh_cache local c key_hash s w ≡ (ok tt, w)
  unfolding refresh_cache refresh_candidate
  refresh_missed w e on hit = ground arith

  refresh_off : (w : World) → c.cache_on ≡ false → refresh_cache local c key_hash s w ≡ (ok tt, w)
  unfolding refresh_cache
  refresh_off w off = ground arith

  probe_cache_off : (w : World) → c.cache_on ≡ false → CacheSays o c key_hash s w
  unfolding probe_cache
  probe_cache_off w off = silent (ground arith)

  probe_cache_missed :
      (w : World) (e : Error)
      → c.cache_on ≡ true
      → probe_slot local c session cache key_hash w ≡ (failed e, w)
      → CacheSays o c key_hash s w
  unfolding probe_cache
  probe_cache_missed w e on hit = silent (ground arith)

  probe_cache_holds :
      (w : World) (j : ℕ)
      → c.cache_on ≡ true
      → probe_slot local c session cache key_hash w ≡ (ok (found_probe s j), w)
      → CacheSays o c key_hash s w
  unfolding probe_cache
  probe_cache_holds w j on hit = holds j (ground arith)

  -- The cache after its refresh.
  pub refresh_cache-CacheSays :
      (w : World)
      → WorldFits c w
      → (w' : World) × (refresh_cache local c key_hash s w ≡ (ok tt, w'))
        × CacheSays o c key_hash s w'
  refresh_cache-CacheSays w fits =
      let there = primary-lt c key_hash pos in
      let seen = probe_slot-view c w session cache key_hash fits there in
      elim (Bool-cases c.cache_on) [
        | inr off ↦ (w, refresh_off w off, probe_cache_off w off)
        | inl on ↦ elim (result_cases (probe_slot local c session cache key_hash w)) [
          | inr (e, w₁, missed) ↦
              let same : w₁ ≡ w = ap (λ r. r.1) (sym missed ∙ seen) in
              let miss = missed ∙ ap (λ x. (failed e, x)) same in
              (w, refresh_missed w e on miss, probe_cache_missed w e on miss)
          | inl (q, w₁, found) ↦
              let same : w₁ ≡ w = ap (λ r. r.1) (sym found ∙ seen) in
              let hit = found ∙ ap (λ x. (ok q, x)) same in
              let valid =
                candidate_is_valid c session there cache key_hash _ _ q
                  (probe-IsProbed c session there cache key_hash w q fits hit) in
              let (w', run, done, stored, again) =
                commit_candidate c session there cache key_hash w q s fits hit sf whole matches in
              (
                w',
                refresh_run w w' q _ on hit valid run,
                probe_cache_holds w' q.candidate_index on again,
              )
        ]
      ]

  -- A write that has reached the primary and returns its rule has landed.
  pub finish_write-Landed :
      (w : World) (q : Probe) (votes : List Vote) (rule r : ℕ) (w' : World)
      → WorldFits c w
      → probe_slot local c session prime key_hash w ≡ (ok q, w)
      → finish_write local c key_hash q s votes rule w ≡ (ok r, w')
      → Landed o c key_hash s w'
  unfolding finish_write committed
  finish_write-Landed w q votes rule r w' fits hit e =
      let there = primary-lt c key_hash pos in
      let (w₁, run, done, stored, again) =
        commit_candidate c session there prime key_hash w q s fits hit sf whole matches in
      let goes : (repair local c key_hash s votes 0
              >> (refresh_cache local c key_hash s >> pure rule))
            w₁
          ≡ (ok r, w') =
        ground arith in
      let (u, w₂, repaired, e₂) =
        bind_ok (repair local c key_hash s votes 0)
          (λ _. refresh_cache local c key_hash s >> pure rule) w₁ r w' goes in
      let (v, w₃, refreshed, e₃) =
        bind_ok (refresh_cache local c key_hash s) (λ _. pure rule) w₂ r w' e₂ in
      let k₂ : Keeps c prime w₁ w₂ =
        let kept = (repair-Quiet c pos key_hash s sf votes 0).keeps w₁ done.fits in
        let end : (repair local c key_hash s votes 0 w₁).1 ≡ w₂ = ap (λ x. x.1) repaired in
        rw end at kept in
      let (w₄, refreshed', says) = refresh_cache-CacheSays w₂ k₂.fits in
      let k₃ = (refresh-Quiet c pos key_hash s sf).keeps w₂ k₂.fits in
      let end : (refresh_cache local c key_hash s w₂).1 ≡ w' =
        ap (λ x. x.1) refreshed ∙ ap (λ x. x.1) e₃ in
      let k : Keeps c prime w₁ w' = Keeps-trans c prime w₁ w₂ w' k₂ (rw end at k₃) in
      let last : w₄ ≡ w' = ap (λ x. x.1) (sym refreshed') ∙ end in
      record {
        fits = k.fits;
        at = q.candidate_index;
        on_prime = probe-Keeps c session there prime key_hash w₁ w' _ done.fits k again;
        in_cache = rw last at says;
      }
