-- ===== src/Cluster/RoundTrip.antt =====
-- Writing a key and reading it (src/cluster.c), with no other client in between.
use tee_dist.Base.{
  ℕ, List, ◌<◌, ◌==◌, if◌then◌else◌, ◌≡◌, inl, inr, refl, sym, ap, ◌∙◌, arith, Bool, true, false,
  Option, none, some, Bytes, Bool-cases, Option-cases, add64, u64_mod, u32_mod,
}
use tee_dist.Common.{hash64_string}
use tee_dist.Region.{Slot, prime, flag_valid, flag_tombstone}
use tee_dist.Region.Codec.{SlotFits}
use tee_dist.Crypto.{OpenSsl, OpenSslLaws, make_slot, decode_slot}
use tee_dist.Crypto.Make.{IsMade, make_slot-IsMade}
use tee_dist.Cluster.Monad.{Cluster, ok, session_count, M, fail, ◌>>=◌, consensus_lost}
use tee_dist.Cluster.Probe.{Probe, has_flag, found_probe, slot_present, probe_slot}
use tee_dist.Cluster.Probe.Step.{matches_key}
use tee_dist.Cluster.Commit.{primary_session, refresh_cache}
use tee_dist.Cluster.Read.{
  probe_cache, cache_consistent, cached_value, read_value, read_probed, serve_prime, read_kv,
}
use tee_dist.Cluster.Write.{
  backup_count, wait_for_primary_change, propose, finish_write, replicate_slot, with_proposal,
  write_value, proposal_flags,
}
use tee_dist.Cluster.Local.{World, local, WorldFits}
use tee_dist.Cluster.Votes.{Vote, evaluate_votes}
use tee_dist.Cluster.Quiet.{Keeps, probe_slot-view}
use tee_dist.Cluster.Backups.{primary-lt, propose-Quiet}
use tee_dist.Cluster.Candidate.{probe-Keeps}
use tee_dist.Cluster.Landing.{result_cases, bind_ok, Landed, finish_write-Landed}

module _ (o : OpenSsl) (laws : OpenSslLaws o) (c : Cluster) (pos : 0 < session_count c) where
  pub proposal_matches :
      (key value : Bytes) (tombstone : Bool) (epoch : ℕ) (s : Slot)
      → IsMade o c.crypto key value (proposal_flags tombstone) epoch s
      → (matches_key (hash64_string key) s ≡ true)
        × (has_flag s flag_tombstone ≡ tombstone)
        × (s.guard_epoch ≡ s.visible_epoch)
  proposal_matches key value true epoch s m =
      let flags : s.flags ≡ 3 = m.flagged in
      let guard = m.guard in
      let visible = m.visible in
      let hashed = m.hashed in
      let valid : has_flag s flag_valid ≡ true = rw flags refl in
      (ground arith, rw flags refl, ground arith)
  proposal_matches key value false epoch s m =
      let flags : s.flags ≡ 1 = m.flagged in
      let guard = m.guard in
      let visible = m.visible in
      let hashed = m.hashed in
      let valid : has_flag s flag_valid ≡ true = rw flags refl in
      (ground arith, rw flags refl, ground arith)

  -- A proposal that the rule lets through, and whose commit succeeds, has landed.
  replicate_slot-Landed :
      (key_hash : ℕ) (q : Probe) (s : Slot) (w : World) (r : ℕ) (w' : World)
      → WorldFits c w
      → SlotFits s
      → s.guard_epoch ≡ s.visible_epoch
      → matches_key key_hash s ≡ true
      → probe_slot local c (primary_session c key_hash) prime key_hash w ≡ (ok q, w)
      → replicate_slot local c key_hash q s w ≡ (ok r, w')
      → Landed o c key_hash s w'
  unfolding replicate_slot
  replicate_slot-Landed key_hash q s w r w' fits sf whole matches hit e =
      let there = primary-lt c key_hash pos in
      let wait = wait_for_primary_change local c key_hash q.candidate_slot.guard_epoch 50 in
      let decide : List Vote → M World ℕ = λ votes.
        if evaluate_votes votes s.tie_breaker == 0
        then (wait >>= λ _. fail consensus_lost)
        else finish_write local c key_hash q s votes (evaluate_votes votes s.tie_breaker) in
      let (votes, w₁, proposed, e₁) =
        bind_ok (propose local c key_hash s (backup_count local c) 0 0) decide w r w' e in
      let end : (propose local c key_hash s (backup_count local c) 0 0 w).1 ≡ w₁ =
        ap (λ x. x.1) proposed in
      let kept = (propose-Quiet c pos key_hash s sf (backup_count local c) 0 0).keeps w fits in
      let k : Keeps c prime w w₁ = rw end at kept in
      let hit₁ =
        probe-Keeps c (primary_session c key_hash) there prime key_hash w w₁ _ fits k hit in
      elim (Bool-cases (evaluate_votes votes s.tie_breaker == 0)) [
        | inl refused ↦
            let gives_up : (wait >>= λ _. fail consensus_lost) w₁ ≡ (ok r, w') = ground arith in
            let (b, w₂, waited, fails) = bind_ok wait (λ _. fail consensus_lost) w₁ r w' gives_up in
            absurd (cc)
        | inr won ↦
            finish_write-Landed o c pos key_hash s sf whole matches w₁ q votes
              (evaluate_votes votes s.tie_breaker) r w' k.fits hit₁ (ground arith)
      ]

  -- The slot that a write that returned a rule has proposed, and where it stands then.
  pub record Written (key value : Bytes) (tombstone : Bool) (w' : World) : Type 0 where
    pub slot : Slot
    pub epoch : ℕ
    pub made : IsMade o c.crypto key value (proposal_flags tombstone) epoch slot
    pub landed : Landed o c (hash64_string key) slot w'

  with_proposal-Written :
      (key value : Bytes) (tombstone : Bool) (epoch : ℕ) (q : Probe) (w : World) (r : ℕ)
      (w' : World)
      → WorldFits c w
      → epoch < u64_mod
      → probe_slot local c (primary_session c (hash64_string key)) prime (hash64_string key) w
        ≡ (ok q, w)
      → with_proposal o local c
          (hash64_string key)
          q
          (make_slot o c.crypto key value (proposal_flags tombstone) epoch)
          w
        ≡ (ok r, w')
      → Written key value tombstone w'
  unfolding with_proposal
  with_proposal-Written key value tombstone epoch q w r w' fits he hit e =
      elim (Option-cases (make_slot o c.crypto key value (proposal_flags tombstone) epoch)) [
        | inl unmade ↦ absurd (ground arith)
        | inr (s, made) ↦
            let small : proposal_flags tombstone < u32_mod = ground arith in
            let m =
              make_slot-IsMade o laws c.crypto key value (proposal_flags tombstone) epoch s small he
                made in
            let (matches, dead, whole) = proposal_matches key value tombstone epoch s m in
            let run : replicate_slot local c (hash64_string key) q s w ≡ (ok r, w') =
              ground arith in
            record {
              slot = s;
              epoch = epoch;
              made = m;
              landed =
                  replicate_slot-Landed (hash64_string key) q s w r w' fits m.fits whole matches hit
                    run;
            }
      ]

  pub write_value-Written :
      (key value : Bytes) (update_only tombstone : Bool) (w : World) (r : ℕ) (w' : World)
      → WorldFits c w
      → write_value o local c key value update_only tombstone w ≡ (ok r, w')
      → Written key value tombstone w'
  unfolding write_value
  write_value-Written key value update_only tombstone w r w' fits e =
      let key_hash = hash64_string key in
      let session = primary_session c key_hash in
      let seen = probe_slot-view c w session prime key_hash fits (primary-lt c key_hash pos) in
      elim (result_cases (probe_slot local c session prime key_hash w)) [
        | inr (x, w₁, missed) ↦ absurd (ground arith)
        | inl (q, w₁, found) ↦
            let same : w₁ ≡ w = ap (λ x. x.1) (sym found ∙ seen) in
            let hit : probe_slot local c session prime key_hash w ≡ (ok q, w) =
              found ∙ ap (λ x. (ok q, x)) same in
            let run : with_proposal o local c key_hash q
                  (make_slot o c.crypto key value (proposal_flags tombstone)
                    (add64 q.candidate_slot.guard_epoch 1))
                  w
                ≡ (ok r, w') =
              ground arith in
            with_proposal-Written key value tombstone (add64 q.candidate_slot.guard_epoch 1) q w r
              w' fits (omega arith) hit run
      ]

  module _ (key : Bytes) where
    abbrev hash : ℕ
    hash = hash64_string key

    abbrev home : ℕ
    home = primary_session c hash

    -- A slot that was made with the valid flag alone is present.
    pub made_present :
        (value : Bytes) (epoch : ℕ) (s : Slot)
        → IsMade o c.crypto key value flag_valid epoch s
        → slot_present s hash ≡ true
    unfolding slot_present
    made_present value epoch s m =
        let (matches, alive, whole) = proposal_matches key value false epoch s m in ground arith

    -- A read whose probe of the cache said nothing decodes the slot of the primary.
    pub read_prime :
        (s : Slot) (i : ℕ) (value : Bytes) (w w' : World)
        → probe_slot local c home prime hash w ≡ (ok (found_probe s i), w)
        → probe_cache o local c home hash w ≡ (ok none, w)
        → slot_present s hash ≡ true
        → decode_slot o c.crypto s ≡ some value
        → refresh_cache local c hash s w ≡ (ok tt, w')
        → read_kv o local c key w ≡ (ok (some value), w')
    unfolding read_kv read_value read_probed cached_value serve_prime found_probe
    read_prime s i value w w' first silence present opened refreshed = ground arith

    -- A read whose probe of the cache found the primary's slot serves it from there.
    pub read_cached :
        (s : Slot) (i j : ℕ) (value : Bytes) (w : World)
        → probe_slot local c home prime hash w ≡ (ok (found_probe s i), w)
        → probe_cache o local c home hash w ≡ (ok (some (found_probe s j)), w)
        → slot_present s hash ≡ true
        → decode_slot o c.crypto s ≡ some value
        → read_kv o local c key w ≡ (ok (some value), w)
    unfolding read_kv read_value read_probed cached_value cache_consistent found_probe
    read_cached s i j value w first second present opened = ground arith

    -- A tombstone is read as an absent key, whatever the cache says.
    pub read_dead :
        (s : Slot) (i : ℕ) (cached : Option Probe) (w : World)
        → probe_slot local c home prime hash w ≡ (ok (found_probe s i), w)
        → probe_cache o local c home hash w ≡ (ok cached, w)
        → cached_value o local c hash cached (found_probe s i) ≡ none
        → slot_present s hash ≡ false
        → read_kv o local c key w ≡ (ok none, w)
    unfolding read_kv read_value read_probed found_probe
    read_dead s i cached w first second unserved absent = ground arith

    pub cached_dead :
        (s : Slot) (i j : ℕ)
        → slot_present s hash ≡ false
        → cached_value o local c hash (some (found_probe s j)) (found_probe s i) ≡ none
    unfolding cached_value cache_consistent found_probe
    cached_dead s i j absent = ground arith
