-- ===== src/Cluster/Refused.antt =====
-- What a write leaves behind that returns an error (src/cluster.c), with no other client in between.
use tee_dist.Base.{
  ℕ, zero, suc, ◌<◌, ◌==◌, ◌≡◌, inl, inr, sym, ap, ◌∙◌, arith, Bool, true, false, not, none, some,
  List, Bytes, Bool-cases, Option-cases, add64, u32_mod, u64_mod, ◌&&◌, ◌||◌,
}
use tee_dist.Common.{hash64_string}
use tee_dist.Region.{Slot, prime}
use tee_dist.Region.Codec.{SlotFits}
use tee_dist.Crypto.{OpenSsl, OpenSslLaws, make_slot}
use tee_dist.Crypto.Make.{make_slot-IsMade}
use tee_dist.Cluster.Monad.{
  Cluster, ok, failed, Error, session_count, fail, pure, bind_result, consensus_lost,
}
use tee_dist.Cluster.Probe.{Probe, slot_present, probe_slot}
use tee_dist.Cluster.Probe.Step.{matches_key}
use tee_dist.Cluster.Commit.{primary_session}
use tee_dist.Cluster.Votes.{Vote, evaluate_votes}
use tee_dist.Cluster.Write.{
  committed, backup_count, primary_changed, wait_for_primary_change, propose, finish_write,
  replicate_slot, proposal_flags, with_proposal, write_value,
}
use tee_dist.Cluster.Local.{World, local, WorldFits}
use tee_dist.Cluster.Quiet.{
  Keeps, Keeps-same, Keeps-trans, Quiet, pure-Quiet, attempt_probe-Quiet, probe_slot-view,
}
use tee_dist.Cluster.Backups.{primary-lt, propose-Quiet}
use tee_dist.Cluster.Candidate.{probe-Keeps, commit_candidate}
use tee_dist.Cluster.Landing.{result_cases}
use tee_dist.Cluster.RoundTrip.{proposal_matches}
use tee_dist.Cluster.Total.{bind_fail-world, refresh-Total, repair-Total}

module _ (c : Cluster) (pos : 0 < session_count c) (key_hash : ℕ) where
  wait_round-Quiet :
      (old_epoch n : ℕ)
      → Quiet c prime (wait_for_primary_change local c key_hash old_epoch n)
      → (b : Bool)
      → Quiet c prime (elim b [
        | true ↦ pure true
        | false ↦ λ w. wait_for_primary_change local c key_hash old_epoch n (local.usleep 10000 w)
      ])
  wait_round-Quiet old_epoch n again true = pure-Quiet c prime true
  wait_round-Quiet old_epoch n again false = record { keeps = λ w fits. again.keeps w fits }

  -- Waiting for another writer changes nothing on this world.
  wait-Quiet :
      (old_epoch n : ℕ) → Quiet c prime (wait_for_primary_change local c key_hash old_epoch n)
  unfolding wait_for_primary_change
  wait-Quiet old_epoch zero = pure-Quiet c prime false
  wait-Quiet old_epoch (suc n) =
      let again = wait-Quiet old_epoch n in
      attempt_probe-Quiet c prime (primary_session c key_hash) (primary-lt c key_hash pos) prime
        key_hash _ (wait_round-Quiet old_epoch n again (primary_changed none old_epoch))
        (λ p lt. wait_round-Quiet old_epoch n again (primary_changed (some p) old_epoch))

  module _ (q : Probe) (s : Slot) (sf : SlotFits s) (whole : s.guard_epoch ≡ s.visible_epoch)
      (matches : matches_key key_hash s ≡ true) where
    abbrev session : ℕ
    session = primary_session c key_hash

    -- On a world that fits, on which no call of the transport fails but for its bounds and no other client
    -- acts, and on which the primary's probe still finds what it found before the proposal, a write that
    -- the votes let through succeeds and returns its rule: the commit finds the expected epoch, and
    -- neither the repair of the backups nor the refresh of the cache can fail.
    pub finish_write_succeeds :
        (w : World) (votes : List Vote) (rule : ℕ)
        → WorldFits c w
        → probe_slot local c session prime key_hash w ≡ (ok q, w)
        → (w' : World) × (finish_write local c key_hash q s votes rule w ≡ (ok rule, w'))
    unfolding finish_write committed
    finish_write_succeeds w votes rule fits hit =
        let (w₁, run, done, stored, again) =
          commit_candidate c session (primary-lt c key_hash pos) prime key_hash w q s fits hit sf
            whole matches in
        let (u, w₂, repaired) = (repair-Total local c key_hash s votes 0).returns w₁ in
        let (v, w₃, refreshed) = (refresh-Total local c key_hash s).returns w₂ in (w₃, ground arith)

    replicate_slot-Keeps :
        (w : World) (e : Error) (w' : World)
        → WorldFits c w
        → probe_slot local c session prime key_hash w ≡ (ok q, w)
        → replicate_slot local c key_hash q s w ≡ (failed e, w')
        → Keeps c prime w w'
    unfolding replicate_slot
    replicate_slot-Keeps w e w' fits hit run =
        let wait = wait_for_primary_change local c key_hash q.candidate_slot.guard_epoch 50 in
        let propose_all = propose local c key_hash s (backup_count local c) 0 0 in
        let kept = (propose-Quiet c pos key_hash s sf (backup_count local c) 0 0).keeps w fits in
        elim (result_cases (propose_all w)) [
          | inr (x, w₁, stopped) ↦
              let end : (propose_all w).1 ≡ w' = ap (λ x. x.1) stopped ∙ ground arith in
              rw end at kept
          | inl (votes, w₁, proposed) ↦
              let mid : (propose_all w).1 ≡ w₁ = ap (λ x. x.1) proposed in
              let k : Keeps c prime w w₁ = rw mid at kept in
              let hit₁ =
                probe-Keeps c session (primary-lt c key_hash pos) prime key_hash w w₁ _ fits k
                  hit in
              elim (Bool-cases (evaluate_votes votes s.tie_breaker == 0)) [
                | inr won ↦
                    let (w₂, wins) =
                      finish_write_succeeds w₁ votes (evaluate_votes votes s.tie_breaker) k.fits
                        hit₁ in
                    absurd (ground arith)
                | inl lost ↦
                    let gives_up : bind_result (wait w₁) (λ _. fail {A = ℕ} consensus_lost)
                        ≡ (failed e, w') =
                      ground arith in
                    let waited = (wait-Quiet q.candidate_slot.guard_epoch 50).keeps w₁ k.fits in
                    let end : (wait w₁).1 ≡ w' =
                      sym (bind_fail-world (wait w₁) consensus_lost) ∙ ap (λ x. x.1) gives_up in
                    Keeps-trans c prime w w₁ w' k (rw end at waited)
              ]
        ]

module _ (o : OpenSsl) (laws : OpenSslLaws o) (c : Cluster) (pos : 0 < session_count c) where
  with_proposal-Keeps :
      (key value : Bytes) (tombstone : Bool) (epoch : ℕ) (q : Probe) (w : World) (e : Error)
      (w' : World)
      → WorldFits c w
      → epoch < u64_mod
      → probe_slot local c (primary_session c (hash64_string key)) prime (hash64_string key) w
        ≡ (ok q, w)
      → with_proposal o local c
          (hash64_string key)
          q
          (make_slot o c.crypto key value (proposal_flags tombstone) epoch)
          w
        ≡ (failed e, w')
      → Keeps c prime w w'
  unfolding with_proposal
  with_proposal-Keeps key value tombstone epoch q w e w' fits he hit run =
      elim (Option-cases (make_slot o c.crypto key value (proposal_flags tombstone) epoch)) [
        | inl unmade ↦ Keeps-same c prime w w' fits (ground arith)
        | inr (s, made) ↦
            let small : proposal_flags tombstone < u32_mod = ground arith in
            let m =
              make_slot-IsMade o laws c.crypto key value (proposal_flags tombstone) epoch s small he
                made in
            let (matches, dead, whole) =
              proposal_matches o laws c pos key value tombstone epoch s m in
            replicate_slot-Keeps c pos (hash64_string key) q s m.fits whole matches w e w' fits hit
              (ground arith)
      ]

  -- A write, update or deletion that returns an error leaves every PRIME slot of every node as it was.
  pub write_value_refused :
      (key value : Bytes) (update_only tombstone : Bool) (w : World) (e : Error) (w' : World)
      → WorldFits c w
      → write_value o local c key value update_only tombstone w ≡ (failed e, w')
      → Keeps c prime w w'
  unfolding write_value
  write_value_refused key value update_only tombstone w e w' fits run =
      let key_hash = hash64_string key in
      let session = primary_session c key_hash in
      let seen = probe_slot-view c w session prime key_hash fits (primary-lt c key_hash pos) in
      elim (result_cases (probe_slot local c session prime key_hash w)) [
        | inr (x, w₁, missed) ↦
            let same : w ≡ w' = sym (ap (λ x. x.1) (sym missed ∙ seen)) ∙ ground arith in
            Keeps-same c prime w w' fits same
        | inl (q, w₁, found) ↦
            let here : w₁ ≡ w = ap (λ x. x.1) (sym found ∙ seen) in
            let hit = found ∙ ap (λ x. (ok q, x)) here in
            elim (Bool-cases
              (update_only && (not q.found || q.tombstone || not (slot_present q.slot key_hash)))) [
                | inl absent ↦ Keeps-same c prime w w' fits (ground arith)
                | inr goes ↦
                    with_proposal-Keeps key value tombstone (add64 q.candidate_slot.guard_epoch 1) q
                      w e w' fits (omega arith) hit (ground arith)
              ]
      ]
