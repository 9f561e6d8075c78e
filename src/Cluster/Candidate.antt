-- ===== src/Cluster/Candidate.antt =====
-- A probe, a commit to its candidate, and the next probe of the same key (src/cluster.c).
use tee_dist.Base.{ℕ, ◌<◌, ◌≡◌, sym, ap, ◌∙◌, arith, true}
use native.Mathlib.Decide.{ℕ_discrete}
use tee_dist.Region.{Slot, RegionKind, kind_slot_count, slot_index}
use tee_dist.Region.Codec.{SlotFits}
use tee_dist.Region.Access.{swapped}
use tee_dist.Cluster.Monad.{Cluster, Result, ok, session_header, session_count}
use tee_dist.Cluster.Probe.{Probe, found_probe, probe_slot}
use tee_dist.Cluster.Probe.Step.{matches_key}
use tee_dist.Cluster.Probe.Scan.{probe_slot-scan}
use tee_dist.Cluster.Probe.Found.{IsProbed, own, fresh, scan_all-IsProbed}
use tee_dist.Cluster.Probe.Rewrite.{replaced, scan_all-replaced}
use tee_dist.Cluster.Commit.{commit_slot_at}
use tee_dist.Cluster.Local.{World, local, WorldFits, view}
use tee_dist.Cluster.Commits.{fetch_slot_at-view, Committed, commit_slot_at-Committed}
use tee_dist.Cluster.Quiet.{Keeps, probe_slot-view, probe_index}

module _ (c : Cluster) (session : ℕ) (there : session < session_count c) (kind : RegionKind)
    (key_hash : ℕ) where
  -- A probe of a world that keeps the kind's slots returns the same.
  pub probe-Keeps :
      (w w' : World) (x : Result Probe)
      → WorldFits c w
      → Keeps c kind w w'
      → probe_slot local c session kind key_hash w ≡ (x, w)
      → probe_slot local c session kind key_hash w' ≡ (x, w')
  probe-Keeps w w' x fits k e =
      let first = probe_slot-view c w session kind key_hash fits there in
      let again =
        probe_slot-scan local c session kind (view c w session kind) w'
          (λ i lt.
            fetch_slot_at-view c w' k.fits session there kind i lt
            ∙ ap (λ s. (ok s, w')) (k.same session i lt))
          key_hash in
      again ∙ ap (λ r. (r.0, w')) (sym first ∙ e)

  -- On a world that fits, the candidate of a probe that succeeds is a slot of the kind: the key's own
  -- slot, which the probe then reports as found, or a tombstone or empty slot of no other live key,
  -- and then nothing is reported as found.
  pub probe-IsProbed :
      (w : World) (q : Probe)
      → WorldFits c w
      → probe_slot local c session kind key_hash w ≡ (ok q, w)
      → IsProbed key_hash
          (view c w session kind)
          (kind_slot_count (session_header c session) kind)
          q
  probe-IsProbed w q fits e =
      let first = probe_slot-view c w session kind key_hash fits there in
      scan_all-IsProbed key_hash (view c w session kind) _ kind _ q (ap (λ r. r.0) (sym first ∙ e))

  candidate_read :
      (f : ℕ → Slot) (count : ℕ) (q : Probe)
      → IsProbed key_hash f count q
      → q.candidate_slot ≡ f q.candidate_index
  candidate_read f count q (own _ _ hit) =
      hit.candidate_read ∙ hit.read ∙ ap f (sym hit.candidate_at)
  candidate_read f count q (fresh _ _ free) = free.read

  pub candidate_is_valid :
      (f : ℕ → Slot) (count : ℕ) (q : Probe)
      → IsProbed key_hash f count q
      → q.candidate_valid ≡ true
  candidate_is_valid f count q (own _ valid hit) = valid
  candidate_is_valid f count q (fresh _ valid free) = valid

  -- With no other client in between, a commit to the candidate of a probe finds the epoch that the
  -- probe saw. It stores the slot, and the next probe of the key finds it there.
  pub commit_candidate :
      (w : World) (q : Probe) (s : Slot)
      → WorldFits c w
      → probe_slot local c session kind key_hash w ≡ (ok q, w)
      → SlotFits s
      → s.guard_epoch ≡ s.visible_epoch
      → matches_key key_hash s ≡ true
      → (w' : World) × (commit_slot_at local c session kind q.candidate_index s
            q.candidate_slot.guard_epoch w
          ≡ (ok q.candidate_slot.guard_epoch, w'))
        × Committed c w w' session kind q.candidate_index s q.candidate_slot.guard_epoch
        × (view c w' session kind q.candidate_index ≡ s)
        × (probe_slot local c session kind key_hash w' ≡ (ok (found_probe s q.candidate_index), w'))
  commit_candidate w q s fits e sf whole matches =
      let h = session_header c session in
      let count = kind_slot_count h kind in
      let f = view c w session kind in
      let i = q.candidate_index in
      let compare = q.candidate_slot.guard_epoch in
      let probed = probe-IsProbed w q fits e in
      let lt = probe_index key_hash f count q probed in
      let (w', run, done) =
        commit_slot_at-Committed c w session kind i s compare fits there lt sf in
      let seen : (f i).guard_epoch ≡ compare =
        ap (λ x. x.guard_epoch) (sym (candidate_read f count q probed)) in
      let guard : swapped (f i).guard_epoch compare s.visible_epoch ≡ s.guard_epoch =
        ground arith in
      let stored = done.stored ∙ ap (λ g. record s { guard_epoch = g }) guard in
      let scanned =
        ap (λ r. r.0) (sym (probe_slot-view c w session kind key_hash fits there) ∙ e) in
      let reads = λ (j : ℕ) (lj : j < count).
        fetch_slot_at-view c w' done.fits session there kind j lj
        ∙ ap (λ x. (ok x, w')) (after w' j lj done stored) in
      (
        w',
        run ∙ ap (λ g. (ok g, w')) seen,
        done,
        stored,
        probe_slot-scan local c session kind (replaced f i s) w' reads key_hash
            ∙ ap (λ x. (x, w'))
                (scan_all-replaced key_hash f s matches kind (slot_index h kind key_hash) count q
                  scanned),
      )
    where
      after :
          (w' : World) (j : ℕ)
          → j < kind_slot_count (session_header c session) kind
          → Committed c w w' session kind q.candidate_index s q.candidate_slot.guard_epoch
          → view c w' session kind q.candidate_index ≡ s
          → view c w' session kind j ≡ replaced (view c w session kind) q.candidate_index s j
      after w' j lj done stored = elim (ℕ_discrete j q.candidate_index) [
        | yes here ↦ ground (arith, ap (view c w' session kind) here)
        | no other ↦ let kept = done.kept kind j lj (λ e. other (omega arith)) in ground arith
      ]
