-- ===== src/Cluster/Probe/Rewrite.antt =====
-- A probe after the key's slot was written at the candidate of an earlier probe.
use tee_dist.Base.{
  ℕ, zero, suc, ◌+◌, add64, ◌%◌, ◌==◌, if◌then◌else◌, ◌≡◌, ◌≢◌, inl, inr, refl, sym, ap, ◌∙◌, arith,
  true, Bool-cases,
}
use native.Mathlib.Decide.{ℕ_discrete}
use tee_dist.Region.{Slot, RegionKind}
use tee_dist.Cluster.Monad.{ok}
use tee_dist.Cluster.Probe.{Probe, no_probe, note_candidate, found_probe, stop, probe_step}
use tee_dist.Cluster.Probe.Step.{matches_key, hit, empty, tombstone, pass, probe_step-StepView}
use tee_dist.Cluster.Probe.Scan.{scan, scan_all}

-- The slots after slot `at` became `s`.
abbrev pub replaced : (ℕ → Slot) → ℕ → Slot → ℕ → Slot
replaced f place s i = if i == place then s else f i

module _ (key_hash : ℕ) (f : ℕ → Slot) (s : Slot) (m : matches_key key_hash s ≡ true) where
  -- The slot that was written ends the loop.
  step_hit : (i : ℕ) (p : Probe) → probe_step key_hash s i p ≡ stop (found_probe s i)
  step_hit i p = elim (probe_step-StepView key_hash s i p) [
    | hit own r ↦ r
    | empty other _ _ r ↦ cc
    | tombstone other _ _ r ↦ cc
    | pass other _ _ r ↦ cc
  ]

  found_probe-index : (x : Slot) (i : ℕ) → (found_probe x i).candidate_index ≡ i
  unfolding found_probe
  found_probe-index x i = refl

  -- The candidate of `p` is not `place`.
  abbrev Elsewhere : ℕ → Probe → Type 0
  Elsewhere place p = p.candidate_valid ≡ true → p.candidate_index ≢ place

  note_candidate-Elsewhere :
      (place i : ℕ) (x : Slot) (p : Probe)
      → i ≢ place
      → Elsewhere place p
      → Elsewhere place (note_candidate p x i)
  unfolding note_candidate
  note_candidate-Elsewhere place i x p ne v valid = elim (Bool-cases p.candidate_valid) [
    | inl old ↦ ground (arith, v old)
    | inr new ↦ ground arith
  ]

  note_candidate-valid :
      (x : Slot) (i : ℕ) (p : Probe) → (note_candidate p x i).candidate_valid ≡ true
  unfolding note_candidate
  note_candidate-valid x i p = ground arith

  scan-replaced :
      (kind : RegionKind) (home count n idx : ℕ) (p q : Probe)
      → Elsewhere q.candidate_index p
      → scan kind key_hash f home count n idx p ≡ ok q
      → scan kind key_hash (replaced f q.candidate_index s) home count n idx p
        ≡ ok (found_probe s q.candidate_index)
  unfolding scan
  scan-replaced kind home count zero idx p q v e = elim (Bool-cases p.candidate_valid) [
    | inr full ↦ ground arith
    | inl has ↦ let same : p ≡ q = ground arith in absurd (v has (ap (λ r. r.candidate_index) same))
  ]
  scan-replaced kind home count (suc n) idx p q v e =
      let i = add64 home idx % count in
      elim (ℕ_discrete i q.candidate_index) [
        | yes here ↦ ground (arith, step_hit i p)
        | no other ↦ elim (probe_step-StepView key_hash (f i) i p) [
          | hit own r ↦
              let same : found_probe (f i) i ≡ q = ground arith in
              absurd (other (sym (found_probe-index (f i) i) ∙ ap (λ r. r.candidate_index) same))
          | empty foreign _ _ r ↦
              let same : note_candidate p (f i) i ≡ q = ground arith in
              absurd (
                note_candidate-Elsewhere q.candidate_index i (f i) p other v
                  (note_candidate-valid (f i) i p) (ap (λ r. r.candidate_index) same))
          | tombstone foreign _ _ r ↦ ground (
            arith,
            scan-replaced kind home count n (idx + 1) (note_candidate p (f i) i) q
                (note_candidate-Elsewhere q.candidate_index i (f i) p other v),
          )
          | pass foreign _ _ r ↦ ground (arith, scan-replaced kind home count n (idx + 1) p q v)
        ]
      ]

  -- Once a matching slot is written at the candidate of a probe, the same probe finds it there.
  pub scan_all-replaced :
      (kind : RegionKind) (home count : ℕ) (q : Probe)
      → scan_all kind key_hash f home count ≡ ok q
      → scan_all kind key_hash (replaced f q.candidate_index s) home count
        ≡ ok (found_probe s q.candidate_index)
  unfolding scan_all
  scan_all-replaced kind home count q e = elim (ℕ_discrete count 0) [
    | yes none_there ↦ ground arith
    | no some_there ↦ ground (arith, scan-replaced kind home count count 0 no_probe q (λ h. cc))
  ]
