-- ===== src/Cluster/Probe/Found.antt =====
-- What a successful probe reports: the key's slot where it has one, else a slot that is free.
use tee_dist.Base.{
  ℕ, zero, suc, ◌+◌, add64, ◌%◌, ◌<◌, ◌≤◌, ◌≡◌, inl, inr, refl, arith, true, false, Bool-cases,
}
use native.Mathlib.Decide.{ℕ_discrete}
use tee_dist.Region.{Slot, RegionKind, flag_tombstone}
use tee_dist.Cluster.Monad.{ok}
use tee_dist.Cluster.Probe.{has_flag, slot_is_empty, Probe, no_probe, note_candidate, found_probe}
use tee_dist.Cluster.Probe.Step.{
  matches_key, is_free, hit, empty, tombstone, pass, probe_step-StepView,
}
use tee_dist.Cluster.Probe.Scan.{scan, scan_all}

module _ (key_hash : ℕ) (f : ℕ → Slot) (count : ℕ) where
  -- The candidate is a free slot of another key, or of none.
  pub record IsCandidate (p : Probe) : Type 0 where
    pub in_range : p.candidate_index < count
    pub read : p.candidate_slot ≡ f p.candidate_index
    pub free : is_free p.candidate_slot ≡ true
    pub foreign : matches_key key_hash p.candidate_slot ≡ false

  -- The probe in the middle of the loop.
  record IsPartial (p : Probe) : Type 0 where
    unfound : p.found ≡ false
    noted : p.candidate_valid ≡ true → IsCandidate p

  -- The key's own slot, which is the candidate too.
  pub record IsHit (p : Probe) : Type 0 where
    pub in_range : p.index < count
    pub read : p.slot ≡ f p.index
    pub matches : matches_key key_hash p.slot ≡ true
    pub dead : p.tombstone ≡ has_flag p.slot flag_tombstone
    pub candidate_read : p.candidate_slot ≡ p.slot
    pub candidate_at : p.candidate_index ≡ p.index

  -- What the caller gets: always a candidate, and the key's slot where it was met.
  pub data IsProbed (p : Probe) : Type 0 where
    own : p.found ≡ true → p.candidate_valid ≡ true → IsHit p → IsProbed p
    fresh : p.found ≡ false → p.candidate_valid ≡ true → IsCandidate p → IsProbed p

  note_candidate-IsPartial :
      (p : Probe) (i : ℕ)
      → i < count
      → is_free (f i) ≡ true
      → matches_key key_hash (f i) ≡ false
      → IsPartial p
      → IsPartial (note_candidate p (f i) i)
  unfolding note_candidate
  note_candidate-IsPartial p i lt free foreign v = elim (Bool-cases p.candidate_valid) [
    | inl old ↦ let same : note_candidate p (f i) i ≡ p = ground arith in rw same v
    | inr new ↦
        let same : note_candidate p (f i) i
            ≡ record p { candidate_slot = f i; candidate_index = i; candidate_valid = true } =
          ground arith in
        rw same (record {
          unfound = v.unfound;
          noted = λ _. record { in_range = lt; read = refl; free = free; foreign = foreign };
        })
  ]

  note_candidate-valid :
      (p : Probe) (s : Slot) (i : ℕ) → (note_candidate p s i).candidate_valid ≡ true
  unfolding note_candidate
  note_candidate-valid p s i = ground arith

  found_probe-IsProbed :
      (i : ℕ) → i < count → matches_key key_hash (f i) ≡ true → IsProbed (found_probe (f i) i)
  unfolding found_probe
  found_probe-IsProbed i lt m = own refl refl (record {
    in_range = lt;
    read = refl;
    matches = m;
    dead = refl;
    candidate_read = refl;
    candidate_at = refl;
  })

  scan-IsProbed :
      (kind : RegionKind) (home n idx : ℕ) (p q : Probe)
      → 0 < count
      → IsPartial p
      → scan kind key_hash f home count n idx p ≡ ok q
      → IsProbed q
  unfolding scan
  scan-IsProbed kind home zero idx p q pos v e = elim (Bool-cases p.candidate_valid) [
    | inr full ↦ ground arith
    | inl has ↦
        let same : p ≡ q = ground arith in
        let got : IsProbed p = fresh v.unfound has (v.noted has) in rw same at got
  ]
  scan-IsProbed kind home (suc n) idx p q pos v e =
      let i = add64 home idx % count in
      let lt : i < count = omega arith in
      elim (probe_step-StepView key_hash (f i) i p) [
        | hit m r ↦
            let same : found_probe (f i) i ≡ q = ground arith in
            rw same at (found_probe-IsProbed i lt m)
        | empty m _ free r ↦
            let same : note_candidate p (f i) i ≡ q = ground arith in
            let noted = note_candidate-IsPartial p i lt free m v in
            let valid = note_candidate-valid p (f i) i in
            let got : IsProbed (note_candidate p (f i) i) =
              fresh noted.unfound valid (noted.noted valid) in
            rw same at got
        | tombstone m _ free r ↦
            scan-IsProbed kind home n (idx + 1) (note_candidate p (f i) i) q pos
              (note_candidate-IsPartial p i lt free m v) (ground arith)
        | pass m _ _ r ↦ scan-IsProbed kind home n (idx + 1) p q pos v (ground arith)
      ]

  -- A probe that succeeds reports the key's own slot, or a free slot as the candidate.
  pub scan_all-IsProbed :
      (kind : RegionKind) (home : ℕ) (q : Probe)
      → scan_all kind key_hash f home count ≡ ok q
      → IsProbed q
  unfolding scan_all
  scan_all-IsProbed kind home q e = elim (ℕ_discrete count 0) [
    | yes none_there ↦ ground arith
    | no some_there ↦
        scan-IsProbed kind home count 0 no_probe q (omega arith)
          (record { unfound = refl; noted = λ h. cc }) (ground arith)
  ]

  -- The slot of round `j`.
  abbrev pub at_round : ℕ → ℕ → Slot
  at_round home j = f (add64 home j % count)

  note_candidate-found : (p : Probe) (s : Slot) (i : ℕ) → (note_candidate p s i).found ≡ p.found
  unfolding note_candidate
  note_candidate-found p s i = ground arith

  scan_misses :
      (kind : RegionKind) (home n idx : ℕ) (p q : Probe) (j : ℕ)
      → scan kind key_hash f home count n idx p ≡ ok q
      → q.found ≡ false
      → idx ≤ j
      → j < idx + n
      → matches_key key_hash (at_round home j) ≡ true
      → (k : ℕ) × (k < j) × (slot_is_empty (at_round home k) ≡ true)
  unfolding scan
  scan_misses kind home zero idx p q j e missed lo hi m = absurd (omega arith)
  scan_misses kind home (suc n) idx p q j e missed lo hi m =
      let i = add64 home idx % count in
      elim (probe_step-StepView key_hash (f i) i p) [
        | hit own_slot r ↦
            let same : found_probe (f i) i ≡ q = ground arith in
            let seen : (found_probe (f i) i).found ≡ true = unfold found_probe in refl in
            let met : q.found ≡ true = rw same at seen in cc
        | empty foreign clear _ r ↦ elim (ℕ_discrete idx j) [
          | yes here ↦ let clash : matches_key key_hash (f i) ≡ true = rw here m in cc
          | no later ↦ (idx, omega arith, clear)
        ]
        | tombstone foreign _ _ r ↦ elim (ℕ_discrete idx j) [
          | yes here ↦ let clash : matches_key key_hash (f i) ≡ true = rw here m in cc
          | no later ↦
              scan_misses kind home n (idx + 1) (note_candidate p (f i) i) q j (ground arith) missed
                (omega arith) (omega arith) m
        ]
        | pass foreign _ _ r ↦ elim (ℕ_discrete idx j) [
          | yes here ↦ let clash : matches_key key_hash (f i) ≡ true = rw here m in cc
          | no later ↦
              scan_misses kind home n (idx + 1) p q j (ground arith) missed (omega arith)
                (omega arith) m
        ]
      ]

  -- A probe that misses the key's slot has met an empty slot in front of it.
  pub scan_all_misses :
      (kind : RegionKind) (home : ℕ) (q : Probe) (j : ℕ)
      → scan_all kind key_hash f home count ≡ ok q
      → q.found ≡ false
      → j < count
      → matches_key key_hash (at_round home j) ≡ true
      → (k : ℕ) × (k < j) × (slot_is_empty (at_round home k) ≡ true)
  unfolding scan_all
  scan_all_misses kind home q j e missed lt m =
      scan_misses kind home count 0 no_probe q j (ground arith) missed (omega arith) (omega arith) m
