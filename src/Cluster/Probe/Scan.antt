-- ===== src/Cluster/Probe/Scan.antt =====
-- A probe of slots that read as a function of their index.
use tee_dist.Base.{
  ℕ, zero, suc, ◌+◌, add64, ◌%◌, ◌<◌, ◌==◌, if◌then◌else◌, ◌≡◌, ◌⊎◌, inl, inr, refl, arith,
}
use native.Mathlib.Decide.{ℕ_discrete}
use tee_dist.Region.{Slot, RegionKind, kind_slot_count, slot_index}
use tee_dist.Cluster.Monad.{
  Transport, Cluster, session_header, Result, ok, failed, region_full, no_slots,
}
use tee_dist.Cluster.Probe.{
  Probe, no_probe, ProbeStep, stop, next, probe_step, fetch_slot_at, probe_from, probe_slot,
}

-- In the world `w`, every slot of a kind of a session is read as `f` says, and reading it does not
-- change the world.
abbrev pub Reads : {W : Type 0} → Transport W → Cluster → ℕ → RegionKind → (ℕ → Slot) → W → Type 0
Reads t c session kind f w =
    (i : ℕ)
    → i < kind_slot_count (session_header c session) kind
    → fetch_slot_at t c session kind i w ≡ (ok (f i), w)

-- The loop of the probe over a function.
unfoldable pub scan : RegionKind → ℕ → (ℕ → Slot) → ℕ → ℕ → ℕ → ℕ → Probe → Result Probe
scan kind key_hash f home count zero idx p =
    if p.candidate_valid then ok p else failed (region_full kind key_hash)
scan kind key_hash f home count (suc n) idx p =
    let i = add64 home idx % count in
    elim (probe_step key_hash (f i) i p) [
      | stop q ↦ ok q
      | next q ↦ scan kind key_hash f home count n (idx + 1) q
    ]

-- `td_probe_slot` over a function.
unfoldable pub scan_all : RegionKind → ℕ → (ℕ → Slot) → ℕ → ℕ → Result Probe
scan_all kind key_hash f home count =
    if count == 0 then failed (no_slots kind) else scan kind key_hash f home count count 0 no_probe

ProbeStep-cases : (s : ProbeStep) → ((q : Probe) × (s ≡ stop q)) ⊎ ((q : Probe) × (s ≡ next q))
ProbeStep-cases (stop q) = inl (q, refl)
ProbeStep-cases (next q) = inr (q, refl)

module _ {W : Type 0} (t : Transport W) (c : Cluster) (session : ℕ) (kind : RegionKind)
    (f : ℕ → Slot) (w : W) (reads : Reads t c session kind f w) where
  probe_from-scan :
      (key_hash home count n idx : ℕ) (p : Probe)
      → count ≡ kind_slot_count (session_header c session) kind
      → 0 < count
      → probe_from t c session kind key_hash home count n idx p w
        ≡ (scan kind key_hash f home count n idx p, w)
  unfolding probe_from scan
  probe_from-scan key_hash home count zero idx p e pos = ground arith
  probe_from-scan key_hash home count (suc n) idx p e pos =
      let i = add64 home idx % count in
      let read = reads i (omega arith) in
      elim (ProbeStep-cases (probe_step key_hash (f i) i p)) [
        | inl (q, stops) ↦ ground arith
        | inr (q, goes) ↦ ground (arith, probe_from-scan key_hash home count n (idx + 1) q e pos)
      ]

  -- The probe is the scan of the function, and leaves the world alone.
  pub probe_slot-scan :
      (key_hash : ℕ)
      → let h = session_header c session in
        probe_slot t c session kind key_hash w
        ≡ (scan_all kind key_hash f (slot_index h kind key_hash) (kind_slot_count h kind), w)
  unfolding probe_slot scan_all
  probe_slot-scan key_hash =
      let h = session_header c session in
      elim (ℕ_discrete (kind_slot_count h kind) 0) [
        | yes none_there ↦ ground arith
        | no some_there ↦ ground (
          arith,
          probe_from-scan key_hash (slot_index h kind key_hash) (kind_slot_count h kind)
              (kind_slot_count h kind) 0 no_probe refl (omega arith),
        )
      ]
