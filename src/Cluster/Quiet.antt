-- ===== src/Cluster/Quiet.antt =====
-- Actions that leave the slots of one kind alone on every node, composed as src/cluster.c composes
-- them.
use tee_dist.Base.{
  ℕ, ◌+◌, ◌<◌, if◌then◌else◌, ◌≡◌, ◌≢◌, refl, sym, ap, ◌∙◌, arith, Bool, true, false, Option, none,
  some,
}
use native.Mathlib.Decide.{ℕ_discrete}
use tee_dist.Region.{
  Slot, RegionKind, RegionHeader, prime, cache, backup, kind_slot_count, slot_index,
}
use tee_dist.Region.Codec.{SlotFits}
use tee_dist.Region.Geometry.{slots_before}
use tee_dist.Cluster.Monad.{
  Cluster, session_header, session_count, M, Result, ok, failed, bind_result, attempt_result, pure,
  fail, ◌>>=◌, attempt, Error,
}
use tee_dist.Cluster.Probe.{Probe, probe_slot}
use tee_dist.Cluster.Probe.Scan.{scan_all, probe_slot-scan}
use tee_dist.Cluster.Probe.Found.{IsProbed, own, fresh, scan_all-IsProbed}
use tee_dist.Cluster.Commit.{commit_slot_at}
use tee_dist.Cluster.Local.{World, local, WorldFits, view}
use tee_dist.Cluster.Commits.{fetch_slot_at-view, Committed, commit_slot_at-Committed}

-- `w'` fits, and its slots of the kind are those of `w`.
pub record Keeps (c : Cluster) (kind : RegionKind) (w w' : World) : Type 0 where
  pub fits : WorldFits c w'
  pub same :
      (session i : ℕ)
      → i < kind_slot_count (session_header c session) kind
      → view c w' session kind i ≡ view c w session kind i

pub Keeps-refl : (c : Cluster) (kind : RegionKind) (w : World) → WorldFits c w → Keeps c kind w w
Keeps-refl c kind w fits = record { fits = fits; same = λ session i lt. refl }

pub Keeps-same :
    (c : Cluster) (kind : RegionKind) (w w' : World) → WorldFits c w → w ≡ w' → Keeps c kind w w'
Keeps-same c kind w w' fits e = record {
  fits = rw e at fits;
  same = λ session i lt. ap (λ x. view c x session kind i) (sym e);
}

pub Keeps-trans :
    (c : Cluster) (kind : RegionKind) (u v w : World)
    → Keeps c kind u v
    → Keeps c kind v w
    → Keeps c kind u w
Keeps-trans c kind u v w a b = record {
  fits = b.fits;
  same = λ session i lt. b.same session i lt ∙ a.same session i lt;
}

-- Slots of different kinds are different slots.
kinds_apart :
    (h : RegionHeader) (j k : RegionKind) (a b : ℕ)
    → j ≢ k
    → a < kind_slot_count h j
    → b < kind_slot_count h k
    → slots_before h j + a ≢ slots_before h k + b
unfolding kind_slot_count
kinds_apart h prime prime a b ne la lb = absurd (ne refl)
kinds_apart h prime cache a b ne la lb = omega arith
kinds_apart h prime backup a b ne la lb = omega arith
kinds_apart h cache prime a b ne la lb = omega arith
kinds_apart h cache cache a b ne la lb = absurd (ne refl)
kinds_apart h cache backup a b ne la lb = omega arith
kinds_apart h backup prime a b ne la lb = omega arith
kinds_apart h backup cache a b ne la lb = omega arith
kinds_apart h backup backup a b ne la lb = absurd (ne refl)

-- A commit to one kind keeps every other kind.
pub Committed-Keeps :
    (c : Cluster) (w w' : World) (session : ℕ) (target kind : RegionKind) (i : ℕ) (s : Slot)
    (compare : ℕ)
    → target ≢ kind
    → i < kind_slot_count (session_header c session) target
    → Committed c w w' session target i s compare
    → Keeps c kind w w'
Committed-Keeps c w w' session target kind i s compare ne lt done = record {
  fits = done.fits;
  same = λ other j lj. elim (ℕ_discrete session other) [
    | no apart ↦ rw (done.others other apart)
    | yes same ↦
        let lj' = rw (← same) at lj in
        rw (← same)
          (done.kept kind j lj' (kinds_apart (session_header c session) target kind i j ne lt lj'))
  ];
}

-- The action keeps the kind in every world that fits, whatever it returns.
pub record Quiet {A : Type 0} (c : Cluster) (kind : RegionKind) (m : M World A) : Type 0 where
  pub keeps : (w : World) → WorldFits c w → Keeps c kind w (m w).1

module _ (c : Cluster) (kind : RegionKind) where
  bind_result-Keeps :
      {A B : Type 0} (w : World) (x : Result A × World) (f : A → M World B)
      → Keeps c kind w x.1
      → ((a : A) → Quiet c kind (f a))
      → Keeps c kind w (bind_result x f).1
  bind_result-Keeps w (ok a, w₁) f k q = Keeps-trans c kind w w₁ _ k ((q a).keeps w₁ k.fits)
  bind_result-Keeps w (failed e, w₁) f k q = k

  pub bind-Quiet :
      {A B : Type 0} (m : M World A) (f : A → M World B)
      → Quiet c kind m
      → ((a : A) → Quiet c kind (f a))
      → Quiet c kind (m >>= f)
  bind-Quiet m f q r = record { keeps = λ w fits. bind_result-Keeps w (m w) f (q.keeps w fits) r }

  pub pure-Quiet : {A : Type 0} (a : A) → Quiet c kind (pure a)
  pure-Quiet a = record { keeps = Keeps-refl c kind }

  pub fail-Quiet : {A : Type 0} (e : Error) → Quiet c kind (fail {A = A} e)
  fail-Quiet e = record { keeps = Keeps-refl c kind }

  attempt_result-Keeps :
      {A : Type 0} (w : World) (x : Result A × World)
      → Keeps c kind w x.1
      → Keeps c kind w (attempt_result x).1
  attempt_result-Keeps w (ok a, w₁) k = k
  attempt_result-Keeps w (failed e, w₁) k = k

  pub attempt-Quiet : {A : Type 0} (m : M World A) → Quiet c kind m → Quiet c kind (attempt m)
  attempt-Quiet m q = record { keeps = λ w fits. attempt_result-Keeps w (m w) (q.keeps w fits) }

  pub if-Quiet :
      {A : Type 0} (b : Bool) (m n : M World A)
      → Quiet c kind m
      → Quiet c kind n
      → Quiet c kind (if b then m else n)
  if-Quiet true m n p q = p
  if-Quiet false m n p q = q

  pub commit-Quiet :
      (session : ℕ) (target : RegionKind) (i : ℕ) (s : Slot) (compare : ℕ)
      → target ≢ kind
      → session < session_count c
      → i < kind_slot_count (session_header c session) target
      → SlotFits s
      → Quiet c kind (commit_slot_at local c session target i s compare)
  commit-Quiet session target i s compare ne there lt sf = record {
    keeps = λ w fits.
        let (w', run, done) =
          commit_slot_at-Committed c w session target i s compare fits there lt sf in
        rw run (Committed-Keeps c w w' session target kind i s compare ne lt done);
  }

-- A probe returns the scan of what it sees, and changes nothing.
pub probe_slot-view :
    (c : Cluster) (w : World) (session : ℕ) (kind : RegionKind) (key_hash : ℕ)
    → WorldFits c w
    → session < session_count c
    → let h = session_header c session in
      probe_slot local c session kind key_hash w ≡ (
        scan_all kind key_hash
            (view c w session kind)
            (slot_index h kind key_hash)
            (kind_slot_count h kind),
        w,
      )
probe_slot-view c w session kind key_hash fits there =
    probe_slot-scan local c session kind (view c w session kind) w
      (fetch_slot_at-view c w fits session there kind) key_hash

-- The candidate of a probe is a slot of the kind.
pub probe_index :
    (key_hash : ℕ) (f : ℕ → Slot) (count : ℕ) (p : Probe)
    → IsProbed key_hash f count p
    → p.candidate_index < count
probe_index key_hash f count p (own _ _ hit) = rw hit.candidate_at hit.in_range
probe_index key_hash f count p (fresh _ _ free) = free.in_range

module _ (c : Cluster) (kind : RegionKind) (session : ℕ) (there : session < session_count c)
    (target : RegionKind) (key_hash : ℕ) where
  -- What a caller of the probe is told of the candidate.
  abbrev InRange : Probe → Type 0
  InRange p = p.candidate_index < kind_slot_count (session_header c session) target

  probed-Keeps :
      {B : Type 0} (w : World) (x : Result Probe) (f : Probe → M World B)
      → WorldFits c w
      → ((p : Probe) → x ≡ ok p → InRange p)
      → ((p : Probe) → InRange p → Quiet c kind (f p))
      → Keeps c kind w (bind_result (x, w) f).1
  probed-Keeps w (ok p) f fits bound q = (q p (bound p refl)).keeps w fits
  probed-Keeps w (failed e) f fits bound q = Keeps-refl c kind w fits

  attempted-Keeps :
      {B : Type 0} (w : World) (x : Result Probe) (f : Option Probe → M World B)
      → WorldFits c w
      → ((p : Probe) → x ≡ ok p → InRange p)
      → Quiet c kind (f none)
      → ((p : Probe) → InRange p → Quiet c kind (f (some p)))
      → Keeps c kind w (bind_result (attempt_result (x, w)) f).1
  attempted-Keeps w (ok p) f fits bound r q = (q p (bound p refl)).keeps w fits
  attempted-Keeps w (failed e) f fits bound r q = r.keeps w fits

  scan_bound :
      (w : World) (p : Probe)
      → let h = session_header c session in
        scan_all target key_hash
            (view c w session target)
            (slot_index h target key_hash)
            (kind_slot_count h target)
          ≡ ok p
        → InRange p
  scan_bound w p e =
      probe_index key_hash (view c w session target) _ p
        (scan_all-IsProbed key_hash (view c w session target) _ target _ p e)

  pub probe-Quiet :
      {B : Type 0} (f : Probe → M World B)
      → ((p : Probe) → InRange p → Quiet c kind (f p))
      → Quiet c kind (probe_slot local c session target key_hash >>= f)
  probe-Quiet f q = record {
    keeps = λ w fits.
        rw (probe_slot-view c w session target key_hash fits there)
          (probed-Keeps w _ f fits (scan_bound w) q);
  }

  pub attempt_probe-Quiet :
      {B : Type 0} (f : Option Probe → M World B)
      → Quiet c kind (f none)
      → ((p : Probe) → InRange p → Quiet c kind (f (some p)))
      → Quiet c kind (attempt (probe_slot local c session target key_hash) >>= f)
  attempt_probe-Quiet f r q = record {
    keeps = λ w fits.
        rw (probe_slot-view c w session target key_hash fits there)
          (attempted-Keeps w _ f fits (scan_bound w) r q);
  }
