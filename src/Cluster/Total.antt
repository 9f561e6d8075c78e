-- ===== src/Cluster/Total.antt =====
-- Actions of src/cluster.c that never return an error, whatever the transport does.
use tee_dist.Base.{
  ℕ, ◌+◌, if◌then◌else◌, ◌≡◌, refl, Bool, true, false, not, Option, none, some, List, [], ◌∷◌,
}
use tee_dist.Region.{Slot, RegionKind, cache, backup}
use tee_dist.Cluster.Monad.{
  Transport, Cluster, Result, ok, failed, Error, M, fail, pure, ◌>>=◌, bind_result, attempt,
  attempt_result,
}
use tee_dist.Cluster.Probe.{Probe, probe_slot}
use tee_dist.Cluster.Commit.{
  commit_slot_at, primary_session, replica_session, refresh_candidate, refresh_cache,
}
use tee_dist.Cluster.Votes.{Vote}
use tee_dist.Cluster.Write.{repair_candidate, repair_one, repair}

-- An action that always returns.
pub record Total {W A : Type 0} (m : M W A) : Type 0 where
  pub returns : (w : W) → (a : A) × (w' : W) × (m w ≡ (ok a, w'))

pure-Total : {W A : Type 0} (a : A) → Total {W = W} (pure a)
pure-Total a = record { returns = λ w. (a, w, refl) }

attempt_result_ok :
    {W A : Type 0} (x : Result A × W) → (a : Option A) × (w' : W) × (attempt_result x ≡ (ok a, w'))
attempt_result_ok (ok a, w) = (some a, w, refl)
attempt_result_ok (failed e, w) = (none, w, refl)

attempt-Total : {W A : Type 0} (m : M W A) → Total (attempt m)
attempt-Total m = record { returns = λ w. attempt_result_ok (m w) }

bind_result-Total :
    {W A B : Type 0} (x : Result A × W) (f : A → M W B)
    → (a : A) × (w' : W) × (x ≡ (ok a, w'))
    → ((a : A) → Total (f a))
    → (b : B) × (w' : W) × (bind_result x f ≡ (ok b, w'))
bind_result-Total (ok a, w) f first q = (q a).returns w
bind_result-Total (failed e, w) f (a, w', clash) q = absurd (cc)

bind-Total :
    {W A B : Type 0} (m : M W A) (f : A → M W B)
    → Total m
    → ((a : A) → Total (f a))
    → Total (m >>= f)
bind-Total m f p q = record { returns = λ w. bind_result-Total (m w) f (p.returns w) q }

pub bind_fail-world :
    {W A : Type 0} (x : Result A × W) (e : Error) → (bind_result x (λ _. fail {A = ℕ} e)).1 ≡ x.1
bind_fail-world (ok a, w) e = refl
bind_fail-world (failed d, w) e = refl

if-Total : {W A : Type 0} (b : Bool) (m n : M W A) → Total m → Total n → Total (if b then m else n)
if-Total true m n p q = p
if-Total false m n p q = q

module _ {W : Type 0} (t : Transport W) (c : Cluster) (key_hash : ℕ) (s : Slot) where
  commit_ignored-Total :
      (session : ℕ) (target : RegionKind) (i compare : ℕ)
      → Total (attempt (commit_slot_at t c session target i s compare) >>= λ _. pure tt)
  commit_ignored-Total session target i compare =
      bind-Total _ _ (attempt-Total (commit_slot_at t c session target i s compare))
        (λ _. pure-Total tt)

  refresh_candidate-Total :
      (session : ℕ) (p : Option Probe) → Total (refresh_candidate t c session s p)
  unfolding refresh_candidate
  refresh_candidate-Total session none = pure-Total tt
  refresh_candidate-Total session (some p) =
      if-Total (not p.candidate_valid) _ _ (pure-Total tt)
        (commit_ignored-Total session cache p.candidate_index p.candidate_slot.guard_epoch)

  pub refresh-Total : Total (refresh_cache t c key_hash s)
  unfolding refresh_cache
  refresh-Total = if-Total (not c.cache_on) _ _ (pure-Total tt) (
      bind-Total _ _ (attempt-Total (probe_slot t c (primary_session c key_hash) cache key_hash))
        (refresh_candidate-Total (primary_session c key_hash)))

  repair_candidate-Total :
      (session : ℕ) (p : Option Probe) → Total (repair_candidate t c session s p)
  unfolding repair_candidate
  repair_candidate-Total session none = pure-Total tt
  repair_candidate-Total session (some p) =
      if-Total (not p.candidate_valid) _ _ (pure-Total tt)
        (commit_ignored-Total session backup p.candidate_index p.candidate_slot.guard_epoch)

  pub repair-Total : (votes : List Vote) (idx : ℕ) → Total (repair t c key_hash s votes idx)
  unfolding repair repair_one
  repair-Total [] idx = pure-Total tt
  repair-Total (v ∷ votes) idx =
      bind-Total _ _
        (if-Total v.success _ _ (pure-Total tt) (
          bind-Total _ _
            (attempt-Total (probe_slot t c (replica_session c key_hash (idx + 1)) backup key_hash))
            (repair_candidate-Total (replica_session c key_hash (idx + 1)))))
        (λ _. repair-Total votes (idx + 1))
