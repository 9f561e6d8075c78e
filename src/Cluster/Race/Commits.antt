-- ===== src/Cluster/Race/Commits.antt =====
-- A commit of src/cluster.c is two steps of the race: `td_commit_slot_at` on regions that every session
-- reaches.
use tee_dist.Base.{
  ℕ, ◌<◌, ◌≡◌, refl, sym, ap, ◌∙◌, arith, Option, none, some, length, set, length-set, add64,
}
use tee_dist.Region.{
  RegionKind, Slot, Region, body_start, body_bytes, slot_offset_for_index, write_bytes, cas64,
}
use tee_dist.Cluster.Monad.{Cluster, Result, ok, session_header, required_result, required}
use tee_dist.Cluster.Local.{World, node, no_region, local, put_region, put_swapped, get_or-set_self}
use tee_dist.Cluster.Commit.{commit_slot_at}
use tee_dist.Cluster.Landing.{bind_ok}
use tee_dist.Cluster.Race.{found, stored, Shared, update, outcome, Step, store, swap}
use tee_dist.Cluster.Race.Winners.{update_self}

ok_injective : {A : Type 0} (a b : A) → Path (Result A) (ok a) (ok b) → a ≡ b
ok_injective a b h = cc

-- A write of the body that succeeds.
put_region_ok :
    (session : ℕ) (w w' : World) (o : Option Region) (u : Unit {0})
    → required_result (put_region session w o) ≡ (ok u, w')
    → (r : Region) × (o ≡ some r) × (w' ≡ set w session r)
unfolding put_region
put_region_ok session w w' none u h = absurd cc
put_region_ok session w w' (some r) u h = (r, refl, ap (λ x. x.1) (sym h))

-- A compare-and-swap that succeeds.
put_swapped_ok :
    (session observed : ℕ) (w w' : World) (o : Option (ℕ × Region))
    → required_result (put_swapped session w o) ≡ (ok observed, w')
    → (r : Region) × (o ≡ some (observed, r)) × (w' ≡ set w session r)
unfolding put_swapped
put_swapped_ok session observed w w' none h = absurd cc
put_swapped_ok session observed w w' (some (saw, r)) h =
    (r, ap (λ x. some (x, r)) (ok_injective saw observed (ap (λ x. x.0) h)), ap (λ x. x.1) (sym h))

-- The two accesses, as steps of client `i`.
two_steps :
    (off session : ℕ) (proposals : ℕ → ℕ → Slot) (s : Shared) (i e observed : ℕ) (w w₁ w' : World)
    (r₁ r₂ : Region)
    → session < length w
    → s.region ≡ node w session
    → s.pc i ≡ found e
    → write_bytes (node w session) (add64 off body_start) (body_bytes (proposals i e)) ≡ some r₁
    → w₁ ≡ set w session r₁
    → cas64 (node w₁ session) off e (proposals i e).visible_epoch ≡ some (observed, r₂)
    → w' ≡ set w₁ session r₂
    → (m : Shared) × (t : Shared) × Step off proposals s m
      × Step off proposals m t
      × (t.region ≡ node w' session)
      × (t.pc i ≡ outcome observed e)
two_steps off session proposals s i e observed w w₁ w' r₁ r₂ there same has writes now₁ swaps now₂ =
    let m : Shared = record { region = r₁; pc = update s.pc i (stored e) } in
    let at₁ : node w₁ session ≡ r₁ =
      ap (λ v. node v session) now₁ ∙ get_or-set_self w session r₁ no_region there in
    let there₁ : session < length w₁ = omega (arith, ap length now₁, length-set w session r₁) in
    let at₂ : node w' session ≡ r₂ =
      ap (λ v. node v session) now₂ ∙ get_or-set_self w₁ session r₂ no_region there₁ in
    (
      m,
      record { region = r₂; pc = update m.pc i (outcome observed e) },
      store s i e r₁ has (
          ap (λ r. write_bytes r (add64 off body_start) (body_bytes (proposals i e))) same
          ∙ writes),
      swap m i e observed r₂ (update_self s.pc i (stored e))
          (ap (λ r. cas64 r off e (proposals i e).visible_epoch) (sym at₁) ∙ swaps),
      sym at₂,
      update_self m.pc i (outcome observed e),
    )

-- If a client has found an epoch of a slot and its commit to the slot, with no access of another client in
-- between, succeeds, then the commit is two steps of the race, the write of the body and the
-- compare-and-swap, and the client knows that it won or lost by the word that the commit observes.
pub commit_slot_at-Step :
    (c : Cluster) (session : ℕ) (kind : RegionKind) (j : ℕ) (proposals : ℕ → ℕ → Slot) (s : Shared)
    (i e observed : ℕ) (w w' : World)
    → session < length w
    → s.region ≡ node w session
    → s.pc i ≡ found e
    → commit_slot_at local c session kind j (proposals i e) e w ≡ (ok observed, w')
    → (m : Shared) × (t : Shared) × Step
        (slot_offset_for_index (session_header c session) kind j)
        proposals
        s
        m
      × Step (slot_offset_for_index (session_header c session) kind j) proposals m t
      × (t.region ≡ node w' session)
      × (t.pc i ≡ outcome observed e)
unfolding commit_slot_at
commit_slot_at-Step c session kind j proposals s i e observed w w' there same has commits =
    let off = slot_offset_for_index (session_header c session) kind j in
    let (unit, w₁, wrote, rest) =
      bind_ok
        (required (local.write_region session (add64 off body_start) (body_bytes (proposals i e))))
        (λ u. required (local.cas64 session off e (proposals i e).visible_epoch)) w observed w'
        commits in
    let (r₁, writes, now₁) =
      put_region_ok session w w₁
        (write_bytes (node w session) (add64 off body_start) (body_bytes (proposals i e))) unit
        wrote in
    let (r₂, swaps, now₂) =
      put_swapped_ok session observed w₁ w'
        (cas64 (node w₁ session) off e (proposals i e).visible_epoch) rest in
    two_steps off session proposals s i e observed w w₁ w' r₁ r₂ there same has writes now₁ swaps
      now₂
