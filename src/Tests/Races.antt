-- ===== src/Tests/Races.antt =====
-- The witnesses of the properties of clients that race for a slot.
use tee_dist.Base.{
  ℕ, ◌+◌, ◌%◌, ◌<◌, ◌≤◌, ◌≡◌, refl, arith, replicate, read_range, from_le, add64, u64_mod,
}
use tee_dist.Region.{Slot, prime, kind_slot_count, slot_of_bytes, slot_offset_for_index, word_at}
use tee_dist.Region.Codec.{SlotFits}
use tee_dist.Region.Commit.{slot_at}
use tee_dist.Cluster.Monad.{ok, session_header}
use tee_dist.Cluster.Local.{World, node, local, view}
use tee_dist.Cluster.Commit.{commit_slot_at}
use tee_dist.Cluster.Commits.{commit_slot_at-Committed}
use tee_dist.Cluster.Race.{ready, found, won, lost, Shared, outcome, Step, Reach, here}
use tee_dist.Cluster.Race.Commits.{commit_slot_at-Step}
use tee_dist.Cluster.Race.Winners.{Proposes, guard, IsStart, one_winner, epochs_won}
use tee_dist.Cluster.Race.Lost.{loser_overwrites}
use tee_dist.Tests.Toy.{
  toy_cluster, toy_world, toy_world-WorldFits, toy_region, toy_region-NodeFits,
}

-- What each client proposes on an epoch.
abbrev proposed : ℕ → ℕ → Slot
proposed i e = record {
  guard_epoch = add64 e 1;
  visible_epoch = add64 e 1;
  key_hash = 3;
  tie_breaker = i % u64_mod;
  flags = 1;
  value_len = 0;
  iv = replicate 16 0;
  mac = replicate 32 0;
  ciphertext = replicate 256 0;
}

proposed-SlotFits : (i e : ℕ) → SlotFits (proposed i e)
proposed-SlotFits i e = record {
  guard_fits = omega arith;
  visible_fits = omega arith;
  key_hash_fits = omega arith;
  tie_breaker_fits = omega arith;
  flags_fit = omega arith;
  value_len_fits = omega arith;
  iv_fits = refl;
  mac_fits = refl;
  ciphertext_fits = refl;
}

proposed-Proposes : Proposes proposed
proposed-Proposes = record { fits = proposed-SlotFits; epoch = λ i e. refl }

abbrev race : Shared
race = record { region = toy_region; pc = λ i. ready }

race-IsStart : IsStart 88 race
race-IsStart = record {
  mapped = toy_region-NodeFits.mapped;
  inside = omega arith;
  aligned = refl;
  idle = λ i. refl;
}

guard_race : guard 88 race ≡ 0
unfolding slot_at slot_of_bytes word_at read_range from_le
guard_race = refl

loser_overwrites_example :
    (t : Shared) × Reach 88 proposed race 6 t
    × (t.pc 0 ≡ won (guard 88 race))
    × (t.pc 1 ≡ lost (guard 88 race))
    × (slot_at t.region.memory 88 ≡ proposed 1 (guard 88 race))
loser_overwrites_example =
    loser_overwrites 88 proposed race race-IsStart proposed-Proposes (omega (arith, guard_race))
      refl

-- The end of that race.
over : (t : Shared) × Reach 88 proposed race 6 t × (t.pc 0 ≡ won (guard 88 race))
over =
    let (t, steps, wins, loses, slot) =
      loser_overwrites 88 proposed race race-IsStart proposed-Proposes (omega (arith, guard_race))
        refl in
    (t, steps, wins)

one_winner_example : ◌≡◌ {A = ℕ} 0 0
one_winner_example =
    one_winner 88 6 proposed race over.0 0 0 (guard 88 race) race-IsStart proposed-Proposes
      (omega (arith, guard_race)) over.1 over.2 over.2

epochs_won_example :
    (guard 88 race ≤ guard 88 over.0)
    × (guard 88 over.0 ≤ guard 88 race + 6)
    × ((e : ℕ) → guard 88 race ≤ e → e < guard 88 over.0 → (i : ℕ) × (over.0.pc i ≡ won e))
epochs_won_example =
    epochs_won 88 0 6 proposed race race over.0 race-IsStart proposed-Proposes
      (omega (arith, guard_race)) here over.1

-- The clients after they have found the first epoch of the slot.
abbrev looked : Shared
looked = record { region = toy_region; pc = λ i. found 0 }

one_prime : 0 < kind_slot_count (session_header toy_cluster 0) prime
unfolding kind_slot_count
one_prime = omega arith

committed :
    (w' : World) × (commit_slot_at local toy_cluster 0 prime 0 (proposed 1 0) 0 toy_world
      ≡ (ok (view toy_cluster toy_world 0 prime 0).guard_epoch, w'))
committed =
    let (w', commits, done) =
      commit_slot_at-Committed toy_cluster toy_world 0 prime 0 (proposed 1 0) 0 toy_world-WorldFits
        (omega arith) one_prime (proposed-SlotFits 1 0) in
    (w', commits)

commit_slot_at-Step_example :
    (m : Shared) × (t : Shared) × Step
      (slot_offset_for_index (session_header toy_cluster 0) prime 0)
      proposed
      looked
      m
    × Step (slot_offset_for_index (session_header toy_cluster 0) prime 0) proposed m t
    × (t.region ≡ node committed.0 0)
    × (t.pc 1 ≡ outcome (view toy_cluster toy_world 0 prime 0).guard_epoch 0)
commit_slot_at-Step_example =
    commit_slot_at-Step toy_cluster 0 prime 0 proposed looked 1 0
      (view toy_cluster toy_world 0 prime 0).guard_epoch toy_world committed.0 (omega arith) refl
      refl committed.1
