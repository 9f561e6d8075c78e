-- ===== src/Tests/Slots.antt =====
-- The witnesses of the properties of slots, probes, commits and votes.
use tee_dist.Base.{
  ◌∙◌, sym, true, Bytes, Option, [], arith, false, from_le, none, overlay, read_range, refl, some,
  to_le, write_range, ◌+◌, ◌<◌, ◌∷◌, ◌≡◌, ◌≤◌, ◌⊎◌,
}
use tee_dist.Cluster.Candidate.{probe-IsProbed}
use tee_dist.Cluster.Commit.{commit_slot_at}
use tee_dist.Cluster.Commits.{Committed, commit_slot_at-Committed}
use tee_dist.Cluster.Local.{World, local, view}
use tee_dist.Cluster.Monad.{Result, failed, ok, session_header}
use tee_dist.Cluster.Probe.{
  Probe, fetch_slot_at, found_probe, no_probe, note_candidate, probe_from, probe_slot, probe_step,
  slot_is_empty, zero_slot,
}
use tee_dist.Cluster.Probe.Found.{IsProbed}
use tee_dist.Cluster.Finish.{Finished, finish_write-Finished}
use tee_dist.Cluster.Votes.{Ruling, evaluate_votes, evaluate_votes-Ruling}
use tee_dist.Common.{hash64_bytes, hash64_from, hash64_string}
use tee_dist.Crypto.{
  crypto_mac, decode_slot, mac_message, make_slot, sha256_two_parts, tie_breaker_of, unsigned_slot,
  word_of_digest,
}
use tee_dist.Crypto.Make.{IsMade, make_slot-IsMade}
use tee_dist.Crypto.Open.{
  SameContent, decode_slot-make_slot, decode_slot_authentic, mac_message-injective,
  make_slot-decode_slot,
}
use tee_dist.Region.{
  Slot, backup, cache, kind_base_offset, kind_slot_count, prime, read_bytes, slot_index,
  slot_of_bytes, slot_offset_for_index, word_at,
}
use tee_dist.Region.Geometry.{slots_disjoint}
use tee_dist.Cluster.Commit.{primary_session}
use tee_dist.Cluster.Probe.Step.{matches_key}
use tee_dist.Cluster.Write.{finish_write}
use tee_dist.Cluster.Refused.{finish_write_succeeds}
use tee_dist.Tests.Toy.{
  toy, toy-OpenSslLaws, toy_cluster, toy_ctx, toy_header, toy_region-NodeFits, toy_world,
  toy_world-WorldFits,
}

abbrev two : Bytes
two = b'v' ∷ b'w' ∷ []

abbrev some_or : Option Slot → Slot
some_or none = zero_slot
some_or (some s) = s

abbrev ok_or : Result Probe → Probe
ok_or (ok p) = p
ok_or (failed e) = no_probe

abbrev made_option : Option Slot
made_option = make_slot toy toy_ctx (b'k' ∷ []) (b'v' ∷ b'w' ∷ []) 1 7

abbrev made : Slot
made = some_or made_option

made_ok : made_option ≡ some made
unfolding make_slot unsigned_slot crypto_mac mac_message tie_breaker_of word_of_digest
    sha256_two_parts hash64_string hash64_bytes hash64_from to_le overlay write_range
made_ok = refl

abbrev probed : Result Probe × World
probed = probe_slot local toy_cluster 0 prime 12638187200555641996 toy_world

abbrev probe : Probe
probe = ok_or probed.0

probed_ok : probed ≡ (ok probe, toy_world)
unfolding probe_slot probe_from fetch_slot_at probe_step found_probe note_candidate slot_is_empty
    read_bytes slot_of_bytes word_at kind_slot_count kind_base_offset slot_index
    slot_offset_for_index from_le read_range
probed_ok = refl

made-IsMade : IsMade toy toy_ctx (b'k' ∷ []) (b'v' ∷ b'w' ∷ []) 1 7 made
made-IsMade =
    make_slot-IsMade toy toy-OpenSslLaws toy_ctx (b'k' ∷ []) (b'v' ∷ b'w' ∷ []) 1 7 made
      (omega arith) (omega arith) made_ok

opened : decode_slot toy toy_ctx made ≡ some (b'v' ∷ b'w' ∷ [])
opened = decode_slot-make_slot toy toy_ctx (b'k' ∷ []) (b'v' ∷ b'w' ∷ []) 1 7 made refl made-IsMade

one_prime : 0 < kind_slot_count toy_header prime
unfolding kind_slot_count
one_prime = omega arith

one_cache : 0 < kind_slot_count toy_header cache
unfolding kind_slot_count
one_cache = omega arith

one_backup : 0 < kind_slot_count (session_header toy_cluster 1) backup
unfolding kind_slot_count
one_backup = omega arith

make_slot-IsMade_example : IsMade toy toy_ctx (b'k' ∷ []) (b'v' ∷ b'w' ∷ []) 1 7 made
make_slot-IsMade_example =
    make_slot-IsMade toy toy-OpenSslLaws toy_ctx (b'k' ∷ []) (b'v' ∷ b'w' ∷ []) 1 7 made
      (omega arith) (omega arith) made_ok

make_slot-decode_slot_example : decode_slot toy toy_ctx made ≡ some (b'v' ∷ b'w' ∷ [])
make_slot-decode_slot_example =
    make_slot-decode_slot toy toy-OpenSslLaws toy_ctx (b'k' ∷ []) (b'v' ∷ b'w' ∷ []) 1 7 made
      (omega arith) (omega arith) refl made_ok

decode_slot_authentic_example :
    (two ≡ two)
    × (made.key_hash ≡ hash64_string (b'k' ∷ []))
    × (made.guard_epoch ≡ 7)
    × (made.visible_epoch ≡ 7)
    × (made.flags ≡ 1)
decode_slot_authentic_example =
    decode_slot_authentic toy toy_ctx (b'k' ∷ []) (b'v' ∷ b'w' ∷ []) 1 7 made made
      (b'v' ∷ b'w' ∷ []) made-IsMade made-IsMade.fits refl (λ e. refl) opened

mac_message-injective_example : SameContent made made
mac_message-injective_example =
    mac_message-injective toy made made made-IsMade.fits made-IsMade.fits refl

probe-IsProbed_example :
    IsProbed 12638187200555641996
      (view toy_cluster toy_world 0 prime)
      (kind_slot_count (session_header toy_cluster 0) prime)
      probe
probe-IsProbed_example =
    probe-IsProbed toy_cluster 0 (omega arith) prime 12638187200555641996 toy_world probe
      toy_world-WorldFits probed_ok

commit_slot_at-Committed_example :
    (w' : World) × (commit_slot_at local toy_cluster 1 backup 0 made 0 toy_world
      ≡ (ok (view toy_cluster toy_world 1 backup 0).guard_epoch, w'))
    × Committed toy_cluster toy_world w' 1 backup 0 made 0
commit_slot_at-Committed_example =
    commit_slot_at-Committed toy_cluster toy_world 1 backup 0 made 0 toy_world-WorldFits
      (omega arith) one_backup made-IsMade.fits

evaluate_votes-Ruling_example :
    Ruling
      (record { success = false; observed_epoch = 3; observed_tie = 9 } ∷ [])
      4
      (evaluate_votes (record { success = false; observed_epoch = 3; observed_tie = 9 } ∷ []) 4)
evaluate_votes-Ruling_example =
    evaluate_votes-Ruling (record { success = false; observed_epoch = 3; observed_tie = 9 } ∷ []) 4

slots_disjoint_example :
    (slot_offset_for_index toy_header prime 0 + 344 ≤ slot_offset_for_index toy_header cache 0)
    ⊎ (slot_offset_for_index toy_header cache 0 + 344 ≤ slot_offset_for_index toy_header prime 0)
slots_disjoint_example =
    slots_disjoint toy_header prime cache 0 0 1120 toy_region-NodeFits.layout one_prime one_cache
      (λ e. omega arith)

abbrev home_probed : Result Probe × World
home_probed =
    probe_slot local toy_cluster (primary_session toy_cluster made.key_hash) prime made.key_hash
      toy_world

home_probed_ok : home_probed ≡ (ok (ok_or home_probed.0), toy_world)
unfolding probe_slot probe_from fetch_slot_at probe_step found_probe note_candidate slot_is_empty
    read_bytes slot_of_bytes word_at kind_slot_count kind_base_offset slot_index
    slot_offset_for_index from_le read_range primary_session make_slot unsigned_slot crypto_mac
    mac_message tie_breaker_of word_of_digest sha256_two_parts hash64_string hash64_bytes
    hash64_from to_le overlay write_range
home_probed_ok = refl

made_matches : matches_key made.key_hash made ≡ true
unfolding make_slot unsigned_slot crypto_mac mac_message tie_breaker_of word_of_digest
    sha256_two_parts hash64_string hash64_bytes hash64_from to_le overlay write_range
made_matches = refl

finish_write_succeeds_example :
    (w' : World) × (finish_write local toy_cluster made.key_hash
        (ok_or home_probed.0)
        made
        []
        1
        toy_world
      ≡ (ok 1, w'))
finish_write_succeeds_example =
    finish_write_succeeds toy_cluster (omega arith) made.key_hash (ok_or home_probed.0) made
      made-IsMade.fits (made-IsMade.guard ∙ sym made-IsMade.visible) made_matches toy_world [] 1
      toy_world-WorldFits home_probed_ok

finish_write-Finished_example :
    Finished local toy_cluster made.key_hash (ok_or home_probed.0) made [] 1 toy_world
finish_write-Finished_example =
    finish_write-Finished local toy_cluster made.key_hash (ok_or home_probed.0) made [] 1 toy_world
