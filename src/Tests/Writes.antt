-- ===== src/Tests/Writes.antt =====
-- The witnesses of the properties of reads and writes.
use tee_dist.Base.{
  Bytes, [], arith, false, from_le, none, overlay, read_range, refl, some, to_le, true, write_range,
  ℕ, ◌∷◌, ◌≡◌,
}
use tee_dist.Cluster.Commit.{
  commit_slot_at, primary_session, refresh_cache, refresh_candidate, replica_session,
}
use tee_dist.Cluster.Local.{World, local, put_region, put_swapped}
use tee_dist.Cluster.Monad.{Result, failed, key_not_found, ok}
use tee_dist.Cluster.Probe.{
  fetch_slot_at, found_probe, note_candidate, probe_from, probe_slot, probe_step, slot_is_empty,
  slot_present,
}
use tee_dist.Cluster.Read.{read_kv}
use tee_dist.Cluster.Votes.{evaluate_votes, least_refusal, rule_of, tally}
use tee_dist.Cluster.Write.{
  backup_count, committed, delete_kv, finish_write, observed_after, propose, repair,
  repair_candidate, repair_one, replicate_slot, vote_of, with_proposal, write_value,
}
use tee_dist.Common.{hash64_bytes, hash64_from, hash64_string}
use tee_dist.Crypto.{
  crypto_mac, mac_message, make_slot, sha256_two_parts, tie_breaker_of, unsigned_slot,
  word_of_digest,
}
use tee_dist.Region.{
  body_bytes, bytes_of_slot, cas64, kind_base_offset, kind_slot_count, prime, read_bytes,
  slot_index, slot_of_bytes, slot_offset_for_index, word_at, write_bytes,
}
use tee_dist.Cluster.Quiet.{Keeps}
use tee_dist.Cluster.ReadBack.{write_value-read_kv, delete_kv-read_kv}
use tee_dist.Cluster.Refused.{write_value_refused}
use tee_dist.Tests.Toy.{toy, toy-OpenSslLaws, toy_cluster, toy_world, toy_world-WorldFits}

abbrev pub key : Bytes
key = b'k' ∷ []

abbrev pub value : Bytes
value = b'v' ∷ []

-- A write into the empty cluster, and a deletion.
abbrev pub written : Result ℕ × World
written = write_value toy local toy_cluster key value false false toy_world

abbrev deleted : Result ℕ × World
deleted = delete_kv toy local toy_cluster key toy_world

-- An update of a key that is not there.
abbrev refused : Result ℕ × World
refused = write_value toy local toy_cluster key value true false toy_world

pub written_ok : written ≡ (ok 1, written.1)
unfolding write_value with_proposal replicate_slot finish_write repair repair_one repair_candidate
    propose backup_count vote_of observed_after committed evaluate_votes tally rule_of least_refusal
    probe_slot probe_from fetch_slot_at probe_step found_probe note_candidate slot_is_empty
    slot_present commit_slot_at primary_session replica_session refresh_cache refresh_candidate
    make_slot unsigned_slot crypto_mac mac_message tie_breaker_of word_of_digest sha256_two_parts
    put_region put_swapped read_bytes write_bytes cas64 slot_of_bytes bytes_of_slot body_bytes
    word_at kind_slot_count kind_base_offset slot_index slot_offset_for_index hash64_string
    hash64_bytes hash64_from to_le from_le read_range overlay write_range
written_ok = refl

deleted_ok : deleted ≡ (ok 1, deleted.1)
unfolding delete_kv write_value with_proposal replicate_slot finish_write repair repair_one
    repair_candidate propose backup_count vote_of observed_after committed evaluate_votes tally
    rule_of least_refusal probe_slot probe_from fetch_slot_at probe_step found_probe note_candidate
    slot_is_empty slot_present commit_slot_at primary_session replica_session refresh_cache
    refresh_candidate make_slot unsigned_slot crypto_mac mac_message tie_breaker_of word_of_digest
    sha256_two_parts put_region put_swapped read_bytes write_bytes cas64 slot_of_bytes bytes_of_slot
    body_bytes word_at kind_slot_count kind_base_offset slot_index slot_offset_for_index
    hash64_string hash64_bytes hash64_from to_le from_le read_range overlay write_range
deleted_ok = refl

refused_failed : refused ≡ (failed key_not_found, refused.1)
unfolding write_value with_proposal replicate_slot finish_write repair repair_one repair_candidate
    propose backup_count vote_of observed_after committed evaluate_votes tally rule_of least_refusal
    probe_slot probe_from fetch_slot_at probe_step found_probe note_candidate slot_is_empty
    slot_present commit_slot_at primary_session replica_session refresh_cache refresh_candidate
    make_slot unsigned_slot crypto_mac mac_message tie_breaker_of word_of_digest sha256_two_parts
    put_region put_swapped read_bytes write_bytes cas64 slot_of_bytes bytes_of_slot body_bytes
    word_at kind_slot_count kind_base_offset slot_index slot_offset_for_index hash64_string
    hash64_bytes hash64_from to_le from_le read_range overlay write_range
refused_failed = refl

write_value-read_kv_example :
    (w : World) × (read_kv toy local toy_cluster key written.1 ≡ (ok (some value), w))
write_value-read_kv_example =
    write_value-read_kv toy toy-OpenSslLaws toy_cluster (omega arith) key value false toy_world 1
      written.1 toy_world-WorldFits written_ok

delete_kv-read_kv_example : read_kv toy local toy_cluster key deleted.1 ≡ (ok none, deleted.1)
delete_kv-read_kv_example =
    delete_kv-read_kv toy toy-OpenSslLaws toy_cluster (omega arith) key toy_world 1 deleted.1
      toy_world-WorldFits deleted_ok

write_value_refused_example : Keeps toy_cluster prime toy_world refused.1
write_value_refused_example =
    write_value_refused toy toy-OpenSslLaws toy_cluster (omega arith) key value true false toy_world
      key_not_found refused.1 toy_world-WorldFits refused_failed
