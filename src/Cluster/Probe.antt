-- ===== src/Cluster/Probe.antt =====
-- Finding a key among the slots of a kind: `td_probe_slot` and what it calls (src/cluster.c).
-- The profile pointer is NULL: a profile only counts.
pub mod Step
pub mod Scan
pub mod Found
pub mod Rewrite
use tee_dist.Base.{
  ℕ, zero, suc, ◌+◌, add64, ◌%◌, ◌==◌, if◌then◌else◌, Bool, true, false, not, ◌&&◌, bit_and, some,
  none, replicate,
}
use tee_dist.Region.{
  Slot, RegionKind, slot_bytes, slot_of_bytes, kind_slot_count, slot_index, slot_offset_for_index,
  flag_valid, flag_tombstone,
}
use tee_dist.Cluster.Monad.{
  Transport, Cluster, session_header, M, pure, fail, ◌>>=◌, required, no_slots, region_full,
}

-- `(slot->flags & flag) != 0`
abbrev pub has_flag : Slot → ℕ → Bool
has_flag s flag = not (bit_and s.flags flag == 0)

-- `td_slot_is_empty`
unfoldable pub slot_is_empty : Slot → Bool
slot_is_empty s = s.guard_epoch == 0 && s.visible_epoch == 0 && s.key_hash == 0 && s.flags == 0

-- `td_slot_present`
unfoldable pub slot_present : Slot → ℕ → Bool
slot_present s key_hash =
    s.guard_epoch == s.visible_epoch
    && s.key_hash == key_hash
    && has_flag s flag_valid
    && not (has_flag s flag_tombstone)

-- `td_slot_probe_t`
pub record Probe : Type 0 where
  pub slot : Slot
  pub index : ℕ
  pub found : Bool
  pub tombstone : Bool
  pub candidate_slot : Slot
  pub candidate_index : ℕ
  pub candidate_valid : Bool

-- A slot of 344 zero bytes.
abbrev pub zero_slot : Slot
zero_slot = record {
  guard_epoch = 0;
  visible_epoch = 0;
  key_hash = 0;
  tie_breaker = 0;
  flags = 0;
  value_len = 0;
  iv = replicate 16 0;
  mac = replicate 32 0;
  ciphertext = replicate 256 0;
}

-- `memset(probe, 0, sizeof(*probe))`
abbrev pub no_probe : Probe
no_probe = record {
  slot = zero_slot;
  index = 0;
  found = false;
  tombstone = false;
  candidate_slot = zero_slot;
  candidate_index = 0;
  candidate_valid = false;
}

-- The first free slot on the way becomes the candidate.
unfoldable pub note_candidate : Probe → Slot → ℕ → Probe
note_candidate p s i =
    if p.candidate_valid
    then p
    else record p { candidate_slot = s; candidate_index = i; candidate_valid = true }

-- What the probe holds once the key's own slot is met.
unfoldable pub found_probe : Slot → ℕ → Probe
found_probe s i = record {
  slot = s;
  index = i;
  found = true;
  tombstone = has_flag s flag_tombstone;
  candidate_slot = s;
  candidate_index = i;
  candidate_valid = true;
}

-- One round of the loop: it returns the probe, or goes on with it.
pub data ProbeStep : Type 0 where
  stop : Probe → ProbeStep
  next : Probe → ProbeStep

unfoldable pub probe_step : ℕ → Slot → ℕ → Probe → ProbeStep
probe_step key_hash s i p =
    if not (s.guard_epoch == s.visible_epoch)
    then next p
    else if has_flag s flag_valid && s.key_hash == key_hash
    then stop (found_probe s i)
    else if has_flag s flag_valid && has_flag s flag_tombstone
    then next (note_candidate p s i)
    else if slot_is_empty s
    then stop (note_candidate p s i)
    else next p

module _ {W : Type 0} (t : Transport W) (c : Cluster) where
  -- `td_fetch_slot_at`
  unfoldable pub fetch_slot_at : ℕ → RegionKind → ℕ → M W Slot
  fetch_slot_at session kind i = do
    let offset = slot_offset_for_index (session_header c session) kind i
    bytes ← required (t.read_region session offset slot_bytes)
    pure (slot_of_bytes bytes)

  -- The loop of `td_probe_slot`, with the rounds that are left, and the check behind it.
  unfoldable pub probe_from : ℕ → RegionKind → ℕ → ℕ → ℕ → ℕ → ℕ → Probe → M W Probe
  probe_from session kind key_hash home count zero idx p =
      if p.candidate_valid then pure p else fail (region_full kind key_hash)
  probe_from session kind key_hash home count (suc n) idx p =
      fetch_slot_at session kind (add64 home idx % count) >>= λ s.
      elim (probe_step key_hash s (add64 home idx % count) p) [
        | stop q ↦ pure q
        | next q ↦ probe_from session kind key_hash home count n (idx + 1) q
      ]

  -- `td_probe_slot`
  unfoldable pub probe_slot : ℕ → RegionKind → ℕ → M W Probe
  probe_slot session kind key_hash =
      let count = kind_slot_count (session_header c session) kind in
      let home = slot_index (session_header c session) kind key_hash in
      if count == 0
      then fail (no_slots kind)
      else probe_from session kind key_hash home count count 0 no_probe
