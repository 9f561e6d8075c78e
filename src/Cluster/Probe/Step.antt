-- ===== src/Cluster/Probe/Step.antt =====
-- One round of `td_probe_slot` (src/cluster.c), by what kind of slot it meets.
use tee_dist.Base.{
  ℕ, ◌==◌, ◌≡◌, inl, inr, refl, arith, Bool, true, false, ◌&&◌, ◌||◌, Bool-cases, bit_and,
}
use native.Mathlib.Decide.{ℕ_discrete}
use tee_dist.Region.{Slot, flag_valid, flag_tombstone}
use tee_dist.Cluster.Probe.{
  has_flag, slot_is_empty, Probe, note_candidate, found_probe, ProbeStep, stop, next, probe_step,
}

-- The key's own slot: consistent, valid, and with the hash of the key.
abbrev pub matches_key : ℕ → Slot → Bool
matches_key key_hash s =
    s.guard_epoch == s.visible_epoch && (has_flag s flag_valid && s.key_hash == key_hash)

-- A consistent slot that holds a tombstone, or nothing.
abbrev pub is_free : Slot → Bool
is_free s =
    s.guard_epoch == s.visible_epoch
    && (has_flag s flag_valid && has_flag s flag_tombstone || slot_is_empty s)

-- The four things that a round can do.
pub data StepView (key_hash : ℕ) (s : Slot) (i : ℕ) (p : Probe) (r : ProbeStep) : Type 0 where
  hit : matches_key key_hash s ≡ true → r ≡ stop (found_probe s i) → StepView key_hash s i p r
  empty :
      matches_key key_hash s ≡ false
      → slot_is_empty s ≡ true
      → is_free s ≡ true
      → r ≡ stop (note_candidate p s i)
      → StepView key_hash s i p r
  tombstone :
      matches_key key_hash s ≡ false
      → slot_is_empty s ≡ false
      → is_free s ≡ true
      → r ≡ next (note_candidate p s i)
      → StepView key_hash s i p r
  pass :
      matches_key key_hash s ≡ false
      → slot_is_empty s ≡ false
      → is_free s ≡ false
      → r ≡ next p
      → StepView key_hash s i p r

-- A valid slot is not empty: it has a flag.
valid-not_empty : (s : Slot) → has_flag s flag_valid ≡ true → slot_is_empty s ≡ false
unfolding slot_is_empty
valid-not_empty s h = elim (ℕ_discrete s.flags 0) [
  | yes none_set ↦ let cleared : bit_and s.flags flag_valid ≡ 0 = rw none_set refl in ground arith
  | no some_set ↦ ground arith
]

-- A torn slot is not empty: its epochs are not both 0.
torn-not_empty : (s : Slot) → (s.guard_epoch == s.visible_epoch) ≡ false → slot_is_empty s ≡ false
unfolding slot_is_empty
torn-not_empty s h = ground arith

pub probe_step-StepView :
    (key_hash : ℕ) (s : Slot) (i : ℕ) (p : Probe)
    → StepView key_hash s i p (probe_step key_hash s i p)
unfolding probe_step
probe_step-StepView key_hash s i p = elim (Bool-cases (s.guard_epoch == s.visible_epoch)) [
  | inr torn ↦ pass (ground arith) (torn-not_empty s torn) (ground arith) (ground arith)
  | inl consistent ↦ elim (Bool-cases (has_flag s flag_valid)) [
    | inl valid ↦
        let full = valid-not_empty s valid in
        elim (Bool-cases (s.key_hash == key_hash)) [
          | inl same ↦ hit (ground arith) (ground arith)
          | inr other ↦ elim (Bool-cases (has_flag s flag_tombstone)) [
            | inl dead ↦ tombstone (ground arith) full (ground arith) (ground arith)
            | inr alive ↦ pass (ground arith) full (ground arith) (ground arith)
          ]
        ]
    | inr invalid ↦ elim (Bool-cases (slot_is_empty s)) [
      | inl clear ↦ empty (ground arith) clear (ground arith) (ground arith)
      | inr other ↦ pass (ground arith) other (ground arith) (ground arith)
    ]
  ]
]
