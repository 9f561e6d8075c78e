-- ===== src/Config/Fits.antt =====
-- How the resolved slots of a memory node lie in its memory, where the counts do not wrap
-- (`td_resolve_mn_slots`, src/config.c).
use tee_dist.Base.{
  ℕ, ◌+◌, ◌-◌, ◌*◌, ◌/◌, ◌<◌, ◌≤◌, ◌==◌, if◌then◌else◌, ◌≡◌, ◌⊎◌, refl, sym, ap, ◌∙◌, inl, inr,
  arith, Bool, true, false, ◌&&◌, ◌||◌, some, List, [], ◌∷◌, add64, Bool-cases, u64_mod,
}
use native.Mathlib.Decide.{ℕ_discrete}
use tee_dist.Region.{header_bytes, slot_bytes}
use tee_dist.Config.{Config}
use tee_dist.Config.Slots.{
  Bucket, buckets_of, with_buckets, weight_sum, cleared, shared_out, allocated, allocate_buckets,
  allocate_weighted_slots, resolve_mn_slots,
}
use tee_dist.Config.Shares.{
  AllGiven, SameGiven, SameGiven-trans, AllGiven-SameGiven, hand_out_lem, cleared-SameGiven,
  shared_out-SameGiven, shares_le,
}

allocated-cleared : (bs : List Bucket) → allocated (cleared bs) ≡ 0
unfolding allocated cleared
allocated-cleared [] = refl
allocated-cleared (b ∷ bs) = ground (arith, allocated-cleared bs)

weightless : (bs : List Bucket) → AllGiven bs → weight_sum bs ≡ 0
unfolding weight_sum
weightless [] h = refl
weightless (b ∷ bs) h = let given = h.0 in let rest = weightless bs h.1 in ground arith

-- What the allocation does to the buckets.
record Allocates (bs done : List Bucket) (r : ℕ) : Type 0 where
  given : SameGiven bs done
  bounded : allocated done ≤ r
  whole : weight_sum bs ≡ 0 ⊎ (allocated done ≡ r)

allocate_buckets-Allocates :
    (r : ℕ) (cfg : Config)
    → r * 4 < u64_mod
    → Allocates (buckets_of cfg) (allocate_buckets r (buckets_of cfg)) r
unfolding allocate_buckets
allocate_buckets-Allocates r cfg small =
    let bs = buckets_of cfg in
    let sum = weight_sum bs in
    elim (Bool-cases (sum == 0 || r == 0)) [
      | inl stops ↦
          let cut = allocated-cleared bs in
          rw stops (record {
            given = cleared-SameGiven bs;
            bounded = omega arith;
            whole = elim (ℕ_discrete sum 0) [
              | yes zero_sum ↦ inl zero_sum
              | no some_sum ↦ inr (ground arith)
            ];
          })
      | inr goes ↦
          let shares = shared_out r sum (cleared bs) in
          let same =
            SameGiven-trans bs (cleared bs) shares (cleared-SameGiven bs)
              (shared_out-SameGiven r sum (cleared bs)) in
          let heavy : ¬ (sum ≡ 0) = ground arith in
          let some_open = λ (all : AllGiven shares).
            heavy (weightless bs (AllGiven-SameGiven bs shares same all)) in
          let bound = shares_le cfg r small heavy in
          let (total, kept) = hand_out_lem (r - allocated shares) shares some_open (omega arith) in
          rw goes (record {
            given = SameGiven-trans bs shares _ same kept;
            bounded = omega arith;
            whole = inr (total ∙ omega arith);
          })
    ]

-- The slots that the operator asks for.
unfoldable pub given_slots : Config → ℕ
given_slots cfg =
    (if cfg.prime_explicit then cfg.prime_slots else 0)
    + (if cfg.cache_explicit then cfg.cache_slots else 0)
    + (if cfg.backup_explicit then cfg.backup_slots else 0)

-- All the slots.
abbrev pub config_slots : Config → ℕ
config_slots cfg = cfg.prime_slots + cfg.cache_slots + cfg.backup_slots

-- A count that the operator gives is the count that results.
pub record KeepsGiven (cfg done : Config) : Type 0 where
  pub prime_kept :
      (if cfg.prime_explicit then cfg.prime_slots else done.prime_slots) ≡ done.prime_slots
  pub cache_kept :
      (if cfg.cache_explicit then cfg.cache_slots else done.cache_slots) ≡ done.cache_slots
  pub backup_kept :
      (if cfg.backup_explicit then cfg.backup_slots else done.backup_slots) ≡ done.backup_slots

-- A bucket's count is either given or handed out.
slots_of :
    (asked given : Bool) (want got : ℕ)
    → asked ≡ given
    → (asked ≡ true → want ≡ got)
    → (if asked then want else 0) + (if given then 0 else got) ≡ got
slots_of true true want got e h = omega (arith, h refl)
slots_of true false want got e h = absurd (cc)
slots_of false true want got e h = absurd (cc)
slots_of false false want got e h = omega arith

with_buckets-KeepsGiven :
    (cfg : Config) (bs : List Bucket)
    → SameGiven (buckets_of cfg) bs
    → KeepsGiven cfg (with_buckets cfg bs)
      × (config_slots (with_buckets cfg bs) ≡ given_slots cfg + allocated bs)
unfolding buckets_of with_buckets given_slots allocated
with_buckets-KeepsGiven cfg [] h = absurd h
with_buckets-KeepsGiven cfg (p ∷ []) h = absurd h.2
with_buckets-KeepsGiven cfg (p ∷ c ∷ []) h = absurd h.2.2
with_buckets-KeepsGiven cfg (p ∷ c ∷ b ∷ d ∷ bs) h = absurd h.2.2.2
with_buckets-KeepsGiven cfg (p ∷ c ∷ b ∷ []) h =
    let (fp, kp, rest) = h in
    let (fc, kc, rest') = rest in
    let (fb, kb, none_left) = rest' in
    (
      record { prime_kept = ground arith; cache_kept = ground arith; backup_kept = ground arith },
      let one = slots_of cfg.prime_explicit p.given cfg.prime_slots p.slots fp kp in
          let two = slots_of cfg.cache_explicit c.given cfg.cache_slots c.slots fc kc in
          let three = slots_of cfg.backup_explicit b.given cfg.backup_slots b.slots fb kb in
          omega (arith, one, two, three),
    )

-- What a resolved configuration guarantees.
pub record Resolved (cfg done : Config) : Type 0 where
  pub inside : header_bytes + config_slots done * slot_bytes ≤ cfg.mn_memory_size
  pub some_prime : 0 < done.prime_slots
  pub kept : KeepsGiven cfg done
  pub same_memory : done.mn_memory_size ≡ cfg.mn_memory_size

with_buckets-memory :
    (cfg : Config) (bs : List Bucket) → (with_buckets cfg bs).mn_memory_size ≡ cfg.mn_memory_size
unfolding with_buckets
with_buckets-memory cfg [] = refl
with_buckets-memory cfg (p ∷ []) = refl
with_buckets-memory cfg (p ∷ c ∷ []) = refl
with_buckets-memory cfg (p ∷ c ∷ b ∷ []) = refl
with_buckets-memory cfg (p ∷ c ∷ b ∷ d ∷ bs) = refl

module _ (cfg done : Config) (size : cfg.mn_memory_size < u64_mod)
    (small : config_slots cfg < u64_mod) (e : resolve_mn_slots cfg ≡ some done) where
  abbrev capacity : ℕ
  capacity = (cfg.mn_memory_size - header_bytes) / slot_bytes

  abbrev resolved_buckets : List Bucket
  resolved_buckets = allocate_buckets (capacity - config_slots cfg) (buckets_of cfg)

  -- The counts in `size_t` are the plain ones.
  resolve_run :
      (header_bytes < cfg.mn_memory_size)
      × (config_slots cfg ≤ capacity)
      × (with_buckets cfg resolved_buckets ≡ done)
      × (0 < done.prime_slots)
  unfolding resolve_mn_slots allocate_weighted_slots
  resolve_run =
      let plain : add64 (add64 cfg.prime_slots cfg.cache_slots) cfg.backup_slots
          ≡ config_slots cfg =
        omega arith in
      let e' = rw plain at e in (ground arith, ground arith, ground arith, ground arith)

  -- The facts on the buckets, for the slots that are left.
  resolved :
      KeepsGiven cfg done
      × Allocates (buckets_of cfg) resolved_buckets (capacity - config_slots cfg)
      × (config_slots done ≡ given_slots cfg + allocated resolved_buckets)
  resolved =
      let (above, room, same, positive) = resolve_run in
      let a = allocate_buckets-Allocates (capacity - config_slots cfg) cfg (omega arith) in
      let (kept, total) = with_buckets-KeepsGiven cfg resolved_buckets a.given in
      (rw same at kept, a, ap config_slots (sym same) ∙ total)

  given_slots-le : given_slots cfg ≤ config_slots cfg
  unfolding given_slots
  given_slots-le = ground arith

  -- When the memory size and the sum of the three counts fit in a `size_t` and the configuration is
  -- accepted, the header and all slots lie inside the memory, there is a PRIME slot, and every count
  -- that the operator gave is kept.
  pub resolve_mn_slots-Resolved : Resolved cfg done
  resolve_mn_slots-Resolved =
      let (above, room, same, positive) = resolve_run in
      let (kept, a, total) = resolved in
      let bound = a.bounded in
      let le = given_slots-le in
      record {
        inside = omega arith;
        some_prime = positive;
        kept = kept;
        same_memory =
            ap (λ x. x.mn_memory_size) (sym same) ∙ with_buckets-memory cfg resolved_buckets;
      }

  open_weight :
      (cfg.prime_explicit && cfg.cache_explicit && cfg.backup_explicit) ≡ false
      → ¬ (weight_sum (buckets_of cfg) ≡ 0)
  unfolding weight_sum buckets_of
  open_weight open' = λ zero_sum. ground arith

  -- Where moreover some count is left open, and the counts left open are 0 at first, no further slot
  -- would fit in the memory.
  pub resolve_mn_slots_fills :
      (cfg.prime_explicit && cfg.cache_explicit && cfg.backup_explicit) ≡ false
      → given_slots cfg ≡ config_slots cfg
      → cfg.mn_memory_size < header_bytes + (config_slots done + 1) * slot_bytes
  resolve_mn_slots_fills open' zeros =
      let (above, room, same, positive) = resolve_run in
      let (kept, a, total) = resolved in
      elim a.whole [
        | inl weightless' ↦ absurd (open_weight open' weightless')
        | inr all ↦ omega arith
      ]
