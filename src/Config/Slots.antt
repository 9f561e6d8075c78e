-- ===== src/Config/Slots.antt =====
-- How the slots of a memory node are counted out: `td_allocate_weighted_slots` and
-- `td_resolve_mn_slots` (src/config.c).
use tee_dist.Base.{
  ℕ, zero, suc, ◌+◌, ◌-◌, ◌/◌, ◌%◌, ◌^◌, ◌==◌, ltb, leb, if◌then◌else◌, Bool, true, not, ◌&&◌, ◌||◌,
  Option, none, some, List, [], ◌∷◌, set, add64, mul64,
}
use tee_dist.Region.{header_bytes, slot_bytes}
use tee_dist.Config.{Config}

-- `td_slot_bucket_t`, with the count that its pointer leads to.
pub record Bucket : Type 0 where
  pub slots : ℕ
  pub given : Bool
  pub weight : ℕ
  pub remainder : ℕ
  pub priority : ℕ

-- The three buckets: PRIME, CACHE and BACKUP.
unfoldable pub buckets_of : Config → List Bucket
buckets_of cfg =
    record {
      slots = cfg.prime_slots;
      given = cfg.prime_explicit;
      weight = 4;
      remainder = 0;
      priority = 0;
    }
    ∷ record {
      slots = cfg.cache_slots;
      given = cfg.cache_explicit;
      weight = 1;
      remainder = 0;
      priority = 1;
    }
    ∷ record {
      slots = cfg.backup_slots;
      given = cfg.backup_explicit;
      weight = 4;
      remainder = 0;
      priority = 2;
    }
    ∷ []

-- The configuration with the counts of the buckets.
unfoldable pub with_buckets : Config → List Bucket → Config
with_buckets cfg (p ∷ c ∷ b ∷ []) = record cfg {
  prime_slots = p.slots;
  cache_slots = c.slots;
  backup_slots = b.slots;
}
with_buckets cfg bs = cfg

-- The first loop: the sum of the weights of the buckets that are not given.
unfoldable pub weight_sum : List Bucket → ℕ
weight_sum [] = 0
weight_sum (b ∷ bs) = (if b.given then 0 else b.weight) + weight_sum bs

-- The first loop: those buckets are emptied.
unfoldable pub cleared : List Bucket → List Bucket
cleared [] = []
cleared (b ∷ bs) = (if b.given then b else record b { slots = 0 }) ∷ cleared bs

-- The second loop: each of them gets its share, rounded down.
unfoldable pub shared_out : ℕ → ℕ → List Bucket → List Bucket
shared_out remaining sum [] = []
shared_out remaining sum (b ∷ bs) =
    (if b.given then b else record b {
      slots = add64 b.slots (mul64 remaining b.weight / sum);
      remainder = mul64 remaining b.weight % sum;
    })
    ∷ shared_out remaining sum bs

-- `allocated` after the second loop.
unfoldable pub allocated : List Bucket → ℕ
allocated [] = 0
allocated (b ∷ bs) = (if b.given then 0 else b.slots) + allocated bs

-- Whether a bucket is to replace the best one met.
unfoldable pub beats : Bucket → Option (ℕ × Bucket) → Bool
beats b none = true
beats b (some (i, best)) =
    ltb best.remainder b.remainder
    || (b.remainder == best.remainder && ltb b.priority best.priority)

-- The search for the best bucket, from index `idx` on; `none` is `best == 3`.
unfoldable pub best_bucket : List Bucket → ℕ → Option (ℕ × Bucket) → Option (ℕ × Bucket)
best_bucket [] idx best = best
best_bucket (b ∷ bs) idx best =
    best_bucket bs (idx + 1) (if not b.given && beats b best then some (idx, b) else best)

-- The best bucket gets one more.
unfoldable pub give_one : List Bucket → Option (ℕ × Bucket) → List Bucket
give_one bs none = bs
give_one bs (some (i, b)) = set bs i (record b { slots = add64 b.slots 1; remainder = 0 })

-- The `while` loop for `n` slots that are left. Without a best bucket it breaks off.
unfoldable pub hand_out : ℕ → List Bucket → List Bucket
hand_out zero bs = bs
hand_out (suc n) bs = elim (best_bucket bs 0 none) [
  | none ↦ bs
  | some best ↦ hand_out n (give_one bs (some best))
]

-- The buckets after `td_allocate_weighted_slots`.
unfoldable pub allocate_buckets : ℕ → List Bucket → List Bucket
allocate_buckets remaining bs =
    let sum = weight_sum bs in
    if sum == 0 || remaining == 0
    then cleared bs
    else let shares = shared_out remaining sum (cleared bs) in
      hand_out (remaining - allocated shares) shares

-- `td_allocate_weighted_slots`
unfoldable pub allocate_weighted_slots : Config → ℕ → Config
allocate_weighted_slots cfg remaining =
    with_buckets cfg (allocate_buckets remaining (buckets_of cfg))

-- Whether an `int` is greater than a small number.
abbrev pub int_gt : ℕ → ℕ → Bool
int_gt a b = ltb b a && ltb a (2 ^ 31)

-- `td_resolve_mn_slots`; `none` is -1.
unfoldable pub resolve_mn_slots : Config → Option Config
resolve_mn_slots cfg =
    if leb cfg.mn_memory_size header_bytes
    then none
    else let capacity = (cfg.mn_memory_size - header_bytes) / slot_bytes in
      let manual = add64 (add64 cfg.prime_slots cfg.cache_slots) cfg.backup_slots in
      if capacity == 0
      then none
      else if ltb capacity manual
      then none
      else let done = allocate_weighted_slots cfg (capacity - manual) in
        if done.prime_slots == 0
        then none
        else if int_gt done.replication 1 && done.backup_slots == 0
        then none
        else some done
