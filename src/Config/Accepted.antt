-- ===== src/Config/Accepted.antt =====
-- What an accepted configuration file guarantees: `td_config_load` (src/config.c).
use tee_dist.Base.{
  ◌-◌, ◌/◌, ◌<◌, ◌≤◌, ◌^◌, ◌==◌, ltb, if◌then◌else◌, ◌≡◌, refl, sym, ap, ◌∙◌, inl, inr, arith,
  false, Option, none, some, List, [], ◌∷◌, Bytes, add64, ◌⊎◌, length, Bool-cases, Option-cases,
}
use tee_dist.Region.{max_value_size, header_bytes, slot_bytes}
use tee_dist.Config.{Mode, cn, mn, Config}
use tee_dist.Config.Slots.{
  Bucket, with_buckets, buckets_of, allocate_buckets, allocate_weighted_slots, resolve_mn_slots,
}
use tee_dist.Config.Text.{int_le_zero}
use tee_dist.Config.Load.{
  default_config, lines_of, config_lines, check_mode, check_key, finish_config, config_load,
}
use tee_dist.Config.Lines.{Bounded, BoundedConfig, config_lines-Bounded}

with_buckets-shape :
    (cfg : Config) (bs : List Bucket)
    → let d = with_buckets cfg bs in
      d ≡ record cfg {
        prime_slots = d.prime_slots;
        cache_slots = d.cache_slots;
        backup_slots = d.backup_slots;
      }
unfolding with_buckets
with_buckets-shape cfg [] = refl
with_buckets-shape cfg (p ∷ []) = refl
with_buckets-shape cfg (p ∷ c ∷ []) = refl
with_buckets-shape cfg (p ∷ c ∷ b ∷ []) = refl
with_buckets-shape cfg (p ∷ c ∷ b ∷ d ∷ bs) = refl

mode_cases : (m : Mode) → (m ≡ cn) ⊎ (m ≡ mn)
mode_cases cn = inl refl
mode_cases mn = inr refl

-- Resolving the slots changes no other setting, and leaves a PRIME slot.
resolve-shape :
    (cfg d : Config)
    → resolve_mn_slots cfg ≡ some d
    → (d ≡ record cfg {
      prime_slots = d.prime_slots;
      cache_slots = d.cache_slots;
      backup_slots = d.backup_slots;
    })
      × (0 < d.prime_slots)
unfolding resolve_mn_slots allocate_weighted_slots
resolve-shape cfg d e =
    let capacity = (cfg.mn_memory_size - header_bytes) / slot_bytes in
    let manual = add64 (add64 cfg.prime_slots cfg.cache_slots) cfg.backup_slots in
    let bs = allocate_buckets (capacity - manual) (buckets_of cfg) in
    let same : with_buckets cfg bs ≡ d = ground arith in
    let positive : 0 < d.prime_slots = ground arith in
    (rw same at (with_buckets-shape cfg bs), positive)

-- What a node of each mode needs: a client node a memory node to talk to, a memory node a port and
-- a PRIME slot.
unfoldable pub Serves : Mode → Config → Type 0
Serves cn cfg = 0 < length cfg.mn_endpoints
Serves mn cfg = (0 < cfg.listen_port) × (cfg.listen_port < 2 ^ 31) × (0 < cfg.prime_slots)

pub record Accepted (cfg : Config) : Type 0 where
  pub bounded : Bounded cfg.mn_endpoints cfg.mn_memory_size
  pub value_fits : cfg.max_value ≤ max_value_size
  pub replicated : (0 < cfg.replication) × (cfg.replication < 2 ^ 31)
  pub has_key : 0 < length cfg.encryption_key_hex
  pub serves : Serves cfg.mode cfg

check_mode-Serves :
    (cfg next : Config)
    → check_mode cfg ≡ some next
    → (next ≡ record cfg {
      prime_slots = next.prime_slots;
      cache_slots = next.cache_slots;
      backup_slots = next.backup_slots;
    })
      × Serves next.mode next
unfolding check_mode
check_mode-Serves cfg next e = elim (mode_cases cfg.mode) [
  | inl client ↦
      let same : cfg ≡ next = ground arith in
      let mode : next.mode ≡ cn = ap (λ x. x.mode) (sym same) ∙ client in
      let some_nodes : 0 < length next.mn_endpoints = ground arith in
      (rw same refl, rw mode (unfold Serves in some_nodes))
  | inr memory ↦
      let port : int_le_zero cfg.listen_port ≡ false = ground arith in
      let run : resolve_mn_slots cfg ≡ some next = ground arith in
      let (shape, positive) = resolve-shape cfg next run in
      let mode : next.mode ≡ mn = ap (λ x. x.mode) shape ∙ memory in
      let same_port : next.listen_port ≡ cfg.listen_port = ap (λ x. x.listen_port) shape in
      (shape, rw mode (unfold Serves in (ground arith, ground arith, positive)))
]

check_key-some :
    (checked : Option Config) (cfg : Config)
    → check_key checked ≡ some cfg
    → (checked ≡ some cfg) × (0 < length cfg.encryption_key_hex)
unfolding check_key
check_key-some none cfg e = absurd (cc)
check_key-some (some c) cfg e = elim (Bool-cases (length c.encryption_key_hex == 0)) [
  | inl empty ↦ absurd (ground arith)
  | inr long ↦
      let same : c ≡ cfg = ground arith in
      let filled : 0 < length c.encryption_key_hex = ground arith in
      (ap some same, rw same at filled)
]

-- The replication that the loader settles on.
fixed_replication : Config → Config
fixed_replication cfg = if int_le_zero cfg.replication then record cfg { replication = 1 } else cfg

fixed_replication-positive :
    (cfg : Config)
    → (0 < (fixed_replication cfg).replication) × ((fixed_replication cfg).replication < 2 ^ 31)
unfolding fixed_replication
fixed_replication-positive cfg = elim (Bool-cases (int_le_zero cfg.replication)) [
  | inl low ↦ rw low (omega arith, omega arith)
  | inr high ↦ ground arith
]

fixed_replication-Bounded :
    (cfg : Config)
    → BoundedConfig cfg
    → BoundedConfig (fixed_replication cfg) × ((fixed_replication cfg).max_value ≡ cfg.max_value)
unfolding fixed_replication
fixed_replication-Bounded cfg b = elim (Bool-cases (int_le_zero cfg.replication)) [
  | inl low ↦ rw low (b, refl)
  | inr high ↦ rw high (b, refl)
]

-- Every configuration that is accepted has: at most 8 endpoints, numbered from 0 in their order, each
-- with a port below 2^31; a memory size and a value limit in range; a positive replication; a key; and
-- what its mode needs.
pub config_load-Accepted :
    (text : Bytes) (cfg : Config) → config_load text ≡ some cfg → Accepted cfg
unfolding config_load finish_config check_key
config_load-Accepted text cfg e =
    elim (Option-cases (config_lines default_config (lines_of text 511))) [
      | inl bad ↦ absurd (ground arith)
      | inr (read, lines) ↦
          let first : BoundedConfig default_config = record {
            few = omega arith;
            numbered = tt;
            memory_fits = omega arith;
          } in
          let b = config_lines-Bounded (lines_of text 511) default_config read lines first in
          let fixed = fixed_replication read in
          let small : ltb max_value_size read.max_value ≡ false = ground arith in
          let ends : check_key (check_mode fixed) ≡ some cfg =
            unfold fixed_replication in ground arith in
          let (run, key) = check_key-some (check_mode fixed) cfg ends in
          let (shape, serves) = check_mode-Serves fixed cfg run in
          let (bounded, same_max) = fixed_replication-Bounded read b in
          let replicated = fixed_replication-positive read in
          let max : cfg.max_value ≡ fixed.max_value = ap (λ x. x.max_value) shape in
          let endpoints : cfg.mn_endpoints ≡ fixed.mn_endpoints = ap (λ x. x.mn_endpoints) shape in
          let memory : cfg.mn_memory_size ≡ fixed.mn_memory_size =
            ap (λ x. x.mn_memory_size) shape in
          let copies : cfg.replication ≡ fixed.replication = ap (λ x. x.replication) shape in
          record {
            bounded = rw (endpoints, memory) bounded;
            value_fits = ground arith;
            replicated = rw copies replicated;
            has_key = key;
            serves = serves;
          }
    ]
