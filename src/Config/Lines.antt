-- ===== src/Config/Lines.antt =====
-- What the lines of a configuration file keep true (src/config.c).
use tee_dist.Base.{
  ℕ, ◌+◌, ◌-◌, ◌*◌, ◌/◌, ◌<◌, ◌≤◌, ◌^◌, ◌==◌, ltb, leb, if◌then◌else◌, ◌≡◌, refl, ap, inl, inr,
  arith, Bool, true, false, ◌||◌, Option, none, some, List, [], ◌∷◌, ◌++◌, Bytes, length,
  length-append, get_or, u64_mod, Bool-cases, Option-cases,
}
use native.Mathlib.Nat.{le-div_iff_mul-le}
use tee_dist.Common.{trim}
use tee_dist.Config.{Endpoint, Config, minus_one}
use tee_dist.Config.Text.{
  clip, atoi, int_le_zero, parse_mode, parse_transport, parse_toggle, normalize_value,
  parse_size_literal, size_parts, size_of_parts, unit_factor, decimal, parse_size_bytes,
  split_colon, split_last_colon, parse_host_port,
}
use tee_dist.Config.Load.{
  Key, key_mode, key_transport, key_replication, key_tdx, key_cache, key_mn_memory_size,
  key_encryption_key_hex, key_rdma_device, key_rdma_gid_index, key_listen_host, key_listen_port,
  key_node_id, key_memory_file, key_prime_slots, key_cache_slots, key_backup_slots,
  key_max_value_size, key_eviction_threshold_pct, key_recv_queue_depth, key_mn_endpoint,
  key_unknown, key_of, add_endpoint, set_key, c_string, config_line, config_lines,
}

-- The endpoints are numbered in order, and each has a port.
abbrev pub Numbered : ℕ → List Endpoint → Type 0
Numbered n [] = Unit {0}
Numbered n (e ∷ es) = (e.node_id ≡ n) × (0 < e.port) × (e.port < 2 ^ 31) × Numbered (n + 1) es

-- What the lines of a file keep true of the endpoints and the memory size.
pub record Bounded (endpoints : List Endpoint) (memory : ℕ) : Type 0 where
  pub few : length endpoints ≤ 8
  pub numbered : Numbered 0 endpoints
  pub memory_fits : memory < u64_mod

abbrev pub BoundedConfig : Config → Type 0
BoundedConfig cfg = Bounded cfg.mn_endpoints cfg.mn_memory_size

moved : (x y : Config) → some x ≡ some y → BoundedConfig x → BoundedConfig y
moved x y e b = let same : x ≡ y = cc in rw same at b

-- A setting that may be refused.
moved_option :
    {A : Type 0} (o : Option A) (f : A → Config) (y : Config)
    → elim o [ none ↦ none | some a ↦ some (f a) ] ≡ some y
    → ((a : A) → o ≡ some a → BoundedConfig (f a))
    → BoundedConfig y
moved_option none f y e k = absurd (cc)
moved_option (some a) f y e k = moved (f a) y e (k a refl)

moved_slots :
    (b : Bool) (cfg : Config) (o : Option ℕ) (f : ℕ → Config) (y : Config)
    → (if b then some cfg else elim o [ none ↦ none | some a ↦ some (f a) ]) ≡ some y
    → BoundedConfig cfg
    → ((a : ℕ) → BoundedConfig (f a))
    → BoundedConfig y
moved_slots true cfg o f y e b k = moved cfg y e b
moved_slots false cfg o f y e b k = moved_option o f y e (λ a h. k a)

-- A size that is accepted did not wrap.
pub parse_size_bytes-lt : (text : Bytes) (n : ℕ) → parse_size_bytes text ≡ some n → n < u64_mod
unfolding parse_size_bytes size_of_parts
parse_size_bytes-lt text n e =
    let number = decimal 0 (size_parts text).number in
    let factor = unit_factor (size_parts text).unit in
    let room : ltb ((u64_mod - 1) / factor) number ≡ false = ground arith in
    let value : number * factor ≡ n = ground arith in
    let le : number ≤ (u64_mod - 1) / factor = ground arith in
    let positive : 0 < factor = ground arith in
    let bound : number * factor ≤ u64_mod - 1 = (le-div_iff_mul-le positive).0 le in omega arith

Numbered-append :
    (n : ℕ) (es : List Endpoint) (e : Endpoint)
    → Numbered n es
    → e.node_id ≡ n + length es
    → 0 < e.port
    → e.port < 2 ^ 31
    → Numbered n (es ++ (e ∷ []))
Numbered-append n [] e h at lo hi = (omega arith, lo, hi, tt)
Numbered-append n (x ∷ es) e h at lo hi =
    (h.0, h.1, h.2, Numbered-append (n + 1) es e h.3 (omega arith) lo hi)

parse_host_port-port :
    (text : Bytes) (e : Endpoint) → parse_host_port text ≡ some e → (0 < e.port) × (e.port < 2 ^ 31)
unfolding parse_host_port
parse_host_port-port text e h = elim (Option-cases (split_last_colon text)) [
  | inl no_colon ↦ absurd (ground arith)
  | inr ((front, back), split) ↦
      let p = atoi (trim back) in
      let found : record { host = clip 64 (trim front); port = p; node_id = minus_one } ≡ e =
        ground arith in
      let same : p ≡ e.port = ap (λ x. x.port) found in
      let positive : int_le_zero p ≡ false = ground arith in ground arith
]

add_endpoint-Bounded :
    (cfg next : Config) (text : Bytes)
    → leb 8 (length cfg.mn_endpoints) ≡ false
    → add_endpoint cfg (parse_host_port text) ≡ some next
    → BoundedConfig cfg
    → BoundedConfig next
unfolding add_endpoint
add_endpoint-Bounded cfg next text room e b = elim (Option-cases (parse_host_port text)) [
  | inl refused ↦ absurd (ground arith)
  | inr (p, parsed) ↦
      let (lo, hi) = parse_host_port-port text p parsed in
      let placed : Endpoint = record p { node_id = length cfg.mn_endpoints } in
      let longer = length-append cfg.mn_endpoints (placed ∷ []) in
      moved (record cfg { mn_endpoints = cfg.mn_endpoints ++ (placed ∷ []) }) next (ground arith)
        (record {
          few = ground arith;
          numbered = Numbered-append 0 cfg.mn_endpoints placed b.numbered (omega arith) lo hi;
          memory_fits = b.memory_fits;
        })
]

-- No line of a file breaks the bounds.
set_key-Bounded :
    (key : Key) (cfg next : Config) (value : Bytes)
    → set_key key cfg value ≡ some next
    → BoundedConfig cfg
    → BoundedConfig next
unfolding set_key
set_key-Bounded key_mode cfg next value e b = moved_option (parse_mode value) _ next e (λ a h. b)
set_key-Bounded key_transport cfg next value e b =
    moved_option (parse_transport value) _ next e (λ a h. b)
set_key-Bounded key_replication cfg next value e b = moved _ next e b
set_key-Bounded key_tdx cfg next value e b = moved_option (parse_toggle value) _ next e (λ a h. b)
set_key-Bounded key_cache cfg next value e b = moved_option (parse_toggle value) _ next e (λ a h. b)
set_key-Bounded key_mn_memory_size cfg next value e b =
    moved_option (parse_size_bytes value) (λ n. record cfg { mn_memory_size = n }) next e
      (λ n h. record {
        few = b.few;
        numbered = b.numbered;
        memory_fits = parse_size_bytes-lt value n h;
      })
set_key-Bounded key_encryption_key_hex cfg next value e b = moved _ next e b
set_key-Bounded key_rdma_device cfg next value e b = moved _ next e b
set_key-Bounded key_rdma_gid_index cfg next value e b = moved _ next e b
set_key-Bounded key_listen_host cfg next value e b = moved _ next e b
set_key-Bounded key_listen_port cfg next value e b = moved _ next e b
set_key-Bounded key_node_id cfg next value e b = moved _ next e b
set_key-Bounded key_memory_file cfg next value e b = moved _ next e b
set_key-Bounded key_prime_slots cfg next value e b =
    moved_slots (length value == 0) cfg (parse_size_literal value)
      (λ n. record cfg { prime_slots = n; prime_explicit = true }) next e b (λ n. b)
set_key-Bounded key_cache_slots cfg next value e b =
    moved_slots (length value == 0) cfg (parse_size_literal value)
      (λ n. record cfg { cache_slots = n; cache_explicit = true }) next e b (λ n. b)
set_key-Bounded key_backup_slots cfg next value e b =
    moved_slots (length value == 0) cfg (parse_size_literal value)
      (λ n. record cfg { backup_slots = n; backup_explicit = true }) next e b (λ n. b)
set_key-Bounded key_max_value_size cfg next value e b = moved _ next e b
set_key-Bounded key_eviction_threshold_pct cfg next value e b = moved _ next e b
set_key-Bounded key_recv_queue_depth cfg next value e b = moved _ next e b
set_key-Bounded key_mn_endpoint cfg next value e b =
    elim (Bool-cases (leb 8 (length cfg.mn_endpoints))) [
      | inl full ↦ absurd (ground arith)
      | inr room ↦ add_endpoint-Bounded cfg next value room (ground arith) b
    ]
set_key-Bounded key_unknown cfg next value e b = moved cfg next e b

config_line-Bounded :
    (cfg next : Config) (line : Bytes)
    → config_line cfg line ≡ some next
    → BoundedConfig cfg
    → BoundedConfig next
unfolding config_line
config_line-Bounded cfg next line e b =
    let text = trim (c_string line) in
    elim (Bool-cases (length text == 0 || get_or text 0 0 == b'#')) [
      | inl skipped ↦ moved cfg next (ground arith) b
      | inr read ↦ elim (Option-cases (split_colon text)) [
        | inl bad ↦ absurd (ground arith)
        | inr ((front, back), split) ↦
            set_key-Bounded (key_of (trim front)) cfg next (normalize_value back) (ground arith) b
      ]
    ]

pub config_lines-Bounded :
    (lines : List Bytes) (cfg next : Config)
    → config_lines cfg lines ≡ some next
    → BoundedConfig cfg
    → BoundedConfig next
unfolding config_lines
config_lines-Bounded [] cfg next e b = moved cfg next e b
config_lines-Bounded (line ∷ lines) cfg next e b = elim (Option-cases (config_line cfg line)) [
  | inl bad ↦ absurd (ground arith)
  | inr (mid, read) ↦
      config_lines-Bounded lines mid next (ground arith) (config_line-Bounded cfg mid line read b)
]
