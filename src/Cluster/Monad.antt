-- ===== src/Cluster/Monad.antt =====
-- What the functions of src/cluster.c compute in: a world that the transport acts on, a result, and
-- the transport itself as an interface.
use tee_dist.Base.{ℕ, Bool, Option, none, some, List, Bytes, length, get_or}
use tee_dist.Region.{RegionKind, RegionHeader}
use tee_dist.Crypto.{CryptoCtx}

-- Why an operation returns -1: a constructor for each error text of src/cluster.c, and one for
-- those of the transports.
pub data Error : Type 0 where
  no_slots : RegionKind → Error
  region_full : RegionKind → ℕ → Error
  transport_failed : Error
  no_candidate : Error
  key_not_found : Error
  prepare_failed : Error
  consensus_lost : Error
  primary_cas_failed : Error
  mac_failed : Error

pub data Result {ℓ} (A : Type ℓ) : Type ℓ where
  ok : A → Result A
  failed : Error → Result A

-- The function pointers of `td_session_t`, over a world that holds the memory nodes, whatever other
-- clients do to them between two calls, and the clock. The first number is the session.
-- A result of `none` is -1.
pub record Transport (W : Type 0) : Type 0 where
  pub read_region : ℕ → ℕ → ℕ → W → Option Bytes × W
  pub write_region : ℕ → ℕ → Bytes → W → Option (Unit {0}) × W
  pub cas64 : ℕ → ℕ → ℕ → ℕ → W → Option ℕ × W
  pub usleep : ℕ → W → W

-- `td_cluster_t`, as far as the operations read it: two fields of the configuration, the keys, and
-- of each session the header that the memory node sent.
pub record Cluster : Type 0 where
  pub replication : ℕ
  pub cache_on : Bool
  pub crypto : CryptoCtx
  pub headers : List RegionHeader

abbrev pub no_header : RegionHeader
no_header = record {
  magic = 0;
  version = 0;
  node_id = 0;
  prime_slot_count = 0;
  cache_slot_count = 0;
  backup_slot_count = 0;
  max_value = 0;
  cache_usage = 0;
  eviction_cursor = 0;
  cache_mode = 0;
  region_size = 0;
}

abbrev pub session_count : Cluster → ℕ
session_count c = length c.headers

-- `session->header`
abbrev pub session_header : Cluster → ℕ → RegionHeader
session_header c session = get_or c.headers session no_header

abbrev pub M : Type 0 → Type 0 → Type 0
M W A = W → Result A × W

module _ {W : Type 0} where
  abbrev pub pure : {A : Type 0} → A → M W A
  pure a w = (ok a, w)

  abbrev pub fail : {A : Type 0} → Error → M W A
  fail e w = (failed e, w)

  -- The continuation of a call that may have failed.
  abbrev pub bind_result : {A B : Type 0} → Result A × W → (A → M W B) → Result B × W
  bind_result (ok a, w) f = f a w
  bind_result (failed e, w) f = (failed e, w)

  infixl 5 ◌>>=◌ ◌>>◌
  abbrev pub ◌>>=◌ : {A B : Type 0} → M W A → (A → M W B) → M W B
  ◌>>=◌ m f w = bind_result (m w) f

  abbrev pub ◌>>◌ : {B : Type 0} → M W (Unit {0}) → M W B → M W B
  m >> k = m >>= λ _. k

  -- The result of a call whose failure the caller handles.
  abbrev pub attempt_result : {A : Type 0} → Result A × W → Result (Option A) × W
  attempt_result (ok a, w) = (ok (some a), w)
  attempt_result (failed e, w) = (ok none, w)

  abbrev pub attempt : {A : Type 0} → M W A → M W (Option A)
  attempt m w = attempt_result (m w)

  -- A call of the transport that the caller gives up on if it fails.
  abbrev pub required_result : {A : Type 0} → Option A × W → Result A × W
  required_result (some a, w) = (ok a, w)
  required_result (none, w) = (failed transport_failed, w)

  abbrev pub required : {A : Type 0} → (W → Option A × W) → M W A
  required call w = required_result (call w)
