-- ===== src/Tests/Toy.antt =====
-- A cryptography that satisfies the laws, and a cluster of two memory nodes of three slots each.
use tee_dist.Base.{
  ℕ, ◌<◌, ◌≡◌, refl, arith, zero, suc, true, some, [], ◌∷◌, Bytes, AllBytes, replicate,
  length-replicate,
}
use tee_dist.Region.{RegionHeader, Region}
use tee_dist.Crypto.{OpenSsl, OpenSslLaws, CryptoCtx}
use tee_dist.Cluster.Monad.{Cluster, session_header}
use tee_dist.Cluster.Local.{World, NodeFits, WorldFits, node}

-- Digests of one byte value, and a cipher that leaves its input alone.
abbrev pub toy : OpenSsl
toy = record {
  sha256 = λ m. replicate 32 5;
  hmac_sha256 = λ k m. some (replicate 32 9);
  ctr_encrypt = λ k iv m. some m;
  ctr_decrypt = λ k iv m. some m;
}

pub AllBytes-replicate : (n b : ℕ) → b < 256 → AllBytes (replicate n b)
AllBytes-replicate zero b h = tt
AllBytes-replicate (suc n) b h = (h, AllBytes-replicate n b h)

some_injective : (a b : Bytes) → some a ≡ some b → a ≡ b
some_injective a b e = cc

pub toy-OpenSslLaws : OpenSslLaws toy
toy-OpenSslLaws = record {
  sha256_length = λ m. refl;
  sha256_bytes = λ m. AllBytes-replicate 32 5 (omega arith);
  hmac_length = λ k m d e. let same = some_injective (replicate 32 9) d e in rw (← same) refl;
  encrypt_length = λ k iv m c e. let same = some_injective m c e in rw same refl;
  decrypt_encrypt = λ k iv m c e. let same = some_injective m c e in rw same refl;
}

abbrev pub toy_ctx : CryptoCtx
toy_ctx = record { enc_key = replicate 32 1; mac_key = replicate 32 2 }

abbrev pub toy_header : RegionHeader
toy_header = record {
  magic = 0;
  version = 1;
  node_id = 0;
  prime_slot_count = 1;
  cache_slot_count = 1;
  backup_slot_count = 1;
  max_value = 256;
  cache_usage = 0;
  eviction_cursor = 0;
  cache_mode = 1;
  region_size = 1120;
}

abbrev pub toy_cluster : Cluster
toy_cluster = record {
  replication = 2;
  cache_on = true;
  crypto = toy_ctx;
  headers = toy_header ∷ toy_header ∷ [];
}

abbrev pub toy_region : Region
toy_region = record { memory = replicate 1120 0; mapped_bytes = 1120 }

abbrev pub toy_world : World
toy_world = toy_region ∷ toy_region ∷ []

pub toy_region-NodeFits : NodeFits toy_header toy_region
toy_region-NodeFits = record {
  mapped = record { mapped = length-replicate {A = ℕ} 1120 0; small = omega arith };
  layout = record { inside = omega arith; small = omega arith };
}

nodes_fit : (i : ℕ) → i < 2 → NodeFits (session_header toy_cluster i) (node toy_world i)
nodes_fit zero lt = toy_region-NodeFits
nodes_fit (suc zero) lt = toy_region-NodeFits
nodes_fit (suc (suc i)) lt = absurd (omega arith)

pub toy_world-WorldFits : WorldFits toy_cluster toy_world
toy_world-WorldFits = record { sessions = refl; nodes = nodes_fit }
