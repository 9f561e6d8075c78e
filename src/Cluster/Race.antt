-- ===== src/Cluster/Race.antt =====
-- Several clients that commit to one slot of a memory node (src/cluster.c): each reads the slot's guard
-- word, as the probe does, writes the body of its proposal, and then compares and swaps the guard word, as
-- `td_commit_slot_at` does. Each access is one step, and the steps of the clients come in any order.
pub mod Winners
pub mod Lost
pub mod Commits
use tee_dist.Base.{ℕ, ◌+◌, ◌≡◌, ◌==◌, if◌then◌else◌, some, Bytes, add64}
use tee_dist.Region.{Slot, Region, body_start, body_bytes, write_bytes, cas64}
use tee_dist.Region.Commit.{slot_at}

-- How far a client is, and the epoch that it found.
pub data Pc : Type 0 where
  ready : Pc
  found : ℕ → Pc
  stored : ℕ → Pc
  won : ℕ → Pc
  lost : ℕ → Pc

-- The region of the memory node and the clients.
pub record Shared : Type 0 where
  pub region : Region
  pub pc : ℕ → Pc

abbrev pub update : (ℕ → Pc) → ℕ → Pc → ℕ → Pc
update f i p j = if j == i then p else f j

-- A client knows that it won by the word that the compare-and-swap observed.
unfoldable pub outcome : ℕ → ℕ → Pc
outcome observed epoch = if observed == epoch then won epoch else lost epoch

-- A step of a client, on the slot at an offset. `proposals i e` is what client `i` proposes on the epoch `e`.
pub data Step (off : ℕ) (proposals : ℕ → ℕ → Slot) : Shared → Shared → Type 0 where
  look :
      (s : Shared) (i : ℕ)
      → s.pc i ≡ ready
      → Step off proposals s
          (record s { pc = update s.pc i (found (slot_at s.region.memory off).guard_epoch) })
  store :
      (s : Shared) (i e : ℕ) (r : Region)
      → s.pc i ≡ found e
      → write_bytes s.region (add64 off body_start) (body_bytes (proposals i e)) ≡ some r
      → Step off proposals s (record { region = r; pc = update s.pc i (stored e) })
  swap :
      (s : Shared) (i e observed : ℕ) (r : Region)
      → s.pc i ≡ stored e
      → cas64 s.region off e (proposals i e).visible_epoch ≡ some (observed, r)
      → Step off proposals s (record { region = r; pc = update s.pc i (outcome observed e) })

-- What a number of steps leads to.
pub data Reach (off : ℕ) (proposals : ℕ → ℕ → Slot) (start : Shared) : ℕ → Shared → Type 0 where
  here : Reach off proposals start 0 start
  next :
      {n : ℕ} {s t : Shared}
      → Reach off proposals start n s
      → Step off proposals s t
      → Reach off proposals start (n + 1) t
