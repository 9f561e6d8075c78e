-- ===== src/Cluster/Local.antt =====
-- A world in which every session reaches its memory node and no other client acts: the regions of
-- src/layout.c, one for each session.
use tee_dist.Base.{
  ℕ, zero, suc, ◌<◌, ◌≡◌, ◌≢◌, refl, ap, arith, Option, none, some, List, [], ◌∷◌, length, get_or,
  set,
}
use tee_dist.Region.{
  RegionKind, RegionHeader, Slot, Region, slot_offset_for_index, read_bytes, write_bytes, cas64,
}
use tee_dist.Region.Access.{IsMapped}
use tee_dist.Region.Geometry.{LayoutFits}
use tee_dist.Region.Commit.{slot_at}
use tee_dist.Cluster.Monad.{Transport, Cluster, session_header, session_count}

abbrev pub World : Type 0
World = List Region

abbrev pub no_region : Region
no_region = record { memory = []; mapped_bytes = 0 }

-- The region of a session.
abbrev pub node : World → ℕ → Region
node w session = get_or w session no_region

-- The session's region after a write.
unfoldable pub put_region : ℕ → World → Option Region → Option (Unit {0}) × World
put_region session w none = (none, w)
put_region session w (some r) = (some tt, set w session r)

-- The session's region after a compare-and-swap.
unfoldable pub put_swapped : ℕ → World → Option (ℕ × Region) → Option ℕ × World
put_swapped session w none = (none, w)
put_swapped session w (some (observed, r)) = (some observed, set w session r)

-- Each access is the region's.
abbrev pub local : Transport World
local = record {
  read_region = λ session off len w. (read_bytes (node w session) off len, w);
  write_region = λ session off bs w. put_region session w (write_bytes (node w session) off bs);
  cas64 =
      λ session off compare swap w. put_swapped session w (cas64 (node w session) off compare swap);
  usleep = λ time w. w;
}

module _ {ℓ} {A : Type ℓ} where
  pub get_or-set_self :
      (xs : List A) (i : ℕ) (v d : A) → i < length xs → get_or (set xs i v) i d ≡ v
  get_or-set_self [] i v d h = absurd (omega arith)
  get_or-set_self (x ∷ xs) zero v d h = refl
  get_or-set_self (x ∷ xs) (suc i) v d h = get_or-set_self xs i v d (omega arith)

  pub get_or-set_other :
      (xs : List A) (i j : ℕ) (v d : A) → i ≢ j → get_or (set xs i v) j d ≡ get_or xs j d
  get_or-set_other [] i j v d h = refl
  get_or-set_other (x ∷ xs) zero zero v d h = absurd (h refl)
  get_or-set_other (x ∷ xs) zero (suc j) v d h = refl
  get_or-set_other (x ∷ xs) (suc i) zero v d h = refl
  get_or-set_other (x ∷ xs) (suc i) (suc j) v d h = get_or-set_other xs i j v d (λ e. h (ap suc e))

-- A region is mapped, and the slots that the client's copy of its header counts lie inside.
pub record NodeFits (h : RegionHeader) (r : Region) : Type 0 where
  pub mapped : IsMapped r
  pub layout : LayoutFits h r.mapped_bytes

-- There is a region for each session, and it fits the session's header.
pub record WorldFits (c : Cluster) (w : World) : Type 0 where
  pub sessions : length w ≡ session_count c
  pub nodes : (i : ℕ) → i < session_count c → NodeFits (session_header c i) (node w i)

-- The slots of a kind of a session.
abbrev pub view : Cluster → World → ℕ → RegionKind → ℕ → Slot
view c w session kind i =
    slot_at (node w session).memory (slot_offset_for_index (session_header c session) kind i)
