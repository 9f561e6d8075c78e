-- ===== src/Tcp/Refines.antt =====
-- The TCP transport (src/transport_tcp.c) does what the regions of the memory nodes do: over connections
-- that lose nothing, each function of a session has the result and the effect of the operation of
-- src/layout.c on the region of its memory node.
use tee_dist.Base.{
  ℕ, zero, suc, Bool, true, ◌+◌, ◌<◌, ◌≡◌, refl, ap, ◌∙◌, Option, none, some, List, [], ◌∷◌, Bytes,
  AllBytes, length, get_or, set, u64_mod,
}
use tee_dist.Region.{Region, read_bytes, write_bytes, cas64}
use tee_dist.Region.Access.{IsMapped}
use tee_dist.Cluster.Monad.{Transport}
use tee_dist.Cluster.Local.{World, node, no_region, local, put_region, put_swapped}
use tee_dist.Tcp.Server.{Round, Service}
use tee_dist.Tcp.Client.{to_option, client_read, client_write, client_cas}
use tee_dist.Tcp.Fits.{IsRunning}
use tee_dist.Tcp.Loopback.{Link, client_end, idle}
use tee_dist.Tcp.Links.{written, compared, client_read-link, client_write-link, client_cas-link}

-- The connection of a session.
abbrev pub link : List Link → ℕ → Link
link w session = get_or w session (idle no_region)

-- The connections after a call of a session.
unfoldable pub put_link : {A : Type 0} → List Link → ℕ → Option A × Link → Option A × List Link
put_link w session (a, l) = (a, set w session l)

-- The function pointers that `td_tcp_client_connect` stores, over the connections to the memory nodes.
abbrev pub tcp : Service → Round → Bool → Transport (List Link)
tcp service round profiled = record {
  read_region = λ session off len w.
      put_link w session
        (to_option (client_read (client_end service round) profiled off len (link w session)));
  write_region = λ session off bs w.
      put_link w session
        (to_option (client_write (client_end service round) profiled off bs (link w session)));
  cas64 = λ session off compare swap w. put_link w session (
      to_option (client_cas (client_end service round) profiled off compare swap (link w session)));
  usleep = λ time w. w;
}

-- A connection to each memory node, with nothing under way.
abbrev pub links : World → List Link
links [] = []
links (r ∷ w) = idle r ∷ links w

link-links : (w : World) (session : ℕ) → link (links w) session ≡ idle (node w session)
link-links [] session = refl
link-links (r ∷ w) zero = refl
link-links (r ∷ w) (suc session) = link-links w session

set-links :
    (w : World) (session : ℕ) (r : Region)
    → set (links w) session (idle r) ≡ links (set w session r)
set-links [] session r = refl
set-links (s ∷ w) zero r = refl
set-links (s ∷ w) (suc session) r = ap (λ l. idle s ∷ l) (set-links w session r)

set-node : (w : World) (session : ℕ) → set w session (node w session) ≡ w
set-node [] session = refl
set-node (s ∷ w) zero = refl
set-node (s ∷ w) (suc session) = ap (λ l. s ∷ l) (set-node w session)

-- A result over the worlds of regions, over connections.
abbrev pub linked : {A : Type 0} → Option A × World → Option A × List Link
linked (a, w) = (a, links w)

put_link-same :
    {A : Type 0} (w : World) (session : ℕ) (a : Option A)
    → put_link (links w) session (a, idle (node w session)) ≡ linked (a, w)
unfolding put_link
put_link-same w session a =
    ap (λ v. (a, v)) (set-links w session (node w session) ∙ ap links (set-node w session))

put_link-written :
    (w : World) (session : ℕ) (o : Option Region)
    → put_link (links w) session (written (node w session) o) ≡ linked (put_region session w o)
unfolding put_link put_region
put_link-written w session none = put_link-same w session none
put_link-written w session (some r) = ap (λ v. (some tt, v)) (set-links w session r)

put_link-compared :
    (w : World) (session : ℕ) (o : Option (ℕ × Region))
    → put_link (links w) session (compared (node w session) o) ≡ linked (put_swapped session w o)
unfolding put_link put_swapped
put_link-compared w session none = put_link-same w session none
put_link-compared w session (some (observed, r)) =
    ap (λ v. (some observed, v)) (set-links w session r)

-- The connections after a call whose effect is known at its own connection.
put_link-link :
    {A : Type 0} (m : Link → Option A × Link) (w : World) (session : ℕ) (a : Option A × Link)
    → m (idle (node w session)) ≡ a
    → put_link (links w) session (m (link (links w) session)) ≡ put_link (links w) session a
put_link-link m w session a e = rw (link-links w session, e) refl

-- If the memory node's thread runs and its `malloc` of the length succeeds, and the range does not
-- wrap, then a read of a session of the TCP transport returns what a read of the memory node's region
-- returns, its refusal included, and changes neither a region nor what is under way.
pub tcp-read_region :
    (service : Service) (round : Round) (profiled : Bool) (w : World) (session off len : ℕ)
    → IsRunning round
    → IsMapped (node w session)
    → round.allocates len ≡ true
    → off + len < u64_mod
    → (tcp service round profiled).read_region session off len (links w)
      ≡ linked (local.read_region session off len w)
tcp-read_region service round profiled w session off len live mapped allocates small =
    put_link-link (λ l. to_option (client_read (client_end service round) profiled off len l)) w
      session (read_bytes (node w session) off len, idle (node w session))
      (client_read-link service round profiled live (node w session) off len mapped allocates small)
    ∙ put_link-same w session (read_bytes (node w session) off len)

-- If the memory node's thread runs and its `malloc` of the length succeeds, and the offset and the
-- length fit 64-bit words, then a write of a session of the TCP transport has the result of the same
-- write of the memory node's region and leaves the region that this write leaves, a refusal included,
-- and nothing is under way afterwards.
pub tcp-write_region :
    (service : Service) (round : Round) (profiled : Bool) (w : World) (session off : ℕ) (bs : Bytes)
    → IsRunning round
    → round.allocates (length bs) ≡ true
    → off < u64_mod
    → length bs < u64_mod
    → (tcp service round profiled).write_region session off bs (links w)
      ≡ linked (local.write_region session off bs w)
tcp-write_region service round profiled w session off bs live allocates off_lt len_lt =
    put_link-link (λ l. to_option (client_write (client_end service round) profiled off bs l)) w
      session (written (node w session) (write_bytes (node w session) off bs))
      (client_write-link service round profiled live (node w session) off bs allocates off_lt
        len_lt)
    ∙ put_link-written w session (write_bytes (node w session) off bs)

-- If the memory node's thread runs, its region holds bytes, and the numbers fit 64-bit words, then a
-- compare-and-swap of a session of the TCP transport observes what the same operation on the memory
-- node's region observes and leaves the region that it leaves, a refusal included, and nothing is under
-- way afterwards.
pub tcp-cas64 :
    (service : Service) (round : Round) (profiled : Bool) (w : World) (session off compare swap : ℕ)
    → IsRunning round
    → AllBytes (node w session).memory
    → off < u64_mod
    → compare < u64_mod
    → swap < u64_mod
    → (tcp service round profiled).cas64 session off compare swap (links w)
      ≡ linked (local.cas64 session off compare swap w)
tcp-cas64 service round profiled w session off compare swap live bytes off_lt compare_lt swap_lt =
    put_link-link
      (λ l. to_option (client_cas (client_end service round) profiled off compare swap l)) w session
      (compared (node w session) (cas64 (node w session) off compare swap))
      (client_cas-link service round profiled live (node w session) off compare swap bytes off_lt
        compare_lt swap_lt)
    ∙ put_link-compared w session (cas64 (node w session) off compare swap)
