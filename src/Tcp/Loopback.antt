-- ===== src/Tcp/Loopback.antt =====
-- A client and a memory node's thread on one connection (src/transport_tcp.c), which loses nothing:
-- when the client waits for a response, the thread makes a round.
pub mod Exchange
use tee_dist.Base.{
  ℕ, Bool, true, leb, ◌≤◌, ◌<◌, ◌≡◌, refl, ap, ◌∙◌, sym, arith, if◌then◌else◌, Option, none, some,
  List, [], ◌∷◌, ◌++◌, Bytes, length, take, drop, get_or, set, length-append, drop-append,
  take-append, take-length,
}
use mathlib.Core.List.{append-nil}
use tee_dist.Region.{Region}
use tee_dist.Cluster.Monad.{Transport}
use tee_dist.Cluster.Local.{World, no_region}
use tee_dist.Tcp.{Stream, msg_bytes}
use tee_dist.Tcp.Server.{Round, Service, Served, served, ended, stuck, serve}
use tee_dist.Tcp.Client.{to_option, client_read, client_write, client_cas}

-- The bytes under way to the memory node and to the client.
pub record Pipe : Type 0 where
  pub inbox : Bytes
  pub outbox : Bytes

-- A memory node and the connection to it.
pub record Link : Type 0 where
  pub region : Region
  pub pipe : Pipe

-- The next bytes under way, if there are enough of them.
unfoldable pub next_bytes : ℕ → Bytes → Option (Bytes × Bytes)
next_bytes n bs = if leb n (length bs) then some (take n bs, drop n bs) else none

unfoldable pub take_inbox : Pipe → Option (Bytes × Bytes) → Option Bytes × Pipe
take_inbox p none = (none, p)
take_inbox p (some (bs, rest)) = (some bs, record p { inbox = rest })

-- The memory node's end.
abbrev pub node_end : Stream Pipe
node_end = record {
  send_all = λ bs p. (some tt, record p { outbox = p.outbox ++ bs });
  recv_all = λ n p. take_inbox p (next_bytes n p.inbox);
}

unfoldable pub after_round : Link → Served Pipe → Link
after_round l (served r p) = record { region = r; pipe = p }
after_round l (ended r p) = record { region = r; pipe = p }
after_round l stuck = l

-- A round of the thread.
unfoldable pub run_node : Service → Round → Link → Link
unfolding after_round
run_node service round l = after_round l (serve node_end service round l.region l.pipe)

unfoldable pub take_outbox : Link → Option (Bytes × Bytes) → Option Bytes × Link
take_outbox l none = (none, l)
take_outbox l (some (bs, rest)) = (some bs, record l { pipe = record l.pipe { outbox = rest } })

-- The client's end: while too few bytes have arrived, the thread makes a round.
unfoldable pub wait_outbox :
    Service → Round → ℕ → Link → Option (Bytes × Bytes) → Option Bytes × Link
unfolding run_node take_outbox
wait_outbox service round n l none =
    let l' = run_node service round l in take_outbox l' (next_bytes n l'.pipe.outbox)
wait_outbox service round n l (some found) = take_outbox l (some found)

abbrev pub client_end : Service → Round → Stream Link
client_end service round = record {
  send_all = λ bs l. (some tt, record l { pipe = record l.pipe { inbox = l.pipe.inbox ++ bs } });
  recv_all = λ n l. wait_outbox service round n l (next_bytes n l.pipe.outbox);
}

-- A connection on which nothing is under way.
abbrev pub idle : Region → Link
idle r = record { region = r; pipe = record { inbox = []; outbox = [] } }

pub next_bytes_front :
    (n : ℕ) (bs rest : Bytes) → length bs ≡ n → next_bytes n (bs ++ rest) ≡ some (bs, rest)
unfolding next_bytes
next_bytes_front n bs rest h =
    let enough : leb n (length (bs ++ rest)) ≡ true = ground (arith, length-append bs rest) in
    rw (enough, take-append n bs rest h, drop-append n bs rest h) refl

pub next_bytes_few : (n : ℕ) (bs : Bytes) → length bs < n → next_bytes n bs ≡ none
unfolding next_bytes
next_bytes_few n bs h = ground arith

pub next_bytes_all : (n : ℕ) (bs : Bytes) → length bs ≡ n → next_bytes n bs ≡ some (bs, [])
next_bytes_all n bs h = ap (next_bytes n) (sym (append-nil bs)) ∙ next_bytes_front n bs [] h
