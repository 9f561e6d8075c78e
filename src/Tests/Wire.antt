-- ===== src/Tests/Wire.antt =====
-- The witnesses of the properties of the transports: sockets that hand over one byte at a time, and a
-- queue of completions.
use tee_dist.Base.{
  ◌==◌, if◌then◌else◌, ℕ, zero, suc, ◌+◌, ◌<◌, ◌≤◌, ◌≡◌, ◌⊎◌, inl, inr, refl, sym, ap, arith, true,
  false, none, some, List, [], ◌∷◌, ◌++◌, Bytes, AllBytes, length, take, replicate, u64_mod,
}
use tee_dist.Cluster.Local.{local}
use tee_dist.Tcp.{WireMsg, cas, op_code, bytes_of_msg, msg_of_bytes, wire_magic}
use tee_dist.Tcp.Codec.{msg_of_bytes-bytes_of_msg, length-bytes_of_msg}
use tee_dist.Tcp.Socket.{
  Received, received, recv_interrupted, Sent, sent, send_interrupted, Socket, recv_all, send_all,
  Delivers, Accepts, recv_all-Delivers, send_all_sends,
}
use tee_dist.Tcp.Server.{Round, Service, ended, on_request, serve}
use tee_dist.Tcp.Client.{write_request, cas_request}
use tee_dist.Tcp.Fits.{IsRunning, write_request-MsgFits, cas_request-MsgFits}
use tee_dist.Tcp.Loopback.{node_end}
use tee_dist.Tcp.Framing.{Framed, serve-Framed, payload_length}
use tee_dist.Tcp.Refines.{tcp, links, linked, tcp-read_region, tcp-write_region, tcp-cas64}
use tee_dist.Rdma.{Polled, poll_empty, completion, of_send, of_recv, Verbs, poll_wc}
use tee_dist.Rdma.Client.{call}
use tee_dist.Rdma.Server.{Registration, answer}
use tee_dist.Rdma.Answers.{reply_with, on_request-answer}
use tee_dist.Rdma.Poll.{IsQueue, poll_wc_takes, call_loses_response}
use tee_dist.Tests.Toy.{toy_region, toy_world, toy_region-NodeFits, AllBytes-replicate}

-- How many interruptions are to come, and the bytes under way.
abbrev Slow : Type 0
Slow = ℕ × Bytes

abbrev slow_recv : ℕ → Slow → Received × Slow
slow_recv n (suc k, bs) = (recv_interrupted, (k, bs))
slow_recv n (zero, []) = (received [], (zero, []))
slow_recv n (zero, b ∷ bs) = (received (b ∷ []), (zero, bs))

abbrev slow_send : Bytes → Slow → Sent × Slow
slow_send bs (suc k, done) = (send_interrupted, (k, done))
slow_send [] (zero, done) = (sent 0, (zero, done))
slow_send (b ∷ bs) (zero, done) = (sent 1, (zero, done ++ (b ∷ [])))

abbrev slow : Socket Slow
slow = record { recv = slow_recv; send = slow_send }

slow_step :
    (n : ℕ) (s : Slow)
    → 0 < n
    → n ≤ length s.1
    → ((bs : Bytes) × (s' : Slow) × (slow.recv n s ≡ (received bs, s'))
        × (0 < length bs)
        × (length bs ≤ n)
        × (s.1 ≡ bs ++ s'.1)
        × (s'.0 ≤ s.0))
      ⊎ ((s' : Slow) × (slow.recv n s ≡ (recv_interrupted, s')) × (s'.1 ≡ s.1) × (s'.0 < s.0))
slow_step n (suc k, bs) pos there = inr ((k, bs), refl, refl, omega arith)
slow_step n (zero, []) pos there = absurd (omega arith)
slow_step n (zero, b ∷ bs) pos there =
    inl (b ∷ [], (zero, bs), refl, omega arith, omega arith, refl, omega arith)

slow-Delivers : Delivers slow (λ s. s.1) (λ s. s.0)
slow-Delivers = record { step = slow_step }

slow_send_step :
    (bs : Bytes) (s : Slow)
    → 0 < length bs
    → ((n : ℕ) × (s' : Slow) × (slow.send bs s ≡ (sent n, s'))
        × (0 < n)
        × (n ≤ length bs)
        × (s'.1 ≡ s.1 ++ take n bs)
        × (s'.0 ≤ s.0))
      ⊎ ((s' : Slow) × (slow.send bs s ≡ (send_interrupted, s')) × (s'.1 ≡ s.1) × (s'.0 < s.0))
slow_send_step bs (suc k, done) pos = inr ((k, done), refl, refl, omega arith)
slow_send_step [] (zero, done) pos = absurd (omega arith)
slow_send_step (b ∷ bs) (zero, done) pos =
    inl (1, (zero, done ++ (b ∷ [])), refl, omega arith, omega arith, refl, omega arith)

slow-Accepts : Accepts slow (λ s. s.1) (λ s. s.0)
slow-Accepts = record { step = slow_send_step }

recv_all-Delivers_example :
    (s' : Slow) × (recv_all 4 slow 2 [] (2, 7 ∷ 8 ∷ 9 ∷ []) ≡ some (some (7 ∷ 8 ∷ []), s'))
    × (s'.1 ≡ 9 ∷ [])
    × (s'.0 ≤ 2)
recv_all-Delivers_example =
    recv_all-Delivers slow (λ s. s.1) (λ s. s.0) slow-Delivers 4 2 [] (2, 7 ∷ 8 ∷ 9 ∷ [])
      (omega arith) (omega arith)

send_all_sends_example :
    (s' : Slow) × (send_all 4 slow (7 ∷ 8 ∷ []) (2, 6 ∷ []) ≡ some (some tt, s'))
    × (s'.1 ≡ 6 ∷ 7 ∷ 8 ∷ [])
    × (s'.0 ≤ 2)
send_all_sends_example =
    send_all_sends slow (λ s. s.1) (λ s. s.0) slow-Accepts 4 (7 ∷ 8 ∷ []) (2, 6 ∷ []) (omega arith)

abbrev service : Service
service = record { eviction_threshold_pct = 80; evict_fuel = 10 }

abbrev round : Round
round = record {
  stopped = false;
  allocates = λ n. true;
  total_ns = 0;
  stage1_ns = 0;
  stage2_ns = 0;
}

round-IsRunning : IsRunning round
round-IsRunning = record {
  running = refl;
  total_fits = omega arith;
  stage1_fits = omega arith;
  stage2_fits = omega arith;
}

toy_bytes : AllBytes toy_region.memory
toy_bytes = AllBytes-replicate 1120 0 (omega arith)

tcp-read_region_example :
    (tcp service round false).read_region 1 88 344 (links toy_world)
    ≡ linked (local.read_region 1 88 344 toy_world)
tcp-read_region_example =
    tcp-read_region service round false toy_world 1 88 344 round-IsRunning
      toy_region-NodeFits.mapped refl (omega arith)

tcp-write_region_example :
    (tcp service round true).write_region 0 96 (1 ∷ 2 ∷ []) (links toy_world)
    ≡ linked (local.write_region 0 96 (1 ∷ 2 ∷ []) toy_world)
tcp-write_region_example =
    tcp-write_region service round true toy_world 0 96 (1 ∷ 2 ∷ []) round-IsRunning refl
      (omega arith) (omega arith)

tcp-cas64_example :
    (tcp service round false).cas64 0 88 0 5 (links toy_world)
    ≡ linked (local.cas64 0 88 0 5 toy_world)
tcp-cas64_example =
    tcp-cas64 service round false toy_world 0 88 0 5 round-IsRunning toy_bytes (omega arith)
      (omega arith) (omega arith)

-- A write of two bytes, as it comes over the connection.
abbrev head : Bytes
head = bytes_of_msg (write_request false 96 2)

head_read : msg_of_bytes head ≡ write_request false 96 2
head_read =
    msg_of_bytes-bytes_of_msg (write_request false 96 2)
      (write_request-MsgFits false 96 2 (omega arith) (omega arith))

head_magic : (msg_of_bytes head).magic ≡ wire_magic
unfolding write_request
head_magic = ap (λ (m : WireMsg). m.magic) head_read

head_range : (msg_of_bytes head).offset + (msg_of_bytes head).length < u64_mod
unfolding write_request
head_range =
    omega
      (arith, ap (λ (m : WireMsg). m.offset) head_read, ap (λ (m : WireMsg). m.length) head_read)

head_payload : 2 ≡ payload_length (msg_of_bytes head)
unfolding write_request
head_payload = sym (ap payload_length head_read)

serve-Framed_example : Framed (9 ∷ []) (5 ∷ []) (
    serve node_end service round toy_region
      (record { inbox = head ++ ((1 ∷ 2 ∷ []) ++ (5 ∷ [])); outbox = 9 ∷ [] }))
serve-Framed_example =
    serve-Framed service round toy_region head (1 ∷ 2 ∷ []) (5 ∷ []) (9 ∷ []) refl
      toy_region-NodeFits.mapped (length-bytes_of_msg (write_request false 96 2)) head_magic refl
      head_range head_payload

abbrev registration : Registration
registration = record { base = 4096; rkey = 3 }

-- A compare-and-swap, as it comes over the connection.
abbrev swap_head : Bytes
swap_head = bytes_of_msg (cas_request true 88 0 5)

swap_head_op : (msg_of_bytes swap_head).op ≡ op_code cas
unfolding cas_request
swap_head_op =
    ap (λ (m : WireMsg). m.op)
      (msg_of_bytes-bytes_of_msg (cas_request true 88 0 5)
        (cas_request-MsgFits true 88 0 5 (omega arith) (omega arith) (omega arith)))

on_request-answer_example :
    on_request node_end service round toy_region
      (some swap_head, record { inbox = []; outbox = [] })
    ≡ (if (msg_of_bytes swap_head).magic == wire_magic
        then reply_with node_end
            (record { inbox = []; outbox = [] })
            (answer service registration round (msg_of_bytes swap_head) toy_region)
        else ended toy_region (record { inbox = []; outbox = [] }))
on_request-answer_example =
    on_request-answer node_end service registration round swap_head toy_region
      (record { inbox = []; outbox = [] }) (omega arith) (inl swap_head_op)

abbrev next_poll : List Polled → Polled × List Polled
next_poll [] = (poll_empty, [])
next_poll (p ∷ ps) = (p, ps)

-- A connection of which only the queue matters.
abbrev queued : Verbs (List Polled)
queued = record {
  poll_cq = next_poll;
  post_recv = λ w. (true, w);
  post_message = λ msg w. (true, w);
  post_read = λ addr key len w. (true, w);
  post_write = λ addr key bs w. (true, w);
  recv_msg = λ w. [];
  op_buf = λ len w. [];
}

queued_next :
    (w : List Polled) (p : Polled) (rest : List Polled)
    → w ≡ p ∷ rest
    → (w' : List Polled) × (queued.poll_cq w ≡ (p, w')) × (w' ≡ rest)
queued_next w p rest e = (rest, rw e refl, refl)

queued-IsQueue : IsQueue queued (λ w. w)
queued-IsQueue = record { next = queued_next }

poll_wc_takes_example :
    (w' : List Polled) × (poll_wc 3 queued of_send
        (poll_empty ∷ completion true of_recv ∷ completion true of_send ∷ poll_empty ∷ [])
      ≡ some (true, w'))
    × (w' ≡ poll_empty ∷ [])
poll_wc_takes_example =
    poll_wc_takes queued (λ w. w) queued-IsQueue 3 of_send
      (poll_empty ∷ completion true of_recv ∷ []) (poll_empty ∷ [])
      (poll_empty ∷ completion true of_recv ∷ completion true of_send ∷ poll_empty ∷ [])
      (inl refl, (inr (of_recv, refl, refl), tt)) refl (omega arith)

call_loses_response_example :
    call 3 queued
      (cas_request false 88 0 5)
      (completion true of_recv ∷ (completion true of_send ∷ replicate 4 poll_empty))
    ≡ none
call_loses_response_example =
    call_loses_response queued (λ w. w) queued-IsQueue 3 4 (cas_request false 88 0 5)
      (completion true of_recv ∷ (completion true of_send ∷ replicate 4 poll_empty))
      (completion true of_recv ∷ (completion true of_send ∷ replicate 4 poll_empty)) refl refl
      (omega arith)
