-- ===== src/Tcp/Server.antt =====
-- The memory node's side of a connection: `td_tcp_connection_main` (src/transport_tcp.c). What `malloc`
-- and the clock do in a round is a parameter of the round.
use tee_dist.Base.{
  ℕ, Bool, ltb, ◌==◌, if◌then◌else◌, not, Option, none, some, List, [], ◌∷◌, Bytes, bit_and,
}
use tee_dist.Region.{Region, header_of, read_bytes, write_bytes, cas64}
use tee_dist.Region.Evict.{evict_if_needed}
use tee_dist.Tcp.{
  Stream, hello, read, write, cas, evict, ack, close, op_code, WireMsg, zero_msg, wire_magic,
  flag_profile, msg_bytes, bytes_of_msg, msg_of_bytes,
}

-- What a round finds: the stop flag, whether `malloc` of a size succeeds, and what the clock measures,
-- in all and for the two stages.
pub record Round : Type 0 where
  pub stopped : Bool
  pub allocates : ℕ → Bool
  pub total_ns : ℕ
  pub stage1_ns : ℕ
  pub stage2_ns : ℕ

-- What a connection is served with: the threshold of the configuration, and the rounds that an eviction
-- is followed for.
pub record Service : Type 0 where
  pub eviction_threshold_pct : ℕ
  pub evict_fuel : ℕ

-- After a round: the thread waits for the next request, or has left its loop, or is caught in an eviction.
pub data Served (S : Type 0) : Type 0 where
  served : Region → S → Served S
  ended : Region → S → Served S
  stuck : Served S

-- A time that is measured only for a profiled request.
abbrev pub measured : WireMsg → ℕ → ℕ
measured request ns = if bit_and request.flags flag_profile == 0 then 0 else ns

-- The response as it is set up, with the times that the branch fills in.
unfoldable pub response_to : WireMsg → ℕ → ℕ → ℕ → WireMsg
response_to request total stage1 stage2 = record zero_msg {
  magic = wire_magic;
  op = op_code ack;
  flags = request.flags;
  profile_total_ns = measured request total;
  profile_stage1_ns = measured request stage1;
  profile_stage2_ns = measured request stage2;
}

module _ {S : Type 0} where
  -- The end of a round, by the result of the last send.
  unfoldable pub after_send : Region → Option (Unit {0}) × S → Served S
  after_send r (none, s) = ended r s
  after_send r (some sent, s) = served r s

  -- The end of a round whose response is followed by data.
  unfoldable pub after_header : Stream S → Region → Bytes → ℕ → Option (Unit {0}) × S → Served S
  unfolding after_send
  after_header st r data_bytes len (none, s) = ended r s
  after_header st r data_bytes len (some sent, s) =
      if ltb 0 len then after_send r (st.send_all data_bytes s) else served r s

  -- The loop ends after `CLOSE`, whether its response is sent or not.
  unfoldable pub after_close : Region → Option (Unit {0}) × S → Served S
  after_close r (sent, s) = ended r s

module _ {S : Type 0} (st : Stream S) where
  unfoldable pub reply : WireMsg → Region → S → Served S
  unfolding after_send
  reply response r s = after_send r (st.send_all (bytes_of_msg response) s)

  -- `case TD_WIRE_READ`, behind `malloc` and the read.
  unfoldable pub answer_read : WireMsg → Round → Region → S → Option Bytes → Served S
  unfolding reply after_header response_to
  answer_read request round r s none =
      let response = response_to request round.total_ns round.stage1_ns round.stage2_ns in
      reply (record response { status = 1; length = 0 }) r s
  answer_read request round r s (some data_bytes) =
      let response = response_to request round.total_ns round.stage1_ns round.stage2_ns in
      after_header st r data_bytes request.length
        (st.send_all (bytes_of_msg (record response { length = request.length })) s)

  -- `case TD_WIRE_WRITE`, behind the write; `none` is the region of a round that failed.
  unfoldable pub answer_written : WireMsg → Round → Region → S → Option Region → Served S
  unfolding reply response_to
  answer_written request round r s none =
      let response = response_to request round.total_ns round.stage1_ns round.stage2_ns in
      reply (record response { status = 1 }) r s
  answer_written request round r s (some r') =
      reply (response_to request round.total_ns round.stage1_ns round.stage2_ns) r' s

  -- `case TD_WIRE_WRITE`, behind `malloc` and the payload.
  unfoldable pub answer_write : WireMsg → Round → Region → Option Bytes × S → Served S
  unfolding answer_written
  answer_write request round r (none, s) = answer_written request round r s none
  answer_write request round r (some payload, s) =
      answer_written request round r s (write_bytes r request.offset payload)

  -- `case TD_WIRE_CAS`, behind the compare-and-swap.
  unfoldable pub answer_cas : WireMsg → Round → Region → S → Option (ℕ × Region) → Served S
  unfolding reply response_to
  answer_cas request round r s none =
      let response = response_to request round.total_ns round.stage1_ns 0 in
      reply (record response { status = 1 }) r s
  answer_cas request round r s (some (observed, r')) =
      let response = response_to request round.total_ns round.stage1_ns 0 in
      reply (record response { compare = observed }) r' s

  -- `case TD_WIRE_EVICT`, behind the eviction.
  unfoldable pub answer_evict : WireMsg → Round → S → Option Region → Served S
  unfolding reply response_to
  answer_evict request round s none = stuck
  answer_evict request round s (some r) =
      reply (response_to request round.total_ns round.stage1_ns 0) r s

  -- The switch over the operation of a request.
  unfoldable pub dispatch : Service → Round → WireMsg → Region → S → Served S
  unfolding answer_read answer_write answer_cas answer_evict reply after_close response_to
  dispatch service round request r s =
      if request.op == op_code hello
      then (let response = response_to request round.stage1_ns round.stage1_ns 0 in
          reply (record response { header = header_of r }) r s)
      else if request.op == op_code read
      then answer_read request round r s (
          if round.allocates request.length
          then read_bytes r request.offset request.length
          else none)
      else if request.op == op_code write
      then answer_write request round r
          (if round.allocates request.length then st.recv_all request.length s else (none, s))
      else if request.op == op_code cas
      then answer_cas request round r s (cas64 r request.offset request.compare request.swap)
      else if request.op == op_code evict
      then answer_evict request round s
          (evict_if_needed service.evict_fuel r service.eviction_threshold_pct)
      else if request.op == op_code close
      then after_close r (st.send_all (bytes_of_msg (response_to request round.total_ns 0 0)) s)
      else (let response = response_to request 0 0 0 in reply (record response { status = 1 }) r s)

  -- A round, behind the request.
  unfoldable pub on_request : Service → Round → Region → Option Bytes × S → Served S
  unfolding dispatch
  on_request service round r (none, s) = ended r s
  on_request service round r (some bytes, s) =
      let request = msg_of_bytes bytes in
      if not (request.magic == wire_magic) then ended r s else dispatch service round request r s

  -- One round of the loop.
  unfoldable pub serve : Service → Round → Region → S → Served S
  unfolding on_request
  serve service round r s =
      if round.stopped then ended r s else on_request service round r (st.recv_all msg_bytes s)

  -- What the next rounds make of a connection; after the last of them it is still served.
  unfoldable connection_next : (Region → S → Served S) → Served S → Served S
  connection_next loop (served r s) = loop r s
  connection_next loop (ended r s) = ended r s
  connection_next loop stuck = stuck

  -- `td_tcp_connection_main`, for a sequence of rounds.
  unfoldable pub connection_main : Service → List Round → Region → S → Served S
  unfolding serve connection_next
  connection_main service [] r s = served r s
  connection_main service (round ∷ rounds) r s =
      connection_next (λ r' s'. connection_main service rounds r' s') (serve service round r s)
