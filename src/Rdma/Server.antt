-- ===== src/Rdma/Server.antt =====
-- The memory node's side of an RDMA connection: `td_rdma_server_conn_main` (src/transport_rdma.c).
use tee_dist.Base.{
  ℕ, Bool, true, false, not, bit_and, add64, ◌==◌, if◌then◌else◌, Option, none, some, List, [], ◌∷◌,
}
use tee_dist.Region.{Region, header_of, cas64}
use tee_dist.Region.Evict.{evict_if_needed}
use tee_dist.Tcp.{
  hello, cas, evict, ack, close, op_code, WireMsg, zero_msg, wire_magic, flag_profile, msg_of_bytes,
}
use tee_dist.Tcp.Server.{Round, Service, Served, served, ended, stuck}
use tee_dist.Rdma.{
  of_recv, same_opcode, Polled, poll_failed, poll_empty, completion, Verbs, send_control,
}

-- The registration of the region: its base address and its key.
pub record Registration : Type 0 where
  pub base : ℕ
  pub rkey : ℕ

-- The response as it is set up.
unfoldable pub prepared : WireMsg → WireMsg
prepared request = record zero_msg { magic = wire_magic; op = op_code ack; flags = request.flags }

-- `profile_enabled`
unfoldable pub profile_enabled : WireMsg → Bool
profile_enabled request = not (bit_and request.flags flag_profile == 0)

-- The time of the operation, added to a response to a profiled request.
unfoldable pub with_stage : WireMsg → Round → WireMsg → WireMsg
unfolding profile_enabled
with_stage request round response =
    if profile_enabled request
    then record response { profile_stage1_ns = add64 response.profile_stage1_ns round.stage1_ns }
    else response

-- The time of the round.
unfoldable pub with_total : WireMsg → Round → WireMsg → WireMsg
unfolding profile_enabled
with_total request round response =
    if profile_enabled request
    then record response { profile_total_ns = round.total_ns }
    else response

-- `TD_WIRE_CAS`, behind the compare-and-swap.
unfoldable pub answer_cas : WireMsg → Round → Region → Option (ℕ × Region) → WireMsg × Region
unfolding prepared with_stage
answer_cas request round r none =
    (with_stage request round (record (prepared request) { status = 1 }), r)
answer_cas request round r (some (observed, r')) =
    (with_stage request round (record (prepared request) { compare = observed }), r')

-- `TD_WIRE_EVICT`, behind the eviction.
unfoldable pub answer_evict : WireMsg → Round → Option Region → Option (WireMsg × Region)
unfolding prepared with_stage
answer_evict request round none = none
answer_evict request round (some r) = some (with_stage request round (prepared request), r)

-- The chain of tests on the operation; `none` is an eviction without end.
unfoldable pub answer_op :
    Service → Registration → Round → WireMsg → Region → Option (WireMsg × Region)
unfolding answer_cas answer_evict prepared with_stage
answer_op service registration round request r =
    if request.op == op_code hello
    then some (
      with_stage request round (record (prepared request) {
        header = header_of r;
        remote_addr = registration.base;
        rkey = registration.rkey;
      }),
      r,
    )
    else if request.op == op_code cas
    then some (answer_cas request round r (cas64 r request.offset request.compare request.swap))
    else if request.op == op_code evict
    then answer_evict request round
        (evict_if_needed service.evict_fuel r service.eviction_threshold_pct)
    else if request.op == op_code close
    then some (prepared request, r)
    else some (record (prepared request) { status = 1 }, r)

unfoldable pub totalled : WireMsg → Round → Option (WireMsg × Region) → Option (WireMsg × Region)
unfolding with_total
totalled request round none = none
totalled request round (some (response, r)) = some (with_total request round response, r)

-- The response that is sent, `CLOSE` included, and the region afterwards.
unfoldable pub answer :
    Service → Registration → Round → WireMsg → Region → Option (WireMsg × Region)
unfolding answer_op totalled
answer service registration round request r =
    totalled request round (answer_op service registration round request r)

module _ {W : Type 0} (fuel : ℕ) (v : Verbs W) where
  -- The end of a round: the loop is left after `CLOSE` and when the response was not sent.
  unfoldable pub after_answer : Bool → Region → Option (Bool × W) → Served W
  after_answer closes r none = stuck
  after_answer closes r (some (false, w)) = ended r w
  after_answer closes r (some (true, w)) = if closes then ended r w else served r w

  unfoldable pub send_answer : Bool → W → Option (WireMsg × Region) → Served W
  unfolding after_answer send_control
  send_answer closes w none = stuck
  send_answer closes w (some (response, r)) = after_answer closes r (send_control fuel v response w)

  -- A request that was received; the next receive is posted before it is answered.
  unfoldable pub on_request :
      Service → Registration → Round → WireMsg → Region → Bool × W → Served W
  unfolding send_answer answer
  on_request service registration round request r (false, w) = ended r w
  on_request service registration round request r (true, w) =
      send_answer (request.op == op_code close) w (answer service registration round request r)

  -- A result of the poll.
  unfoldable pub on_poll : Service → Registration → Round → Region → Polled × W → Served W
  unfolding on_request
  on_poll service registration round r (poll_failed, w) = ended r w
  on_poll service registration round r (poll_empty, w) = served r w
  on_poll service registration round r (completion false opcode, w) = ended r w
  on_poll service registration round r (completion true opcode, w) =
      if same_opcode opcode of_recv
      then on_request service registration round (msg_of_bytes (v.recv_msg w)) r (v.post_recv w)
      else served r w

  -- One round of the loop.
  unfoldable pub serve : Service → Registration → Round → Region → W → Served W
  unfolding on_poll
  serve service registration round r w =
      if round.stopped then ended r w else on_poll service registration round r (v.poll_cq w)

  unfoldable connection_next : (Region → W → Served W) → Served W → Served W
  connection_next loop (served r w) = loop r w
  connection_next loop (ended r w) = ended r w
  connection_next loop stuck = stuck

  -- `td_rdma_server_conn_main`, for a sequence of rounds.
  unfoldable pub conn_main : Service → Registration → List Round → Region → W → Served W
  unfolding serve connection_next
  conn_main service registration [] r w = served r w
  conn_main service registration (round ∷ rounds) r w =
      connection_next (λ r' w'. conn_main service registration rounds r' w')
        (serve service registration round r w)
