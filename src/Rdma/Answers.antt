-- ===== src/Rdma/Answers.antt =====
-- A compare-and-swap and an eviction over both transports: `td_tcp_connection_main`
-- (src/transport_tcp.c), which looks at the magic of a request, and `td_rdma_server_conn_main`
-- (src/transport_rdma.c), which does not.
use tee_dist.Base.{
  ℕ, ◌<◌, ◌==◌, ◌≡◌, ◌⊎◌, inl, inr, refl, arith, Bool-cases, Option, none, some, Bytes,
  if◌then◌else◌, bit_and, add64, u64_mod,
}
use tee_dist.Region.{Region, cas64}
use tee_dist.Region.Evict.{evict_if_needed}
use tee_dist.Tcp.{Stream, cas, evict, op_code, WireMsg, flag_profile, wire_magic, msg_of_bytes}
use tee_dist.Tcp.Server.{
  Round, Service, Served, ended, stuck, reply, response_to, dispatch, on_request, answer_cas,
  answer_evict,
}
use tee_dist.Rdma.Server.{
  Registration, prepared, profile_enabled, with_stage, with_total, totalled, answer_op, answer,
}

-- The end of a round of the TCP server that sends an answer.
abbrev pub reply_with : {S : Type 0} → Stream S → S → Option (WireMsg × Region) → Served S
reply_with st s none = stuck
reply_with st s (some (response, r)) = reply st response r s

module _ {S : Type 0} (st : Stream S) (request : WireMsg) (round : Round)
    (small : round.stage1_ns < u64_mod) (s : S) where
  answer_cas-reply :
      (r : Region) (o : Option (ℕ × Region))
      → answer_cas st request round r s o
        ≡ reply_with st s
            (totalled request round (some (tee_dist.Rdma.Server.answer_cas request round r o)))
  unfolding answer_cas response_to tee_dist.Rdma.Server.answer_cas prepared profile_enabled
      with_stage with_total totalled
  answer_cas-reply r none = elim (Bool-cases (bit_and request.flags flag_profile == 0)) [
    | inl plain ↦ rw plain refl
    | inr profiled ↦
        let time : add64 0 round.stage1_ns ≡ round.stage1_ns = omega arith in
        rw (profiled, time) refl
  ]
  answer_cas-reply r (some (observed, r')) =
      elim (Bool-cases (bit_and request.flags flag_profile == 0)) [
        | inl plain ↦ rw plain refl
        | inr profiled ↦
            let time : add64 0 round.stage1_ns ≡ round.stage1_ns = omega arith in
            rw (profiled, time) refl
      ]

  answer_evict-reply :
      (o : Option Region)
      → answer_evict st request round s o
        ≡ reply_with st s
            (totalled request round (tee_dist.Rdma.Server.answer_evict request round o))
  unfolding answer_evict response_to tee_dist.Rdma.Server.answer_evict prepared profile_enabled
      with_stage with_total totalled
  answer_evict-reply none = refl
  answer_evict-reply (some r) = elim (Bool-cases (bit_and request.flags flag_profile == 0)) [
    | inl plain ↦ rw plain refl
    | inr profiled ↦
        let time : add64 0 round.stage1_ns ≡ round.stage1_ns = omega arith in
        rw (profiled, time) refl
  ]

  -- Behind the magic.
  dispatch-answer :
      (service : Service) (registration : Registration) (r : Region)
      → (request.op ≡ op_code cas) ⊎ (request.op ≡ op_code evict)
      → dispatch st service round request r s
        ≡ reply_with st s (answer service registration round request r)
  unfolding dispatch answer answer_op
  dispatch-answer service registration r (inl compares) =
      rw compares (answer_cas-reply r (cas64 r request.offset request.compare request.swap))
  dispatch-answer service registration r (inr evicts) =
      rw evicts
        (answer_evict-reply (evict_if_needed service.evict_fuel r service.eviction_threshold_pct))

-- To a compare-and-swap and to an eviction with the right magic, the TCP server sends the response that
-- the RDMA server sends, if the clock measures the same 64-bit times, and the region afterwards is the
-- same; an eviction without end stops both. With another magic the TCP server ends the connection without
-- a response.
pub on_request-answer :
    {S : Type 0} (st : Stream S) (service : Service) (registration : Registration) (round : Round)
    (bytes : Bytes) (r : Region) (s : S)
    → round.stage1_ns < u64_mod
    → ((msg_of_bytes bytes).op ≡ op_code cas) ⊎ ((msg_of_bytes bytes).op ≡ op_code evict)
    → on_request st service round r (some bytes, s) ≡ (
        if (msg_of_bytes bytes).magic == wire_magic
        then reply_with st s (answer service registration round (msg_of_bytes bytes) r)
        else ended r s)
unfolding on_request
on_request-answer st service registration round bytes r s small op =
    elim (Bool-cases ((msg_of_bytes bytes).magic == wire_magic)) [
      | inl magic ↦
          rw magic (dispatch-answer st (msg_of_bytes bytes) round small s service registration r op)
      | inr other ↦ rw other refl
    ]
