-- ===== src/Tcp/Links.antt =====
-- What each function of a session does over a connection that loses nothing (src/transport_tcp.c): what
-- the memory node's region does.
use tee_dist.Base.{
  length-zero, ℕ, Bool, true, false, ◌+◌, ◌<◌, ◌==◌, ◌&&◌, ◌||◌, ◌⊎◌, ◌^◌, ◌%◌, add64, write_range,
  to_le, ◌≡◌, inl, inr, refl, sym, ap, ◌∙◌, arith, ltb, not, Bool-cases, Option, Option-cases, none,
  some, [], ◌++◌, AllBytes, Bytes, length, read_range, u64_mod,
}
use mathlib.Core.List.{append-nil}
use tee_dist.Region.{Region, header_of, word_at, read_bytes, write_bytes, cas64}
use tee_dist.Region.Access.{IsMapped, read_bytes_lem}
use tee_dist.Region.Evict.{evict_if_needed}
use tee_dist.Cluster.Monad.{ok, failed, transport_failed, no_header}
use tee_dist.Tcp.{hello, evict, Stream, WireMsg, bytes_of_msg, wire_magic}
use tee_dist.Tcp.Codec.{MsgFits}
use tee_dist.Tcp.Server.{
  Round, Service, served, dispatch, answer_read, answer_write, answer_written, answer_cas,
  answer_evict, reply, after_send, after_header, response_to,
}
use tee_dist.Tcp.Client.{
  to_option, exchange, call, client_read, client_write, client_cas, client_control, client_hello,
  read_request, write_request, cas_request, control_request,
}
use tee_dist.Tcp.Fits.{
  IsRunning, no_header-HeaderFits, read_request-MsgFits, write_request-MsgFits, cas_request-MsgFits,
  control_request-MsgFits, response_to-MsgFits, word_at-lt, header_of_bytes-HeaderFits,
}
use tee_dist.Tcp.Loopback.{Pipe, Link, node_end, client_end, idle, take_inbox, next_bytes_all}
use tee_dist.Tcp.Loopback.Exchange.{exchange_plain, exchange_payload}

module _ {S : Type 0} (st : Stream S) where
  call_ok :
      (request response : WireMsg) (payload : Option Bytes) (buffered : Bool) (data_bytes : Bytes)
      (s s' : S)
      → exchange st request payload buffered s ≡ (ok (response, data_bytes), s')
      → response.status ≡ 0
      → call st request payload buffered s ≡ (ok (response, data_bytes), s')
  unfolding call
  call_ok request response payload buffered data_bytes s s' e status = rw (e, status) refl

  call_refused :
      (request response : WireMsg) (payload : Option Bytes) (buffered : Bool) (data_bytes : Bytes)
      (s s' : S)
      → exchange st request payload buffered s ≡ (ok (response, data_bytes), s')
      → response.status ≡ 1
      → call st request payload buffered s ≡ (failed transport_failed, s')
  unfolding call
  call_refused request response payload buffered data_bytes s s' e status = rw (e, status) refl

-- The connection after a write.
abbrev pub written : Region → Option Region → Option (Unit {0}) × Link
written r none = (none, idle r)
written r (some r') = (some tt, idle r')

-- The connection after a compare-and-swap.
abbrev pub compared : Region → Option (ℕ × Region) → Option ℕ × Link
compared r none = (none, idle r)
compared r (some (observed, r')) = (some observed, idle r')

abbrev pub no_bytes : Pipe
no_bytes = record { inbox = []; outbox = [] }

abbrev answered_bytes : Bytes → Pipe
answered_bytes bs = record { inbox = []; outbox = bs }

replied_send :
    (response : WireMsg) (r : Region)
    → served r (answered_bytes (bytes_of_msg response))
      ≡ served r (answered_bytes (bytes_of_msg response ++ []))
replied_send response r =
    ap (λ o. served r (answered_bytes o)) (sym (append-nil (bytes_of_msg response)))

replied :
    (response : WireMsg) (r : Region)
    → reply node_end response r no_bytes
      ≡ served r (record { inbox = []; outbox = bytes_of_msg response ++ [] })
unfolding reply after_send
replied response r =
    ap (λ o. served r (record { inbox = []; outbox = o }))
      (sym (append-nil (bytes_of_msg response)))

module _ (service : Service) (round : Round) (live : IsRunning round) (request response : WireMsg)
    (r r' : Region) (request_fits : MsgFits request) (response_fits : MsgFits response)
    (magic : request.magic ≡ wire_magic) where
  -- A call whose answer is one message.
  exchange-reply :
      (buffered : Bool)
      → (buffered && ltb 0 response.length) ≡ false
      → dispatch node_end service round request r no_bytes ≡ reply node_end response r' no_bytes
      → exchange (client_end service round) request none buffered (idle r)
        ≡ (ok (response, []), idle r')
  exchange-reply buffered unwanted answer =
      exchange_plain service round live.running request response [] r r' buffered
        (record {
          request_fits = request_fits;
          magic = magic;
          response_fits = response_fits;
          answered = answer ∙ replied response r';
        })
        (inr (unwanted, refl))

  -- The same with a payload behind the request.
  exchange_payload_reply :
      (payload : Bytes)
      → length payload ≡ request.length
      → dispatch node_end service round request r (record { inbox = payload; outbox = [] })
        ≡ reply node_end response r' no_bytes
      → exchange (client_end service round) request (some payload) false (idle r)
        ≡ (ok (response, []), idle r')
  exchange_payload_reply payload sized answer =
      exchange_payload service round live.running request response payload r r' sized (record {
        request_fits = request_fits;
        magic = magic;
        response_fits = response_fits;
        answered = answer ∙ replied response r';
      })

  -- A response that is followed by the data of a read.
  exchange_data :
      (data_bytes : Bytes)
      → length data_bytes ≡ response.length
      → dispatch node_end service round request r no_bytes
        ≡ after_header node_end r' data_bytes response.length
            (node_end.send_all (bytes_of_msg response) no_bytes)
      → exchange (client_end service round) request none true (idle r)
        ≡ (ok (response, data_bytes), idle r')
  unfolding after_header after_send
  exchange_data data_bytes sized answer = elim (Bool-cases (ltb 0 response.length)) [
    | inl some_bytes ↦
        exchange_plain service round live.running request response data_bytes r r' true
          (record {
            request_fits = request_fits;
            magic = magic;
            response_fits = response_fits;
            answered = answer ∙ (rw some_bytes refl);
          })
          (inl (some_bytes, sized))
    | inr none_left ↦
        let empty : data_bytes ≡ [] = length-zero data_bytes (ground arith) in
        rw empty (
          exchange_plain service round live.running request response [] r r' true
            (record {
              request_fits = request_fits;
              magic = magic;
              response_fits = response_fits;
              answered = answer ∙ (rw none_left (replied_send response r'));
            })
            (inr (none_left, refl)))
  ]

-- A compare-and-swap is refused or observes the word that was there.
cas64_cases :
    (r : Region) (off compare swap : ℕ)
    → (cas64 r off compare swap ≡ none)
      ⊎ ((r' : Region) × (cas64 r off compare swap ≡ some (word_at 8 r.memory off, r')))
unfolding cas64
cas64_cases r off compare swap =
    elim (Bool-cases (ltb r.mapped_bytes (add64 off 8) || not (off % 8 == 0))) [
      | inl refused ↦ inl (rw refused refl)
      | inr fine ↦ elim (Bool-cases (word_at 8 r.memory off == compare)) [
        | inl same ↦
            inr
              (record r { memory = write_range r.memory off (to_le 8 swap) }, rw (fine, same) refl)
        | inr differs ↦ inr (r, rw (fine, differs) refl)
      ]
    ]

module _ (service : Service) (round : Round) (profiled : Bool) (live : IsRunning round) where
  dispatch_read :
      (r : Region) (p : Pipe) (off len : ℕ)
      → round.allocates len ≡ true
      → dispatch node_end service round (read_request profiled off len) r p
        ≡ answer_read node_end (read_request profiled off len) round r p (read_bytes r off len)
  unfolding dispatch read_request
  dispatch_read r p off len allocates = rw allocates refl

  dispatch_write :
      (r : Region) (off : ℕ) (bs : Bytes)
      → round.allocates (length bs) ≡ true
      → dispatch node_end service round
          (write_request profiled off (length bs))
          r
          (record { inbox = bs; outbox = [] })
        ≡ answer_written node_end
            (write_request profiled off (length bs))
            round
            r
            no_bytes
            (write_bytes r off bs)
  unfolding dispatch write_request answer_write take_inbox
  dispatch_write r off bs allocates = rw (allocates, next_bytes_all (length bs) bs refl) refl

  dispatch_cas :
      (r : Region) (p : Pipe) (off compare swap : ℕ)
      → dispatch node_end service round (cas_request profiled off compare swap) r p
        ≡ answer_cas node_end
            (cas_request profiled off compare swap)
            round
            r
            p
            (cas64 r off compare swap)
  unfolding dispatch cas_request
  dispatch_cas r p off compare swap = refl

  dispatch_evict :
      (r : Region) (p : Pipe)
      → dispatch node_end service round (control_request profiled evict) r p
        ≡ answer_evict node_end
            (control_request profiled evict)
            round
            p
            (evict_if_needed service.evict_fuel r service.eviction_threshold_pct)
  unfolding dispatch control_request
  dispatch_evict r p = refl

  -- Reading over the connection is reading the region.
  pub client_read-link :
      (r : Region) (off len : ℕ)
      → IsMapped r
      → round.allocates len ≡ true
      → off + len < u64_mod
      → to_option (client_read (client_end service round) profiled off len (idle r))
        ≡ (read_bytes r off len, idle r)
  unfolding client_read read_request response_to answer_read to_option
  client_read-link r off len mapped allocates small =
      let request = read_request profiled off len in
      let times = response_to request round.total_ns round.stage1_ns round.stage2_ns in
      let request_fits = read_request-MsgFits profiled off len (omega arith) (omega arith) in
      let fits = λ (status length : ℕ) (small : status < 2 ^ 16) (sized : length < u64_mod).
        response_to-MsgFits request round.total_ns round.stage1_ns round.stage2_ns request_fits
          live.total_fits live.stage1_fits live.stage2_fits status length 0 no_header small sized
          (omega arith) no_header-HeaderFits in
      let dispatched = dispatch_read r no_bytes off len allocates in
      elim (read_bytes_lem r off len mapped small) [
        | inl (past, refused) ↦
            let response : WireMsg = record times { status = 1; length = 0 } in
            let done =
              call_refused (client_end service round) request response none true [] (idle r)
                (idle r)
                (exchange-reply service round live request response r r request_fits
                  (fits 1 0 (omega arith) (omega arith)) refl true refl
                  (dispatched ∙ ap (answer_read node_end request round r no_bytes) refused))
                refl in
            rw (done, refused) refl
        | inr (inside, reads, sized) ↦
            let data_bytes = read_range r.memory off len in
            let response : WireMsg = record times { length = len } in
            let done =
              call_ok (client_end service round) request response none true data_bytes (idle r)
                (idle r)
                (exchange_data service round live request response r r request_fits
                  (fits 0 len (omega arith) (omega arith)) refl data_bytes sized
                  (dispatched ∙ ap (answer_read node_end request round r no_bytes) reads))
                refl in
            rw (done, reads) refl
      ]

  -- Writing over the connection is writing the region.
  pub client_write-link :
      (r : Region) (off : ℕ) (bs : Bytes)
      → round.allocates (length bs) ≡ true
      → off < u64_mod
      → length bs < u64_mod
      → to_option (client_write (client_end service round) profiled off bs (idle r))
        ≡ written r (write_bytes r off bs)
  unfolding client_write write_request response_to answer_written to_option
  client_write-link r off bs allocates off_lt len_lt =
      let request = write_request profiled off (length bs) in
      let times = response_to request round.total_ns round.stage1_ns round.stage2_ns in
      let request_fits = write_request-MsgFits profiled off (length bs) off_lt len_lt in
      let fits = λ (status : ℕ) (small : status < 2 ^ 16).
        response_to-MsgFits request round.total_ns round.stage1_ns round.stage2_ns request_fits
          live.total_fits live.stage1_fits live.stage2_fits status 0 0 no_header small (omega arith)
          (omega arith) no_header-HeaderFits in
      let dispatched = dispatch_write r off bs allocates in
      elim (Option-cases (write_bytes r off bs)) [
        | inl refused ↦
            let response : WireMsg = record times { status = 1 } in
            let done =
              call_refused (client_end service round) request response (some bs) false [] (idle r)
                (idle r)
                (exchange_payload_reply service round live request response r r request_fits
                  (fits 1 (omega arith)) refl bs refl
                  (dispatched ∙ ap (answer_written node_end request round r no_bytes) refused))
                refl in
            rw (done, refused) refl
        | inr (r', writes) ↦
            let done =
              call_ok (client_end service round) request times (some bs) false [] (idle r) (idle r')
                (exchange_payload_reply service round live request times r r' request_fits
                  (fits 0 (omega arith)) refl bs refl
                  (dispatched ∙ ap (answer_written node_end request round r no_bytes) writes))
                refl in
            rw (done, writes) refl
      ]

  -- So is a compare-and-swap.
  pub client_cas-link :
      (r : Region) (off compare swap : ℕ)
      → AllBytes r.memory
      → off < u64_mod
      → compare < u64_mod
      → swap < u64_mod
      → to_option (client_cas (client_end service round) profiled off compare swap (idle r))
        ≡ compared r (cas64 r off compare swap)
  unfolding client_cas cas_request response_to answer_cas to_option
  client_cas-link r off compare swap bytes off_lt compare_lt swap_lt =
      let request = cas_request profiled off compare swap in
      let times = response_to request round.total_ns round.stage1_ns 0 in
      let request_fits = cas_request-MsgFits profiled off compare swap off_lt compare_lt swap_lt in
      let fits = λ (status observed : ℕ) (small : status < 2 ^ 16) (word : observed < u64_mod).
        response_to-MsgFits request round.total_ns round.stage1_ns 0 request_fits live.total_fits
          live.stage1_fits (omega arith) status 0 observed no_header small (omega arith) word
          no_header-HeaderFits in
      let dispatched = dispatch_cas r no_bytes off compare swap in
      elim (cas64_cases r off compare swap) [
        | inl refused ↦
            let response : WireMsg = record times { status = 1 } in
            let done =
              call_refused (client_end service round) request response none false [] (idle r)
                (idle r)
                (exchange-reply service round live request response r r request_fits
                  (fits 1 0 (omega arith) (omega arith)) refl false refl
                  (dispatched ∙ ap (answer_cas node_end request round r no_bytes) refused))
                refl in
            rw (done, refused) refl
        | inr (r', swaps) ↦
            let observed = word_at 8 r.memory off in
            let response : WireMsg = record times { compare = observed } in
            let done =
              call_ok (client_end service round) request response none false [] (idle r) (idle r')
                (exchange-reply service round live request response r r' request_fits
                  (fits 0 observed (omega arith) (word_at-lt r.memory off bytes)) refl false refl
                  (dispatched ∙ ap (answer_cas node_end request round r no_bytes) swaps))
                refl in
            rw (done, swaps) refl
      ]

  -- An eviction that ends is asked for and done.
  pub client_control-evict :
      (r r' : Region)
      → evict_if_needed service.evict_fuel r service.eviction_threshold_pct ≡ some r'
      → to_option (client_control (client_end service round) profiled evict (idle r))
        ≡ (some tt, idle r')
  unfolding client_control control_request response_to answer_evict to_option
  client_control-evict r r' ends =
      let request = control_request profiled evict in
      let response = response_to request round.total_ns round.stage1_ns 0 in
      let request_fits = control_request-MsgFits profiled evict in
      let response_fits =
        response_to-MsgFits request round.total_ns round.stage1_ns 0 request_fits live.total_fits
          live.stage1_fits (omega arith) 0 0 0 no_header (omega arith) (omega arith) (omega arith)
          no_header-HeaderFits in
      let answer =
        dispatch_evict r no_bytes ∙ ap (answer_evict node_end request round no_bytes) ends in
      let done =
        call_ok (client_end service round) request response none false [] (idle r) (idle r')
          (exchange-reply service round live request response r r' request_fits response_fits refl
            false refl answer)
          refl in
      rw done refl

dispatch_hello :
    (service : Service) (round : Round) (r : Region) (p : Pipe)
    → dispatch node_end service round (control_request false hello) r p
      ≡ reply node_end
          (record (response_to (control_request false hello) round.stage1_ns round.stage1_ns 0) {
            header = header_of r;
          })
          r
          p
unfolding dispatch control_request
dispatch_hello service round r p = refl

-- If the memory node's thread runs and its region holds bytes, the hello of a client succeeds and gives a
-- session with the header of the region, its size, and no address or key; the region stays, and nothing
-- is under way afterwards.
pub client_hello-link :
    (service : Service) (round : Round) (r : Region)
    → IsRunning round
    → AllBytes r.memory
    → to_option (client_hello (client_end service round) (idle r)) ≡ (
      some (record {
        remote_addr = 0;
        rkey = 0;
        header = header_of r;
        region_size = (header_of r).region_size;
      }),
      idle r,
    )
unfolding client_hello control_request response_to to_option
client_hello-link service round r live bytes =
    let request = control_request false hello in
    let response : WireMsg = record (response_to request round.stage1_ns round.stage1_ns 0) {
      header = header_of r;
    } in
    let request_fits = control_request-MsgFits false hello in
    let response_fits =
      response_to-MsgFits request round.stage1_ns round.stage1_ns 0 request_fits live.stage1_fits
        live.stage1_fits (omega arith) 0 0 0 (header_of r) (omega arith) (omega arith) (omega arith)
        (header_of_bytes-HeaderFits r.memory bytes) in
    let done =
      call_ok (client_end service round) request response none false [] (idle r) (idle r)
        (exchange-reply service round live request response r r request_fits response_fits refl
          false refl (dispatch_hello service round r no_bytes))
        refl in
    rw done refl
