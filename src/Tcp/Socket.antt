-- ===== src/Tcp/Socket.antt =====
-- `td_send_all` and `td_recv_all` (src/transport_tcp.c): the loops around `send` and `recv`, which are
-- parameters here. They may move fewer bytes than asked for, and be interrupted.
use tee_dist.Base.{
  ℕ, zero, suc, ◌+◌, ◌-◌, ◌<◌, ◌≤◌, ◌≡◌, ◌⊎◌, inl, inr, refl, sym, ap, ◌∙◌, arith, Option, none,
  some, [], ◌∷◌, ◌++◌, Bytes, length, take, drop, length-append, length-drop,
}
use mathlib.Core.List.{append_assoc, append-nil}

-- What `recv` returns: bytes, none of them at the end of the stream, or an error, which is `EINTR` or
-- another one.
pub data Received : Type 0 where
  received : Bytes → Received
  recv_interrupted recv_failed : Received

-- What `send` returns.
pub data Sent : Type 0 where
  sent : ℕ → Sent
  send_interrupted send_failed : Sent

pub record Socket (S : Type 0) : Type 0 where
  pub recv : ℕ → S → Received × S
  pub send : Bytes → S → Sent × S

module _ {S : Type 0} where
  -- What the loop does with the result of `recv`.
  unfoldable on_received :
      Received × S
      → (Bytes → S → Option (Option Bytes × S))
      → (S → Option (Option Bytes × S))
      → Option (Option Bytes × S)
  on_received (received [], s) more again = some (none, s)
  on_received (received (b ∷ bs), s) more again = more (b ∷ bs) s
  on_received (recv_interrupted, s) more again = again s
  on_received (recv_failed, s) more again = some (none, s)

  -- `td_recv_all` with room for `len` bytes behind those that have arrived. The inner `none` is -1, the
  -- outer one that the fuel ran out.
  unfoldable pub recv_all : ℕ → Socket S → ℕ → Bytes → S → Option (Option Bytes × S)
  unfolding on_received
  recv_all fuel sock zero buffer s = some (some buffer, s)
  recv_all zero sock (suc len) buffer s = none
  recv_all (suc fuel) sock (suc len) buffer s =
      on_received (sock.recv (suc len) s)
        (λ bs s'. recv_all fuel sock (suc len - length bs) (buffer ++ bs) s')
        (λ s'. recv_all fuel sock (suc len) buffer s')

  -- What the loop does with the result of `send`.
  unfoldable on_sent :
      Sent × S
      → (ℕ → S → Option (Option (Unit {0}) × S))
      → (S → Option (Option (Unit {0}) × S))
      → Option (Option (Unit {0}) × S)
  on_sent (sent n, s) more again = more n s
  on_sent (send_interrupted, s) more again = again s
  on_sent (send_failed, s) more again = some (none, s)

  -- `td_send_all` of the bytes that are left.
  unfoldable pub send_all : ℕ → Socket S → Bytes → S → Option (Option (Unit {0}) × S)
  unfolding on_sent
  send_all fuel sock [] s = some (some tt, s)
  send_all zero sock (b ∷ bs) s = none
  send_all (suc fuel) sock (b ∷ bs) s =
      on_sent (sock.send (b ∷ bs) s) (λ n s'. send_all fuel sock (drop n (b ∷ bs)) s')
        (λ s'. send_all fuel sock (b ∷ bs) s')

  -- What `recv` does while the bytes that are asked for are on their way: it hands over the next of
  -- them, or it is interrupted, which happens only so many times.
  pub record Delivers (sock : Socket S) (pending : S → Bytes) (patience : S → ℕ) : Type 0 where
    pub step :
        (n : ℕ) (s : S)
        → 0 < n
        → n ≤ length (pending s)
        → ((bs : Bytes) × (s' : S) × (sock.recv n s ≡ (received bs, s'))
            × (0 < length bs)
            × (length bs ≤ n)
            × (pending s ≡ bs ++ pending s')
            × (patience s' ≤ patience s))
          ⊎ ((s' : S) × (sock.recv n s ≡ (recv_interrupted, s'))
              × (pending s' ≡ pending s)
              × (patience s' < patience s))

  -- What `send` does while the connection stands: it takes the next bytes, or it is interrupted.
  pub record Accepts (sock : Socket S) (accepted : S → Bytes) (patience : S → ℕ) : Type 0 where
    pub step :
        (bs : Bytes) (s : S)
        → 0 < length bs
        → ((n : ℕ) × (s' : S) × (sock.send bs s ≡ (sent n, s'))
            × (0 < n)
            × (n ≤ length bs)
            × (accepted s' ≡ accepted s ++ take n bs)
            × (patience s' ≤ patience s))
          ⊎ ((s' : S) × (sock.send bs s ≡ (send_interrupted, s'))
              × (accepted s' ≡ accepted s)
              × (patience s' < patience s))

module _ {S : Type 0} (sock : Socket S) where
  recv_all_received :
      (fuel len : ℕ) (b : ℕ) (bs buffer : Bytes) (s s' : S)
      → sock.recv (suc len) s ≡ (received (b ∷ bs), s')
      → recv_all (suc fuel) sock (suc len) buffer s
        ≡ recv_all fuel sock (suc len - length (b ∷ bs)) (buffer ++ (b ∷ bs)) s'
  unfolding recv_all
  recv_all_received fuel len b bs buffer s s' e = rw e refl

  recv_all_interrupted :
      (fuel len : ℕ) (buffer : Bytes) (s s' : S)
      → sock.recv (suc len) s ≡ (recv_interrupted, s')
      → recv_all (suc fuel) sock (suc len) buffer s ≡ recv_all fuel sock (suc len) buffer s'
  unfolding recv_all
  recv_all_interrupted fuel len buffer s s' e = rw e refl

  send_all_sent :
      (fuel : ℕ) (b : ℕ) (bs : Bytes) (n : ℕ) (s s' : S)
      → sock.send (b ∷ bs) s ≡ (sent n, s')
      → send_all (suc fuel) sock (b ∷ bs) s ≡ send_all fuel sock (drop n (b ∷ bs)) s'
  unfolding send_all
  send_all_sent fuel b bs n s s' e = rw e refl

  send_all_interrupted :
      (fuel : ℕ) (b : ℕ) (bs : Bytes) (s s' : S)
      → sock.send (b ∷ bs) s ≡ (send_interrupted, s')
      → send_all (suc fuel) sock (b ∷ bs) s ≡ send_all fuel sock (b ∷ bs) s'
  unfolding send_all
  send_all_interrupted fuel b bs s s' e = rw e refl

take-drop : (n : ℕ) (bs : Bytes) → take n bs ++ drop n bs ≡ bs
take-drop zero bs = refl
take-drop (suc n) [] = refl
take-drop (suc n) (b ∷ bs) = ap (λ l. b ∷ l) (take-drop n bs)

-- The next bytes of a stream, from two pieces.
take_pieces :
    (n : ℕ) (bs rest : Bytes)
    → length bs ≤ n
    → take n (bs ++ rest) ≡ bs ++ take (n - length bs) rest
take_pieces zero [] rest h = refl
take_pieces zero (b ∷ bs) rest h = absurd (omega arith)
take_pieces (suc n) [] rest h = let e : suc n ≡ suc n - 0 = omega arith in ap (λ k. take k rest) e
take_pieces (suc n) (b ∷ bs) rest h =
    let e : n - length bs ≡ suc n - suc (length bs) = omega arith in
    ap (λ l. b ∷ l) (take_pieces n bs rest (omega arith)) ∙ ap (λ k. b ∷ (bs ++ take k rest)) e

drop_pieces :
    (n : ℕ) (bs rest : Bytes) → length bs ≤ n → drop n (bs ++ rest) ≡ drop (n - length bs) rest
drop_pieces zero [] rest h = refl
drop_pieces zero (b ∷ bs) rest h = absurd (omega arith)
drop_pieces (suc n) [] rest h = let e : suc n ≡ suc n - 0 = omega arith in ap (λ k. drop k rest) e
drop_pieces (suc n) (b ∷ bs) rest h =
    let e : n - length bs ≡ suc n - suc (length bs) = omega arith in
    drop_pieces n bs rest (omega arith) ∙ ap (λ k. drop k rest) e

-- While the bytes that are asked for are on their way, `td_recv_all` returns exactly these, whatever
-- pieces `recv` hands over, within as many calls as there are bytes and interruptions, and the bytes
-- behind them stay in the stream.
pub recv_all-Delivers :
    {S : Type 0} (sock : Socket S) (pending : S → Bytes) (patience : S → ℕ)
    → Delivers sock pending patience
    → (fuel len : ℕ) (buffer : Bytes) (s : S) → len + patience s ≤ fuel
    → len ≤ length (pending s)
    → (s' : S) × (recv_all fuel sock len buffer s
        ≡ some (some (buffer ++ take len (pending s)), s'))
      × (pending s' ≡ drop len (pending s))
      × (patience s' ≤ patience s)
unfolding recv_all
recv_all-Delivers sock pending patience law fuel zero buffer s enough there =
    (s, ap (λ l. some (some l, s)) (sym (append-nil buffer)), refl, omega arith)
recv_all-Delivers sock pending patience law zero (suc len) buffer s enough there =
    absurd (omega arith)
recv_all-Delivers sock pending patience law (suc fuel) (suc len) buffer s enough there =
    elim (law.step (suc len) s (omega arith) there) [
      | inr (s', call, same, less) ↦
          let (t, done, left, calm) =
            recv_all-Delivers sock pending patience law fuel (suc len) buffer s' (omega arith)
              (rw same there) in
          (
            t,
            recv_all_interrupted sock fuel len buffer s s' call
                ∙ done
                ∙ ap (λ p. some (some (buffer ++ take (suc len) p), t)) same,
            left ∙ ap (drop (suc len)) same,
            omega arith,
          )
      | inl ([], s', call, some_bytes, few, next, less) ↦ absurd (omega arith)
      | inl (b ∷ bs, s', call, some_bytes, few, next, less) ↦
          let size = ap length next ∙ length-append (b ∷ bs) (pending s') in
          let (t, done, left, calm) =
            recv_all-Delivers sock pending patience law fuel (suc len - length (b ∷ bs))
              (buffer ++ (b ∷ bs)) s' (omega arith) (omega arith) in
          (
            t,
            recv_all_received sock fuel len b bs buffer s s' call
                ∙ done
                ∙ ap (λ l. some (some l, t))
                    (append_assoc buffer (b ∷ bs) (take (suc len - length (b ∷ bs)) (pending s'))
                      ∙ ap (λ l. buffer ++ l)
                          (sym (take_pieces (suc len) (b ∷ bs) (pending s') few)
                            ∙ ap (take (suc len)) (sym next))),
            left
                ∙ sym (drop_pieces (suc len) (b ∷ bs) (pending s') few)
                ∙ ap (drop (suc len)) (sym next),
            omega arith,
          )
    ]

-- While the connection stands, `td_send_all` succeeds within as many calls as there are bytes and
-- interruptions, whatever pieces `send` takes, and what the connection has taken then is all the bytes, in
-- their order.
pub send_all_sends :
    {S : Type 0} (sock : Socket S) (accepted : S → Bytes) (patience : S → ℕ)
    → Accepts sock accepted patience
    → (fuel : ℕ) (bs : Bytes) (s : S) → length bs + patience s ≤ fuel
    → (s' : S) × (send_all fuel sock bs s ≡ some (some tt, s'))
      × (accepted s' ≡ accepted s ++ bs)
      × (patience s' ≤ patience s)
unfolding send_all
send_all_sends sock accepted patience law fuel [] s enough =
    (s, refl, sym (append-nil (accepted s)), omega arith)
send_all_sends sock accepted patience law zero (b ∷ bs) s enough = absurd (omega arith)
send_all_sends sock accepted patience law (suc fuel) (b ∷ bs) s enough =
    elim (law.step (b ∷ bs) s (omega arith)) [
      | inr (s', call, same, less) ↦
          let (t, done, all, calm) =
            send_all_sends sock accepted patience law fuel (b ∷ bs) s' (omega arith) in
          (
            t,
            send_all_interrupted sock fuel b bs s s' call ∙ done,
            all ∙ ap (λ l. l ++ (b ∷ bs)) same,
            omega arith,
          )
      | inl (n, s', call, some_bytes, few, next, less) ↦
          let left = length-drop n (b ∷ bs) in
          let (t, done, all, calm) =
            send_all_sends sock accepted patience law fuel (drop n (b ∷ bs)) s' (omega arith) in
          (
            t,
            send_all_sent sock fuel b bs n s s' call ∙ done,
            all
                ∙ ap (λ l. l ++ drop n (b ∷ bs)) next
                ∙ append_assoc (accepted s) (take n (b ∷ bs)) (drop n (b ∷ bs))
                ∙ ap (λ l. accepted s ++ l) (take-drop n (b ∷ bs)),
            omega arith,
          )
    ]
