-- ===== src/Handshake/Sequence.antt =====
-- The order of the handshake messages: what handle_handshake leaves in the queue.
use tinydtls.Handshake.Order.{created, order_of, order_in, order_after, Advance, same, freed, next}
use tinydtls.Base.{
  ◌==◌, ◌||◌, ltb→lt, All, Bool-cases, Bytes, ap, ltb, subst, sym, ◌≢◌, Option, Option-cases, [],
  arith, inl, inr, length, none, refl, some, suc, u16, zero, ℕ, ◌+◌, ◌<◌, ◌∷◌, ◌≡◌,
}
use tinydtls.Handshake.{ht_hello_request, ht_client_hello, Peer, ok, fail, Outcome, Calls}
use tinydtls.Header.{msg_type, dtls_hs_length, message_seq}
use tinydtls.Netq.{Node, remove, Queue}
use tinydtls.Peer.{State, Handshake, Session}
use tinydtls.Global.{dtls_max_buf}
use tinydtls.Handshake.Message.{handle_handshake_msg}
use tinydtls.Handshake.Waiting.{
  find_seq-none, remove-found, insert_node-IsWaiting, AllApart, AllFrom, AllAfter, IsWaiting,
}
use tinydtls.Handshake.Reorder.{
  stored, node_new, with_queue, hold_back, rounds_for, handle_expected, handle_peer_handshake,
  find_seq, and_then, drain,
}
use tinydtls.Alert.{Result}
use tinydtls.Cipher.{Context}
use tinydtls.Handshake.States.{Keeps}
use tinydtls.Handshake.Advance.{handle_handshake_msg-Advance}
use tinydtls.Crypto.{Role}

-- Where there are handshake parameters, every message that is kept comes after the counter, and no two
-- share a number or an address.
abbrev pub IsOrdered : Option (ℕ × Queue) → Type 0
IsOrdered none = Unit
IsOrdered (some (n, q)) = IsWaiting n q

-- The same where the next message may be in the queue, which is still `q`.
abbrev pub IsDue : Queue → Option (ℕ × Queue) → Type 0
IsDue q none = Unit
IsDue q (some (n, q')) = (AllFrom n q' × AllApart q') × (length q' ≡ length q)

AllFrom-next : (n : ℕ) (q : Queue) → AllAfter n q → AllFrom (u16 (n + 1)) q
AllFrom-next n [] h = tt
AllFrom-next n (x ∷ q) h = (omega (arith, h.0), AllFrom-next n q h.1)

AllFrom-of_after : (n : ℕ) (q : Queue) → AllAfter n q → AllFrom n q
AllFrom-of_after n [] h = tt
AllFrom-of_after n (x ∷ q) h = (omega (arith, h.0), AllFrom-of_after n q h.1)

-- The queue that is there before a message.
abbrev pub queue_of : Option (ℕ × Queue) → Queue
queue_of none = []
queue_of (some (n, q)) = q

Advance-IsDue :
    (b : Option (ℕ × Queue)) (r : Result ℕ) (x : Option (ℕ × Queue))
    → IsOrdered b
    → Advance b r x
    → IsDue (queue_of b) x
Advance-IsDue none r x h same = tt
Advance-IsDue (some (n, q)) r x h same = ((AllFrom-of_after n q h.0, h.1), refl)
Advance-IsDue b r x h freed = tt
Advance-IsDue b r x h (next {n = n} {q = q} e) =
    let h' = subst IsOrdered e h in
    ((AllFrom-next n q h'.0, h'.1), ap (λ (o : Option (ℕ × Queue)). length (queue_of o)) (sym e))
Advance-IsDue b r x h (created e) =
    ((tt, tt), ap (λ (o : Option (ℕ × Queue)). length (queue_of o)) (sym e))

Advance-failed :
    (b : Option (ℕ × Queue)) (r : Result ℕ) (x : Option (ℕ × Queue)) (e : ℕ)
    → r ≡ fail e
    → IsOrdered b
    → Advance b r x
    → IsOrdered x
Advance-failed b r x e failed h same = h
Advance-failed b r x e failed h freed = tt
Advance-failed b r x e failed h (next moved) = absurd (cc failed)
Advance-failed b r x e failed h (created none_before) = (tt, tt)

created-IsOrdered : (r : Result ℕ) (x : Option (ℕ × Queue)) → Advance none r x → IsOrdered x
created-IsOrdered r x same = tt
created-IsOrdered r x freed = tt
created-IsOrdered r x (next e) = absurd (cc e)
created-IsOrdered r x (created e) = (tt, tt)

-- A message is handled, and the rest goes on with what is due then.
and_then-IsOrdered :
    {W : Type 0} (b : Option (ℕ × Queue)) (o : Outcome W) (rest : ℕ → Peer → W → Outcome W)
    → IsOrdered b
    → Advance b o.0 (order_after o)
    → ((k : ℕ) (p : Peer) (w : W)
        → IsDue (queue_of b) (order_of p)
        → IsOrdered (order_after (rest k p w)))
    → IsOrdered (order_after (and_then o rest))
and_then-IsOrdered b (fail e, (none, w)) rest h a go = tt
and_then-IsOrdered b (fail e, (some p, w)) rest h a go = Advance-failed b _ _ e refl h a
and_then-IsOrdered b (ok k, (none, w)) rest h a go = tt
and_then-IsOrdered b (ok k, (some p, w)) rest h a go =
    go k p w (Advance-IsDue b (ok k) (order_of p) h a)

module _ {W : Type 0} (ctx : Context) (calls : Calls W) (keeps : Keeps order_of calls) where
  drain-IsOrdered :
      (rounds res : ℕ) (session : Session) (role : Role) (p : Peer) (w : W) (q : Queue)
      → length q < rounds
      → IsDue q (order_of p)
      → IsOrdered (order_after (drain ctx calls rounds res session role p w))
  unfolding drain
  drain-IsOrdered zero res session role p w q enough due = absurd (omega arith)
  drain-IsOrdered (suc rounds) res session role p w q enough due = elim (Option-cases p.handshake) [
    | inl no_params ↦ rw no_params tt
    | inr (h, params) ↦
        let due' = subst (λ (o : Option Handshake). IsDue q (order_in o)) params due in
        elim (Option-cases (find_seq h.mseq_r h.reorder_queue)) [
          | inl none_left ↦
              rw (params, drain, none_left)
                (subst IsOrdered (sym (ap order_in params))
                  (find_seq-none h.mseq_r h.reorder_queue none_left due'.0.0, due'.0.1))
          | inr (x, found) ↦
              let left = remove h.reorder_queue x in
              let taken = remove-found h.mseq_r h.reorder_queue x found due'.0.0 due'.0.1 in
              let p' = with_queue p h left in
              rw (params, drain, found)
                (and_then-IsOrdered (some (h.mseq_r, left))
                  (handle_handshake_msg ctx calls p' session role p'.state x.bytes w) _ taken.0
                  (handle_handshake_msg-Advance ctx calls keeps (some (h.mseq_r, left)) p'.state
                    x.bytes session role p' w refl)
                  (λ k p w next.
                    drain-IsOrdered rounds k session role p w left
                      (omega (arith, taken.1, due'.1, enough)) next))
        ]
  ]

  -- The rounds of handle_handshake are enough.
  drain_all :
      (res : ℕ) (session : Session) (role : Role) (p : Peer) (w : W) (q : Queue)
      → IsDue q (order_of p)
      → IsOrdered (order_after (drain ctx calls (rounds_for ctx calls p) res session role p w))
  unfolding drain
  drain_all res session role p w q due = elim (Option-cases p.handshake) [
    | inl no_params ↦ rw no_params tt
    | inr (h, params) ↦
        let due' = subst (λ (o : Option Handshake). IsDue q (order_in o)) params due in
        let enough : length q < rounds_for ctx calls p =
          subst
            (λ (o : Option Handshake).
              length q < elim o [ none ↦ 1 | some h ↦ suc (length h.reorder_queue) ])
            (sym params) (omega (arith, due'.1)) in
        drain-IsOrdered (rounds_for ctx calls p) res session role p w q enough due
  ]

  -- The expected message and those that waited for it.
  handle_expected-IsOrdered :
      (session : Session) (role : Role) (state : State) (p : Peer) (d : Bytes) (w : W)
      → IsOrdered (order_of p)
      → IsOrdered (order_after (handle_expected ctx calls session role state p d w))
  unfolding handle_expected
  handle_expected-IsOrdered session role state p d w h =
      and_then-IsOrdered (order_of p) (handle_handshake_msg ctx calls p session role state d w) _ h
        (handle_handshake_msg-Advance ctx calls keeps (order_of p) state d session role p w refl)
        (λ k p' w due. drain_all k session role p' w (queue_of (order_of p)) due)

  -- A message that is no more than handled, as the first one is.
  handled-IsOrdered :
      (session : Session) (role : Role) (state : State) (p : Peer) (d : Bytes) (w : W)
      → p.handshake ≡ none
      → IsOrdered (order_after (handle_handshake_msg ctx calls p session role state d w))
  handled-IsOrdered session role state p d w e =
      created-IsOrdered _ _
        (handle_handshake_msg-Advance ctx calls keeps none state d session role p w (ap order_in e))

  hold_back-IsOrdered :
      (malloc : W → Option ℕ × W) (self : ℕ) (p : Peer) (h : Handshake) (d : Bytes) (w : W)
      → order_of p ≡ some (h.mseq_r, h.reorder_queue)
      → h.mseq_r < message_seq d
      → IsWaiting h.mseq_r h.reorder_queue
      → ((addr : ℕ) → (malloc w).0 ≡ some addr → All (λ (x : Node). addr ≢ x.addr) h.reorder_queue)
      → IsOrdered (order_after (hold_back malloc self p h d w))
  unfolding hold_back
  hold_back-IsOrdered malloc self p h d w e early waits fresh =
      let kept = subst IsOrdered (sym e) waits in
      elim (Bool-cases (ltb dtls_max_buf (length d))) [
        | inl big ↦ rw big kept
        | inr small ↦ elim (Bool-cases (stored (message_seq d) h.reorder_queue)) [
          | inl again ↦ rw (small, again) kept
          | inr first ↦ elim (Option-cases (malloc w).0) [
            | inl full ↦ rw (small, first, full) kept
            | inr (addr, got) ↦
                rw (small, first, got)
                  (insert_node-IsWaiting h.mseq_r h.reorder_queue (node_new addr self d) early first
                    (fresh addr got) waits)
          ]
        ]
      ]

  -- handle_handshake keeps the queue of early messages in order, whatever message comes for a peer and
  -- however it ends: where the peer then has handshake parameters, every message in their queue has
  -- a number beyond the receive counter, so that none that is due is left behind, and no number is there
  -- twice. The checks and sending functions leave counter and queue alone, and malloc gives no address
  -- that is in the queue.
  pub handle_peer_handshake-IsOrdered :
      (malloc : W → Option ℕ × W) (self : ℕ) (session : Session) (role : Role) (state : State)
      (p : Peer) (d : Bytes) (w : W)
      → IsOrdered (order_of p)
      → ((addr : ℕ)
          → (malloc w).0 ≡ some addr
          → All (λ (x : Node). addr ≢ x.addr) (queue_of (order_of p)))
      → IsOrdered
          (order_after (handle_peer_handshake ctx calls malloc self session role state p d w))
  unfolding handle_peer_handshake
  handle_peer_handshake-IsOrdered malloc self session role state p d w ordered fresh =
      elim (Bool-cases (ltb (length d) dtls_hs_length)) [
        | inl short ↦ rw short ordered
        | inr whole ↦ elim (Option-cases p.handshake) [
          | inl no_params ↦
              elim (Bool-cases
                ((msg_type d == ht_client_hello) || (msg_type d == ht_hello_request))) [
                  | inl hello ↦
                      rw (whole, no_params, hello)
                        (handled-IsOrdered session role state p d w no_params)
                  | inr other ↦ rw (whole, no_params, other) ordered
                ]
          | inr (h, params) ↦
              let e : order_of p ≡ some (h.mseq_r, h.reorder_queue) = ap order_in params in
              let waits = subst IsOrdered e ordered in
              elim (Bool-cases (ltb (message_seq d) h.mseq_r)) [
                | inl old ↦ rw (whole, params, old) ordered
                | inr later ↦ elim (Bool-cases (ltb h.mseq_r (message_seq d))) [
                  | inl early ↦
                      rw (whole, params, later, early)
                        (hold_back-IsOrdered malloc self p h d w e (ltb→lt _ _ early) waits
                          (λ addr got.
                            subst
                              (λ (o : Option (ℕ × Queue)).
                                All (λ (x : Node). addr ≢ x.addr) (queue_of o))
                              e (fresh addr got)))
                  | inr now ↦
                      rw (whole, params, later, now)
                        (handle_expected-IsOrdered session role state p d w ordered)
                ]
              ]
        ]
      ]
