-- ===== src/Retransmit/Loop.antt =====
-- dtls_check_retransmit: its loop ends, and how often it sends.
use tinydtls.Retransmit.{
  dtls_check_retransmit, store_params, put_peer, write_out, check_loop, rescheduled, budget,
  send_node, dtls_retransmit, Sender,
}
use tinydtls.Netq.{
  head, list_head, Node, Queue, list_push, list_remove, list_pop, list_insert, insert_node,
  pop_first,
}
use tinydtls.Base.{
  ap, leb, ◌⊎◌, Bool-cases, Bytes, Option, [], arith, inl, inr, length, length-append, ltb, ltb→lt,
  refl, suc, zero, ℕ, ◌+◌, ◌-◌, ◌<◌, ◌∷◌, ◌≡◌, ◌≤◌,
}
use tinydtls.Alert.{Result, ok, fail}
use tinydtls.Peer.{Session, params_epoch}
use tinydtls.Record.{dtls_prepare_record}
use tinydtls.Global.{dtls_max_buf, dtls_default_max_retransmit}

-- How often the nodes of a queue will still be sent.
abbrev pub tries : Queue → ℕ
tries [] = 0
tries (n ∷ q) = (dtls_default_max_retransmit - n.retransmit_cnt) + tries q

-- The head of the queue, if any, is due later than `now`.
abbrev pub IsLater : ℕ → Queue → Type 0
IsLater now [] = Unit
IsLater now (n ∷ q) = now < n.t

budget-list_insert : (q : Queue) (i : ℕ) (n : Node) → budget (list_insert q i n) ≡ budget (n ∷ q)
unfolding list_insert
budget-list_insert [] i n = refl
budget-list_insert (x ∷ q) zero n = omega arith
budget-list_insert (x ∷ q) (suc i) n = omega (arith, budget-list_insert q i n)

tries-list_insert : (q : Queue) (i : ℕ) (n : Node) → tries (list_insert q i n) ≡ tries (n ∷ q)
unfolding list_insert
tries-list_insert [] i n = refl
tries-list_insert (x ∷ q) zero n = omega arith
tries-list_insert (x ∷ q) (suc i) n = omega (arith, tries-list_insert q i n)

budget-insert_node : (q : Queue) (n : Node) → budget (insert_node q n) ≡ budget (n ∷ q)
unfolding insert_node list_push
budget-insert_node [] n = refl
budget-insert_node (x ∷ q) n = budget-list_insert (x ∷ q) _ n

tries-insert_node : (q : Queue) (n : Node) → tries (insert_node q n) ≡ tries (n ∷ q)
unfolding insert_node list_push
tries-insert_node [] n = refl
tries-insert_node (x ∷ q) n = tries-list_insert (x ∷ q) _ n

pop_first-rest : (x : Node) (q : Queue) → (pop_first (x ∷ q)).1 ≡ q
unfolding pop_first list_pop list_remove
pop_first-rest x q = ground arith

Queue-cases : (q : Queue) → (q ≡ []) ⊎ ((x : Node) × ((rest : Queue) × (q ≡ x ∷ rest)))
Queue-cases [] = inl refl
Queue-cases (x ∷ q) = inr (x, (q, refl))

write_out_lem :
    (session : Session) (r : Result Bytes) (s : Sender)
    → ((write_out session r s).sendqueue ≡ s.sendqueue)
      × (length (write_out session r s).sent ≤ length s.sent + 1)
write_out_lem session (fail e) s = (refl, omega arith)
write_out_lem session (ok d) s = (refl, omega (arith, length-append s.sent ((session, d) ∷ [])))

module _ (set_key : Bytes → Option (Bytes → Bytes)) where
  -- A node that is sent adds one datagram at most, and leaves the queue alone.
  send_node_lem :
      (n : Node) (s : Sender)
      → ((send_node set_key n s).sendqueue ≡ s.sendqueue)
        × (length (send_node set_key n s).sent ≤ length s.sent + 1)
  unfolding send_node
  send_node_lem n s =
      let p = s.peers n.peer in
      let made =
        dtls_prepare_record set_key (params_epoch p n.epoch) p.role n.content_type (n.bytes ∷ [])
          dtls_max_buf in
      write_out_lem p.session made.0 (put_peer s n.peer (store_params p n.epoch made.1))

  -- One retransmission, of a node that is off the queue.
  dtls_retransmit_lem :
      (now : ℕ) (n : Node) (s : Sender)
      → (budget (dtls_retransmit set_key now n s).sendqueue < budget (n ∷ s.sendqueue))
        × (length (dtls_retransmit set_key now n s).sent
              + tries (dtls_retransmit set_key now n s).sendqueue
            ≤ length s.sent + tries (n ∷ s.sendqueue))
  unfolding dtls_retransmit rescheduled
  dtls_retransmit_lem now n s =
      elim (Bool-cases (ltb n.retransmit_cnt dtls_default_max_retransmit)) [
        | inr over ↦ rw over (omega arith, omega arith)
        | inl again ↦
            let n' = rescheduled now n in
            let q = insert_node s.sendqueue n' in
            let s' = record s { sendqueue = q } in
            let did = send_node_lem n s' in
            let left = ltb→lt _ _ again in
            rw again (
              omega (arith, ap budget did.0, budget-insert_node s.sendqueue n', left),
              omega (arith, did.1, ap tries did.0, tries-insert_node s.sendqueue n', left),
            )
      ]

  -- What the loop leaves, and what it has sent.
  abbrev Ends : ℕ → Sender → Sender → Type 0
  Ends now s s' =
      IsLater now s'.sendqueue
      × (length s'.sent + tries s'.sendqueue ≤ length s.sent + tries s.sendqueue)

  -- ctx->sendqueue = q
  abbrev with_sendqueue : Sender → Queue → Sender
  with_sendqueue s q = record s { sendqueue = q }

  check_loop-Ends :
      (clock : ℕ → ℕ) (now k rounds : ℕ) (s : Sender) (q : Queue)
      → budget q < rounds
      → Ends now (with_sendqueue s q) (check_loop set_key clock now k rounds (with_sendqueue s q))
  unfolding check_loop head list_head
  check_loop-Ends clock now k zero s q h = absurd (omega arith)
  check_loop-Ends clock now k (suc rounds) s [] h = (tt, omega arith)
  check_loop-Ends clock now k (suc rounds) s (x ∷ rest) h = elim (Bool-cases (leb x.t now)) [
    | inr later ↦ rw later (ground (arith, later), omega arith)
    | inl due ↦
        let s' = dtls_retransmit set_key (clock k) x (with_sendqueue s (pop_first (x ∷ rest)).1) in
        let did = dtls_retransmit_lem (clock k) x (with_sendqueue s (pop_first (x ∷ rest)).1) in
        let popped = pop_first-rest x rest in
        let ends =
          check_loop-Ends clock now (k + 1) rounds s' s'.sendqueue
            (omega (arith, did.0, ap budget popped, h)) in
        rw due (ends.0, omega (arith, ends.1, did.1, ap tries popped))
  ]

  -- dtls_check_retransmit returns, and every node at the head of the queue is then due later than
  -- the time that it has read at first; the datagrams that it has sent and those that the nodes in
  -- the queue still have left, seven for a new node less one for each retransmission so far, are no more than
  -- before. The clock may give any readings.
  pub dtls_check_retransmit_lem :
      (clock : ℕ → ℕ) (s : Sender)
      → IsLater (clock 0) (dtls_check_retransmit set_key clock s).0.sendqueue
        × (length (dtls_check_retransmit set_key clock s).0.sent
              + tries (dtls_check_retransmit set_key clock s).0.sendqueue
            ≤ length s.sent + tries s.sendqueue)
  unfolding dtls_check_retransmit
  dtls_check_retransmit_lem clock s =
      check_loop-Ends clock (clock 0) 1 (suc (budget s.sendqueue)) s s.sendqueue (omega arith)
