-- ===== src/Retransmit/Stop.antt =====
-- dtls_stop_retransmission against the list without the nodes of one session.
use tinydtls.Peer.{Peer, Session, dtls_session_equals}
use tinydtls.Base.{
  All, Bool-cases, [], ap, append_assoc, arith, false, if◌then◌else◌, inl, inr, refl, subst, sym, ℕ,
  ◌++◌, ◌==◌, ◌∙◌, ◌∷◌, ◌≡◌, ◌≢◌,
}
use tinydtls.Retransmit.{Sender, stop_loop, dtls_stop_retransmission}
use tinydtls.Netq.Remove.{HasDistinctAddrs}
use tinydtls.Netq.{Node, Queue, list_remove}

-- The nodes of other sessions, in their order.
abbrev pub of_others : (ℕ → Peer) → Session → Queue → Queue
of_others peers session [] = []
of_others peers session (n ∷ q) =
    if dtls_session_equals (peers n.peer).session session
    then of_others peers session q
    else n ∷ of_others peers session q

-- A node that stands between two parts of a queue is at another address than the first part.
middle_differs :
    (P : Node → Type 0) (kept : Queue) (n : Node) (rest : Queue) → All P (kept ++ (n ∷ rest)) → P n
middle_differs P [] n rest h = h.0
middle_differs P (k ∷ kept) n rest h = middle_differs P kept n rest h.1

All-without_middle :
    (P : Node → Type 0) (kept : Queue) (n : Node) (rest : Queue)
    → All P (kept ++ (n ∷ rest))
    → All P (kept ++ rest)
All-without_middle P [] n rest h = h.1
All-without_middle P (k ∷ kept) n rest h = (h.0, All-without_middle P kept n rest h.1)

list_remove_middle :
    (kept : Queue) (n : Node) (rest : Queue)
    → HasDistinctAddrs (kept ++ (n ∷ rest))
    → (list_remove (kept ++ (n ∷ rest)) n.addr ≡ kept ++ rest) × HasDistinctAddrs (kept ++ rest)
unfolding list_remove
list_remove_middle [] n rest h = (ground arith, h.1)
list_remove_middle (k ∷ kept) n rest h =
    let before = list_remove_middle kept n rest h.1 in
    let differ : (k.addr == n.addr) ≡ false =
      ground (arith, middle_differs (λ (y : Node). k.addr ≢ y.addr) kept n rest h.0) in
    (rw differ (ap (λ q. k ∷ q) before.0), (All-without_middle _ kept n rest h.0, before.1))

stop_loop_lem :
    (peers : ℕ → Peer) (session : Session) (kept rest : Queue)
    → HasDistinctAddrs (kept ++ rest)
    → stop_loop peers session rest (kept ++ rest) ≡ kept ++ of_others peers session rest
unfolding stop_loop
stop_loop_lem peers session kept [] h = refl
stop_loop_lem peers session kept (n ∷ rest) h =
    elim (Bool-cases (dtls_session_equals (peers n.peer).session session)) [
      | inl same ↦
          let removed = list_remove_middle kept n rest h in
          rw (same, removed.0) (stop_loop_lem peers session kept rest removed.1)
      | inr other ↦
          let shifted : kept ++ (n ∷ rest) ≡ (kept ++ (n ∷ [])) ++ rest =
            sym (append_assoc kept (n ∷ []) rest) in
          rw other (
            ap (λ q. stop_loop peers session rest q) shifted
            ∙ stop_loop_lem peers session (kept ++ (n ∷ [])) rest (subst HasDistinctAddrs shifted h)
            ∙ append_assoc kept (n ∷ []) (of_others peers session rest))
    ]

-- dtls_stop_retransmission takes every message of the peer's session out of the queue, and leaves those of
-- other sessions in their order, where no two nodes stand at one address.
pub dtls_stop_retransmission_lem :
    (p : Peer) (s : Sender)
    → HasDistinctAddrs s.sendqueue
    → (dtls_stop_retransmission p s).sendqueue ≡ of_others s.peers p.session s.sendqueue
unfolding dtls_stop_retransmission
dtls_stop_retransmission_lem p s h = stop_loop_lem s.peers p.session [] s.sendqueue h
