-- ===== src/Dispatch/Verified.antt =====
-- The steps of the code on an entry of the table during a datagram, and what it means that an entry is
-- connected because check_finished took a message for it.
use tinydtls.Base.{
  ◌⊎◌, List, ap, inl, inr, refl, subst, ◌∙◌, All, Bytes, Option, none, some, ℕ, ◌≡◌,
}
use mathlib.Core.List.{Memᴰ}
use tinydtls.Peer.{closed, closing, Handshake, wait_clienthello, Session, connected, init}
use tinydtls.Netq.{insert_node, remove, Node, Queue}
use tinydtls.Handshake.Reorder.{with_queue, find_seq, node_new}
use tinydtls.Crypto.{Role}
use tinydtls.Record.{decrypt_verify}
use tinydtls.Cipher.{Context}
use tinydtls.Dispatch.Secure.{on_client_hello-Advance, on_client_hello-NotConnected}
use tinydtls.Handshake.Advance.{handle_handshake_msg-Advance}
use tinydtls.Handshake.Message.{on_client_hello, handle_handshake_msg}
use tinydtls.Handshake.States.{state_after, Keeps, KeepsState}
use tinydtls.Handshake.Connected.{connected-Verified}
use tinydtls.Dispatch.{wait_finished, Peer, Services}
use tinydtls.Alert.{Result, ok}
use tinydtls.Handshake.{ht_finished, Calls, Outcome}
use tinydtls.Header.{msg_type}
use tinydtls.Dispatch.Invariant.{Leaves}
use tinydtls.Handshake.Order.{order_of, order_after, Advance, same, freed, next, created}

-- Every message in the queue has the property.
abbrev pub QueueHolds : (Bytes → Type 0) → Option (ℕ × Queue) → Type 0
QueueHolds M none = Unit
QueueHolds M (some (n, q)) = All (λ (x : Node). M x.bytes) q

pub Advance-QueueHolds :
    (M : Bytes → Type 0) (b : Option (ℕ × Queue)) (r : Result ℕ) (x : Option (ℕ × Queue))
    → QueueHolds M b
    → Advance b r x
    → QueueHolds M x
Advance-QueueHolds M b r x h same = h
Advance-QueueHolds M b r x h freed = tt
Advance-QueueHolds M b r x h (next e) = subst (QueueHolds M) e h
Advance-QueueHolds M b r x h (created e) = tt

module _ {W : Type 0} (ctx : Context) (calls : Calls W) (services : Services W)
    (set_key : Bytes → Option (Bytes → Bytes)) (session : Session) (M : Bytes → Type 0) where
  -- One step of the code on an entry of the table: it handles a message with the property, opens a
  -- record, takes a message from the queue or puts one into it, sends an alert, derives the keys, or
  -- is set to a state by the code around these.
  pub data Next (p q : Peer) : Type 0 where
    message :
        (role : Role) (d : Bytes) (w w' : W) (r : Result ℕ)
        → M d
        → handle_handshake_msg ctx calls p session role p.state d w ≡ (r, (some q, w'))
        → Next p q
    decrypted : (msg : Bytes) → q ≡ (decrypt_verify set_key p msg).1 → Next p q
    taken :
        (h : Handshake) (n : Node)
        → p.handshake ≡ some h
        → find_seq h.mseq_r h.reorder_queue ≡ some n
        → q ≡ with_queue p h (remove h.reorder_queue n)
        → Next p q
    added :
        (h : Handshake) (addr self : ℕ) (d : Bytes)
        → p.handshake ≡ some h
        → M d
        → q ≡ with_queue p h (insert_node h.reorder_queue (node_new addr self d))
        → Next p q
    set_closing : q ≡ record p { state = closing } → Next p q
    set_closed : q ≡ record p { state = closed } → Next p q
    set_finished : q ≡ record p { state = wait_finished } → Next p q
    alerted : (level desc : ℕ) (w : W) → q ≡ (services.send_alert p level desc w).0 → Next p q
    keyed : (w : W) → q ≡ (services.key_block p w).1.0 → Next p q

  -- Any number of such steps.
  pub data Follows (p : Peer) : Peer → Type 0 where
    here : Follows p p
    then : {q r : Peer} → Follows p q → Next q r → Follows p r

  -- What an entry goes back to: an entry at the start, or the peer that is made for a ClientHello of
  -- this session.
  abbrev pub Starts : List Peer → Peer → Type 0
  Starts entries p =
      Memᴰ p entries
      ⊎ ((d : Bytes) × (w : W) × (w' : W) × (r : Result ℕ) × M d
          × (on_client_hello ctx calls none session wait_clienthello d w ≡ (r, (some p, w'))))

  abbrev pub Reached : List Peer → Peer → Type 0
  Reached entries p = (s : Peer) × Starts entries s × Follows s p

  -- An entry comes from one that was connected at the start.
  abbrev pub WasConnected : List Peer → Peer → Type 0
  WasConnected entries q = (s : Peer) × Memᴰ s entries × (s.state ≡ connected) × Follows s q

  -- An entry comes from `p'`, which handle_handshake_msg made connected out of `p` for a Finished
  -- message with the property: check_finished took the message for `p`, which waited for it.
  abbrev pub Accepted : List Peer → Peer → Type 0
  Accepted entries q =
      (p p' : Peer) × (role : Role) × (d : Bytes) × (w w' : W) × (r : Result ℕ) × (n : ℕ) × Reached
        entries p
      × (p.state ≡ wait_finished)
      × M d
      × (msg_type d ≡ ht_finished)
      × ((calls.check_finished p d (calls.stop_retransmission p w)).0 ≡ ok n)
      × (handle_handshake_msg ctx calls p session role p.state d w ≡ (r, (some p', w')))
      × (p'.state ≡ connected)
      × Follows p' q

  -- What holds of every entry: where it comes from, what waits in its queue, and why it is connected.
  abbrev pub Traced : List Peer → Peer → Type 0
  Traced entries q =
      Reached entries q
      × QueueHolds M (order_of q)
      × (q.state ≡ connected → WasConnected entries q ⊎ Accepted entries q)

  pub Leaves-intro :
      (Q : Peer → Type 0) (o : Outcome W)
      → ((q : Peer) (w : W) → o ≡ (o.0, (some q, w)) → Q q)
      → Leaves Q o
  Leaves-intro Q (r, (none, w)) make = tt
  Leaves-intro Q (r, (some q, w)) make = make q w refl

  module _ (entries : List Peer) where
    earlier :
        (p q : Peer)
        → Next p q
        → WasConnected entries p ⊎ Accepted entries p
        → WasConnected entries q ⊎ Accepted entries q
    earlier p q step (inl (s, mem, was, path)) = inl (s, mem, was, then path step)
    earlier p q step
          (inr (a, b, role, d, w, w', r, n, back, waits, m, type, took, made, up, path)) =
        inr (a, b, role, d, w, w', r, n, back, waits, m, type, took, made, up, then path step)

    pub Traced-step :
        (p q : Peer)
        → Next p q
        → (q.state ≡ connected → p.state ≡ connected)
        → QueueHolds M (order_of q)
        → Traced entries p
        → Traced entries q
    Traced-step p q step back queue ((s, start, path), old, why) =
        ((s, start, then path step), queue, λ e. earlier p q step (why (back e)))

    pub Traced-message :
        (keeps_state : KeepsState calls) (keeps_order : Keeps order_of calls) (p q : Peer)
        (role : Role) (d : Bytes) (w w' : W)
        → let o = handle_handshake_msg ctx calls p session role p.state d w in
          M d → Traced entries p → o ≡ (o.0, (some q, w')) → Traced entries q
    Traced-message keeps_state keeps_order p q role d w w' m ((s, start, path), old, why) e =
        let o = handle_handshake_msg ctx calls p session role p.state d w in
        let step : Next p q = message role d w w' o.0 m e in
        let queue = Advance-QueueHolds M (order_of p) _ _ old (
          handle_handshake_msg-Advance ctx calls keeps_order (order_of p) p.state d session role p w
            refl) in
        (
          (s, start, then path step),
          subst (λ (x : Outcome W). QueueHolds M (order_after x)) e queue,
          λ up.
              elim (connected-Verified ctx calls p d keeps_state session role w
                (ap (λ (x : Outcome W). state_after p.state x) e ∙ up)) [
                  | inl before ↦ earlier p q step (why before)
                  | inr (waits, (type, (n, took))) ↦ inr (
                    p,
                    q,
                    role,
                    d,
                    w,
                    w',
                    o.0,
                    n,
                    (s, start, path),
                    waits,
                    m,
                    type,
                    took,
                    e,
                    up,
                    here,
                  )
                ],
        )

    pub Traced-first :
        (keeps_state : KeepsState calls) (keeps_order : Keeps order_of calls) (q : Peer) (d : Bytes)
        (w w' : W)
        → let o = on_client_hello ctx calls none session wait_clienthello d w in
          M d → o ≡ (o.0, (some q, w')) → Traced entries q
    Traced-first keeps_state keeps_order q d w w' m e =
        let o = on_client_hello ctx calls none session wait_clienthello d w in
        let queue =
          Advance-QueueHolds M none _ _ tt
            (on_client_hello-Advance ctx calls keeps_order session wait_clienthello d w) in
        (
          (q, inr (d, w, w', o.0, m, e), here),
          subst (λ (x : Outcome W). QueueHolds M (order_after x)) e queue,
          λ up. absurd (
              on_client_hello-NotConnected ctx calls keeps_state session wait_clienthello d w
                (ap (λ (x : Outcome W). state_after init x) e ∙ up)),
        )
