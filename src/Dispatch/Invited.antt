-- ===== src/Dispatch/Invited.antt =====
-- A session that has no peer gets one only by a ClientHello that dtls_verify_peer took.
use tinydtls.Handshake.{Outcome, Calls}
use tinydtls.Netq.{Node}
use tinydtls.Dispatch.{Peer, go, stop, fault, Flow, Services}
use tinydtls.Peer.{wait_clienthello, Session}
use tinydtls.Base.{All, Bytes, List, Option, [], ap, none, refl, some, subst, sym, ◌∷◌, ◌≡◌}
use tinydtls.Record.{decrypt_verify}
use tinydtls.Cipher.{Context}
use tinydtls.Record.State.{decrypt_verify-keeps}
use tinydtls.Dispatch.Records.{table, dtls_handle_message}
use tinydtls.Handshake.Advance.{handle_handshake_msg-Advance}
use tinydtls.Handshake.Message.{accept_client_hello, on_client_hello, handle_handshake_msg}
use tinydtls.Handshake.Waiting.{find_seq-All, insert_node-All, remove-All}
use tinydtls.Handshake.Reorder.{node_new}
use tinydtls.Dispatch.Invariant.{AllLeft, Leaves, Preserved}
use tinydtls.Dispatch.Loop.{Arrives, dtls_handle_message-AllLeft}
use tinydtls.Dispatch.Secure.{ServicesKeep, on_client_hello-cases, on_client_hello-Advance}
use tinydtls.Dispatch.Verified.{QueueHolds, Advance-QueueHolds}
use tinydtls.Handshake.States.{Keeps}
use tinydtls.Handshake.Order.{order_of, order_in, order_after}
use tinydtls.Alert.{ok}

All-weaken :
    {A : Type 0} (P R : A → Type 0) (xs : List A) → ((x : A) → P x → R x) → All P xs → All R xs
All-weaken P R [] f h = tt
All-weaken P R (x ∷ xs) f h = (f x h.0, All-weaken P R xs f h.1)

AllLeft-weaken :
    {W : Type 0} (P R : Peer → Type 0) (f : Flow W)
    → ((p : Peer) → P p → R p)
    → AllLeft P f
    → AllLeft R f
AllLeft-weaken P R (go peer entries w) weaken h = All-weaken P R (table peer entries) weaken h
AllLeft-weaken P R (stop r entries w) weaken h = All-weaken P R entries weaken h
AllLeft-weaken P R fault weaken h = tt

module _ {W : Type 0} (ctx : Context) (calls : Calls W) (services : Services W)
    (set_key : Bytes → Option (Bytes → Bytes)) (session : Session) (M : Bytes → Type 0)
    (keeps_order : Keeps order_of calls) (alerts_order : ServicesKeep order_of services) where
  -- dtls_verify_peer took a message with the property, for a session without a peer.
  abbrev pub Invited : Type 0
  Invited = (d : Bytes) × (w : W) × M d × ((calls.verify_session session d w).0 ≡ ok 0)

  abbrev IsGuest : Peer → Type 0
  IsGuest p = Invited × QueueHolds M (order_of p)

  Leaves-IsGuest :
      (o : Outcome W) → Leaves (λ _. Invited) o → QueueHolds M (order_after o) → Leaves IsGuest o
  Leaves-IsGuest (r, (none, w)) h queue = tt
  Leaves-IsGuest (r, (some p, w)) h queue = (h, queue)

  Leaves-Invited : (o : Outcome W) → Invited → Leaves (λ _. Invited) o
  Leaves-Invited (r, (none, w)) h = tt
  Leaves-Invited (r, (some p, w)) h = h

  first_message-Invited :
      (d : Bytes) (w : W)
      → M d
      → Leaves (λ _. Invited) (on_client_hello ctx calls none session wait_clienthello d w)
  first_message-Invited d w m =
      on_client_hello-cases ctx calls (Leaves (λ _. Invited)) session wait_clienthello d w
        (λ r w. tt)
        (λ p v valid starts new.
          Leaves-Invited (accept_client_hello ctx calls p d v) (d, w, m, valid))

  IsGuest-same : (p q : Peer) → order_of q ≡ order_of p → IsGuest p → IsGuest q
  IsGuest-same p q o h = (h.0, subst (QueueHolds M) (sym o) h.1)

  IsGuest-Preserved : Preserved ctx calls services set_key session M IsGuest
  IsGuest-Preserved = record {
    message = λ p role d w m h.
        let o = handle_handshake_msg ctx calls p session role p.state d w in
        Leaves-IsGuest o (Leaves-Invited o h.0) (
          Advance-QueueHolds M (order_of p) _ _ h.1 (
            handle_handshake_msg-Advance ctx calls keeps_order (order_of p) p.state d session role p
              w refl));
    first_message = λ d w m.
        Leaves-IsGuest (on_client_hello ctx calls none session wait_clienthello d w)
          (first_message-Invited d w m)
          (Advance-QueueHolds M none _ _ tt
            (on_client_hello-Advance ctx calls keeps_order session wait_clienthello d w));
    decrypted = λ p msg h.
        IsGuest-same p (decrypt_verify set_key p msg).1
          (decrypt_verify-keeps order_of (λ p. refl) set_key p msg) h;
    taken = λ p x n params found h.
        let waiting = subst (QueueHolds M) (ap order_in params) h.1 in
        (
          find_seq-All (λ (x : Node). M x.bytes) x.mseq_r x.reorder_queue n found waiting,
          (h.0, remove-All (λ (x : Node). M x.bytes) x.reorder_queue n waiting),
        );
    added = λ p x addr self d params m h. (
      h.0,
      insert_node-All (λ (x : Node). M x.bytes) x.reorder_queue (node_new addr self d) m
          (subst (QueueHolds M) (ap order_in params) h.1),
    );
    closing_state = λ p h. h;
    closed_state = λ p h. h;
    finished_state = λ p h. h;
    alerted = λ p level desc w h.
        IsGuest-same p (services.send_alert p level desc w).0
          (alerts_order.alert_kept p level desc w) h;
    keyed =
        λ p w h. IsGuest-same p (services.key_block p w).1.0 (alerts_order.key_block_kept p w) h;
  }

  -- Where the table holds no peer for the session, dtls_handle_message puts one there only if
  -- dtls_verify_peer, asked for a session without a peer, has taken a message that came in the
  -- datagram: `M` is any property that every part of the datagram has, opened as a record. The calls leave the
  -- receive counter and the queue of early messages alone.
  pub dtls_handle_message-Invited :
      (msg : Bytes) (w : W)
      → Arrives set_key M msg
      → AllLeft (λ _. Invited) (dtls_handle_message ctx calls services set_key [] session msg w)
  dtls_handle_message-Invited msg w arrives =
      AllLeft-weaken IsGuest (λ _. Invited)
        (dtls_handle_message ctx calls services set_key [] session msg w) (λ p h. h.0)
        (dtls_handle_message-AllLeft ctx calls services set_key session M IsGuest IsGuest-Preserved
          [] msg w arrives tt)
