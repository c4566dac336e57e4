-- ===== src/Retransmit.antt =====
-- dtls.c: the messages that wait to be sent again: the queue part of dtls_send_multi, dtls_retransmit,
-- dtls_stop_retransmission and dtls_check_retransmit. The time is a 32-bit number of ticks.
pub mod Loop
pub mod Stop
mod Tests
use tinydtls.Base.{
  concat, not, ◌*◌, ◌-◌, ◌||◌, Bytes, List, Option, [], if◌then◌else◌, leb, ltb, none, shl, some,
  suc, u32, zero, ℕ, ◌&&◌, ◌++◌, ◌+◌, ◌==◌, ◌∷◌,
}
use tinydtls.Alert.{Result, ok, fail}
use tinydtls.Handshake.Quiet.{message}
use tinydtls.Netq.{head, Node, Queue, list_remove, insert_node, pop_first}
use tinydtls.Numeric.{byte_at}
use tinydtls.Peer.{Peer, Session, dtls_session_equals, params_epoch}
use tinydtls.Record.{dtls_prepare_record}
use tinydtls.Global.{dtls_max_buf, dtls_default_max_retransmit}
use tinydtls.Header.{Security}
use tinydtls.Handshake.{ht_hello_verify_request}
use tinydtls.Dispatch.{ct_handshake, ct_change_cipher_spec}

-- The part of the context that these functions change: the peers by their addresses, ctx->sendqueue,
-- and the datagrams that the callback `write` was given, in order.
pub record Sender : Type 0 where
  pub peers : ℕ → Peer
  pub sendqueue : Queue
  pub sent : List (Session × Bytes)

-- CLOCK_SECOND of dtls_time.h
abbrev pub clock_second : ℕ
clock_second = 1000

-- The security parameters that a record has used, back in their place.
abbrev pub store_params : Peer → ℕ → Option Security → Peer
store_params p epoch none = p
store_params p epoch (some used) = elim p.params0 [
  | none ↦ record p { params1 = some used }
  | some s ↦
      if s.epoch == epoch
      then record p { params0 = some used }
      else record p { params1 = some used }
]

abbrev pub put_peer : Sender → ℕ → Peer → Sender
put_peer s a p = record s { peers = λ b. if b == a then p else s.peers b }

-- node->retransmit_cnt++; node->t = now + (node->timeout << node->retransmit_cnt);
unfoldable pub rescheduled : ℕ → Node → Node
rescheduled now n = record n {
  retransmit_cnt = n.retransmit_cnt + 1;
  t = u32 (now + shl n.timeout (n.retransmit_cnt + 1));
}

-- node = list_item_next(node) over the rest of the queue, and list_remove of the nodes of the session
unfoldable pub stop_loop : (ℕ → Peer) → Session → Queue → Queue → Queue
stop_loop peers session [] q = q
stop_loop peers session (n ∷ rest) q =
    stop_loop peers session rest
      (if dtls_session_equals (peers n.peer).session session then list_remove q n.addr else q)

-- dtls_stop_retransmission
unfoldable pub dtls_stop_retransmission : Peer → Sender → Sender
dtls_stop_retransmission p s = record s {
  sendqueue = stop_loop s.peers p.session s.sendqueue s.sendqueue;
}

-- The rounds that a queue can keep the timer busy: what each node has left to send, and its removal.
abbrev pub budget : Queue → ℕ
budget [] = 0
budget (n ∷ q) = suc (dtls_default_max_retransmit - n.retransmit_cnt) + budget q

-- The part of dtls_send_multi behind dtls_prepare_record that keeps a message; `self` is the address of the
-- peer, `addr` that of the node where there is memory for it.
unfoldable pub keep_message : ℕ → ℕ → Option ℕ → Option Security → ℕ → List Bytes → Queue → Queue
keep_message now self addr security type parts q =
    let payload = concat parts in
    let first = byte_at payload 0 in
    if (type == ct_handshake && not (first == ht_hello_verify_request))
      || type == ct_change_cipher_spec
    then elim addr [
      | none ↦ q
      | some a ↦
          let n : Node = record {
            addr = a;
            t = u32 (now + 2 * clock_second);
            timeout = 2 * clock_second;
            peer = self;
            epoch = elim security [ none ↦ 0 | some x ↦ x.epoch ];
            content_type = type;
            retransmit_cnt = 0;
            bytes = payload;
          } in
          insert_node q n
    ]
    else q

-- The callback `write` gets the record, where it could be prepared.
abbrev pub write_out : Session → Result Bytes → Sender → Sender
write_out session (fail e) s = s
write_out session (ok datagram) s = record s { sent = s.sent ++ ((session, datagram) ∷ []) }

module _ (set_key : Bytes → Option (Bytes → Bytes)) where
  -- The record of a message in the epoch of its node.
  unfoldable pub send_node : Node → Sender → Sender
  send_node n s =
      let p = s.peers n.peer in
      let security = params_epoch p n.epoch in
      let (r, used) =
        dtls_prepare_record set_key security p.role n.content_type (n.bytes ∷ []) dtls_max_buf in
      write_out p.session r (put_peer s n.peer (store_params p n.epoch used))

  -- dtls_retransmit of a node that was taken off the queue; `now` is what dtls_ticks gives
  unfoldable pub dtls_retransmit : ℕ → Node → Sender → Sender
  dtls_retransmit now n s =
      if ltb n.retransmit_cnt dtls_default_max_retransmit
      then send_node n (record s { sendqueue = insert_node s.sendqueue (rescheduled now n) })
      else s

  -- while (node && node->t <= now) { … } with a count of rounds; dtls_retransmit reads the clock
  -- again, and its k-th reading is `clock k`.
  unfoldable pub check_loop : (ℕ → ℕ) → ℕ → ℕ → ℕ → Sender → Sender
  check_loop clock now k zero s = s
  check_loop clock now k (suc rounds) s = elim (head s.sendqueue) [
    | none ↦ s
    | some n ↦
        let popped = record s { sendqueue = (pop_first s.sendqueue).1 } in
        let rest = check_loop clock now (k + 1) rounds (dtls_retransmit (clock k) n popped) in
        if leb n.t now then rest else s
  ]

  -- dtls_check_retransmit: the context, and the time that goes out through `next`, if any
  unfoldable pub dtls_check_retransmit : (ℕ → ℕ) → Sender → Sender × Option ℕ
  dtls_check_retransmit clock s =
      let s = check_loop clock (clock 0) 1 (suc (budget s.sendqueue)) s in
      (s, elim (head s.sendqueue) [ none ↦ none | some n ↦ some n.t ])
