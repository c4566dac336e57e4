-- ===== src/Handshake/Reorder.antt =====
-- dtls.c: handle_handshake, which hands the handshake messages of a peer on in the order of their
-- numbers, and keeps those that come too early in the queue of the handshake parameters.
use tinydtls.Crypto.{Role}
use tinydtls.Handshake.{Peer, ht_hello_request, ht_client_hello, ok, fail, Outcome, Calls}
use tinydtls.Netq.{Node, Queue, insert_node, remove}
use tinydtls.Base.{
  Bool, Bytes, Option, [], false, if◌then◌else◌, length, ltb, none, not, some, suc, zero, ℕ, ◌==◌,
  ◌||◌, ◌∷◌,
}
use tinydtls.Alert.{handshake_failure, decode_error, alert_fatal_create}
use tinydtls.Peer.{State, Session, Handshake}
use tinydtls.Cipher.{Context}
use tinydtls.Global.{dtls_max_buf}
use tinydtls.Header.{dtls_hs_length, msg_type, message_seq}
use tinydtls.Handshake.Message.{on_client_hello, handle_handshake_msg}

-- The loop over the queue: is there a node with that number?
unfoldable pub stored : ℕ → Queue → Bool
stored seq [] = false
stored seq (n ∷ q) = (message_seq n.bytes == seq) || stored seq q

-- The inner loop of the drain: the first node with that number.
unfoldable pub find_seq : ℕ → Queue → Option Node
find_seq seq [] = none
find_seq seq (n ∷ q) = if message_seq n.bytes == seq then some n else find_seq seq q

-- netq_node_new: `addr` is what malloc gives, and the rest is zeroed.
abbrev pub node_new : ℕ → ℕ → Bytes → Node
node_new addr peer d = record {
  addr = addr;
  t = 0;
  timeout = 0;
  peer = peer;
  epoch = 0;
  content_type = 0;
  retransmit_cnt = 0;
  bytes = d;
}

-- peer->handshake_params->reorder_queue = q
abbrev pub with_queue : Peer → Handshake → Queue → Peer
with_queue p h q = record p { handshake = some (record h { reorder_queue = q }) }

-- if (res < 0) return res; with the rest of the code where there still is a peer
abbrev pub and_then : {W : Type 0} → Outcome W → (ℕ → Peer → W → Outcome W) → Outcome W
and_then (fail e, (p, w)) rest = (fail e, (p, w))
and_then (ok res, (none, w)) rest = (ok res, (none, w))
and_then (ok res, (some p, w)) rest = rest res p w

-- `malloc` gives the address of a node, or `none`; `self` is the address of the peer.
module _ {W : Type 0} (malloc : W → Option ℕ × W) (self : ℕ) where
  -- A message from further on: it is kept, unless it is too big, one with its number is kept
  -- already, or there is no memory.
  unfoldable pub hold_back : Peer → Handshake → Bytes → W → Outcome W
  hold_back p h d w =
      if ltb dtls_max_buf (length d)
      then (ok 0, (some p, w))
      else if stored (message_seq d) h.reorder_queue
      then (ok 0, (some p, w))
      else (let (node, w) = malloc w in
          elim node [
            | none ↦ (ok 0, (some p, w))
            | some addr ↦ (
              ok 0,
              (some (with_queue p h (insert_node h.reorder_queue (node_new addr self d))), w),
            )
          ])

module _ {W : Type 0} (ctx : Context) (calls : Calls W) where
  -- while (next && peer->handshake_params) { … } with a count of rounds. Each round takes the node of
  -- the next number off the queue and handles its message; it ends where there is no such node.
  unfoldable pub drain : ℕ → ℕ → Session → Role → Peer → W → Outcome W
  drain zero res session role p w = (ok res, (some p, w))
  drain (suc rounds) res session role p w = elim p.handshake [
    | none ↦ (ok res, (some p, w))
    | some h ↦ elim (find_seq h.mseq_r h.reorder_queue) [
      | none ↦ (ok res, (some p, w))
      | some n ↦
          let p' = with_queue p h (remove h.reorder_queue n) in
          and_then (handle_handshake_msg ctx calls p' session role p'.state n.bytes w)
            (λ res p w. drain rounds res session role p w)
    ]
  ]

  -- The rounds that are enough: one for every node, and one that finds none.
  abbrev pub rounds_for : Peer → ℕ
  rounds_for p = elim p.handshake [ none ↦ 1 | some h ↦ suc (length h.reorder_queue) ]

  -- The expected message, and then all that it was waited for.
  unfoldable pub handle_expected : Session → Role → State → Peer → Bytes → W → Outcome W
  handle_expected session role state p d w =
      and_then (handle_handshake_msg ctx calls p session role state d w)
        (λ res p w. drain (rounds_for p) res session role p w)

  -- handle_handshake without a peer: the message is that of handle_handshake_msg for a ClientHello.
  unfoldable pub handle_first_handshake : Session → State → Bytes → W → Outcome W
  handle_first_handshake session state d w =
      if ltb (length d) dtls_hs_length
      then (fail (alert_fatal_create decode_error), (none, w))
      else if not (msg_type d == ht_client_hello)
      then (fail (alert_fatal_create handshake_failure), (none, w))
      else on_client_hello ctx calls none session state d w

-- handle_handshake for a peer
unfoldable pub handle_peer_handshake :
    {W : Type 0}
    → Context
    → Calls W
    → (W → Option ℕ × W)
    → ℕ
    → Session
    → Role
    → State
    → Peer
    → Bytes
    → W
    → Outcome W
handle_peer_handshake ctx calls malloc self session role state p d w =
    if ltb (length d) dtls_hs_length
    then (fail (alert_fatal_create decode_error), (some p, w))
    else elim p.handshake [
      | none ↦
          if (msg_type d == ht_client_hello) || (msg_type d == ht_hello_request)
          then handle_handshake_msg ctx calls p session role state d w
          else (ok 0, (some p, w))
      | some h ↦
          if ltb (message_seq d) h.mseq_r
          then (ok 0, (some p, w))
          else if ltb h.mseq_r (message_seq d)
          then hold_back malloc self p h d w
          else handle_expected ctx calls session role state p d w
    ]
