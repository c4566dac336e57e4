-- ===== src/Dispatch/Invariant.antt =====
-- A property of peers that every part of dtls_handle_message keeps holds of every entry of the table
-- afterwards.
use tinydtls.Netq.{Node, insert_node, remove}
use tinydtls.Base.{
  ◌≡◌, Bool-cases, length, ltb, ◌==◌, ◌||◌, All, Bytes, Option, Option-cases, inl, inr, none, some,
  suc, zero, ℕ,
}
use tinydtls.Global.{dtls_max_buf}
use tinydtls.Handshake.{ht_hello_request, ht_client_hello, Calls, Outcome}
use tinydtls.Header.{dtls_hs_length, msg_type, message_seq}
use tinydtls.Handshake.Reorder.{
  stored, node_new, hold_back, rounds_for, handle_expected, handle_peer_handshake, find_seq,
  with_queue, and_then, drain,
}
use tinydtls.Dispatch.{
  wait_finished, closed, closing, ok, fail, Peer, go, stop, fault, Services, Flow,
}
use tinydtls.Peer.{wait_clienthello, Session, Handshake}
use tinydtls.Record.{decrypt_verify}
use tinydtls.Cipher.{Context}
use tinydtls.Dispatch.Records.{table}
use tinydtls.Handshake.Message.{on_client_hello, handle_handshake_msg}
use tinydtls.Crypto.{Role}

-- The property of the peer that an outcome leaves, if it leaves one.
abbrev pub Leaves : {W : Type 0} → (Peer → Type 0) → Outcome W → Type 0
Leaves Q (r, (none, w)) = Unit
Leaves Q (r, (some p, w)) = Q p

-- The property of every entry that is in the table at the end of a record.
abbrev pub AllLeft : {W : Type 0} → (Peer → Type 0) → Flow W → Type 0
AllLeft Q (go peer others w) = All Q (table peer others)
AllLeft Q (stop r entries w) = All Q entries
AllLeft Q fault = Unit

-- Every part keeps the property `Q`, for messages with the property `M`.
pub record Preserved {W : Type 0} (ctx : Context) (calls : Calls W) (services : Services W)
    (set_key : Bytes → Option (Bytes → Bytes)) (session : Session) (M : Bytes → Type 0)
    (Q : Peer → Type 0) : Type 0 where
  pub message :
      (p : Peer) (role : Role) (d : Bytes) (w : W)
      → M d
      → Q p
      → Leaves Q (handle_handshake_msg ctx calls p session role p.state d w)
  pub first_message :
      (d : Bytes) (w : W)
      → M d
      → Leaves Q (on_client_hello ctx calls none session wait_clienthello d w)
  pub decrypted : (p : Peer) (msg : Bytes) → Q p → Q (decrypt_verify set_key p msg).1
  pub taken :
      (p : Peer) (h : Handshake) (n : Node)
      → p.handshake ≡ some h
      → find_seq h.mseq_r h.reorder_queue ≡ some n
      → Q p
      → M n.bytes × Q (with_queue p h (remove h.reorder_queue n))
  pub added :
      (p : Peer) (h : Handshake) (addr self : ℕ) (d : Bytes)
      → p.handshake ≡ some h
      → M d
      → Q p
      → Q (with_queue p h (insert_node h.reorder_queue (node_new addr self d)))
  pub closing_state : (p : Peer) → Q p → Q (record p { state = closing })
  pub closed_state : (p : Peer) → Q p → Q (record p { state = closed })
  pub finished_state : (p : Peer) → Q p → Q (record p { state = wait_finished })
  pub alerted : (p : Peer) (level desc : ℕ) (w : W) → Q p → Q (services.send_alert p level desc w).0
  pub keyed : (p : Peer) (w : W) → Q p → Q (services.key_block p w).1.0

module _ {W : Type 0} (ctx : Context) (calls : Calls W) (services : Services W)
    (set_key : Bytes → Option (Bytes → Bytes)) (session : Session) (M : Bytes → Type 0)
    (Q : Peer → Type 0) (keep : Preserved ctx calls services set_key session M Q) where
  and_then-Leaves :
      (o : Outcome W) (rest : ℕ → Peer → W → Outcome W)
      → Leaves Q o
      → ((k : ℕ) (p : Peer) (w : W) → Q p → Leaves Q (rest k p w))
      → Leaves Q (and_then o rest)
  and_then-Leaves (fail e, (none, w)) rest h go_on = h
  and_then-Leaves (fail e, (some p, w)) rest h go_on = h
  and_then-Leaves (ok k, (none, w)) rest h go_on = h
  and_then-Leaves (ok k, (some p, w)) rest h go_on = go_on k p w h

  drain-Leaves :
      (rounds res : ℕ) (role : Role) (p : Peer) (w : W)
      → Q p
      → Leaves Q (drain ctx calls rounds res session role p w)
  unfolding drain
  drain-Leaves zero res role p w h = h
  drain-Leaves (suc rounds) res role p w h = elim (Option-cases p.handshake) [
    | inl no_params ↦ rw (no_params, drain) h
    | inr (x, params) ↦ elim (Option-cases (find_seq x.mseq_r x.reorder_queue)) [
      | inl none_left ↦ rw (params, drain, none_left) h
      | inr (n, found) ↦
          let p' = with_queue p x (remove x.reorder_queue n) in
          let good = keep.taken p x n params found h in
          rw (params, drain, found)
            (and_then-Leaves (handle_handshake_msg ctx calls p' session role p'.state n.bytes w) _
              (keep.message p' role n.bytes w good.0 good.1)
              (λ k p w h. drain-Leaves rounds k role p w h))
    ]
  ]

  hold_back-Leaves :
      (self : ℕ) (p : Peer) (x : Handshake) (d : Bytes) (w : W)
      → p.handshake ≡ some x
      → M d
      → Q p
      → Leaves Q (hold_back services.malloc self p x d w)
  unfolding hold_back
  hold_back-Leaves self p x d w params m h = elim (Bool-cases (ltb dtls_max_buf (length d))) [
    | inl big ↦ rw big h
    | inr small ↦ elim (Bool-cases (stored (message_seq d) x.reorder_queue)) [
      | inl again ↦ rw (small, again) h
      | inr new ↦ elim (Option-cases (services.malloc w).0) [
        | inl full ↦ rw (small, new, full) h
        | inr (addr, got) ↦ rw (small, new, got) (keep.added p x addr self d params m h)
      ]
    ]
  ]

  pub handle_peer_handshake-Leaves :
      (self : ℕ) (role : Role) (p : Peer) (d : Bytes) (w : W)
      → M d
      → Q p
      → Leaves Q (handle_peer_handshake ctx calls services.malloc self session role p.state p d w)
  unfolding handle_peer_handshake handle_expected hold_back
  handle_peer_handshake-Leaves self role p d w m h =
      elim (Bool-cases (ltb (length d) dtls_hs_length)) [
        | inl short ↦ rw short h
        | inr whole ↦ elim (Option-cases p.handshake) [
          | inl no_params ↦
              elim (Bool-cases
                ((msg_type d == ht_client_hello) || (msg_type d == ht_hello_request))) [
                  | inl hello ↦ rw (whole, no_params, hello) (keep.message p role d w m h)
                  | inr other ↦ rw (whole, no_params, other) h
                ]
          | inr (x, params) ↦ elim (Bool-cases (ltb (message_seq d) x.mseq_r)) [
            | inl old ↦ rw (whole, params, old) h
            | inr later ↦ elim (Bool-cases (ltb x.mseq_r (message_seq d))) [
              | inl early ↦
                  rw (whole, params, later, early) (hold_back-Leaves self p x d w params m h)
              | inr now ↦
                  rw (whole, params, later, now)
                    (and_then-Leaves (handle_handshake_msg ctx calls p session role p.state d w) _
                      (keep.message p role d w m h)
                      (λ k p w h. drain-Leaves (rounds_for ctx calls p) k role p w h))
            ]
          ]
        ]
      ]
