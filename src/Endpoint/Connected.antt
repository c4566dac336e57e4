-- ===== src/Endpoint/Connected.antt =====
-- dtls.c: handle_handshake_msg over the modelled checks and sending functions.
use tinydtls.Base.{
  ◌+◌, refl, sym, ◌∙◌, true, Bytes, drop, inl, inr, length, some, take, ℕ, ◌≡◌, ◌≤◌, ◌⊎◌,
}
use tinydtls.Peer.{Handshake, Session, Peer, connected, wait_finished}
use tinydtls.Crypto.{Role}
use tinydtls.Handshake.{ht_finished}
use tinydtls.Handshake.Message.{handle_handshake_msg}
use tinydtls.Handshake.States.{state_after}
use tinydtls.Handshake.Connected.{connected-Verified}
use tinydtls.Header.{msg_type}
use tinydtls.KeyExchange.{verify_data, check_finished}
use tinydtls.KeyExchange.Finished.{check_finished_iff, check_finished-ok}
use tinydtls.Crypto.Keys.{other_end}
use tinydtls.Endpoint.{Host, on_params}
use tinydtls.Endpoint.Answers.{calls_of}
use tinydtls.Endpoint.Keeps.{calls_of-KeepsState}
use tinydtls.Send.{Net}
use tinydtls.KeyExchange

module _ (host : Host) where
  -- What check_finished says about the parameters of the peer, for PRF calls that find memory.
  pub finished_result :
      (memory : (k : ℕ) → host.found k ≡ true) (stop : Peer → Net → Net) (p : Peer) (h : Handshake)
      (d : Bytes) (w : Net)
      → p.handshake ≡ some h
      → ((calls_of host stop).check_finished p d w).0
        ≡ KeyExchange.check_finished host.hash true true h p.role d
  unfolding calls_of on_params
  finished_result memory stop p h d w params =
      rw (params, memory w.asked, memory (w.asked + 1)) refl

  -- A handshake message that makes a peer connected, which was not so before, is a Finished message that
  -- carries the verify_data of the other end, under the master secret of the peer and over the handshake
  -- messages that the peer has hashed. All checks and sending functions are those of the code; the
  -- hash gives 32 bytes and memory is found.
  pub handle_handshake_msg-connected :
      (digest : (m : Bytes) → length (host.hash m) ≡ 32) (memory : (k : ℕ) → host.found k ≡ true)
      (stop : Peer → Net → Net) (p : Peer) (h : Handshake) (d : Bytes) (session : Session)
      (role : Role) (w : Net)
      → p.handshake ≡ some h
      → state_after p.state
          (handle_handshake_msg host.context (calls_of host stop) p session role p.state d w)
        ≡ connected
      → p.state ≡ connected
        ⊎ ((p.state ≡ wait_finished)
            × (msg_type d ≡ ht_finished)
            × (24 ≤ length d)
            × (take 12 (drop 12 d) ≡ verify_data host.hash true true h (other_end p.role)))
  handle_handshake_msg-connected digest memory stop p h d session role w params e =
      let calls = calls_of host stop in
      elim (connected-Verified host.context calls p d (calls_of-KeepsState host stop) session role w
        e) [
          | inl before ↦ inl before
          | inr (waited, (type, (n, checked))) ↦
              let v = calls.stop_retransmission p w in
              let zero_result =
                check_finished-ok host.hash true true h p.role d {n = n}
                  (sym (finished_result memory stop p h d v params) ∙ checked) in
              let valid = (check_finished_iff host.hash digest h p.role d).0 zero_result in
              inr (waited, type, valid.0, valid.1)
        ]
