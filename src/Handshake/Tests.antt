-- ===== src/Handshake/Tests.antt =====
-- Runs of the state machine with calls that always succeed and change nothing.
use tinydtls.Netq.{Node}
use tinydtls.Base.{All, some, ◌+◌, ◌∷◌, ◌≢◌, Bytes, refl, replicate, ℕ, ◌≡◌}
use tinydtls.Handshake.Sequence.{IsOrdered, queue_of, handle_peer_handshake-IsOrdered}
use tinydtls.Handshake.Reorder.{handle_peer_handshake}
use tinydtls.Handshake.Order.{order_of, order_after}
use tinydtls.Handshake.Quiet.{quiet, quiet-Keeps, psk_build, sample_session, peer_in, message}
use tinydtls.Crypto.{client}
use tinydtls.Handshake.{cipher_of}
use tinydtls.Peer.{wait_serverhellodone, clienthello, handshake_new}
use tinydtls.Handshake.States.{Move, state_after}
use tinydtls.Record.{tls_null_with_null_null}
use tinydtls.Handshake.Message.{handle_handshake_msg}
use tinydtls.Handshake.Reach.{handle_handshake_msg-Move}
use tinydtls.Handshake.Connected.{server_key_exchange-unchecked}

handle_handshake_msg-Move_example :
    Move psk_build quiet client (peer_in clienthello) (message 2) 5 clienthello (
      state_after clienthello (
        handle_handshake_msg psk_build quiet
          (peer_in clienthello)
          sample_session
          client
          clienthello
          (message 2)
          5))
handle_handshake_msg-Move_example =
    handle_handshake_msg-Move psk_build quiet (quiet-Keeps (λ p. p.state)) (peer_in clienthello)
      (message 2) sample_session client 5

no_suite : cipher_of (peer_in clienthello) ≡ tls_null_with_null_null
unfolding handshake_new
no_suite = refl

server_key_exchange-unchecked_example :
    state_after clienthello (
      handle_handshake_msg psk_build quiet
        (peer_in clienthello)
        sample_session
        client
        clienthello
        (message 12)
        5)
    ≡ wait_serverhellodone
server_key_exchange-unchecked_example =
    server_key_exchange-unchecked psk_build quiet (peer_in clienthello) (message 12) sample_session
      client clienthello 5 refl no_suite

-- A message from further on.
abbrev early_message : Bytes
early_message = 14 ∷ 0 ∷ 0 ∷ 0 ∷ 0 ∷ 3 ∷ replicate 6 0

nothing_waits : IsOrdered (order_of (peer_in clienthello))
unfolding handshake_new
nothing_waits = (tt, tt)

nothing_stored :
    (addr : ℕ) → All (λ (x : Node). addr ≢ x.addr) (queue_of (order_of (peer_in clienthello)))
unfolding handshake_new
nothing_stored addr = tt

handle_peer_handshake-IsOrdered_example : IsOrdered (
    order_after (
      handle_peer_handshake psk_build quiet
        (λ w. (some w, w + 1))
        7
        sample_session
        client
        clienthello
        (peer_in clienthello)
        early_message
        5))
handle_peer_handshake-IsOrdered_example =
    handle_peer_handshake-IsOrdered psk_build quiet (quiet-Keeps order_of) (λ w. (some w, w + 1)) 7
      sample_session client clienthello (peer_in clienthello) early_message 5 nothing_waits
      (λ addr got. nothing_stored addr)
