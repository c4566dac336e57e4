-- ===== src/Endpoint/Tests.antt =====
-- A client that gets the Finished message of a server with the same handshake parameters.
use tinydtls.Base.{ℕ, [], some, ◌∷◌, drop, length, take, ◌++◌, ◌≤◌, Bytes, refl, true, ◌≡◌, ◌⊎◌}
use tinydtls.Peer.{Session, security_new, connected, wait_finished, handshake_new, Peer}
use tinydtls.Endpoint.Datagram.{dtls_handle_message-Proved, services_of, Proved, HadConnected}
use tinydtls.Dispatch.Records.{dtls_handle_message}
use tinydtls.Handshake.Order.{order_of}
use tinydtls.Record.State.{decrypt_verify-no_key}
use tinydtls.Dispatch.Invariant.{AllLeft}
use tinydtls.Dispatch.Loop.{Arrives}
use tinydtls.Dispatch.Verified.{QueueHolds}
use tinydtls.Endpoint.{on_params}
use tinydtls.Handshake.Quiet.{psk_build, sample_session, peer_in, message}
use tinydtls.Crypto.{server, client}
use tinydtls.KeyExchange.{verify_data, finished_body}
use tinydtls.Handshake.{ht_finished}
use tinydtls.Header.{msg_type}
use tinydtls.KeyExchange.Finished.{check_finished-finished_body}
use tinydtls.Crypto.Keys.{other_end}
use tinydtls.Handshake.States.{state_after}
use tinydtls.Handshake.Message.{on_finished, on_message, handle_handshake_msg}
use tinydtls.Send.{Net}
use tinydtls.Endpoint.Answers.{stop_on, calls_of}
use tinydtls.Endpoint.Quiet.{pad_hash, length-pad_hash, psk_host, no_net}
use tinydtls.Endpoint.Connected.{handle_handshake_msg-connected}

abbrev stop_sending : Peer → Net → Net
stop_sending = stop_on (λ addr. peer_in wait_finished)

-- The Finished message of the server.
abbrev finished_message_of_server : Bytes
finished_message_of_server = message 20 ++ finished_body pad_hash true true handshake_new server

authenticates :
    state_after wait_finished (
      handle_handshake_msg psk_build
        (calls_of psk_host stop_sending)
        (peer_in wait_finished)
        sample_session
        client
        wait_finished
        finished_message_of_server
        no_net)
    ≡ connected
unfolding handle_handshake_msg on_message on_finished calls_of on_params
authenticates =
    rw
      (check_finished-finished_body pad_hash length-pad_hash handshake_new server (message 20) refl)
      refl

handle_handshake_msg-connected_example :
    wait_finished ≡ connected
    ⊎ ((wait_finished ≡ wait_finished)
        × (msg_type finished_message_of_server ≡ ht_finished)
        × (24 ≤ length finished_message_of_server)
        × (take 12 (drop 12 finished_message_of_server)
            ≡ verify_data pad_hash true true handshake_new (other_end client)))
handle_handshake_msg-connected_example =
    handle_handshake_msg-connected psk_host length-pad_hash (λ k. refl) stop_sending
      (peer_in wait_finished) handshake_new finished_message_of_server sample_session client no_net
      refl authenticates

-- A datagram with that message.
abbrev finished_datagram : Bytes
finished_datagram =
    22 ∷ 254 ∷ 253 ∷ 0 ∷ 0 ∷ 0 ∷ 0 ∷ 0 ∷ 0 ∷ 0 ∷ 0 ∷ 0 ∷ 24 ∷ finished_message_of_server

abbrev waiting_peer : Peer
waiting_peer = record (peer_in wait_finished) { params0 = some security_new }

-- The messages that the datagram can carry: its parts, without the header of a record.
abbrev PartOf : Bytes → Type 0
PartOf d = (i n : ℕ) × (d ≡ drop 13 (take n (drop i finished_datagram)))

PartOf-Arrives : Arrives psk_host.set_key PartOf finished_datagram
PartOf-Arrives i n =
    (λ p d e. (i, n, decrypt_verify-no_key psk_host.set_key (λ key. refl) p _ d e), (i, n, refl))

waiting_queue : QueueHolds PartOf (order_of waiting_peer)
unfolding handshake_new
waiting_queue = tt

abbrev no_event : Session → ℕ → ℕ → Net → Net
no_event s level code w = w

abbrev no_read : Session → Bytes → Net → Net
no_read s d w = w

dtls_handle_message-Proved_example :
    AllLeft
      (λ (q : Peer).
        q.state ≡ connected
        → HadConnected psk_host stop_sending no_event no_read sample_session PartOf
            (waiting_peer ∷ [])
            q
          ⊎ Proved psk_host stop_sending no_event no_read sample_session PartOf
              (waiting_peer ∷ [])
              q)
      (dtls_handle_message psk_build
        (calls_of psk_host stop_sending)
        (services_of psk_host no_event no_read)
        psk_host.set_key
        (waiting_peer ∷ [])
        sample_session
        finished_datagram
        no_net)
dtls_handle_message-Proved_example =
    dtls_handle_message-Proved psk_host stop_sending no_event no_read sample_session PartOf
      (waiting_peer ∷ []) length-pad_hash (λ k. refl) 1 refl finished_datagram no_net PartOf-Arrives
      (waiting_queue, tt)
