-- ===== src/Dispatch/Tests.antt =====
-- A datagram with a Finished message for a peer that waits for it, and one with a ClientHello.
use tinydtls.Dispatch.{wait_finished, Peer, Services}
use tinydtls.Peer.{security_new}
use tinydtls.Base.{Bytes, Option, [], arith, none, refl, some, ℕ, ◌+◌, ◌∷◌, ◌≡◌}
use tinydtls.Dispatch.Records.{record_loop, dtls_handle_message}
use tinydtls.Dispatch.Invariant.{AllLeft}
use tinydtls.Dispatch.Loop.{Arrives, record_loop-rounds}
use tinydtls.Dispatch.Secure.{ServicesKeep}
use tinydtls.Dispatch.Invited.{Invited, dtls_handle_message-Invited}
use tinydtls.Handshake.Quiet.{quiet, quiet-Keeps, psk_build, sample_session, peer_in, message}
use tinydtls.Handshake.Order.{order_of}
use tinydtls.Alert.{ok}

abbrev silent : Services ℕ
silent = record {
  send_alert = λ p level desc w. (p, w);
  key_block = λ p w. (ok 0, (p, w));
  event = λ s level desc w. w + 100;
  read = λ s d w. w + 1000;
  malloc = λ w. (some w, w + 1);
  address = λ p. 7;
}

silent-Keeps : {A : Type 0} (f : Peer → A) → ServicesKeep f silent
silent-Keeps f = record { alert_kept = λ p level desc w. refl; key_block_kept = λ p w. refl }

abbrev no_cipher : Bytes → Option (Bytes → Bytes)
no_cipher key = none

abbrev waiting_peer : Peer
waiting_peer = record (peer_in wait_finished) { params0 = some security_new }

-- A record of epoch 0 with a handshake message.
abbrev handshake_record : ℕ → Bytes
handshake_record type = 22 ∷ 254 ∷ 253 ∷ 0 ∷ 0 ∷ 0 ∷ 0 ∷ 0 ∷ 0 ∷ 0 ∷ 0 ∷ 0 ∷ 12 ∷ message type

-- Any message will do.
abbrev Any : Bytes → Type 0
Any d = Unit

Any-Arrives : (msg : Bytes) → Arrives no_cipher Any msg
Any-Arrives msg i n = (λ p d e. tt, tt)

dtls_handle_message-Invited_example :
    AllLeft
      (λ _.
        Invited psk_build quiet silent no_cipher sample_session Any
          (quiet-Keeps order_of)
          (silent-Keeps order_of))
      (dtls_handle_message psk_build quiet silent no_cipher [] sample_session
        (handshake_record 1)
        5)
dtls_handle_message-Invited_example =
    dtls_handle_message-Invited psk_build quiet silent no_cipher sample_session Any
      (quiet-Keeps order_of) (silent-Keeps order_of) (handshake_record 1) 5
      (Any-Arrives (handshake_record 1))

record_loop-rounds_example :
    record_loop psk_build quiet silent no_cipher 26
      (some waiting_peer)
      []
      sample_session
      (handshake_record 20)
      5
    ≡ record_loop psk_build quiet silent no_cipher 40
        (some waiting_peer)
        []
        sample_session
        (handshake_record 20)
        5
record_loop-rounds_example =
    record_loop-rounds psk_build quiet silent no_cipher sample_session 26 40 (some waiting_peer) []
      (handshake_record 20) 5 (omega arith) (omega arith)
