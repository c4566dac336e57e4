-- ===== src/Retransmit/Tests.antt =====
-- A queue with messages for two peers.
use tinydtls.Base.{[], arith, length, none, ℕ, ◌*◌, ◌+◌, ◌∷◌, ◌≡◌, ◌≤◌}
use tinydtls.Retransmit.{Sender, dtls_stop_retransmission, dtls_check_retransmit}
use tinydtls.Retransmit.Loop.{IsLater, tries, dtls_check_retransmit_lem}
use tinydtls.Retransmit.Stop.{of_others, dtls_stop_retransmission_lem}
use tinydtls.Handshake.Quiet.{peer_in, sample_session}
use tinydtls.Peer.{clienthello}
use tinydtls.Netq.{Node}

abbrev message_at : ℕ → ℕ → Node
message_at a p = record {
  addr = a;
  t = 100 * a;
  timeout = 2000;
  peer = p;
  epoch = 0;
  content_type = 22;
  retransmit_cnt = a;
  bytes = 1 ∷ [];
}

abbrev sender : Sender
sender = record {
  peers = λ a. record (peer_in clienthello) { session = record sample_session { ifindex = a } };
  sendqueue = message_at 1 0 ∷ message_at 7 1 ∷ message_at 3 0 ∷ [];
  sent = [];
}

dtls_stop_retransmission_lem_example :
    (dtls_stop_retransmission (peer_in clienthello) sender).sendqueue
    ≡ of_others sender.peers sample_session sender.sendqueue
dtls_stop_retransmission_lem_example =
    dtls_stop_retransmission_lem (peer_in clienthello) sender (
      (λ e. omega (arith, e), (λ e. omega (arith, e), tt)),
      ((λ e. omega (arith, e), tt), (tt, tt)),
    )

dtls_check_retransmit_lem_example :
    IsLater 500 (dtls_check_retransmit (λ key. none) (λ k. 500 + k) sender).0.sendqueue
    × (length (dtls_check_retransmit (λ key. none) (λ k. 500 + k) sender).0.sent
          + tries (dtls_check_retransmit (λ key. none) (λ k. 500 + k) sender).0.sendqueue
        ≤ 10)
dtls_check_retransmit_lem_example = dtls_check_retransmit_lem (λ key. none) (λ k. 500 + k) sender
