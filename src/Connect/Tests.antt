-- ===== src/Connect/Tests.antt =====
-- A client with a pre-shared key that starts a session.
use tinydtls.Base.{[], drop, length, refl, ◌-◌, ◌∷◌, ◌≡◌, ℕ}
use tinydtls.Alert.{ok}
use tinydtls.Crypto.{client}
use tinydtls.Peer.{Peer, Session, clienthello}
use tinydtls.Header.{is_record}
use tinydtls.Cookie.{dtls_get_cookie}
use tinydtls.Handshake.Quiet.{sample_session}
use tinydtls.Send.{Net}
use tinydtls.Endpoint.Quiet.{psk_host, no_net}
use tinydtls.Connect.{dtls_connect}
use tinydtls.Connect.Sends.{hello_datagram, dtls_connect-hello_datagram}

abbrev no_event : Session → ℕ → Net → Net
no_event session event w = w

dtls_connect-hello_datagram_example :
    let out = dtls_connect psk_host no_event sample_session [] no_net in
    let datagram = hello_datagram psk_host 4 in
    (out.0 ≡ ok (length datagram - 13))
    × ((p : Peer) × ((out.1.0 ≡ p ∷ []) × ((p.state ≡ clienthello) × (p.role ≡ client))))
    × (out.1.1.sent ≡ (sample_session, datagram) ∷ [])
    × (is_record datagram ≡ length datagram)
    × (dtls_get_cookie (drop 13 datagram) ≡ ok [])
dtls_connect-hello_datagram_example =
    dtls_connect-hello_datagram psk_host no_event (λ s k w. refl) (λ k. refl) sample_session no_net
      (λ k b. refl) refl
