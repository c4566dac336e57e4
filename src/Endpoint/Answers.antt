-- ===== src/Endpoint/Answers.antt =====
-- dtls.c: the checks of messages on the handshake parameters of a peer, and the record Calls that
-- handle_handshake_msg is given.
use tinydtls.Base.{none, [], false, not, if◌then◌else◌, ◌+◌, some, ℕ, Bool, Option, Bytes}
use tinydtls.Crypto.{server}
use tinydtls.Handshake.{ht_hello_verify_request, update_hs_hash, Calls, Step}
use tinydtls.Send.{send_handshake_msg_hash, send_without_peer, dtls_send_ccs, Net}
use tinydtls.Cookie.{accept, send_hello_verify, dtls_verify_peer}
use tinydtls.Endpoint.{
  calculate_key_block, dtls_send_client_hello, dtls_send_server_hello_msgs,
  dtls_send_certificate_verify_ecdh, dtls_send_certificate_ecdsa, dtls_send_finished,
  dtls_send_client_key_exchange, Host, and_then, asked_once, on_params,
}
use tinydtls.Alert.{fail, ok, Result}
use tinydtls.Peer.{params_switch, Handshake, Peer, Session}
use tinydtls.Messages.HelloVerify.{verify_request_cookie}
use mathlib.Core.Option
use tinydtls.ClientHello.{dtls_update_parameters}
use tinydtls.Retransmit.{stop_loop}
use tinydtls.KeyExchange
use tinydtls.ServerHello
use tinydtls.Messages.ServerKeyExchange
use tinydtls.Messages.Certificate
use tinydtls.Messages.CertificateRequest
use tinydtls.Messages.CertificateVerify

-- dtls_stop_retransmission on the queue of the context; `peers` gives the peer at an address.
abbrev pub stop_on : (ℕ → Peer) → Peer → Net → Net
stop_on peers p w = record w { sendqueue = stop_loop peers p.session w.sendqueue w.sendqueue }

module _ (host : Host) where
  -- check_server_hello_verify_request
  unfoldable pub check_server_hello_verify_request : Peer → Bytes → Net → Step Net
  check_server_hello_verify_request p d w = elim (verify_request_cookie d) [
    | none ↦ (host.beyond, (p, w))
    | some (fail n) ↦ (fail n, (p, w))
    | some (ok cookie) ↦ dtls_send_client_hello host cookie p w
  ]

  -- The client's own certificate and its proof, where the server asked for them.
  abbrev pub wants_auth : Peer → Bool
  wants_auth p = elim p.handshake [ none ↦ false | some h ↦ h.do_client_auth ]

  -- check_server_hellodone behind the certificate: the ClientKeyExchange, the CertificateVerify,
  -- the key block, the ChangeCipherSpec, and under the new keys the Finished message
  unfoldable pub finish_flight : (Peer → Net → Step Net) → Peer → Net → Step Net
  finish_flight prove p w = and_then (dtls_send_client_key_exchange host p w) (λ err p w.
      and_then (prove p w) (λ err p w. and_then (calculate_key_block host p w) (λ err p w.
        and_then (dtls_send_ccs host.set_key host.env p w)
          (λ err p w. dtls_send_finished host (params_switch p) w))))

  -- check_server_hellodone
  unfoldable pub check_server_hellodone : Peer → Bytes → Net → Step Net
  check_server_hellodone p d w =
      let p = update_hs_hash p d in
      if not (wants_auth p)
      then finish_flight (λ p w. (ok 0, (p, w))) p w
      else elim (host.get_ecdsa_key p.session) [
        | fail n ↦ (fail n, (p, w))
        | ok key ↦
            and_then (dtls_send_certificate_ecdsa host key p w)
              (λ err p w. finish_flight (dtls_send_certificate_verify_ecdh host key) p w)
      ]

  -- check_client_keyexchange on the parameters of the peer
  abbrev pub client_keyexchange : Bytes → Handshake → Option (Result ℕ × Handshake)
  client_keyexchange d h = elim (KeyExchange.check_client_keyexchange host.context h d) [
    | fail n ↦ some (fail n, h)
    | ok h' ↦ some (ok 0, h')
  ]

  -- What dtls_verify_peer does with its verdict where there is no peer.
  unfoldable pub verify_session : Session → Bytes → Net → Result ℕ × Net
  verify_session session d w =
      elim (dtls_verify_peer host.hash host.cookie_secret (host.address session) d) [
        | none ↦ (host.beyond, w)
        | some (fail n) ↦ (fail n, w)
        | some (ok accept) ↦ (ok 0, w)
        | some (ok (send_hello_verify body)) ↦
            send_without_peer host.set_key host.env server session ht_hello_verify_request body w
      ]

  -- The same with a peer.
  unfoldable pub verify_peer : Peer → Session → Bytes → Net → Step Net
  verify_peer p session d w =
      elim (dtls_verify_peer host.hash host.cookie_secret (host.address session) d) [
        | none ↦ (host.beyond, (p, w))
        | some (fail n) ↦ (fail n, (p, w))
        | some (ok accept) ↦ (ok 0, (p, w))
        | some (ok (send_hello_verify body)) ↦
            send_handshake_msg_hash host.set_key host.env p session ht_hello_verify_request
              (some body) false w
      ]

  -- The functions that handle_handshake_msg calls. `stop` is dtls_stop_retransmission, stop_on
  -- of the peers.
  unfoldable pub calls_of : (Peer → Net → Net) → Calls Net
  calls_of stop = record {
    stop_retransmission = stop;
    check_server_hello_verify_request = check_server_hello_verify_request;
    check_server_hello =
        λ p d. on_params host (λ h. ServerHello.check_server_hello host.context p.state h d) p;
    check_server_certificate = λ p d.
        on_params host
          (λ h. Certificate.check_server_certificate (host.verify_ecdsa_key p.session) h d) p;
    check_server_key_exchange_ecdsa = λ p d.
        on_params host
          (λ h. ServerKeyExchange.check_server_key_exchange_ecdsa host.ecc host.hash h d) p;
    check_server_key_exchange_psk =
        λ p d. on_params host (λ h. some (ServerKeyExchange.check_server_key_exchange_psk h d)) p;
    check_server_hellodone = check_server_hellodone;
    check_certificate_request =
        λ p d. on_params host (λ h. CertificateRequest.check_certificate_request h d) p;
    check_finished = λ p d w.
        on_params host
          (λ h. some (
            KeyExchange.check_finished host.hash (host.found w.asked) (host.found (w.asked + 1)) h
                p.role d,
            h,
          ))
          p w;
    check_client_keyexchange = λ p d. on_params host (client_keyexchange d) p;
    check_client_certificate_verify = λ p d.
        on_params host
          (λ h.
            Option.map (λ (r : Result ℕ). (r, h))
              (CertificateVerify.check_client_certificate_verify host.ecc host.hash h d))
          p;
    update_parameters =
        λ p d. on_params host (λ h. dtls_update_parameters host.context p.state p.params0 h d) p;
    verify_session = verify_session;
    verify_peer = verify_peer;
    send_ccs = dtls_send_ccs host.set_key host.env;
    send_finished = dtls_send_finished host;
    send_server_hello_msgs = dtls_send_server_hello_msgs host;
    send_client_hello = dtls_send_client_hello host [];
    memory = λ w. (host.found w.asked, asked_once w);
  }
