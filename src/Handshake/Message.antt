-- ===== src/Handshake/Message.antt =====
-- dtls.c: handle_handshake_msg, one function for each branch of its switch.
use tinydtls.Peer.{
  Handshake, wait_changecipherspec, wait_serverhellodone, clienthello, wait_certificateverify,
  wait_clientcertificate, wait_clienthello, wait_clientkeyexchange, wait_servercertificate,
  wait_serverkeyexchange, State, state_eq, Session, handshake_new, new_peer, params_switch,
  connected, wait_finished,
}
use tinydtls.Base.{ltb, Bytes, Option, if◌then◌else◌, none, not, some, ℕ, ◌&&◌, ◌==◌, ◌||◌}
use tinydtls.Alert.{fail, ok, unexpected_message, internal_error, alert_fatal_create}
use tinydtls.Handshake.{
  Step, Peer, ht_hello_request, ht_client_hello, ht_server_hello, ht_hello_verify_request,
  ht_certificate, ht_server_key_exchange, ht_certificate_request, ht_server_hello_done,
  ht_certificate_verify, ht_client_key_exchange, ht_finished, Outcome, Calls, after, cipher_of,
  enter, update_hs_hash, clear_hs_hash, finish, unexpected,
}
use tinydtls.Crypto.{Role, client, server}
use tinydtls.Cipher.{
  Context, dtls_ecdsa, is_tls_psk_with_aes_128_ccm_8, is_ecdsa_client_auth_supported,
  is_ecdsa_cipher,
}
use tinydtls.Header.{Security, msg_type, message_seq}
use mathlib.Core.Option

module _ {W : Type 0} (ctx : Context) (calls : Calls W) where
  -- case DTLS_HT_SERVER_HELLO
  unfoldable pub on_server_hello : State → Peer → Bytes → W → Outcome W
  on_server_hello state p d w =
      if not (state_eq state clienthello)
      then unexpected p w
      else after (calls.check_server_hello p d w) (λ err p w.
        finish err
          (enter
            (if is_ecdsa_cipher ctx (cipher_of p)
              then wait_servercertificate
              else wait_serverhellodone)
            p)
          w)

  -- case DTLS_HT_CERTIFICATE, which is compiled in with DTLS_ECDSA
  unfoldable pub on_certificate : Role → State → Peer → Bytes → W → Outcome W
  on_certificate client state p d w =
      if not (dtls_ecdsa ctx) || not (state_eq state wait_servercertificate)
      then unexpected p w
      else after (calls.check_server_certificate p d w)
          (λ err p w. finish err (enter wait_serverkeyexchange p) w)
  on_certificate server state p d w =
      if not (dtls_ecdsa ctx) || not (state_eq state wait_clientcertificate)
      then unexpected p w
      else after (calls.check_server_certificate p d w)
          (λ err p w. finish err (enter wait_clientkeyexchange p) w)

  -- case DTLS_HT_SERVER_KEY_EXCHANGE. The two tests read the cipher one after the other; the first check
  -- does not change it, and no cipher is of both kinds. A cipher of neither kind passes both.
  unfoldable pub on_server_key_exchange : State → Peer → Bytes → W → Outcome W
  on_server_key_exchange state p d w =
      if is_ecdsa_cipher ctx (cipher_of p)
      then (if not (state_eq state wait_serverkeyexchange)
          then unexpected p w
          else after (calls.check_server_key_exchange_ecdsa p d w)
              (λ err p w. finish err (enter wait_serverhellodone p) w))
      else if is_tls_psk_with_aes_128_ccm_8 ctx (cipher_of p)
      then (if not (state_eq state wait_serverhellodone)
          then unexpected p w
          else after (calls.check_server_key_exchange_psk p d w)
              (λ err p w. finish err (enter wait_serverhellodone p) w))
      else finish 0 (enter wait_serverhellodone p) w

  -- A branch with one expected state, one check and the next state.
  abbrev pub on_check :
      State → State → (Peer → Bytes → W → Step W) → (Peer → Peer) → Peer → Bytes → W → Outcome W
  on_check state expected check next p d w =
      if not (state_eq state expected)
      then unexpected p w
      else after (check p d w) (λ err p w. finish err (next p) w)

  -- The last lines of case DTLS_HT_FINISHED, without the receive counter.
  abbrev pub connect_peer : ℕ → Peer → W → Outcome W
  connect_peer err p w = (ok err, (some (record p { handshake = none; state = connected }), w))

  -- The server's answer to a Finished message.
  abbrev pub send_own_finished : ℕ → Peer → W → Outcome W
  send_own_finished err p w = after (calls.send_finished (params_switch p) w) connect_peer

  abbrev pub answer_finished : Bytes → ℕ → Peer → W → Outcome W
  answer_finished d err p w = after (calls.send_ccs (update_hs_hash p d) w) send_own_finished

  -- case DTLS_HT_FINISHED
  unfoldable pub on_finished : Role → State → Peer → Bytes → W → Outcome W
  on_finished role state p d w =
      let rest : ℕ → Peer → W → Outcome W = elim role [
        | client ↦ connect_peer
        | server ↦ answer_finished d
      ] in
      if not (state_eq state wait_finished)
      then unexpected p w
      else after (calls.check_finished p d w) rest

  -- case DTLS_HT_CLIENT_KEY_EXCHANGE
  unfoldable pub on_client_key_exchange : State → Peer → Bytes → W → Outcome W
  on_client_key_exchange state p d w =
      on_check state wait_clientkeyexchange calls.check_client_keyexchange
        (λ p.
          enter
            (if is_ecdsa_cipher ctx (cipher_of p) && is_ecdsa_client_auth_supported ctx
              then wait_certificateverify
              else wait_changecipherspec)
            (update_hs_hash p d))
        p d w

  -- case DTLS_HT_CERTIFICATE_VERIFY, which is compiled in with DTLS_ECDSA
  unfoldable pub on_certificate_verify : State → Peer → Bytes → W → Outcome W
  on_certificate_verify state p d w =
      if not (dtls_ecdsa ctx)
      then unexpected p w
      else on_check state wait_certificateverify calls.check_client_certificate_verify
          (λ p. enter wait_changecipherspec (update_hs_hash p d)) p d w

  -- A new set of handshake parameters, where the peer has none; then the rest of the code.
  abbrev pub with_handshake :
      Option Handshake → ℕ → ℕ → Peer → W → (Peer → W → Outcome W) → Outcome W
  with_handshake (some h) mseq_r mseq_s p w rest = rest p w
  with_handshake none mseq_r mseq_s p w rest =
      let (found, w) = calls.memory w in
      let h = record handshake_new { mseq_r = mseq_r; mseq_s = mseq_s } in
      if not found
      then (fail (alert_fatal_create internal_error), (some p, w))
      else rest (record p { handshake = some h }) w

  -- case DTLS_HT_HELLO_REQUEST
  abbrev pub send_hello : Peer → W → Outcome W
  send_hello p w =
      after (calls.send_client_hello p w) (λ err p w. finish err (enter clienthello p) w)

  unfoldable pub on_hello_request : State → Peer → W → Outcome W
  on_hello_request state p w =
      if not (state_eq state connected)
      then (ok 0, (some p, w))
      else with_handshake p.handshake 0 0 p w send_hello

  -- case DTLS_HT_CLIENT_HELLO, once the cookie was accepted and there is a peer
  abbrev pub wait_for_client : ℕ → Peer → W → Outcome W
  wait_for_client err p w =
      let client_auth = is_ecdsa_cipher ctx (cipher_of p) && is_ecdsa_client_auth_supported ctx in
      finish err (enter (if client_auth then wait_clientcertificate else wait_clientkeyexchange) p)
        w

  abbrev pub send_server_hello : Bytes → Peer → W → Outcome W
  send_server_hello d p w =
      after (calls.send_server_hello_msgs (update_hs_hash p d) w) wait_for_client

  abbrev pub negotiate : Bytes → Peer → W → Outcome W
  negotiate d p w =
      after (calls.update_parameters (clear_hs_hash p) d w) (λ err. send_server_hello d)

  unfoldable pub accept_client_hello : Peer → Bytes → W → Outcome W
  accept_client_hello p d w = with_handshake p.handshake (message_seq d) 1 p w (negotiate d)

  -- dtls_new_peer, the role and the record sequence number of a new peer
  unfoldable pub server_peer : Session → W → Option Peer × W
  server_peer session w =
      let (peer_ok, w) = calls.memory w in
      let (sec0_ok, w) = calls.memory w in
      let (sec1_ok, w) = calls.memory w in
      (
        Option.map
            (λ (p : Peer). record p {
              role = server;
              params0 = Option.map (λ (s : Security). record s { rseq = 1 }) p.params0;
            })
            (new_peer peer_ok sec0_ok sec1_ok session),
        w,
      )

  -- What follows dtls_verify_peer: if (err > 0) no valid cookie was found
  abbrev pub go_on : Bytes → ℕ → Peer → W → Outcome W
  go_on d err p w = if ltb 0 err then finish err p w else accept_client_hello p d w

  -- case DTLS_HT_CLIENT_HELLO
  unfoldable pub on_client_hello : Option Peer → Session → State → Bytes → W → Outcome W
  on_client_hello none session state d w =
      if not (state_eq state wait_clienthello)
      then (fail (alert_fatal_create unexpected_message), (none, w))
      else (let (verdict, w) = calls.verify_session session d w in
          elim verdict [
            | fail n ↦ (fail n, (none, w))
            | ok n ↦
                if ltb 0 n
                then (ok n, (none, w))
                else (let (made, w) = server_peer session w in
                    elim made [
                      | none ↦ (fail (alert_fatal_create internal_error), (none, w))
                      | some p ↦ accept_client_hello p d w
                    ])
          ])
  on_client_hello (some p) session state d w =
      if not (state_eq state connected)
      then unexpected p w
      else after (calls.verify_peer p session d w) (go_on d)

  -- The switch over data[0], with a peer.
  unfoldable pub on_message : Peer → Session → Role → State → Bytes → W → Outcome W
  on_message p session role state d w =
      let type = msg_type d in
      if type == ht_hello_verify_request
      then on_check state clienthello calls.check_server_hello_verify_request (λ p. p) p d w
      else if type == ht_server_hello
      then on_server_hello state p d w
      else if type == ht_certificate
      then on_certificate role state p d w
      else if type == ht_server_key_exchange
      then on_server_key_exchange state p d w
      else if type == ht_server_hello_done
      then on_check state wait_serverhellodone calls.check_server_hellodone
          (enter wait_changecipherspec) p d w
      else if type == ht_certificate_request
      then on_check state wait_serverhellodone calls.check_certificate_request (λ p. p) p d w
      else if type == ht_finished
      then on_finished role state p d w
      else if type == ht_client_key_exchange
      then on_client_key_exchange state p d w
      else if type == ht_certificate_verify
      then on_certificate_verify state p d w
      else if type == ht_client_hello
      then on_client_hello (some p) session state d w
      else if type == ht_hello_request
      then on_hello_request state p w
      else unexpected p w

  -- handle_handshake_msg with a peer; without one, handle_handshake lets only a ClientHello through, which
  -- is on_client_hello.
  unfoldable pub handle_handshake_msg : Peer → Session → Role → State → Bytes → W → Outcome W
  unfolding on_message
  handle_handshake_msg p session role state d w =
      on_message p session role state d (calls.stop_retransmission p w)
