-- ===== src/Endpoint/Keeps.antt =====
-- dtls.c: the same for everything that handle_handshake_msg calls.
use tinydtls.Endpoint.Unmoved.{
  and_then-Unmoved, kept, behind-update_hs_hash, behind-params_switch, on_params-Unmoved,
  send_parts-Unmoved, send_handshake_msg_hash-Unmoved, send_body-Unmoved, Unmoved, state_kept,
  order_kept,
}
use tinydtls.Base.{
  false, ◌==◌, length, ◌&&◌, inr, inl, if◌then◌else◌, not, true, Bool-cases, arith, Option, Bool,
  refl, ◌≡◌, ℕ, Bytes, some, none,
}
use tinydtls.Cookie.{Verdict, accept, send_hello_verify, dtls_verify_peer}
use tinydtls.Handshake.{ht_hello_verify_request, Step, update_hs_hash, cipher_of}
use tinydtls.Handshake.Order.{order_of}
use tinydtls.Handshake.States.{Keeps, KeepsState}
use tinydtls.Send.{Net, send_handshake_msg_hash, send_handshake_msg, dtls_send, dtls_send_ccs}
use tinydtls.Endpoint.{
  dtls_send_server_certificate_request, dtls_send_certificate_verify_ecdh, dtls_send_finished,
  dtls_send_server_hello_done, dtls_send_server_key_exchange_ecdh, dtls_send_certificate_ecdsa,
  dtls_send_client_hello, dtls_send_client_key_exchange, dtls_send_server_hello,
  dtls_send_server_key_exchange_psk, dtls_send_server_hello_msgs, send_key_messages, send_psk_hint,
  calculate_key_block, Host,
}
use tinydtls.Endpoint.Order.{
  server_hello-order, server_certificate-order, key_exchange_ecdsa-order, key_exchange_psk-order,
  certificate_request-order, parameters-order, client_hello-order, client_key_exchange-order,
  client_keyexchange-order, key_exchange_body-order, map-order, server_hello_body-order,
}
use tinydtls.Cipher.{is_ecdsa_client_auth_supported, is_ecdsa_cipher, is_tls_psk_with_aes_128_ccm_8}
use tinydtls.Endpoint.Answers.{
  check_server_hello_verify_request, check_server_hellodone, verify_peer, wants_auth, calls_of,
  finish_flight,
}
use tinydtls.Messages.HelloVerify.{verify_request_cookie}
use tinydtls.Alert.{fail, ok, Result, Result-cases}
use tinydtls.Peer.{params_next, Peer, Session, params_switch}
use tinydtls.KeyExchange

module _ (host : Host) where
  send_key_messages-Unmoved :
      (n : ℕ) (p : Peer) (w : Net) → Unmoved p (send_key_messages host n p w)
  unfolding send_key_messages dtls_send_certificate_ecdsa dtls_send_server_key_exchange_ecdh
      dtls_send_server_certificate_request
  send_key_messages-Unmoved n p w =
      let ecdsa = is_ecdsa_cipher host.context (cipher_of p) in
      elim (Bool-cases (not ecdsa)) [
        | inl other ↦ rw other (kept _ _ _)
        | inr chosen ↦ elim (Result-cases (host.get_ecdsa_key p.session)) [
          | inr (m, refused) ↦ rw (chosen, refused) (kept _ _ _)
          | inl (key, got) ↦
              rw (chosen, got)
                (and_then-Unmoved p _ _ (send_body-Unmoved host _ _ _ p w (λ h. refl)) (λ n q w.
                  and_then-Unmoved q _ _
                    (send_body-Unmoved host _ _ _ q w
                      (λ h. key_exchange_body-order host.ecc host.hash key h _ _))
                    (λ n r w.
                      request_lem
                        (is_ecdsa_cipher host.context (cipher_of r)
                          && is_ecdsa_client_auth_supported host.context)
                        r w)))
        ]
      ]
    where
      request_lem :
          (b : Bool) (r : Peer) (w : Net)
          → Unmoved r (if b then dtls_send_server_certificate_request host r w else (ok 0, (r, w)))
      request_lem true r w = send_body-Unmoved host _ _ _ r w (λ h. refl)
      request_lem false r w = kept (ok 0) r w

  send_psk_hint-Unmoved : (n : ℕ) (p : Peer) (w : Net) → Unmoved p (send_psk_hint host n p w)
  unfolding send_psk_hint dtls_send_server_key_exchange_psk
  send_psk_hint-Unmoved n p w =
      elim (Bool-cases (not (is_tls_psk_with_aes_128_ccm_8 host.context (cipher_of p)))) [
        | inl other ↦ rw other (kept _ _ _)
        | inr chosen ↦ elim (Result-cases (host.get_psk_hint p.session)) [
          | inr (m, refused) ↦ rw (chosen, refused) (kept _ _ _)
          | inl (hint, got) ↦ elim (Bool-cases (length hint == 0)) [
            | inl empty ↦ rw (chosen, got, empty) (kept _ _ _)
            | inr some_hint ↦
                rw (chosen, got, some_hint) (send_body-Unmoved host _ _ _ p w (λ h. refl))
          ]
        ]
      ]

  dtls_send_server_hello_msgs-Unmoved :
      (p : Peer) (w : Net) → Unmoved p (dtls_send_server_hello_msgs host p w)
  unfolding dtls_send_server_hello_msgs dtls_send_server_hello dtls_send_server_hello_done
      send_handshake_msg
  dtls_send_server_hello_msgs-Unmoved p w =
      and_then-Unmoved p _ _
        (send_body-Unmoved host _ _ _ p w (λ h. server_hello_body-order host.context h _ _))
        (λ n p w. and_then-Unmoved p _ _ (send_key_messages-Unmoved n p w) (λ n p w.
          and_then-Unmoved p _ _ (send_psk_hint-Unmoved n p w) (λ n p w.
            and_then-Unmoved p _ _ (send_handshake_msg_hash-Unmoved host p _ _ _ true w)
              (λ n p w. kept _ p w))))

  pub calculate_key_block-Unmoved : (p : Peer) (w : Net) → Unmoved p (calculate_key_block host p w)
  unfolding Unmoved calculate_key_block KeyExchange.calculate_key_block params_next
  calculate_key_block-Unmoved p w = ground arith

  finish_flight-Unmoved :
      (prove : Peer → Net → Step Net)
      → ((p : Peer) (w : Net) → Unmoved p (prove p w))
      → (p : Peer) (w : Net) → Unmoved p (finish_flight host prove p w)
  unfolding finish_flight dtls_send_client_key_exchange dtls_send_ccs dtls_send dtls_send_finished
  finish_flight-Unmoved prove proved p w =
      and_then-Unmoved p _ _
        (send_body-Unmoved host _ _ _ p w
          (λ h. client_key_exchange-order host.ecc host.context _ _ h))
        (λ n p w. and_then-Unmoved p _ _ (proved p w) (λ n p w.
          and_then-Unmoved p _ _ (calculate_key_block-Unmoved p w) (λ n p w.
            and_then-Unmoved p _ _ (send_parts-Unmoved host p _ _ _ w) (λ n p w.
              behind-params_switch p _
                (send_body-Unmoved host _ _ _ (params_switch p) w (λ h. refl))))))

  check_server_hellodone-Unmoved :
      (p : Peer) (d : Bytes) (w : Net) → Unmoved p (check_server_hellodone host p d w)
  unfolding check_server_hellodone update_hs_hash dtls_send_certificate_ecdsa
      dtls_send_certificate_verify_ecdh
  check_server_hellodone-Unmoved p d w =
      let q = update_hs_hash p d in
      behind-update_hs_hash p d _ (elim (Bool-cases (not (wants_auth host q))) [
        | inl plain ↦ rw plain (finish_flight-Unmoved _ (λ p w. kept _ p w) q w)
        | inr auth ↦ elim (Result-cases (host.get_ecdsa_key q.session)) [
          | inr (n, refused) ↦ rw (auth, refused) (kept (fail n) q w)
          | inl (key, got) ↦
              rw (auth, got)
                (and_then-Unmoved q _ _ (send_body-Unmoved host _ _ _ q w (λ h. refl)) (λ n p w.
                  finish_flight-Unmoved _
                    (λ p w. send_body-Unmoved host _ _ _ p w (λ h. map-order _ h _)) p w))
        ]
      ])

  check_server_hello_verify_request-Unmoved :
      (p : Peer) (d : Bytes) (w : Net) → Unmoved p (check_server_hello_verify_request host p d w)
  unfolding check_server_hello_verify_request dtls_send_client_hello
  check_server_hello_verify_request-Unmoved p d w = answer_lem (verify_request_cookie d)
    where
      answer_lem :
          (o : Option (Result Bytes))
          → Unmoved p (elim o [
            | none ↦ (host.beyond, (p, w))
            | some (fail n) ↦ (fail n, (p, w))
            | some (ok cookie) ↦ dtls_send_client_hello host cookie p w
          ])
      answer_lem none = kept host.beyond p w
      answer_lem (some (fail n)) = kept (fail n) p w
      answer_lem (some (ok cookie)) =
          send_body-Unmoved host _ _ _ p w (λ h. client_hello-order host.context h _ _ _)

  verify_peer-Unmoved :
      (p : Peer) (session : Session) (d : Bytes) (w : Net)
      → Unmoved p (verify_peer host p session d w)
  unfolding verify_peer
  verify_peer-Unmoved p session d w =
      answer_lem (dtls_verify_peer host.hash host.cookie_secret (host.address session) d)
    where
      answer_lem :
          (r : Option (Result Verdict))
          → Unmoved p (elim r [
            | none ↦ (host.beyond, (p, w))
            | some (fail n) ↦ (fail n, (p, w))
            | some (ok accept) ↦ (ok 0, (p, w))
            | some (ok (send_hello_verify body)) ↦
                send_handshake_msg_hash host.set_key host.env p session ht_hello_verify_request
                  (some body)
                  false
                  w
          ])
      answer_lem none = kept host.beyond p w
      answer_lem (some (fail n)) = kept (fail n) p w
      answer_lem (some (ok accept)) = kept (ok 0) p w
      answer_lem (some (ok (send_hello_verify body))) =
          send_handshake_msg_hash-Unmoved host p session ht_hello_verify_request (some body) false w

  -- What a step that leaves state, counter and queue cannot change, the checks and the sending functions
  -- do not change.
  pub calls_of-Keeps :
      {A : Type 0} (f : Peer → A) (read : (p : Peer) (s : Step Net) → Unmoved p s → f s.1.0 ≡ f p)
      (stop : Peer → Net → Net)
      → Keeps f (calls_of host stop)
  unfolding calls_of dtls_send_client_hello dtls_send_finished dtls_send_ccs dtls_send
  calls_of-Keeps f read stop = record {
    server_hello_verify_request =
        λ p d w. read p _ (check_server_hello_verify_request-Unmoved p d w);
    server_hello = λ p d w.
        read p _ (on_params-Unmoved host _ p w (λ h. server_hello-order host.context p.state h d));
    server_certificate =
        λ p d w. read p _ (on_params-Unmoved host _ p w (λ h. server_certificate-order _ h d));
    server_key_exchange_ecdsa = λ p d w.
        read p _
          (on_params-Unmoved host _ p w (λ h. key_exchange_ecdsa-order host.ecc host.hash h d));
    server_key_exchange_psk =
        λ p d w. read p _ (on_params-Unmoved host _ p w (λ h. key_exchange_psk-order h d));
    server_hellodone = λ p d w. read p _ (check_server_hellodone-Unmoved p d w);
    certificate_request =
        λ p d w. read p _ (on_params-Unmoved host _ p w (λ h. certificate_request-order h d));
    finished_message = λ p d w. read p _ (on_params-Unmoved host _ p w (λ h. refl));
    client_keyexchange =
        λ p d w. read p _ (on_params-Unmoved host _ p w (λ h. client_keyexchange-order host h d));
    client_certificate_verify =
        λ p d w. read p _ (on_params-Unmoved host _ p w (λ h. map-order _ h _));
    parameters = λ p d w.
        read p _
          (on_params-Unmoved host _ p w (λ h. parameters-order host.context p.state p.params0 h d));
    ccs = λ p w. read p _ (send_parts-Unmoved host p _ _ _ w);
    finished_sent = λ p w. read p _ (send_body-Unmoved host _ _ _ p w (λ h. refl));
    server_hello_msgs = λ p w. read p _ (dtls_send_server_hello_msgs-Unmoved p w);
    client_hello = λ p w.
        read p _ (send_body-Unmoved host _ _ _ p w (λ h. client_hello-order host.context h _ _ _));
    verified = λ p s d w. read p _ (verify_peer-Unmoved p s d w);
  }

  pub calls_of-KeepsState : (stop : Peer → Net → Net) → KeepsState (calls_of host stop)
  calls_of-KeepsState stop = calls_of-Keeps (λ p. p.state) state_kept stop

  pub calls_of-KeepsOrder : (stop : Peer → Net → Net) → Keeps order_of (calls_of host stop)
  calls_of-KeepsOrder stop = calls_of-Keeps order_of order_kept stop
