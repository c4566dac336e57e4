-- ===== src/Handshake/Reach.antt =====
-- Every call of handle_handshake_msg is a move of the state machine.
use tinydtls.Handshake.States.{
  hello_done, client_certificate, stay, server_certificate, Move, KeepsState, state_after,
  verified_finished,
}
use tinydtls.Base.{arith, if◌then◌else◌, ℕ, ◌==◌, ◌∙◌, Bool-cases, Bytes, inl, inr, refl, ◌≡◌}
use tinydtls.Handshake.{Outcome, Calls, enter, update_hs_hash, finish, unexpected}
use tinydtls.Handshake.Moves.{
  stays, on_server_hello-Moves, on_server_key_exchange-Moves, on_check-Moves,
  on_client_key_exchange-Moves, on_certificate_verify-Moves, on_hello_request-Moves,
  on_client_hello-Moves, from, after-Moves, guarded, Moves,
}
use tinydtls.Handshake.Message.{
  send_own_finished, answer_finished, on_certificate, connect_peer, on_finished, on_message,
  handle_handshake_msg,
}
use tinydtls.Crypto.{Role, client, server}
use tinydtls.Peer.{
  Session, params_switch, Peer, wait_clientcertificate, wait_clientkeyexchange,
  wait_changecipherspec, wait_finished, clienthello, wait_servercertificate, wait_serverkeyexchange,
  wait_serverhellodone, connected,
}
use tinydtls.Cipher.{Context, dtls_ecdsa}
use tinydtls.Header.{msg_type}

module _ {W : Type 0} (ctx : Context) (calls : Calls W) (keeps : KeepsState calls) (p : Peer)
    (d : Bytes) where
  on_certificate-Moves :
      (role : Role) (w : W)
      → msg_type d ≡ 11
      → Moves ctx calls keeps p role d w (on_certificate ctx calls role p.state p d w)
  unfolding on_certificate finish unexpected
  on_certificate-Moves client w type = elim (Bool-cases (dtls_ecdsa ctx)) [
    | inl on ↦ rw on (
        guarded ctx calls keeps p client d w wait_servercertificate _ (λ e.
          let step = calls.check_server_certificate p d w in
          after-Moves ctx calls keeps p client d w step
            (λ err p w. finish err (enter wait_serverkeyexchange p) w)
            (keeps.server_certificate p d w)
            (λ n passed.
              from ctx calls keeps p client d w wait_servercertificate _ e
                (server_certificate type refl))))
    | inr off ↦ rw off stay
  ]
  on_certificate-Moves server w type = elim (Bool-cases (dtls_ecdsa ctx)) [
    | inl on ↦ rw on (
        guarded ctx calls keeps p server d w wait_clientcertificate _ (λ e.
          let step = calls.check_server_certificate p d w in
          after-Moves ctx calls keeps p server d w step
            (λ err p w. finish err (enter wait_clientkeyexchange p) w)
            (keeps.server_certificate p d w)
            (λ n passed.
              from ctx calls keeps p server d w wait_clientcertificate _ e
                (client_certificate type refl))))
    | inr off ↦ rw off stay
  ]

  on_finished-Moves :
      (role : Role) (w : W)
      → msg_type d ≡ 20
      → Moves ctx calls keeps p role d w (on_finished ctx calls role p.state p d w)
  unfolding on_finished params_switch update_hs_hash
  on_finished-Moves client w type = guarded ctx calls keeps p client d w wait_finished _ (λ e.
      after-Moves ctx calls keeps p client d w (calls.check_finished p d w) (connect_peer ctx calls)
        (keeps.finished_message p d w)
        (λ n passed.
          from ctx calls keeps p client d w wait_finished connected e
            (verified_finished type passed)))
  on_finished-Moves server w type = guarded ctx calls keeps p server d w wait_finished _ (λ e.
      let first = calls.check_finished p d w in
      after-Moves ctx calls keeps p server d w first (answer_finished ctx calls d)
        (keeps.finished_message p d w)
        (λ n passed.
          let second = calls.send_ccs (update_hs_hash first.1.0 d) first.1.1 in
          let sent =
            keeps.ccs (update_hs_hash first.1.0 d) first.1.1 ∙ keeps.finished_message p d w in
          after-Moves ctx calls keeps p server d w second (send_own_finished ctx calls) sent
            (λ m went.
              let third = calls.send_finished (params_switch second.1.0) second.1.1 in
              after-Moves ctx calls keeps p server d w third (connect_peer ctx calls)
                (keeps.finished_sent (params_switch second.1.0) second.1.1 ∙ sent)
                (λ k done.
                  from ctx calls keeps p server d w wait_finished connected e
                    (verified_finished type passed)))))

  -- One branch of the switch.
  branch :
      (role : Role) (w : W) (n : ℕ) (a b : Outcome W)
      → (msg_type d ≡ n → Moves ctx calls keeps p role d w a)
      → Moves ctx calls keeps p role d w b
      → Moves ctx calls keeps p role d w (if msg_type d == n then a else b)
  branch role w n a b hit miss = elim (Bool-cases (msg_type d == n)) [
    | inl e ↦ rw e (hit (ground arith))
    | inr e ↦ rw e miss
  ]

  on_message-Moves :
      (session : Session) (role : Role) (w : W)
      → Moves ctx calls keeps p role d w (on_message ctx calls p session role p.state d w)
  unfolding on_message unexpected
  on_message-Moves session role w =
      branch role w 3 _ _
        (λ t.
          on_check-Moves ctx calls keeps p role d w clienthello
            calls.check_server_hello_verify_request (λ p. p)
            (keeps.server_hello_verify_request p d w)
            (λ e.
              stays ctx calls keeps p role d w (calls.check_server_hello_verify_request p d w)
                (keeps.server_hello_verify_request p d w)))
        (branch role w 2 _ _ (on_server_hello-Moves ctx calls keeps p role d w) (
          branch role w 11 _ _ (on_certificate-Moves role w) (
            branch role w 12 _ _ (on_server_key_exchange-Moves ctx calls keeps p role d w) (
              branch role w 14 _ _
                (λ t.
                  on_check-Moves ctx calls keeps p role d w wait_serverhellodone
                    calls.check_server_hellodone (enter wait_changecipherspec)
                    (keeps.server_hellodone p d w)
                    (λ e. from ctx calls keeps p role d w wait_serverhellodone _ e (hello_done t)))
                (branch role w 13 _ _
                  (λ t.
                    on_check-Moves ctx calls keeps p role d w wait_serverhellodone
                      calls.check_certificate_request (λ p. p) (keeps.certificate_request p d w)
                      (λ e.
                        stays ctx calls keeps p role d w (calls.check_certificate_request p d w)
                          (keeps.certificate_request p d w)))
                  (branch role w 20 _ _ (on_finished-Moves role w) (
                    branch role w 16 _ _ (on_client_key_exchange-Moves ctx calls keeps p role d w) (
                      branch role w 15 _ _ (on_certificate_verify-Moves ctx calls keeps p role d w)
                        (branch role w 1 _ _
                          (on_client_hello-Moves ctx calls keeps p role d w session)
                          (branch role w 0 _ _ (on_hello_request-Moves ctx calls keeps p role d w)
                            stay))))))))))

  -- A call of handle_handshake_msg in the state of the peer either leaves that state or makes one of
  -- the moves of Handshake/States, for checks and sending functions that do not assign the state.
  -- In particular the state becomes DTLS_STATE_CONNECTED only from DTLS_STATE_WAIT_FINISHED, on a
  -- Finished message that check_finished has accepted.
  pub handle_handshake_msg-Move :
      (session : Session) (role : Role) (w : W)
      → Move ctx calls role p d
          (calls.stop_retransmission p w)
          p.state
          (state_after p.state (handle_handshake_msg ctx calls p session role p.state d w))
  unfolding handle_handshake_msg
  handle_handshake_msg-Move session role w =
      on_message-Moves session role (calls.stop_retransmission p w)
