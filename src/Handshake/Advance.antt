-- ===== src/Handshake/Advance.antt =====
-- Every branch of handle_handshake_msg against Handshake/Order.
use tinydtls.Handshake.Message.{
  go_on, on_server_hello, on_certificate, on_server_key_exchange, on_check, connect_peer,
  send_own_finished, answer_finished, on_finished, on_client_key_exchange, on_certificate_verify,
  with_handshake, send_hello, on_hello_request, wait_for_client, send_server_hello, negotiate,
  accept_client_hello, on_client_hello, on_message, handle_handshake_msg,
}
use tinydtls.Alert.{internal_error, alert_fatal_create}
use tinydtls.Handshake.Order.{
  order_after, Advance, Advance-created, freed, order_in, order_of, Advances, InOrder,
  stays-Advances, after-Advances, finish-Advances, update_hs_hash-order, clear_hs_hash-order,
  if-Advances,
}
use tinydtls.Base.{
  Bool-cases, [], inl, inr, refl, subst, ◌==◌, ◌||◌, Bool, Bytes, Option, if◌then◌else◌, ltb, none,
  not, some, ℕ, ◌∙◌, ◌≡◌,
}
use tinydtls.Peer.{
  handshake_new, wait_clientcertificate, wait_servercertificate, wait_changecipherspec,
  wait_serverhellodone, clienthello, connected, wait_certificateverify, wait_clientkeyexchange,
  wait_finished, wait_serverkeyexchange, State, state_eq, Session, Handshake, params_switch,
}
use tinydtls.Handshake.{
  ht_hello_request, ht_client_hello, ht_server_hello, ht_hello_verify_request, ht_certificate,
  ht_server_key_exchange, ht_certificate_request, ht_server_hello_done, ht_certificate_verify,
  ht_client_key_exchange, ht_finished, Peer, Step, after, cipher_of, enter, update_hs_hash,
  clear_hs_hash, finish, unexpected, fail, Outcome, Calls,
}
use tinydtls.Header.{msg_type, message_seq}
use tinydtls.Cipher.{Context, dtls_ecdsa, is_tls_psk_with_aes_128_ccm_8, is_ecdsa_cipher}
use tinydtls.Handshake.States.{Keeps}
use tinydtls.Crypto.{Role, client, server}
use tinydtls.Netq.{Queue}

module _ {W : Type 0} (ctx : Context) (calls : Calls W) (keeps : Keeps order_of calls)
    (before : Option (ℕ × Queue)) (state : State) (d : Bytes) where
  abbrev Good : Outcome W → Type 0
  Good o = Advances ctx calls keeps before o

  abbrev Here : Peer → Type 0
  Here p = InOrder ctx calls keeps before p

  -- A branch that is taken unless a test refuses the message.
  or_unexpected :
      (b : Bool) (o : Outcome W) (p : Peer) (w : W)
      → Here p
      → Good o
      → Good (if b then unexpected p w else o)
  unfolding unexpected
  or_unexpected b o p w e h =
      if-Advances ctx calls keeps before b _ _ (stays-Advances ctx calls keeps before _ p w e) h

  -- A branch that is taken in one state.
  in_state :
      (expected : State) (o : Outcome W) (p : Peer) (w : W)
      → Here p
      → Good o
      → Good (if not (state_eq state expected) then unexpected p w else o)
  in_state expected o p w e h = or_unexpected (not (state_eq state expected)) o p w e h

  -- A call, and then a finish.
  call-finish :
      (step : Step W) (next : Peer → Peer)
      → Here step.1.0
      → ((p : Peer) → Here p → Here (next p))
      → Good (after step (λ err p w. finish err (next p) w))
  call-finish step next e kept =
      after-Advances ctx calls keeps before step _ e
        (λ k p w e. finish-Advances ctx calls keeps before k (next p) w (kept p e))

  on_check-Advances :
      (expected : State) (check : Peer → Bytes → W → Step W) (next : Peer → Peer) (p : Peer) (w : W)
      → Here p
      → order_of (check p d w).1.0 ≡ order_of p
      → ((p : Peer) → Here p → Here (next p))
      → Good (on_check ctx calls state expected check next p d w)
  on_check-Advances expected check next p w e kept moved =
      in_state expected _ p w e (call-finish (check p d w) next (kept ∙ e) moved)

  on_server_hello-Advances :
      (p : Peer) (w : W) → Here p → Good (on_server_hello ctx calls state p d w)
  unfolding on_server_hello
  on_server_hello-Advances p w e =
      in_state clienthello _ p w e
        (call-finish (calls.check_server_hello p d w) _ (keeps.server_hello p d w ∙ e) (λ p e. e))

  on_certificate-Advances :
      (role : Role) (p : Peer) (w : W) → Here p → Good (on_certificate ctx calls role state p d w)
  unfolding on_certificate
  on_certificate-Advances client p w e =
      or_unexpected (not (dtls_ecdsa ctx) || not (state_eq state wait_servercertificate)) _ p w e (
        call-finish (calls.check_server_certificate p d w) (enter wait_serverkeyexchange)
          (keeps.server_certificate p d w ∙ e) (λ p e. e))
  on_certificate-Advances server p w e =
      or_unexpected (not (dtls_ecdsa ctx) || not (state_eq state wait_clientcertificate)) _ p w e (
        call-finish (calls.check_server_certificate p d w) (enter wait_clientkeyexchange)
          (keeps.server_certificate p d w ∙ e) (λ p e. e))

  on_server_key_exchange-Advances :
      (p : Peer) (w : W) → Here p → Good (on_server_key_exchange ctx calls state p d w)
  unfolding on_server_key_exchange
  on_server_key_exchange-Advances p w e =
      if-Advances ctx calls keeps before (is_ecdsa_cipher ctx (cipher_of p)) _ _
        (in_state wait_serverkeyexchange _ p w e (
          call-finish (calls.check_server_key_exchange_ecdsa p d w) (enter wait_serverhellodone)
            (keeps.server_key_exchange_ecdsa p d w ∙ e) (λ p e. e)))
        (if-Advances ctx calls keeps before (is_tls_psk_with_aes_128_ccm_8 ctx (cipher_of p)) _ _
          (in_state wait_serverhellodone _ p w e (
            call-finish (calls.check_server_key_exchange_psk p d w) (enter wait_serverhellodone)
              (keeps.server_key_exchange_psk p d w ∙ e) (λ p e. e)))
          (finish-Advances ctx calls keeps before 0 (enter wait_serverhellodone p) w e))

  on_finished-Advances :
      (role : Role) (p : Peer) (w : W) → Here p → Good (on_finished ctx calls role state p d w)
  unfolding on_finished params_switch
  on_finished-Advances client p w e = in_state wait_finished _ p w e (
      after-Advances ctx calls keeps before (calls.check_finished p d w) (connect_peer ctx calls)
        (keeps.finished_message p d w ∙ e) (λ k p w e. freed))
  on_finished-Advances server p w e = in_state wait_finished _ p w e (
      after-Advances ctx calls keeps before (calls.check_finished p d w)
        (answer_finished ctx calls d) (keeps.finished_message p d w ∙ e)
        (λ k p w e.
          after-Advances ctx calls keeps before (calls.send_ccs (update_hs_hash p d) w)
            (send_own_finished ctx calls)
            (keeps.ccs (update_hs_hash p d) w ∙ update_hs_hash-order ctx calls keeps before p d ∙ e)
            (λ k p w e.
              after-Advances ctx calls keeps before (calls.send_finished (params_switch p) w)
                (connect_peer ctx calls) (keeps.finished_sent (params_switch p) w ∙ e)
                (λ k p w e. freed))))

  on_client_key_exchange-Advances :
      (p : Peer) (w : W) → Here p → Good (on_client_key_exchange ctx calls state p d w)
  unfolding on_client_key_exchange
  on_client_key_exchange-Advances p w e =
      on_check-Advances wait_clientkeyexchange calls.check_client_keyexchange _ p w e
        (keeps.client_keyexchange p d w)
        (λ p e. update_hs_hash-order ctx calls keeps before p d ∙ e)

  on_certificate_verify-Advances :
      (p : Peer) (w : W) → Here p → Good (on_certificate_verify ctx calls state p d w)
  unfolding on_certificate_verify
  on_certificate_verify-Advances p w e = or_unexpected (not (dtls_ecdsa ctx)) _ p w e (
      on_check-Advances wait_certificateverify calls.check_client_certificate_verify _ p w e
        (keeps.client_certificate_verify p d w)
        (λ p e. update_hs_hash-order ctx calls keeps before p d ∙ e))

  pub negotiate-Advances : (p : Peer) (w : W) → Here p → Good (negotiate ctx calls d p w)
  negotiate-Advances p w e =
      after-Advances ctx calls keeps before (calls.update_parameters (clear_hs_hash p) d w)
        (λ err. send_server_hello ctx calls d)
        (keeps.parameters (clear_hs_hash p) d w ∙ clear_hs_hash-order ctx calls keeps before p ∙ e)
        (λ k p w e.
          after-Advances ctx calls keeps before
            (calls.send_server_hello_msgs (update_hs_hash p d) w) (wait_for_client ctx calls)
            (keeps.server_hello_msgs (update_hs_hash p d) w
              ∙ update_hs_hash-order ctx calls keeps before p d
              ∙ e)
            (λ k p w e. finish-Advances ctx calls keeps before k (enter _ p) w e))

  send_hello-Advances : (p : Peer) (w : W) → Here p → Good (send_hello ctx calls p w)
  send_hello-Advances p w e =
      call-finish (calls.send_client_hello p w) (enter clienthello) (keeps.client_hello p w ∙ e)
        (λ p e. e)

module _ {W : Type 0} (ctx : Context) (calls : Calls W) (keeps : Keeps order_of calls)
    (before : Option (ℕ × Queue)) (state : State) (d : Bytes) where
  abbrev Fine : Outcome W → Type 0
  Fine o = Advances ctx calls keeps before o

  from_created :
      (m : ℕ) (o : Outcome W) → none ≡ before → Advance (some (m, [])) o.0 (order_after o) → Fine o
  from_created m o e h =
      subst (λ (b : Option (ℕ × Queue)). Advance b o.0 (order_after o)) e (Advance-created h)

  -- Parameters that are there are kept, and new ones have an empty queue.
  pub with_handshake-Advances :
      (x : Option Handshake) (mseq_r mseq_s : ℕ) (p : Peer) (w : W) (rest : Peer → W → Outcome W)
      → order_in x ≡ before
      → order_of p ≡ before
      → ((start : Option (ℕ × Queue)) (p : Peer) (w : W)
          → order_of p ≡ start
          → Advances ctx calls keeps start (rest p w))
      → Fine (with_handshake ctx calls x mseq_r mseq_s p w rest)
  unfolding handshake_new
  with_handshake-Advances (some x) mseq_r mseq_s p w rest e here go_on = go_on before p w here
  with_handshake-Advances none mseq_r mseq_s p w rest e here go_on =
      elim (Bool-cases (calls.memory w).0) [
        | inl found ↦
            let h = record handshake_new { mseq_r = mseq_r; mseq_s = mseq_s } in
            let p' = record p { handshake = some h } in
            let w' = (calls.memory w).1 in
            rw found (from_created mseq_r (rest p' w') e (go_on (some (mseq_r, [])) p' w' refl))
        | inr lost ↦ rw lost (
            stays-Advances ctx calls keeps before (fail (alert_fatal_create internal_error)) p
              (calls.memory w).1 here)
      ]

  on_hello_request-Advances :
      (p : Peer) (w : W) → order_of p ≡ before → Fine (on_hello_request ctx calls state p w)
  unfolding on_hello_request
  on_hello_request-Advances p w e =
      if-Advances ctx calls keeps before (not (state_eq state connected)) _ _
        (stays-Advances ctx calls keeps before _ p w e)
        (with_handshake-Advances p.handshake 0 0 p w (send_hello ctx calls) e e
          (λ start p w e. send_hello-Advances ctx calls keeps start state d p w e))

  go_on-Advances : (k : ℕ) (p : Peer) (w : W) → order_of p ≡ before → Fine (go_on ctx calls d k p w)
  unfolding accept_client_hello
  go_on-Advances k p w e =
      if-Advances ctx calls keeps before (ltb 0 k) _ _
        (finish-Advances ctx calls keeps before k p w e)
        (with_handshake-Advances p.handshake (message_seq d) 1 p w (negotiate ctx calls d) e e
          (λ start p w e. negotiate-Advances ctx calls keeps start state d p w e))

  on_client_hello-Advances :
      (session : Session) (p : Peer) (w : W)
      → order_of p ≡ before
      → Fine (on_client_hello ctx calls (some p) session state d w)
  unfolding on_client_hello
  on_client_hello-Advances session p w e =
      in_state ctx calls keeps before state d connected _ p w e (
        after-Advances ctx calls keeps before (calls.verify_peer p session d w) (go_on ctx calls d)
          (keeps.verified p session d w ∙ e) go_on-Advances)

  branch : (k : ℕ) (o o' : Outcome W) → Fine o → Fine o' → Fine (if msg_type d == k then o else o')
  branch k o o' h h' = if-Advances ctx calls keeps before (msg_type d == k) o o' h h'

  -- handle_handshake_msg leaves the counter and the queue, frees them with the parameters, or moves the counter
  -- on by one for a message that it takes.
  pub handle_handshake_msg-Advance :
      (session : Session) (role : Role) (p : Peer) (w : W)
      → order_of p ≡ before
      → Fine (handle_handshake_msg ctx calls p session role state d w)
  unfolding handle_handshake_msg on_message unexpected
  handle_handshake_msg-Advance session role p w e =
      let w = calls.stop_retransmission p w in
      branch ht_hello_verify_request _ _
        (on_check-Advances ctx calls keeps before state d clienthello
          calls.check_server_hello_verify_request (λ p. p) p w e
          (keeps.server_hello_verify_request p d w) (λ p e. e))
        (branch ht_server_hello _ _ (on_server_hello-Advances ctx calls keeps before state d p w e)
          (branch ht_certificate _ _
            (on_certificate-Advances ctx calls keeps before state d role p w e)
            (branch ht_server_key_exchange _ _
              (on_server_key_exchange-Advances ctx calls keeps before state d p w e)
              (branch ht_server_hello_done _ _
                (on_check-Advances ctx calls keeps before state d wait_serverhellodone
                  calls.check_server_hellodone (enter wait_changecipherspec) p w e
                  (keeps.server_hellodone p d w) (λ p e. e))
                (branch ht_certificate_request _ _
                  (on_check-Advances ctx calls keeps before state d wait_serverhellodone
                    calls.check_certificate_request (λ p. p) p w e (keeps.certificate_request p d w)
                    (λ p e. e))
                  (branch ht_finished _ _
                    (on_finished-Advances ctx calls keeps before state d role p w e)
                    (branch ht_client_key_exchange _ _
                      (on_client_key_exchange-Advances ctx calls keeps before state d p w e)
                      (branch ht_certificate_verify _ _
                        (on_certificate_verify-Advances ctx calls keeps before state d p w e)
                        (branch ht_client_hello _ _ (on_client_hello-Advances session p w e) (
                          branch ht_hello_request _ _ (on_hello_request-Advances p w e)
                            (stays-Advances ctx calls keeps before _ p w e)))))))))))
