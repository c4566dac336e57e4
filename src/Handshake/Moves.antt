-- ===== src/Handshake/Moves.antt =====
-- handle_handshake_msg moves along the transitions of Handshake/States.
use tinydtls.Handshake.Message.{
  go_on, send_hello, wait_for_client, send_server_hello, negotiate, with_handshake,
  on_server_key_exchange, on_check, on_client_key_exchange, on_certificate_verify, on_hello_request,
  accept_client_hello, on_client_hello, on_server_hello,
}
use tinydtls.Handshake.States.{
  renegotiate, renegotiate_ecdsa, client_key_exchange, key_exchange_unchecked, certificate_verify,
  client_key_exchange_ecdsa, hello_request, key_exchange, server_hello_psk, server_hello_ecdsa,
  Move, stay, KeepsState, state_after, state_after-after,
}
use tinydtls.Base.{
  Option, ltb, none, refl, ◌&&◌, ◌∙◌, some, Bool-cases, Bytes, if◌then◌else◌, inl, inr, not, subst,
  sym, ℕ, ◌≡◌,
}
use tinydtls.Peer.{
  Handshake, Session, state_eq, State, Peer, wait_clientcertificate, wait_clientkeyexchange,
  wait_certificateverify, clienthello, wait_serverkeyexchange, wait_serverhellodone, connected,
}
use tinydtls.Handshake.{
  enter, update_hs_hash, clear_hs_hash, ok, Step, Outcome, Calls, after, cipher_of, finish,
  unexpected,
}
use tinydtls.Cipher.{
  dtls_ecdsa, is_tls_psk_with_aes_128_ccm_8, is_ecdsa_client_auth_supported, Context,
  is_ecdsa_cipher,
}
use tinydtls.Header.{message_seq, msg_type}
use tinydtls.Crypto.{Role}
use tinydtls.Peer.Codes.{state_eq_sound}

module _ {W : Type 0} (ctx : Context) (calls : Calls W) (keeps : KeepsState calls) (p : Peer)
    (role : Role) (d : Bytes) (w : W) where
  -- The outcome is that of a move from the peer's state.
  abbrev pub Moves : Outcome W → Type 0
  Moves o = Move ctx calls role p d w p.state (state_after p.state o)

  -- The state that a call leaves is the peer's.
  pub stays :
      (step : Step W) → step.1.0.state ≡ p.state → Move ctx calls role p d w p.state step.1.0.state
  stays step same = subst (λ (t : State). Move ctx calls role p d w p.state t) (sym same) stay

  -- A call, and then a finish with a peer in a given state.
  pub after-Moves :
      (step : Step W) (rest : ℕ → Peer → W → Outcome W)
      → step.1.0.state ≡ p.state
      → ((n : ℕ) → step.0 ≡ ok n → Moves (rest n step.1.0 step.1.1))
      → Moves (after step rest)
  after-Moves step rest same passed =
      state_after-after p.state (λ t. Move ctx calls role p d w p.state t) step rest
        (stays step same) passed

  -- A branch that is taken in one state.
  pub guarded :
      (expected : State) (o : Outcome W)
      → (p.state ≡ expected → Moves o)
      → Moves (if not (state_eq p.state expected) then unexpected p w else o)
  unfolding unexpected
  guarded expected o taken = elim (Bool-cases (state_eq p.state expected)) [
    | inl e ↦ rw e (taken (state_eq_sound p.state expected e))
    | inr e ↦ rw e stay
  ]

  -- A state that is given by an equation.
  pub from :
      (s t : State)
      → p.state ≡ s
      → Move ctx calls role p d w s t
      → Move ctx calls role p d w p.state t
  from s t e m = subst (λ (x : State). Move ctx calls role p d w x t) (sym e) m

  pub on_server_hello-Moves : msg_type d ≡ 2 → Moves (on_server_hello ctx calls p.state p d w)
  unfolding on_server_hello finish
  on_server_hello-Moves type = guarded clienthello _ (λ e.
      after-Moves (calls.check_server_hello p d w) _ (keeps.server_hello p d w) (λ n passed.
        elim (Bool-cases (is_ecdsa_cipher ctx (cipher_of (calls.check_server_hello p d w).1.0))) [
          | inl ecdsa ↦ rw ecdsa (from clienthello _ e (server_hello_ecdsa type))
          | inr psk ↦ rw psk (from clienthello _ e (server_hello_psk type))
        ]))

  pub on_server_key_exchange-Moves :
      msg_type d ≡ 12 → Moves (on_server_key_exchange ctx calls p.state p d w)
  unfolding on_server_key_exchange finish
  on_server_key_exchange-Moves type = elim (Bool-cases (is_ecdsa_cipher ctx (cipher_of p))) [
    | inl ecdsa ↦ rw ecdsa (
        guarded wait_serverkeyexchange _ (λ e.
          after-Moves (calls.check_server_key_exchange_ecdsa p d w) _
            (keeps.server_key_exchange_ecdsa p d w)
            (λ n passed. from wait_serverkeyexchange _ e (key_exchange type))))
    | inr other ↦ elim (Bool-cases (is_tls_psk_with_aes_128_ccm_8 ctx (cipher_of p))) [
      | inl psk ↦
          rw (other, psk)
            (guarded wait_serverhellodone _ (λ e.
              after-Moves (calls.check_server_key_exchange_psk p d w) _
                (keeps.server_key_exchange_psk p d w)
                (λ n passed. from wait_serverhellodone _ e stay)))
      | inr neither ↦ rw (other, neither) (key_exchange_unchecked type other neither)
    ]
  ]

  -- A branch with one check, and a next state.
  pub on_check-Moves :
      (expected : State) (check : Peer → Bytes → W → Step W) (next : Peer → Peer)
      → (check p d w).1.0.state ≡ p.state
      → (p.state ≡ expected → Move ctx calls role p d w p.state (next (check p d w).1.0).state)
      → Moves (on_check ctx calls p.state expected check next p d w)
  unfolding finish
  on_check-Moves expected check next keep move =
      guarded expected _ (λ e. after-Moves (check p d w) _ keep (λ n passed. move e))

  pub on_client_key_exchange-Moves :
      msg_type d ≡ 16 → Moves (on_client_key_exchange ctx calls p.state p d w)
  unfolding on_client_key_exchange
  on_client_key_exchange-Moves type =
      let ecdsa =
        is_ecdsa_cipher ctx (cipher_of (calls.check_client_keyexchange p d w).1.0)
        && is_ecdsa_client_auth_supported ctx in
      on_check-Moves wait_clientkeyexchange calls.check_client_keyexchange _
        (keeps.client_keyexchange p d w)
        (λ e. elim (Bool-cases ecdsa) [
          | inl auth ↦ rw auth (from wait_clientkeyexchange _ e (client_key_exchange_ecdsa type))
          | inr plain ↦ rw plain (from wait_clientkeyexchange _ e (client_key_exchange type))
        ])

  pub on_certificate_verify-Moves :
      msg_type d ≡ 15 → Moves (on_certificate_verify ctx calls p.state p d w)
  unfolding on_certificate_verify unexpected
  on_certificate_verify-Moves type = elim (Bool-cases (dtls_ecdsa ctx)) [
    | inl on ↦ rw on (
        on_check-Moves wait_certificateverify calls.check_client_certificate_verify _
          (keeps.client_certificate_verify p d w)
          (λ e. from wait_certificateverify _ e (certificate_verify type)))
    | inr off ↦ rw off stay
  ]

  -- New handshake parameters leave the state.
  with_handshake-Moves :
      (h : Option Handshake) (mseq_r mseq_s : ℕ) (q : Peer) (v : W) (rest : Peer → W → Outcome W)
      → q.state ≡ p.state
      → ((x : Peer) (u : W) → x.state ≡ p.state → Moves (rest x u))
      → Moves (with_handshake ctx calls h mseq_r mseq_s q v rest)
  with_handshake-Moves (some h) mseq_r mseq_s q v rest same go = go q v same
  with_handshake-Moves none mseq_r mseq_s q v rest same go = elim (Bool-cases (calls.memory v).0) [
    | inl found ↦ rw found (go _ _ same)
    | inr lost ↦ rw lost (stays (ok 0, (q, v)) same)
  ]

  send_hello-Moves :
      (x : Peer) (u : W)
      → msg_type d ≡ 0
      → p.state ≡ connected
      → x.state ≡ p.state
      → Moves (send_hello ctx calls x u)
  unfolding finish
  send_hello-Moves x u type e same =
      after-Moves (calls.send_client_hello x u) (λ err p w. finish err (enter clienthello p) w)
        (keeps.client_hello x u ∙ same)
        (λ n passed. from connected clienthello e (hello_request type))

  pub on_hello_request-Moves : msg_type d ≡ 0 → Moves (on_hello_request ctx calls p.state p w)
  unfolding on_hello_request
  on_hello_request-Moves type = elim (Bool-cases (state_eq p.state connected)) [
    | inl e ↦ rw e (
        with_handshake-Moves p.handshake 0 0 p w (send_hello ctx calls) refl
          (λ x u same. send_hello-Moves x u type (state_eq_sound p.state connected e) same))
    | inr e ↦ rw e stay
  ]

  wait_for_client-Moves :
      (err : ℕ) (x : Peer) (u : W)
      → msg_type d ≡ 1
      → p.state ≡ connected
      → Moves (wait_for_client ctx calls err x u)
  unfolding finish
  wait_for_client-Moves err x u type e =
      elim (Bool-cases (is_ecdsa_cipher ctx (cipher_of x) && is_ecdsa_client_auth_supported ctx)) [
        | inl auth ↦ rw auth (from connected wait_clientcertificate e (renegotiate_ecdsa type))
        | inr plain ↦ rw plain (from connected wait_clientkeyexchange e (renegotiate type))
      ]

  negotiate-Moves :
      (x : Peer) (u : W)
      → msg_type d ≡ 1
      → p.state ≡ connected
      → x.state ≡ p.state
      → Moves (negotiate ctx calls d x u)
  unfolding clear_hs_hash update_hs_hash
  negotiate-Moves x u type e same =
      let first = calls.update_parameters (clear_hs_hash x) d u in
      let updated = keeps.parameters (clear_hs_hash x) d u ∙ same in
      after-Moves first (λ err. send_server_hello ctx calls d) updated
        (λ n passed.
          let q = update_hs_hash first.1.0 d in
          let second = calls.send_server_hello_msgs q first.1.1 in
          after-Moves second (wait_for_client ctx calls)
            (keeps.server_hello_msgs q first.1.1 ∙ updated)
            (λ m passed. wait_for_client-Moves m second.1.0 second.1.1 type e))

  pub on_client_hello-Moves :
      (session : Session)
      → msg_type d ≡ 1
      → Moves (on_client_hello ctx calls (some p) session p.state d w)
  unfolding on_client_hello accept_client_hello finish
  on_client_hello-Moves session type = guarded connected _ (λ e.
      let called = calls.verify_peer p session d w in
      let same = keeps.verified p session d w in
      after-Moves called (go_on ctx calls d) same (λ n passed. elim (Bool-cases (ltb 0 n)) [
        | inl sent ↦ rw sent (stays called same)
        | inr valid ↦ rw valid (
            with_handshake-Moves called.1.0.handshake (message_seq d) 1 called.1.0 called.1.1
              (negotiate ctx calls d) same (λ x u same. negotiate-Moves x u type e same))
      ]))
