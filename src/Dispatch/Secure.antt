-- ===== src/Dispatch/Secure.antt =====
-- What the invariant of Dispatch/Invariant says about connected peers, and about new ones.
use tinydtls.Alert.{ok, Result, Result-cases}
use tinydtls.Base.{
  arith, Bool, Bool-cases, Option, Option-cases, ap, false, if◌then◌else◌, inl, inr, ltb, none, not,
  sym, true, ◌∙◌, Bytes, some, ℕ, ◌≡◌, ◌≢◌,
}
use tinydtls.Handshake.{Outcome, update_hs_hash, clear_hs_hash, finish, Calls}
use tinydtls.Handshake.Advance.{negotiate-Advances, with_handshake-Advances}
use tinydtls.Peer.{
  wait_clientkeyexchange, wait_clientcertificate, wait_clienthello, state_eq, Handshake, connected,
  State, Session, new_peer, init,
}
use tinydtls.Header.{Security, message_seq}
use tinydtls.Handshake.Message.{
  with_handshake, wait_for_client, send_server_hello, negotiate, on_client_hello,
  accept_client_hello, server_peer,
}
use tinydtls.Handshake.Order.{freed, Advance, order_of, order_after, order_in}
use tinydtls.Handshake.States.{Keeps, state_after-after, state_after, KeepsState}
use tinydtls.Dispatch.{Peer, Services}
use tinydtls.Cipher.{Context}
use tinydtls.Crypto.{server}
use mathlib.Core.Option

-- dtls_send_alert and calculate_key_block leave what `f` reads of the peer.
pub record ServicesKeep {A : Type 0} (f : Peer → A) {W : Type 0} (services : Services W)
    : Type 0 where
  pub alert_kept :
      (p : Peer) (level desc : ℕ) (w : W) → f (services.send_alert p level desc w).0 ≡ f p
  pub key_block_kept : (p : Peer) (w : W) → f (services.key_block p w).1.0 ≡ f p

module _ {W : Type 0} (ctx : Context) (calls : Calls W) where
  server_peer_lem :
      (session : Session) (w : W) (p : Peer)
      → (server_peer ctx calls session w).0 ≡ some p
      → (p.state ≡ init) × (p.handshake ≡ none)
  unfolding server_peer new_peer
  server_peer_lem session w p e =
      state_of ((calls.memory w).0) ((calls.memory (calls.memory w).1).0)
        ((calls.memory (calls.memory (calls.memory w).1).1).0) e
    where
      made : Bool → Bool → Bool → Option Peer
      made a b c =
          Option.map
            (λ (p : Peer). record p {
              role = server;
              params0 = Option.map (λ (s : Security). record s { rseq = 1 }) p.params0;
            })
            (new_peer a b c session)

      state_of : (a b c : Bool) → made a b c ≡ some p → (p.state ≡ init) × (p.handshake ≡ none)
      state_of true true true e = (
        ap (λ (o : Option Peer). elim o [ none ↦ init | some x ↦ x.state ]) (sym e),
        ap (λ (o : Option Peer). elim o [ none ↦ none | some x ↦ x.handshake ]) (sym e),
      )
      state_of true true false e = absurd (cc e)
      state_of true false c e = absurd (cc e)
      state_of false b c e = absurd (cc e)

  waits-NotConnected :
      (b : Bool) → (if b then wait_clientcertificate else wait_clientkeyexchange) ≢ connected
  waits-NotConnected true e = absurd (cc e)
  waits-NotConnected false e = absurd (cc e)

  init-NotConnected : (p : Peer) → p.state ≡ init → p.state ≢ connected
  init-NotConnected p e f = absurd (cc (e, f))

  negotiate-NotConnected :
      (keeps : KeepsState calls) (p : Peer) (d : Bytes) (w : W)
      → p.state ≡ init
      → state_after init (negotiate ctx calls d p w) ≢ connected
  unfolding clear_hs_hash update_hs_hash finish
  negotiate-NotConnected keeps p d w e =
      let first = calls.update_parameters (clear_hs_hash p) d w in
      let updated = keeps.parameters (clear_hs_hash p) d w ∙ e in
      state_after-after init (λ s. s ≢ connected) first (λ err. send_server_hello ctx calls d)
        (init-NotConnected first.1.0 updated)
        (λ n passed.
          let q = update_hs_hash first.1.0 d in
          let second = calls.send_server_hello_msgs q first.1.1 in
          state_after-after init (λ s. s ≢ connected) second (wait_for_client ctx calls)
            (init-NotConnected second.1.0 (keeps.server_hello_msgs q first.1.1 ∙ updated))
            (λ m sent. waits-NotConnected _))

  with_handshake-NotConnected :
      (keeps : KeepsState calls) (o : Option Handshake) (mseq_r mseq_s : ℕ) (p : Peer) (d : Bytes)
      (w : W)
      → p.state ≡ init
      → state_after init (with_handshake ctx calls o mseq_r mseq_s p w (negotiate ctx calls d))
        ≢ connected
  with_handshake-NotConnected keeps (some h) mseq_r mseq_s p d w e =
      negotiate-NotConnected keeps p d w e
  with_handshake-NotConnected keeps none mseq_r mseq_s p d w e =
      elim (Bool-cases (calls.memory w).0) [
        | inl found ↦ rw found (negotiate-NotConnected keeps _ d _ e)
        | inr lost ↦ rw lost (init-NotConnected p e)
      ]

  -- The first ClientHello: there is no peer afterwards, or one that was made for it.
  pub on_client_hello-cases :
      (P : Outcome W → Type 0) (session : Session) (state : State) (d : Bytes) (w : W)
      → ((r : Result ℕ) (w : W) → P (r, (none, w)))
      → ((p : Peer) (v : W)
          → (calls.verify_session session d w).0 ≡ ok 0
          → p.state ≡ init
          → p.handshake ≡ none
          → P (accept_client_hello ctx calls p d v))
      → P (on_client_hello ctx calls none session state d w)
  unfolding on_client_hello
  on_client_hello-cases P session state d w without made_for =
      elim (Bool-cases (not (state_eq state wait_clienthello))) [
        | inl other ↦ rw other (without _ _)
        | inr waits ↦ elim (Result-cases (calls.verify_session session d w).0) [
          | inr (n, refused) ↦ rw (waits, refused) (without _ _)
          | inl (n, got) ↦ elim (Bool-cases (ltb 0 n)) [
            | inl sent ↦ rw (waits, got, sent) (without _ _)
            | inr valid ↦
                let v = (calls.verify_session session d w).1 in
                elim (Option-cases (server_peer ctx calls session v).0) [
                  | inl no_memory ↦ rw (waits, got, valid, no_memory) (without _ _)
                  | inr (p, made) ↦
                      let new = server_peer_lem session v p made in
                      let zero_result : n ≡ 0 = ground (arith, valid) in
                      rw (waits, got, valid, made)
                        (made_for p _ (got ∙ ap ok zero_result) new.0 new.1)
                ]
          ]
        ]
      ]

  -- A ClientHello of a new session makes no peer that is connected.
  pub on_client_hello-NotConnected :
      (keeps : KeepsState calls) (session : Session) (state : State) (d : Bytes) (w : W)
      → state_after init (on_client_hello ctx calls none session state d w) ≢ connected
  unfolding accept_client_hello
  on_client_hello-NotConnected keeps session state d w =
      on_client_hello-cases (λ o. state_after init o ≢ connected) session state d w
        (λ r w e. absurd (cc e))
        (λ p v valid starts new.
          with_handshake-NotConnected keeps p.handshake (message_seq d) 1 p d v starts)

  -- It makes no parameters but new ones.
  pub on_client_hello-Advance :
      (keeps : Keeps order_of calls) (session : Session) (state : State) (d : Bytes) (w : W)
      → let o = on_client_hello ctx calls none session state d w in Advance none o.0 (order_after o)
  unfolding accept_client_hello
  on_client_hello-Advance keeps session state d w =
      on_client_hello-cases (λ o. Advance none o.0 (order_after o)) session state d w (λ r w. freed)
        (λ p v valid starts new.
          with_handshake-Advances ctx calls keeps none state d p.handshake (message_seq d) 1 p v
            (negotiate ctx calls d) (ap order_in new) (ap order_in new)
            (λ start p w e. negotiate-Advances ctx calls keeps start state d p w e))
