-- ===== src/Handshake/States.antt =====
-- The states that handle_handshake_msg runs through.
use tinydtls.Peer.{
  Session, State, Peer, wait_clientcertificate, wait_clientkeyexchange, wait_certificateverify,
  wait_changecipherspec, wait_finished, clienthello, wait_servercertificate, wait_serverkeyexchange,
  wait_serverhellodone, connected,
}
use tinydtls.Handshake.{fail, ok, Peer, Step, Outcome, Calls, after, cipher_of}
use tinydtls.Crypto.{Role, client, server}
use tinydtls.Base.{Bytes, false, none, refl, some, ℕ, ◌≡◌}
use tinydtls.Cipher.{Context, is_tls_psk_with_aes_128_ccm_8, is_ecdsa_cipher}
use tinydtls.Header.{msg_type}

-- The checks and the sending functions leave what `f` reads of the peer.
pub record Keeps {A : Type 0} (f : Peer → A) {W : Type 0} (calls : Calls W) : Type 0 where
  pub server_hello_verify_request :
      (p : Peer) (d : Bytes) (w : W) → f (calls.check_server_hello_verify_request p d w).1.0 ≡ f p
  pub server_hello : (p : Peer) (d : Bytes) (w : W) → f (calls.check_server_hello p d w).1.0 ≡ f p
  pub server_certificate :
      (p : Peer) (d : Bytes) (w : W) → f (calls.check_server_certificate p d w).1.0 ≡ f p
  pub server_key_exchange_ecdsa :
      (p : Peer) (d : Bytes) (w : W) → f (calls.check_server_key_exchange_ecdsa p d w).1.0 ≡ f p
  pub server_key_exchange_psk :
      (p : Peer) (d : Bytes) (w : W) → f (calls.check_server_key_exchange_psk p d w).1.0 ≡ f p
  pub server_hellodone :
      (p : Peer) (d : Bytes) (w : W) → f (calls.check_server_hellodone p d w).1.0 ≡ f p
  pub certificate_request :
      (p : Peer) (d : Bytes) (w : W) → f (calls.check_certificate_request p d w).1.0 ≡ f p
  pub finished_message : (p : Peer) (d : Bytes) (w : W) → f (calls.check_finished p d w).1.0 ≡ f p
  pub client_keyexchange :
      (p : Peer) (d : Bytes) (w : W) → f (calls.check_client_keyexchange p d w).1.0 ≡ f p
  pub client_certificate_verify :
      (p : Peer) (d : Bytes) (w : W) → f (calls.check_client_certificate_verify p d w).1.0 ≡ f p
  pub parameters : (p : Peer) (d : Bytes) (w : W) → f (calls.update_parameters p d w).1.0 ≡ f p
  pub ccs : (p : Peer) (w : W) → f (calls.send_ccs p w).1.0 ≡ f p
  pub finished_sent : (p : Peer) (w : W) → f (calls.send_finished p w).1.0 ≡ f p
  pub server_hello_msgs : (p : Peer) (w : W) → f (calls.send_server_hello_msgs p w).1.0 ≡ f p
  pub client_hello : (p : Peer) (w : W) → f (calls.send_client_hello p w).1.0 ≡ f p
  pub verified :
      (p : Peer) (s : Session) (d : Bytes) (w : W) → f (calls.verify_peer p s d w).1.0 ≡ f p

-- They do not assign peer->state.
abbrev pub KeepsState : {W : Type 0} → Calls W → Type 0
KeepsState = Keeps (λ (p : Peer). p.state)

module _ {W : Type 0} (ctx : Context) (calls : Calls W) where
  -- The moves of the state machine on a message `d` for the peer `p`.
  pub data Move (role : Role) (p : Peer) (d : Bytes) (w : W) : State → State → Type 0 where
    stay : {s : State} → Move role p d w s s
    server_hello_ecdsa : msg_type d ≡ 2 → Move role p d w clienthello wait_servercertificate
    server_hello_psk : msg_type d ≡ 2 → Move role p d w clienthello wait_serverhellodone
    server_certificate :
        msg_type d ≡ 11
        → role ≡ client
        → Move role p d w wait_servercertificate wait_serverkeyexchange
    client_certificate :
        msg_type d ≡ 11
        → role ≡ server
        → Move role p d w wait_clientcertificate wait_clientkeyexchange
    key_exchange : msg_type d ≡ 12 → Move role p d w wait_serverkeyexchange wait_serverhellodone
    key_exchange_unchecked :
        {s : State}
        → msg_type d ≡ 12
        → is_ecdsa_cipher ctx (cipher_of p) ≡ false
        → is_tls_psk_with_aes_128_ccm_8 ctx (cipher_of p) ≡ false
        → Move role p d w s wait_serverhellodone
    hello_done : msg_type d ≡ 14 → Move role p d w wait_serverhellodone wait_changecipherspec
    verified_finished :
        {n : ℕ}
        → msg_type d ≡ 20
        → (calls.check_finished p d w).0 ≡ ok n
        → Move role p d w wait_finished connected
    client_key_exchange_ecdsa :
        msg_type d ≡ 16 → Move role p d w wait_clientkeyexchange wait_certificateverify
    client_key_exchange :
        msg_type d ≡ 16 → Move role p d w wait_clientkeyexchange wait_changecipherspec
    certificate_verify :
        msg_type d ≡ 15 → Move role p d w wait_certificateverify wait_changecipherspec
    renegotiate_ecdsa : msg_type d ≡ 1 → Move role p d w connected wait_clientcertificate
    renegotiate : msg_type d ≡ 1 → Move role p d w connected wait_clientkeyexchange
    hello_request : msg_type d ≡ 0 → Move role p d w connected clienthello

-- The state of the peer that is left; `s` where there is none.
abbrev pub state_after : {W : Type 0} → State → Outcome W → State
state_after s (r, (none, w)) = s
state_after s (r, (some p, w)) = p.state

-- A property of the state after a call: it is that of the peer which the call leaves, or that of the
-- rest of the code.
pub state_after-after :
    {W : Type 0} (s : State) (P : State → Type 0) (step : Step W) (rest : ℕ → Peer → W → Outcome W)
    → P step.1.0.state
    → ((n : ℕ) → step.0 ≡ ok n → P (state_after s (rest n step.1.0 step.1.1)))
    → P (state_after s (after step rest))
state_after-after s P (ok n, (p, w)) rest failed passed = passed n refl
state_after-after s P (fail n, (p, w)) rest failed passed = failed
