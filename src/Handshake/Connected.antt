-- ===== src/Handshake/Connected.antt =====
-- What the moves of the state machine say about a connected peer, and about a ServerKeyExchange
-- message that comes before a cipher suite was chosen.
use tinydtls.Base.{arith, false, Bytes, inl, inr, refl, ℕ, ◌≡◌, ◌⊎◌}
use tinydtls.Crypto.{Role}
use tinydtls.Handshake.{ok, ht_server_key_exchange, ht_finished, Calls, cipher_of, finish}
use tinydtls.Peer.{Session, State, Peer, wait_finished, wait_serverhellodone, connected}
use tinydtls.Record.{tls_null_with_null_null}
use tinydtls.Cipher.{
  Context, is_tls_ecdhe_ecdsa_with_aes_128_ccm_8, is_tls_psk_with_aes_128_ccm_8,
  is_tls_ma_ecdsa_with_aes_128_cbc_sha, is_tls_ma_ecdsa_with_aes_256_cbc_sha, is_ecdsa_cipher,
}
use tinydtls.Header.{msg_type}
use tinydtls.Handshake.Message.{on_server_key_exchange, on_message, handle_handshake_msg}
use tinydtls.Handshake.States.{
  KeepsState, Move, state_after, verified_finished, stay, server_hello_ecdsa, server_hello_psk,
  server_certificate, client_certificate, key_exchange, key_exchange_unchecked, hello_done,
  client_key_exchange_ecdsa, client_key_exchange, certificate_verify, renegotiate_ecdsa,
  renegotiate, hello_request,
}
use tinydtls.Handshake.Reach.{handle_handshake_msg-Move}

pub null_cipher :
    (ctx : Context)
    → (is_ecdsa_cipher ctx 0 ≡ false) × (is_tls_psk_with_aes_128_ccm_8 ctx 0 ≡ false)
unfolding is_ecdsa_cipher is_tls_ecdhe_ecdsa_with_aes_128_ccm_8 is_tls_psk_with_aes_128_ccm_8
    is_tls_ma_ecdsa_with_aes_128_cbc_sha is_tls_ma_ecdsa_with_aes_256_cbc_sha
null_cipher ctx = (ground arith, ground arith)

module _ {W : Type 0} (ctx : Context) (calls : Calls W) (p : Peer) (d : Bytes) where
  -- The Finished message that makes a peer connected.
  abbrev pub Verified : W → State → Type 0
  Verified w s =
      s ≡ wait_finished
      × (msg_type d ≡ ht_finished × ((n : ℕ) × ((calls.check_finished p d w).0 ≡ ok n)))

  Move-connected :
      {role : Role} {w : W} {s t : State}
      → Move ctx calls role p d w s t
      → t ≡ connected
      → s ≡ connected ⊎ Verified w s
  Move-connected stay e = inl e
  Move-connected (server_hello_ecdsa h) e = absurd (cc e)
  Move-connected (server_hello_psk h) e = absurd (cc e)
  Move-connected (server_certificate h r) e = absurd (cc e)
  Move-connected (client_certificate h r) e = absurd (cc e)
  Move-connected (key_exchange h) e = absurd (cc e)
  Move-connected (key_exchange_unchecked h a b) e = absurd (cc e)
  Move-connected (hello_done h) e = absurd (cc e)
  Move-connected (verified_finished {n = n} h checked) e = inr (refl, (h, (n, checked)))
  Move-connected (client_key_exchange_ecdsa h) e = absurd (cc e)
  Move-connected (client_key_exchange h) e = absurd (cc e)
  Move-connected (certificate_verify h) e = absurd (cc e)
  Move-connected (renegotiate_ecdsa h) e = absurd (cc e)
  Move-connected (renegotiate h) e = absurd (cc e)
  Move-connected (hello_request h) e = absurd (cc e)

  -- A peer that a handshake message leaves connected was so before, or was waiting for a Finished
  -- message, and this is one that check_finished has accepted; for checks and sending functions that
  -- do not assign the state.
  pub connected-Verified :
      (keeps : KeepsState calls) (session : Session) (role : Role) (w : W)
      → state_after p.state (handle_handshake_msg ctx calls p session role p.state d w) ≡ connected
      → p.state ≡ connected ⊎ Verified (calls.stop_retransmission p w) p.state
  connected-Verified keeps session role w e =
      Move-connected (handle_handshake_msg-Move ctx calls keeps p d session role w) e

  -- A ServerKeyExchange message for a peer without a cipher suite, such as a client that has not yet
  -- seen a ServerHello, is not looked at, and takes the peer from any state to
  -- DTLS_STATE_WAIT_SERVERHELLODONE.
  pub server_key_exchange-unchecked :
      (session : Session) (role : Role) (state : State) (w : W)
      → msg_type d ≡ ht_server_key_exchange
      → cipher_of p ≡ tls_null_with_null_null
      → state_after state (handle_handshake_msg ctx calls p session role state d w)
        ≡ wait_serverhellodone
  unfolding handle_handshake_msg on_message on_server_key_exchange finish
  server_key_exchange-unchecked session role state w type null =
      let (no_ecdsa, no_psk) = null_cipher ctx in rw (type, null, no_ecdsa, no_psk) refl
