-- ===== src/Endpoint.antt =====
-- dtls.c: the functions of Handshake/Calls on the handshake parameters of a peer: the checks of
-- messages and the functions that send them, composed as in the code. What is not part of the code
-- (callbacks, clock, random numbers, memory, hash, cipher and curve) is a record, `Host`.
pub mod Answers
pub mod Unmoved
pub mod Keeps
pub mod Order
pub mod Quiet
pub mod Connected
pub mod Datagram
mod Tests
use tinydtls.Cipher.{
  is_ecdsa_client_auth_supported, is_ecdsa_cipher, is_tls_psk_with_aes_128_ccm_8, Context,
}
use tinydtls.Base.{
  ◌&&◌, ◌==◌, List, length, none, some, not, true, Bool, Option, if◌then◌else◌, ◌+◌, ℕ, Bytes,
}
use tinydtls.Send.{send_handshake_msg_hash, Env, send_handshake_msg, Net}
use tinydtls.Alert.{fail, Result, ok}
use tinydtls.Crypto.{max_keyblock_length}
use tinydtls.KeyExchange.{dtls_ec_key_size}
use tinydtls.Handshake.{
  cipher_of, ht_server_hello_done, ht_certificate_request, ht_certificate_verify, ht_certificate,
  ht_client_hello, ht_client_key_exchange, ht_finished, ht_server_hello, ht_server_key_exchange,
  Step,
}
use tinydtls.Peer.{Session, Handshake, Peer}
use tinydtls.Signature.Ecdsa.{ecdh_pre_master_secret, Ecc}
use tinydtls.Messages.ClientKeyExchange.{client_key_exchange}
use tinydtls.Messages.Certificate.{EcdsaKey}
use mathlib.Core.Option
use tinydtls.KeyExchange
use tinydtls.ServerHello
use tinydtls.Messages.ClientHello
use tinydtls.Messages.ServerKeyExchange
use tinydtls.Messages.Certificate
use tinydtls.Messages.CertificateRequest
use tinydtls.Messages.CertificateVerify

-- `prng` is what dtls_prng gives, `draws` and `nonces` the random numbers of the loops of crypto.c, and
-- `found` whether malloc finds memory, where the outside was asked k times before. `beyond` is the
-- result of a check that reads behind the end of its message or through a null pointer, or whose
-- loop does not end, which C leaves open; the peer is then as it was.
pub record Host : Type 0 where
  pub context : Context
  pub env : Env
  pub set_key : Bytes → Option (Bytes → Bytes)
  pub hash : Bytes → Bytes
  pub ecc : Ecc
  pub prng : ℕ → Bytes
  pub draws : ℕ → List (List ℕ)
  pub nonces : ℕ → List (List ℕ)
  pub found : ℕ → Bool
  pub cookie_secret : Bytes
  pub address : Session → Bytes
  pub get_psk_identity : Session → Bytes → Result Bytes
  pub get_psk_hint : Session → Result Bytes
  pub get_psk_key : Session → Bytes → Result Bytes
  pub get_ecdsa_key : Session → Result EcdsaKey
  pub verify_ecdsa_key : Session → Bytes → Bytes → Result ℕ
  pub beyond : Result ℕ

-- res = f(…); if (res < 0) return res; with the rest of the code
abbrev pub and_then : {W : Type 0} → Step W → (ℕ → Peer → W → Step W) → Step W
and_then (fail n, (p, w)) rest = (fail n, (p, w))
and_then (ok n, (p, w)) rest = rest n p w

abbrev pub asked_once : Net → Net
asked_once w = record w { asked = w.asked + 1 }

module _ (host : Host) where
  -- A check of the handshake parameters.
  unfoldable pub on_params : (Handshake → Option (Result ℕ × Handshake)) → Peer → Net → Step Net
  on_params check p w = elim p.handshake [
    | none ↦ (host.beyond, (p, w))
    | some h ↦ elim (check h) [
      | none ↦ (host.beyond, (p, w))
      | some (r, h') ↦ (r, (record p { handshake = some h' }, w))
    ]
  ]

  -- A body is built from the parameters, and sent as a message of a type.
  unfoldable pub send_body :
      ℕ → Bool → (Handshake → Option (Result Bytes × Handshake)) → Peer → Net → Step Net
  send_body type add_hash build p w = elim p.handshake [
    | none ↦ (host.beyond, (p, w))
    | some h ↦ elim (build h) [
      | none ↦ (host.beyond, (p, w))
      | some (r, h') ↦
          let p = record p { handshake = some h' } in
          elim r [
            | fail n ↦ (fail n, (p, w))
            | ok body ↦
                send_handshake_msg_hash host.set_key host.env p p.session type (some body) add_hash
                  (asked_once w)
          ]
    ]
  ]

  -- dtls_send_server_hello
  unfoldable pub dtls_send_server_hello : Peer → Net → Step Net
  dtls_send_server_hello p w =
      send_body ht_server_hello true
        (λ h.
          let (body, h') =
            ServerHello.server_hello host.context h (host.env.ticks w.asked) (host.prng w.asked) in
          some (ok body, h'))
        p w

  -- dtls_send_certificate_ecdsa
  unfoldable pub dtls_send_certificate_ecdsa : EcdsaKey → Peer → Net → Step Net
  dtls_send_certificate_ecdsa key p w =
      send_body ht_certificate true (λ h. some (ok (Certificate.certificate_body key), h)) p w

  -- dtls_send_server_key_exchange_ecdh
  unfoldable pub dtls_send_server_key_exchange_ecdh : EcdsaKey → Peer → Net → Step Net
  dtls_send_server_key_exchange_ecdh key p w =
      send_body ht_server_key_exchange true
        (λ h.
          Option.map (λ (b : Bytes × Handshake). (ok (b.0), b.1))
            (ServerKeyExchange.server_key_exchange_body host.ecc host.hash key h
              (host.draws w.asked) (host.nonces w.asked)))
        p w

  -- dtls_send_server_certificate_request
  unfoldable pub dtls_send_server_certificate_request : Peer → Net → Step Net
  dtls_send_server_certificate_request p w =
      send_body ht_certificate_request true
        (λ h. some (ok CertificateRequest.certificate_request_body, h)) p w

  -- dtls_send_server_key_exchange_psk
  unfoldable pub dtls_send_server_key_exchange_psk : Bytes → Peer → Net → Step Net
  dtls_send_server_key_exchange_psk psk_hint p w =
      send_body ht_server_key_exchange true
        (λ h. some (ServerKeyExchange.psk_hint_body psk_hint, h)) p w

  -- dtls_send_server_hello_done
  unfoldable pub dtls_send_server_hello_done : Peer → Net → Step Net
  dtls_send_server_hello_done p w =
      send_handshake_msg host.set_key host.env p ht_server_hello_done none w

  -- The part of dtls_send_server_hello_msgs for a suite with a curve.
  unfoldable pub send_key_messages : ℕ → Peer → Net → Step Net
  send_key_messages err p w =
      if not (is_ecdsa_cipher host.context (cipher_of p))
      then (ok 0, (p, w))
      else elim (host.get_ecdsa_key p.session) [
        | fail n ↦ (fail n, (p, w))
        | ok key ↦ and_then (dtls_send_certificate_ecdsa key p w) (λ err p w.
            and_then (dtls_send_server_key_exchange_ecdh key p w) (λ err p w.
              if is_ecdsa_cipher host.context (cipher_of p)
                && is_ecdsa_client_auth_supported host.context
              then dtls_send_server_certificate_request p w
              else (ok 0, (p, w))))
      ]

  -- Its part for a pre-shared key.
  unfoldable pub send_psk_hint : ℕ → Peer → Net → Step Net
  send_psk_hint err p w =
      if not (is_tls_psk_with_aes_128_ccm_8 host.context (cipher_of p))
      then (ok 0, (p, w))
      else elim (host.get_psk_hint p.session) [
        | fail n ↦ (fail n, (p, w))
        | ok hint ↦
            if length hint == 0 then (ok 0, (p, w)) else dtls_send_server_key_exchange_psk hint p w
      ]

  -- dtls_send_server_hello_msgs
  unfoldable pub dtls_send_server_hello_msgs : Peer → Net → Step Net
  dtls_send_server_hello_msgs p w = and_then (dtls_send_server_hello p w) (λ err p w.
      and_then (send_key_messages err p w) (λ err p w.
        and_then (send_psk_hint err p w)
          (λ err p w. and_then (dtls_send_server_hello_done p w) (λ err p w. (ok 0, (p, w))))))

  -- dtls_send_client_hello
  unfoldable pub dtls_send_client_hello : Bytes → Peer → Net → Step Net
  dtls_send_client_hello cookie p w =
      send_body ht_client_hello (not (length cookie == 0))
        (λ h.
          ClientHello.client_hello host.context h (host.env.ticks w.asked) (host.prng w.asked)
            cookie)
        p w

  -- dtls_send_client_key_exchange
  unfoldable pub dtls_send_client_key_exchange : Peer → Net → Step Net
  dtls_send_client_key_exchange p w =
      send_body ht_client_key_exchange true
        (client_key_exchange host.ecc host.context (host.get_psk_identity p.session)
          (host.draws w.asked))
        p w

  -- dtls_send_certificate_verify_ecdh
  unfoldable pub dtls_send_certificate_verify_ecdh : EcdsaKey → Peer → Net → Step Net
  dtls_send_certificate_verify_ecdh key p w =
      send_body ht_certificate_verify true
        (λ h.
          Option.map (λ (b : Bytes). (ok b, h))
            (CertificateVerify.certificate_verify_body host.ecc host.hash key h
              (host.nonces w.asked)))
        p w

  -- dtls_send_finished with the label of the peer's own role
  unfoldable pub dtls_send_finished : Peer → Net → Step Net
  dtls_send_finished p w =
      send_body ht_finished true
        (λ h. some (
          ok (
              KeyExchange.finished_body host.hash (host.found w.asked) (host.found (w.asked + 1)) h
                p.role),
          h,
        ))
        p w

  -- calculate_key_block for the parameters of the peer
  unfoldable pub calculate_key_block : Peer → Net → Step Net
  calculate_key_block p w = elim p.handshake [
    | none ↦ (host.beyond, (p, w))
    | some h ↦
        let (r, (h', p')) =
          KeyExchange.calculate_key_block host.hash (host.found w.asked) (host.found (w.asked + 1))
            (host.get_psk_key p.session)
            (λ h.
              ecdh_pre_master_secret host.ecc h.own_eph_priv h.other_eph_pub_x h.other_eph_pub_y
                dtls_ec_key_size max_keyblock_length)
            (host.found (w.asked + 2)) host.context h p in
        (r, (record p' { handshake = some h' }, asked_once w))
  ]
