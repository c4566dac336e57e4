-- ===== src/Endpoint/Order.antt =====
-- dtls.c: the checks of messages and the bodies of messages leave the receive counter and the queue of
-- early messages in the handshake parameters.
use tinydtls.Messages.ClientHello.{hello_handshake, in_buffer, client_hello, with_client_random}
use tinydtls.Base.{arith, refl, Bytes, List, Option, none, some, ℕ, ◌≡◌}
use tinydtls.Alert.{Result, ok}
use tinydtls.Netq.{Queue}
use tinydtls.Peer.{Handshake, State}
use tinydtls.Header.{Security}
use tinydtls.Cipher.{Context}
use tinydtls.Signature.Ecdsa.{Ecc}
use tinydtls.KeyExchange.{check_client_keyexchange, read_point, read_identity}
use tinydtls.ServerHello.{server_hello, check_server_hello, read_random, read_suite}
use tinydtls.ClientHello.{dtls_update_parameters, read_ciphers, read_compression}
use tinydtls.Messages.Certificate.{check_server_certificate, EcdsaKey}
use tinydtls.Messages.ServerKeyExchange.{
  check_server_key_exchange_ecdsa, check_server_key_exchange_psk, verify_params,
  server_key_exchange_body,
}
use tinydtls.Messages.CertificateRequest.{check_certificate_request, check_algorithms}
use tinydtls.Messages.ClientKeyExchange.{client_key_exchange, identity_body, point_body}
use tinydtls.Endpoint.{Host}
use tinydtls.Endpoint.Answers.{client_keyexchange}
use mathlib.Core.Option

-- The counter and the queue.
abbrev pub order_h : Handshake → ℕ × Queue
order_h h = (h.mseq_r, h.reorder_queue)

-- What a check or a body leaves of them.
abbrev pub order_left : {A : Type 0} → Handshake → Option (A × Handshake) → ℕ × Queue
order_left h none = order_h h
order_left h (some (r, h')) = order_h h'

pub server_hello-order :
    (ctx : Context) (state : State) (h : Handshake) (d : Bytes)
    → order_left h (check_server_hello ctx state h d) ≡ order_h h
unfolding check_server_hello read_random read_suite
server_hello-order ctx state h d = ground arith

pub server_certificate-order :
    (verify : Bytes → Bytes → Result ℕ) (h : Handshake) (d : Bytes)
    → order_left h (check_server_certificate verify h d) ≡ order_h h
unfolding check_server_certificate
server_certificate-order verify h d = ground arith

pub key_exchange_ecdsa-order :
    (ecc : Ecc) (hash : Bytes → Bytes) (h : Handshake) (d : Bytes)
    → order_left h (check_server_key_exchange_ecdsa ecc hash h d) ≡ order_h h
unfolding check_server_key_exchange_ecdsa verify_params
key_exchange_ecdsa-order ecc hash h d = ground arith

pub key_exchange_psk-order :
    (h : Handshake) (d : Bytes) → order_h (check_server_key_exchange_psk h d).1 ≡ order_h h
unfolding check_server_key_exchange_psk
key_exchange_psk-order h d = ground arith

pub certificate_request-order :
    (h : Handshake) (d : Bytes) → order_left h (check_certificate_request h d) ≡ order_h h
unfolding check_certificate_request check_algorithms
certificate_request-order h d = ground arith

pub parameters-order :
    (ctx : Context) (state : State) (security : Option Security) (h : Handshake) (d : Bytes)
    → order_left h (dtls_update_parameters ctx state security h d) ≡ order_h h
unfolding dtls_update_parameters read_ciphers read_compression
parameters-order ctx state security h d = ground arith

pub client_hello-order :
    (ctx : Context) (h : Handshake) (now : ℕ) (prng cookie : Bytes)
    → order_left h (client_hello ctx h now prng cookie) ≡ order_h h
unfolding client_hello in_buffer hello_handshake with_client_random
client_hello-order ctx h now prng cookie = ground arith

pub client_key_exchange-order :
    (ecc : Ecc) (ctx : Context) (get : Bytes → Result Bytes) (draws : List (List ℕ)) (h : Handshake)
    → order_left h (client_key_exchange ecc ctx get draws h) ≡ order_h h
unfolding client_key_exchange identity_body point_body
client_key_exchange-order ecc ctx get draws h = ground arith

pub client_keyexchange-order :
    (host : Host) (h : Handshake) (d : Bytes)
    → order_left h (client_keyexchange host d h) ≡ order_h h
unfolding check_client_keyexchange read_point read_identity
client_keyexchange-order host h d = ground arith

abbrev pub as_result : Bytes × Handshake → Result Bytes × Handshake
as_result b = (ok (b.0), b.1)

pub key_exchange_body-order :
    (ecc : Ecc) (hash : Bytes → Bytes) (key : EcdsaKey) (h : Handshake)
    (draws nonces : List (List ℕ))
    → order_left h (
        Option.map
          (λ (b : Bytes × Handshake). as_result b)
          (server_key_exchange_body ecc hash key h draws nonces))
      ≡ order_h h
unfolding server_key_exchange_body
key_exchange_body-order ecc hash key h draws nonces = ground arith

-- Where the parameters are not touched.
pub map-order :
    {A B : Type 0} (f : B → A) (h : Handshake) (o : Option B)
    → order_left h (Option.map (λ (b : B). (f b, h)) o) ≡ order_h h
map-order f h none = refl
map-order f h (some b) = refl

pub server_hello_body-order :
    (ctx : Context) (h : Handshake) (now : ℕ) (prng : Bytes)
    → order_h (server_hello ctx h now prng).1 ≡ order_h h
unfolding server_hello
server_hello_body-order ctx h now prng = refl
