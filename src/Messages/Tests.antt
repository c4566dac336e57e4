-- ===== src/Messages/Tests.antt =====
-- Messages between two ends with small keys, a hash that pads and a curve that takes every signature.
use tinydtls.Base.{
  ◌*◌, ◌+◌, ◌↔◌, ◌^◌, ◌<◌, false, ◌≤◌, subst, none, Bytes, List, Option, [], arith, length, refl,
  replicate, some, true, take, drop, ◌++◌, ◌∷◌, ◌≡◌, ℕ,
}
use tinydtls.Messages.ClientHello.Size.{client_hello-overrun_iff}
use tinydtls.Messages.ClientHello.{hello_handshake, client_hello_rest, client_hello, offered}
use tinydtls.Messages.Certificate.{check_server_certificate, certificate_body, EcdsaKey}
use tinydtls.Messages.ServerKeyExchange.{
  check_server_key_exchange_ecdsa, check_server_key_exchange_psk, psk_hint_body,
  server_key_exchange_body, server_random_of, client_random_of, key_params,
}
use tinydtls.Messages.CertificateVerify.{check_client_certificate_verify, certificate_verify_body}
use tinydtls.Messages.ServerKeyExchange.Hint.{
  check_server_key_exchange_psk-psk_hint_body, hint_message,
}
use tinydtls.Alert.{internal_error, alert_fatal_create, fail, ok}
use tinydtls.ClientHello.Ciphers.{first_known}
use tinydtls.Cipher.{
  is_ma_supported, is_tls_ma_ecdsa_with_aes_256_cbc_sha, is_ecdsa_supported,
  is_tls_ma_ecdsa_with_aes_128_cbc_sha, is_psk_supported, is_tls_ecdhe_ecdsa_with_aes_128_ccm_8,
  is_ecdsa_cipher, known_cipher, Context, is_tls_psk_with_aes_128_ccm_8,
}
use tinydtls.Messages.Certificate.RoundTrip.{check_server_certificate-certificate_body}
use tinydtls.Messages.ClientHello.Accepted.{dtls_update_parameters-client_hello}
use tinydtls.Messages.CertificateVerify.RoundTrip.{check_client_certificate_verify-body}
use tinydtls.Messages.ClientKeyExchange.RoundTrip.{check_client_keyexchange-identity}
use tinydtls.Peer.{security_new, Handshake, handshake_new, wait_clienthello}
use tinydtls.ClientHello.{dtls_update_parameters}
use tinydtls.KeyExchange.{check_client_keyexchange}
use tinydtls.Cookie.{dtls_get_cookie}
use tinydtls.Messages.ClientKeyExchange.{client_key_exchange}
use tinydtls.Numeric.{int_to_uint16, int_to_uint32}
use tinydtls.Signature.RoundTrip.{IsFull}
use tinydtls.Signature.Ecdsa.{
  Ecc, ec_key_from_uint32, ecdsa_generate_key, valid_key_loop, sign_loop, ecdsa_create_sig_hash,
  ecdsa_create_sig,
}
use tinydtls.Signature.Verified.{EcdsaLaws, IsNumber}
use tinydtls.Signature.{add_ecdsa_signature_elem}
use tinydtls.Header.{dtls_version}
use tinydtls.Messages.ServerKeyExchange.RoundTrip.{key_of, check_server_key_exchange_ecdsa-body}

abbrev words : List ℕ
words = 0x01020304 ∷ 2 ∷ 3 ∷ 4 ∷ 5 ∷ 6 ∷ 7 ∷ 8 ∷ []

words-IsNumber : IsNumber words
words-IsNumber = (refl, omega arith)

words-IsFull : IsFull 0x01020304 (2 ∷ 3 ∷ 4 ∷ 5 ∷ 6 ∷ 7 ∷ 8 ∷ [])
words-IsFull = (omega arith, (refl, (refl, (refl, (refl, (refl, (refl, (refl, tt))))))), refl)

abbrev any_curve : Ecc
any_curve = record {
  is_valid_key = λ priv. true;
  gen_pub_key = λ priv. (words, words);
  ecdh = λ x y priv. words;
  sign = λ priv digest rand. some (words, words);
  validate = λ x y digest r s. true;
}

any_curve-EcdsaLaws : EcdsaLaws any_curve
any_curve-EcdsaLaws = record {
  public_x = λ priv. words-IsNumber;
  public_y = λ priv. words-IsNumber;
  signed = λ priv digest rand r s valid made. signed_lem r s made;
}
  where
    signed_lem :
        (r s : List ℕ)
        → ◌≡◌ {A = Option (List ℕ × List ℕ)} (some (words, words)) (some (r, s))
        → IsNumber r × IsNumber s × (true ≡ true)
    signed_lem r s made =
        subst
          (λ (o : Option (List ℕ × List ℕ)). elim o [
            | none ↦ Unit
            | some (a, b) ↦ IsNumber a × IsNumber b × (true ≡ true)
          ])
          made (words-IsNumber, words-IsNumber, refl)

-- The Certificate of that curve's key.
abbrev server_key : EcdsaKey
server_key = key_of any_curve words

abbrev any_header : Bytes
any_header = replicate 12 7

check_server_certificate-certificate_body_example :
    check_server_certificate (λ x y. ok 5) handshake_new (any_header ++ certificate_body server_key)
    ≡ some (
      ok 0,
      record handshake_new {
        hs_hash = any_header ++ certificate_body server_key;
        other_pub_x = server_key.pub_key_x;
        other_pub_y = server_key.pub_key_y;
      },
    )
unfolding handshake_new int_to_uint32
check_server_certificate-certificate_body_example =
    check_server_certificate-certificate_body (λ x y. ok 5) handshake_new server_key any_header refl
      refl refl

-- A client that has the certificate.
abbrev client_params : Handshake
client_params = record handshake_new {
  other_pub_x = server_key.pub_key_x;
  other_pub_y = server_key.pub_key_y;
}

abbrev any_hash : Bytes → Bytes
any_hash m = replicate 32 5

generated :
    ecdsa_generate_key any_curve (words ∷ [])
    ≡ some (ec_key_from_uint32 words, (ec_key_from_uint32 words, ec_key_from_uint32 words))
unfolding ecdsa_generate_key valid_key_loop
generated = refl

signed :
    ecdsa_create_sig any_curve any_hash
      (ec_key_from_uint32 words)
      32
      (client_random_of handshake_new)
      (server_random_of handshake_new)
      (key_params (ec_key_from_uint32 words) (ec_key_from_uint32 words))
      (words ∷ [])
    ≡ some (words, words)
unfolding ecdsa_create_sig ecdsa_create_sig_hash sign_loop
signed = refl

abbrev key_exchange_body : Bytes
key_exchange_body =
    key_params (ec_key_from_uint32 words) (ec_key_from_uint32 words)
    ++ add_ecdsa_signature_elem words words

check_server_key_exchange_ecdsa-body_example :
    (server_key_exchange_body any_curve any_hash server_key handshake_new (words ∷ []) (words ∷ [])
      ≡ some (key_exchange_body, record handshake_new { own_eph_priv = ec_key_from_uint32 words }))
    × (check_server_key_exchange_ecdsa any_curve any_hash client_params
          (any_header ++ key_exchange_body)
        ≡ some (
          ok 0,
          record client_params {
            hs_hash = client_params.hs_hash ++ (any_header ++ key_exchange_body);
            other_eph_pub_x = ec_key_from_uint32 words;
            other_eph_pub_y = ec_key_from_uint32 words;
          },
        ))
unfolding int_to_uint32 handshake_new
check_server_key_exchange_ecdsa-body_example =
    check_server_key_exchange_ecdsa-body any_curve any_curve-EcdsaLaws any_hash words refl
      words-IsNumber handshake_new client_params any_header (words ∷ []) (words ∷ [])
      (ec_key_from_uint32 words) (ec_key_from_uint32 words) (ec_key_from_uint32 words) 0x01020304
      0x01020304 (2 ∷ 3 ∷ 4 ∷ 5 ∷ 6 ∷ 7 ∷ 8 ∷ []) (2 ∷ 3 ∷ 4 ∷ 5 ∷ 6 ∷ 7 ∷ 8 ∷ []) refl generated
      refl refl signed words-IsFull words-IsFull refl refl refl refl

-- A client that signs.
proved :
    ecdsa_create_sig_hash any_curve
      (ec_key_from_uint32 words)
      32
      (any_hash handshake_new.hs_hash)
      32
      (words ∷ [])
    ≡ some (words, words)
unfolding ecdsa_create_sig_hash sign_loop
proved = refl

check_client_certificate_verify-body_example :
    (certificate_verify_body any_curve any_hash server_key handshake_new (words ∷ [])
      ≡ some (add_ecdsa_signature_elem words words))
    × (check_client_certificate_verify any_curve any_hash client_params
          (any_header ++ add_ecdsa_signature_elem words words)
        ≡ some (ok 0))
check_client_certificate_verify-body_example =
    check_client_certificate_verify-body any_curve any_curve-EcdsaLaws any_hash words refl
      words-IsNumber handshake_new client_params any_header (words ∷ []) 0x01020304 0x01020304
      (2 ∷ 3 ∷ 4 ∷ 5 ∷ 6 ∷ 7 ∷ 8 ∷ []) (2 ∷ 3 ∷ 4 ∷ 5 ∷ 6 ∷ 7 ∷ 8 ∷ []) refl proved words-IsFull
      words-IsFull refl refl refl

-- Two ends with a pre-shared key.
abbrev psk_end : Context
psk_end = record {
  dtls_psk = true;
  dtls_ecc = false;
  dtls_ma = false;
  get_psk_info = true;
  get_ecdsa_key = false;
  verify_ecdsa_key = false;
}

abbrev psk_params : Handshake
psk_params = record handshake_new { hs_cipher = 0xC0A8 }

psk_suite :
    (is_tls_psk_with_aes_128_ccm_8 psk_end 0xC0A8 ≡ true) × (is_ecdsa_cipher psk_end 0xC0A8 ≡ false)
unfolding is_tls_psk_with_aes_128_ccm_8 is_ecdsa_cipher is_tls_ecdhe_ecdsa_with_aes_128_ccm_8
    is_tls_ma_ecdsa_with_aes_128_cbc_sha is_tls_ma_ecdsa_with_aes_256_cbc_sha
psk_suite = (refl, refl)

abbrev name : Bytes
name = 99 ∷ 108 ∷ 105 ∷ []

check_client_keyexchange-identity_example :
    (client_key_exchange any_curve psk_end (λ hint. ok name) [] psk_params
      ≡ some (ok (int_to_uint16 3 ++ name), record psk_params { identity = name }))
    × (check_client_keyexchange psk_end psk_params (any_header ++ (int_to_uint16 3 ++ name))
        ≡ ok (record psk_params { identity = name }))
check_client_keyexchange-identity_example =
    check_client_keyexchange-identity any_curve psk_end psk_end (λ hint. ok name) psk_params
      psk_params any_header name refl (omega arith) refl psk_suite.0 psk_suite.0 psk_suite.1

check_server_key_exchange_psk-psk_hint_body_example :
    (3 ≤ 32
      → (psk_hint_body name ≡ ok (int_to_uint16 3 ++ name))
        × (check_server_key_exchange_psk psk_params (hint_message psk_params any_header name refl)
            ≡ (
              ok 0,
              record psk_params {
                hs_hash = psk_params.hs_hash ++ hint_message psk_params any_header name refl;
                identity = name;
              },
            )))
    × (32 < 3
        → 3 < 2 ^ 16
        → (psk_hint_body name ≡ fail (alert_fatal_create internal_error))
          × ((check_server_key_exchange_psk psk_params
                (hint_message psk_params any_header name refl)).0
              ≡ fail (alert_fatal_create internal_error)))
check_server_key_exchange_psk-psk_hint_body_example =
    check_server_key_exchange_psk-psk_hint_body psk_params any_header name refl

-- A ClientHello with a cookie.
suite_known : first_known psk_end (offered psk_end) ≡ some 0xC0A8
unfolding offered known_cipher is_psk_supported is_ecdsa_supported is_ma_supported
    is_tls_psk_with_aes_128_ccm_8 is_ecdsa_cipher is_tls_ecdhe_ecdsa_with_aes_128_ccm_8
    is_tls_ma_ecdsa_with_aes_128_cbc_sha is_tls_ma_ecdsa_with_aes_256_cbc_sha
suite_known = refl

abbrev hello_params : Handshake
hello_params = hello_handshake handshake_new 9 (replicate 28 4) name

abbrev hello_random : Bytes
hello_random = take 32 hello_params.tmp

abbrev hello_body : Bytes
hello_body = int_to_uint16 dtls_version ++ (hello_random ++ client_hello_rest psk_end name)

sixty_four : length handshake_new.tmp ≡ 64
unfolding handshake_new
sixty_four = refl

few_suites : length name + 2 * length (offered psk_end) ≤ 37
unfolding offered is_psk_supported is_ecdsa_supported is_ma_supported
few_suites = omega arith

-- An end of multilevel authentication.
abbrev ma_end : Context
ma_end = record {
  dtls_psk = true;
  dtls_ecc = true;
  dtls_ma = true;
  get_psk_info = true;
  get_ecdsa_key = true;
  verify_ecdsa_key = true;
}

client_hello-overrun_iff_example :
    (client_hello ma_end handshake_new 9 (replicate 28 4) (replicate 32 5) ≡ none)
    ↔ (is_ma_supported ma_end true ≡ true)
client_hello-overrun_iff_example =
    client_hello-overrun_iff ma_end handshake_new 9 (replicate 28 4) (replicate 32 5) sixty_four
      refl

dtls_update_parameters-client_hello_example :
    (client_hello psk_end handshake_new 9 (replicate 28 4) name
      ≡ some (ok hello_body, hello_params))
    × (dtls_get_cookie (any_header ++ hello_body) ≡ ok name)
    × (dtls_update_parameters psk_end wait_clienthello
          (some security_new)
          psk_params
          (any_header ++ hello_body)
        ≡ some (
          ok 0,
          record psk_params {
            tmp = hello_random ++ drop 32 psk_params.tmp;
            hs_cipher = 0xC0A8;
            hs_compression = 0;
          },
        ))
dtls_update_parameters-client_hello_example =
    dtls_update_parameters-client_hello psk_end psk_end wait_clienthello (some security_new)
      handshake_new psk_params 9 (replicate 28 4) name any_header 0xC0A8 refl sixty_four refl
      (omega arith) few_suites suite_known
