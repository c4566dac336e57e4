-- ===== src/Messages/ClientHello.antt =====
-- dtls.c: the ClientHello message that dtls_send_client_hello builds, up to the sending.
pub mod Accepted
pub mod RoundTrip
pub mod Size
use tinydtls.Base.{
  Option, some, none, ◌-◌, Bytes, List, [], drop, if◌then◌else◌, length, ltb, ℕ, ◌*◌, ◌++◌, ◌+◌,
  ◌==◌, ◌||◌, ◌∷◌, take, true,
}
use tinydtls.Numeric.{int_to_uint8, int_to_uint16}
use tinydtls.Alert.{handshake_failure, alert_fatal_create, ok, fail, Result}
use tinydtls.Crypto.{dtls_random_length}
use tinydtls.Cipher.{
  Context, is_psk_supported, is_ecdsa_supported, is_ma_supported, tls_psk_with_aes_128_ccm_8,
  tls_ecdhe_ecdsa_with_aes_128_ccm_8, tls_ma_ecdsa_with_aes_128_cbc_sha,
  tls_ma_ecdsa_with_aes_256_cbc_sha,
}
use tinydtls.Header.{dtls_version}
use tinydtls.Peer.{Handshake}
use tinydtls.ServerHello.{
  tls_compression_null, tls_ext_client_certificate_type, tls_ext_server_certificate_type,
  tls_ext_ec_point_formats, tls_cert_type_raw_public_key, server_random,
}
use tinydtls.Signature.{sig_hash_algo_sha256, sig_hash_algo_ecdsa}
use tinydtls.Messages.ServerKeyExchange.{tls_ext_elliptic_curves_secp256r1}

abbrev pub dtls_cookie_length_max : ℕ
dtls_cookie_length_max = 32

abbrev pub tls_ext_elliptic_curves : ℕ
tls_ext_elliptic_curves = 10

abbrev pub tls_ext_sig_hash_algo : ℕ
tls_ext_sig_hash_algo = 13

-- The cipher suites that are offered, in order.
unfoldable pub offered : Context → List ℕ
offered ctx =
    (if is_ma_supported ctx true
      then tls_ma_ecdsa_with_aes_128_cbc_sha ∷ tls_ma_ecdsa_with_aes_256_cbc_sha ∷ []
      else [])
    ++ ((if is_ecdsa_supported ctx true then tls_ecdhe_ecdsa_with_aes_128_ccm_8 ∷ [] else [])
        ++ (if is_psk_supported ctx then tls_psk_with_aes_128_ccm_8 ∷ [] else []))

-- Suites as they stand in the message.
abbrev pub suite_bytes : List ℕ → Bytes
suite_bytes [] = []
suite_bytes (c ∷ cs) = int_to_uint16 c ++ suite_bytes cs

-- The extensions with their length, where a suite with a curve is offered.
unfoldable pub client_extensions : Context → Bytes
client_extensions ctx =
    if is_ecdsa_supported ctx true || is_ma_supported ctx true
    then int_to_uint16 (6 + 6 + 8 + 6 + 8)
      ++ (int_to_uint16 tls_ext_client_certificate_type
          ++ (int_to_uint16 2
              ++ (int_to_uint8 1
                  ++ (int_to_uint8 tls_cert_type_raw_public_key
                      ++ (int_to_uint16 tls_ext_server_certificate_type
                          ++ (int_to_uint16 2
                              ++ (int_to_uint8 1
                                  ++ (int_to_uint8 tls_cert_type_raw_public_key
                                      ++ (int_to_uint16 tls_ext_elliptic_curves
                                          ++ (int_to_uint16 4
                                              ++ (int_to_uint16 2
                                                  ++ (int_to_uint16
                                                        tls_ext_elliptic_curves_secp256r1
                                                      ++ (int_to_uint16 tls_ext_ec_point_formats
                                                          ++ (int_to_uint16 2
                                                            ++ (int_to_uint8 1
                                                            ++ (int_to_uint8 0
                                                            ++ (int_to_uint16 tls_ext_sig_hash_algo
                                                            ++ (int_to_uint16 4
                                                            ++ (int_to_uint16 2
                                                            ++ (int_to_uint8 sig_hash_algo_sha256
                                                            ++ int_to_uint8
                                                            sig_hash_algo_ecdsa))))))))))))))))))))
    else []

-- The body behind the random.
unfoldable pub client_hello_rest : Context → Bytes → Bytes
client_hello_rest ctx cookie =
    int_to_uint8 0
    ++ (int_to_uint8 (length cookie)
        ++ (cookie
            ++ (int_to_uint16 (2 * length (offered ctx))
                ++ (suite_bytes (offered ctx)
                    ++ (int_to_uint8 1
                        ++ (int_to_uint8 tls_compression_null ++ client_extensions ctx))))))

-- handshake->tmp with a new random of the client, which is made as that of the server is.
unfoldable pub with_client_random : Handshake → ℕ → Bytes → Handshake
with_client_random h now prng = record h {
  tmp = server_random now prng ++ drop dtls_random_length h.tmp;
}

-- DTLS_CH_LENGTH_MAX, as it is written in dtls.c and global.h: DTLS_KC_COUNT is `5 - 1` without
-- parentheses, so that twice it and two more bytes is 5 - 1 * 2 + 2, that is 5.
abbrev pub dtls_ch_length_max : ℕ
dtls_ch_length_max = 34 + 32 + (5 - 1 * 2 + 2) + 2 + 34 + 2 + 4

-- The body as it is written, without a look at the buffer.
unfoldable pub client_hello_body : Context → Handshake → Bytes → Bytes
client_hello_body ctx h cookie =
    int_to_uint16 dtls_version ++ (take dtls_random_length h.tmp ++ client_hello_rest ctx cookie)

-- The local array of DTLS_CH_LENGTH_MAX bytes takes the body; a longer one is written over its
-- end, which none stands for.
unfoldable pub in_buffer : Bytes → Handshake → Option (Result Bytes × Handshake)
in_buffer body h = if ltb dtls_ch_length_max (length body) then none else some (ok body, h)

-- The handshake parameters of a ClientHello: a new random in the first one; with a cookie the random
-- is repeated and the digest starts anew.
unfoldable pub hello_handshake : Handshake → ℕ → Bytes → Bytes → Handshake
hello_handshake h now prng cookie =
    if length cookie == 0 then with_client_random h now prng else record h { hs_hash = [] }

-- dtls_send_client_hello: the body, and the handshake parameters. `now` is the reading of the clock and
-- `prng` what dtls_prng gives.
unfoldable pub client_hello :
    Context → Handshake → ℕ → Bytes → Bytes → Option (Result Bytes × Handshake)
client_hello ctx h now prng cookie =
    if ltb dtls_cookie_length_max (length cookie)
    then some (fail (alert_fatal_create handshake_failure), h)
    else in_buffer (client_hello_body ctx (hello_handshake h now prng cookie) cookie)
        (hello_handshake h now prng cookie)
