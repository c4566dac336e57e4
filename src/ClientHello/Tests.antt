-- ===== src/ClientHello/Tests.antt =====
-- A ClientHello with one cipher suite.
use tinydtls.Numeric.{uint16_to_int}
use tinydtls.ClientHello.{
  ok, cipher_loop, compression_loop, read_compression, read_ciphers, dtls_update_parameters,
}
use tinydtls.Peer.{wait_clienthello, Handshake, security_new, handshake_new}
use tinydtls.Base.{Bytes, [], false, refl, replicate, some, true, ◌++◌, ◌∷◌, ◌≡◌}
use tinydtls.Cookie.{skip_var_field}
use tinydtls.Cipher.{
  Context, is_tls_ecdhe_ecdsa_with_aes_128_ccm_8, is_tls_psk_with_aes_128_ccm_8,
  is_tls_ma_ecdsa_with_aes_128_cbc_sha, is_tls_ma_ecdsa_with_aes_256_cbc_sha, is_psk_supported,
  is_ecdsa_cipher, known_cipher,
}
use tinydtls.Extension.{dtls_check_tls_extension}
use tinydtls.ClientHello.Ciphers.{IsChosen, dtls_update_parameters-IsChosen}

abbrev psk_server : Context
psk_server = record {
  dtls_psk = true;
  dtls_ecc = false;
  dtls_ma = false;
  get_psk_info = true;
  get_ecdsa_key = false;
  verify_ecdsa_key = false;
}

abbrev suites : Bytes
suites = 0 ∷ 47 ∷ 0xC0 ∷ 0xA8 ∷ []

abbrev hello : Bytes
hello = replicate 12 0 ++ 254 ∷ 253 ∷ replicate 32 9 ++ 0 ∷ 0 ∷ 0 ∷ 2 ∷ 0xC0 ∷ 0xA8 ∷ 1 ∷ 0 ∷ []

abbrev chosen : Handshake
chosen = record handshake_new { tmp = replicate 32 9 ++ replicate 32 0; hs_cipher = 0xC0A8 }

accepted :
    dtls_update_parameters psk_server wait_clienthello (some security_new) handshake_new hello
    ≡ some (ok 0, chosen)
unfolding uint16_to_int dtls_update_parameters read_ciphers read_compression cipher_loop
    compression_loop dtls_check_tls_extension skip_var_field known_cipher is_ecdsa_cipher
    is_tls_psk_with_aes_128_ccm_8 is_psk_supported is_tls_ecdhe_ecdsa_with_aes_128_ccm_8
    is_tls_ma_ecdsa_with_aes_128_cbc_sha is_tls_ma_ecdsa_with_aes_256_cbc_sha security_new
    handshake_new
accepted = refl

dtls_update_parameters-IsChosen_example : IsChosen psk_server (some security_new) 0xC0A8
dtls_update_parameters-IsChosen_example =
    dtls_update_parameters-IsChosen psk_server wait_clienthello (some security_new) handshake_new
      hello accepted
