-- ===== src/ServerHello/Tests.antt =====
-- A ServerHello for a pre-shared key, and one that is cut.
use tinydtls.Base.{Bytes, arith, drop, none, refl, replicate, some, take, true, ◌++◌, ◌∷◌, ◌≡◌}
use tinydtls.Numeric.{uint16_to_int}
use tinydtls.Peer.{Handshake, clienthello, handshake_new}
use tinydtls.Cipher.{
  tls_psk_with_aes_128_ccm_8, is_tls_psk_with_aes_128_ccm_8, is_psk_supported, known_cipher,
}
use tinydtls.Header.{dtls_version}
use tinydtls.Alert.{ok}
use tinydtls.ServerHello.{server_random, server_hello, check_server_hello}
use tinydtls.ServerHello.RoundTrip.{check_server_hello-server_hello}
use tinydtls.ServerHello.Short.{check_server_hello_short}
use tinydtls.Handshake.Quiet.{psk_build, message}

abbrev psk_handshake : Handshake
psk_handshake = record handshake_new { hs_cipher = tls_psk_with_aes_128_ccm_8; hs_compression = 0 }

psk_known : known_cipher psk_build tls_psk_with_aes_128_ccm_8 true ≡ true
unfolding known_cipher is_psk_supported is_tls_psk_with_aes_128_ccm_8
psk_known = refl

check_server_hello-server_hello_example :
    check_server_hello psk_build clienthello handshake_new
      (message 2 ++ (server_hello psk_build psk_handshake 5000 (replicate 28 9)).0)
    ≡ some (
      ok 0,
      record handshake_new {
        hs_hash =
            handshake_new.hs_hash
            ++ (message 2 ++ (server_hello psk_build psk_handshake 5000 (replicate 28 9)).0);
        tmp =
            take 32 handshake_new.tmp
            ++ (server_random 5000 (replicate 28 9) ++ drop 64 handshake_new.tmp);
        hs_cipher = tls_psk_with_aes_128_ccm_8;
      },
    )
check_server_hello-server_hello_example =
    check_server_hello-server_hello psk_build psk_build psk_handshake handshake_new clienthello 5000
      (replicate 28 9) (message 2) refl refl psk_known refl (omega arith) refl

abbrev cut_message : Bytes
cut_message = message 2 ++ (254 ∷ 253 ∷ replicate 10 0)

cut_version : uint16_to_int (drop 12 cut_message) ≡ dtls_version
unfolding uint16_to_int
cut_version = refl

check_server_hello_short_example :
    check_server_hello psk_build clienthello handshake_new cut_message ≡ none
check_server_hello_short_example =
    check_server_hello_short psk_build clienthello handshake_new cut_message (omega arith)
      (omega arith) cut_version
