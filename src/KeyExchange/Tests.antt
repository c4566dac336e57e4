-- ===== src/KeyExchange/Tests.antt =====
-- Runs of the key exchange with a hash that pads.
use tinydtls.Peer.{wait_changecipherspec, sin, Handshake, security_new, handshake_new}
use tinydtls.Alert.{fail, ok, internal_error, alert_fatal_create}
use tinydtls.KeyExchange.{Peer, verify_data, check_finished, calculate_key_block}
use tinydtls.Base.{
  Bytes, Option, [], arith, drop, false, length, length-append, length-take, none, refl, replicate,
  some, take, true, ◌++◌, ◌↔◌, ◌∷◌, ◌≡◌, ◌≤◌,
}
use tinydtls.Cipher.{Context, is_tls_psk_with_aes_128_ccm_8}
use tinydtls.Header.{Security}
use tinydtls.KeyExchange.KeyBlock.{
  psk_secret, rfc_master, rfc_key_block, calculate_key_block-psk, calculate_key_block-long_psk,
}
use tinydtls.KeyExchange.Finished.{check_finished_iff, check_finished-no_memory}
use tinydtls.Crypto.Keys.{other_end}
use tinydtls.Crypto.{client, server}

abbrev pad_hash : Bytes → Bytes
pad_hash m = take 32 (m ++ replicate 32 0)

length-pad_hash : (m : Bytes) → length (pad_hash m) ≡ 32
length-pad_hash m =
    omega (arith, length-take 32 (m ++ replicate 32 0), length-append m (replicate 32 0))

abbrev handshake : Handshake
handshake = record handshake_new { hs_cipher = 0xC0A8; hs_hash = 1 ∷ 2 ∷ [] }

abbrev zeros : Bytes
zeros = replicate 24 0

check_finished_iff_example : (check_finished pad_hash true true handshake client zeros ≡ ok 0) ↔ (
    (24 ≤ length zeros)
    × (take 12 (drop 12 zeros) ≡ verify_data pad_hash true true handshake (other_end client)))
check_finished_iff_example = check_finished_iff pad_hash length-pad_hash handshake client zeros

abbrev message_header : Bytes
message_header = 20 ∷ replicate 11 0

check_finished-no_memory_example :
    check_finished pad_hash false true handshake client (message_header ++ replicate 12 0) ≡ ok 0
check_finished-no_memory_example =
    check_finished-no_memory pad_hash true handshake client message_header refl

abbrev no_curve : Handshake → Option Bytes
no_curve h = none

abbrev psk_build : Context
psk_build = record {
  dtls_psk = true;
  dtls_ecc = false;
  dtls_ma = false;
  get_psk_info = true;
  get_ecdsa_key = false;
  verify_ecdsa_key = false;
}

abbrev first : Security
first = record security_new { epoch = 0 }

abbrev peer : Peer
peer = record {
  session = record { size = 16; addr = sin 5684 (127 ∷ 0 ∷ 0 ∷ 1 ∷ []); ifindex = 0 };
  role = server;
  state = wait_changecipherspec;
  params0 = some first;
  params1 = none;
  handshake = some handshake;
}

abbrev short_psk : Bytes
short_psk = 1 ∷ 2 ∷ 3 ∷ []

psk_suite : is_tls_psk_with_aes_128_ccm_8 psk_build 0xC0A8 ≡ true
unfolding is_tls_psk_with_aes_128_ccm_8
psk_suite = refl

-- The randoms of a client and a server.
abbrev client_random : Bytes
client_random = replicate 32 3

abbrev server_random : Bytes
server_random = replicate 32 4

abbrev negotiated : Handshake
negotiated = record handshake { tmp = client_random ++ server_random }

abbrev master : Bytes
master = rfc_master pad_hash (psk_secret short_psk) client_random server_random

calculate_key_block-psk_example :
    calculate_key_block pad_hash true true
      (λ i. ok short_psk)
      no_curve
      true
      psk_build
      negotiated
      peer
    ≡ (
      ok 0,
      (
        record negotiated { tmp = master ++ drop 48 negotiated.tmp },
        record peer {
          params1 = some (record {
            compression = 0;
            cipher = 0xC0A8;
            epoch = 1;
            rseq = 0;
            key_block = rfc_key_block pad_hash master client_random server_random;
          });
        },
      ),
    )
unfolding handshake_new
calculate_key_block-psk_example =
    calculate_key_block-psk pad_hash length-pad_hash negotiated client_random server_random refl
      refl (λ i. ok short_psk) no_curve psk_build peer first short_psk refl refl psk_suite
      (omega arith)

calculate_key_block-long_psk_example :
    (calculate_key_block pad_hash true true
      (λ i. ok (replicate 19 1))
      no_curve
      true
      psk_build
      handshake
      peer).0
    ≡ fail (alert_fatal_create internal_error)
calculate_key_block-long_psk_example =
    calculate_key_block-long_psk pad_hash true true no_curve psk_build handshake peer first
      (replicate 19 1) refl psk_suite (omega arith)
