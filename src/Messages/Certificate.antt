-- ===== src/Messages/Certificate.antt =====
-- dtls.c: the Certificate message with a raw public key, dtls_send_certificate_ecdsa and
-- check_server_certificate. A message is built up to its body, which dtls_send_handshake_msg sends.
pub mod RoundTrip
use tinydtls.Handshake.Reorder.{stored}
use tinydtls.Base.{
  Bytes, Option, [], drop, if◌then◌else◌, length, ltb, none, not, some, take, ℕ, ◌++◌, ◌==◌, ◌∷◌,
}
use tinydtls.Numeric.{int_to_uint24, uint24_to_int}
use tinydtls.Alert.{decode_error, alert_fatal_create, ok, fail, Result}
use tinydtls.KeyExchange.{dtls_ec_key_size}
use tinydtls.Peer.{Handshake, bytes_eq}
use tinydtls.Header.{dtls_hs_length}

abbrev pub cert_asn1_header : Bytes
cert_asn1_header =
    0x30 ∷ 0x59 ∷ 0x30 ∷ 0x13 ∷ 0x06 ∷ 0x07 ∷ 0x2A ∷ 0x86 ∷ 0x48 ∷ 0xCE ∷ 0x3D ∷ 0x02 ∷ 0x01 ∷ 0x06
    ∷ 0x08 ∷ 0x2A ∷ 0x86 ∷ 0x48 ∷ 0xCE ∷ 0x3D ∷ 0x03 ∷ 0x01 ∷ 0x07 ∷ 0x03 ∷ 0x42 ∷ 0x00 ∷ 0x04 ∷ []

-- dtls_ecdsa_key_t of dtls.h, without the curve, which the code does not read
pub record EcdsaKey : Type 0 where
  pub priv_key : Bytes
  pub pub_key_x : Bytes
  pub pub_key_y : Bytes

-- dtls_send_certificate_ecdsa: the body
unfoldable pub certificate_body : EcdsaKey → Bytes
certificate_body key =
    int_to_uint24 91
    ++ (cert_asn1_header
        ++ (take dtls_ec_key_size key.pub_key_x ++ take dtls_ec_key_size key.pub_key_y))

-- if (err < 0) return err; return 0;
abbrev pub or_zero : Result ℕ → Result ℕ
or_zero (fail n) = fail n
or_zero (ok n) = ok 0

-- check_server_certificate: the result and the handshake parameters. `verify_key` is the callback
-- verify_ecdsa_key. The length is not tested; `none` where it reads behind the end of the message.
unfoldable pub check_server_certificate :
    (Bytes → Bytes → Result ℕ) → Handshake → Bytes → Option (Result ℕ × Handshake)
check_server_certificate verify_key h msg =
    let d = drop dtls_hs_length msg in
    let key = drop 30 d in
    let hashed = record h { hs_hash = h.hs_hash ++ msg } in
    let x = take dtls_ec_key_size key in
    let y = take dtls_ec_key_size (drop dtls_ec_key_size key) in
    let stored = record hashed { other_pub_x = x; other_pub_y = y } in
    if ltb (length d) 3
    then none
    else if not (uint24_to_int d == 91)
    then some (fail (alert_fatal_create decode_error), hashed)
    else if ltb (length d) 30
    then none
    else if not (bytes_eq (take 27 (drop 3 d)) cert_asn1_header)
    then some (fail (alert_fatal_create decode_error), hashed)
    else if ltb (length d) 94
    then none
    else some (or_zero (verify_key x y), stored)
