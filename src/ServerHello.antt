-- ===== src/ServerHello.antt =====
-- dtls.c: the ServerHello message, dtls_send_server_hello and check_server_hello. The message is
-- built up to its body, which dtls_send_handshake_msg then sends.
pub mod RoundTrip
pub mod Short
mod Tests
use tinydtls.Base.{
  Bytes, Option, [], drop, false, if◌then◌else◌, length, ltb, none, not, some, take, true, ℕ, ◌*◌,
  ◌++◌, ◌+◌, ◌-◌, ◌/◌, ◌==◌, ◌∷◌,
}
use tinydtls.Numeric.{byte_at, int_to_uint8, int_to_uint16, int_to_uint32, uint16_to_int}
use tinydtls.Alert.{
  decode_error, protocol_version, insufficient_security, alert_fatal_create, fail, Result,
}
use tinydtls.Cookie.{skip_var_field}
use tinydtls.Retransmit.{clock_second}
use tinydtls.Crypto.{dtls_random_length}
use tinydtls.Peer.{State, Handshake}
use tinydtls.Record.{tls_null_with_null_null}
use tinydtls.Cipher.{Context, is_ecdsa_cipher, known_cipher}
use tinydtls.Header.{dtls_version, dtls_hs_length}
use tinydtls.Extension.{dtls_check_tls_extension}

abbrev pub tls_compression_null : ℕ
tls_compression_null = 0

-- compression_methods
abbrev pub compression_methods : Bytes
compression_methods = tls_compression_null ∷ []

-- TLS_EXT_* and TLS_CERT_TYPE_RAW_PUBLIC_KEY of global.h, as far as a ServerHello has them
abbrev pub tls_ext_ec_point_formats : ℕ
tls_ext_ec_point_formats = 11

abbrev pub tls_ext_client_certificate_type : ℕ
tls_ext_client_certificate_type = 19

abbrev pub tls_ext_server_certificate_type : ℕ
tls_ext_server_certificate_type = 20

abbrev pub tls_cert_type_raw_public_key : ℕ
tls_cert_type_raw_public_key = 2

-- handshake->tmp.random.server: `now` is the reading of the clock, and `prng` what dtls_prng gives
unfoldable pub server_random : ℕ → Bytes → Bytes
server_random now prng = int_to_uint32 (now / clock_second) ++ prng

-- The cipher suite and the compression method, where there is a cipher suite.
unfoldable pub chosen_suite : Handshake → Bytes
chosen_suite h =
    if h.hs_cipher == tls_null_with_null_null
    then []
    else int_to_uint16 h.hs_cipher ++ int_to_uint8 (byte_at compression_methods h.hs_compression)

-- The extensions, with their length in front.
unfoldable pub server_extensions : Context → ℕ → Bytes
server_extensions ctx cipher =
    if is_ecdsa_cipher ctx cipher
    then int_to_uint16 16
      ++ (int_to_uint16 tls_ext_client_certificate_type
          ++ (int_to_uint16 1
              ++ (int_to_uint8 tls_cert_type_raw_public_key
                  ++ (int_to_uint16 tls_ext_server_certificate_type
                      ++ (int_to_uint16 1
                          ++ (int_to_uint8 tls_cert_type_raw_public_key
                              ++ (int_to_uint16 tls_ext_ec_point_formats
                                  ++ (int_to_uint16 2 ++ (int_to_uint8 1 ++ int_to_uint8 0)))))))))
    else []

-- dtls_send_server_hello: the body of the message, and the handshake parameters with the random
unfoldable pub server_hello : Context → Handshake → ℕ → Bytes → Bytes × Handshake
server_hello ctx h now prng =
    let random = server_random now prng in
    (
      int_to_uint16 dtls_version
          ++ (random ++ (int_to_uint8 0 ++ (chosen_suite h ++ server_extensions ctx h.hs_cipher))),
      record h {
        tmp = take dtls_random_length h.tmp ++ (random ++ drop (2 * dtls_random_length) h.tmp);
      },
    )

-- From the cipher suite on, in check_server_hello; `none` where it reads behind the end of the message.
unfoldable pub read_suite : Context → State → Handshake → Bytes → Option (Result ℕ × Handshake)
read_suite ctx state h d =
    let cipher = uint16_to_int d in
    let h' = record h { hs_cipher = cipher } in
    if ltb (length d) 2
    then none
    else if not (known_cipher ctx cipher true)
    then some (fail (alert_fatal_create insufficient_security), h')
    else if ltb (length d) 3
    then none
    else if not (byte_at d 2 == tls_compression_null)
    then some (fail (alert_fatal_create insufficient_security), h')
    else some (dtls_check_tls_extension ctx cipher state (drop 3 d) (length d - 3) false, h')

-- From the random on, behind the version; what is taken into the digest is there already.
unfoldable pub read_random : Context → State → Handshake → Bytes → Option (Result ℕ × Handshake)
read_random ctx state h d =
    let random = take dtls_random_length d ++ drop (2 * dtls_random_length) h.tmp in
    let h' = record h { tmp = take dtls_random_length h.tmp ++ random } in
    if ltb (length d) dtls_random_length
    then none
    else elim (skip_var_field (drop dtls_random_length d)) [
      | none ↦ some (fail (alert_fatal_create decode_error), h')
      | some d ↦ read_suite ctx state h' d
    ]

-- check_server_hello: the result and the handshake parameters; `none` where it reads behind the end
-- of the message, which its first test does not rule out. `state` is that of the peer.
unfoldable pub check_server_hello :
    Context → State → Handshake → Bytes → Option (Result ℕ × Handshake)
check_server_hello ctx state h msg =
    let d = drop dtls_hs_length msg in
    let hashed = record h { hs_hash = h.hs_hash ++ msg } in
    if ltb (length msg) (dtls_hs_length + dtls_hs_length)
    then some (fail (alert_fatal_create decode_error), h)
    else if not (uint16_to_int d == dtls_version)
    then some (fail (alert_fatal_create protocol_version), hashed)
    else read_random ctx state hashed (drop 2 d)
