-- ===== src/Extension.antt =====
-- dtls.c: the TLS extensions of a hello message. A pointer is the rest of the message from it on, and
-- its length is a second argument; a byte behind the end of the message reads as 0.
pub mod Laws
mod Tests
use tinydtls.Alert.{
  fail, ok, Result, level_warning, handshake_failure, no_renegotiation, alert_create,
  alert_fatal_create, ◌>>=◌,
}
use tinydtls.Base.{
  Bool, Bytes, drop, false, if◌then◌else◌, ltb, not, suc, true, zero, ℕ, ◌&&◌, ◌+◌, ◌-◌, ◌==◌, ◌||◌,
}
use tinydtls.Numeric.{byte_at, uint16_to_int}
use tinydtls.Peer.{state_eq, State, connected}
use tinydtls.Cipher.{Context, is_ecdsa_cipher}

-- The loop of verify_ext_eliptic_curves, for `i` bytes: is secp256r1 (23) among the names?
unfoldable pub curve_loop : ℕ → Bytes → Bool
curve_loop zero d = false
curve_loop (suc zero) d = uint16_to_int d == 23
curve_loop (suc (suc i)) d = (uint16_to_int d == 23) || curve_loop i (drop 2 d)

-- verify_ext_eliptic_curves
unfoldable pub verify_ext_eliptic_curves : Bytes → ℕ → Result ℕ
verify_ext_eliptic_curves d n =
    if not (uint16_to_int d + 2 == n)
    then fail (alert_fatal_create handshake_failure)
    else if curve_loop (n - 2) (drop 2 d)
    then ok 0
    else fail (alert_fatal_create handshake_failure)

-- The loop of verify_ext_cert_type and of verify_ext_ec_point_formats: is `want` among `i` bytes?
unfoldable pub byte_loop : ℕ → ℕ → Bytes → Bool
byte_loop want zero d = false
byte_loop want (suc i) d = (byte_at d 0 == want) || byte_loop want i (drop 1 d)

-- verify_ext_cert_type with the raw public key (2), and verify_ext_ec_point_formats with the
-- uncompressed point (0): the two differ in nothing else.
unfoldable pub verify_byte_list : ℕ → Bytes → ℕ → Result ℕ
verify_byte_list want d n =
    if not (byte_at d 0 + 1 == n)
    then fail (alert_fatal_create handshake_failure)
    else if byte_loop want (n - 1) (drop 1 d)
    then ok 0
    else fail (alert_fatal_create handshake_failure)

abbrev pub verify_ext_cert_type : Bytes → ℕ → Result ℕ
verify_ext_cert_type = verify_byte_list 2

abbrev pub verify_ext_ec_point_formats : Bytes → ℕ → Result ℕ
verify_ext_ec_point_formats = verify_byte_list 0

-- The four flags of dtls_check_tls_extension.
pub record Seen : Type 0 where
  pub elliptic_curve : Bool
  pub client_cert_type : Bool
  pub server_cert_type : Bool
  pub ec_point_formats : Bool

-- The case of a certificate type: a list in a ClientHello, one type in a ServerHello.
unfoldable pub cert_type_ok : Bool → Bytes → ℕ → Result ℕ
cert_type_ok client_hello d j =
    if client_hello
    then verify_ext_cert_type d j
    else if byte_at d 0 == 2
    then ok 0
    else fail (alert_fatal_create handshake_failure)

-- The switch over the type `i` of one extension of `j` bytes: the flags, or the jump to `error`.
unfoldable pub one_extension : Bool → ℕ → Bytes → ℕ → Seen → Result Seen
one_extension client_hello i d j seen =
    if i == 10
    then verify_ext_eliptic_curves d j >>= (λ r. ok (record seen { elliptic_curve = true }))
    else if i == 19
    then cert_type_ok client_hello d j >>= (λ r. ok (record seen { client_cert_type = true }))
    else if i == 20
    then cert_type_ok client_hello d j >>= (λ r. ok (record seen { server_cert_type = true }))
    else if i == 11
    then verify_ext_ec_point_formats d j >>= (λ r. ok (record seen { ec_point_formats = true }))
    else ok seen

-- while (data_length) { … } with a count of rounds; each round takes at least 4 of the `n` bytes.
unfoldable pub extension_loop : ℕ → Bool → Bytes → ℕ → Seen → Result Seen
extension_loop zero client_hello d n seen = fail (alert_fatal_create handshake_failure)
extension_loop (suc rounds) client_hello d n seen =
    let i = uint16_to_int d in
    let j = uint16_to_int (drop 2 d) in
    if n == 0
    then ok seen
    else if ltb n 4
    then fail (alert_fatal_create handshake_failure)
    else if ltb (n - 4) j
    then fail (alert_fatal_create handshake_failure)
    else elim (one_extension client_hello i (drop 4 d) j seen) [
      | fail e ↦ fail e
      | ok seen' ↦ extension_loop rounds client_hello (drop (4 + j) d) (n - 4 - j) seen'
    ]

-- The flags that an ECDSA cipher suite needs.
unfoldable pub complete : Bool → Seen → Bool
complete true seen =
    seen.elliptic_curve
    && (seen.client_cert_type && (seen.server_cert_type && seen.ec_point_formats))
complete false seen = seen.client_cert_type && seen.server_cert_type

-- The label `error` of dtls_check_tls_extension and dtls_update_parameters: without and with a
-- ClientHello that renegotiates.
pub error_code : Bool → State → ℕ
error_code client_hello state =
    if client_hello && state_eq state connected
    then alert_create level_warning no_renegotiation
    else alert_fatal_create handshake_failure

-- dtls_check_tls_extension, for the cipher suite of the handshake and the state of the peer
unfoldable pub dtls_check_tls_extension : Context → ℕ → State → Bytes → ℕ → Bool → Result ℕ
dtls_check_tls_extension ctx cipher state d n client_hello =
    let none_seen : Seen = record {
      elliptic_curve = false;
      client_cert_type = false;
      server_cert_type = false;
      ec_point_formats = false;
    } in
    if ltb n 2
    then (if is_ecdsa_cipher ctx cipher then fail (error_code client_hello state) else ok 0)
    else if ltb (n - 2) (uint16_to_int d)
    then fail (error_code client_hello state)
    else elim (extension_loop (suc n) client_hello (drop 2 d) (n - 2) none_seen) [
      | fail e ↦ fail (error_code client_hello state)
      | ok seen ↦
          if is_ecdsa_cipher ctx cipher && not (complete client_hello seen)
          then fail (error_code client_hello state)
          else ok 0
    ]
