-- ===== src/Messages/CertificateRequest.antt =====
-- dtls.c: the CertificateRequest message, dtls_send_server_certificate_request and
-- check_certificate_request.
pub mod RoundTrip
use tinydtls.Base.{
  Bool, Bytes, Option, drop, false, if◌then◌else◌, length, ltb, none, not, some, suc, true, zero, ℕ,
  ◌&&◌, ◌++◌, ◌+◌, ◌==◌, ◌||◌,
}
use tinydtls.Numeric.{byte_at, int_to_uint8, int_to_uint16, uint16_to_int}
use tinydtls.Alert.{handshake_failure, decode_error, alert_fatal_create, ok, fail, Result}
use tinydtls.Peer.{Handshake}
use tinydtls.Header.{dtls_hs_length}
use tinydtls.Signature.{sig_hash_algo_sha256, sig_hash_algo_ecdsa}

abbrev pub certificate_type_ecdsa_sign : ℕ
certificate_type_ecdsa_sign = 64

-- dtls_send_server_certificate_request: the body
unfoldable pub certificate_request_body : Bytes
certificate_request_body =
    int_to_uint8 1
    ++ (int_to_uint8 certificate_type_ecdsa_sign
        ++ (int_to_uint16 2
            ++ (int_to_uint8 sig_hash_algo_sha256
                ++ (int_to_uint8 sig_hash_algo_ecdsa ++ int_to_uint16 0))))

-- for (; i > 0 ; i -= sizeof(uint8)) over the certificate types: is ecdsa_sign among them, and where
-- is `data` then; `none` where it reads behind the end of the message.
unfoldable pub type_loop : ℕ → Bool → Bytes → Option (Bool × Bytes)
type_loop zero found d = some (found, d)
type_loop (suc i) found d =
    let rest = type_loop i (found || (byte_at d 0 == certificate_type_ecdsa_sign)) (drop 1 d) in
    if length d == 0 then none else rest

-- for (; i > 0 ; i -= sizeof(uint16)) over the algorithms, in the same way. For an odd number of bytes
-- `i`, which is unsigned, passes 0 and wraps around, and the loop leaves the message.
unfoldable pub algorithm_loop : ℕ → Bool → Bytes → Option Bool
algorithm_loop zero found d = some found
algorithm_loop (suc zero) found d = none
algorithm_loop (suc (suc i)) found d =
    let this = (byte_at d 0 == sig_hash_algo_sha256) && (byte_at d 1 == sig_hash_algo_ecdsa) in
    let rest = algorithm_loop i (found || this) (drop 2 d) in
    if ltb (length d) 2 then none else rest

-- From the algorithms on; `n` is data_length, which is not reduced.
unfoldable pub check_algorithms : Handshake → ℕ → Bytes → Option (Result ℕ × Handshake)
check_algorithms h n d =
    let i = uint16_to_int d in
    if ltb (length d) 2
    then none
    else if ltb n (i + 1)
    then some (fail (alert_fatal_create decode_error), h)
    else elim (algorithm_loop i false (drop 2 d)) [
      | none ↦ none
      | some found ↦
          if found
          then some (ok 0, record h { do_client_auth = true })
          else some (fail (alert_fatal_create handshake_failure), h)
    ]

-- check_certificate_request: the result and the handshake parameters
unfoldable pub check_certificate_request : Handshake → Bytes → Option (Result ℕ × Handshake)
check_certificate_request h msg =
    let hashed = record h { hs_hash = h.hs_hash ++ msg } in
    let d = drop dtls_hs_length msg in
    let i = byte_at d 0 in
    if ltb (length msg) (dtls_hs_length + 5)
    then some (fail (alert_fatal_create decode_error), hashed)
    else if ltb (length msg) (i + 1)
    then some (fail (alert_fatal_create decode_error), hashed)
    else elim (type_loop i false (drop 1 d)) [
      | none ↦ none
      | some (found, d) ↦
          if not found
          then some (fail (alert_fatal_create handshake_failure), hashed)
          else check_algorithms hashed (length msg) d
    ]
