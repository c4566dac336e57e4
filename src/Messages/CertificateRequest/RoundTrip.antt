-- ===== src/Messages/CertificateRequest/RoundTrip.antt =====
-- The CertificateRequest of a server asks the client for a certificate; and one that no client survives.
use tinydtls.Base.{
  Bytes, arith, drop-append_length, length, length-append, refl, some, true, ◌++◌, ◌≡◌,
}
use tinydtls.Alert.{ok}
use tinydtls.Numeric.{int_to_uint8, int_to_uint16, uint16_to_int}
use tinydtls.Peer.{Handshake}
use tinydtls.Messages.CertificateRequest.{
  certificate_request_body, check_certificate_request, check_algorithms, type_loop, algorithm_loop,
}

-- A CertificateRequest whose body dtls_send_server_certificate_request has built is taken by
-- check_certificate_request: the client then authenticates itself, and has hashed the message.
pub check_certificate_request-body :
    (h : Handshake) (header : Bytes)
    → length header ≡ 12
    → check_certificate_request h (header ++ certificate_request_body)
      ≡ some (
        ok 0,
        record h {
          hs_hash = h.hs_hash ++ (header ++ certificate_request_body);
          do_client_auth = true;
        },
      )
unfolding check_certificate_request check_algorithms type_loop algorithm_loop
    certificate_request_body int_to_uint8 int_to_uint16 uint16_to_int
check_certificate_request-body h header whole =
    let msg = header ++ certificate_request_body in
    let begins = drop-append_length 12 header certificate_request_body whole in
    let size : length msg ≡ 20 =
      omega (arith, length-append header certificate_request_body, whole) in
    rw (begins, size) refl
