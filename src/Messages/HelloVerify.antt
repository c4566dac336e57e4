-- ===== src/Messages/HelloVerify.antt =====
-- dtls.c: check_server_hello_verify_request, up to the ClientHello that it sends again with the cookie.
use tinydtls.Base.{Bytes, Option, drop, if◌then◌else◌, length, ltb, none, some, take, ◌+◌}
use tinydtls.Numeric.{byte_at}
use tinydtls.Alert.{decode_error, alert_fatal_create, ok, fail, Result}
use tinydtls.Header.{dtls_hs_length, dtls_hv_length}

-- hv->cookie with hv->cookie_length, which is not compared with the length of the message; `none`
-- where the cookie would end behind the end of the message.
unfoldable pub verify_request_cookie : Bytes → Option (Result Bytes)
verify_request_cookie msg =
    let cookie = drop (dtls_hs_length + dtls_hv_length) msg in
    let n = byte_at (drop dtls_hs_length msg) 2 in
    if ltb (length msg) (dtls_hs_length + dtls_hv_length)
    then some (fail (alert_fatal_create decode_error))
    else if ltb (length cookie) n
    then none
    else some (ok (take n cookie))
