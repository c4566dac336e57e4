-- ===== src/Messages/ServerKeyExchange/Hint.antt =====
-- The identity hint of a server is read by the client.
use tinydtls.Base.{
  ◌^◌, Bytes, arith, drop-append_length, length, length-append, ltb, refl, take_all, ◌++◌, ◌≡◌, ◌≤◌,
  false, true, ◌∙◌, ◌+◌, ◌-◌, ◌==◌, ◌<◌,
}
use tinydtls.Alert.{ok, fail, internal_error, alert_fatal_create}
use tinydtls.Peer.{Handshake}
use tinydtls.Numeric.{int_to_uint16, uint16_to_int}
use tinydtls.Numeric.RoundTrip.{uint16_to_int-int_to_uint16}
use tinydtls.Messages.ServerKeyExchange.{psk_hint_body, check_server_key_exchange_psk}

module _ (h : Handshake) (header psk_hint : Bytes) (whole : length header ≡ 12) where
  abbrev pub hint_message : Bytes
  hint_message = header ++ (int_to_uint16 (length psk_hint) ++ psk_hint)

  -- An identity hint of at most 32 bytes is put into a ServerKeyExchange message, which
  -- check_server_key_exchange_psk takes: the client has the hint and has hashed the message. A longer one
  -- is not sent, and a client that meets one refuses the message with internal_error.
  pub check_server_key_exchange_psk-psk_hint_body :
      (length psk_hint ≤ 32
        → (psk_hint_body psk_hint ≡ ok (int_to_uint16 (length psk_hint) ++ psk_hint))
          × (check_server_key_exchange_psk h hint_message
              ≡ (ok 0, record h { hs_hash = h.hs_hash ++ hint_message; identity = psk_hint })))
      × (32 < length psk_hint
          → length psk_hint < 2 ^ 16
          → (psk_hint_body psk_hint ≡ fail (alert_fatal_create internal_error))
            × ((check_server_key_exchange_psk h hint_message).0
                ≡ fail (alert_fatal_create internal_error)))
  unfolding psk_hint_body check_server_key_exchange_psk int_to_uint16
  check_server_key_exchange_psk-psk_hint_body =
      let body = int_to_uint16 (length psk_hint) ++ psk_hint in
      let begins = drop-append_length 12 header body whole in
      let field = uint16_to_int-int_to_uint16 (length psk_hint) psk_hint in
      let size : length hint_message ≡ 14 + length psk_hint =
        omega (arith, length-append header body, whole) in
      let left : 14 + length psk_hint - 12 - 2 ≡ length psk_hint = omega arith in
      let long_enough : ltb (14 + length psk_hint) 14 ≡ false = ground arith in
      let same : (length psk_hint == length psk_hint) ≡ true = ground arith in
      (
        λ short.
            let code : uint16_to_int body ≡ length psk_hint = field ∙ omega (arith, short) in
            let fits : ltb 32 (length psk_hint) ≡ false = ground (arith, short) in
            (
              rw fits refl,
              rw
                  (
                    begins,
                    code,
                    size,
                    long_enough,
                    left,
                    same,
                    fits,
                    take_all (length psk_hint) psk_hint (omega arith),
                  )
                  refl,
            ),
        λ long narrow.
            let code : uint16_to_int body ≡ length psk_hint = field ∙ omega (arith, narrow) in
            let over : ltb 32 (length psk_hint) ≡ true = ground (arith, long) in
            (rw over refl, rw (begins, code, size, long_enough, left, same, over) refl),
      )
