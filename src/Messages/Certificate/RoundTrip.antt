-- ===== src/Messages/Certificate/RoundTrip.antt =====
-- A Certificate that one end sends is read by the other.
use tinydtls.Messages.Certificate.{
  or_zero, EcdsaKey, cert_asn1_header, certificate_body, check_server_certificate,
}
use tinydtls.Base.{
  ◌∙◌, Bytes, arith, drop, drop-append_length, length, length-append, refl, some,
  take-append_length, take_all, ℕ, ◌++◌, ◌≡◌,
}
use tinydtls.Alert.{Result}
use tinydtls.Peer.{Handshake}
use tinydtls.Numeric.{int_to_uint24}
use tinydtls.Numeric.RoundTrip.{uint24_to_int-int_to_uint24}

-- The body of a key whose components have 32 bytes.
certificate_body_lem :
    (key : EcdsaKey)
    → length key.pub_key_x ≡ 32
    → length key.pub_key_y ≡ 32
    → certificate_body key
      ≡ int_to_uint24 91 ++ (cert_asn1_header ++ (key.pub_key_x ++ key.pub_key_y))
unfolding certificate_body
certificate_body_lem key hx hy =
    rw
      (take_all 32 key.pub_key_x (omega (arith, hx)), take_all 32 key.pub_key_y (omega (arith, hy)))
      refl

-- The tests and the reads on the body.
check_body :
    (verify_key : Bytes → Bytes → Result ℕ) (h : Handshake) (msg x y : Bytes)
    → drop 12 msg ≡ int_to_uint24 91 ++ (cert_asn1_header ++ (x ++ y))
    → length x ≡ 32
    → length y ≡ 32
    → check_server_certificate verify_key h msg
      ≡ some (
        or_zero (verify_key x y),
        record h { hs_hash = h.hs_hash ++ msg; other_pub_x = x; other_pub_y = y },
      )
unfolding check_server_certificate int_to_uint24
check_body verify_key h msg x y begins hx hy =
    let total : length (x ++ y) ≡ 64 = omega (arith, length-append x y, hx, hy) in
    let code = uint24_to_int-int_to_uint24 91 (cert_asn1_header ++ (x ++ y)) in
    rw
      (
        begins,
        code,
        total,
        take-append_length 32 x y hx,
        drop-append_length 32 x y hx,
        take_all 32 y (omega (arith, hy)),
      )
      refl

-- A Certificate message whose body dtls_send_certificate_ecdsa has built is taken by
-- check_server_certificate: the handshake parameters have the two components of the key, of 32 bytes
-- each, and the message is hashed; the result is 0 where the callback takes the key, and its error
-- where it does not.
pub check_server_certificate-certificate_body :
    (verify_key : Bytes → Bytes → Result ℕ) (h : Handshake) (key : EcdsaKey) (header : Bytes)
    → length header ≡ 12
    → length key.pub_key_x ≡ 32
    → length key.pub_key_y ≡ 32
    → check_server_certificate verify_key h (header ++ certificate_body key)
      ≡ some (
        or_zero (verify_key key.pub_key_x key.pub_key_y),
        record h {
          hs_hash = h.hs_hash ++ (header ++ certificate_body key);
          other_pub_x = key.pub_key_x;
          other_pub_y = key.pub_key_y;
        },
      )
check_server_certificate-certificate_body verify_key h key header whole hx hy =
    check_body verify_key h (header ++ certificate_body key) key.pub_key_x key.pub_key_y
      (drop-append_length 12 header (certificate_body key) whole ∙ certificate_body_lem key hx hy)
      hx hy
