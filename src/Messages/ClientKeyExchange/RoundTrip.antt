-- ===== src/Messages/ClientKeyExchange/RoundTrip.antt =====
-- A ClientKeyExchange that a client sends is read by the server.
use tinydtls.Base.{
  drop-drop, sym, Bytes, [], ap, arith, drop, drop-append_length, length, length-append, ltb, leb,
  refl, some, take_all, ◌++◌, ◌≡◌, ◌≤◌, false, true, ◌∙◌, ◌+◌, ◌==◌,
}
use tinydtls.Alert.{ok, Result}
use tinydtls.Peer.{Handshake}
use tinydtls.Cipher.{Context, is_ecdsa_cipher, is_tls_psk_with_aes_128_ccm_8}
use tinydtls.Numeric.{int_to_uint16, uint16_to_int}
use tinydtls.Numeric.RoundTrip.{uint16_to_int-int_to_uint16}
use tinydtls.KeyExchange.{check_client_keyexchange, read_identity}
use tinydtls.Messages.ClientKeyExchange.{identity_body, client_key_exchange}
use tinydtls.Signature.Ecdsa.{Ecc}

-- The server's reading of an identity of up to 32 bytes.
read_identity_lem :
    (h : Handshake) (header id : Bytes)
    → length header ≡ 12
    → length id ≤ 32
    → read_identity h (header ++ (int_to_uint16 (length id) ++ id))
      ≡ ok (record h { identity = id })
unfolding read_identity int_to_uint16
read_identity_lem h header id whole short =
    let body = int_to_uint16 (length id) ++ id in
    let msg = header ++ body in
    let begins = drop-append_length 12 header body whole in
    let code : uint16_to_int body ≡ length id =
      uint16_to_int-int_to_uint16 (length id) id ∙ omega (arith, short) in
    let size : length msg ≡ 12 + (2 + length id) =
      omega (arith, length-append header body, whole) in
    let behind : drop 14 msg ≡ id =
      sym (drop-drop 2 12 msg)
      ∙ ap (λ (d : Bytes). drop 2 d) begins
      ∙ drop-append_length 2 (int_to_uint16 (length id)) id (unfold int_to_uint16 in refl) in
    let whole_id = take_all (length id) id (omega arith) in
    let a : leb 14 (12 + (2 + length id)) ≡ true = ground arith in
    let b : (14 + length id == 12 + (2 + length id)) ≡ true = ground arith in
    let c : leb (length id) 32 ≡ true = ground (arith, short) in
    rw (begins, code, size, behind, whole_id, a, b, c) refl

-- A ClientKeyExchange that dtls_send_client_key_exchange builds for a pre-shared key is taken by
-- check_client_keyexchange: both ends then have the identity that the callback of the client gave.
-- The identity has 32 bytes at most, as the callback is told, and both ends use the suite.
pub check_client_keyexchange-identity :
    (ecc : Ecc) (ctx_c ctx_s : Context) (get_psk_info : Bytes → Result Bytes) (hc hs : Handshake)
    (header id : Bytes)
    → length header ≡ 12
    → length id ≤ 32
    → get_psk_info hc.identity ≡ ok id
    → is_tls_psk_with_aes_128_ccm_8 ctx_c hc.hs_cipher ≡ true
    → is_tls_psk_with_aes_128_ccm_8 ctx_s hs.hs_cipher ≡ true
    → is_ecdsa_cipher ctx_s hs.hs_cipher ≡ false
    → let body = int_to_uint16 (length id) ++ id in
      (client_key_exchange ecc ctx_c get_psk_info [] hc
        ≡ some (ok body, record hc { identity = id }))
      × (check_client_keyexchange ctx_s hs (header ++ body) ≡ ok (record hs { identity = id }))
unfolding client_key_exchange identity_body check_client_keyexchange
check_client_keyexchange-identity ecc ctx_c ctx_s get_psk_info hc hs header id whole short given pc
      ps ns =
    let fits : ltb 66 (length id + 2) ≡ false = ground (arith, short) in
    (rw (pc, given, fits) refl, rw (ns, ps) (read_identity_lem hs header id whole short))
