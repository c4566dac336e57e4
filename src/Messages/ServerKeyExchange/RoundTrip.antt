-- ===== src/Messages/ServerKeyExchange/RoundTrip.antt =====
-- A signed ServerKeyExchange message is taken by the client.
use tinydtls.Base.{
  [], ap, append-nil, sym, take, List, true, ◌+◌, ◌∙◌, ◌∷◌, Bytes, append_assoc, arith, drop,
  drop-append_length, length, length-append, ltb, refl, some, take-append_length, ℕ, ◌++◌, ◌≡◌,
  false, ◌-◌,
}
use tinydtls.Signature.RoundTrip.{
  check_ecdsa_signature_elem-add, IsFull, length-add_ecdsa_signature_elem,
}
use tinydtls.Signature.Ecdsa.{
  ecdsa_verify_sig, ec_key_from_uint32, ecdsa_generate_key, ecdsa_create_sig, Ecc,
}
use tinydtls.Signature.{add_ecdsa_signature_elem, check_ecdsa_signature_elem}
use tinydtls.Signature.Verified.{IsNumber, EcdsaLaws, ecdsa_verify_sig-create}
use tinydtls.Messages.Certificate.{EcdsaKey}
use tinydtls.Messages.ServerKeyExchange.{
  client_random_of, server_random_of, server_key_exchange_body, key_params, verify_params,
  check_server_key_exchange_ecdsa,
}
use tinydtls.Alert.{ok}
use tinydtls.Peer.{Handshake}
use tinydtls.Numeric.{int_to_uint8, int_to_uint16, uint16_to_int}

-- The part that is signed has 69 bytes, of which the last 64 are the point.
length-key_params : (x y : Bytes) → length x ≡ 32 → length y ≡ 32 → length (key_params x y) ≡ 69
unfolding key_params int_to_uint8 int_to_uint16
length-key_params x y hx hy = omega (arith, length-append x y, hx, hy)

-- The tests on the point, for a message that is long enough.
check_point :
    (ecc : Ecc) (hash : Bytes → Bytes) (h : Handshake) (msg x y elem : Bytes) (r s : Bytes) (n : ℕ)
    → drop 12 msg ≡ key_params x y ++ elem
    → length x ≡ 32
    → length y ≡ 32
    → ltb (length msg) 155 ≡ false
    → check_ecdsa_signature_elem msg 81 (length msg - 69) ≡ ok (some r, (some s, n))
    → let h' = record h { hs_hash = h.hs_hash ++ msg; other_eph_pub_x = x; other_eph_pub_y = y } in
      check_server_key_exchange_ecdsa ecc hash h msg
      ≡ verify_params ecc hash h' (key_params x y ++ elem) (some r, (some s, n))
unfolding check_server_key_exchange_ecdsa key_params int_to_uint8 int_to_uint16 uint16_to_int
check_point ecc hash h msg x y elem r s n begins hx hy long signed =
    let point = append_assoc x y elem in
    rw
      (
        long,
        signed,
        begins,
        point,
        take-append_length 32 x (y ++ elem) hx,
        drop-append_length 32 x (y ++ elem) hx,
        take-append_length 32 y elem hy,
      )
      refl

-- A signature that verifies.
verify_params-true :
    (ecc : Ecc) (hash : Bytes → Bytes) (h : Handshake) (d params r s : Bytes) (n : ℕ)
    → take 69 d ≡ params
    → ecdsa_verify_sig ecc hash h.other_pub_x h.other_pub_y 32
        (client_random_of h)
        (server_random_of h)
        params
        r
        s
      ≡ true
    → verify_params ecc hash h d (some r, (some s, n)) ≡ some (ok 0, h)
unfolding verify_params
verify_params-true ecc hash h d params r s n e good = rw (e, good) refl

-- The numbers of the certificate: the private key, and the public key that belongs to it.
abbrev pub key_of : Ecc → List ℕ → EcdsaKey
key_of ecc priv = record {
  priv_key = ec_key_from_uint32 priv;
  pub_key_x = ec_key_from_uint32 (ecc.gen_pub_key priv).0;
  pub_key_y = ec_key_from_uint32 (ecc.gen_pub_key priv).1;
}

module _ (ecc : Ecc) (laws : EcdsaLaws ecc) (hash : Bytes → Bytes) (priv : List ℕ)
    (valid : ecc.is_valid_key priv ≡ true) (number : IsNumber priv) where
  -- A ServerKeyExchange message whose body dtls_send_server_key_exchange_ecdh has built is taken by
  -- check_server_key_exchange_ecdsa: the client then has the ephemeral point of the server and has hashed
  -- the message. The client has the two randoms, and from the certificate the public key of the valid private key
  -- `priv`; `eph` is the ephemeral key and r, s the signature that the two loops end with. No word of r
  -- and s is 0 and the first of each has a bit among its upper nine; the curve library keeps EcdsaLaws.
  pub check_server_key_exchange_ecdsa-body :
      (hs h : Handshake) (header : Bytes) (draws nonces : List (List ℕ)) (eph x y : Bytes) (k l : ℕ)
      (ks ls : List ℕ)
      → length header ≡ 12
      → ecdsa_generate_key ecc draws ≡ some (eph, (x, y))
      → length x ≡ 32
      → length y ≡ 32
      → ecdsa_create_sig ecc hash
          (ec_key_from_uint32 priv)
          32
          (client_random_of hs)
          (server_random_of hs)
          (key_params x y)
          nonces
        ≡ some (k ∷ ks, l ∷ ls)
      → IsFull k ks
      → IsFull l ls
      → client_random_of h ≡ client_random_of hs
      → server_random_of h ≡ server_random_of hs
      → h.other_pub_x ≡ (key_of ecc priv).pub_key_x
      → h.other_pub_y ≡ (key_of ecc priv).pub_key_y
      → let body = key_params x y ++ add_ecdsa_signature_elem (k ∷ ks) (l ∷ ls) in
        (server_key_exchange_body ecc hash (key_of ecc priv) hs draws nonces
          ≡ some (body, record hs { own_eph_priv = eph }))
        × (check_server_key_exchange_ecdsa ecc hash h (header ++ body)
            ≡ some (
              ok 0,
              record h {
                hs_hash = h.hs_hash ++ (header ++ body);
                other_eph_pub_x = x;
                other_eph_pub_y = y;
              },
            ))
  unfolding server_key_exchange_body
  check_server_key_exchange_ecdsa-body hs h header draws nonces eph x y k l ks ls whole generated hx
        hy signed full_r full_s client server same_x same_y =
      let elem = add_ecdsa_signature_elem (k ∷ ks) (l ∷ ls) in
      let params = key_params x y in
      let body = params ++ elem in
      let msg = header ++ body in
      let r = ec_key_from_uint32 (k ∷ ks) in
      let s = ec_key_from_uint32 (l ∷ ls) in
      let begins = drop-append_length 12 header body whole in
      let p = length-key_params x y hx hy in
      let size : length msg ≡ 81 + length elem =
        omega (arith, length-append header body, length-append params elem, whole, p) in
      let elem_size = length-add_ecdsa_signature_elem k l ks ls full_r full_s in
      let long : ltb (length msg) 155 ≡ false = ground (arith, size, elem_size) in
      let before : length (header ++ params) ≡ 81 =
        omega (arith, length-append header params, whole, p) in
      let read : check_ecdsa_signature_elem msg 81 (length msg - 69)
          ≡ ok (some r, (some s, length elem)) =
        ap (λ (m : Bytes). check_ecdsa_signature_elem m 81 (length msg - 69))
          (sym (append_assoc header params elem)
            ∙ ap (λ (t : Bytes). (header ++ params) ++ t) (sym (append-nil elem)))
        ∙ ap
            (λ (n : ℕ).
              check_ecdsa_signature_elem ((header ++ params) ++ (elem ++ [])) n (length msg - 69))
            (sym before)
        ∙ check_ecdsa_signature_elem-add (header ++ params) [] k l ks ls (length msg - 69) full_r
            full_s (omega (arith, size)) in
      let verified =
        ecdsa_verify_sig-create ecc laws priv valid number hash (client_random_of hs)
          (server_random_of hs) params (k ∷ ks) (l ∷ ls) nonces signed in
      let good : ecdsa_verify_sig ecc hash h.other_pub_x h.other_pub_y 32 (client_random_of h)
            (server_random_of h) params r s
          ≡ true =
        cc in
      (
        rw (server_key_exchange_body, generated, signed) refl,
        check_point ecc hash h msg x y elem r s (length elem) begins hx hy long read
            ∙ verify_params-true ecc hash
                (record h { hs_hash = h.hs_hash ++ msg; other_eph_pub_x = x; other_eph_pub_y = y })
                (params ++ elem) params r s (length elem) (take-append_length 69 params elem p)
                good,
      )
