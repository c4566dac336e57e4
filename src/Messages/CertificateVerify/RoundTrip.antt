-- ===== src/Messages/CertificateVerify/RoundTrip.antt =====
-- A client that signs the messages of the handshake is authenticated.
use tinydtls.Base.{
  ◌+◌, Bytes, List, [], ap, append-nil, arith, length, length-append, ltb, refl, some, sym, true,
  false, ℕ, ◌++◌, ◌≡◌, ◌∙◌, ◌∷◌,
}
use tinydtls.Alert.{ok}
use tinydtls.Peer.{Handshake}
use tinydtls.Signature.{add_ecdsa_signature_elem, check_ecdsa_signature_elem}
use tinydtls.Signature.RoundTrip.{
  IsFull, check_ecdsa_signature_elem-add, length-add_ecdsa_signature_elem,
}
use tinydtls.Signature.Ecdsa.{Ecc, ec_key_from_uint32, ecdsa_create_sig_hash, ecdsa_verify_sig_hash}
use tinydtls.Signature.Verified.{EcdsaLaws, IsNumber, ecdsa_verify_sig_hash-create}
use tinydtls.Messages.ServerKeyExchange.RoundTrip.{key_of}
use tinydtls.Messages.CertificateVerify.{
  certificate_verify_body, check_client_certificate_verify, verify_digest,
}

module _ (ecc : Ecc) (laws : EcdsaLaws ecc) (hash : Bytes → Bytes) (priv : List ℕ)
    (valid : ecc.is_valid_key priv ≡ true) (number : IsNumber priv) where
  -- A CertificateVerify message whose body dtls_send_certificate_verify_ecdh has built is taken by
  -- check_client_certificate_verify, where both ends have hashed the same messages and the server has from the
  -- certificate the public key of the client's valid private key `priv`. No word of the signature is 0
  -- and the first of each number has a bit among its upper nine; the curve library keeps EcdsaLaws.
  pub check_client_certificate_verify-body :
      (hc h : Handshake) (header : Bytes) (nonces : List (List ℕ)) (k l : ℕ) (ks ls : List ℕ)
      → length header ≡ 12
      → ecdsa_create_sig_hash ecc (ec_key_from_uint32 priv) 32 (hash hc.hs_hash) 32 nonces
        ≡ some (k ∷ ks, l ∷ ls)
      → IsFull k ks
      → IsFull l ls
      → h.hs_hash ≡ hc.hs_hash
      → h.other_pub_x ≡ (key_of ecc priv).pub_key_x
      → h.other_pub_y ≡ (key_of ecc priv).pub_key_y
      → let body = add_ecdsa_signature_elem (k ∷ ks) (l ∷ ls) in
        (certificate_verify_body ecc hash (key_of ecc priv) hc nonces ≡ some body)
        × (check_client_certificate_verify ecc hash h (header ++ body) ≡ some (ok 0))
  unfolding certificate_verify_body check_client_certificate_verify verify_digest
  check_client_certificate_verify-body hc h header nonces k l ks ls whole signed full_r full_s same
        same_x same_y =
      let elem = add_ecdsa_signature_elem (k ∷ ks) (l ∷ ls) in
      let msg = header ++ elem in
      let r = ec_key_from_uint32 (k ∷ ks) in
      let s = ec_key_from_uint32 (l ∷ ls) in
      let size : length msg ≡ 12 + length elem = omega (arith, length-append header elem, whole) in
      let elem_size = length-add_ecdsa_signature_elem k l ks ls full_r full_s in
      let long : ltb (length msg) 86 ≡ false = ground (arith, size, elem_size) in
      let read : check_ecdsa_signature_elem msg 12 (length msg)
          ≡ ok (some r, (some s, length elem)) =
        ap (λ (t : Bytes). check_ecdsa_signature_elem (header ++ t) 12 (length msg))
          (sym (append-nil elem))
        ∙ ap (λ (n : ℕ). check_ecdsa_signature_elem (header ++ (elem ++ [])) n (length msg))
            (sym whole)
        ∙ check_ecdsa_signature_elem-add header [] k l ks ls (length msg) full_r full_s
            (omega (arith, size)) in
      let verified =
        ecdsa_verify_sig_hash-create ecc laws priv valid number (hash hc.hs_hash) (k ∷ ks) (l ∷ ls)
          nonces signed in
      let good : ecdsa_verify_sig_hash ecc h.other_pub_x h.other_pub_y 32 (hash h.hs_hash) 32 r s
          ≡ true =
        cc in
      (
        rw (certificate_verify_body, signed) refl,
        rw (check_client_certificate_verify, long, read, good) refl,
      )
