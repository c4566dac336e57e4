-- ===== src/Record/RoundTrip.antt =====
-- A record that one end prepares is opened by the other end.

use tinydtls.Base.{
  concat, Bool-cases, none, ap, subst, ◌∙◌, ltb, Bytes, List, Option, Option-cases, [], arith, drop,
  false, inl, inr, length, some, take, true, ℕ, ◌++◌, ◌+◌, ◌-◌, ◌==◌, ◌∷◌, ◌≡◌, ◌≤◌,
}
use tinydtls.Record.{
  plain_record, dtls_prepare_record, dtls_encrypt, ccm_l, ccm_m, sealed_record,
  tls_null_with_null_null, copy_parts, ccm_nonce, additional_data, dtls_decrypt, open_record,
}
use tinydtls.Crypto.{Role, kb_local_write_key, kb_local_iv}
use tinydtls.Alert.{ok}
use tinydtls.Numeric.{int_to_uint8, int_to_uint16, int_to_uint48}
use tinydtls.Ccm.{dtls_ccm_encrypt_message}
use tinydtls.Ccm.RoundTrip.{length-dtls_ccm_encrypt_message, decrypt_message-encrypt_message}
use tinydtls.Crypto.Keys.{other_end, local-eq-remote}
use tinydtls.Header.{Security, set_record_header}

pub copy_parts_sound :
    (rlen res : ℕ) (parts : List Bytes) {p : Bytes}
    → copy_parts rlen res parts ≡ some p
    → p ≡ concat parts
unfolding copy_parts
copy_parts_sound rlen res [] h = ground arith
copy_parts_sound rlen res (d ∷ ds) h = elim (Option-cases (copy_parts rlen (res + length d) ds)) [
  | inl e ↦ absurd (ground arith)
  | inr (q, e) ↦ ground (arith, copy_parts_sound rlen (res + length d) ds {p = q})
]

module _ (set_key : Bytes → Option (Bytes → Bytes)) (s : Security) (role : Role) (type : ℕ) where
  abbrev pub record_header : Bytes
  record_header = (set_record_header type (some s)).0

  open-plain :
      (payload : Bytes)
      → (s.cipher == tls_null_with_null_null) ≡ true
      → open_record set_key s
          (other_end role)
          (take 11 record_header ++ (int_to_uint16 (length payload) ++ payload))
        ≡ ok payload
  unfolding open_record set_record_header int_to_uint8 int_to_uint16 int_to_uint48
  open-plain payload e = rw e

  abbrev pub explicit : Bytes
  explicit = take 8 (drop 3 record_header)

  abbrev pub sealed_bytes : ℕ → Bytes → Bytes
  sealed_bytes n c = take 11 record_header ++ (int_to_uint16 n ++ (explicit ++ c))

  open-sealed :
      (n : ℕ) (c : Bytes)
      → (s.cipher == tls_null_with_null_null) ≡ false
      → 8 ≤ length c
      → open_record set_key s (other_end role) (sealed_bytes n c)
        ≡ dtls_decrypt set_key c
            (ccm_nonce (kb_local_iv s.key_block role) explicit)
            (kb_local_write_key s.key_block role)
            (additional_data record_header (length c - 8))
  unfolding open_record set_record_header int_to_uint8 int_to_uint16 int_to_uint48
  open-sealed n c e h =
      let size : length (sealed_bytes n c) - 13 - 8 - 8 ≡ length c - 8 = omega arith in
      let enough : ltb (length (sealed_bytes n c) - 13) 16 ≡ false = ground arith in
      let keys = local-eq-remote s.key_block role in rw (e, enough, size, ← keys.0, ← keys.1)

  module _ {aes : Bytes → Bytes} (block : (b : Bytes) → length (aes b) ≡ 16)
      (cipher : set_key (kb_local_write_key s.key_block role) ≡ some aes) where
    decrypt-encrypted :
        (payload nonce aad : Bytes)
        → dtls_decrypt set_key
            (dtls_ccm_encrypt_message aes ccm_m ccm_l nonce payload aad)
            nonce
            (kb_local_write_key s.key_block role)
            aad
          ≡ ok payload
    unfolding dtls_decrypt
    decrypt-encrypted payload nonce aad =
        ground (arith, decrypt_message-encrypt_message aes block ccm_m ccm_l nonce payload aad)

    abbrev pub sealed_text : Bytes → Bytes
    sealed_text payload =
        dtls_ccm_encrypt_message aes ccm_m ccm_l (ccm_nonce (kb_local_iv s.key_block role) explicit)
          payload (additional_data record_header (length payload))

    -- What the encrypting branch puts into the buffer.
    pub sealed_record-parts :
        (rlen : ℕ) (parts : List Bytes) {p : Bytes}
        → copy_parts rlen 8 parts ≡ some p
        → sealed_record set_key s role rlen record_header parts
          ≡ ok (sealed_bytes (length (sealed_text p) + 8) (sealed_text p))
    unfolding sealed_record dtls_encrypt set_record_header
    sealed_record-parts rlen parts fits = rw (fits, sealed_record, cipher, dtls_encrypt)

    pub length-sealed_text : (p : Bytes) → length (sealed_text p) ≡ length p + 8
    length-sealed_text p = length-dtls_ccm_encrypt_message aes block ccm_m ccm_l _ p _ (omega arith)

    open-sealed_text :
        (p : Bytes)
        → (s.cipher == tls_null_with_null_null) ≡ false
        → open_record set_key s
            (other_end role)
            (sealed_bytes (length (sealed_text p) + 8) (sealed_text p))
          ≡ ok p
    open-sealed_text p e =
        let n = length-sealed_text p in
        let same : length (sealed_text p) - 8 ≡ length p = omega (arith, n) in
        open-sealed (length (sealed_text p) + 8) (sealed_text p) e (omega (arith, n))
        ∙ rw same (decrypt-encrypted p _ _)

    sealed_none :
        (rlen : ℕ) (parts : List Bytes) {r : Bytes}
        → copy_parts rlen 8 parts ≡ none
        → sealed_record set_key s role rlen record_header parts ≡ ok r
        → ⊥
    unfolding sealed_record
    sealed_none rlen parts e h = ground arith

    sealed-ok :
        (rlen : ℕ) (parts : List Bytes) {r : Bytes}
        → sealed_record set_key s role rlen record_header parts ≡ ok r
        → (s.cipher == tls_null_with_null_null) ≡ false
        → open_record set_key s (other_end role) r ≡ ok (concat parts)
    sealed-ok rlen parts {r} h e = elim (Option-cases (copy_parts rlen 8 parts)) [
      | inl none_fits ↦ absurd (sealed_none rlen parts none_fits h)
      | inr (p, fits) ↦
          let found : sealed_bytes (length (sealed_text p) + 8) (sealed_text p) ≡ r =
            cc (sealed_record-parts rlen parts fits) in
          subst (λ (b : Bytes). open_record set_key s (other_end role) b ≡ ok (concat parts)) found
            (open-sealed_text p e ∙ ap ok (copy_parts_sound rlen 8 parts fits))
    ]

    -- The branch without a cipher suite.
    plain-ok :
        (rlen : ℕ) (parts : List Bytes) {r : Bytes}
        → plain_record set_key rlen record_header parts ≡ ok r
        → (s.cipher == tls_null_with_null_null) ≡ true
        → open_record set_key s (other_end role) r ≡ ok (concat parts)
    unfolding plain_record
    plain-ok rlen parts {r} h e = elim (Option-cases (copy_parts rlen 0 parts)) [
      | inl none_fits ↦ absurd (cc none_fits)
      | inr (p, fits) ↦
          let found : take 11 record_header ++ (int_to_uint16 (length p) ++ p) ≡ r = ground arith in
          subst (λ (b : Bytes). open_record set_key s (other_end role) b ≡ ok (concat parts)) found
            (open-plain p e ∙ ap ok (copy_parts_sound rlen 0 parts fits))
    ]

    prepared_plain :
        (rlen : ℕ) (parts : List Bytes) {r : Bytes}
        → (s.cipher == tls_null_with_null_null) ≡ true
        → (dtls_prepare_record set_key (some s) role type parts rlen).0 ≡ ok r
        → plain_record set_key rlen record_header parts ≡ ok r
    unfolding dtls_prepare_record
    prepared_plain rlen parts e h = ground arith

    prepared_sealed :
        (rlen : ℕ) (parts : List Bytes) {r : Bytes}
        → (s.cipher == tls_null_with_null_null) ≡ false
        → (dtls_prepare_record set_key (some s) role type parts rlen).0 ≡ ok r
        → sealed_record set_key s role rlen record_header parts ≡ ok r
    unfolding dtls_prepare_record
    prepared_sealed rlen parts e h = ground arith

    -- A record that one end prepares with the parameters of an epoch is opened by the other end with
    -- the same parameters, and gives the parts that were put in, one after another. This holds with
    -- and without a cipher suite, for a key that the key schedule takes and a cipher whose blocks
    -- have 16 bytes.
    pub open_record-prepare_record :
        (rlen : ℕ) (parts : List Bytes) {r : Bytes}
        → (dtls_prepare_record set_key (some s) role type parts rlen).0 ≡ ok r
        → open_record set_key s (other_end role) r ≡ ok (concat parts)
    open_record-prepare_record rlen parts {r} h = elim (Bool-cases (s.cipher == 0)) [
      | inl e ↦ plain-ok rlen parts (prepared_plain rlen parts e h) e
      | inr e ↦ sealed-ok rlen parts (prepared_sealed rlen parts e h) e
    ]
