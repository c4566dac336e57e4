-- ===== src/Record/Overrun.antt =====
-- The space that dtls_prepare_record takes for an encrypted record.
use tinydtls.Base.{
  length-append, ◌∙◌, Bytes, List, Option, [], arith, false, length, some, ℕ, ◌++◌, ◌+◌, ◌==◌, ◌∷◌,
  ◌≡◌, ◌≤◌,
}
use tinydtls.Numeric.{int_to_uint8, int_to_uint16, int_to_uint48}
use tinydtls.Record.RoundTrip.{length-sealed_text, sealed_bytes, sealed_text, sealed_record-parts}
use tinydtls.Record.{ok, tls_null_with_null_null, copy_parts, sealed_record, dtls_prepare_record}
use tinydtls.Crypto.{Role, kb_local_write_key}
use tinydtls.Header.{Security, set_record_header}

copy_parts-one :
    (rlen : ℕ) (d : Bytes) → 21 + length d ≤ rlen → copy_parts rlen 8 (d ∷ []) ≡ some (d ++ [])
unfolding copy_parts
copy_parts-one rlen d h = ground arith

module _ (set_key : Bytes → Option (Bytes → Bytes)) (s : Security) (role : Role) (type : ℕ)
    {aes : Bytes → Bytes} (block : (b : Bytes) → length (aes b) ≡ 16)
    (cipher : set_key (kb_local_write_key s.key_block role) ≡ some aes) where
  prepare_sealed :
      (rlen : ℕ) (parts : List Bytes)
      → (s.cipher == tls_null_with_null_null) ≡ false
      → 13 ≤ rlen
      → (dtls_prepare_record set_key (some s) role type parts rlen).0
        ≡ sealed_record set_key s role rlen (set_record_header type (some s)).0 parts
  unfolding dtls_prepare_record
  prepare_sealed rlen parts e h = ground arith

  length-sealed_bytes :
      (n : ℕ) (c : Bytes) → length (sealed_bytes set_key s role type n c) ≡ length c + 21
  unfolding set_record_header int_to_uint8 int_to_uint16 int_to_uint48
  length-sealed_bytes n c = omega arith

  -- One payload that passes the test of the buffer's size, under a cipher suite: the record is
  -- prepared, and has 29 bytes more than the payload. The test allows a payload of up to 21 bytes
  -- less than the buffer, so that up to 8 bytes of the record lie behind the buffer's end.
  pub prepare_record-length :
      (rlen : ℕ) (d : Bytes)
      → (s.cipher == tls_null_with_null_null) ≡ false
      → 21 + length d ≤ rlen
      → (r : Bytes) × ((dtls_prepare_record set_key (some s) role type (d ∷ []) rlen).0 ≡ ok r
          × length r ≡ length d + 29)
  prepare_record-length rlen d e h =
      let text = sealed_text set_key s role type block cipher (d ++ []) in
      (
        sealed_bytes set_key s role type (length text + 8) text,
        (
          prepare_sealed rlen (d ∷ []) e (omega arith)
              ∙ sealed_record-parts set_key s role type block cipher rlen (d ∷ [])
                  (copy_parts-one rlen d h),
          length-sealed_bytes _ text
              ∙ omega (
                arith,
                length-append d [],
                length-sealed_text set_key s role type block cipher (d ++ []),
              ),
        ),
      )
