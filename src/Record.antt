-- ===== src/Record.antt =====
-- dtls.c: dtls_prepare_record and decrypt_verify, which put a payload into a record and take it out.
-- The key schedule, `rijndael_set_key_enc_only` followed by `rijndael_encrypt`, is the parameter
-- `set_key`: the cipher of a key, or `none` where the key has a wrong size.
pub mod RoundTrip
pub mod Fresh
pub mod Nonces
pub mod Overrun
pub mod State
mod Tests
use tinydtls.Alert.{◌>>=◌, ok, fail, Result, internal_error, alert_fatal_create}
use tinydtls.Crypto.{Role, kb_remote_write_key, kb_local_write_key, kb_remote_iv, kb_local_iv}
use tinydtls.Peer.{Peer, params_epoch, params_free_other}
use tinydtls.Base.{
  Bytes, List, Option, [], drop, if◌then◌else◌, length, ltb, map, none, replicate, some, take, ℕ,
  ◌++◌, ◌+◌, ◌-◌, ◌==◌, ◌∷◌,
}
use tinydtls.Numeric.{int_to_uint16}
use tinydtls.Ccm.{dtls_ccm_encrypt_message, dtls_ccm_decrypt_message}
use tinydtls.Header.{dtls_rh_length, Security, set_record_header, record_epoch}
use mathlib.Core.Option

abbrev pub tls_null_with_null_null : ℕ
tls_null_with_null_null = 0x0000

-- max(2, 15 - DTLS_CCM_NONCE_SIZE), and M
abbrev pub ccm_l : ℕ
ccm_l = 3

abbrev pub ccm_m : ℕ
ccm_m = 8

-- The loop over data_array: it fails where a part does not fit into `rlen` bytes behind the `res`
-- bytes so far; else the parts in a row.
unfoldable pub copy_parts : ℕ → ℕ → List Bytes → Option Bytes
copy_parts rlen res [] = some []
copy_parts rlen res (d ∷ ds) =
    let rest = copy_parts rlen (res + length d) ds in
    if ltb rlen (res + dtls_rh_length + length d) then none else Option.map (λ r. d ++ r) rest

-- The nonce of RFC 6655: the salt of the key block and the explicit part, in a zeroed block.
abbrev pub ccm_nonce : Bytes → Bytes → Bytes
ccm_nonce iv explicit = iv ++ (explicit ++ replicate 4 0)

-- A_DATA: epoch and sequence number, type and version, and the length of the payload.
abbrev pub additional_data : Bytes → ℕ → Bytes
additional_data header n = take 8 (drop 3 header) ++ (take 3 header ++ int_to_uint16 n)

module _ (set_key : Bytes → Option (Bytes → Bytes)) where
  -- dtls_encrypt and dtls_decrypt, with M and L of dtls_ccm_encrypt and dtls_ccm_decrypt
  pub dtls_encrypt : Bytes → Bytes → Bytes → Bytes → Result Bytes
  dtls_encrypt src nonce key aad = elim (set_key key) [
    | none ↦ fail 1
    | some aes ↦ ok (dtls_ccm_encrypt_message aes ccm_m ccm_l nonce src aad)
  ]

  pub dtls_decrypt : Bytes → Bytes → Bytes → Bytes → Result Bytes
  dtls_decrypt src nonce key aad = elim (set_key key) [
    | none ↦ fail 1
    | some aes ↦ elim (dtls_ccm_decrypt_message aes ccm_m ccm_l nonce src aad) [
      | none ↦ fail 1
      | some plain ↦ ok plain
    ]
  ]

  -- The branch without a cipher suite: header, length, payload.
  unfoldable pub plain_record : ℕ → Bytes → List Bytes → Result Bytes
  plain_record rlen header parts = elim (copy_parts rlen 0 parts) [
    | none ↦ fail (alert_fatal_create internal_error)
    | some payload ↦ ok (take 11 header ++ (int_to_uint16 (length payload) ++ payload))
  ]

  -- The branch with one: the explicit nonce and the ciphertext follow the length.
  pub sealed_record : Security → Role → ℕ → Bytes → List Bytes → Result Bytes
  sealed_record s role rlen header parts = elim (copy_parts rlen 8 parts) [
    | none ↦ fail (alert_fatal_create internal_error)
    | some payload ↦ do
      let explicit = take 8 (drop 3 header)
      c ←
          dtls_encrypt payload (ccm_nonce (kb_local_iv s.key_block role) explicit)
            (kb_local_write_key s.key_block role) (additional_data header (length payload))
      ok (take 11 header ++ (int_to_uint16 (length c + 8) ++ (explicit ++ c)))
  ]

  -- dtls_prepare_record: the bytes of `sendbuf` up to the length that goes out through `rlen`, and
  -- the security parameters, whose counter has moved on once the header is written.
  unfoldable pub dtls_prepare_record :
      Option Security → Role → ℕ → List Bytes → ℕ → Result Bytes × Option Security
  dtls_prepare_record security role type parts rlen =
      let (header, security') = set_record_header type security in
      if ltb rlen dtls_rh_length
      then (fail (alert_fatal_create internal_error), security)
      else elim security [
        | none ↦ (plain_record rlen header parts, security')
        | some s ↦
            if s.cipher == tls_null_with_null_null
            then (plain_record rlen header parts, security')
            else (sealed_record s role rlen header parts, security')
      ]

  -- The part of decrypt_verify that takes the security parameters of the record's epoch.
  pub open_record : Security → Role → Bytes → Result Bytes
  unfolding dtls_decrypt
  open_record s role packet =
      let clen = length packet - dtls_rh_length in
      let body = drop dtls_rh_length packet in
      let aad = additional_data packet (clen - 8 - 8) in
      let nonce = ccm_nonce (kb_remote_iv s.key_block role) (take 8 body) in
      if s.cipher == tls_null_with_null_null
      then ok body
      else if ltb clen 16
      then fail 1
      else dtls_decrypt (drop 8 body) nonce (kb_remote_write_key s.key_block role) aad

  -- decrypt_verify: the cleartext, and the peer, which drops the other security parameters after a
  -- record was decrypted.
  pub decrypt_verify : Peer → Bytes → Result Bytes × Peer
  unfolding open_record
  decrypt_verify p packet = elim (params_epoch p (record_epoch packet)) [
    | none ↦ (fail 1, p)
    | some s ↦ elim (open_record s p.role packet) [
      | fail n ↦ (fail n, p)
      | ok clear ↦
          (ok clear, if s.cipher == tls_null_with_null_null then p else params_free_other p)
    ]
  ]
