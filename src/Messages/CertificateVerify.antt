-- ===== src/Messages/CertificateVerify.antt =====
-- dtls.c: the CertificateVerify message, dtls_send_certificate_verify_ecdh and
-- check_client_certificate_verify.
pub mod RoundTrip
use tinydtls.Base.{Bytes, List, Option, if◌then◌else◌, length, ltb, none, some, ℕ, ◌+◌}
use tinydtls.Alert.{handshake_failure, decode_error, alert_fatal_create, ok, fail, Result}
use tinydtls.KeyExchange.{dtls_ec_key_size}
use tinydtls.Peer.{Handshake}
use tinydtls.Header.{dtls_hs_length}
use tinydtls.Signature.{add_ecdsa_signature_elem, check_ecdsa_signature_elem}
use tinydtls.Signature.Ecdsa.{Ecc, ecdsa_create_sig_hash, ecdsa_verify_sig_hash}
use tinydtls.Messages.Certificate.{EcdsaKey}

abbrev pub dtls_cv_length : ℕ
dtls_cv_length = 1 + 1 + 2 + 1 + 1 + 1 + 1 + dtls_ec_key_size + 1 + 1 + dtls_ec_key_size

module _ (ecc : Ecc) (hash : Bytes → Bytes) where
  -- dtls_send_certificate_verify_ecdh: the body; `none` where the signing still runs after `nonces`
  unfoldable pub certificate_verify_body : EcdsaKey → Handshake → List (List ℕ) → Option Bytes
  certificate_verify_body key h nonces =
      elim (ecdsa_create_sig_hash ecc key.priv_key dtls_ec_key_size (hash h.hs_hash) 32 nonces) [
        | none ↦ none
        | some (r, s) ↦ some (add_ecdsa_signature_elem r s)
      ]

  -- The end of check_client_certificate_verify.
  unfoldable pub verify_digest : Handshake → Option Bytes × (Option Bytes × ℕ) → Option (Result ℕ)
  verify_digest h (none, rest) = none
  verify_digest h (some r, (none, n)) = none
  verify_digest h (some r, (some s, n)) = some (
      if ecdsa_verify_sig_hash ecc h.other_pub_x h.other_pub_y dtls_ec_key_size (hash h.hs_hash) 32
        r s
      then ok 0
      else fail (alert_fatal_create handshake_failure))

  -- check_client_certificate_verify; the handshake parameters stay as they are. The data_length that
  -- goes to the check of the signature counts the header.
  unfoldable pub check_client_certificate_verify : Handshake → Bytes → Option (Result ℕ)
  check_client_certificate_verify h msg =
      if ltb (length msg) (dtls_hs_length + dtls_cv_length)
      then some (fail (alert_fatal_create decode_error))
      else elim (check_ecdsa_signature_elem msg dtls_hs_length (length msg)) [
        | fail n ↦ some (fail n)
        | ok found ↦ verify_digest h found
      ]
