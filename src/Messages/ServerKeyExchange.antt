-- ===== src/Messages/ServerKeyExchange.antt =====
-- dtls.c: the ServerKeyExchange message: dtls_send_server_key_exchange_ecdh and
-- check_server_key_exchange_ecdsa, dtls_send_server_key_exchange_psk and check_server_key_exchange_psk.
pub mod RoundTrip
pub mod Hint
use tinydtls.Base.{
  Bytes, List, Option, drop, if◌then◌else◌, length, ltb, none, not, some, take, ℕ, ◌*◌, ◌++◌, ◌+◌,
  ◌-◌, ◌==◌,
}
use tinydtls.Numeric.{byte_at, int_to_uint8, int_to_uint16, uint16_to_int}
use tinydtls.Alert.{
  handshake_failure, internal_error, decode_error, alert_fatal_create, ok, fail, Result,
}
use tinydtls.KeyExchange.{dtls_ec_key_size}
use tinydtls.Crypto.{dtls_psk_max_client_identity_len, dtls_random_length}
use tinydtls.Peer.{Handshake}
use tinydtls.Header.{dtls_hs_length}
use tinydtls.Signature.{add_ecdsa_signature_elem, check_ecdsa_signature_elem}
use tinydtls.Signature.Ecdsa.{Ecc, ecdsa_generate_key, ecdsa_create_sig, ecdsa_verify_sig}
use tinydtls.Messages.Certificate.{EcdsaKey}

abbrev pub dtls_skexec_length : ℕ
dtls_skexec_length = 1 + 2 + 1 + 1 + dtls_ec_key_size + dtls_ec_key_size + 1 + 1 + 2 + 70

-- DTLS_SKEXECPSK_LENGTH_MIN
abbrev pub dtls_skexecpsk_length_min : ℕ
dtls_skexecpsk_length_min = 2

abbrev pub tls_ec_curve_type_named_curve : ℕ
tls_ec_curve_type_named_curve = 3

abbrev pub tls_ext_elliptic_curves_secp256r1 : ℕ
tls_ext_elliptic_curves_secp256r1 = 23

-- handshake->tmp.random.client and handshake->tmp.random.server
abbrev pub client_random_of : Handshake → Bytes
client_random_of h = take dtls_random_length h.tmp

abbrev pub server_random_of : Handshake → Bytes
server_random_of h = take dtls_random_length (drop dtls_random_length h.tmp)

-- The part of the body that is signed: the curve and the point.
unfoldable pub key_params : Bytes → Bytes → Bytes
key_params x y =
    int_to_uint8 3
    ++ (int_to_uint16 tls_ext_elliptic_curves_secp256r1
        ++ (int_to_uint8 (1 + 2 * dtls_ec_key_size) ++ (int_to_uint8 4 ++ (x ++ y))))

-- dtls_send_server_key_exchange_psk: the body, for the identity hint of `len` bytes. The assertion in front
-- of the test, which says the same, is taken as compiled out.
unfoldable pub psk_hint_body : Bytes → Result Bytes
psk_hint_body psk_hint =
    if ltb dtls_psk_max_client_identity_len (length psk_hint)
    then fail (alert_fatal_create internal_error)
    else ok (int_to_uint16 (length psk_hint) ++ psk_hint)

-- check_server_key_exchange_psk: the result and the handshake parameters
unfoldable pub check_server_key_exchange_psk : Handshake → Bytes → Result ℕ × Handshake
check_server_key_exchange_psk h msg =
    let hashed = record h { hs_hash = h.hs_hash ++ msg } in
    let d = drop dtls_hs_length msg in
    let len = uint16_to_int d in
    if ltb (length msg) (dtls_hs_length + dtls_skexecpsk_length_min)
    then (fail (alert_fatal_create decode_error), hashed)
    else if not (len == length msg - dtls_hs_length - 2)
    then (fail (alert_fatal_create decode_error), hashed)
    else if ltb dtls_psk_max_client_identity_len len
    then (fail (alert_fatal_create internal_error), hashed)
    else (ok 0, record hashed { identity = take len (drop 2 d) })

module _ (ecc : Ecc) (hash : Bytes → Bytes) where
  -- dtls_send_server_key_exchange_ecdh: the body, and the handshake parameters with the private key that
  -- goes with the point. The random numbers that the two loops take are `draws` and `nonces`; `none`
  -- where a loop still runs after them.
  unfoldable pub server_key_exchange_body :
      EcdsaKey → Handshake → List (List ℕ) → List (List ℕ) → Option (Bytes × Handshake)
  server_key_exchange_body key h draws nonces = elim (ecdsa_generate_key ecc draws) [
    | none ↦ none
    | some (priv, (x, y)) ↦
        let params = key_params x y in
        elim (ecdsa_create_sig ecc hash key.priv_key dtls_ec_key_size (client_random_of h)
          (server_random_of h) params nonces) [
            | none ↦ none
            | some (r, s) ↦
                some (params ++ add_ecdsa_signature_elem r s, record h { own_eph_priv = priv })
          ]
  ]

  -- The end of check_server_key_exchange_ecdsa: the signature of the 69 bytes at `d`, by the key of the
  -- certificate; `none` where a number of the signature begins in front of the message.
  unfoldable pub verify_params :
      Handshake → Bytes → Option Bytes × (Option Bytes × ℕ) → Option (Result ℕ × Handshake)
  verify_params h d (none, rest) = none
  verify_params h d (some r, (none, n)) = none
  verify_params h d (some r, (some s, n)) = some (
    (if ecdsa_verify_sig ecc hash h.other_pub_x h.other_pub_y dtls_ec_key_size (client_random_of h)
          (server_random_of h) (take (1 + 2 + 1 + 1 + 2 * dtls_ec_key_size) d) r s
        then ok 0
        else fail (alert_fatal_create handshake_failure)),
    h,
  )

  -- check_server_key_exchange_ecdsa: the result and the handshake parameters. The data_length that
  -- goes to the check of the signature still counts the header.
  unfoldable pub check_server_key_exchange_ecdsa : Handshake → Bytes → Option (Result ℕ × Handshake)
  check_server_key_exchange_ecdsa h msg =
      let hashed = record h { hs_hash = h.hs_hash ++ msg } in
      let d = drop dtls_hs_length msg in
      let stored = record hashed {
        other_eph_pub_x = take dtls_ec_key_size (drop 5 d);
        other_eph_pub_y = take dtls_ec_key_size (drop (5 + dtls_ec_key_size) d);
      } in
      let params_length = 5 + 2 * dtls_ec_key_size in
      if ltb (length msg) (dtls_hs_length + dtls_skexec_length)
      then some (fail (alert_fatal_create decode_error), hashed)
      else if not (byte_at d 0 == tls_ec_curve_type_named_curve)
      then some (fail (alert_fatal_create handshake_failure), hashed)
      else if not (uint16_to_int (drop 1 d) == tls_ext_elliptic_curves_secp256r1)
      then some (fail (alert_fatal_create handshake_failure), hashed)
      else if not (byte_at d 3 == 1 + 2 * dtls_ec_key_size)
      then some (fail (alert_fatal_create handshake_failure), hashed)
      else if not (byte_at d 4 == 4)
      then some (fail (alert_fatal_create decode_error), hashed)
      else elim (check_ecdsa_signature_elem msg (dtls_hs_length + params_length)
          (length msg - params_length)) [
            | fail n ↦ some (fail n, stored)
            | ok found ↦ verify_params stored d found
          ]
