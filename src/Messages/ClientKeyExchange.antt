-- ===== src/Messages/ClientKeyExchange.antt =====
-- dtls.c: the ClientKeyExchange message that dtls_send_client_key_exchange builds. Its check is
-- check_client_keyexchange of KeyExchange.
pub mod RoundTrip
use tinydtls.Base.{
  Bytes, List, Option, [], if◌then◌else◌, length, ltb, none, some, ℕ, ◌*◌, ◌++◌, ◌+◌,
}
use tinydtls.Numeric.{int_to_uint8, int_to_uint16}
use tinydtls.Alert.{internal_error, alert_fatal_create, ok, fail, Result}
use tinydtls.KeyExchange.{dtls_ec_key_size, dtls_ckxec_length}
use tinydtls.Cipher.{Context, is_ecdsa_cipher, is_tls_psk_with_aes_128_ccm_8}
use tinydtls.Peer.{Handshake}
use tinydtls.Signature.Ecdsa.{Ecc, ecdsa_generate_key}

-- The case TLS_PSK_WITH_AES_128_CCM_8, for what the callback get_psk_info gives as the identity.
unfoldable pub identity_body : Handshake → Result Bytes → Result Bytes × Handshake
identity_body h (fail n) = (fail n, h)
identity_body h (ok id) =
    if ltb dtls_ckxec_length (length id + 2)
    then (fail (alert_fatal_create internal_error), record h { identity = [] })
    else (ok (int_to_uint16 (length id) ++ id), record h { identity = id })

-- The case of the suites with a curve.
unfoldable pub point_body : Handshake → Bytes × (Bytes × Bytes) → Result Bytes × Handshake
point_body h (priv, (x, y)) = (
  ok (int_to_uint8 (1 + 2 * dtls_ec_key_size) ++ (int_to_uint8 4 ++ (x ++ y))),
  record h { own_eph_priv = priv },
)

-- dtls_send_client_key_exchange: the body and the handshake parameters. `get_psk_info` is the callback
-- for an identity, `draws` are the random numbers for the ephemeral key; `none` where their loop still runs
-- after them.
unfoldable pub client_key_exchange :
    Ecc
    → Context
    → (Bytes → Result Bytes)
    → List (List ℕ)
    → Handshake
    → Option (Result Bytes × Handshake)
client_key_exchange ecc ctx get_psk_info draws h =
    if is_tls_psk_with_aes_128_ccm_8 ctx h.hs_cipher
    then some (identity_body h (get_psk_info h.identity))
    else if is_ecdsa_cipher ctx h.hs_cipher
    then elim (ecdsa_generate_key ecc draws) [ none ↦ none | some key ↦ some (point_body h key) ]
    else some (fail (alert_fatal_create internal_error), h)
