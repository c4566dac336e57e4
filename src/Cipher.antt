-- ===== src/Cipher.antt =====
-- dtls.c: the cipher suites, and which of them a context takes. The features of the build and the
-- handlers that the application registered are the fields of `Context`.
use tinydtls.Base.{Bool, ℕ, ◌&&◌, ◌||◌, ◌==◌, not}

-- dtls_cipher_t, without TLS_NULL_WITH_NULL_NULL
abbrev pub tls_psk_with_aes_128_ccm_8 : ℕ
tls_psk_with_aes_128_ccm_8 = 0xC0A8

abbrev pub tls_ecdhe_ecdsa_with_aes_128_ccm_8 : ℕ
tls_ecdhe_ecdsa_with_aes_128_ccm_8 = 0xC0AE

abbrev pub tls_ma_ecdsa_with_aes_128_cbc_sha : ℕ
tls_ma_ecdsa_with_aes_128_cbc_sha = 0x003E

abbrev pub tls_ma_ecdsa_with_aes_256_cbc_sha : ℕ
tls_ma_ecdsa_with_aes_256_cbc_sha = 0x003F

-- DTLS_PSK, DTLS_ECC and DTLS_MA of the build, and the members of ctx->h that are not null; a
-- context has handlers.
pub record Context : Type 0 where
  pub dtls_psk : Bool
  pub dtls_ecc : Bool
  pub dtls_ma : Bool
  pub get_psk_info : Bool
  pub get_ecdsa_key : Bool
  pub verify_ecdsa_key : Bool

-- DTLS_ECDSA is defined where DTLS_ECC or DTLS_MA is.
abbrev pub dtls_ecdsa : Context → Bool
dtls_ecdsa ctx = ctx.dtls_ecc || ctx.dtls_ma

unfoldable pub is_tls_ecdhe_ecdsa_with_aes_128_ccm_8 : Context → ℕ → Bool
is_tls_ecdhe_ecdsa_with_aes_128_ccm_8 ctx cipher =
    ctx.dtls_ecc && (cipher == tls_ecdhe_ecdsa_with_aes_128_ccm_8)

unfoldable pub is_tls_psk_with_aes_128_ccm_8 : Context → ℕ → Bool
is_tls_psk_with_aes_128_ccm_8 ctx cipher = ctx.dtls_psk && (cipher == tls_psk_with_aes_128_ccm_8)

unfoldable pub is_tls_ma_ecdsa_with_aes_128_cbc_sha : Context → ℕ → Bool
is_tls_ma_ecdsa_with_aes_128_cbc_sha ctx cipher =
    ctx.dtls_ma && (cipher == tls_ma_ecdsa_with_aes_128_cbc_sha)

unfoldable pub is_tls_ma_ecdsa_with_aes_256_cbc_sha : Context → ℕ → Bool
is_tls_ma_ecdsa_with_aes_256_cbc_sha ctx cipher =
    ctx.dtls_ma && (cipher == tls_ma_ecdsa_with_aes_256_cbc_sha)

unfoldable pub is_psk_supported : Context → Bool
is_psk_supported ctx = ctx.dtls_psk && ctx.get_psk_info

unfoldable pub is_ecdsa_supported : Context → Bool → Bool
is_ecdsa_supported ctx is_client =
    dtls_ecdsa ctx && ((not is_client && ctx.get_ecdsa_key) || (is_client && ctx.verify_ecdsa_key))

unfoldable pub is_ma_supported : Context → Bool → Bool
is_ma_supported ctx is_client =
    ctx.dtls_ma && ((not is_client && ctx.get_ecdsa_key) || (is_client && ctx.verify_ecdsa_key))

unfoldable pub is_ecdsa_client_auth_supported : Context → Bool
is_ecdsa_client_auth_supported ctx = dtls_ecdsa ctx && (ctx.get_ecdsa_key && ctx.verify_ecdsa_key)

unfoldable pub is_ecdsa_cipher : Context → ℕ → Bool
is_ecdsa_cipher ctx code =
    is_tls_ecdhe_ecdsa_with_aes_128_ccm_8 ctx code
    || (is_tls_ma_ecdsa_with_aes_128_cbc_sha ctx code
        || is_tls_ma_ecdsa_with_aes_256_cbc_sha ctx code)

unfoldable pub known_cipher : Context → ℕ → Bool → Bool
known_cipher ctx code is_client =
    (is_psk_supported ctx && is_tls_psk_with_aes_128_ccm_8 ctx code)
    || (is_ecdsa_supported ctx is_client && is_ecdsa_cipher ctx code)
