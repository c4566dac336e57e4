-- ===== src/Signature/Ecdsa.antt =====
-- crypto.c: the functions that stand between the handshake and the curve library ecc. A number of
-- the library is the list of its words, the most significant first; in memory they stand the other
-- way round. The library's functions and what dtls_prng gives are parameters.
use tinydtls.Base.{
  Bool, Bytes, List, Option, [], drop, if◌then◌else◌, ltb, none, some, suc, zero, ℕ, ◌++◌, ◌/◌, ◌∷◌,
}
use tinydtls.Numeric.{int_to_uint32, uint32_to_int}

-- ecc.h: ecc_is_valid_key, ecc_gen_pub_key, ecc_ecdh (the x component of its result),
-- ecc_ecdsa_sign, which fails for a bad random number, and ecc_ecdsa_validate, which gives 0 or -1.
pub record Ecc : Type 0 where
  pub is_valid_key : List ℕ → Bool
  pub gen_pub_key : List ℕ → List ℕ × List ℕ
  pub ecdh : List ℕ → List ℕ → List ℕ → List ℕ
  pub sign : List ℕ → List ℕ → List ℕ → Option (List ℕ × List ℕ)
  pub validate : List ℕ → List ℕ → List ℕ → List ℕ → List ℕ → Bool

-- The loop of dtls_ec_key_to_uint32, with the number of words.
unfoldable pub to_words : ℕ → Bytes → List ℕ
to_words zero key = []
to_words (suc n) key = uint32_to_int key ∷ to_words n (drop 4 key)

abbrev pub ec_key_to_uint32 : Bytes → ℕ → List ℕ
ec_key_to_uint32 key key_size = to_words (key_size / 4) key

-- dtls_ec_key_from_uint32
abbrev pub ec_key_from_uint32 : List ℕ → Bytes
ec_key_from_uint32 [] = []
ec_key_from_uint32 (k ∷ words) = int_to_uint32 k ++ ec_key_from_uint32 words

module _ (ecc : Ecc) where
  -- dtls_ecdh_pre_master_secret; `none` is the result -1
  pub ecdh_pre_master_secret : Bytes → Bytes → Bytes → ℕ → ℕ → Option Bytes
  ecdh_pre_master_secret priv_key pub_key_x pub_key_y key_size result_len =
      let x =
        ecc.ecdh (ec_key_to_uint32 pub_key_x key_size) (ec_key_to_uint32 pub_key_y key_size)
          (ec_key_to_uint32 priv_key key_size) in
      if ltb result_len key_size then none else some (ec_key_from_uint32 x)

  -- do { dtls_prng(priv) } while (!ecc_is_valid_key(priv)), for the numbers that dtls_prng gives;
  -- `none` where the loop still runs after them.
  unfoldable pub valid_key_loop : List (List ℕ) → Option (List ℕ)
  valid_key_loop [] = none
  valid_key_loop (priv ∷ draws) = if ecc.is_valid_key priv then some priv else valid_key_loop draws

  -- dtls_ecdsa_generate_key: the private key and the two components of the public key
  unfoldable pub ecdsa_generate_key : List (List ℕ) → Option (Bytes × (Bytes × Bytes))
  ecdsa_generate_key draws = elim (valid_key_loop draws) [
    | none ↦ none
    | some priv ↦
        let (x, y) = ecc.gen_pub_key priv in
        some (ec_key_from_uint32 priv, (ec_key_from_uint32 x, ec_key_from_uint32 y))
  ]

  -- The loop of dtls_ecdsa_create_sig_hash, in the same way.
  unfoldable pub sign_loop : List ℕ → List ℕ → List (List ℕ) → Option (List ℕ × List ℕ)
  sign_loop priv digest [] = none
  sign_loop priv digest (rand ∷ draws) = elim (ecc.sign priv digest rand) [
    | none ↦ sign_loop priv digest draws
    | some point ↦ some point
  ]

  -- dtls_ecdsa_create_sig_hash: point_r and point_s
  unfoldable pub ecdsa_create_sig_hash :
      Bytes → ℕ → Bytes → ℕ → List (List ℕ) → Option (List ℕ × List ℕ)
  ecdsa_create_sig_hash priv_key key_size sign_hash sign_hash_size draws =
      sign_loop (ec_key_to_uint32 priv_key key_size) (ec_key_to_uint32 sign_hash sign_hash_size)
        draws

  -- dtls_ecdsa_verify_sig_hash
  unfoldable pub ecdsa_verify_sig_hash : Bytes → Bytes → ℕ → Bytes → ℕ → Bytes → Bytes → Bool
  ecdsa_verify_sig_hash pub_key_x pub_key_y key_size sign_hash sign_hash_size result_r result_s =
      ecc.validate (ec_key_to_uint32 pub_key_x key_size) (ec_key_to_uint32 pub_key_y key_size)
        (ec_key_to_uint32 sign_hash sign_hash_size) (ec_key_to_uint32 result_r key_size)
        (ec_key_to_uint32 result_s key_size)

  module _ (hash : Bytes → Bytes) where
    -- dtls_ecdsa_create_sig; the digest has DTLS_HMAC_DIGEST_SIZE bytes
    unfoldable pub ecdsa_create_sig :
        Bytes → ℕ → Bytes → Bytes → Bytes → List (List ℕ) → Option (List ℕ × List ℕ)
    ecdsa_create_sig priv_key key_size client_random server_random keyx_params draws =
        ecdsa_create_sig_hash priv_key key_size
          (hash (client_random ++ (server_random ++ keyx_params))) 32 draws

    -- dtls_ecdsa_verify_sig
    unfoldable pub ecdsa_verify_sig :
        Bytes → Bytes → ℕ → Bytes → Bytes → Bytes → Bytes → Bytes → Bool
    ecdsa_verify_sig pub_key_x pub_key_y key_size client_random server_random keyx_params result_r
          result_s =
        ecdsa_verify_sig_hash pub_key_x pub_key_y key_size
          (hash (client_random ++ (server_random ++ keyx_params))) 32 result_r result_s
