-- ===== src/Signature/Verified.antt =====
-- A signature that one end makes is taken by the other, which has the public key: the conversions of
-- keys, digests and points fit together. What the curve library promises is the record EcdsaLaws.
use tinydtls.Signature.Ecdsa.{
  ecdsa_create_sig, ecdsa_verify_sig, Ecc, to_words, ec_key_from_uint32, ecdsa_create_sig_hash,
  ecdsa_verify_sig_hash, sign_loop,
}
use tinydtls.Base.{
  Bytes, List, [], ap, append-nil, length, some, sym, true, ℕ, ◌++◌, ◌≡◌, ◌∙◌, ◌∷◌, Option-cases,
  inl, inr,
}
use tinydtls.Signature.Keys.{AreWords, to_words-ec_key_from_uint32}

-- A number of 256 bits.
abbrev pub IsNumber : List ℕ → Type 0
IsNumber words = length words ≡ 8 × AreWords words

-- What ecc promises: public keys and signatures are numbers of 256 bits, and a signature by a valid
-- private key is taken for the public key that belongs to it.
pub record EcdsaLaws (ecc : Ecc) : Type 0 where
  pub public_x : (priv : List ℕ) → IsNumber (ecc.gen_pub_key priv).0
  pub public_y : (priv : List ℕ) → IsNumber (ecc.gen_pub_key priv).1
  pub signed :
      (priv digest rand r s : List ℕ)
      → ecc.is_valid_key priv ≡ true
      → ecc.sign priv digest rand ≡ some (r, s)
      → IsNumber r
        × IsNumber s
        × (ecc.validate (ecc.gen_pub_key priv).0 (ecc.gen_pub_key priv).1 digest r s ≡ true)

pub to_words-IsNumber : (w : List ℕ) → IsNumber w → to_words 8 (ec_key_from_uint32 w) ≡ w
to_words-IsNumber w h =
    ap (λ (b : Bytes). to_words 8 b) (sym (append-nil (ec_key_from_uint32 w)))
    ∙ ap (λ (n : ℕ). to_words n (ec_key_from_uint32 w ++ [])) (sym h.0)
    ∙ to_words-ec_key_from_uint32 w [] h.1

module _ (ecc : Ecc) (laws : EcdsaLaws ecc) (priv : List ℕ) (valid : ecc.is_valid_key priv ≡ true)
    (number : IsNumber priv) where
  -- The loop of the signing ends with a signature for one of the random numbers.
  sign_loop-validate :
      (digest r s : List ℕ) (nonces : List (List ℕ))
      → sign_loop ecc priv digest nonces ≡ some (r, s)
      → IsNumber r
        × IsNumber s
        × (ecc.validate (ecc.gen_pub_key priv).0 (ecc.gen_pub_key priv).1 digest r s ≡ true)
  unfolding sign_loop
  sign_loop-validate digest r s [] e = absurd (cc e)
  sign_loop-validate digest r s (rand ∷ nonces) e =
      elim (Option-cases (ecc.sign priv digest rand)) [
        | inl bad ↦ sign_loop-validate digest r s nonces (rw (bad, sign_loop) at e)
        | inr (point, good) ↦
            laws.signed priv digest rand r s valid (good ∙ (rw (good, sign_loop) at e))
      ]

  -- What dtls_ecdsa_create_sig_hash signs, dtls_ecdsa_verify_sig_hash takes.
  pub ecdsa_verify_sig_hash-create :
      (digest : Bytes) (r s : List ℕ) (nonces : List (List ℕ))
      → ecdsa_create_sig_hash ecc (ec_key_from_uint32 priv) 32 digest 32 nonces ≡ some (r, s)
      → ecdsa_verify_sig_hash ecc
          (ec_key_from_uint32 (ecc.gen_pub_key priv).0)
          (ec_key_from_uint32 (ecc.gen_pub_key priv).1)
          32
          digest
          32
          (ec_key_from_uint32 r)
          (ec_key_from_uint32 s)
        ≡ true
  unfolding ecdsa_create_sig_hash ecdsa_verify_sig_hash
  ecdsa_verify_sig_hash-create digest r s nonces e =
      let found = sign_loop-validate (to_words 8 digest) r s nonces (
        ap (λ (p : List ℕ). sign_loop ecc p (to_words 8 digest) nonces)
          (sym (to_words-IsNumber priv number))
        ∙ e) in
      rw
        (
          ecdsa_verify_sig_hash,
          to_words-IsNumber (ecc.gen_pub_key priv).0 (laws.public_x priv),
          to_words-IsNumber (ecc.gen_pub_key priv).1 (laws.public_y priv),
          to_words-IsNumber r found.0,
          to_words-IsNumber s found.1,
        )
        found.2

  -- The same for the digest of the two randoms and the parameters.
  pub ecdsa_verify_sig-create :
      (hash : Bytes → Bytes) (client_random server_random params : Bytes) (r s : List ℕ)
      (nonces : List (List ℕ))
      → ecdsa_create_sig ecc hash
          (ec_key_from_uint32 priv)
          32
          client_random
          server_random
          params
          nonces
        ≡ some (r, s)
      → ecdsa_verify_sig ecc hash
          (ec_key_from_uint32 (ecc.gen_pub_key priv).0)
          (ec_key_from_uint32 (ecc.gen_pub_key priv).1)
          32
          client_random
          server_random
          params
          (ec_key_from_uint32 r)
          (ec_key_from_uint32 s)
        ≡ true
  unfolding ecdsa_create_sig ecdsa_verify_sig
  ecdsa_verify_sig-create hash client_random server_random params r s nonces e =
      ecdsa_verify_sig_hash-create (hash (client_random ++ (server_random ++ params))) r s nonces e
