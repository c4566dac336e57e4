-- ===== src/Signature/Keys.antt =====
-- Numbers that are written as bytes and read back.
use tinydtls.Base.{
  All, Bytes, List, [], ap₂, append_assoc, arith, drop, length, refl, ℕ, ◌++◌, ◌<◌, ◌^◌, ◌∙◌, ◌∷◌,
  ◌≡◌,
}
use tinydtls.Numeric.{int_to_uint32, uint32_to_int}
use tinydtls.Numeric.RoundTrip.{uint32_to_int-int_to_uint32}
use tinydtls.Signature.Ecdsa.{to_words, ec_key_from_uint32}

-- Every number is a word of 32 bits.
abbrev pub AreWords : List ℕ → Type 0
AreWords words = All (λ (k : ℕ). k < 2 ^ 32) words

-- What dtls_ec_key_from_uint32 writes, dtls_ec_key_to_uint32 reads, whatever follows.
pub to_words-ec_key_from_uint32 :
    (words : List ℕ) (rest : Bytes)
    → AreWords words
    → to_words (length words) (ec_key_from_uint32 words ++ rest) ≡ words
unfolding to_words
to_words-ec_key_from_uint32 [] rest h = refl
to_words-ec_key_from_uint32 (k ∷ words) rest h =
    let tail = ec_key_from_uint32 words ++ rest in
    let first : uint32_to_int (int_to_uint32 k ++ tail) ≡ k =
      uint32_to_int-int_to_uint32 k tail ∙ omega (arith, h.0) in
    let behind : drop 4 (int_to_uint32 k ++ tail) ≡ tail = unfold int_to_uint32 in refl in
    rw (append_assoc (int_to_uint32 k) (ec_key_from_uint32 words) rest, behind)
      (ap₂ (λ (a : ℕ) (b : List ℕ). a ∷ b) first (to_words-ec_key_from_uint32 words rest h.1))
