-- ===== src/Signature/Encoding.antt =====
-- dtls_ec_key_from_uint32_asn1: what it writes for a number whose words are not 0, and what it loses.
use tinydtls.Base.{
  All, Bool, Bool-cases, Bytes, List, [], ap, append_assoc, arith, false, if◌then◌else◌, inl, inr,
  leb, length, ltb, refl, true, ℕ, ◌*◌, ◌++◌, ◌==◌, ◌^◌, ◌∷◌, ◌≡◌, ◌≤◌,
}
use tinydtls.Numeric.{int_to_uint32}
use tinydtls.Signature.Ecdsa.{ec_key_from_uint32}
use tinydtls.Signature.{asn1_word, asn1_loop, ec_key_asn1}

-- The byte that keeps an ASN.1 integer positive.
abbrev pub sign_pad : ℕ → Bytes
sign_pad k = if leb (2 ^ 31) k then 0 ∷ [] else []

pub length-ec_key_from_uint32 :
    (words : List ℕ) → length (ec_key_from_uint32 words) ≡ 4 * length words
unfolding int_to_uint32
length-ec_key_from_uint32 [] = refl
length-ec_key_from_uint32 (k ∷ words) = omega (arith, length-ec_key_from_uint32 words)

-- Words behind the first.
asn1_loop-full :
    (words : List ℕ)
    → All (λ (k : ℕ). (k == 0) ≡ false) words
    → asn1_loop false words ≡ ec_key_from_uint32 words
unfolding asn1_loop asn1_word
asn1_loop-full [] h = refl
asn1_loop-full (k ∷ words) h = rw (h.0, asn1_loop-full words h.1) refl

asn1_word-top : (k : ℕ) → 2 ^ 23 ≤ k → asn1_word true k ≡ sign_pad k ++ int_to_uint32 k
unfolding asn1_word
asn1_word-top k large =
    let a : ltb k (2 ^ 23) ≡ false = ground (arith, large) in
    let b : ltb k (2 ^ 15) ≡ false = ground (arith, large) in
    let c : ltb k (2 ^ 7) ≡ false = ground (arith, large) in
    elim (Bool-cases (leb (2 ^ 31) k)) [
      | inl negative ↦ rw negative refl
      | inr positive ↦ rw (positive, a, b, c) refl
    ]

-- A number whose first word has a bit among its upper nine, and that has no word 0.
pub ec_key_asn1_lem :
    (k : ℕ) (words : List ℕ)
    → 2 ^ 23 ≤ k
    → All (λ (k : ℕ). (k == 0) ≡ false) words
    → ec_key_asn1 (k ∷ words) ≡ sign_pad k ++ ec_key_from_uint32 (k ∷ words)
unfolding asn1_loop
ec_key_asn1_lem k words large h =
    let some_bit : (k == 0) ≡ false = ground (arith, large) in
    rw (some_bit, asn1_word-top k large, asn1_loop-full words h)
      (append_assoc (sign_pad k) (int_to_uint32 k) (ec_key_from_uint32 words))

-- A word 0 leaves no trace where it stands: two numbers that differ by the place of a word 0 are
-- encoded alike.
pub asn1_loop-zero_word :
    (first : Bool) (front : List ℕ) (k : ℕ) (words : List ℕ)
    → asn1_loop first (front ++ (0 ∷ k ∷ words)) ≡ asn1_loop first (front ++ (k ∷ 0 ∷ words))
unfolding asn1_loop
asn1_loop-zero_word first [] k words = elim (Bool-cases (k == 0)) [
  | inl zero_word ↦ rw zero_word refl
  | inr other ↦ rw other refl
]
asn1_loop-zero_word first (x ∷ front) k words = elim (Bool-cases (x == 0)) [
  | inl zero_word ↦ rw zero_word (asn1_loop-zero_word first front k words)
  | inr other ↦
      rw other
        (ap (λ (t : Bytes). asn1_word first x ++ t) (asn1_loop-zero_word false front k words))
]
