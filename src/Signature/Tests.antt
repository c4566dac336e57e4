-- ===== src/Signature/Tests.antt =====
-- A signature element, and a number with a word 0.
use tinydtls.Base.{Bytes, List, [], arith, length, refl, some, true, ℕ, ◌++◌, ◌∷◌, ◌≡◌, ◌≤◌}
use tinydtls.Numeric.{int_to_uint8, int_to_uint16, int_to_uint32}
use tinydtls.Signature.{
  asn1_word, signature_elem, add_ecdsa_signature_elem, check_ecdsa_signature_elem, asn1_loop,
}
use tinydtls.Alert.{ok}
use tinydtls.Signature.Ecdsa.{ec_key_from_uint32}
use tinydtls.Signature.Encoding.{asn1_loop-zero_word}
use tinydtls.Signature.RoundTrip.{IsFull, check_ecdsa_signature_elem-add}

abbrev words_behind : List ℕ
words_behind = 1 ∷ 2 ∷ 3 ∷ 4 ∷ 5 ∷ 6 ∷ 7 ∷ []

IsFull-small : IsFull 0x01020304 words_behind
IsFull-small = (omega arith, (refl, (refl, (refl, (refl, (refl, (refl, (refl, tt))))))), refl)

IsFull-large : IsFull 0xF1020304 words_behind
IsFull-large = (omega arith, (refl, (refl, (refl, (refl, (refl, (refl, (refl, tt))))))), refl)

abbrev elem : Bytes
elem = add_ecdsa_signature_elem (0x01020304 ∷ words_behind) (0xF1020304 ∷ words_behind)

elem-short : length elem ≤ 80
unfolding asn1_loop asn1_word signature_elem int_to_uint32 int_to_uint16 int_to_uint8
elem-short = omega arith

check_ecdsa_signature_elem-add_example :
    check_ecdsa_signature_elem ((1 ∷ 2 ∷ []) ++ (elem ++ (9 ∷ []))) 2 80
    ≡ ok (
      some (ec_key_from_uint32 (0x01020304 ∷ words_behind)),
      (some (ec_key_from_uint32 (0xF1020304 ∷ words_behind)), length elem),
    )
check_ecdsa_signature_elem-add_example =
    check_ecdsa_signature_elem-add (1 ∷ 2 ∷ []) (9 ∷ []) 0x01020304 0xF1020304 words_behind
      words_behind 80 IsFull-small IsFull-large elem-short

asn1_loop-zero_word_example :
    asn1_loop true (5 ∷ 0 ∷ 7 ∷ 6 ∷ []) ≡ asn1_loop true (5 ∷ 7 ∷ 0 ∷ 6 ∷ [])
asn1_loop-zero_word_example = asn1_loop-zero_word true (5 ∷ []) 7 (6 ∷ [])
