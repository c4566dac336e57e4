-- ===== src/Signature.antt =====
-- dtls.c and crypto.c: the signature element of a message, dtls_add_ecdsa_signature_elem and
-- dtls_check_ecdsa_signature_elem, with dtls_ec_key_from_uint32_asn1.
pub mod Ecdsa
pub mod Encoding
pub mod Keys
pub mod Verified
pub mod RoundTrip
mod Tests
use tinydtls.Base.{
  Bool, Bytes, List, Option, [], drop, false, if◌then◌else◌, leb, length, ltb, none, not, shr, some,
  take, true, u8, ℕ, ◌&&◌, ◌++◌, ◌+◌, ◌-◌, ◌==◌, ◌^◌, ◌∷◌,
}
use tinydtls.Numeric.{byte_at, int_to_uint8, int_to_uint16, int_to_uint32, uint16_to_int}
use tinydtls.Alert.{handshake_failure, decode_error, alert_fatal_create, ok, fail, Result}
use tinydtls.KeyExchange.{dtls_ec_key_size}

abbrev pub sig_hash_algo_sha256 : ℕ
sig_hash_algo_sha256 = 4

abbrev pub sig_hash_algo_ecdsa : ℕ
sig_hash_algo_ecdsa = 3

-- One word of dtls_ec_key_from_uint32_asn1 that is not 0; `first` says whether none came before it.
unfoldable pub asn1_word : Bool → ℕ → Bytes
asn1_word first k =
    if first && leb (2 ^ 31) k
    then 0 ∷ int_to_uint32 k
    else if first && ltb k (2 ^ 23)
    then u8 (shr k 16) ∷ u8 (shr k 8) ∷ u8 k ∷ []
    else if first && ltb k (2 ^ 15)
    then u8 (shr k 8) ∷ u8 k ∷ []
    else if first && ltb k (2 ^ 7)
    then u8 k ∷ []
    else int_to_uint32 k

-- The loop of dtls_ec_key_from_uint32_asn1 over the words of a number, the most significant first,
-- as `i` runs down; a word 0 is passed over, wherever it stands.
unfoldable pub asn1_loop : Bool → List ℕ → Bytes
asn1_loop first [] = []
asn1_loop first (k ∷ words) =
    let skipped = asn1_loop first words in
    let rest = asn1_loop false words in if k == 0 then skipped else asn1_word first k ++ rest

abbrev pub ec_key_asn1 : List ℕ → Bytes
ec_key_asn1 = asn1_loop true

-- dtls_add_ecdsa_signature_elem: what it writes, for the encoded numbers r and s
unfoldable pub signature_elem : Bytes → Bytes → Bytes
signature_elem r s =
    int_to_uint8 sig_hash_algo_sha256
    ++ (int_to_uint8 sig_hash_algo_ecdsa
        ++ (int_to_uint16 (length r + length s + 2 + 2 + 2)
            ++ (int_to_uint8 0x30
                ++ (int_to_uint8 (length r + length s + 2 + 2)
                    ++ (int_to_uint8 0x02
                        ++ (int_to_uint8 (length r)
                            ++ (r ++ (int_to_uint8 0x02 ++ (int_to_uint8 (length s) ++ s)))))))))

abbrev pub add_ecdsa_signature_elem : List ℕ → List ℕ → Bytes
add_ecdsa_signature_elem point_r point_s =
    signature_elem (ec_key_asn1 point_r) (ec_key_asn1 point_s)

-- The 32 bytes at data + i - DTLS_EC_KEY_SIZE, for `data` at a place of the message; `none` where they begin
-- in front of it.
unfoldable pub point_at : Bytes → ℕ → ℕ → Option Bytes
point_at msg place i =
    if ltb (place + i) dtls_ec_key_size
    then none
    else some (take dtls_ec_key_size (drop (place + i - dtls_ec_key_size) msg))

-- The second integer, at the place `next`, and the number of bytes that were read from `pos` on.
unfoldable pub second_integer :
    Bytes → ℕ → ℕ → Option Bytes → Result (Option Bytes × (Option Bytes × ℕ))
second_integer msg pos next r =
    let d = drop next msg in
    let j = byte_at d 1 in
    if not (byte_at d 0 == 0x02)
    then fail (alert_fatal_create decode_error)
    else ok (r, (point_at msg (next + 2) j, next + 2 + j - pos))

-- dtls_check_ecdsa_signature_elem on the message from `pos` on, for a data_length `n` of 6 or more, as its callers
-- have it: the two numbers, and the result.
unfoldable pub check_ecdsa_signature_elem :
    Bytes → ℕ → ℕ → Result (Option Bytes × (Option Bytes × ℕ))
check_ecdsa_signature_elem msg pos n =
    let d = drop pos msg in
    let i = byte_at d 7 in
    if not (byte_at d 0 == sig_hash_algo_sha256)
    then fail (alert_fatal_create handshake_failure)
    else if not (byte_at d 1 == sig_hash_algo_ecdsa)
    then fail (alert_fatal_create handshake_failure)
    else if ltb (n - 2) (uint16_to_int (drop 2 d))
    then fail (alert_fatal_create decode_error)
    else if not (byte_at d 4 == 0x30)
    then fail (alert_fatal_create decode_error)
    else if ltb (n - 5) (byte_at d 5)
    then fail (alert_fatal_create decode_error)
    else if not (byte_at d 6 == 0x02)
    then fail (alert_fatal_create decode_error)
    else second_integer msg pos (pos + 8 + i) (point_at msg (pos + 8) i)
