-- ===== src/Ccm/Tests.antt =====
-- Runs of CCM with a block cipher that pads.
use tinydtls.Base.{
  Bytes, [], arith, length, length-append, length-take, replicate, some, take, ◌++◌, ◌∷◌, ◌≡◌,
}
use tinydtls.Ccm.{dtls_ccm_encrypt_message, dtls_ccm_decrypt_message}
use tinydtls.Ccm.RoundTrip.{decrypt_message-encrypt_message, encrypt_message-of_decrypted}

abbrev pub pad_block : Bytes → Bytes
pad_block b = take 16 (b ++ replicate 16 0)

pub length-pad_block : (b : Bytes) → length (pad_block b) ≡ 16
length-pad_block b =
    omega (arith, length-take 16 (b ++ replicate 16 0), length-append b (replicate 16 0))

abbrev nonce : Bytes
nonce = replicate 16 5

abbrev sample : Bytes
sample = replicate 18 3

abbrev aad : Bytes
aad = 1 ∷ 2 ∷ 3 ∷ []

decrypt_message-encrypt_message_example :
    dtls_ccm_decrypt_message pad_block 8 3 nonce
      (dtls_ccm_encrypt_message pad_block 8 3 nonce sample aad)
      aad
    ≡ some sample
decrypt_message-encrypt_message_example =
    decrypt_message-encrypt_message pad_block length-pad_block 8 3 nonce sample aad (omega arith)

encrypt_message-of_decrypted_example :
    dtls_ccm_encrypt_message pad_block 8 3 nonce sample aad
    ≡ dtls_ccm_encrypt_message pad_block 8 3 nonce sample aad
encrypt_message-of_decrypted_example =
    encrypt_message-of_decrypted pad_block length-pad_block 8 3 nonce
      (dtls_ccm_encrypt_message pad_block 8 3 nonce sample aad) aad (omega arith)
      (decrypt_message-encrypt_message pad_block length-pad_block 8 3 nonce sample aad
        (omega arith))
