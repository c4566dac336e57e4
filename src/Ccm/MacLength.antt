-- ===== src/Ccm/MacLength.antt =====
-- ccm.c: X always holds a whole block, as the tags that are cut from it need.
use tinydtls.Base.{
  Bool-cases, Bytes, [], drop, inl, inr, leb, length, ltb, suc, zero, ℕ, ◌+◌, ◌==◌, ◌∷◌, ◌≡◌,
}
use tinydtls.Ccm.{Blocks, mac, encrypt_block, decrypt_block, message_loop, auth_loop, start}
use tinydtls.Ccm.Message.{Step, message_loop_whole, message_loop_last, message_loop_nil, nonempty}

module _ (aes : Bytes → Bytes) (block : (b : Bytes) → length (aes b) ≡ 16) where
  length-x-encrypt_block :
      (l c : ℕ) (msg : Bytes) (len : ℕ) (s : Blocks)
      → length (encrypt_block aes l c msg len s).1.x ≡ 16
  unfolding encrypt_block
  length-x-encrypt_block l c msg len s = block _

  length-x-decrypt_block :
      (l c : ℕ) (msg : Bytes) (len : ℕ) (s : Blocks)
      → length (decrypt_block aes l c msg len s).1.x ≡ 16
  unfolding decrypt_block
  length-x-decrypt_block l c msg len s = block _

  length-x-auth_loop :
      (fuel : ℕ) (msg : Bytes) (s : Blocks)
      → length s.x ≡ 16
      → length (auth_loop aes fuel msg s).x ≡ 16
  unfolding auth_loop
  length-x-auth_loop zero msg s h = h
  length-x-auth_loop (suc fuel) msg s h = elim (Bool-cases (ltb 16 (length msg))) [
    | inl e ↦ rw e (length-x-auth_loop fuel (drop 16 msg) (mac aes msg 16 s) (block _))
    | inr e ↦ elim (Bool-cases (length msg == 0)) [
      | inl k ↦ rw (e, k) h
      | inr k ↦ rw (e, k) (block _)
    ]
  ]

  pub length-x-start :
      (m l : ℕ) (nonce : Bytes) (lm : ℕ) (aad : Bytes) → length (start aes m l nonce lm aad).x ≡ 16
  unfolding start
  length-x-start m l nonce lm aad = elim (Bool-cases (length aad == 0)) [
    | inl e ↦ rw e (block _)
    | inr e ↦ rw e (length-x-auth_loop _ _ _ (block _))
  ]

  module _ (f : Step)
      (whole : (c : ℕ) (msg : Bytes) (len : ℕ) (s : Blocks) → length (f c msg len s).1.x ≡ 16) where
    length-x-message_loop :
        (fuel c : ℕ) (msg : Bytes) (s : Blocks)
        → length s.x ≡ 16
        → length (message_loop aes f fuel c msg s).1.x ≡ 16
    length-x-message_loop zero c msg s h = unfold message_loop in h
    length-x-message_loop (suc fuel) c [] s h = rw message_loop_nil h
    length-x-message_loop (suc fuel) c (x ∷ r) s h = elim (Bool-cases (leb 16 (length (x ∷ r)))) [
      | inl e ↦
          rw (message_loop_whole aes f fuel c (x ∷ r) s e)
            (length-x-message_loop fuel (c + 1) (drop 15 r) _ (whole c _ 16 s))
      | inr e ↦ rw (message_loop_last aes f fuel c (x ∷ r) s e (nonempty x r)) (whole c _ _ s)
    ]

  pub length-x-encrypted :
      (l fuel c : ℕ) (msg : Bytes) (s : Blocks)
      → length s.x ≡ 16
      → length (message_loop aes (encrypt_block aes l) fuel c msg s).1.x ≡ 16
  length-x-encrypted l fuel c msg s h =
      length-x-message_loop (encrypt_block aes l) (length-x-encrypt_block l) fuel c msg s h

  pub length-x-decrypted :
      (l fuel c : ℕ) (msg : Bytes) (s : Blocks)
      → length s.x ≡ 16
      → length (message_loop aes (decrypt_block aes l) fuel c msg s).1.x ≡ 16
  length-x-decrypted l fuel c msg s h =
      length-x-message_loop (decrypt_block aes l) (length-x-decrypt_block l) fuel c msg s h
