-- ===== src/Ccm/RoundTrip.antt =====
-- ccm.c: what is encrypted is decrypted, and what decrypts is an encryption.
use tinydtls.Base.{
  drop, length-drop, take-append-drop, ==_iff, Bool-cases, inl, inr, subst, drop-append_length,
  false, if◌then◌else◌, ltb, none, refl, take-append_length, ◌==◌, ◌∙◌, Bytes, arith, length,
  length-append, length-take, some, suc, sym, take, take_all, ℕ, ◌++◌, ◌+◌, ◌-◌, ◌<◌, ◌≡◌, ◌≤◌,
}
use tinydtls.Ccm.MacLength.{length-x-decrypted, length-x-start, length-x-encrypted}
use tinydtls.Global.{memxor, equals}
use tinydtls.Global.Laws.{memxor_cancel, length-memxor, equals_iff}
use tinydtls.Ccm.{
  Blocks, encrypt_block, decrypt_block, message_loop, last_mask, start, dtls_ccm_encrypt_message,
  dtls_ccm_decrypt_message,
}
use tinydtls.Ccm.Message.{
  decrypt_block-encrypt_block, encrypt_block-decrypt_block, length-encrypt_block,
  length-decrypt_block, length-message_loop, message_loop_inverse,
}

module _ (aes : Bytes → Bytes) where
  abbrev enc : ℕ → ℕ → ℕ → Bytes → Blocks → Bytes × Blocks
  enc l fuel c msg s = message_loop aes (encrypt_block aes l) fuel c msg s

  abbrev dec : ℕ → ℕ → ℕ → Bytes → Blocks → Bytes × Blocks
  dec l fuel c msg s = message_loop aes (decrypt_block aes l) fuel c msg s

  dec-enc :
      (l fuel c : ℕ) (msg : Bytes) (s : Blocks)
      → length msg < fuel
      → dec l fuel c (enc l fuel c msg s).0 s ≡ (msg, (enc l fuel c msg s).1)
  dec-enc l fuel c msg s h =
      message_loop_inverse aes (encrypt_block aes l) (decrypt_block aes l)
        (length-encrypt_block aes l) (decrypt_block-encrypt_block aes l) fuel c msg s h

  enc-dec :
      (l fuel c : ℕ) (msg : Bytes) (s : Blocks)
      → length msg < fuel
      → enc l fuel c (dec l fuel c msg s).0 s ≡ (msg, (dec l fuel c msg s).1)
  enc-dec l fuel c msg s h =
      message_loop_inverse aes (decrypt_block aes l) (encrypt_block aes l)
        (length-decrypt_block aes l) (encrypt_block-decrypt_block aes l) fuel c msg s h

  length-enc :
      (l fuel c : ℕ) (msg : Bytes) (s : Blocks)
      → length msg < fuel
      → length (enc l fuel c msg s).0 ≡ length msg
  length-enc l =
      length-message_loop aes (encrypt_block aes l) (decrypt_block aes l)
        (length-encrypt_block aes l) (decrypt_block-encrypt_block aes l)

  length-dec :
      (l fuel c : ℕ) (msg : Bytes) (s : Blocks)
      → length msg < fuel
      → length (dec l fuel c msg s).0 ≡ length msg
  length-dec l =
      length-message_loop aes (decrypt_block aes l) (encrypt_block aes l)
        (length-decrypt_block aes l) (encrypt_block-decrypt_block aes l)

  -- A tag masks to itself, and the comparison with it passes.
  tag_matches :
      (m : ℕ) (x mask : Bytes)
      → m ≤ length x
      → equals x (memxor (memxor (take m x) mask m) mask m) m ≡ 1
  tag_matches m x mask h = rw memxor_cancel (
      (equals_iff x (take m x) m h (omega (arith, length-take m x))).0.1
        (sym (take_all m (take m x) (omega (arith, length-take m x)))))

  -- The input as a message and the tag behind it.
  decrypt_parts :
      (m l : ℕ) (nonce c t aad : Bytes)
      → length t ≡ m
      → dtls_ccm_decrypt_message aes m l nonce (c ++ t) aad ≡ (
          let r = dec l (suc (length c)) 1 c (start aes m l nonce (length c) aad) in
          if equals r.1.x (memxor t (last_mask aes l r.1) m) m == 1 then some r.0 else none)
  unfolding dtls_ccm_decrypt_message
  decrypt_parts m l nonce c t aad h =
      let e : length (c ++ t) - m ≡ length c = omega (arith, length-append c t) in
      let short : ltb (length (c ++ t)) m ≡ false = ground (arith, length-append c t) in
      rw (e, short, take-append_length (length c) c t refl, drop-append_length (length c) c t refl)

  module _ (block : (b : Bytes) → length (aes b) ≡ 16) (m l : ℕ) (nonce msg aad : Bytes)
      (m_le : m ≤ 16) where
    abbrev s0 : Blocks
    s0 = start aes m l nonce (length msg) aad

    abbrev sent : Bytes × Blocks
    sent = enc l (suc (length msg)) 1 msg s0

    abbrev tag : Bytes
    tag = memxor (take m sent.1.x) (last_mask aes l sent.1) m

    length-x-sent : length sent.1.x ≡ 16
    length-x-sent =
        length-x-encrypted aes block l (suc (length msg)) 1 msg s0
          (length-x-start aes block m l nonce (length msg) aad)

    length-sent : length sent.0 ≡ length msg
    length-sent = length-enc l (suc (length msg)) 1 msg s0 (omega arith)

    length-tag : length tag ≡ m
    length-tag = omega (
      arith,
      length-memxor (take m sent.1.x) (last_mask aes l sent.1) m,
      length-take m sent.1.x,
      length-x-sent,
    )

    -- An encrypted message is longer by its MAC of `m` bytes.
    pub length-dtls_ccm_encrypt_message :
        length (dtls_ccm_encrypt_message aes m l nonce msg aad) ≡ length msg + m
    unfolding dtls_ccm_encrypt_message
    length-dtls_ccm_encrypt_message =
        omega (arith, length-append sent.0 tag, length-sent, length-tag)

    received :
        length sent.0 ≡ length msg
        → dec l (suc (length sent.0)) 1 sent.0 (start aes m l nonce (length sent.0) aad)
          ≡ (msg, sent.1)
    received e = rw e (dec-enc l (suc (length msg)) 1 msg s0 (omega arith))

    -- Decryption undoes encryption, under the same key, nonce and additional data, for a cipher with
    -- blocks of 16 bytes and a MAC of at most 16.
    pub decrypt_message-encrypt_message :
        dtls_ccm_decrypt_message aes m l nonce (dtls_ccm_encrypt_message aes m l nonce msg aad) aad
        ≡ some msg
    unfolding dtls_ccm_encrypt_message
    decrypt_message-encrypt_message =
        decrypt_parts m l nonce sent.0 tag aad length-tag
        ∙ rw (
          received length-sent,
          tag_matches m sent.1.x (last_mask aes l sent.1) (omega (arith, length-x-sent)),
        )

  module _ (block : (b : Bytes) → length (aes b) ≡ 16) (m l : ℕ) (nonce c t aad : Bytes)
      (m_le : m ≤ 16) (size : length t ≡ m) where
    abbrev got : Bytes × Blocks
    got = dec l (suc (length c)) 1 c (start aes m l nonce (length c) aad)

    length-x-got : length got.1.x ≡ 16
    length-x-got =
        length-x-decrypted aes block l (suc (length c)) 1 c _
          (length-x-start aes block m l nonce (length c) aad)

    length-got : length got.0 ≡ length c
    length-got = length-dec l (suc (length c)) 1 c _ (omega arith)

    resent :
        length got.0 ≡ length c
        → enc l (suc (length got.0)) 1 got.0 (start aes m l nonce (length got.0) aad) ≡ (c, got.1)
    resent e = rw e (enc-dec l (suc (length c)) 1 c _ (omega arith))

    -- The tag that passes the comparison is the one that encryption makes.
    tag_made :
        equals got.1.x (memxor t (last_mask aes l got.1) m) m ≡ 1
        → memxor (take m got.1.x) (last_mask aes l got.1) m ≡ t
    tag_made e =
        let mask = last_mask aes l got.1 in
        let n = length-memxor t mask m in
        let same =
          (equals_iff got.1.x (memxor t mask m) m (omega (arith, length-x-got))
              (omega (arith, n))).0.0
            e in
        rw (same, take_all m (memxor t mask m) (omega (arith, n)), memxor_cancel)

    encrypt_parts :
        {p : Bytes}
        → dtls_ccm_decrypt_message aes m l nonce (c ++ t) aad ≡ some p
        → dtls_ccm_encrypt_message aes m l nonce p aad ≡ c ++ t
    unfolding dtls_ccm_encrypt_message
    encrypt_parts {p} h =
        elim (Bool-cases (equals got.1.x (memxor t (last_mask aes l got.1) m) m == 1)) [
          | inl e ↦
              let found : got.0 ≡ p = ground (arith, h, e, decrypt_parts m l nonce c t aad size) in
              subst
                (λ (q : Bytes).
                  (let s = enc l (suc (length q)) 1 q (start aes m l nonce (length q) aad) in
                    s.0 ++ memxor (take m s.1.x) (last_mask aes l s.1) m)
                  ≡ c ++ t)
                found (rw (resent length-got, tag_made ((==_iff _ 1).0 e)))
          | inr e ↦ absurd (ground (arith, h, e, decrypt_parts m l nonce c t aad size))
        ]

  decrypt-length :
      (m l : ℕ) (nonce msg aad : Bytes) {p : Bytes}
      → dtls_ccm_decrypt_message aes m l nonce msg aad ≡ some p
      → m ≤ length msg
  unfolding dtls_ccm_decrypt_message
  decrypt-length m l nonce msg aad h = ground arith

  -- Whatever decrypts is the encryption of the result: no other bytes pass the check of the MAC.
  -- This is for a cipher with blocks of 16 bytes and a MAC of at most 16.
  pub encrypt_message-of_decrypted :
      ((b : Bytes) → length (aes b) ≡ 16)
      → (m l : ℕ) (nonce msg aad : Bytes) {p : Bytes} → m ≤ 16
      → dtls_ccm_decrypt_message aes m l nonce msg aad ≡ some p
      → dtls_ccm_encrypt_message aes m l nonce p aad ≡ msg
  encrypt_message-of_decrypted block m l nonce msg aad {p} m_le h =
      let k = length msg - m in
      let long = decrypt-length m l nonce msg aad h in
      let whole = take-append-drop k msg in
      encrypt_parts block m l nonce (take k msg) (drop k msg) aad m_le
        (omega (arith, length-drop k msg, long)) (rw whole h)
      ∙ whole
