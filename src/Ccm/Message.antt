-- ===== src/Ccm/Message.antt =====
-- ccm.c: the loop over the blocks of a message, and the loop that undoes it.
use tinydtls.Base.{
  drop-append_length, le→leb, take-append-drop, take-append_length, ◌==◌, Bool-cases, [], false,
  inl, inr, leb, leb→le, refl, true, ◌++◌, ◌∙◌, ◌∷◌, Bytes, arith, drop, length, length-append,
  length-drop, length-take, suc, take, zero, ℕ, ◌+◌, ◌<◌, ◌≡◌,
}
use tinydtls.Global.Laws.{memxor_cancel, length-memxor}
use tinydtls.Ccm.{Blocks, encrypt_block, decrypt_block, message_loop}

abbrev pub Step : Type 0
Step = ℕ → Bytes → ℕ → Blocks → Bytes × Blocks

module _ (aes : Bytes → Bytes) where
  -- A block that is encrypted and decrypted from one state: the same block, and the same state.
  pub decrypt_block-encrypt_block :
      (l c : ℕ) (msg : Bytes) (len : ℕ) (s : Blocks)
      → decrypt_block aes l c (encrypt_block aes l c msg len s).0 len s
        ≡ (msg, (encrypt_block aes l c msg len s).1)
  unfolding decrypt_block encrypt_block
  decrypt_block-encrypt_block l c msg len s = rw memxor_cancel

  pub encrypt_block-decrypt_block :
      (l c : ℕ) (msg : Bytes) (len : ℕ) (s : Blocks)
      → encrypt_block aes l c (decrypt_block aes l c msg len s).0 len s
        ≡ (msg, (decrypt_block aes l c msg len s).1)
  unfolding decrypt_block encrypt_block
  encrypt_block-decrypt_block l c msg len s = rw memxor_cancel

  pub length-encrypt_block :
      (l c : ℕ) (msg : Bytes) (len : ℕ) (s : Blocks)
      → length (encrypt_block aes l c msg len s).0 ≡ length msg
  unfolding encrypt_block
  length-encrypt_block l c msg len s = length-memxor msg _ len

  pub length-decrypt_block :
      (l c : ℕ) (msg : Bytes) (len : ℕ) (s : Blocks)
      → length (decrypt_block aes l c msg len s).0 ≡ length msg
  unfolding decrypt_block
  length-decrypt_block l c msg len s = length-memxor msg _ len

-- The three branches of the loop.
module _ (aes : Bytes → Bytes) (f : Step) where
  pub message_loop_whole :
      (fuel c : ℕ) (msg : Bytes) (s : Blocks)
      → leb 16 (length msg) ≡ true
      → message_loop aes f (suc fuel) c msg s ≡ (
        (f c (take 16 msg) 16 s).0
            ++ (message_loop aes f fuel (c + 1) (drop 16 msg) (f c (take 16 msg) 16 s).1).0,
        (message_loop aes f fuel (c + 1) (drop 16 msg) (f c (take 16 msg) 16 s).1).1,
      )
  unfolding message_loop
  message_loop_whole fuel c msg s h = rw h

  pub message_loop_last :
      (fuel c : ℕ) (msg : Bytes) (s : Blocks)
      → leb 16 (length msg) ≡ false
      → (length msg == 0) ≡ false
      → message_loop aes f (suc fuel) c msg s ≡ f c msg (length msg) s
  unfolding message_loop
  message_loop_last fuel c msg s h k = rw (h, k)

  pub message_loop_nil : (fuel c : ℕ) (s : Blocks) → message_loop aes f (suc fuel) c [] s ≡ ([], s)
  unfolding message_loop
  message_loop_nil fuel c s = refl

pub nonempty : (x : ℕ) (r : Bytes) → (length (x ∷ r) == 0) ≡ false
nonempty x r = ground arith

-- The loop of a step that keeps lengths, and of its inverse.
module _ (aes : Bytes → Bytes) (f g : Step)
    (same : (c : ℕ) (msg : Bytes) (len : ℕ) (s : Blocks) → length (f c msg len s).0 ≡ length msg)
    (inverse : (c : ℕ) (msg : Bytes) (len : ℕ) (s : Blocks)
      → g c (f c msg len s).0 len s ≡ (msg, (f c msg len s).1)) where
  pub length-message_loop :
      (fuel c : ℕ) (msg : Bytes) (s : Blocks)
      → length msg < fuel
      → length (message_loop aes f fuel c msg s).0 ≡ length msg
  length-message_loop zero c msg s h = absurd (omega arith)
  length-message_loop (suc fuel) c [] s h = rw message_loop_nil
  length-message_loop (suc fuel) c (x ∷ r) s h = elim (Bool-cases (leb 16 (length (x ∷ r)))) [
    | inl e ↦
        let msg = x ∷ r in
        let s' = (f c (take 16 msg) 16 s).1 in
        rw (message_loop_whole aes f fuel c msg s e) (
          length-append (f c (take 16 msg) 16 s).0 _
          ∙ omega (
            arith,
            same c (take 16 msg) 16 s,
            leb→le 16 (length msg) e,
            length-take 16 msg,
            length-drop 16 msg,
            length-message_loop fuel (c + 1) (drop 16 msg) s' (omega (arith, length-drop 16 msg)),
          ))
    | inr e ↦ rw (message_loop_last aes f fuel c (x ∷ r) s e (nonempty x r)) (same c (x ∷ r) _ s)
  ]

  -- The inverse finds the blocks where the first loop left them.
  inverse_whole :
      (fuel c : ℕ) (msg : Bytes) (s : Blocks)
      → leb 16 (length msg) ≡ true
      → ((s' : Blocks)
          → message_loop aes g fuel (c + 1) (message_loop aes f fuel (c + 1) (drop 16 msg) s').0 s'
            ≡ (drop 16 msg, (message_loop aes f fuel (c + 1) (drop 16 msg) s').1))
      → message_loop aes g (suc fuel) c (message_loop aes f (suc fuel) c msg s).0 s
        ≡ (msg, (message_loop aes f (suc fuel) c msg s).1)
  inverse_whole fuel c msg s e ih = rw (message_loop_whole aes f fuel c msg s e) (
      message_loop_whole aes g fuel c (out ++ rest) s long
      ∙ rw (
        take-append_length 16 out rest sixteen,
        drop-append_length 16 out rest sixteen,
        inverse c (take 16 msg) 16 s,
        ih (f c (take 16 msg) 16 s).1,
        take-append-drop 16 msg,
      ))
    where
      out : Bytes
      out = (f c (take 16 msg) 16 s).0

      rest : Bytes
      rest = (message_loop aes f fuel (c + 1) (drop 16 msg) (f c (take 16 msg) 16 s).1).0

      sixteen : length out ≡ 16
      sixteen =
          omega (arith, same c (take 16 msg) 16 s, leb→le 16 (length msg) e, length-take 16 msg)

      long : leb 16 (length (out ++ rest)) ≡ true
      long = le→leb 16 _ (omega (arith, length-append out rest, sixteen))

  pub message_loop_inverse :
      (fuel c : ℕ) (msg : Bytes) (s : Blocks)
      → length msg < fuel
      → message_loop aes g fuel c (message_loop aes f fuel c msg s).0 s
        ≡ (msg, (message_loop aes f fuel c msg s).1)
  message_loop_inverse zero c msg s h = absurd (omega arith)
  message_loop_inverse (suc fuel) c [] s h =
      rw (message_loop_nil aes f fuel c s) (message_loop_nil aes g fuel c s)
  message_loop_inverse (suc fuel) c (x ∷ r) s h = elim (Bool-cases (leb 16 (length (x ∷ r)))) [
    | inl e ↦ inverse_whole fuel c (x ∷ r) s e (λ s'.
        message_loop_inverse fuel (c + 1) (drop 15 r) s'
          (omega (arith, length-drop 15 r, leb→le 16 (length (x ∷ r)) e)))
    | inr e ↦
        let k = same c (x ∷ r) (length (x ∷ r)) s in
        rw (message_loop_last aes f fuel c (x ∷ r) s e (nonempty x r)) (
          message_loop_last aes g fuel c _ s (rw k e) (rw k (nonempty x r))
          ∙ rw k (inverse c (x ∷ r) (length (x ∷ r)) s))
  ]
