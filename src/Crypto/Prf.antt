-- ===== src/Crypto/Prf.antt =====
-- dtls_p_hash computes the P_hash of RFC 5246, section 5.
use tinydtls.Base.{
  length-take, Bool, length-append, refl, replicate, ap, false, take-append_long, take-append_short,
  true, Bool-cases, Bytes, [], append-nil, append_assoc, arith, inl, inr, length, ltb, suc, take,
  zero, ℕ, ◌*◌, ◌++◌, ◌+◌, ◌-◌, ◌<◌, ◌∙◌, ◌∷◌, ◌≡◌, ◌≤◌,
}
use tinydtls.Crypto.{dtls_p_hash, Seed, p_block, p_hash_loop, update_seed, dtls_prf}
use tinydtls.Hmac.{finalize, update}
use tinydtls.Hmac.Laws.{hmac, finalize-update-init}
use tinydtls.Hmac

abbrev pub seed_bytes : Seed → Bytes
seed_bytes s = s.label ++ s.random1 ++ s.random2

module _ (hash : Bytes → Bytes) where
  -- n blocks of HMAC(secret, A(i) + seed), with A(i + 1) = HMAC(secret, A(i))
  abbrev pub p_stream : ℕ → Bytes → Seed → Bytes → Bytes
  p_stream zero key seed a = []
  p_stream (suc n) key seed a =
      hmac hash key (a ++ seed_bytes seed) ++ p_stream n key seed (hmac hash key a)

  p_block_lem :
      (key : Bytes) (seed : Seed) (a : Bytes)
      → p_block hash key seed a ≡ hmac hash key (a ++ seed_bytes seed)
  unfolding p_block
  p_block_lem key seed a =
      finalize-update-init hash key (a ∷ seed.label ∷ seed.random1 ∷ seed.random2 ∷ [])
      ∙ rw (append-nil, append_assoc)

  next_a : (key a : Bytes) → Hmac.finalize hash (update (Hmac.init hash key) a) ≡ hmac hash key a
  next_a key a = finalize-update-init hash key (a ∷ []) ∙ rw append-nil

  first_a :
      (key : Bytes) (seed : Seed)
      → Hmac.finalize hash (update_seed hash (Hmac.init hash key) seed)
        ≡ hmac hash key (seed_bytes seed)
  unfolding update_seed
  first_a key seed =
      finalize-update-init hash key (seed.label ∷ seed.random1 ∷ seed.random2 ∷ [])
      ∙ rw (append-nil, append_assoc)

  module _ (digest : (m : Bytes) → length (hash m) ≡ 32) where
    p_hash_loop_lem :
        (k fuel : ℕ) (key : Bytes) (seed : Seed) (a : Bytes) (len buflen : ℕ)
        → length a ≡ 32
        → buflen - len ≤ 32 * k
        → buflen - len < fuel
        → p_hash_loop hash fuel key seed a len buflen ≡ take (buflen - len) (p_stream k key seed a)
    unfolding p_hash_loop
    p_hash_loop_lem k zero key seed a len buflen e h f = absurd (omega arith)
    p_hash_loop_lem zero (suc fuel) key seed a len buflen e h f =
        let none_left : buflen - len ≡ 0 = omega arith in
        let stop : ltb (len + length a) buflen ≡ false = ground arith in rw (stop, none_left)
    p_hash_loop_lem (suc k) (suc fuel) key seed a len buflen e h f =
        let block = hmac hash key (a ++ seed_bytes seed) in
        let d : length block ≡ 32 = digest _ in
        elim (Bool-cases (ltb (len + length a) buflen)) [
          | inl t ↦
              let more : len + 32 < buflen = ground (arith, e, t) in
              let ih =
                p_hash_loop_lem k fuel key seed (hmac hash key a) (len + 32) buflen (digest _)
                  (omega (arith, more)) (omega (arith, more)) in
              let left : buflen - (len + 32) ≡ buflen - len - length block = omega (arith, d) in
              rw (
                p_block_lem,
                next_a,
                t,
                take-append_long (buflen - len) block (p_stream k key seed (hmac hash key a))
                    (omega (arith, d, more)),
                ← left,
                d,
                ih,
              )
          | inr t ↦
              let less : buflen - len ≤ 32 = ground (arith, e, t) in
              rw (
                p_block_lem,
                next_a,
                t,
                take-append_short (buflen - len) block (p_stream k key seed (hmac hash key a))
                    (omega (arith, d, less)),
              )
        ]

    -- Where memory is found, the PRF gives as many bytes as are asked for, and they are the first
    -- bytes of the stream of RFC 5246, of any number of blocks that is enough; the digest has 32
    -- bytes.
    pub dtls_prf_lem :
        (k : ℕ) (key : Bytes) (seed : Seed) (buflen : ℕ)
        → buflen ≤ 32 * k
        → dtls_prf hash true true key seed buflen
          ≡ (buflen, take buflen (p_stream k key seed (hmac hash key (seed_bytes seed))))
    unfolding dtls_prf
    dtls_prf_lem k key seed buflen h = rw (first_a key seed) (
        ap (λ (out : Bytes). (buflen, out))
          (p_hash_loop_lem k (suc buflen) key seed _ 0 buflen (digest _) (omega arith) (omega arith)
            ∙ ap (λ (n : ℕ). take n (p_stream k key seed (hmac hash key (seed_bytes seed))))
                (omega arith)))

    length-p_stream :
        (k : ℕ) (key : Bytes) (seed : Seed) (a : Bytes) → length (p_stream k key seed a) ≡ 32 * k
    length-p_stream zero key seed a = refl
    length-p_stream (suc k) key seed a =
        let rest = p_stream k key seed (hmac hash key a) in
        omega (
          arith,
          length-append (hmac hash key (a ++ seed_bytes seed)) rest,
          digest,
          length-p_stream k key seed (hmac hash key a),
        )

    pub length-dtls_prf :
        (k : ℕ) (key : Bytes) (seed : Seed) (buflen : ℕ)
        → buflen ≤ 32 * k
        → length (dtls_prf hash true true key seed buflen).1 ≡ buflen
    length-dtls_prf k key seed buflen h =
        let stream = p_stream k key seed (hmac hash key (seed_bytes seed)) in
        rw (dtls_prf_lem k key seed buflen h) (
          omega (
            arith,
            length-take buflen stream,
            length-p_stream k key seed (hmac hash key (seed_bytes seed)),
            h,
          ))

  -- Without memory for the first context, the buffer keeps its zeros.
  pub dtls_prf-no_memory :
      (new_p : Bool) (key : Bytes) (seed : Seed) (buflen : ℕ)
      → (dtls_prf hash false new_p key seed buflen).1 ≡ replicate buflen 0
  unfolding dtls_prf dtls_p_hash
  dtls_prf-no_memory new_p key seed buflen = refl
