-- ===== src/KeyExchange/KeyBlock.antt =====
-- calculate_key_block with a pre-shared key.
use tinydtls.Base.{
  append_assoc, append-nil, [], drop-append_length, take-append_length, drop, take, ℕ, ◌∷◌, ap,
  refl, ◌∙◌, Bool, Bytes, Option, arith, none, replicate, some, true, u16, ◌++◌, ◌+◌, ◌<◌, ◌≡◌, ◌≤◌,
  length,
}
use tinydtls.Crypto.Prf.{dtls_prf_lem}
use tinydtls.Crypto.{Seed, dtls_prf, max_keyblock_length, dtls_psk_pre_master_secret}
use tinydtls.Hmac.Laws.{hmac}
use tinydtls.Alert.{Result, fail, ok, internal_error, alert_fatal_create}
use tinydtls.KeyExchange.{
  label_key, label_master, Peer, master_of, key_block_of, pre_master, calculate_key_block,
}
use tinydtls.Numeric.{int_to_uint16}
use tinydtls.Peer.{Handshake, security_new, params_next}
use tinydtls.Cipher.{Context, is_tls_psk_with_aes_128_ccm_8}
use tinydtls.Header.{Security}
use mathlib.Core.Option

-- The pre-master secret of RFC 4279.
abbrev pub psk_secret : Bytes → Bytes
psk_secret psk =
    int_to_uint16 (length psk) ++ replicate (length psk) 0 ++ int_to_uint16 (length psk) ++ psk

pre_master_secret-fits :
    (psk : Bytes) → length psk ≤ 18 → dtls_psk_pre_master_secret psk 40 ≡ some (psk_secret psk)
unfolding dtls_psk_pre_master_secret
pre_master_secret-fits psk h = ground arith

pre_master_secret-long : (psk : Bytes) → 18 < length psk → dtls_psk_pre_master_secret psk 40 ≡ none
unfolding dtls_psk_pre_master_secret
pre_master_secret-long psk h = ground arith

module _ (hash : Bytes → Bytes) (new_a new_p : Bool) (ecdh : Handshake → Option Bytes) where
  -- The parameters of the next epoch, before the key block is derived.
  abbrev fresh : Security → Security
  fresh s = record security_new { epoch = u16 (s.epoch + 1) }

  params_next-first :
      (p : Peer) (s : Security)
      → p.params0 ≡ some s
      → params_next true p ≡ (record p { params1 = some (fresh s) }, some (fresh s))
  unfolding params_next
  params_next-first p s e =
      ap
        (λ (o : Option Security).
          (let n = Option.map (λ (x : Security). fresh x) o in (record p { params1 = n }, n)))
        e

  pre_master-psk :
      (get_psk : Bytes → Result Bytes) (ctx : Context) (h : Handshake) (psk : Bytes)
      → get_psk h.identity ≡ ok psk
      → is_tls_psk_with_aes_128_ccm_8 ctx h.hs_cipher ≡ true
      → pre_master get_psk ecdh ctx h ≡ elim (dtls_psk_pre_master_secret psk max_keyblock_length) [
        | none ↦ fail (alert_fatal_create internal_error)
        | some secret ↦ ok secret
      ]
  unfolding pre_master
  pre_master-psk get_psk ctx h psk key suite = rw (suite, key)

  -- A pre-shared key of more than 18 bytes, which the callback may return in up to 32, fails with
  -- internal_error, since its pre-master secret does not fit into the 40 bytes of a key block.
  pub calculate_key_block-long_psk :
      (ctx : Context) (h : Handshake) (p : Peer) (s : Security) (psk : Bytes)
      → p.params0 ≡ some s
      → is_tls_psk_with_aes_128_ccm_8 ctx h.hs_cipher ≡ true
      → 18 < length psk
      → (calculate_key_block hash new_a new_p (λ i. ok psk) ecdh true ctx h p).0
        ≡ fail (alert_fatal_create internal_error)
  unfolding calculate_key_block
  calculate_key_block-long_psk ctx h p s psk first suite long =
      let secret : pre_master (λ i. ok psk) ecdh ctx h ≡ fail (alert_fatal_create internal_error) =
        pre_master-psk (λ i. ok psk) ctx h psk refl suite
        ∙ rw (pre_master_secret-long psk long) refl in
      rw (calculate_key_block, params_next-first p s first, secret)

-- "master secret" and "key expansion", in ASCII
abbrev pub master_secret_ascii : Bytes
master_secret_ascii =
    0x6D ∷ 0x61 ∷ 0x73 ∷ 0x74 ∷ 0x65 ∷ 0x72 ∷ 0x20 ∷ 0x73 ∷ 0x65 ∷ 0x63 ∷ 0x72 ∷ 0x65 ∷ 0x74 ∷ []

abbrev pub key_expansion_ascii : Bytes
key_expansion_ascii =
    0x6B ∷ 0x65 ∷ 0x79 ∷ 0x20 ∷ 0x65 ∷ 0x78 ∷ 0x70 ∷ 0x61 ∷ 0x6E ∷ 0x73 ∷ 0x69 ∷ 0x6F ∷ 0x6E ∷ []

module _ (hash : Bytes → Bytes) where
  -- The PRF of RFC 5246, section 5, for at most two blocks of HMAC: A(1) = HMAC(secret, seed) and
  -- A(2) = HMAC(secret, A(1)), where the label stands in front of the seed.
  abbrev pub rfc_prf : Bytes → Bytes → Bytes → ℕ → Bytes
  rfc_prf secret label seed n =
      let a1 = hmac hash secret (label ++ seed) in
      let a2 = hmac hash secret a1 in
      take n (hmac hash secret (a1 ++ (label ++ seed)) ++ hmac hash secret (a2 ++ (label ++ seed)))

  -- RFC 5246, section 8.1, for a client random and a server random.
  abbrev pub rfc_master : Bytes → Bytes → Bytes → Bytes
  rfc_master secret random_c random_s = rfc_prf secret master_secret_ascii (random_c ++ random_s) 48

  -- RFC 5246, section 6.3: two keys of 16 bytes and two salts of 4.
  abbrev pub rfc_key_block : Bytes → Bytes → Bytes → Bytes
  rfc_key_block master random_c random_s =
      rfc_prf master key_expansion_ascii (random_s ++ random_c) 40

  module _ (digest : (m : Bytes) → length (hash m) ≡ 32) where
    rfc_prf_lem :
        (secret label random1 random2 : Bytes) (n : ℕ)
        → n ≤ 64
        → (dtls_prf hash true true secret
            (record { label = label; random1 = random1; random2 = random2 })
            n).1
          ≡ rfc_prf secret label (random1 ++ random2) n
    rfc_prf_lem secret label random1 random2 n fits =
        let seed : Seed = record { label = label; random1 = random1; random2 = random2 } in
        rw
          (
            dtls_prf_lem hash digest 2 secret seed n fits,
            append-nil,
            append_assoc label random1 random2,
          )
          refl

    module _ (h : Handshake) (random_c random_s : Bytes) (randoms : h.tmp ≡ random_c ++ random_s)
        (size : length random_c ≡ 32) where
      front : take 32 h.tmp ≡ random_c
      front = rw randoms (take-append_length 32 random_c random_s size)

      back : drop 32 h.tmp ≡ random_s
      back = rw randoms (drop-append_length 32 random_c random_s size)

      master_of_lem :
          (secret : Bytes) → master_of hash true true h secret ≡ rfc_master secret random_c random_s
      unfolding master_of
      master_of_lem secret =
          rfc_prf_lem secret label_master (take 32 h.tmp) (drop 32 h.tmp) 48 (omega arith)
          ∙ rw (front, back) refl

      key_block_of_lem :
          (master : Bytes)
          → key_block_of hash true true h master ≡ rfc_key_block master random_c random_s
      unfolding key_block_of
      key_block_of_lem master =
          rfc_prf_lem master label_key (drop 32 h.tmp) (take 32 h.tmp) 40 (omega arith)
          ∙ rw (front, back) refl

      -- A pre-shared key of at most 18 bytes: the union of the handshake then starts with the master
      -- secret that RFC 5246 derives from the pre-master secret of RFC 4279 and the randoms of client
      -- and server, and the second security parameters of the peer become those of the next epoch,
      -- with the suite of the handshake, a sequence number of 0 and the key block of RFC 5246; the
      -- first ones stay. The hash gives 32 bytes and memory is found.
      pub calculate_key_block-psk :
          (get_psk : Bytes → Result Bytes) (ecdh : Handshake → Option Bytes) (ctx : Context)
          (p : Peer) (s : Security) (psk : Bytes)
          → get_psk h.identity ≡ ok psk
          → p.params0 ≡ some s
          → is_tls_psk_with_aes_128_ccm_8 ctx h.hs_cipher ≡ true
          → length psk ≤ 18
          → let master = rfc_master (psk_secret psk) random_c random_s in
            calculate_key_block hash true true get_psk ecdh true ctx h p ≡ (
              ok 0,
              (
                record h { tmp = master ++ drop 48 h.tmp },
                record p {
                  params1 = some (record {
                    compression = h.hs_compression;
                    cipher = h.hs_cipher;
                    epoch = u16 (s.epoch + 1);
                    rseq = 0;
                    key_block = rfc_key_block master random_c random_s;
                  });
                },
              ),
            )
      unfolding calculate_key_block
      calculate_key_block-psk get_psk ecdh ctx p s psk key first suite short =
          let next = params_next-first hash true true ecdh p s first in
          let secret : pre_master get_psk ecdh ctx h ≡ ok (psk_secret psk) =
            pre_master-psk hash true true ecdh get_psk ctx h psk key suite
            ∙ rw (pre_master_secret-fits psk short) refl in
          let master = rfc_master (psk_secret psk) random_c random_s in
          let left : Peer × Option Security → Result ℕ × (Handshake × Peer) = λ o. (
            ok 0,
            (
              record h { tmp = master ++ drop 48 h.tmp },
              record (o.0) {
                params1 = some (record {
                  compression = h.hs_compression;
                  cipher = h.hs_cipher;
                  epoch = u16 (s.epoch + 1);
                  rseq = 0;
                  key_block = rfc_key_block master random_c random_s;
                });
              },
            ),
          ) in
          rw
            (
              calculate_key_block,
              next,
              secret,
              master_of_lem (psk_secret psk),
              key_block_of_lem (rfc_master (psk_secret psk) random_c random_s),
            )
            (ap left next)
