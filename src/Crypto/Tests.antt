-- ===== src/Crypto/Tests.antt =====
-- Runs of the PRF and of the key block.
use tinydtls.Crypto.{Seed, dtls_prf}
use tinydtls.Base.{
  Bytes, [], arith, length, length-append, length-take, replicate, take, true, ◌++◌, ◌∷◌, ◌≡◌,
}
use tinydtls.Crypto.Prf.{seed_bytes, p_stream, dtls_prf_lem}
use tinydtls.Hmac.Laws.{hmac}

abbrev pad_hash : Bytes → Bytes
pad_hash m = take 32 (m ++ replicate 32 0)

length-pad_hash : (m : Bytes) → length (pad_hash m) ≡ 32
length-pad_hash m =
    omega (arith, length-take 32 (m ++ replicate 32 0), length-append m (replicate 32 0))

abbrev seed : Seed
seed = record { label = 1 ∷ []; random1 = 2 ∷ 3 ∷ []; random2 = 4 ∷ [] }

dtls_prf_lem_example :
    dtls_prf pad_hash true true (9 ∷ []) seed 40
    ≡ (40, take 40 (p_stream pad_hash 2 (9 ∷ []) seed (hmac pad_hash (9 ∷ []) (seed_bytes seed))))
dtls_prf_lem_example = dtls_prf_lem pad_hash length-pad_hash 2 (9 ∷ []) seed 40 (omega arith)

abbrev block : Bytes
block = replicate 16 1 ++ replicate 16 2 ++ replicate 4 3 ++ replicate 4 4
