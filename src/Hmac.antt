-- ===== src/Hmac.antt =====
-- hmac.c over the hash functions of sha2, which are the parameter `hash`: the digest of the bytes
-- fed in since `dtls_hash_init`. A hash context is those bytes.
pub mod Laws
mod Tests
use tinydtls.Base.{Bytes, [], bit_xor, if◌then◌else◌, length, ltb, map, replicate, ℕ, ◌++◌}
use tinydtls.Global.{memcpy}

abbrev pub dtls_hmac_blocksize : ℕ
dtls_hmac_blocksize = 64

abbrev pub dtls_hmac_digest_size : ℕ
dtls_hmac_digest_size = 32

-- dtls_hmac_context_t; `fed` is the hash context `data`.
pub record HmacContext : Type 0 where
  pub pad : Bytes
  pub fed : Bytes

-- for (i = 0; i < DTLS_HMAC_BLOCKSIZE; ++i) pad[i] ^= v;
abbrev pub xor_pad : Bytes → ℕ → Bytes
xor_pad pad v = map (λ b. bit_xor b v) pad

pub update : HmacContext → Bytes → HmacContext
update ctx input = record ctx { fed = ctx.fed ++ input }

module _ (hash : Bytes → Bytes) where
  -- The key, or its digest where it is longer than a block, at the start of a zeroed block.
  pub key_pad : Bytes → Bytes
  key_pad key =
      let zeros = replicate dtls_hmac_blocksize 0 in
      if ltb dtls_hmac_blocksize (length key)
      then memcpy zeros 0 (hash key) (length (hash key))
      else memcpy zeros 0 key (length key)

  pub init : Bytes → HmacContext
  unfolding key_pad update
  init key =
      let ipad = xor_pad (key_pad key) 0x36 in
      let ctx = update (record { pad = ipad; fed = [] }) ipad in
      record ctx { pad = xor_pad ctx.pad 0x6A }

  -- The digest. The callers initialise the context before they use it again.
  pub finalize : HmacContext → Bytes
  finalize ctx = let buf = hash ctx.fed in hash (ctx.pad ++ buf)
