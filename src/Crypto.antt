-- ===== src/Crypto.antt =====
-- crypto.c: the pseudorandom function, the pre-master secret of a pre-shared key, and the key block
-- with the macros of crypto.h that cut it.
pub mod Prf
pub mod Keys
mod Tests
use tinydtls.Base.{
  Bool, Bytes, Option, [], drop, if◌then◌else◌, length, ltb, none, not, replicate, some, suc, take,
  zero, ℕ, ◌*◌, ◌++◌, ◌+◌, ◌-◌, ◌<◌,
}
use tinydtls.Hmac.{HmacContext, update, dtls_hmac_blocksize}
use tinydtls.Numeric.{int_to_uint16}
use tinydtls.Hmac

abbrev pub dtls_mac_key_length : ℕ
dtls_mac_key_length = 0

abbrev pub dtls_key_length : ℕ
dtls_key_length = 16

abbrev pub dtls_iv_length : ℕ
dtls_iv_length = 4

abbrev pub max_keyblock_length : ℕ
max_keyblock_length = 2 * dtls_mac_key_length + 2 * dtls_key_length + 2 * dtls_iv_length

abbrev pub dtls_master_secret_length : ℕ
dtls_master_secret_length = 48

abbrev pub dtls_random_length : ℕ
dtls_random_length = 32

abbrev pub dtls_psk_max_client_identity_len : ℕ
dtls_psk_max_client_identity_len = 32

abbrev pub dtls_psk_max_key_len : ℕ
dtls_psk_max_key_len = 32

pub data Role : Type 0 where
  client server : Role

-- The inputs of the PRF: a key, and the label and the two random values that form the seed.
pub record Seed : Type 0 where
  pub label : Bytes
  pub random1 : Bytes
  pub random2 : Bytes

module _ (hash : Bytes → Bytes) where
  -- The three HMAC_UPDATE_SEED calls.
  pub update_seed : HmacContext → Seed → HmacContext
  update_seed ctx seed = update (update (update ctx seed.label) seed.random1) seed.random2

  -- The output for one value of A: HMAC(key, A + seed).
  pub p_block : Bytes → Seed → Bytes → Bytes
  unfolding update_seed
  p_block key seed a = Hmac.finalize hash (update_seed (update (Hmac.init hash key) a) seed)

  -- while (len + dlen < buflen) { … } and the part of a block after it: what is written to `buf`
  -- from `len` on. `fuel` bounds the rounds by the bytes to go.
  pub p_hash_loop : ℕ → Bytes → Seed → Bytes → ℕ → ℕ → Bytes
  p_hash_loop zero key seed a len buflen = []
  p_hash_loop (suc fuel) key seed a len buflen =
      let tmp = p_block key seed a in
      let a' = Hmac.finalize hash (update (Hmac.init hash key) a) in
      let rest = p_hash_loop fuel key seed a' (len + length tmp) buflen in
      if ltb (len + length a) buflen then tmp ++ rest else take (buflen - len) tmp

  -- dtls_p_hash: the value that is returned and the buffer of `buflen` bytes. `new_a` and `new_p` say
  -- whether the two calls of dtls_hmac_new find memory.
  pub dtls_p_hash : Bool → Bool → Bytes → Seed → Bytes → ℕ → ℕ × Bytes
  dtls_p_hash new_a new_p key seed buf buflen =
      let a = Hmac.finalize hash (update_seed (Hmac.init hash key) seed) in
      if not new_a
      then (0, buf)
      else if not new_p
      then (buflen, buf)
      else (buflen, p_hash_loop (suc buflen) key seed a 0 buflen)

  pub dtls_prf : Bool → Bool → Bytes → Seed → ℕ → ℕ × Bytes
  unfolding dtls_p_hash
  dtls_prf new_a new_p key seed buflen =
      dtls_p_hash new_a new_p key seed (replicate buflen 0) buflen

-- dtls_psk_pre_master_secret; `none` is the return of -1.
unfoldable pub dtls_psk_pre_master_secret : Bytes → ℕ → Option Bytes
dtls_psk_pre_master_secret key result_len =
    let n = int_to_uint16 (length key) in
    if ltb result_len (2 * (2 + length key))
    then none
    else some (n ++ replicate (length key) 0 ++ n ++ key)

-- The macros over a key block: each is the rest of the block from an offset on, as the pointer is.
abbrev pub kb_client_write_key : Bytes → Bytes
kb_client_write_key kb = drop (2 * dtls_mac_key_length) kb

abbrev pub kb_server_write_key : Bytes → Bytes
kb_server_write_key kb = drop dtls_key_length (kb_client_write_key kb)

abbrev pub kb_client_iv : Bytes → Bytes
kb_client_iv kb = drop dtls_key_length (kb_server_write_key kb)

abbrev pub kb_server_iv : Bytes → Bytes
kb_server_iv kb = drop dtls_iv_length (kb_client_iv kb)

-- dtls_kb_remote_write_key and its siblings, with the dtls_kb_key_size or dtls_kb_iv_size bytes that
-- the callers read there.
pub kb_remote_write_key : Bytes → Role → Bytes
kb_remote_write_key kb server = take dtls_key_length (kb_client_write_key kb)
kb_remote_write_key kb client = take dtls_key_length (kb_server_write_key kb)

pub kb_local_write_key : Bytes → Role → Bytes
kb_local_write_key kb client = take dtls_key_length (kb_client_write_key kb)
kb_local_write_key kb server = take dtls_key_length (kb_server_write_key kb)

pub kb_remote_iv : Bytes → Role → Bytes
kb_remote_iv kb server = take dtls_iv_length (kb_client_iv kb)
kb_remote_iv kb client = take dtls_iv_length (kb_server_iv kb)

pub kb_local_iv : Bytes → Role → Bytes
kb_local_iv kb client = take dtls_iv_length (kb_client_iv kb)
kb_local_iv kb server = take dtls_iv_length (kb_server_iv kb)

abbrev pub dtls_kb_size : ℕ
dtls_kb_size = 2 * (dtls_mac_key_length + dtls_key_length + dtls_iv_length)
