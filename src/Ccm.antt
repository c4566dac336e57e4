-- ===== src/Ccm.antt =====
-- ccm.c: CCM mode over a block cipher. The cipher with its key, `rijndael_encrypt(ctx, in, out)`, is
-- the parameter `aes`. A function that writes to a buffer returns it; the message is changed in place
-- by the code, and is here the bytes that the code leaves there.
pub mod Message
pub mod MacLength
pub mod RoundTrip
mod Tests
use tinydtls.Base.{
  Option, [], drop, length, min, none, not, some, take, ◌<◌, Bytes, bit_or, if◌then◌else◌, leb, ltb,
  replicate, shl, shr, suc, u8, zero, ℕ, ◌%◌, ◌*◌, ◌++◌, ◌+◌, ◌-◌, ◌/◌, ◌==◌, ◌^◌, ◌||◌,
}
use tinydtls.Global.{memxor, equals, memcpy, memset, put}
use tinydtls.Numeric.{byte_at, int_to_uint16, int_to_uint32, int_to_uint64}

abbrev pub dtls_ccm_blocksize : ℕ
dtls_ccm_blocksize = 16

-- CCM_FLAGS(A,M,L), as the store into a byte cuts it; the callers pass M = 8 and L = 3.
pub ccm_flags : ℕ → ℕ → ℕ → ℕ
ccm_flags la m l =
    u8 (bit_or (bit_or (shl (if ltb 0 la then 1 else 0) 6) (shl ((m - 2) / 2) 3)) (l - 1))

-- for (i = 0; i < L; i++) { result[15-i] = lm & 0xff; lm >>= 8; }, with `left` rounds to go
pub length_loop : ℕ → ℕ → ℕ → Bytes → Bytes
length_loop zero i lm result = result
length_loop (suc left) i lm result =
    length_loop left (i + 1) (shr lm 8) (put result (15 - i) (u8 lm))

-- Every byte of `result` is written, so what it held before does not matter.
pub block0 : ℕ → ℕ → ℕ → ℕ → Bytes → Bytes
unfolding ccm_flags length_loop
block0 m l la lm nonce =
    length_loop l 0 lm
      (memcpy (put (replicate 16 0) 0 (ccm_flags la m l)) 1 nonce (dtls_ccm_blocksize - l))

-- SET_COUNTER: for (i = 15; C && (i > L); --i, C >>= 8) A[i] |= C & 0xFF;
pub counter_loop : ℕ → ℕ → Bytes → ℕ → Bytes
counter_loop l zero a c = a
counter_loop l (suc i) a c =
    let rest = counter_loop l i (put a (suc i) (bit_or (byte_at a (suc i)) (u8 c))) (shr c 8) in
    if c == 0 || leb (suc i) l then a else rest

pub set_counter : Bytes → ℕ → ℕ → Bytes
unfolding counter_loop
set_counter a l cnt = counter_loop l 15 (memset a (dtls_ccm_blocksize - l) 0 l) (cnt % 2 ^ (8 * l))

-- The tail of add_auth_data that encodes the length; the number of bytes, and the bytes.
pub auth_length : ℕ → ℕ × Bytes
auth_length la =
    if ltb la 0xFF00
    then (2, int_to_uint16 la)
    else if leb la 0xFFFFFFFF
    then (6, int_to_uint16 0xFFFE ++ int_to_uint32 la)
    else (10, int_to_uint16 0xFFFF ++ int_to_uint64 la)

-- The blocks that the functions of ccm.c share: the template of the counter, the input of the
-- CBC-MAC, and its last output.
pub record Blocks : Type 0 where
  pub a : Bytes
  pub b : Bytes
  pub x : Bytes

module _ (aes : Bytes → Bytes) where
  -- for (i = 0; i < len; ++i) B[i] = X[i] ^ msg[i]; X = aes(B);
  pub mac : Bytes → ℕ → Blocks → Blocks
  mac msg len s =
      let b = memxor (take len s.x) msg len ++ drop len s.b in record s { b = b; x = aes b }

  -- The message after encrypt(ctx, L, counter, msg, len, A, S): msg ^= aes(counter block).
  pub encrypt : ℕ → ℕ → Bytes → ℕ → Blocks → Bytes × Blocks
  unfolding set_counter
  encrypt l counter msg len s =
      let a = set_counter s.a l counter in (memxor msg (aes a) len, record s { a = a })

  -- while (la > 16) { B = X ^ msg; msg += 16; la -= 16; X = aes(B) } and the padded block after it;
  -- `fuel` bounds the rounds by the bytes to go.
  pub auth_loop : ℕ → Bytes → Blocks → Blocks
  unfolding mac
  auth_loop zero msg s = s
  auth_loop (suc fuel) msg s =
      let whole = auth_loop fuel (drop 16 msg) (mac msg 16 s) in
      let last = memxor (memcpy (replicate 16 0) 0 msg (length msg)) s.x 16 in
      if ltb 16 (length msg)
      then whole
      else if length msg == 0
      then s
      else record s { b = last; x = aes last }

  -- add_auth_data: X and B after the additional data `aad`.
  pub add_auth_data : Bytes → Blocks → Blocks
  unfolding auth_length
  add_auth_data aad s =
      let x = aes s.b in
      let zeros = replicate 16 0 in
      let la = length aad in
      let (j, len_bytes) = auth_length la in
      let i = min (dtls_ccm_blocksize - j) la in
      let b = memxor (memcpy (memcpy zeros 0 len_bytes j) j aad i) x 16 in
      if la == 0
      then record s { b = zeros; x = x }
      else auth_loop (suc la) (drop i aad) (record s { b = b; x = aes b })

  -- The first lines of both message functions, down to the nonce in the counter template. The
  -- buffers are on the stack; what they hold before is not read.
  pub start : ℕ → ℕ → Bytes → ℕ → Bytes → Blocks
  unfolding block0 add_auth_data
  start m l nonce lm aad =
      let zeros = replicate 16 0 in
      let s =
        add_auth_data aad (record { a = zeros; b = block0 m l (length aad) lm nonce; x = zeros }) in
      record s { a = memcpy (put zeros 0 (l - 1)) 1 nonce (dtls_ccm_blocksize - l) }

  -- One block or the rest of a message: MAC, then encryption. Where len < 16 the rest of B is that
  -- of X, as memcpy(B + lm, X + lm, 16 - lm) leaves it.
  pub encrypt_block : ℕ → ℕ → Bytes → ℕ → Blocks → Bytes × Blocks
  unfolding mac encrypt
  encrypt_block l counter msg len s =
      encrypt l counter msg len (mac msg len (record s { b = take len s.b ++ drop len s.x }))

  pub decrypt_block : ℕ → ℕ → Bytes → ℕ → Blocks → Bytes × Blocks
  unfolding mac encrypt
  decrypt_block l counter msg len s =
      let (plain, s') = encrypt l counter msg len s in
      (plain, mac plain len (record s' { b = take len s'.b ++ drop len s'.x }))

  -- The loop over the blocks of a message and the partial block after it, for a step that is
  -- `encrypt_block` or `decrypt_block`: the bytes that replace the message, and the blocks.
  pub message_loop :
      (ℕ → Bytes → ℕ → Blocks → Bytes × Blocks) → ℕ → ℕ → Bytes → Blocks → Bytes × Blocks
  message_loop step zero counter msg s = ([], s)
  message_loop step (suc fuel) counter msg s =
      let (out, s') = step counter (take 16 msg) 16 s in
      let (rest, s'') = message_loop step fuel (counter + 1) (drop 16 msg) s' in
      if leb 16 (length msg)
      then (out ++ rest, s'')
      else if length msg == 0
      then ([], s)
      else step counter msg (length msg) s

  -- S_0 = aes(A_0)
  pub last_mask : ℕ → Blocks → Bytes
  unfolding set_counter
  last_mask l s = aes (set_counter s.a l 0)

  -- The message followed by its MAC; the code returns their length.
  pub dtls_ccm_encrypt_message : ℕ → ℕ → Bytes → Bytes → Bytes → Bytes
  unfolding start encrypt_block message_loop last_mask
  dtls_ccm_encrypt_message m l nonce msg aad =
      let s = start m l nonce (length msg) aad in
      let (out, s') = message_loop (encrypt_block l) (suc (length msg)) 1 msg s in
      out ++ memxor (take m s'.x) (last_mask l s') m

  -- `none` is the return of -1; else the message, whose length is returned.
  pub dtls_ccm_decrypt_message : ℕ → ℕ → Bytes → Bytes → Bytes → Option Bytes
  unfolding start decrypt_block message_loop last_mask
  dtls_ccm_decrypt_message m l nonce msg aad =
      let lm = length msg - m in
      let s = start m l nonce lm aad in
      let (out, s') = message_loop (decrypt_block l) (suc lm) 1 (take lm msg) s in
      let tag = memxor (drop lm msg) (last_mask l s') m in
      if ltb (length msg) m then none else if equals s'.x tag m == 1 then some out else none
