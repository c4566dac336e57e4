-- ===== src/ClientHello.antt =====
-- dtls.c: dtls_update_parameters, which reads the cipher suites, the compression methods and the
-- extensions of a ClientHello. A pointer is the rest of the message from it on.
pub mod Ciphers
mod Tests
use tinydtls.Alert.{fail, ok, Result}
use tinydtls.Base.{
  Bool, Bytes, Option, drop, false, if◌then◌else◌, length, ltb, none, not, some, suc, take, true,
  zero, ℕ, ◌++◌, ◌+◌, ◌-◌, ◌==◌,
}
use tinydtls.Numeric.{byte_at, uint16_to_int}
use tinydtls.Cookie.{skip_var_field}
use tinydtls.Crypto.{dtls_random_length}
use tinydtls.Record.{tls_null_with_null_null}
use tinydtls.Cipher.{Context, known_cipher}
use tinydtls.Header.{dtls_hs_length, Security}
use tinydtls.Extension.{error_code, dtls_check_tls_extension}
use tinydtls.Peer.{State, Handshake}

-- The reads of the cipher loop once `i` has become negative: it goes on until it meets a cipher suite
-- that is known, or leaves the message (`none`). The fuel is the length of the message.
pub past_list : Context → ℕ → Bytes → Option (Option ℕ)
past_list ctx zero d = none
past_list ctx (suc fuel) d =
    let rest = past_list ctx fuel (drop 2 d) in
    let cipher = uint16_to_int d in
    if ltb (length d) 2
    then none
    else if known_cipher ctx cipher false
    then some (some cipher)
    else rest

-- while (i && !ok) { … i -= sizeof(uint16); data += sizeof(uint16); } over the list of `i` bytes: the
-- suite that is found, if any is. Where `i` is odd it skips 0, and the loop goes on behind the list.
pub cipher_loop : Context → ℕ → Bytes → Option (Option ℕ)
cipher_loop ctx zero d = some none
cipher_loop ctx (suc zero) d = past_list ctx (suc (length d)) d
cipher_loop ctx (suc (suc i)) d =
    let rest = cipher_loop ctx i (drop 2 d) in
    let cipher = uint16_to_int d in
    if ltb (length d) 2
    then none
    else if known_cipher ctx cipher false
    then some (some cipher)
    else rest

-- The loop over the compression methods: whether the null method is among `i`, and where `data` is.
unfoldable pub compression_loop : ℕ → Bytes → Bool × Bytes
compression_loop zero d = (false, d)
compression_loop (suc i) d =
    if byte_at d 0 == 0 then (true, drop 1 d) else compression_loop i (drop 1 d)

-- From the compression methods on, for the `n` bytes at `d`. The methods behind the null method stay
-- in front of the extensions, where `data` is, while data_length leaves them out.
unfoldable pub read_compression :
    Context → State → Option Security → Handshake → Bytes → ℕ → Result ℕ × Handshake
read_compression ctx state security h d n =
    let i = byte_at d 0 in
    let (found, rest) = compression_loop i (drop 1 d) in
    let current : ℕ = elim security [ none ↦ 0 | some s ↦ s.compression ] in
    if n == 0
    then (ok 0, record h { hs_compression = current })
    else if ltb n (i + 1)
    then (fail (error_code true state), h)
    else if not found
    then (fail (error_code true state), h)
    else (
      dtls_check_tls_extension ctx h.hs_cipher state rest (n - 1 - i) true,
      record h { hs_compression = 0 },
    )

-- From the cipher suites on. The cipher loop moves `data` by what it takes off `i`, and
-- `data += i` then sets it to the end of the list.
unfoldable pub read_ciphers :
    Context → State → Option Security → Handshake → Bytes → Option (Result ℕ × Handshake)
read_ciphers ctx state security h d =
    let i = uint16_to_int d in
    let error : Result ℕ × Handshake = (fail (error_code true state), h) in
    if ltb (length d) (i + 2)
    then some (elim security [
      | none ↦ error
      | some s ↦
          if s.cipher == tls_null_with_null_null
          then error
          else (ok 0, record h { hs_cipher = s.cipher; hs_compression = s.compression })
    ])
    else elim (cipher_loop ctx i (drop 2 d)) [
      | none ↦ none
      | some none ↦
          some (fail (error_code true state), record h { hs_cipher = tls_null_with_null_null })
      | some (some cipher) ↦ some (
          read_compression ctx state security (record h { hs_cipher = cipher }) (drop (2 + i) d)
            (length d - 2 - i))
    ]

-- dtls_update_parameters: the result and the handshake parameters; `none` where it reads behind the
-- end of the message. `security` is params[0] of the peer, and `state` its state.
unfoldable pub dtls_update_parameters :
    Context → State → Option Security → Handshake → Bytes → Option (Result ℕ × Handshake)
dtls_update_parameters ctx state security h msg =
    let random = drop (dtls_hs_length + 2) msg in
    let h' = record h { tmp = take dtls_random_length random ++ drop dtls_random_length h.tmp } in
    elim (skip_var_field (drop dtls_random_length random)) [
      | none ↦ some (fail (error_code true state), h')
      | some d ↦ elim (skip_var_field d) [
        | none ↦ some (fail (error_code true state), h')
        | some d ↦ read_ciphers ctx state security h' d
      ]
    ]
