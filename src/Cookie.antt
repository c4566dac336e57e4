-- ===== src/Cookie.antt =====
-- dtls.c: the stateless cookie of a ClientHello, dtls_get_cookie, dtls_create_cookie and
-- dtls_verify_peer. The hash of the HMAC is the parameter `hash`.
pub mod Verify
mod Tests
use tinydtls.Alert.{
  fail, ok, ◌>>◌, ◌>>=◌, Result, guard, handshake_failure, protocol_version, alert_fatal_create,
}
use tinydtls.Hmac.{init, update, finalize}
use tinydtls.Base.{
  Bytes, Option, drop, if◌then◌else◌, leb, length, ltb, none, not, some, take, u8, ℕ, ◌&&◌, ◌++◌,
  ◌+◌, ◌-◌, ◌==◌,
}
use tinydtls.Numeric.{byte_at, int_to_uint8, int_to_uint16, uint16_to_int}
use tinydtls.Peer.{bytes_eq}
use tinydtls.Header.{dtls_version, dtls_hs_length, dtls_ch_length, fragment_length}

abbrev pub dtls_cookie_length : ℕ
dtls_cookie_length = 16

-- *p & 0xff at the start of the bytes that are left, which is dtls_uint8_to_int
abbrev pub first_byte : Bytes → ℕ
first_byte d = u8 (byte_at d 0)

-- SKIP_VAR_FIELD(P, L, uint8): `none` is the jump to `error`. P and L move together: L is the
-- number of bytes left at P.
unfoldable pub skip_var_field : Bytes → Option Bytes
skip_var_field d =
    if ltb (length d) (first_byte d + 1) then none else some (drop (first_byte d + 1) d)

-- dtls_get_cookie: the cookie, whose length is what the code returns.
unfoldable pub dtls_get_cookie : Bytes → Result Bytes
dtls_get_cookie msg = do
  guard (leb (dtls_hs_length + dtls_ch_length + 1) (length msg))
      (alert_fatal_create handshake_failure)
  guard (uint16_to_int (drop dtls_hs_length msg) == dtls_version)
      (alert_fatal_create protocol_version)
  elim (skip_var_field (drop (dtls_hs_length + dtls_ch_length) msg)) [
    | none ↦ fail (alert_fatal_create handshake_failure)
    | some rest ↦
        if ltb (length rest) (first_byte rest + 1)
        then fail (alert_fatal_create handshake_failure)
        else ok (take (first_byte rest) (drop 1 rest))
  ]

-- e after the session id: the end of what the cookie covers before the cookie itself, counted from
-- the end of the handshake header.
unfoldable pub cookie_start : Bytes → ℕ
cookie_start msg = dtls_ch_length + (first_byte (drop (dtls_hs_length + dtls_ch_length) msg) + 1)

-- e behind the cookie
unfoldable pub cookie_end : Bytes → ℕ
cookie_end msg = cookie_start msg + first_byte (drop (dtls_hs_length + cookie_start msg) msg) + 1

-- The last part that is hashed; its length is fragment_length less e. Where e is larger, the code's
-- subtraction in size_t wraps around, and where the fragment ends behind the message it reads on there:
-- `none`.
unfoldable pub cookie_rest : Bytes → Option Bytes
cookie_rest msg =
    if ltb (fragment_length msg) (cookie_end msg)
    then none
    else if ltb (length msg) (dtls_hs_length + fragment_length msg)
    then none
    else some
        (take (fragment_length msg - cookie_end msg) (drop (dtls_hs_length + cookie_end msg) msg))

-- What dtls_verify_peer does: it accepts the message (the result 0), or sends a HelloVerifyRequest
-- with this body, whose result is that of the sending.
pub data Verdict : Type 0 where
  accept : Verdict
  send_hello_verify : Bytes → Verdict

-- The end of dtls_verify_peer, for the cookie that was made. Where dtls_get_cookie fails, the code
-- returns `err`, which holds the result of dtls_create_cookie, and not `len`: that is 0.
unfoldable pub verdict_for : Bytes → Result Bytes → Verdict
verdict_for mycookie (fail n) = accept
verdict_for mycookie (ok cookie) =
    if (length cookie == dtls_cookie_length) && bytes_eq cookie mycookie
    then accept
    else send_hello_verify
        (int_to_uint16 dtls_version ++ (int_to_uint8 dtls_cookie_length ++ mycookie))

module _ (hash : Bytes → Bytes) where
  -- dtls_create_cookie with *clen = DTLS_COOKIE_LENGTH; `secret` is ctx->cookie_secret and `addr`
  -- the bytes of the session's address. Where the digest is shorter, the cookie is filled with zeros up to
  -- *clen and *clen set to the digest's length; the copy has that length. `none` where the code
  -- reads behind the message.
  unfoldable pub dtls_create_cookie : Bytes → Bytes → Bytes → Option (Result Bytes)
  dtls_create_cookie secret addr msg =
      let started =
        update (update (init hash secret) addr)
          (take (cookie_start msg) (drop dtls_hs_length msg)) in
      if ltb (length msg) (cookie_start msg + dtls_hs_length)
      then some (fail (alert_fatal_create handshake_failure))
      else if ltb (length msg) (cookie_end msg + dtls_hs_length)
      then some (fail (alert_fatal_create handshake_failure))
      else elim (cookie_rest msg) [
        | none ↦ none
        | some rest ↦ some (ok (take dtls_cookie_length (finalize hash (update started rest))))
      ]

  -- dtls_verify_peer
  unfoldable pub dtls_verify_peer : Bytes → Bytes → Bytes → Option (Result Verdict)
  dtls_verify_peer secret addr msg = elim (dtls_create_cookie secret addr msg) [
    | none ↦ none
    | some (fail n) ↦ some (fail n)
    | some (ok mycookie) ↦ some (ok (verdict_for mycookie (dtls_get_cookie msg)))
  ]
