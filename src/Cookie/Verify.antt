-- ===== src/Cookie/Verify.antt =====
-- The cookie exchange.
use tinydtls.Peer.{bytes_eq}
use tinydtls.Alert.{protocol_version, fail, ok, alert_fatal_create}
use tinydtls.Header.{fragment_length, dtls_version, dtls_hs_length}
use tinydtls.Numeric.{int_to_uint8, int_to_uint16, uint16_to_int}
use tinydtls.Base.{
  true, Bool-cases, inl, inr, ◌⊎◌, some, ltb, ◌-◌, refl, [], append-nil, false, ◌==◌, ◌∙◌, ◌∷◌,
  Bytes, arith, drop, length, take, ◌&&◌, ◌++◌, ◌+◌, ◌≡◌, ◌≤◌,
}
use tinydtls.Hmac.Laws.{hmac, finalize-update-init}
use tinydtls.Hmac.{init, update, finalize}
use tinydtls.Peer.Equality.{bytes_eq_sound, bytes_eq_refl}
use tinydtls.Cookie.{
  verdict_for, send_hello_verify, accept, dtls_get_cookie, cookie_start, cookie_end, cookie_rest,
  dtls_create_cookie, dtls_verify_peer,
}

-- A ClientHello whose session id and cookie end within the message and within the length that its
-- header gives, and that is not longer than the message: dtls_create_cookie reads nothing else.
pub record IsWhole (msg : Bytes) : Type 0 where
  pub start_fits : cookie_start msg + 12 ≤ length msg
  pub end_fits : cookie_end msg + 12 ≤ length msg
  pub covers : cookie_end msg ≤ fragment_length msg
  pub fits : 12 + fragment_length msg ≤ length msg

cookie_rest-IsWhole :
    (msg : Bytes)
    → IsWhole msg
    → cookie_rest msg
      ≡ some (take (fragment_length msg - cookie_end msg) (drop (12 + cookie_end msg) msg))
unfolding cookie_rest
cookie_rest-IsWhole msg w =
    let a : ltb (fragment_length msg) (cookie_end msg) ≡ false = ground (arith, w.covers) in
    let b : ltb (length msg) (12 + fragment_length msg) ≡ false = ground (arith, w.fits) in
    rw (a, b) refl

module _ (hash : Bytes → Bytes) (secret addr msg : Bytes) where
  -- What the cookie covers: the address and the ClientHello without its cookie.
  abbrev pub covered : Bytes
  covered =
      addr
      ++ (take (cookie_start msg) (drop dtls_hs_length msg)
          ++ take (fragment_length msg - cookie_end msg) (drop (12 + cookie_end msg) msg))

  -- The cookie: the first 16 bytes of the HMAC under the secret.
  abbrev pub wanted_cookie : Bytes
  wanted_cookie = take 16 (hmac hash secret covered)

  finalize-covered :
      finalize hash (
        update
          (update
            (update (init hash secret) addr)
            (take (cookie_start msg) (drop dtls_hs_length msg)))
          (take (fragment_length msg - cookie_end msg) (drop (12 + cookie_end msg) msg)))
      ≡ hmac hash secret covered
  finalize-covered =
      finalize-update-init hash secret (
        addr
        ∷ take (cookie_start msg) (drop dtls_hs_length msg)
        ∷ take (fragment_length msg - cookie_end msg) (drop (12 + cookie_end msg) msg)
        ∷ [])
      ∙ rw append-nil

  -- The cookie that is made is the start of the HMAC of the address and of the ClientHello without
  -- its cookie, under the secret.
  pub dtls_create_cookie_lem :
      IsWhole msg → dtls_create_cookie hash secret addr msg ≡ some (ok wanted_cookie)
  unfolding dtls_create_cookie
  dtls_create_cookie_lem w =
      let a : ltb (length msg) (cookie_start msg + 12) ≡ false = ground (arith, w.start_fits) in
      let b : ltb (length msg) (cookie_end msg + 12) ≡ false = ground (arith, w.end_fits) in
      rw (dtls_create_cookie, a, b, cookie_rest-IsWhole msg w, finalize-covered) refl

  -- A ClientHello that is whole, and in which dtls_get_cookie reads a cookie, is either accepted, and
  -- the cookie is then the one of 16 bytes that belongs to it: the start of the HMAC under the
  -- secret of the address and of the ClientHello without its cookie. Or that is not its cookie, and
  -- a HelloVerifyRequest is sent with version 254.253, the length 16 and the cookie that belongs to it.
  pub dtls_verify_peer_lem :
      {cookie : Bytes}
      → IsWhole msg
      → dtls_get_cookie msg ≡ ok cookie
      → ((dtls_verify_peer hash secret addr msg ≡ some (ok accept))
          × (length cookie ≡ 16)
          × (cookie ≡ wanted_cookie))
        ⊎ ((dtls_verify_peer hash secret addr msg
              ≡ some (ok (send_hello_verify (254 ∷ 253 ∷ 16 ∷ wanted_cookie))))
            × ¬ ((length cookie ≡ 16) × (cookie ≡ wanted_cookie)))
  unfolding dtls_verify_peer verdict_for int_to_uint16 int_to_uint8
  dtls_verify_peer_lem {cookie = cookie} w got =
      let made = dtls_create_cookie_lem w in
      elim (Bool-cases ((length cookie == 16) && bytes_eq cookie wanted_cookie)) [
        | inl e ↦ inl (
          rw (dtls_verify_peer, made, got, e) refl,
          ground (arith, e),
          bytes_eq_sound cookie wanted_cookie (ground (arith, e)),
        )
        | inr e ↦ inr (
          rw (dtls_verify_peer, made, got, e) refl,
          λ (n, same).
              let equal : bytes_eq cookie wanted_cookie ≡ true =
                rw (← same) (bytes_eq_refl cookie) in
              let both : ((length cookie == 16) && bytes_eq cookie wanted_cookie) ≡ true =
                ground (arith, n, equal) in
              absurd (cc (both, e)),
        )
      ]

  get_cookie-other_version :
      (uint16_to_int (drop dtls_hs_length msg) == dtls_version) ≡ false
      → cookie_start msg + 12 ≤ length msg
      → dtls_get_cookie msg ≡ fail (alert_fatal_create protocol_version)
  unfolding dtls_get_cookie cookie_start
  get_cookie-other_version version start_fits = ground arith

  -- A whole ClientHello of another version than DTLS 1.2 is accepted, whatever its cookie is.
  pub dtls_verify_peer-other_version :
      (uint16_to_int (drop dtls_hs_length msg) == dtls_version) ≡ false
      → IsWhole msg
      → dtls_verify_peer hash secret addr msg ≡ some (ok accept)
  unfolding dtls_verify_peer verdict_for
  dtls_verify_peer-other_version version w =
      rw (dtls_verify_peer, dtls_create_cookie_lem w, get_cookie-other_version version w.start_fits)
        refl
