-- ===== src/Cookie/Tests.antt =====
-- A ClientHello without a cookie, with a hash that pads.
use tinydtls.Header.{fragment_length, dtls_version, dtls_hs_length}
use tinydtls.Numeric.{uint24_to_int, uint16_to_int}
use tinydtls.Cookie.{
  send_hello_verify, accept, skip_var_field, dtls_get_cookie, cookie_start, cookie_end,
  dtls_verify_peer,
}
use tinydtls.Base.{
  some, ◌⊎◌, drop, false, ◌==◌, Bytes, [], arith, length, refl, replicate, take, ℕ, ◌++◌, ◌∷◌, ◌≡◌,
}
use tinydtls.Alert.{ok}
use tinydtls.Cookie.Verify.{
  IsWhole, wanted_cookie, dtls_verify_peer_lem, dtls_verify_peer-other_version,
}

abbrev pad_hash : Bytes → Bytes
pad_hash m = take 32 (m ++ replicate 32 0)

abbrev secret : Bytes
secret = replicate 12 7

abbrev address : Bytes
address = 127 ∷ 0 ∷ 0 ∷ 1 ∷ []

-- A message of 53 bytes with the second byte of its version.
abbrev hello : ℕ → Bytes
hello low =
    replicate 11 0 ++ 41 ∷ 254 ∷ low ∷ replicate 32 9 ++ 0 ∷ 0 ∷ 0 ∷ 2 ∷ 0xC0 ∷ 0xA8 ∷ 1 ∷ 0 ∷ []

abbrev current : Bytes
current = hello 253

abbrev old : Bytes
old = hello 255

current-IsWhole : IsWhole current
unfolding cookie_start cookie_end fragment_length uint24_to_int
current-IsWhole = record {
  start_fits = omega arith;
  end_fits = omega arith;
  covers = omega arith;
  fits = omega arith;
}

old-IsWhole : IsWhole old
unfolding cookie_start cookie_end fragment_length uint24_to_int
old-IsWhole = record {
  start_fits = omega arith;
  end_fits = omega arith;
  covers = omega arith;
  fits = omega arith;
}

abbrev no_bytes : Bytes
no_bytes = []

no_cookie : dtls_get_cookie current ≡ ok no_bytes
unfolding dtls_get_cookie skip_var_field uint16_to_int
no_cookie = refl

dtls_verify_peer_lem_example :
    ((dtls_verify_peer pad_hash secret address current ≡ some (ok accept))
      × (length no_bytes ≡ 16)
      × (no_bytes ≡ wanted_cookie pad_hash secret address current))
    ⊎ ((dtls_verify_peer pad_hash secret address current
          ≡ some (
              ok (
                send_hello_verify
                  (254 ∷ 253 ∷ 16 ∷ wanted_cookie pad_hash secret address current))))
        × ¬ ((length no_bytes ≡ 16) × (no_bytes ≡ wanted_cookie pad_hash secret address current)))
dtls_verify_peer_lem_example =
    dtls_verify_peer_lem pad_hash secret address current current-IsWhole no_cookie

is_old : (uint16_to_int (drop dtls_hs_length old) == dtls_version) ≡ false
unfolding uint16_to_int
is_old = refl

dtls_verify_peer-other_version_example :
    dtls_verify_peer pad_hash secret address old ≡ some (ok accept)
dtls_verify_peer-other_version_example =
    dtls_verify_peer-other_version pad_hash secret address old is_old old-IsWhole
