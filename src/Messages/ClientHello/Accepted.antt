-- ===== src/Messages/ClientHello/Accepted.antt =====
-- A ClientHello that dtls_send_client_hello builds is taken by dtls_update_parameters, and its cookie is
-- found by dtls_get_cookie.
use tinydtls.Base.{
  inr, ◌/◌, length-take, inl, Bool-cases, take, take-append_length, leb, ◌≤◌, u8, ◌<◌, refl,
  drop-append_length, drop-drop, drop, List, sym, ap, length-append, ◌+◌, ◌∙◌, ltb, false, ◌==◌,
  arith, ◌-◌, suc, ◌++◌, length, ◌||◌, ◌∷◌, ◌*◌, true, some, ◌≡◌, ℕ, Option, Bytes,
}
use tinydtls.Retransmit.{clock_second}
use tinydtls.Numeric.{int_to_uint32, int_to_uint8, uint16_to_int, int_to_uint16}
use tinydtls.ServerHello.{server_random}
use tinydtls.Messages.ClientHello.Size.{length-client_hello_body, length-client_extensions}
use tinydtls.Messages.ClientHello.{
  hello_handshake, in_buffer, client_hello_body, with_client_random, client_hello_rest,
  client_hello, suite_bytes, client_extensions, offered,
}
use tinydtls.Cookie.{dtls_get_cookie, skip_var_field}
use tinydtls.Header.{dtls_version, Security}
use native.Mathlib.Numerals.{add-one}
use tinydtls.Messages.ClientHello.RoundTrip.{
  words-suite_bytes, double_lem, extensions_ok, length-suite_bytes, offered_words,
}
use tinydtls.ClientHello.Ciphers.{cipher_loop_lem, first_known}
use tinydtls.Numeric.RoundTrip.{uint16_to_int-int_to_uint16}
use tinydtls.Cipher.{
  is_ma_supported, is_ecdsa_supported, is_tls_ma_ecdsa_with_aes_256_cbc_sha,
  is_tls_ma_ecdsa_with_aes_128_cbc_sha, is_tls_ecdhe_ecdsa_with_aes_128_ccm_8, is_ecdsa_cipher,
  Context,
}
use tinydtls.Alert.{ok}
use tinydtls.Peer.{Handshake, State}
use tinydtls.ClientHello.{
  cipher_loop, compression_loop, read_compression, read_ciphers, dtls_update_parameters,
}

-- A server chooses a suite with a curve only from a client that supports one.
needs_curve :
    (ctx_c ctx_s : Context) (cipher : ℕ)
    → first_known ctx_s (offered ctx_c) ≡ some cipher
    → is_ecdsa_cipher ctx_s cipher ≡ true
    → (is_ecdsa_supported ctx_c true || is_ma_supported ctx_c true) ≡ true
unfolding offered is_ecdsa_cipher is_tls_ecdhe_ecdsa_with_aes_128_ccm_8
    is_tls_ma_ecdsa_with_aes_128_cbc_sha is_tls_ma_ecdsa_with_aes_256_cbc_sha
needs_curve ctx_c ctx_s cipher chosen curve = ground arith

module _ (ctx_c ctx_s : Context) (state : State) (security : Option Security) (cipher : ℕ)
    (chosen : first_known ctx_s (offered ctx_c) ≡ some cipher) where
  -- From the compression methods on.
  read_compression_lem :
      (h : Handshake)
      → let ext = client_extensions ctx_c in
        read_compression ctx_s state security
          (record h { hs_cipher = cipher })
          (1 ∷ 0 ∷ ext)
          (suc (suc (length ext)))
        ≡ (ok 0, record h { hs_cipher = cipher; hs_compression = 0 })
  unfolding read_compression compression_loop
  read_compression_lem h =
      let ext = client_extensions ctx_c in
      let left : suc (suc (length ext)) - 1 - 1 ≡ length ext = omega arith in
      let some_left : (suc (suc (length ext)) == 0) ≡ false = ground arith in
      let enough : ltb (suc (suc (length ext))) 2 ≡ false = ground arith in
      rw
        (
          some_left,
          enough,
          left,
          extensions_ok ctx_c ctx_s cipher state (needs_curve ctx_c ctx_s cipher chosen),
        )
        refl

  -- The cipher suites and what follows.
  abbrev list_part : Bytes
  list_part =
      int_to_uint16 (2 * length (offered ctx_c))
      ++ (suite_bytes (offered ctx_c) ++ (1 ∷ 0 ∷ client_extensions ctx_c))

  read_ciphers_lem :
      (h : Handshake)
      → read_ciphers ctx_s state security h list_part
        ≡ some (ok 0, record h { hs_cipher = cipher; hs_compression = 0 })
  unfolding read_ciphers int_to_uint16
  read_ciphers_lem h =
      let ext = client_extensions ctx_c in
      let cs = offered ctx_c in
      let k = length cs in
      let rest = suite_bytes cs ++ (1 ∷ 0 ∷ ext) in
      let few = offered_words ctx_c in
      let size = length-suite_bytes cs in
      let code : uint16_to_int list_part ≡ 2 * k =
        uint16_to_int-int_to_uint16 (2 * k) rest ∙ omega (arith, few.1) in
      let total : length rest ≡ 2 * k + suc (suc (length ext)) =
        omega (arith, length-append (suite_bytes cs) (1 ∷ 0 ∷ ext), size) in
      let inside : ltb (length list_part) (2 * k + 2) ≡ false = ground (arith, total) in
      let found : cipher_loop ctx_s (2 * k) rest ≡ some (some cipher) =
        ap (λ (n : ℕ). cipher_loop ctx_s n rest) (sym (double_lem k))
        ∙ cipher_loop_lem ctx_s k rest (omega (arith, total, double_lem k))
        ∙ ap (λ (l : List ℕ). some (first_known ctx_s l)) (words-suite_bytes cs (1 ∷ 0 ∷ ext) few.0)
        ∙ ap some chosen in
      let behind : drop (2 + 2 * k) list_part ≡ 1 ∷ 0 ∷ ext =
        sym (drop-drop (2 * k) 2 list_part)
        ∙ drop-append_length (2 * k) (suite_bytes cs) (1 ∷ 0 ∷ ext) size in
      let left : length list_part - 2 - 2 * k ≡ suc (suc (length ext)) = omega (arith, total) in
      rw (code, inside, found, code, behind, left) (ap some (read_compression_lem h))

-- The session id of a ClientHello is empty.
skip_empty : (rest : Bytes) → skip_var_field (int_to_uint8 0 ++ rest) ≡ some rest
unfolding skip_var_field int_to_uint8
skip_empty rest = let there : ltb (length (0 ∷ rest)) 1 ≡ false = ground arith in rw there refl

-- A field with its length in front is skipped.
skip_field :
    (field rest : Bytes)
    → length field < 256
    → skip_var_field (int_to_uint8 (length field) ++ (field ++ rest)) ≡ some rest
unfolding skip_var_field int_to_uint8
skip_field field rest h =
    let n = u8 (length field) in
    let byte : u8 n ≡ length field = omega (arith, h) in
    let there : ltb (length (n ∷ (field ++ rest))) (length field + 1) ≡ false =
      ground (arith, length-append field rest) in
    let behind : drop (length field + 1) (n ∷ (field ++ rest)) ≡ rest =
      rw add-one (drop-append_length (length field) field rest refl) in
    rw (byte, there, behind) refl

module _ (header random : Bytes) (whole : length header ≡ 12) (full : length random ≡ 32) where
  abbrev pub hello : Bytes → Bytes
  hello rest = header ++ (int_to_uint16 dtls_version ++ (random ++ rest))

  behind_version : (rest : Bytes) → drop 14 (hello rest) ≡ random ++ rest
  unfolding int_to_uint16
  behind_version rest =
      sym (drop-drop 2 12 (hello rest))
      ∙ ap (λ (d : Bytes). drop 2 d)
          (drop-append_length 12 header (int_to_uint16 dtls_version ++ (random ++ rest)) whole)

  behind_random : (rest : Bytes) → drop 46 (hello rest) ≡ rest
  behind_random rest =
      sym (drop-drop 32 14 (hello rest))
      ∙ ap (λ (d : Bytes). drop 32 d) (behind_version rest)
      ∙ drop-append_length 32 random rest full

  -- The cookie is found behind the empty session id.
  pub get_cookie_lem :
      (cookie after : Bytes)
      → length cookie ≤ 32
      → dtls_get_cookie
          (hello (int_to_uint8 0 ++ (int_to_uint8 (length cookie) ++ (cookie ++ after))))
        ≡ ok cookie
  unfolding dtls_get_cookie int_to_uint8 int_to_uint16
  get_cookie_lem cookie after short =
      let field = int_to_uint8 (length cookie) ++ (cookie ++ after) in
      let rest = int_to_uint8 0 ++ field in
      let n = u8 (length cookie) in
      let byte : u8 n ≡ length cookie = omega (arith, short) in
      let size : length (hello rest) ≡ 48 + length cookie + length after = omega (
        arith,
        whole,
        full,
        length-append header (int_to_uint16 dtls_version ++ (random ++ rest)),
        length-append (int_to_uint16 dtls_version) (random ++ rest),
        length-append random rest,
        length-append cookie after,
      ) in
      let long : leb 47 (length (hello rest)) ≡ true = ground (arith, size) in
      let version : uint16_to_int (drop 12 (hello rest)) ≡ dtls_version =
        ap uint16_to_int
          (drop-append_length 12 header (int_to_uint16 dtls_version ++ (random ++ rest)) whole)
        ∙ uint16_to_int-int_to_uint16 dtls_version (random ++ rest) in
      let there : ltb (length field) (length cookie + 1) ≡ false =
        ground (arith, length-append cookie after) in
      rw (long, version, behind_random rest, skip_empty field, byte, there)
        (ap ok (take-append_length (length cookie) cookie after refl))

  -- The server reads the random and the suites.
  update_parameters_lem :
      (ctx_c ctx_s : Context) (state : State) (security : Option Security) (h : Handshake)
      (cipher : ℕ) (cookie : Bytes)
      → first_known ctx_s (offered ctx_c) ≡ some cipher
      → length cookie ≤ 32
      → dtls_update_parameters ctx_s state security h (hello (client_hello_rest ctx_c cookie))
        ≡ some (
          ok 0,
          record h { tmp = random ++ drop 32 h.tmp; hs_cipher = cipher; hs_compression = 0 },
        )
  unfolding dtls_update_parameters client_hello_rest int_to_uint8
  update_parameters_lem ctx_c ctx_s state security h cipher cookie chosen short =
      let part = list_part ctx_c ctx_s state security cipher chosen in
      let field = int_to_uint8 (length cookie) ++ (cookie ++ part) in
      let rest = int_to_uint8 0 ++ field in
      let behind : drop 32 (random ++ rest) ≡ rest = drop-append_length 32 random rest full in
      let taken : take 32 (random ++ rest) ≡ random = take-append_length 32 random rest full in
      let skipped = skip_field cookie part (omega (arith, short)) in
      rw
        (
          dtls_update_parameters,
          behind_version rest,
          behind,
          skip_empty field,
          skipped,
          behind_version rest,
          taken,
        )
        (read_ciphers_lem ctx_c ctx_s state security cipher chosen
          (record h { tmp = random ++ drop 32 h.tmp }))

-- The random of a ClientHello has 32 bytes.
length-client_random :
    (h : Handshake) (now : ℕ) (prng cookie : Bytes)
    → length h.tmp ≡ 64
    → length prng ≡ 28
    → length (take 32 (hello_handshake h now prng cookie).tmp) ≡ 32
unfolding hello_handshake with_client_random server_random int_to_uint32
length-client_random h now prng cookie full given = elim (Bool-cases (length cookie == 0)) [
  | inl first ↦ rw first (
      omega (
        arith,
        length-take 32 (int_to_uint32 (now / clock_second) ++ prng ++ drop 32 h.tmp),
        length-append prng (drop 32 h.tmp),
        given,
      ))
  | inr again ↦ rw again (omega (arith, length-take 32 h.tmp, full))
]

-- A ClientHello that dtls_send_client_hello builds is taken by dtls_update_parameters, where the server
-- knows a suite that the client offers: it takes the first such suite, the null compression and the random of
-- the client. dtls_get_cookie finds the cookie of the message. The cookie has 32 bytes at most and
-- takes, with two bytes for each suite that is offered, 37 at most (the array takes no more); the
-- random source gives 28 bytes, the union of the randoms has 64 and the header 12.
pub dtls_update_parameters-client_hello :
    (ctx_c ctx_s : Context) (state : State) (security : Option Security) (hc hs : Handshake)
    (now : ℕ) (prng cookie header : Bytes) (cipher : ℕ)
    → length header ≡ 12
    → length hc.tmp ≡ 64
    → length prng ≡ 28
    → length cookie ≤ 32
    → length cookie + 2 * length (offered ctx_c) ≤ 37
    → first_known ctx_s (offered ctx_c) ≡ some cipher
    → let hc' = hello_handshake hc now prng cookie in
      let random = take 32 hc'.tmp in
      let body = int_to_uint16 dtls_version ++ (random ++ client_hello_rest ctx_c cookie) in
      (client_hello ctx_c hc now prng cookie ≡ some (ok body, hc'))
      × (dtls_get_cookie (header ++ body) ≡ ok cookie)
      × (dtls_update_parameters ctx_s state security hs (header ++ body)
          ≡ some (
            ok 0,
            record hs { tmp = random ++ drop 32 hs.tmp; hs_cipher = cipher; hs_compression = 0 },
          ))
unfolding client_hello in_buffer client_hello_body client_hello_rest int_to_uint8
dtls_update_parameters-client_hello ctx_c ctx_s state security hc hs now prng cookie header cipher
      whole union given short room chosen =
    let fits : ltb 32 (length cookie) ≡ false = ground (arith, short) in
    let hc' = hello_handshake hc now prng cookie in
    let random = take 32 hc'.tmp in
    let full = length-client_random hc now prng cookie union given in
    let size = length-client_hello_body ctx_c hc' cookie full in
    let few = length-client_extensions ctx_c in
    let inside : ltb 113 (length (client_hello_body ctx_c hc' cookie)) ≡ false =
      ground (arith, size, few, room) in
    (
      rw (fits, inside) refl,
      get_cookie_lem header random whole full cookie
          (list_part ctx_c ctx_s state security cipher chosen) short,
      update_parameters_lem header random whole full ctx_c ctx_s state security hs cipher cookie
          chosen short,
    )
