-- ===== src/ServerHello/RoundTrip.antt =====
-- A ServerHello that dtls_send_server_hello builds is taken by check_server_hello.
use tinydtls.ServerHello.{
  read_random, server_random, server_hello, check_server_hello, chosen_suite, read_suite,
  server_extensions,
}
use tinydtls.Base.{
  drop-append_length, length-append, take-append_length, drop, ltb, take, ◌-◌, Bool, ap,
  append_assoc, arith, some, ◌&&◌, ◌++◌, ◌<◌, ◌==◌, ◌^◌, Bytes, [], true, ◌∙◌, ◌∷◌, Bool-cases,
  false, inl, inr, length, refl, ℕ, ◌≡◌,
}
use tinydtls.Numeric.{int_to_uint32, int_to_uint8, int_to_uint16, uint16_to_int}
use tinydtls.Cookie.{skip_var_field}
use tinydtls.Header.{dtls_version}
use tinydtls.Peer.{Handshake, State}
use tinydtls.Record.{tls_null_with_null_null}
use tinydtls.Cipher.{is_psk_supported, is_ecdsa_supported, known_cipher, Context, is_ecdsa_cipher}
use tinydtls.Numeric.RoundTrip.{uint16_to_int-int_to_uint16}
use tinydtls.Handshake.Connected.{null_cipher}
use tinydtls.Extension.{
  byte_loop, verify_byte_list, cert_type_ok, one_extension, extension_loop, complete,
  dtls_check_tls_extension,
}
use tinydtls.Alert.{ok}

-- The extensions as they stand in the message.
abbrev ecdsa_extensions : Bytes
ecdsa_extensions = 0 ∷ 16 ∷ 0 ∷ 19 ∷ 0 ∷ 1 ∷ 2 ∷ 0 ∷ 20 ∷ 0 ∷ 1 ∷ 2 ∷ 0 ∷ 11 ∷ 0 ∷ 2 ∷ 1 ∷ 0 ∷ []

extensions_ecdsa :
    (ctx : Context) (cipher : ℕ)
    → is_ecdsa_cipher ctx cipher ≡ true
    → server_extensions ctx cipher ≡ ecdsa_extensions
unfolding server_extensions int_to_uint16 int_to_uint8
extensions_ecdsa ctx cipher e = rw e refl

extensions_none :
    (ctx : Context) (cipher : ℕ)
    → is_ecdsa_cipher ctx cipher ≡ false
    → server_extensions ctx cipher ≡ []
unfolding server_extensions
extensions_none ctx cipher e = rw e refl

module _ (ctx : Context) (cipher : ℕ) (state : State) where
  check_ecdsa :
      is_ecdsa_cipher ctx cipher ≡ true
      → dtls_check_tls_extension ctx cipher state ecdsa_extensions 18 false ≡ ok 0
  unfolding dtls_check_tls_extension extension_loop one_extension cert_type_ok complete
      verify_byte_list byte_loop uint16_to_int
  check_ecdsa e = rw e refl

  check_none :
      is_ecdsa_cipher ctx cipher ≡ false
      → dtls_check_tls_extension ctx cipher state [] 0 false ≡ ok 0
  unfolding dtls_check_tls_extension
  check_none e = rw e refl

-- The extensions that a server adds are those that the client looks for.
extensions_ok :
    (ctx_s ctx_c : Context) (cipher : ℕ) (state : State)
    → is_ecdsa_cipher ctx_s cipher ≡ is_ecdsa_cipher ctx_c cipher
    → let d = server_extensions ctx_s cipher in
      dtls_check_tls_extension ctx_c cipher state d (length d) false ≡ ok 0
extensions_ok ctx_s ctx_c cipher state agree = elim (Bool-cases (is_ecdsa_cipher ctx_c cipher)) [
  | inl e ↦ rw (extensions_ecdsa ctx_s cipher (agree ∙ e)) (check_ecdsa ctx_c cipher state e)
  | inr e ↦ rw (extensions_none ctx_s cipher (agree ∙ e)) (check_none ctx_c cipher state e)
]

and_false : (b : Bool) → (b && false) ≡ false
and_false true = refl
and_false false = refl

known_cipher_null : (ctx : Context) (is_client : Bool) → known_cipher ctx 0 is_client ≡ false
unfolding known_cipher
known_cipher_null ctx is_client =
    let no = null_cipher ctx in
    rw (no.0, no.1, and_false (is_psk_supported ctx), and_false (is_ecdsa_supported ctx is_client))
      refl

-- A cipher suite that is known is not the null suite.
known_cipher-not_null :
    (ctx : Context) (is_client : Bool) (c : ℕ)
    → known_cipher ctx c is_client ≡ true
    → (c == tls_null_with_null_null) ≡ false
known_cipher-not_null ctx is_client c known = elim (Bool-cases (c == tls_null_with_null_null)) [
  | inr e ↦ e
  | inl e ↦
      let zero_code : c ≡ 0 = ground (arith, e) in
      absurd (
        cc (
          ap (λ (x : ℕ). known_cipher ctx x is_client) zero_code,
          known_cipher_null ctx is_client,
          known,
        ))
]

-- A cipher suite that is known, the null method and extensions that are accepted.
read_suite_take :
    (ctx : Context) (state : State) (h : Handshake) (c a b : ℕ) (ext : Bytes)
    → uint16_to_int (a ∷ b ∷ 0 ∷ ext) ≡ c
    → known_cipher ctx c true ≡ true
    → dtls_check_tls_extension ctx c state ext (length ext) false ≡ ok 0
    → read_suite ctx state h (a ∷ b ∷ 0 ∷ ext) ≡ some (ok 0, record h { hs_cipher = c })
unfolding read_suite
read_suite_take ctx state h c a b ext code known accepted =
    let two : ltb (length (a ∷ b ∷ 0 ∷ ext)) 2 ≡ false = ground arith in
    let three : ltb (length (a ∷ b ∷ 0 ∷ ext)) 3 ≡ false = ground arith in
    let left : length (a ∷ b ∷ 0 ∷ ext) - 3 ≡ length ext = omega arith in
    rw (code, two, known, three, left, accepted) refl

module _ (ctx_s ctx_c : Context) (hs h : Handshake) (state : State)
    (known : known_cipher ctx_c hs.hs_cipher true ≡ true)
    (agree : is_ecdsa_cipher ctx_s hs.hs_cipher ≡ is_ecdsa_cipher ctx_c hs.hs_cipher)
    (wide : hs.hs_cipher < 2 ^ 16) (null_method : hs.hs_compression ≡ 0) where
  abbrev suite : Bytes
  suite = chosen_suite hs ++ server_extensions ctx_s hs.hs_cipher

  suite_lem : suite ≡ int_to_uint16 hs.hs_cipher ++ (0 ∷ server_extensions ctx_s hs.hs_cipher)
  unfolding chosen_suite int_to_uint8
  suite_lem =
      rw (known_cipher-not_null ctx_c true hs.hs_cipher known, null_method)
        (append_assoc (int_to_uint16 hs.hs_cipher) (0 ∷ []) (server_extensions ctx_s hs.hs_cipher))

  read_suite_lem :
      read_suite ctx_c state h suite ≡ some (ok 0, record h { hs_cipher = hs.hs_cipher })
  unfolding int_to_uint16
  read_suite_lem =
      let ext = server_extensions ctx_s hs.hs_cipher in
      ap (λ (d : Bytes). read_suite ctx_c state h d) suite_lem
      ∙ read_suite_take ctx_c state h hs.hs_cipher _ _ ext
          (uint16_to_int-int_to_uint16 hs.hs_cipher (0 ∷ ext) ∙ omega (arith, wide)) known
          (extensions_ok ctx_s ctx_c hs.hs_cipher state agree)

length-server_random :
    (now : ℕ) (prng : Bytes) → length prng ≡ 28 → length (server_random now prng) ≡ 32
unfolding server_random int_to_uint32
length-server_random now prng h = omega (arith, h)

skip_no_session : (rest : Bytes) → skip_var_field (0 ∷ rest) ≡ some rest
unfolding skip_var_field
skip_no_session rest = let there : ltb (length (0 ∷ rest)) 1 ≡ false = ground arith in rw there refl

body_long :
    (header random rest : Bytes)
    → length header ≡ 12
    → length random ≡ 32
    → ltb (length (header ++ (int_to_uint16 dtls_version ++ (random ++ rest)))) 24 ≡ false
body_long header random rest h r =
    let total = length-append header (int_to_uint16 dtls_version ++ (random ++ rest)) in
    let rest_total = length-append random rest in
    let version = length-append (int_to_uint16 dtls_version) (random ++ rest) in
    ground (arith, total, rest_total, version, h, r)

read_random-take :
    (ctx : Context) (state : State) (h : Handshake) (random rest : Bytes)
    → length random ≡ 32
    → read_random ctx state h (random ++ (0 ∷ rest))
      ≡ read_suite ctx state (record h { tmp = take 32 h.tmp ++ (random ++ drop 64 h.tmp) }) rest
unfolding read_random
read_random-take ctx state h random rest r =
    let enough : ltb (length (random ++ (0 ∷ rest))) 32 ≡ false =
      ground (arith, length-append random (0 ∷ rest), r) in
    let behind = drop-append_length 32 random (0 ∷ rest) r in
    rw (enough, behind, skip_no_session rest, take-append_length 32 random (0 ∷ rest) r) refl

-- The parts of a message that is long enough.
check_take :
    (ctx : Context) (state : State) (h : Handshake) (msg random rest : Bytes)
    → drop 12 msg ≡ int_to_uint16 dtls_version ++ (random ++ (int_to_uint8 0 ++ rest))
    → length random ≡ 32
    → ltb (length msg) 24 ≡ false
    → check_server_hello ctx state h msg
      ≡ read_suite ctx state
          (record h {
            hs_hash = h.hs_hash ++ msg;
            tmp = take 32 h.tmp ++ (random ++ drop 64 h.tmp);
          })
          rest
unfolding check_server_hello int_to_uint8 int_to_uint16
check_take ctx state h msg random rest begins r long =
    let version = uint16_to_int-int_to_uint16 dtls_version (random ++ (0 ∷ rest)) in
    let behind = drop-append_length 2 (int_to_uint16 dtls_version) (random ++ (0 ∷ rest)) refl in
    rw (long, begins, version, behind)
      (read_random-take ctx state (record h { hs_hash = h.hs_hash ++ msg }) random rest r)

-- A ServerHello message whose body dtls_send_server_hello has built is accepted by check_server_hello:
-- the client then has the cipher suite and the random of the server, and has hashed the message. The cipher suite is one
-- that the client knows, the method is null compression, the random source gives 28 bytes, the header has 12,
-- and the two builds take the same suites for ECDSA.
pub check_server_hello-server_hello :
    (ctx_s ctx_c : Context) (hs h : Handshake) (state : State) (now : ℕ) (prng header : Bytes)
    → length header ≡ 12
    → length prng ≡ 28
    → known_cipher ctx_c hs.hs_cipher true ≡ true
    → is_ecdsa_cipher ctx_s hs.hs_cipher ≡ is_ecdsa_cipher ctx_c hs.hs_cipher
    → hs.hs_cipher < 2 ^ 16
    → hs.hs_compression ≡ 0
    → let msg = header ++ (server_hello ctx_s hs now prng).0 in
      check_server_hello ctx_c state h msg
      ≡ some (
        ok 0,
        record h {
          hs_hash = h.hs_hash ++ msg;
          tmp = take 32 h.tmp ++ (server_random now prng ++ drop 64 h.tmp);
          hs_cipher = hs.hs_cipher;
        },
      )
unfolding check_server_hello server_hello
check_server_hello-server_hello ctx_s ctx_c hs h state now prng header whole random known agree wide
      null_method =
    let rest = suite ctx_s ctx_c hs h state known agree wide null_method in
    let random' = server_random now prng in
    let body = int_to_uint16 dtls_version ++ (random' ++ (int_to_uint8 0 ++ rest)) in
    let msg = header ++ body in
    let begins = drop-append_length 12 header body whole in
    check_take ctx_c state h msg random' rest begins (length-server_random now prng random) (
      body_long header random' (int_to_uint8 0 ++ rest) whole
        (length-server_random now prng random))
    ∙ read_suite_lem ctx_s ctx_c hs _ state known agree wide null_method
