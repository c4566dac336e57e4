-- ===== src/Messages/ClientHello/Size.antt =====
-- The size of the ClientHello that dtls_send_client_hello writes into its local array.
use tinydtls.Alert.{ok}
use tinydtls.Base.{
  some, inr, inl, Bool-cases, length-take, ltb, ◌==◌, [], ◌↔◌, none, ℕ, false, refl, ◌∷◌, Bytes,
  arith, length, length-append, take, true, ◌*◌, ◌+◌, ◌++◌, ◌≡◌, ◌≤◌,
}
use tinydtls.Messages.ClientHello.{
  hello_handshake, in_buffer, client_hello, client_extensions, client_hello_body, client_hello_rest,
  offered, suite_bytes,
}
use tinydtls.Cipher.{is_ecdsa_supported, Context, is_ma_supported}
use tinydtls.Numeric.{int_to_uint8, int_to_uint16}
use tinydtls.Peer.{Handshake}
use tinydtls.Messages.ClientHello.RoundTrip.{length-suite_bytes}

pub length-client_extensions : (ctx : Context) → length (client_extensions ctx) ≤ 36
unfolding client_extensions int_to_uint8 int_to_uint16
length-client_extensions ctx = ground arith

pub length-client_hello_body :
    (ctx : Context) (h : Handshake) (cookie : Bytes)
    → length (take 32 h.tmp) ≡ 32
    → length (client_hello_body ctx h cookie)
      ≡ 40 + length cookie + 2 * length (offered ctx) + length (client_extensions ctx)
unfolding client_hello_body client_hello_rest int_to_uint8 int_to_uint16
length-client_hello_body ctx h cookie full =
    let ext = client_extensions ctx in
    let cs = offered ctx in
    let list = int_to_uint16 (2 * length cs) ++ (suite_bytes cs ++ (1 ∷ 0 ∷ ext)) in
    let field = int_to_uint8 (length cookie) ++ (cookie ++ list) in
    omega (
      arith,
      full,
      length-append (take 32 h.tmp) (int_to_uint8 0 ++ field),
      length-append cookie list,
      length-append (suite_bytes cs) (1 ∷ 0 ∷ ext),
      length-suite_bytes cs,
    )

-- A client with the suites of multilevel authentication offers three suites or four.
offered_ma :
    (ctx : Context)
    → is_ma_supported ctx true ≡ true
    → (6 ≤ 2 * length (offered ctx)) × (length (client_extensions ctx) ≡ 36)
unfolding offered client_extensions is_ma_supported is_ecdsa_supported int_to_uint8 int_to_uint16
offered_ma ctx ma = ground (arith, ma)

offered_plain : (ctx : Context) → is_ma_supported ctx true ≡ false → 2 * length (offered ctx) ≤ 4
unfolding offered
offered_plain ctx plain = ground (arith, plain)

-- A ClientHello with a cookie of 32 bytes, which is as long as a cookie may be, is written over the
-- end of the local array exactly where the client supports the suites of multilevel authentication.
-- The union of the randoms has 64 bytes.
pub client_hello-overrun_iff :
    (ctx : Context) (h : Handshake) (now : ℕ) (prng cookie : Bytes)
    → length h.tmp ≡ 64
    → length cookie ≡ 32
    → (client_hello ctx h now prng cookie ≡ none) ↔ (is_ma_supported ctx true ≡ true)
unfolding client_hello in_buffer hello_handshake
client_hello-overrun_iff ctx h now prng cookie union size =
    let h' = record h { hs_hash = [] } in
    let body = client_hello_body ctx h' cookie in
    let again : (length cookie == 0) ≡ false = ground (arith, size) in
    let fits : ltb 32 (length cookie) ≡ false = ground (arith, size) in
    let total =
      length-client_hello_body ctx h' cookie (omega (arith, length-take 32 h.tmp, union)) in
    elim (Bool-cases (is_ma_supported ctx true)) [
      | inl ma ↦
          let many = offered_ma ctx ma in
          let over : ltb 113 (length body) ≡ true = ground (arith, total, many.0, many.1, size) in
          (λ e. ma, λ e. rw (fits, again, over) refl)
      | inr plain ↦
          let few = offered_plain ctx plain in
          let room = length-client_extensions ctx in
          let inside : ltb 113 (length body) ≡ false = ground (arith, total, few, room, size) in
          let made : client_hello ctx h now prng cookie ≡ some (ok body, h') =
            rw (fits, again, inside) refl in
          (λ e. cc (made, e), λ e. cc (plain, e))
    ]
