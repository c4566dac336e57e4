-- ===== src/Messages/ClientHello/RoundTrip.antt =====
-- The lists of a ClientHello that dtls_send_client_hello builds, as the server reads them.
use tinydtls.Alert.{ok}
use tinydtls.Base.{
  false, ◌||◌, All, Bytes, List, [], append_assoc, arith, drop, length, refl, true, zero, suc, ℕ,
  ◌++◌, ◌≡◌, ◌∙◌, ◌∷◌, ◌<◌, ◌≤◌, ◌*◌, ◌^◌, ap₂, Bool-cases, inl, inr,
}
use tinydtls.Numeric.{int_to_uint8, int_to_uint16, uint16_to_int}
use tinydtls.Peer.{State}
use tinydtls.Cipher.{is_ecdsa_cipher, Context, is_ecdsa_supported, is_ma_supported}
use tinydtls.Extension.{
  curve_loop, verify_ext_eliptic_curves, byte_loop, verify_byte_list, cert_type_ok, one_extension,
  extension_loop, complete, dtls_check_tls_extension,
}
use tinydtls.Messages.ClientHello.{client_extensions, offered, suite_bytes}
use tinydtls.Numeric.RoundTrip.{uint16_to_int-int_to_uint16}
use tinydtls.ClientHello.Ciphers.{words, double}

-- Suites of 16 bits are read as they were written.
pub words-suite_bytes :
    (cs : List ℕ) (rest : Bytes)
    → All (λ (c : ℕ). c < 2 ^ 16) cs
    → words (length cs) (suite_bytes cs ++ rest) ≡ cs
words-suite_bytes [] rest h = refl
words-suite_bytes (c ∷ cs) rest h =
    let tail = suite_bytes cs ++ rest in
    let first : uint16_to_int (int_to_uint16 c ++ tail) ≡ c =
      uint16_to_int-int_to_uint16 c tail ∙ omega (arith, h.0) in
    let behind : drop 2 (int_to_uint16 c ++ tail) ≡ tail = unfold int_to_uint16 in refl in
    rw (append_assoc (int_to_uint16 c) (suite_bytes cs) rest, behind)
      (ap₂ (λ (a : ℕ) (b : List ℕ). a ∷ b) first (words-suite_bytes cs rest h.1))

pub double_lem : (n : ℕ) → double n ≡ 2 * n
double_lem zero = refl
double_lem (suc n) = omega (arith, double_lem n)

pub length-suite_bytes : (cs : List ℕ) → length (suite_bytes cs) ≡ 2 * length cs
unfolding int_to_uint16
length-suite_bytes [] = refl
length-suite_bytes (c ∷ cs) = omega (arith, length-suite_bytes cs)

pub offered_words :
    (ctx : Context) → All (λ (c : ℕ). c < 2 ^ 16) (offered ctx) × (length (offered ctx) ≤ 4)
unfolding offered
offered_words ctx = ground arith

-- The extensions as they stand in the message.
abbrev curve_extensions : Bytes
curve_extensions =
    0 ∷ 34 ∷ 0 ∷ 19 ∷ 0 ∷ 2 ∷ 1 ∷ 2 ∷ 0 ∷ 20 ∷ 0 ∷ 2 ∷ 1 ∷ 2 ∷ 0 ∷ 10 ∷ 0 ∷ 4 ∷ 0 ∷ 2 ∷ 0 ∷ 23 ∷ 0
    ∷ 11 ∷ 0 ∷ 2 ∷ 1 ∷ 0 ∷ 0 ∷ 13 ∷ 0 ∷ 4 ∷ 0 ∷ 2 ∷ 4 ∷ 3 ∷ []

with_curve :
    (ctx : Context)
    → (is_ecdsa_supported ctx true || is_ma_supported ctx true) ≡ true
    → client_extensions ctx ≡ curve_extensions
unfolding client_extensions int_to_uint16 int_to_uint8
with_curve ctx e = rw e refl

without_curve :
    (ctx : Context)
    → (is_ecdsa_supported ctx true || is_ma_supported ctx true) ≡ false
    → client_extensions ctx ≡ []
unfolding client_extensions
without_curve ctx e = rw e refl

module _ (ctx : Context) (cipher : ℕ) (state : State) where
  check_curve : dtls_check_tls_extension ctx cipher state curve_extensions 36 true ≡ ok 0
  unfolding dtls_check_tls_extension extension_loop one_extension cert_type_ok complete
      verify_byte_list byte_loop verify_ext_eliptic_curves curve_loop uint16_to_int
  check_curve = elim (Bool-cases (is_ecdsa_cipher ctx cipher)) [
    | inl e ↦ rw e refl
    | inr e ↦ rw e refl
  ]

  check_none :
      is_ecdsa_cipher ctx cipher ≡ false
      → dtls_check_tls_extension ctx cipher state [] 0 true ≡ ok 0
  unfolding dtls_check_tls_extension
  check_none e = rw e refl

-- The extensions of a client are those that a server looks for, where it chose a suite with a curve
-- only if the client supports one.
pub extensions_ok :
    (ctx_c ctx_s : Context) (cipher : ℕ) (state : State)
    → (is_ecdsa_cipher ctx_s cipher ≡ true
        → (is_ecdsa_supported ctx_c true || is_ma_supported ctx_c true) ≡ true)
    → let d = client_extensions ctx_c in
      dtls_check_tls_extension ctx_s cipher state d (length d) true ≡ ok 0
extensions_ok ctx_c ctx_s cipher state needs =
    elim (Bool-cases (is_ecdsa_supported ctx_c true || is_ma_supported ctx_c true)) [
      | inl e ↦ rw (with_curve ctx_c e) (check_curve ctx_s cipher state)
      | inr e ↦ rw (without_curve ctx_c e) (
          check_none ctx_s cipher state (elim (Bool-cases (is_ecdsa_cipher ctx_s cipher)) [
            | inl curve ↦ cc (needs curve)
            | inr plain ↦ plain
          ]))
    ]
