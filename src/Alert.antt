-- ===== src/Alert.antt =====
-- alert.h, and the decoding of an error code in dtls.c. A negative `int` of the code, -n, is
-- `fail n`; a length, a flag or a count of zero or more is `ok`.
use tinydtls.Base.{
  inl, inr, refl, ◌≡◌, ◌⊎◌, Bool, Option, bit_or, false, if◌then◌else◌, ltb, none, shl, shr, some,
  true, ℕ, ◌%◌, ◌&&◌, ◌==◌, ◌^◌,
}

pub data Result {ℓ} (A : Type ℓ) : Type ℓ where
  ok : A → Result A
  fail : ℕ → Result A

-- A result is one of the two.
pub Result-cases : {A : Type 0} (r : Result A) → ((a : A) × (r ≡ ok a)) ⊎ ((n : ℕ) × (r ≡ fail n))
Result-cases (ok a) = inl (a, refl)
Result-cases (fail n) = inr (n, refl)

infixl 5 ◌>>=◌ ◌>>◌
abbrev pub ◌>>=◌ {ℓ κ} : {A : Type ℓ} {B : Type κ} → Result A → (A → Result B) → Result B
ok a >>= f = f a
fail n >>= f = fail n

abbrev pub ◌>>◌ {ℓ} : {B : Type ℓ} → Result (Unit {0}) → Result B → Result B
m >> k = m >>= λ _. k

-- if (!b) return -code;
abbrev pub guard : Bool → ℕ → Result (Unit {0})
guard true code = ok tt
guard false code = fail code

-- dtls_alert_level_t
abbrev pub level_warning : ℕ
level_warning = 1

abbrev pub level_fatal : ℕ
level_fatal = 2

-- dtls_alert_t
abbrev pub close_notify : ℕ
close_notify = 0

abbrev pub unexpected_message : ℕ
unexpected_message = 10

abbrev pub handshake_failure : ℕ
handshake_failure = 40

abbrev pub decode_error : ℕ
decode_error = 50

abbrev pub decrypt_error : ℕ
decrypt_error = 51

abbrev pub protocol_version : ℕ
protocol_version = 70

abbrev pub insufficient_security : ℕ
insufficient_security = 71

abbrev pub internal_error : ℕ
internal_error = 80

abbrev pub no_renegotiation : ℕ
no_renegotiation = 100

-- -((level << 8) | desc), without the sign
unfoldable pub alert_create : ℕ → ℕ → ℕ
alert_create level desc = bit_or (shl level 8) desc

unfoldable pub alert_fatal_create : ℕ → ℕ
unfolding alert_create
alert_fatal_create desc = alert_create level_fatal desc

-- The tests of dtls_alert_send_from_err on err = -n: the level and the description that it sends.
--   if (err < -(1 << 8) && err > -(3 << 8)) … else if (err == -1) …
pub alert_of_err : ℕ → Option (ℕ × ℕ)
alert_of_err n =
    if ltb (shl 1 8) n && ltb n (shl 3 8)
    then some (shr (n % 2 ^ 16) 8, n % 2 ^ 8)
    else if n == 1
    then some (level_fatal, internal_error)
    else none
