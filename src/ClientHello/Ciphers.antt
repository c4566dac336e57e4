-- ===== src/ClientHello/Ciphers.antt =====
-- The choice of the cipher suite.
use tinydtls.Base.{
  ap, Option-cases, subst, ◌+◌, ◌∙◌, ◌==◌, ◌⊎◌, Bool-cases, Bytes, List, Option, [], arith, drop,
  false, if◌then◌else◌, inl, inr, length, length-drop, ltb, none, refl, some, suc, true, zero, ℕ,
  ◌∷◌, ◌≡◌, ◌≤◌,
}
use tinydtls.Cookie.{skip_var_field}
use tinydtls.Crypto.{dtls_random_length}
use tinydtls.Header.{dtls_hs_length, Security}
use tinydtls.Alert.{fail, Result}
use tinydtls.ClientHello.{
  dtls_update_parameters, ok, read_compression, read_ciphers, past_list, cipher_loop,
}
use tinydtls.Peer.{State, Handshake}
use tinydtls.Numeric.{uint16_to_int}
use tinydtls.Cipher.{Context, known_cipher}

-- The suites of a list, and the first one that the server knows.
abbrev pub words : ℕ → Bytes → List ℕ
words zero d = []
words (suc k) d = uint16_to_int d ∷ words k (drop 2 d)

abbrev pub first_known : Context → List ℕ → Option ℕ
first_known ctx [] = none
first_known ctx (c ∷ cs) = if known_cipher ctx c false then some c else first_known ctx cs

abbrev pub double : ℕ → ℕ
double zero = 0
double (suc k) = suc (suc (double k))

-- For a list of an even number of bytes inside the message, the loop finds the first suite of the
-- list that the server knows, and stays inside.
pub cipher_loop_lem :
    (ctx : Context) (k : ℕ) (d : Bytes)
    → double k ≤ length d
    → cipher_loop ctx (double k) d ≡ some (first_known ctx (words k d))
unfolding cipher_loop
cipher_loop_lem ctx zero d h = refl
cipher_loop_lem ctx (suc k) d h =
    let inside : ltb (length d) 2 ≡ false = ground arith in
    let ih = cipher_loop_lem ctx k (drop 2 d) (omega (arith, length-drop 2 d)) in
    elim (Bool-cases (known_cipher ctx (uint16_to_int d) false)) [
      | inl e ↦ rw (inside, e)
      | inr e ↦ rw (inside, e, ih)
    ]

past_list-known :
    (ctx : Context) (fuel : ℕ) (d : Bytes) (c : ℕ)
    → past_list ctx fuel d ≡ some (some c)
    → known_cipher ctx c false ≡ true
unfolding past_list
past_list-known ctx zero d c h = absurd (cc h)
past_list-known ctx (suc fuel) d c h = ground (arith, past_list-known ctx fuel (drop 2 d) c)

cipher_loop-known :
    (ctx : Context) (i : ℕ) (d : Bytes) (c : ℕ)
    → cipher_loop ctx i d ≡ some (some c)
    → known_cipher ctx c false ≡ true
unfolding cipher_loop
cipher_loop-known ctx zero d c h = absurd (ground arith)
cipher_loop-known ctx (suc zero) d c h = past_list-known ctx (suc (length d)) d c h
cipher_loop-known ctx (suc (suc i)) d c h = ground (arith, cipher_loop-known ctx i (drop 2 d) c)

read_compression-cipher :
    (ctx : Context) (state : State) (security : Option Security) (h : Handshake) (d : Bytes) (n : ℕ)
    → (read_compression ctx state security h d n).1.hs_cipher ≡ h.hs_cipher
unfolding read_compression
read_compression-cipher ctx state security h d n = ground arith

-- The suite is one that the server knows, or the one in use, which is not the null cipher suite.
abbrev pub IsChosen : Context → Option Security → ℕ → Type 0
IsChosen ctx security c =
    known_cipher ctx c false ≡ true
    ⊎ ((s : Security) × ((security ≡ some s) × ((c ≡ s.cipher) × ((s.cipher == 0) ≡ false))))

-- The suite of an outcome, where it is a success.
abbrev ChosenIn : Context → Option Security → Option (Result ℕ × Handshake) → Type 0
ChosenIn ctx security none = Unit {0}
ChosenIn ctx security (some (fail n, h)) = Unit {0}
ChosenIn ctx security (some (ok n, h)) = IsChosen ctx security h.hs_cipher

known-ChosenIn :
    (ctx : Context) (security : Option Security) (o : Result ℕ × Handshake)
    → known_cipher ctx o.1.hs_cipher false ≡ true
    → ChosenIn ctx security (some o)
known-ChosenIn ctx security (fail n, h) e = tt
known-ChosenIn ctx security (ok n, h) e = inl e

compression-ChosenIn :
    (ctx : Context) (state : State) (security : Option Security) (h : Handshake) (d : Bytes) (n : ℕ)
    → known_cipher ctx h.hs_cipher false ≡ true
    → ChosenIn ctx security (some (read_compression ctx state security h d n))
compression-ChosenIn ctx state security h d n e =
    known-ChosenIn ctx security (read_compression ctx state security h d n) (
      ap (λ (c : ℕ). known_cipher ctx c false) (read_compression-cipher ctx state security h d n)
      ∙ e)

-- Without a list of suites, the one in use.
inherited :
    (ctx : Context) (state : State) (security : Option Security) (h : Handshake) (d : Bytes)
    → ltb (length d) (uint16_to_int d + 2) ≡ true
    → ChosenIn ctx security (read_ciphers ctx state security h d)
unfolding read_ciphers
inherited ctx state none h d short = rw short tt
inherited ctx state (some s) h d short = elim (Bool-cases (s.cipher == 0)) [
  | inl null ↦ rw (short, null) tt
  | inr used ↦ rw (short, used) (inr (s, (refl, (refl, used))))
]

read_ciphers-ChosenIn :
    (ctx : Context) (state : State) (security : Option Security) (h : Handshake) (d : Bytes)
    → ChosenIn ctx security (read_ciphers ctx state security h d)
unfolding read_ciphers
read_ciphers-ChosenIn ctx state security h d =
    elim (Bool-cases (ltb (length d) (uint16_to_int d + 2))) [
      | inl short ↦ inherited ctx state security h d short
      | inr long ↦ elim (Option-cases (cipher_loop ctx (uint16_to_int d) (drop 2 d))) [
        | inl outside ↦ rw (long, outside) tt
        | inr (found, e) ↦ elim (Option-cases found) [
          | inl no_match ↦ rw (long, e, no_match) tt
          | inr (c, f) ↦
              rw (long, e, f)
                (compression-ChosenIn ctx state security (record h { hs_cipher = c }) _ _
                  (cipher_loop-known ctx (uint16_to_int d) (drop 2 d) c (e ∙ ap some f)))
        ]
      ]
    ]

update_parameters-ChosenIn :
    (ctx : Context) (state : State) (security : Option Security) (h : Handshake) (msg : Bytes)
    → ChosenIn ctx security (dtls_update_parameters ctx state security h msg)
unfolding dtls_update_parameters
update_parameters-ChosenIn ctx state security h msg =
    elim (Option-cases (skip_var_field (drop dtls_random_length (drop (dtls_hs_length + 2) msg)))) [
      | inl no_id ↦ rw (dtls_update_parameters, no_id) tt
      | inr (d, id) ↦ elim (Option-cases (skip_var_field d)) [
        | inl no_cookie ↦ rw (dtls_update_parameters, id, no_cookie) tt
        | inr (rest, cookie) ↦
            rw (dtls_update_parameters, id, cookie)
              (read_ciphers-ChosenIn ctx state security _ rest)
      ]
    ]

-- The suite that a ClientHello is accepted with is one that the server knows, or the one in use,
-- which is then not the null cipher suite.
pub dtls_update_parameters-IsChosen :
    (ctx : Context) (state : State) (security : Option Security) (h : Handshake) (msg : Bytes)
    {n : ℕ} {h' : Handshake}
    → dtls_update_parameters ctx state security h msg ≡ some (ok n, h')
    → IsChosen ctx security h'.hs_cipher
dtls_update_parameters-IsChosen ctx state security h msg e =
    subst (ChosenIn ctx security) e (update_parameters-ChosenIn ctx state security h msg)
