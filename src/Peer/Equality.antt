-- ===== src/Peer/Equality.antt =====
-- dtls_session_equals as a relation on sessions.
use tinydtls.Base.{Bool, Bytes, [], arith, false, refl, true, ◌↔◌, ◌∷◌, ◌≡◌}
use tinydtls.Peer.{
  Session, Address, sin, sin6, other_family, bytes_eq, addr_eq, dtls_session_equals,
}

pub bytes_eq_sound : (a b : Bytes) → bytes_eq a b ≡ true → a ≡ b
bytes_eq_sound [] [] h = refl
bytes_eq_sound [] (y ∷ b) h = cc
bytes_eq_sound (x ∷ a) [] h = cc
bytes_eq_sound (x ∷ a) (y ∷ b) h = ground (arith, bytes_eq_sound a b)

pub bytes_eq_refl : (a : Bytes) → bytes_eq a a ≡ true
bytes_eq_refl [] = refl
bytes_eq_refl (x ∷ a) = ground (arith, bytes_eq_refl a)

-- The family is one of those that the comparison knows.
abbrev pub is_inet : Address → Bool
is_inet (sin p a) = true
is_inet (sin6 p a) = true
is_inet (other_family f) = false

addr_eq_sound : (a b : Address) → addr_eq a b ≡ true → (a ≡ b) × (is_inet a ≡ true)
unfolding addr_eq
addr_eq_sound (sin p a) (sin q b) h = ground (arith, bytes_eq_sound a b)
addr_eq_sound (sin6 p a) (sin6 q b) h = ground (arith, bytes_eq_sound a b)
addr_eq_sound (sin p a) (sin6 q b) h = cc
addr_eq_sound (sin p a) (other_family g) h = cc
addr_eq_sound (sin6 p a) (sin q b) h = cc
addr_eq_sound (sin6 p a) (other_family g) h = cc
addr_eq_sound (other_family f) b h = cc

addr_eq_refl : (a : Address) → addr_eq a a ≡ is_inet a
unfolding addr_eq
addr_eq_refl (sin p a) = ground (arith, bytes_eq_refl a)
addr_eq_refl (sin6 p a) = ground (arith, bytes_eq_refl a)
addr_eq_refl (other_family f) = refl

-- Two sessions are equal for the code exactly when they agree in interface, size, family, port and
-- address and their family is AF_INET or AF_INET6. A session of another family is not even equal
-- to itself.
pub dtls_session_equals_iff :
    (a b : Session) → (dtls_session_equals a b ≡ true) ↔ ((a ≡ b) × (is_inet a.addr ≡ true))
unfolding dtls_session_equals
dtls_session_equals_iff a b =
    (λ h. ground (arith, addr_eq_sound a.addr b.addr), λ h. ground (arith, addr_eq_refl a.addr))
