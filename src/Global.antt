-- ===== src/Global.antt =====
-- global.h: the byte operations that the other files share. A loop over `n` bytes is a recursion
-- on `n`; a pointer that is moved on is the rest of the buffer.
pub mod Laws
use tinydtls.Base.{
  drop, replicate, take, ◌++◌, ℕ, zero, suc, ◌+◌, ◌/◌, Bytes, [], ◌∷◌, bit_xor, ◌==◌, if◌then◌else◌,
}

-- The compile-time constants of the configuration that is modelled (no Contiki, no PIC32).
abbrev pub dtls_max_buf : ℕ
dtls_max_buf = 1400

abbrev pub dtls_default_max_retransmit : ℕ
dtls_default_max_retransmit = 7

-- memxor(x, y, n)
pub memxor : Bytes → Bytes → ℕ → Bytes
memxor x y zero = x
memxor [] y (suc n) = []
memxor (a ∷ x) [] (suc n) = a ∷ x
memxor (a ∷ x) (b ∷ y) (suc n) = bit_xor a b ∷ memxor x y n

-- The loop of equals(a, b, len), with `result` so far: `result &= (*a++ == *b++)`. It does not stop
-- at the first difference.
pub equals_loop : ℕ → Bytes → Bytes → ℕ → ℕ
equals_loop result a b zero = result
equals_loop result [] b (suc len) = equals_loop 0 [] b len
equals_loop result (x ∷ a) [] (suc len) = equals_loop 0 a [] len
equals_loop result (x ∷ a) (y ∷ b) (suc len) = equals_loop (if x == y then result else 0) a b len

pub equals : Bytes → Bytes → ℕ → ℕ
unfolding equals_loop
equals a b len = equals_loop 1 a b len

-- memcpy(dst + off, src, n) of string.h, for ranges inside both buffers
abbrev pub memcpy : Bytes → ℕ → Bytes → ℕ → Bytes
memcpy dst off src n = take off dst ++ take n src ++ drop (off + n) dst

-- memset(dst + off, c, n)
abbrev pub memset : Bytes → ℕ → ℕ → ℕ → Bytes
memset dst off c n = take off dst ++ replicate n c ++ drop (off + n) dst

-- dst[i] = v
abbrev pub put : Bytes → ℕ → ℕ → Bytes
put [] i v = []
put (x ∷ xs) zero v = v ∷ xs
put (x ∷ xs) (suc i) v = x ∷ put xs i v
