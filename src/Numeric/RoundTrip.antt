-- ===== src/Numeric/RoundTrip.antt =====
-- numeric.h: what is stored is read back, and what is read is stored back.
use tinydtls.Base.{
  ℕ, ◌%◌, ◌^◌, ◌≤◌, ◌≡◌, ◌∙◌, arith, [], ◌∷◌, ◌++◌, Bytes, IsByte, IsBytes, length, take, u8, u16,
  u32, u64, shr,
}
use tinydtls.Numeric.{
  int_to_uint8, int_to_uint16, int_to_uint24, int_to_uint32, int_to_uint48, int_to_uint64,
  uint8_to_int, uint16_to_int, uint24_to_int, uint32_to_int, uint48_to_int, uint64_to_int,
}
use tinydtls.Numeric.Sums.{
  uint16_to_int_sum, uint24_to_int_sum, uint32_to_int_sum, uint48_to_int_sum, uint64_to_int_sum,
}

pub uint16_to_int-int_to_uint16 :
    (v : ℕ) (r : Bytes) → uint16_to_int (int_to_uint16 v ++ r) ≡ v % 2 ^ 16
unfolding int_to_uint16
uint16_to_int-int_to_uint16 v r =
    uint16_to_int_sum (u8 (shr (u16 v) 8)) (u8 (u16 v)) r (omega arith) (omega arith) ∙ omega arith

pub uint24_to_int-int_to_uint24 :
    (v : ℕ) (r : Bytes) → uint24_to_int (int_to_uint24 v ++ r) ≡ v % 2 ^ 24
unfolding int_to_uint24
uint24_to_int-int_to_uint24 v r =
    uint24_to_int_sum (u8 (shr (u32 v) 16)) (u8 (shr (u32 v) 8)) (u8 (u32 v)) r (omega arith)
      (omega arith) (omega arith)
    ∙ omega arith

pub uint32_to_int-int_to_uint32 :
    (v : ℕ) (r : Bytes) → uint32_to_int (int_to_uint32 v ++ r) ≡ v % 2 ^ 32
unfolding int_to_uint32
uint32_to_int-int_to_uint32 v r =
    uint32_to_int_sum (u8 (shr (u32 v) 24)) (u8 (shr (u32 v) 16)) (u8 (shr (u32 v) 8)) (u8 (u32 v))
      r (omega arith) (omega arith) (omega arith) (omega arith)
    ∙ omega arith

pub uint48_to_int-int_to_uint48 :
    (v : ℕ) (r : Bytes) → uint48_to_int (int_to_uint48 v ++ r) ≡ v % 2 ^ 48
unfolding int_to_uint48
uint48_to_int-int_to_uint48 v r =
    uint48_to_int_sum (u8 (shr (u64 v) 40)) (u8 (shr (u64 v) 32)) (u8 (shr (u64 v) 24))
      (u8 (shr (u64 v) 16)) (u8 (shr (u64 v) 8)) (u8 (u64 v)) r (omega arith) (omega arith)
      (omega arith) (omega arith) (omega arith) (omega arith)
    ∙ omega arith

pub uint64_to_int-int_to_uint64 :
    (v : ℕ) (r : Bytes) → uint64_to_int (int_to_uint64 v ++ r) ≡ v % 2 ^ 64
unfolding int_to_uint64
uint64_to_int-int_to_uint64 v r =
    uint64_to_int_sum (u8 (shr (u64 v) 56)) (u8 (shr (u64 v) 48)) (u8 (shr (u64 v) 40))
      (u8 (shr (u64 v) 32)) (u8 (shr (u64 v) 24)) (u8 (shr (u64 v) 16)) (u8 (shr (u64 v) 8))
      (u8 (u64 v)) r (omega arith) (omega arith) (omega arith) (omega arith) (omega arith)
      (omega arith) (omega arith) (omega arith)
    ∙ omega arith

int_to_uint16-uint16_to_int :
    (a b : ℕ) (r : Bytes)
    → IsByte a
    → IsByte b
    → int_to_uint16 (uint16_to_int (a ∷ b ∷ r)) ≡ a ∷ b ∷ []
unfolding int_to_uint16
int_to_uint16-uint16_to_int a b r ha hb = rw (uint16_to_int_sum a b r ha hb) (ground arith)

int_to_uint24-uint24_to_int :
    (a b c : ℕ) (r : Bytes)
    → IsByte a
    → IsByte b
    → IsByte c
    → int_to_uint24 (uint24_to_int (a ∷ b ∷ c ∷ r)) ≡ a ∷ b ∷ c ∷ []
unfolding int_to_uint24
int_to_uint24-uint24_to_int a b c r ha hb hc =
    rw (uint24_to_int_sum a b c r ha hb hc) (ground arith)

int_to_uint32-uint32_to_int :
    (a b c d : ℕ) (r : Bytes)
    → IsByte a
    → IsByte b
    → IsByte c
    → IsByte d
    → int_to_uint32 (uint32_to_int (a ∷ b ∷ c ∷ d ∷ r)) ≡ a ∷ b ∷ c ∷ d ∷ []
unfolding int_to_uint32
int_to_uint32-uint32_to_int a b c d r ha hb hc hd =
    rw (uint32_to_int_sum a b c d r ha hb hc hd) (ground arith)

int_to_uint48-uint48_to_int :
    (a b c d e f : ℕ) (r : Bytes)
    → IsByte a
    → IsByte b
    → IsByte c
    → IsByte d
    → IsByte e
    → IsByte f
    → int_to_uint48 (uint48_to_int (a ∷ b ∷ c ∷ d ∷ e ∷ f ∷ r)) ≡ a ∷ b ∷ c ∷ d ∷ e ∷ f ∷ []
unfolding int_to_uint48
int_to_uint48-uint48_to_int a b c d e f r ha hb hc hd he hf =
    rw (uint48_to_int_sum a b c d e f r ha hb hc hd he hf) (ground arith)

int_to_uint64-uint64_to_int :
    (a b c d e f g h : ℕ) (r : Bytes)
    → IsByte a
    → IsByte b
    → IsByte c
    → IsByte d
    → IsByte e
    → IsByte f
    → IsByte g
    → IsByte h
    → int_to_uint64 (uint64_to_int (a ∷ b ∷ c ∷ d ∷ e ∷ f ∷ g ∷ h ∷ r))
      ≡ a ∷ b ∷ c ∷ d ∷ e ∷ f ∷ g ∷ h ∷ []
unfolding int_to_uint64
int_to_uint64-uint64_to_int a b c d e f g h r ha hb hc hd he hf hg hh =
    rw (uint64_to_int_sum a b c d e f g h r ha hb hc hd he hf hg hh) (ground arith)

-- For each width, reading what was stored gives the value modulo that width, whatever follows in
-- the buffer.
pub uint_to_int-int_to_uint :
    (v : ℕ) (r : Bytes)
    → (uint8_to_int (int_to_uint8 v ++ r) ≡ v % 2 ^ 8)
      × (uint16_to_int (int_to_uint16 v ++ r) ≡ v % 2 ^ 16)
      × (uint24_to_int (int_to_uint24 v ++ r) ≡ v % 2 ^ 24)
      × (uint32_to_int (int_to_uint32 v ++ r) ≡ v % 2 ^ 32)
      × (uint48_to_int (int_to_uint48 v ++ r) ≡ v % 2 ^ 48)
      × (uint64_to_int (int_to_uint64 v ++ r) ≡ v % 2 ^ 64)
unfolding int_to_uint8 uint8_to_int
uint_to_int-int_to_uint v r = (
  omega arith,
  uint16_to_int-int_to_uint16 v r,
  uint24_to_int-int_to_uint24 v r,
  uint32_to_int-int_to_uint32 v r,
  uint48_to_int-int_to_uint48 v r,
  uint64_to_int-int_to_uint64 v r,
)

-- Storing what was read from eight bytes or more gives back the bytes that were read, for each
-- width.
pub int_to_uint-uint_to_int :
    (f : Bytes)
    → IsBytes f
    → 8 ≤ length f
    → (int_to_uint8 (uint8_to_int f) ≡ take 1 f)
      × (int_to_uint16 (uint16_to_int f) ≡ take 2 f)
      × (int_to_uint24 (uint24_to_int f) ≡ take 3 f)
      × (int_to_uint32 (uint32_to_int f) ≡ take 4 f)
      × (int_to_uint48 (uint48_to_int f) ≡ take 6 f)
      × (int_to_uint64 (uint64_to_int f) ≡ take 8 f)
unfolding int_to_uint8 uint8_to_int
int_to_uint-uint_to_int (a ∷ b ∷ c ∷ d ∷ e ∷ f ∷ g ∷ h ∷ r) w l = (
  ground arith,
  int_to_uint16-uint16_to_int a b _ (omega arith) (omega arith),
  int_to_uint24-uint24_to_int a b c _ (omega arith) (omega arith) (omega arith),
  int_to_uint32-uint32_to_int a b c d _ (omega arith) (omega arith) (omega arith) (omega arith),
  int_to_uint48-uint48_to_int a b c d e f _ (omega arith) (omega arith) (omega arith) (omega arith)
      (omega arith) (omega arith),
  int_to_uint64-uint64_to_int a b c d e f g h r (omega arith) (omega arith) (omega arith)
      (omega arith) (omega arith) (omega arith) (omega arith) (omega arith),
)
int_to_uint-uint_to_int _ w l = absurd (omega arith)
