-- ===== src/Numeric.antt =====
-- numeric.h: integers in network byte order. `int_to_uintN v` is what `dtls_int_to_uintN` stores at
-- `field`, and `uintN_to_int f` what `dtls_uintN_to_int` reads there. A read past the end of the
-- buffer, which the callers exclude by their length checks, is read as 0. `& 0xff` is `u8`.
pub mod Sums
pub mod RoundTrip
mod Tests
use Prim.Native.Nat.{bit_or}
use tinydtls.Base.{ℕ, Bytes, [], ◌∷◌, get_or, u8, u16, u32, u64, shl, shr}

-- field[i]
abbrev pub byte_at : Bytes → ℕ → ℕ
byte_at f i = get_or f i 0

unfoldable pub int_to_uint8 : ℕ → Bytes
int_to_uint8 value = u8 value ∷ []

unfoldable pub int_to_uint16 : ℕ → Bytes
int_to_uint16 value = let v = u16 value in u8 (shr v 8) ∷ u8 v ∷ []

unfoldable pub int_to_uint24 : ℕ → Bytes
int_to_uint24 value = let v = u32 value in u8 (shr v 16) ∷ u8 (shr v 8) ∷ u8 v ∷ []

unfoldable pub int_to_uint32 : ℕ → Bytes
int_to_uint32 value = let v = u32 value in u8 (shr v 24) ∷ u8 (shr v 16) ∷ u8 (shr v 8) ∷ u8 v ∷ []

unfoldable pub int_to_uint48 : ℕ → Bytes
int_to_uint48 value =
    let v = u64 value in
    u8 (shr v 40) ∷ u8 (shr v 32) ∷ u8 (shr v 24) ∷ u8 (shr v 16) ∷ u8 (shr v 8) ∷ u8 v ∷ []

unfoldable pub int_to_uint64 : ℕ → Bytes
int_to_uint64 value =
    let v = u64 value in
    u8 (shr v 56)
    ∷ u8 (shr v 48)
    ∷ u8 (shr v 40)
    ∷ u8 (shr v 32)
    ∷ u8 (shr v 24)
    ∷ u8 (shr v 16)
    ∷ u8 (shr v 8)
    ∷ u8 v
    ∷ []

pub uint8_to_int : Bytes → ℕ
uint8_to_int f = u8 (byte_at f 0)

unfoldable pub uint16_to_int : Bytes → ℕ
uint16_to_int f = u16 (bit_or (shl (byte_at f 0) 8) (byte_at f 1))

unfoldable pub uint24_to_int : Bytes → ℕ
uint24_to_int f = u32 (bit_or (bit_or (shl (byte_at f 0) 16) (shl (byte_at f 1) 8)) (byte_at f 2))

pub uint32_to_int : Bytes → ℕ
uint32_to_int f = u32 (
    bit_or (bit_or (bit_or (shl (byte_at f 0) 24) (shl (byte_at f 1) 16)) (shl (byte_at f 2) 8))
      (byte_at f 3))

pub uint48_to_int : Bytes → ℕ
uint48_to_int f =
    let hi = bit_or (bit_or (shl (byte_at f 0) 40) (shl (byte_at f 1) 32)) (shl (byte_at f 2) 24) in
    u64 (bit_or (bit_or (bit_or hi (shl (byte_at f 3) 16)) (shl (byte_at f 4) 8)) (byte_at f 5))

pub uint64_to_int : Bytes → ℕ
uint64_to_int f =
    let hi = bit_or (bit_or (shl (byte_at f 0) 56) (shl (byte_at f 1) 48)) (shl (byte_at f 2) 40) in
    let mid = bit_or (bit_or hi (shl (byte_at f 3) 32)) (shl (byte_at f 4) 24) in
    u64 (bit_or (bit_or (bit_or mid (shl (byte_at f 5) 16)) (shl (byte_at f 6) 8)) (byte_at f 7))
