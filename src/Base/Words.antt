-- ===== src/Base/Words.antt =====
-- The unsigned types of C as native numbers: a cast is a remainder, a shift a product or quotient.
use Prim.Native.Nat.{ℕ, ◌*◌, ◌/◌, ◌%◌, ◌^◌, ◌<◌}
use mathlib.Core.List.{List}
use tinydtls.Base.Lists.{All}

abbrev pub u8 : ℕ → ℕ
u8 n = n % 2 ^ 8

abbrev pub u16 : ℕ → ℕ
u16 n = n % 2 ^ 16

abbrev pub u32 : ℕ → ℕ
u32 n = n % 2 ^ 32

abbrev pub u64 : ℕ → ℕ
u64 n = n % 2 ^ 64

-- x >> k
abbrev pub shr : ℕ → ℕ → ℕ
shr x k = x / 2 ^ k

-- x << k, before the cast that cuts it
abbrev pub shl : ℕ → ℕ → ℕ
shl x k = x * 2 ^ k

-- A buffer of `unsigned char`, and what it may hold.
abbrev pub Bytes : Type 0
Bytes = List ℕ

abbrev pub IsByte : ℕ → Type 0
IsByte b = b < 2 ^ 8

abbrev pub IsBytes : Bytes → Type 0
IsBytes bs = All IsByte bs
