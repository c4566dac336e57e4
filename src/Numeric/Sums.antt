-- ===== src/Numeric/Sums.antt =====
-- numeric.h: the value that is read, as a sum of the bytes of the field.
use Prim.Native.Nat.{bit_or}
use tinydtls.Base.{
  ℕ, ◌+◌, ◌*◌, ◌^◌, ◌<◌, ◌≡◌, sym, ◌∙◌, ap, arith, ◌∷◌, Bytes, IsByte, bit_or_disjoint,
}
use tinydtls.Numeric.{uint16_to_int, uint24_to_int, uint32_to_int, uint48_to_int, uint64_to_int}

-- The fields read so far, all above the `k` bits of the next.
join : (k x hi lo : ℕ) → x ≡ hi * 2 ^ k → lo < 2 ^ k → bit_or x lo ≡ x + lo
join k x hi lo e h =
    ap (λ (t : ℕ). bit_or t lo) e ∙ bit_or_disjoint k hi lo h ∙ ap (λ (t : ℕ). t + lo) (sym e)

pub uint16_to_int_sum :
    (a b : ℕ) (r : Bytes) → IsByte a → IsByte b → uint16_to_int (a ∷ b ∷ r) ≡ a * 256 + b
unfolding uint16_to_int
uint16_to_int_sum a b r ha hb =
    let e1 : bit_or (a * 2 ^ 8) (b) ≡ a * 2 ^ 8 + b =
      join 8 (a * 2 ^ 8) a (b) (omega arith) (omega arith) in
    omega (arith, e1)

pub uint24_to_int_sum :
    (a b c : ℕ) (r : Bytes)
    → IsByte a
    → IsByte b
    → IsByte c
    → uint24_to_int (a ∷ b ∷ c ∷ r) ≡ a * 65536 + b * 256 + c
unfolding uint24_to_int
uint24_to_int_sum a b c r ha hb hc =
    let e1 : bit_or (a * 2 ^ 16) (b * 2 ^ 8) ≡ a * 2 ^ 16 + b * 2 ^ 8 =
      join 16 (a * 2 ^ 16) a (b * 2 ^ 8) (omega arith) (omega arith) in
    let e2 : bit_or (bit_or (a * 2 ^ 16) (b * 2 ^ 8)) (c) ≡ (bit_or (a * 2 ^ 16) (b * 2 ^ 8)) + c =
      join 8 (bit_or (a * 2 ^ 16) (b * 2 ^ 8)) (a * 256 + b) (c) (omega (arith, e1))
        (omega arith) in
    omega (arith, e1, e2)

pub uint32_to_int_sum :
    (a b c d : ℕ) (r : Bytes)
    → IsByte a
    → IsByte b
    → IsByte c
    → IsByte d
    → uint32_to_int (a ∷ b ∷ c ∷ d ∷ r) ≡ a * 16777216 + b * 65536 + c * 256 + d
unfolding uint32_to_int
uint32_to_int_sum a b c d r ha hb hc hd =
    let e1 : bit_or (a * 2 ^ 24) (b * 2 ^ 16) ≡ a * 2 ^ 24 + b * 2 ^ 16 =
      join 24 (a * 2 ^ 24) a (b * 2 ^ 16) (omega arith) (omega arith) in
    let e2 : bit_or (bit_or (a * 2 ^ 24) (b * 2 ^ 16)) (c * 2 ^ 8)
        ≡ (bit_or (a * 2 ^ 24) (b * 2 ^ 16)) + c * 2 ^ 8 =
      join 16 (bit_or (a * 2 ^ 24) (b * 2 ^ 16)) (a * 256 + b) (c * 2 ^ 8) (omega (arith, e1))
        (omega arith) in
    let e3 : bit_or (bit_or (bit_or (a * 2 ^ 24) (b * 2 ^ 16)) (c * 2 ^ 8)) (d)
        ≡ (bit_or (bit_or (a * 2 ^ 24) (b * 2 ^ 16)) (c * 2 ^ 8)) + d =
      join 8 (bit_or (bit_or (a * 2 ^ 24) (b * 2 ^ 16)) (c * 2 ^ 8)) (a * 65536 + b * 256 + c) (d)
        (omega (arith, e2)) (omega arith) in
    omega (arith, e1, e2, e3)

pub uint48_to_int_sum :
    (a b c d e f : ℕ) (r : Bytes)
    → IsByte a
    → IsByte b
    → IsByte c
    → IsByte d
    → IsByte e
    → IsByte f
    → uint48_to_int (a ∷ b ∷ c ∷ d ∷ e ∷ f ∷ r)
      ≡ a * 1099511627776 + b * 4294967296 + c * 16777216 + d * 65536 + e * 256 + f
unfolding uint48_to_int
uint48_to_int_sum a b c d e f r ha hb hc hd he hf =
    let e1 : bit_or (a * 2 ^ 40) (b * 2 ^ 32) ≡ a * 2 ^ 40 + b * 2 ^ 32 =
      join 40 (a * 2 ^ 40) a (b * 2 ^ 32) (omega arith) (omega arith) in
    let e2 : bit_or (bit_or (a * 2 ^ 40) (b * 2 ^ 32)) (c * 2 ^ 24)
        ≡ (bit_or (a * 2 ^ 40) (b * 2 ^ 32)) + c * 2 ^ 24 =
      join 32 (bit_or (a * 2 ^ 40) (b * 2 ^ 32)) (a * 256 + b) (c * 2 ^ 24) (omega (arith, e1))
        (omega arith) in
    let e3 : bit_or (bit_or (bit_or (a * 2 ^ 40) (b * 2 ^ 32)) (c * 2 ^ 24)) (d * 2 ^ 16)
        ≡ (bit_or (bit_or (a * 2 ^ 40) (b * 2 ^ 32)) (c * 2 ^ 24)) + d * 2 ^ 16 =
      join 24 (bit_or (bit_or (a * 2 ^ 40) (b * 2 ^ 32)) (c * 2 ^ 24)) (a * 65536 + b * 256 + c)
        (d * 2 ^ 16) (omega (arith, e2)) (omega arith) in
    let e4 : bit_or (bit_or (bit_or (bit_or (a * 2 ^ 40) (b * 2 ^ 32)) (c * 2 ^ 24)) (d * 2 ^ 16))
          (e * 2 ^ 8)
        ≡ (bit_or (bit_or (bit_or (a * 2 ^ 40) (b * 2 ^ 32)) (c * 2 ^ 24)) (d * 2 ^ 16))
          + e * 2 ^ 8 =
      join 16 (bit_or (bit_or (bit_or (a * 2 ^ 40) (b * 2 ^ 32)) (c * 2 ^ 24)) (d * 2 ^ 16))
        (a * 16777216 + b * 65536 + c * 256 + d) (e * 2 ^ 8) (omega (arith, e3)) (omega arith) in
    let e5 : bit_or
          (bit_or (bit_or (bit_or (bit_or (a * 2 ^ 40) (b * 2 ^ 32)) (c * 2 ^ 24)) (d * 2 ^ 16))
            (e * 2 ^ 8))
          (f)
        ≡ (bit_or (bit_or (bit_or (bit_or (a * 2 ^ 40) (b * 2 ^ 32)) (c * 2 ^ 24)) (d * 2 ^ 16))
            (e * 2 ^ 8))
          + f =
      join 8
        (bit_or (bit_or (bit_or (bit_or (a * 2 ^ 40) (b * 2 ^ 32)) (c * 2 ^ 24)) (d * 2 ^ 16))
          (e * 2 ^ 8))
        (a * 4294967296 + b * 16777216 + c * 65536 + d * 256 + e) (f) (omega (arith, e4))
        (omega arith) in
    omega (arith, e1, e2, e3, e4, e5)

pub uint64_to_int_sum :
    (a b c d e f g h : ℕ) (r : Bytes)
    → IsByte a
    → IsByte b
    → IsByte c
    → IsByte d
    → IsByte e
    → IsByte f
    → IsByte g
    → IsByte h
    → uint64_to_int (a ∷ b ∷ c ∷ d ∷ e ∷ f ∷ g ∷ h ∷ r)
      ≡ a * 72057594037927936
        + b * 281474976710656
        + c * 1099511627776
        + d * 4294967296
        + e * 16777216
        + f * 65536
        + g * 256
        + h
unfolding uint64_to_int
uint64_to_int_sum a b c d e f g h r ha hb hc hd he hf hg hh =
    let e1 : bit_or (a * 2 ^ 56) (b * 2 ^ 48) ≡ a * 2 ^ 56 + b * 2 ^ 48 =
      join 56 (a * 2 ^ 56) a (b * 2 ^ 48) (omega arith) (omega arith) in
    let e2 : bit_or (bit_or (a * 2 ^ 56) (b * 2 ^ 48)) (c * 2 ^ 40)
        ≡ (bit_or (a * 2 ^ 56) (b * 2 ^ 48)) + c * 2 ^ 40 =
      join 48 (bit_or (a * 2 ^ 56) (b * 2 ^ 48)) (a * 256 + b) (c * 2 ^ 40) (omega (arith, e1))
        (omega arith) in
    let e3 : bit_or (bit_or (bit_or (a * 2 ^ 56) (b * 2 ^ 48)) (c * 2 ^ 40)) (d * 2 ^ 32)
        ≡ (bit_or (bit_or (a * 2 ^ 56) (b * 2 ^ 48)) (c * 2 ^ 40)) + d * 2 ^ 32 =
      join 40 (bit_or (bit_or (a * 2 ^ 56) (b * 2 ^ 48)) (c * 2 ^ 40)) (a * 65536 + b * 256 + c)
        (d * 2 ^ 32) (omega (arith, e2)) (omega arith) in
    let e4 : bit_or (bit_or (bit_or (bit_or (a * 2 ^ 56) (b * 2 ^ 48)) (c * 2 ^ 40)) (d * 2 ^ 32))
          (e * 2 ^ 24)
        ≡ (bit_or (bit_or (bit_or (a * 2 ^ 56) (b * 2 ^ 48)) (c * 2 ^ 40)) (d * 2 ^ 32))
          + e * 2 ^ 24 =
      join 32 (bit_or (bit_or (bit_or (a * 2 ^ 56) (b * 2 ^ 48)) (c * 2 ^ 40)) (d * 2 ^ 32))
        (a * 16777216 + b * 65536 + c * 256 + d) (e * 2 ^ 24) (omega (arith, e3)) (omega arith) in
    let e5 : bit_or
          (bit_or (bit_or (bit_or (bit_or (a * 2 ^ 56) (b * 2 ^ 48)) (c * 2 ^ 40)) (d * 2 ^ 32))
            (e * 2 ^ 24))
          (f * 2 ^ 16)
        ≡ (bit_or (bit_or (bit_or (bit_or (a * 2 ^ 56) (b * 2 ^ 48)) (c * 2 ^ 40)) (d * 2 ^ 32))
            (e * 2 ^ 24))
          + f * 2 ^ 16 =
      join 24
        (bit_or (bit_or (bit_or (bit_or (a * 2 ^ 56) (b * 2 ^ 48)) (c * 2 ^ 40)) (d * 2 ^ 32))
          (e * 2 ^ 24))
        (a * 4294967296 + b * 16777216 + c * 65536 + d * 256 + e) (f * 2 ^ 16) (omega (arith, e4))
        (omega arith) in
    let e6 : bit_or
          (bit_or
            (bit_or (bit_or (bit_or (bit_or (a * 2 ^ 56) (b * 2 ^ 48)) (c * 2 ^ 40)) (d * 2 ^ 32))
              (e * 2 ^ 24))
            (f * 2 ^ 16))
          (g * 2 ^ 8)
        ≡ (bit_or
            (bit_or (bit_or (bit_or (bit_or (a * 2 ^ 56) (b * 2 ^ 48)) (c * 2 ^ 40)) (d * 2 ^ 32))
              (e * 2 ^ 24))
            (f * 2 ^ 16))
          + g * 2 ^ 8 =
      join 16
        (bit_or
          (bit_or (bit_or (bit_or (bit_or (a * 2 ^ 56) (b * 2 ^ 48)) (c * 2 ^ 40)) (d * 2 ^ 32))
            (e * 2 ^ 24))
          (f * 2 ^ 16))
        (a * 1099511627776 + b * 4294967296 + c * 16777216 + d * 65536 + e * 256 + f) (g * 2 ^ 8)
        (omega (arith, e5)) (omega arith) in
    let e7 : bit_or
          (bit_or
            (bit_or
              (bit_or (bit_or (bit_or (bit_or (a * 2 ^ 56) (b * 2 ^ 48)) (c * 2 ^ 40)) (d * 2 ^ 32))
                (e * 2 ^ 24))
              (f * 2 ^ 16))
            (g * 2 ^ 8))
          (h)
        ≡ (bit_or
            (bit_or
              (bit_or (bit_or (bit_or (bit_or (a * 2 ^ 56) (b * 2 ^ 48)) (c * 2 ^ 40)) (d * 2 ^ 32))
                (e * 2 ^ 24))
              (f * 2 ^ 16))
            (g * 2 ^ 8))
          + h =
      join 8
        (bit_or
          (bit_or
            (bit_or (bit_or (bit_or (bit_or (a * 2 ^ 56) (b * 2 ^ 48)) (c * 2 ^ 40)) (d * 2 ^ 32))
              (e * 2 ^ 24))
            (f * 2 ^ 16))
          (g * 2 ^ 8))
        (a * 281474976710656
          + b * 1099511627776
          + c * 4294967296
          + d * 16777216
          + e * 65536
          + f * 256
          + g)
        (h) (omega (arith, e6)) (omega arith) in
    omega (arith, e1, e2, e3, e4, e5, e6, e7)
