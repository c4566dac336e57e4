-- ===== src/Global/Laws.antt =====
-- global.h: what `memxor` and `equals` compute.
use tinydtls.Base.{
  ℕ, zero, suc, ◌≤◌, ◌≡◌, ◌↔◌, refl, ap, ap₂, arith, Bytes, [], ◌∷◌, ◌++◌, length, take, bit_xor,
  bit_xor_cancel,
}
use tinydtls.Global.{memxor, equals, equals_loop}

pub length-memxor : (x y : Bytes) (n : ℕ) → length (memxor x y n) ≡ length x
unfolding memxor
length-memxor x y zero = refl
length-memxor [] y (suc n) = refl
length-memxor (a ∷ x) [] (suc n) = refl
length-memxor (a ∷ x) (b ∷ y) (suc n) = ap suc (length-memxor x y n)

-- Applying one mask twice restores the memory area.
pub memxor_cancel : (x y : Bytes) (n : ℕ) → memxor (memxor x y n) y n ≡ x
unfolding memxor
memxor_cancel x y zero = refl
memxor_cancel [] y (suc n) = refl
memxor_cancel (a ∷ x) [] (suc n) = refl
memxor_cancel (a ∷ x) (b ∷ y) (suc n) = ap₂ ◌∷◌ (bit_xor_cancel a b) (memxor_cancel x y n)

-- Beyond `n` bytes the area is left alone.
pub memxor-append : (x t y : Bytes) (n : ℕ) → n ≤ length x → memxor (x ++ t) y n ≡ memxor x y n ++ t
unfolding memxor
memxor-append x t y zero h = refl
memxor-append [] t y (suc n) h = absurd (omega arith)
memxor-append (a ∷ x) t [] (suc n) h = refl
memxor-append (a ∷ x) t (b ∷ y) (suc n) h =
    ap (λ r. bit_xor a b ∷ r) (memxor-append x t y n (omega arith))

-- Once a difference was met the result stays 0.
equals_loop_zero : (a b : Bytes) (n : ℕ) → equals_loop 0 a b n ≡ 0
unfolding equals_loop
equals_loop_zero a b zero = refl
equals_loop_zero [] b (suc n) = equals_loop_zero [] b n
equals_loop_zero (x ∷ a) [] (suc n) = equals_loop_zero a [] n
equals_loop_zero (x ∷ a) (y ∷ b) (suc n) = ground (arith, equals_loop_zero a b n)

equals_sound :
    (a b : Bytes) (n : ℕ) → n ≤ length a → n ≤ length b → equals a b n ≡ 1 → take n a ≡ take n b
unfolding equals
equals_sound a b zero ha hb e = refl
equals_sound [] b (suc n) ha hb e = absurd (omega arith)
equals_sound (x ∷ a) [] (suc n) ha hb e = absurd (omega arith)
equals_sound (x ∷ a) (y ∷ b) (suc n) ha hb e =
    ground (arith, equals_sound a b n, equals_loop_zero a b n)

equals_complete :
    (a b : Bytes) (n : ℕ) → n ≤ length a → n ≤ length b → take n a ≡ take n b → equals a b n ≡ 1
unfolding equals
equals_complete a b zero ha hb e = refl
equals_complete [] b (suc n) ha hb e = absurd (omega arith)
equals_complete (x ∷ a) [] (suc n) ha hb e = absurd (omega arith)
equals_complete (x ∷ a) (y ∷ b) (suc n) ha hb e = ground (arith, equals_complete a b n)

pub equals-le_one : (a b : Bytes) (n : ℕ) → n ≤ length a → n ≤ length b → equals a b n ≤ 1
unfolding equals
equals-le_one a b zero ha hb = omega arith
equals-le_one [] b (suc n) ha hb = absurd (omega arith)
equals-le_one (x ∷ a) [] (suc n) ha hb = absurd (omega arith)
equals-le_one (x ∷ a) (y ∷ b) (suc n) ha hb =
    ground (arith, equals-le_one a b n, equals_loop_zero a b n)

-- `equals` returns 1 exactly when the first `n` bytes agree, and 0 otherwise, for buffers that
-- hold `n` bytes.
pub equals_iff :
    (a b : Bytes) (n : ℕ)
    → n ≤ length a
    → n ≤ length b
    → ((equals a b n ≡ 1) ↔ (take n a ≡ take n b)) × (equals a b n ≤ 1)
equals_iff a b n ha hb =
    ((equals_sound a b n ha hb, equals_complete a b n ha hb), equals-le_one a b n ha hb)
