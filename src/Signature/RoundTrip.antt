-- ===== src/Signature/RoundTrip.antt =====
-- A signature element that is written is read back.
use tinydtls.Base.{
  All, Bool-cases, List, ap₂, inl, inr, leb, ◌==◌, ◌^◌, shr, u16, u8, ◌≤◌, Option, [], ◌∙◌, ◌∷◌,
  Bytes, ap, append_assoc, arith, drop-append_length, false, length, length-append, ltb, refl, some,
  sym, take-append_length, ℕ, ◌++◌, ◌+◌, ◌-◌, ◌≡◌,
}
use tinydtls.Signature.{
  add_ecdsa_signature_elem, signature_elem, ok, second_integer, check_ecdsa_signature_elem,
  point_at,
}
use tinydtls.Signature.Ecdsa.{ec_key_from_uint32}
use tinydtls.Signature.Encoding.{sign_pad, length-ec_key_from_uint32, ec_key_asn1_lem}
use tinydtls.Numeric.{int_to_uint8, int_to_uint16, uint16_to_int}
use tinydtls.Numeric.RoundTrip.{uint16_to_int-int_to_uint16}
use tinydtls.Handshake.{after}

-- The last 32 bytes of an integer that ends behind `front` and a pad.
point_at_lem :
    (front pad r rest : Bytes) (place i : ℕ)
    → place ≡ length front
    → i ≡ length pad + 32
    → length r ≡ 32
    → point_at (front ++ (pad ++ (r ++ rest))) place i ≡ some r
unfolding point_at
point_at_lem front pad r rest place i p l h =
    let inside : ltb (place + i) 32 ≡ false = ground (arith, p, l) in
    let skip : place + i - 32 ≡ length (front ++ pad) =
      omega (arith, p, l, length-append front pad) in
    let cut = drop-append_length (length (front ++ pad)) (front ++ pad) (r ++ rest) refl in
    rw (inside, skip, sym (append_assoc front pad (r ++ rest)), cut)
      (ap some (take-append_length 32 r rest h))

-- The second integer behind `front`.
second_integer_lem :
    (front pad s after : Bytes) (pos next j : ℕ) (r : Option Bytes)
    → next ≡ length front
    → j ≡ length pad + 32
    → length s ≡ 32
    → second_integer (front ++ (2 ∷ j ∷ (pad ++ (s ++ after)))) pos next r
      ≡ ok (r, (some s, next + 2 + j - pos))
unfolding second_integer
second_integer_lem front pad s after pos next j r p l h =
    let cut = drop-append_length next front (2 ∷ j ∷ (pad ++ (s ++ after))) (sym p) in
    let shifted = sym (append_assoc front (2 ∷ j ∷ []) (pad ++ (s ++ after))) in
    let there : next + 2 ≡ length (front ++ (2 ∷ j ∷ [])) =
      omega (arith, p, length-append front (2 ∷ j ∷ [])) in
    rw (cut, shifted, point_at_lem (front ++ (2 ∷ j ∷ [])) pad s after (next + 2) j there l h) refl

-- The head of the element and the first integer.
first_integer_lem :
    (before pad r rest : Bytes) (hi lo l i pos n : ℕ)
    → pos ≡ length before
    → ltb (n - 2) (uint16_to_int (hi ∷ lo ∷ 48 ∷ l ∷ 2 ∷ i ∷ (pad ++ (r ++ rest)))) ≡ false
    → ltb (n - 5) l ≡ false
    → i ≡ length pad + 32
    → length r ≡ 32
    → let msg = before ++ (4 ∷ 3 ∷ hi ∷ lo ∷ 48 ∷ l ∷ 2 ∷ i ∷ (pad ++ (r ++ rest))) in
      check_ecdsa_signature_elem msg pos n ≡ second_integer msg pos (pos + 8 + i) (some r)
unfolding check_ecdsa_signature_elem
first_integer_lem before pad r rest hi lo l i pos n p outer inner k h =
    let head : Bytes = 4 ∷ 3 ∷ hi ∷ lo ∷ 48 ∷ l ∷ 2 ∷ i ∷ [] in
    let elem : Bytes = head ++ (pad ++ (r ++ rest)) in
    let cut = drop-append_length pos before elem (sym p) in
    let there : pos + 8 ≡ length (before ++ head) = omega (arith, p, length-append before head) in
    let point : point_at (before ++ elem) (pos + 8) i ≡ some r =
      ap (λ (m : Bytes). point_at m (pos + 8) i)
        (sym (append_assoc before head (pad ++ (r ++ rest))))
      ∙ point_at_lem (before ++ head) pad r rest (pos + 8) i there k h in
    rw (cut, outer, inner) (ap (second_integer (before ++ elem) pos (pos + 8 + i)) point)

module _ (before pr r ps s after : Bytes) (hr : length r ≡ 32) (hs : length s ≡ 32)
    (short_r : length pr ≤ 1) (short_s : length ps ≤ 1) where
  abbrev total : ℕ
  total = length (pr ++ r) + length (ps ++ s)

  abbrev rest_of : Bytes
  rest_of = 2 ∷ u8 (length (ps ++ s)) ∷ (ps ++ (s ++ after))

  elem_form :
      signature_elem (pr ++ r) (ps ++ s) ++ after
      ≡ 4
        ∷ 3
        ∷ u8 (shr (u16 (total + 2 + 2 + 2)) 8)
        ∷ u8 (u16 (total + 2 + 2 + 2))
        ∷ 48
        ∷ u8 (total + 2 + 2)
        ∷ 2
        ∷ u8 (length (pr ++ r))
        ∷ (pr ++ (r ++ rest_of))
  unfolding signature_elem int_to_uint8 int_to_uint16
  elem_form =
      let second : Bytes = 2 ∷ u8 (length (ps ++ s)) ∷ (ps ++ s) in
      ap
        (λ (t : Bytes).
          4
          ∷ 3
          ∷ u8 (shr (u16 (total + 2 + 2 + 2)) 8)
          ∷ u8 (u16 (total + 2 + 2 + 2))
          ∷ 48
          ∷ u8 (total + 2 + 2)
          ∷ 2
          ∷ u8 (length (pr ++ r))
          ∷ t)
        (append_assoc (pr ++ r) second after
          ∙ append_assoc pr r (second ++ after)
          ∙ ap (λ (t : Bytes). pr ++ (r ++ (2 ∷ u8 (length (ps ++ s)) ∷ t)))
              (append_assoc ps s after))

  lengths : (length (pr ++ r) ≡ length pr + 32) × (length (ps ++ s) ≡ length ps + 32)
  lengths = (omega (arith, length-append pr r, hr), omega (arith, length-append ps s, hs))

  abbrev head_bytes : Bytes
  head_bytes =
      4
      ∷ 3
      ∷ u8 (shr (u16 (total + 2 + 2 + 2)) 8)
      ∷ u8 (u16 (total + 2 + 2 + 2))
      ∷ 48
      ∷ u8 (total + 2 + 2)
      ∷ 2
      ∷ u8 (length (pr ++ r))
      ∷ []

  -- An element with two integers of 32 bytes, each behind at most one more byte.
  elem_read :
      (n : ℕ)
      → total + 10 ≤ n
      → check_ecdsa_signature_elem
          (before ++ (signature_elem (pr ++ r) (ps ++ s) ++ after))
          (length before)
          n
        ≡ ok (some r, (some s, total + 10))
  unfolding int_to_uint16
  elem_read n enough =
      let sizes = lengths in
      let i = u8 (length (pr ++ r)) in
      let j = u8 (length (ps ++ s)) in
      let i_is : i ≡ length pr + 32 = omega (arith, sizes.0, short_r) in
      let j_is : j ≡ length ps + 32 = omega (arith, sizes.1, short_s) in
      let tail : Bytes = 48 ∷ u8 (total + 2 + 2) ∷ 2 ∷ i ∷ (pr ++ (r ++ rest_of)) in
      let field = uint16_to_int-int_to_uint16 (total + 2 + 2 + 2) tail in
      let front : Bytes = before ++ (head_bytes ++ (pr ++ r)) in
      let next : length before + 8 + i ≡ length front = omega (
        arith,
        i_is,
        sizes.0,
        length-append before (head_bytes ++ (pr ++ r)),
        length-append head_bytes (pr ++ r),
      ) in
      let outer : ltb (n - 2) (
            uint16_to_int
              (u8 (shr (u16 (total + 2 + 2 + 2)) 8) ∷ u8 (u16 (total + 2 + 2 + 2)) ∷ tail))
          ≡ false =
        ground (arith, field, enough, sizes.0, sizes.1, short_r, short_s) in
      let inner : ltb (n - 5) (u8 (total + 2 + 2)) ≡ false =
        ground (arith, enough, sizes.0, sizes.1, short_r, short_s) in
      let same : before ++ (head_bytes ++ (pr ++ (r ++ rest_of))) ≡ front ++ rest_of = sym (
        append_assoc before (head_bytes ++ (pr ++ r)) rest_of
        ∙ ap (λ (t : Bytes). before ++ t) (append_assoc head_bytes (pr ++ r) rest_of)
        ∙ ap (λ (t : Bytes). before ++ (head_bytes ++ t)) (append_assoc pr r rest_of)) in
      let count : length before + 8 + i + 2 + j - length before ≡ total + 10 =
        omega (arith, i_is, j_is, sizes.0, sizes.1) in
      ap (λ (m : Bytes). check_ecdsa_signature_elem (before ++ m) (length before) n) elem_form
      ∙ first_integer_lem before pr r rest_of _ _ _ i (length before) n refl outer inner i_is hr
      ∙ ap (λ (m : Bytes). second_integer m (length before) (length before + 8 + i) (some r)) same
      ∙ second_integer_lem front ps s after (length before) (length before + 8 + i) j (some r) next
          j_is hs
      ∙ ap (λ (c : ℕ). ok (some r, (some s, c))) count

length-signature_elem : (r s : Bytes) → length (signature_elem r s) ≡ length r + length s + 10
unfolding signature_elem int_to_uint8 int_to_uint16
length-signature_elem r s = omega (arith, length-append r (2 ∷ u8 (length s) ∷ s))

length-sign_pad : (k : ℕ) → length (sign_pad k) ≤ 1
length-sign_pad k = elim (Bool-cases (leb (2 ^ 31) k)) [
  | inl negative ↦ rw negative (omega arith)
  | inr positive ↦ rw positive (omega arith)
]

-- Eight words, of which the first has a bit among its upper nine and none is 0.
abbrev pub IsFull : ℕ → List ℕ → Type 0
IsFull k words = 2 ^ 23 ≤ k × All (λ (k : ℕ). (k == 0) ≡ false) words × length words ≡ 7

-- Such an element has at least 74 bytes.
pub length-add_ecdsa_signature_elem :
    (k l : ℕ) (ks ls : List ℕ)
    → IsFull k ks
    → IsFull l ls
    → 74 ≤ length (add_ecdsa_signature_elem (k ∷ ks) (l ∷ ls))
length-add_ecdsa_signature_elem k l ks ls full_r full_s =
    let r = ec_key_from_uint32 (k ∷ ks) in
    let s = ec_key_from_uint32 (l ∷ ls) in
    let elem_is =
      ap₂ signature_elem (ec_key_asn1_lem k ks full_r.0 full_r.1)
        (ec_key_asn1_lem l ls full_s.0 full_s.1) in
    let size =
      ap (λ (t : Bytes). length t) elem_is
      ∙ length-signature_elem (sign_pad k ++ r) (sign_pad l ++ s) in
    omega (
      arith,
      size,
      length-append (sign_pad k) r,
      length-append (sign_pad l) s,
      length-ec_key_from_uint32 (k ∷ ks),
      length-ec_key_from_uint32 (l ∷ ls),
      full_r.2,
      full_s.2,
    )

-- What dtls_add_ecdsa_signature_elem writes for two numbers is read back by
-- dtls_check_ecdsa_signature_elem wherever it stands in a message: it points at the 32 bytes of each number, and
-- takes the whole element. No word of the numbers is 0, the first word of each has a bit among its
-- upper nine, and the data length that is passed covers the element.
pub check_ecdsa_signature_elem-add :
    (before after : Bytes) (k l : ℕ) (ks ls : List ℕ) (n : ℕ)
    → IsFull k ks
    → IsFull l ls
    → length (add_ecdsa_signature_elem (k ∷ ks) (l ∷ ls)) ≤ n
    → let elem = add_ecdsa_signature_elem (k ∷ ks) (l ∷ ls) in
      check_ecdsa_signature_elem (before ++ (elem ++ after)) (length before) n
      ≡ ok (some (ec_key_from_uint32 (k ∷ ks)), (some (ec_key_from_uint32 (l ∷ ls)), length elem))
check_ecdsa_signature_elem-add before after k l ks ls n full_r full_s enough =
    let pr = sign_pad k in
    let ps = sign_pad l in
    let r = ec_key_from_uint32 (k ∷ ks) in
    let s = ec_key_from_uint32 (l ∷ ls) in
    let hr : length r ≡ 32 = omega (arith, length-ec_key_from_uint32 (k ∷ ks), full_r.2) in
    let hs : length s ≡ 32 = omega (arith, length-ec_key_from_uint32 (l ∷ ls), full_s.2) in
    let er = ec_key_asn1_lem k ks full_r.0 full_r.1 in
    let es = ec_key_asn1_lem l ls full_s.0 full_s.1 in
    let elem_is : add_ecdsa_signature_elem (k ∷ ks) (l ∷ ls) ≡ signature_elem (pr ++ r) (ps ++ s) =
      ap₂ signature_elem er es in
    let size = ap (λ (t : Bytes). length t) elem_is ∙ length-signature_elem (pr ++ r) (ps ++ s) in
    ap (λ (t : Bytes). check_ecdsa_signature_elem (before ++ (t ++ after)) (length before) n)
      elem_is
    ∙ elem_read before pr r ps s after hr hs (length-sign_pad k) (length-sign_pad l) n
        (omega (arith, size, enough))
    ∙ ap (λ (c : ℕ). ok (some r, (some s, c))) (sym size)
