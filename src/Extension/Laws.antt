-- ===== src/Extension/Laws.antt =====
-- The loop over the extensions ends.
use tinydtls.Extension.{Seen, one_extension, extension_loop}
use tinydtls.Base.{
  Bool, Bool-cases, Bytes, arith, drop, inl, inr, ltb, suc, zero, ℕ, ◌-◌, ◌<◌, ◌==◌, ◌≡◌,
}
use tinydtls.Numeric.{uint16_to_int}
use tinydtls.Alert.{Result-cases}

-- As many rounds as there are bytes and one more are enough: any two such numbers of rounds give the
-- same, so that the loop's own result does not depend on the count.
pub extension_loop-rounds :
    (rounds rounds' : ℕ) (client_hello : Bool) (d : Bytes) (n : ℕ) (seen : Seen)
    → n < rounds
    → n < rounds'
    → extension_loop rounds client_hello d n seen ≡ extension_loop rounds' client_hello d n seen
unfolding extension_loop
extension_loop-rounds zero r client_hello d n seen h h' = absurd (omega arith)
extension_loop-rounds (suc rounds) zero client_hello d n seen h h' = absurd (omega arith)
extension_loop-rounds (suc rounds) (suc rounds') client_hello d n seen h h' =
    elim (Bool-cases (n == 0)) [
      | inl empty ↦ rw empty
      | inr some_left ↦ elim (Bool-cases (ltb n 4)) [
        | inl short ↦ rw (some_left, short)
        | inr head ↦ elim (Bool-cases (ltb (n - 4) (uint16_to_int (drop 2 d)))) [
          | inl long ↦ rw (some_left, head, long)
          | inr fits ↦
              elim (Result-cases (
                one_extension client_hello (uint16_to_int d) (drop 4 d) (uint16_to_int (drop 2 d))
                  seen)) [
                    | inr (e, failed) ↦ rw (some_left, head, fits, failed)
                    | inl (next, passed) ↦
                        rw (some_left, head, fits, passed)
                          (extension_loop-rounds rounds rounds' client_hello _ _ next (ground arith)
                            (ground arith))
                  ]
        ]
      ]
    ]
