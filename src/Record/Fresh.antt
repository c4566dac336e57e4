-- ===== src/Record/Fresh.antt =====
-- The sequence numbers in the headers of the records of one epoch.
use tinydtls.Record.{
  additional_data, ccm_nonce, tls_null_with_null_null, plain_record, sealed_record,
  dtls_prepare_record, dtls_encrypt, copy_parts,
}
use tinydtls.Crypto.{kb_local_write_key, kb_local_iv, Role}
use tinydtls.Alert.{fail, ok, Result, Result-cases}
use tinydtls.Base.{
  refl, inr, ◌∙◌, sym, inl, ap, arith, ◌%◌, ◌==◌, ◌≡◌, Bool-cases, [], u64, length, All,
  Option-cases, some, ◌+◌, ◌∷◌, ◌≢◌, List, ◌^◌, ◌≤◌, drop, ◌++◌, ◌<◌, Option, take, ℕ, Bytes,
}
use tinydtls.Numeric.RoundTrip.{uint48_to_int-int_to_uint48}
use tinydtls.Global.{dtls_max_buf}
use tinydtls.Numeric.{uint48_to_int, int_to_uint8, int_to_uint48, int_to_uint16}
use tinydtls.Header.{Security, set_record_header}

-- Epoch and sequence number, which stand behind type and version.
abbrev pub number_of : Bytes → Bytes
number_of r = take 8 (drop 3 r)

abbrev pub number_bytes : ℕ → ℕ → Bytes
number_bytes epoch k = int_to_uint16 epoch ++ int_to_uint48 k

-- Two records with one number, for numbers of 48 bits.
number_bytes-ne :
    (epoch j k : ℕ) → j < 2 ^ 48 → k < 2 ^ 48 → j ≢ k → number_bytes epoch j ≢ number_bytes epoch k
unfolding int_to_uint16
number_bytes-ne epoch j k hj hk differ same =
    let read : (n : ℕ) → uint48_to_int (int_to_uint48 n ++ []) ≡ n % 2 ^ 48 =
      λ n. uint48_to_int-int_to_uint48 n [] in
    let behind = ap (λ (b : Bytes). uint48_to_int (drop 2 b ++ [])) same in
    differ (omega (arith, read j, read k, behind, hj, hk))

module _ (set_key : Bytes → Option (Bytes → Bytes)) (role : Role) where
  -- The results of dtls_prepare_record for messages that are sent one after another, each a content type
  -- with its parts, and each with the security parameters that the one before has left.
  abbrev pub prepared : Option Security → List (ℕ × List Bytes) → List (Result Bytes)
  prepared security [] = []
  prepared security ((type, parts) ∷ messages) =
      let (r, used) = dtls_prepare_record set_key security role type parts dtls_max_buf in
      r ∷ prepared used messages

  -- The same with the counter moved on by hand.
  abbrev pub counted : Security → List (ℕ × List Bytes) → List (Result Bytes)
  counted s [] = []
  counted s ((type, parts) ∷ messages) =
      (dtls_prepare_record set_key (some s) role type parts dtls_max_buf).0
      ∷ counted (record s { rseq = u64 (s.rseq + 1) }) messages

  prepare_record-moves :
      (s : Security) (type : ℕ) (parts : List Bytes)
      → (dtls_prepare_record set_key (some s) role type parts dtls_max_buf).1
        ≡ some (record s { rseq = u64 (s.rseq + 1) })
  unfolding dtls_prepare_record set_record_header
  prepare_record-moves s type parts = elim (Bool-cases (s.cipher == tls_null_with_null_null)) [
    | inl e ↦ rw e refl
    | inr e ↦ rw e refl
  ]

  pub prepared-counted :
      (s : Security) (messages : List (ℕ × List Bytes))
      → prepared (some s) messages ≡ counted s messages
  prepared-counted s [] = refl
  prepared-counted s ((type, parts) ∷ messages) =
      rw
        (
          prepare_record-moves s type parts,
          prepared-counted (record s { rseq = u64 (s.rseq + 1) }) messages,
        )
        refl

  -- Where a record was made, it begins with the header.
  abbrev Begins : Bytes → Result Bytes → Type 0
  Begins header (ok r) = (rest : Bytes) × (r ≡ take 11 header ++ rest)
  Begins header (fail n) = Unit

  plain_record-Begins :
      (rlen : ℕ) (header : Bytes) (parts : List Bytes)
      → Begins header (plain_record set_key rlen header parts)
  unfolding plain_record
  plain_record-Begins rlen header parts = elim (Option-cases (copy_parts rlen 0 parts)) [
    | inl e ↦ rw (e, plain_record) tt
    | inr (payload, e) ↦ rw (e, plain_record) (_, refl)
  ]

  sealed_record-Begins :
      (s : Security) (rlen : ℕ) (header : Bytes) (parts : List Bytes)
      → Begins header (sealed_record set_key s role rlen header parts)
  unfolding sealed_record
  sealed_record-Begins s rlen header parts = elim (Option-cases (copy_parts rlen 8 parts)) [
    | inl e ↦ rw (e, sealed_record) tt
    | inr (payload, e) ↦
        elim (Result-cases (
          dtls_encrypt set_key payload
            (ccm_nonce (kb_local_iv s.key_block role) (take 8 (drop 3 header)))
            (kb_local_write_key s.key_block role) (additional_data header (length payload)))) [
              | inl (c, f) ↦ rw (e, sealed_record, f) (_, refl)
              | inr (n, f) ↦ rw (e, sealed_record, f) tt
            ]
  ]

  -- Where a record was made, it has the number of the parameters.
  abbrev HasNumber : ℕ → ℕ → Result Bytes → Type 0
  HasNumber epoch k (ok r) = number_of r ≡ number_bytes epoch k
  HasNumber epoch k (fail n) = Unit

  Begins-HasNumber :
      (s : Security) (type : ℕ) (r : Result Bytes)
      → Begins (set_record_header type (some s)).0 r
      → HasNumber s.epoch s.rseq r
  unfolding set_record_header int_to_uint8 int_to_uint16 int_to_uint48
  Begins-HasNumber s type (ok r) (rest, e) = rw e refl
  Begins-HasNumber s type (fail n) h = tt

  prepare_record-HasNumber :
      (s : Security) (type : ℕ) (parts : List Bytes)
      → HasNumber s.epoch s.rseq
          (dtls_prepare_record set_key (some s) role type parts dtls_max_buf).0
  unfolding dtls_prepare_record
  prepare_record-HasNumber s type parts =
      let header = (set_record_header type (some s)).0 in
      elim (Bool-cases (s.cipher == tls_null_with_null_null)) [
        | inl e ↦ rw e (Begins-HasNumber s type _ (plain_record-Begins dtls_max_buf header parts))
        | inr e ↦
            rw e (Begins-HasNumber s type _ (sealed_record-Begins s dtls_max_buf header parts))
      ]

  -- The number is at least n, and has 48 bits.
  abbrev AtLeast : ℕ → ℕ → Result Bytes → Type 0
  AtLeast epoch n (ok r) =
      (k : ℕ) × ((n ≤ k) × ((k < 2 ^ 48) × (number_of r ≡ number_bytes epoch k)))
  AtLeast epoch n (fail e) = Unit

  HasNumber-AtLeast :
      (epoch n k : ℕ) (r : Result Bytes)
      → n ≤ k
      → k < 2 ^ 48
      → HasNumber epoch k r
      → AtLeast epoch n r
  HasNumber-AtLeast epoch n k (ok r) le lt h = (k, (le, (lt, h)))
  HasNumber-AtLeast epoch n k (fail e) le lt h = tt

  counted-AtLeast :
      (s : Security) (n : ℕ) (messages : List (ℕ × List Bytes))
      → n ≤ s.rseq
      → s.rseq + length messages ≤ 2 ^ 48
      → All (AtLeast s.epoch n) (counted s messages)
  counted-AtLeast s n [] le fits = tt
  counted-AtLeast s n ((type, parts) ∷ messages) le fits =
      let moved : u64 (s.rseq + 1) ≡ s.rseq + 1 = omega (arith, fits) in
      (
        HasNumber-AtLeast s.epoch n s.rseq _ le (omega (arith, fits))
            (prepare_record-HasNumber s type parts),
        counted-AtLeast (record s { rseq = u64 (s.rseq + 1) }) n messages (omega (arith, moved, le))
            (omega (arith, moved, fits)),
      )

  -- Two results that are both records differ in epoch or sequence number.
  abbrev pub Differ : Result Bytes → Result Bytes → Type 0
  Differ (ok a) (ok b) = number_of a ≢ number_of b
  Differ (ok a) (fail n) = Unit
  Differ (fail n) b = Unit

  abbrev pub AllDiffer : List (Result Bytes) → Type 0
  AllDiffer [] = Unit
  AllDiffer (r ∷ rs) = All (Differ r) rs × AllDiffer rs

  Differ-later :
      (epoch k : ℕ) (r : Result Bytes) (rs : List (Result Bytes))
      → k < 2 ^ 48
      → HasNumber epoch k r
      → All (AtLeast epoch (k + 1)) rs
      → All (Differ r) rs
  Differ-later epoch k r [] lt h later = tt
  Differ-later epoch k (ok a) (ok b ∷ rs) lt h ((j, (le, (lt_j, e))), later) = (
    λ same. number_bytes-ne epoch k j lt lt_j (omega (arith, le)) (sym h ∙ same ∙ e),
    Differ-later epoch k (ok a) rs lt h later,
  )
  Differ-later epoch k (ok a) (fail n ∷ rs) lt h (first, later) =
      (tt, Differ-later epoch k (ok a) rs lt h later)
  Differ-later epoch k (fail n) (b ∷ rs) lt h (first, later) =
      (tt, Differ-later epoch k (fail n) rs lt h later)

  counted-AllDiffer :
      (s : Security) (messages : List (ℕ × List Bytes))
      → s.rseq + length messages ≤ 2 ^ 48
      → AllDiffer (counted s messages)
  counted-AllDiffer s [] fits = tt
  counted-AllDiffer s ((type, parts) ∷ messages) fits =
      let moved : u64 (s.rseq + 1) ≡ s.rseq + 1 = omega (arith, fits) in
      let s' = record s { rseq = u64 (s.rseq + 1) } in
      (
        Differ-later s.epoch s.rseq _ (counted s' messages) (omega (arith, fits))
            (prepare_record-HasNumber s type parts)
            (counted-AtLeast s' (s.rseq + 1) messages (omega (arith, moved))
              (omega (arith, moved, fits))),
        counted-AllDiffer s' messages (omega (arith, moved, fits)),
      )

  -- The records that are prepared one after another with the security parameters of one epoch, each with
  -- those that the one before has left, all differ in the number of their header, as long as the counter
  -- stays below 2 ^ 48, where the header cuts it.
  pub prepared-AllDiffer :
      (s : Security) (messages : List (ℕ × List Bytes))
      → s.rseq + length messages ≤ 2 ^ 48
      → AllDiffer (prepared (some s) messages)
  prepared-AllDiffer s messages fits =
      rw (prepared-counted s messages) (counted-AllDiffer s messages fits)
