-- ===== src/Record/Nonces.antt =====
-- dtls.c: dtls_prepare_record under a cipher suite, for messages that are sent one after another: the
-- nonces that the records are sealed with.
use tinydtls.Base.{
  take-append_length, replicate, drop-append_length, All, Bytes, List, Option, Option-cases, [], ap,
  concat, drop, false, inl, inr, length, refl, some, sym, take, u64, ℕ, ◌∙◌, ◌+◌, ◌++◌, ◌==◌, ◌∷◌,
  ◌≡◌, ◌≢◌, ◌≤◌, ◌^◌,
}
use tinydtls.Alert.{Result, Result-cases, fail, ok}
use tinydtls.Crypto.{Role, kb_local_iv, kb_local_write_key}
use tinydtls.Global.{dtls_max_buf}
use tinydtls.Header.{Security, set_record_header}
use tinydtls.Numeric.{int_to_uint8, int_to_uint16, int_to_uint48}
use tinydtls.Record.{
  additional_data, ccm_nonce, copy_parts, dtls_encrypt, dtls_prepare_record, sealed_record,
  tls_null_with_null_null,
}
use tinydtls.Record.Fresh.{
  AllDiffer, Differ, counted, number_of, prepared, prepared-AllDiffer, prepared-counted,
}
use tinydtls.Record.RoundTrip.{copy_parts_sound}

module _ (set_key : Bytes → Option (Bytes → Bytes)) (role : Role) (key_block : Bytes) where
  -- The nonce of a record as its receiver makes it: the salt of the key block, and the eight bytes
  -- behind the header of the record.
  abbrev pub nonce_of : Bytes → Bytes
  nonce_of r = ccm_nonce (kb_local_iv key_block role) (take 8 (drop 13 r))

  -- A record, where one was made, carries the ciphertext of the parts of a message under its nonce
  -- and the key of this end, with the number, type and version of its header as additional data.
  abbrev pub SealedAs : ℕ × List Bytes → Result Bytes → Type 0
  SealedAs (type, parts) (ok r) =
      (take 1 r ≡ int_to_uint8 type)
      × (dtls_encrypt set_key (concat parts) (nonce_of r) (kb_local_write_key key_block role)
            (additional_data r (length (concat parts)))
          ≡ ok (drop 21 r))
  SealedAs m (fail n) = Unit

  -- One result for each message, and each record is sealed.
  abbrev pub AllSealed : List (ℕ × List Bytes) → List (Result Bytes) → Type 0
  AllSealed [] [] = Unit
  AllSealed [] (r ∷ rs) = ⊥
  AllSealed (m ∷ ms) [] = ⊥
  AllSealed (m ∷ ms) (r ∷ rs) = SealedAs m r × AllSealed ms rs

  -- Two results that are both records have two nonces.
  abbrev pub OwnNonce : Result Bytes → Result Bytes → Type 0
  OwnNonce (ok a) (ok b) = nonce_of a ≢ nonce_of b
  OwnNonce (ok a) (fail n) = Unit
  OwnNonce (fail n) b = Unit

  abbrev pub AllOwnNonce : List (Result Bytes) → Type 0
  AllOwnNonce [] = Unit
  AllOwnNonce (r ∷ rs) = All (OwnNonce r) rs × AllOwnNonce rs

  -- The eight bytes behind the header of a record are the number of its header.
  abbrev Numbered : Result Bytes → Type 0
  Numbered (ok r) = (take 8 (drop 13 r) ≡ number_of r) × (length (number_of r) ≡ 8)
  Numbered (fail n) = Unit

  nonce-number :
      (a b : Bytes)
      → Numbered (ok a)
      → Numbered (ok b)
      → nonce_of a ≡ nonce_of b
      → number_of a ≡ number_of b
  nonce-number a b (ea, la) (eb, lb) same =
      let iv = kb_local_iv key_block role in
      let explicit : (e : Bytes) → length e ≡ 8 → take 8 (drop (length iv) (ccm_nonce iv e)) ≡ e =
        λ e size.
          rw (drop-append_length (length iv) iv (e ++ replicate 4 0) refl)
            (take-append_length 8 e (replicate 4 0) size) in
      let read = ap (λ (n : Bytes). take 8 (drop (length iv) n)) same in
      sym (explicit (number_of a) la)
      ∙ ap (λ (e : Bytes). take 8 (drop (length iv) (ccm_nonce iv e))) (sym ea)
      ∙ read
      ∙ ap (λ (e : Bytes). take 8 (drop (length iv) (ccm_nonce iv e))) eb
      ∙ explicit (number_of b) lb

  Differ-OwnNonce :
      (r : Result Bytes) (rs : List (Result Bytes))
      → Numbered r
      → All Numbered rs
      → All (Differ set_key role r) rs
      → All (OwnNonce r) rs
  Differ-OwnNonce r [] n ns d = tt
  Differ-OwnNonce (ok a) (ok b ∷ rs) n (m, ns) (d, ds) =
      (λ same. d (nonce-number a b n m same), Differ-OwnNonce (ok a) rs n ns ds)
  Differ-OwnNonce (ok a) (fail e ∷ rs) n (m, ns) (d, ds) = (tt, Differ-OwnNonce (ok a) rs n ns ds)
  Differ-OwnNonce (fail e) (r ∷ rs) n (m, ns) (d, ds) = (tt, Differ-OwnNonce (fail e) rs n ns ds)

  AllDiffer-AllOwnNonce :
      (rs : List (Result Bytes)) → All Numbered rs → AllDiffer set_key role rs → AllOwnNonce rs
  AllDiffer-AllOwnNonce [] ns d = tt
  AllDiffer-AllOwnNonce (r ∷ rs) (n, ns) (d, ds) =
      (Differ-OwnNonce r rs n ns d, AllDiffer-AllOwnNonce rs ns ds)

module _ (set_key : Bytes → Option (Bytes → Bytes)) (role : Role) where
  -- What sealed_record puts behind the header of a message's record.
  sealed_record_lem :
      (s : Security) (type : ℕ) (parts : List Bytes)
      → let r =
          sealed_record set_key s role dtls_max_buf (set_record_header type (some s)).0 parts in
        SealedAs set_key role s.key_block (type, parts) r × Numbered set_key role s.key_block r
  unfolding sealed_record set_record_header int_to_uint8 int_to_uint16 int_to_uint48
  sealed_record_lem s type parts =
      let header = (set_record_header type (some s)).0 in
      elim (Option-cases (copy_parts dtls_max_buf 8 parts)) [
        | inl e ↦ rw (e, sealed_record) (tt, tt)
        | inr (payload, e) ↦
            let whole = copy_parts_sound dtls_max_buf 8 parts {p = payload} e in
            elim (Result-cases (
              dtls_encrypt set_key payload
                (ccm_nonce (kb_local_iv s.key_block role) (take 8 (drop 3 header)))
                (kb_local_write_key s.key_block role) (additional_data header (length payload)))) [
                  | inl (c, f) ↦ rw (e, sealed_record, f) ((refl, rw (← whole) f), (refl, refl))
                  | inr (n, f) ↦ rw (e, sealed_record, f) (tt, tt)
                ]
      ]

  prepare_record_lem :
      (s : Security) (type : ℕ) (parts : List Bytes)
      → (s.cipher == tls_null_with_null_null) ≡ false
      → let r = (dtls_prepare_record set_key (some s) role type parts dtls_max_buf).0 in
        SealedAs set_key role s.key_block (type, parts) r × Numbered set_key role s.key_block r
  unfolding dtls_prepare_record
  prepare_record_lem s type parts e = rw e (sealed_record_lem s type parts)

  counted-AllSealed :
      (s : Security) (messages : List (ℕ × List Bytes))
      → (s.cipher == tls_null_with_null_null) ≡ false
      → AllSealed set_key role s.key_block messages (counted set_key role s messages)
        × All (Numbered set_key role s.key_block) (counted set_key role s messages)
  counted-AllSealed s [] e = (tt, tt)
  counted-AllSealed s ((type, parts) ∷ messages) e =
      let (first, number) = prepare_record_lem s type parts e in
      let (later, numbers) = counted-AllSealed (record s { rseq = u64 (s.rseq + 1) }) messages e in
      ((first, later), (number, numbers))

  -- The records that are prepared one after another with the security parameters of one epoch and a
  -- cipher suite, each with those that the one before has left: there is one result for each message,
  -- which is an error or a record that carries the type of the message and the ciphertext of its parts
  -- under the nonce that a receiver reads from the record; and no two of the records have the same
  -- nonce, as long as the counter stays below 2 ^ 48, where the header cuts it.
  pub prepared-AllOwnNonce :
      (s : Security) (messages : List (ℕ × List Bytes))
      → (s.cipher == tls_null_with_null_null) ≡ false
      → s.rseq + length messages ≤ 2 ^ 48
      → AllSealed set_key role s.key_block messages (prepared set_key role (some s) messages)
        × AllOwnNonce set_key role s.key_block (prepared set_key role (some s) messages)
  prepared-AllOwnNonce s messages e fits =
      let (sealed, numbers) = counted-AllSealed s messages e in
      let differ = prepared-AllDiffer set_key role s messages fits in
      let by = prepared-counted set_key role s messages in
      (rw by sealed, AllDiffer-AllOwnNonce set_key role s.key_block _ (rw by numbers) differ)
