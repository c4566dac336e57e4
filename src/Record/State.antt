-- ===== src/Record/State.antt =====
-- decrypt_verify changes no part of the peer but the second security parameters.
use tinydtls.Crypto.{kb_remote_write_key, Role}
use tinydtls.Base.{
  sym, ◌-◌, length, ◌∙◌, drop, if◌then◌else◌, some, none, Bool-cases, Bytes, Option, Option-cases,
  inl, inr, ltb, refl, ◌==◌, ◌≡◌,
}
use tinydtls.Alert.{fail, ok, Result-cases}
use tinydtls.Record.{dtls_decrypt, tls_null_with_null_null, open_record, decrypt_verify}
use tinydtls.Header.{Security, record_epoch}
use tinydtls.Peer.{Peer, params_epoch, params_free_other}

module _ {A : Type 0} (f : Peer → A)
    (same : (p : Peer) → f (record p { params1 = none }) ≡ f p) where
  free_keeps :
      (p : Peer) (a b : Option Security)
      → f (elim a as (λ _. Peer) [
        | none ↦ p
        | some s ↦ elim b [
          | none ↦ p
          | some t ↦ if ltb s.epoch t.epoch then p else record p { params1 = none }
        ]
      ])
        ≡ f p
  free_keeps p none b = refl
  free_keeps p (some s) none = refl
  free_keeps p (some s) (some t) = elim (Bool-cases (ltb s.epoch t.epoch)) [
    | inl g ↦ rw g refl
    | inr g ↦ rw g (same p)
  ]

  params_free_other-keeps : (p : Peer) → f (params_free_other p) ≡ f p
  unfolding params_free_other
  params_free_other-keeps p = free_keeps p p.params0 p.params1

  pub decrypt_verify-keeps :
      (set_key : Bytes → Option (Bytes → Bytes)) (p : Peer) (msg : Bytes)
      → f (decrypt_verify set_key p msg).1 ≡ f p
  unfolding decrypt_verify
  decrypt_verify-keeps set_key p msg = elim (Option-cases (params_epoch p (record_epoch msg))) [
    | inl e ↦ rw (decrypt_verify, e) refl
    | inr (s, e) ↦ elim (Result-cases (open_record set_key s p.role msg)) [
      | inr (n, x) ↦ rw (decrypt_verify, e, x) refl
      | inl (clear, x) ↦ elim (Bool-cases (s.cipher == tls_null_with_null_null)) [
        | inl g ↦ rw (decrypt_verify, e, x, g) refl
        | inr g ↦ rw (decrypt_verify, e, x, g) (params_free_other-keeps p)
      ]
    ]
  ]

module _ (set_key : Bytes → Option (Bytes → Bytes))
    (none_for : (key : Bytes) → set_key key ≡ none) where
  open_record-no_key :
      (s : Security) (role : Role) (msg d : Bytes)
      → open_record set_key s role msg ≡ ok d
      → d ≡ drop 13 msg
  unfolding open_record dtls_decrypt
  open_record-no_key s role msg d h = elim (Bool-cases (s.cipher == tls_null_with_null_null)) [
    | inl e ↦
        let opened : open_record set_key s role msg ≡ ok (drop 13 msg) = rw e refl in cc (opened, h)
    | inr e ↦ elim (Bool-cases (ltb (length msg - 13) 16)) [
      | inl f ↦
          let opened : open_record set_key s role msg ≡ fail 1 = rw (e, f) refl in
          absurd (cc (opened, h))
      | inr f ↦
          let key = none_for (kb_remote_write_key s.key_block role) in
          let opened : open_record set_key s role msg ≡ fail 1 =
            rw (e, f, dtls_decrypt, key) refl in
          absurd (cc (opened, h))
    ]
  ]

  -- Where no key has a schedule, only the payload of a plain record comes out.
  pub decrypt_verify-no_key :
      (p : Peer) (msg d : Bytes) → (decrypt_verify set_key p msg).0 ≡ ok d → d ≡ drop 13 msg
  unfolding decrypt_verify
  decrypt_verify-no_key p msg d h = elim (Option-cases (params_epoch p (record_epoch msg))) [
    | inl e ↦
        let opened : (decrypt_verify set_key p msg).0 ≡ fail 1 = rw (decrypt_verify, e) refl in
        absurd (cc (opened, h))
    | inr (s, e) ↦ elim (Result-cases (open_record set_key s p.role msg)) [
      | inl (c, f) ↦
          let opened : (decrypt_verify set_key p msg).0 ≡ ok c = rw (decrypt_verify, e, f) refl in
          open_record-no_key s p.role msg d (f ∙ sym opened ∙ h)
      | inr (n, f) ↦
          let opened : (decrypt_verify set_key p msg).0 ≡ fail n = rw (decrypt_verify, e, f) refl in
          absurd (cc (opened, h))
    ]
  ]
