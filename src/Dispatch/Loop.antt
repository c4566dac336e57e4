-- ===== src/Dispatch/Loop.antt =====
-- The loop of dtls_handle_message: the invariant of Dispatch/Invariant for a whole datagram, and the
-- rounds that it needs.
use tinydtls.Base.{
  drop-drop, subst, sym, ◌+◌, [], ◌∷◌, All, Bool-cases, Bytes, List, Option, arith, drop, inl, inr,
  length, length-drop, none, refl, some, suc, take, zero, ℕ, ◌<◌, ◌==◌, ◌≡◌, ◌≤◌,
}
use tinydtls.Handshake.{Calls}
use tinydtls.Alert.{ok, fail, Result}
use tinydtls.Record.{decrypt_verify}
use tinydtls.Header.{dtls_rh_length, is_record, record_epoch}
use tinydtls.Dispatch.Table.{
  not_decrypted-AllLeft, on_handshake_record-AllLeft, on_ccs_record-AllLeft,
  on_alert_record-AllLeft,
}
use tinydtls.Dispatch.Records.{
  and_next, not_decrypted, dtls_handle_message, table, on_alert_record, on_application_record,
  on_payload, on_record, record_loop,
}
use tinydtls.Dispatch.{
  Peer, ct_change_cipher_spec, ct_alert, ct_handshake, ct_application_data, go, stop, fault,
  Services, Flow,
}
use tinydtls.Numeric.{byte_at}
use tinydtls.Peer.{Session}
use tinydtls.Cipher.{Context}
use tinydtls.Header.Laws.{is_record_bounds}
use tinydtls.Dispatch.Invariant.{AllLeft, Preserved}

and_next_same :
    {W : Type 0} (f : Flow W) (rest rest' : Option Peer → List Peer → W → Flow W)
    → ((peer : Option Peer) (others : List Peer) (w : W) → rest peer others w ≡ rest' peer others w)
    → and_next f rest ≡ and_next f rest'
and_next_same (go peer others w) rest rest' same = same peer others w
and_next_same (stop r entries w) rest rest' same = refl
and_next_same fault rest rest' same = refl

and_next-AllLeft :
    {W : Type 0} (Q : Peer → Type 0) (f : Flow W) (rest : Option Peer → List Peer → W → Flow W)
    → AllLeft Q f
    → ((peer : Option Peer) (others : List Peer) (w : W)
        → All Q (table peer others)
        → AllLeft Q (rest peer others w))
    → AllLeft Q (and_next f rest)
and_next-AllLeft Q (go peer others w) rest h keeps = keeps peer others w h
and_next-AllLeft Q (stop r entries w) rest h keeps = h
and_next-AllLeft Q fault rest h keeps = tt

module _ (set_key : Bytes → Option (Bytes → Bytes)) (M : Bytes → Type 0) where
  -- What the record holds has the property, for a peer that can open it and for none.
  abbrev pub Opens : Bytes → Type 0
  Opens msg =
      ((p : Peer) (d : Bytes) → (decrypt_verify set_key p msg).0 ≡ ok d → M d)
      × M (drop dtls_rh_length msg)

  -- The same for every part of a datagram.
  abbrev pub Arrives : Bytes → Type 0
  Arrives msg = (i n : ℕ) → Opens (take n (drop i msg))

  Arrives-drop : (msg : Bytes) (k : ℕ) → Arrives msg → Arrives (drop k msg)
  Arrives-drop msg k h i n =
      subst (λ (xs : Bytes). Opens (take n xs)) (sym (drop-drop i k msg)) (h (k + i) n)

module _ {W : Type 0} (ctx : Context) (calls : Calls W) (services : Services W)
    (set_key : Bytes → Option (Bytes → Bytes)) (session : Session) where
  -- The loop of dtls_handle_message over the records of a datagram ends: any two counts of rounds that
  -- are greater than the number of its bytes give the same, so that the loop ends by itself before the count does.
  pub record_loop-rounds :
      (rounds rounds' : ℕ) (peer : Option Peer) (others : List Peer) (msg : Bytes) (w : W)
      → length msg < rounds
      → length msg < rounds'
      → record_loop ctx calls services set_key rounds peer others session msg w
        ≡ record_loop ctx calls services set_key rounds' peer others session msg w
  unfolding record_loop
  record_loop-rounds zero r peer others msg w h h' = absurd (omega arith)
  record_loop-rounds (suc rounds) zero peer others msg w h h' = absurd (omega arith)
  record_loop-rounds (suc rounds) (suc rounds') peer others msg w h h' =
      elim (is_record_bounds msg) [
        | inl none_there ↦ rw none_there refl
        | inr bounds ↦
            let rlen = is_record msg in
            let shorter : suc (length (drop rlen msg)) ≤ length msg =
              omega (arith, length-drop rlen msg, bounds) in
            elim (Bool-cases (rlen == 0)) [
              | inl zero_length ↦ rw zero_length refl
              | inr some_there ↦ rw some_there (
                  and_next_same
                    (on_record ctx calls services set_key peer others session (take rlen msg) w) _ _
                    (λ peer others w.
                      record_loop-rounds rounds rounds' peer others (drop rlen msg) w
                        (omega (arith, shorter, h)) (omega (arith, shorter, h'))))
            ]
      ]

  module _ (M : Bytes → Type 0) (Q : Peer → Type 0)
      (keep : Preserved ctx calls services set_key session M Q) where
    on_payload-AllLeft :
        (peer : Option Peer) (others : List Peer) (msg d : Bytes) (w : W)
        → M d
        → All Q (table peer others)
        → AllLeft Q (on_payload ctx calls services peer others session msg d w)
    unfolding on_payload on_alert_record on_application_record
    on_payload-AllLeft peer others msg d w m h =
        elim (Bool-cases (byte_at msg 0 == ct_change_cipher_spec)) [
          | inl ccs ↦
              rw ccs (
                on_ccs_record-AllLeft ctx calls services set_key session M Q keep peer others d w h)
          | inr a ↦ elim (Bool-cases (byte_at msg 0 == ct_alert)) [
            | inl alert ↦
                rw (a, alert)
                  (on_alert_record-AllLeft ctx calls services set_key session M Q keep peer others d
                    w h)
            | inr b ↦ elim (Bool-cases (byte_at msg 0 == ct_handshake)) [
              | inl handshake ↦
                  rw (a, b, handshake)
                    (on_handshake_record-AllLeft ctx calls services set_key session M Q keep peer
                      others (record_epoch msg) d w m h)
              | inr c ↦ elim (Bool-cases (byte_at msg 0 == ct_application_data)) [
                | inl app ↦ rw (a, b, c, app) (application peer h)
                | inr other ↦ rw (a, b, c, other) (unchanged peer h)
              ]
            ]
          ]
        ]
      where
        unchanged : (peer : Option Peer) → All Q (table peer others) → AllLeft Q (go peer others w)
        unchanged peer h = h

        application :
            (peer : Option Peer)
            → All Q (table peer others)
            → AllLeft Q (on_application_record ctx calls services peer others d w)
        application none h = h
        application (some p) h = h

    opened-AllLeft :
        (others : List Peer) (msg : Bytes) (w : W)
        → All Q others
        → (opened : Result Bytes × Peer) → ((d : Bytes) → opened.0 ≡ ok d → M d)
        → Q opened.1
        → AllLeft Q (elim opened.0 as (λ _. Flow W) [
          | fail n ↦ not_decrypted ctx calls services opened.1 others w
          | ok d ↦ on_payload ctx calls services (some opened.1) others session msg d w
        ])
    opened-AllLeft others msg w rest (fail n, p) m good =
        not_decrypted-AllLeft ctx calls services set_key session M Q keep p others w good rest
    opened-AllLeft others msg w rest (ok d, p) m good =
        on_payload-AllLeft (some p) others msg d w (m d refl) (good, rest)

    on_record-AllLeft :
        (peer : Option Peer) (others : List Peer) (msg : Bytes) (w : W)
        → Opens set_key M msg
        → All Q (table peer others)
        → AllLeft Q (on_record ctx calls services set_key peer others session msg w)
    unfolding on_record
    on_record-AllLeft none others msg w m h =
        on_payload-AllLeft none others msg (drop dtls_rh_length msg) w m.1 h
    on_record-AllLeft (some p) others msg w m h =
        opened-AllLeft others msg w h.1 (decrypt_verify set_key p msg) (m.0 p)
          (keep.decrypted p msg h.0)

    record_loop-AllLeft :
        (rounds : ℕ) (peer : Option Peer) (others : List Peer) (msg : Bytes) (w : W)
        → Arrives set_key M msg
        → All Q (table peer others)
        → AllLeft Q (record_loop ctx calls services set_key rounds peer others session msg w)
    unfolding record_loop
    record_loop-AllLeft zero peer others msg w m h = h
    record_loop-AllLeft (suc rounds) peer others msg w m h =
        elim (Bool-cases (is_record msg == 0)) [
          | inl over ↦ rw over h
          | inr more ↦ rw more (
              and_next-AllLeft Q _ _
                (on_record-AllLeft peer others (take (is_record msg) msg) w (m 0 (is_record msg)) h)
                (λ peer others w h.
                  record_loop-AllLeft rounds peer others (drop (is_record msg) msg) w
                    (Arrives-drop set_key M msg (is_record msg) m) h))
        ]

    -- What every part of dtls_handle_message keeps of a peer, holds of all entries of the table after the
    -- datagram if it did so before.
    pub dtls_handle_message-AllLeft :
        (entries : List Peer) (msg : Bytes) (w : W)
        → Arrives set_key M msg
        → All Q entries
        → AllLeft Q (dtls_handle_message ctx calls services set_key entries session msg w)
    unfolding dtls_handle_message
    dtls_handle_message-AllLeft [] msg w m h =
        record_loop-AllLeft (suc (length msg)) none [] msg w m h
    dtls_handle_message-AllLeft (p ∷ others) msg w m h =
        record_loop-AllLeft (suc (length msg)) (some p) others msg w m h
