-- ===== src/Dispatch/Records.antt =====
-- dtls.c: the body of dtls_handle_message, one function for each content type, and its loop.
use tinydtls.Dispatch.{
  closed, wait_finished, Peer, ct_change_cipher_spec, ct_alert, ct_handshake, ct_application_data,
  event_connected, unlink_peer, destroy_peer, alert_from_err, alert_from_err_lookup, handle_ccs,
  answer_alert, go, stop, fault, Services, Flow,
}
use tinydtls.Alert.{
  fail, ok, level_fatal, close_notify, decode_error, decrypt_error, alert_fatal_create,
}
use tinydtls.Peer.{connected, wait_clienthello, state_code, state_eq, Session}
use tinydtls.Base.{
  Bytes, List, Option, [], drop, if◌then◌else◌, length, ltb, none, not, some, suc, take, u16, zero,
  ℕ, ◌+◌, ◌==◌, ◌||◌, ◌∷◌,
}
use tinydtls.Numeric.{byte_at}
use tinydtls.Record.{decrypt_verify}
use tinydtls.Cipher.{Context}
use tinydtls.Header.{dtls_rh_length, is_record, Security, record_epoch}
use tinydtls.Handshake.{Calls, Outcome}
use tinydtls.Handshake.Reorder.{handle_peer_handshake, handle_first_handshake}
use tinydtls.Crypto.{client, server}

-- What the table holds for the session, with the local peer at its head.
abbrev pub table : Option Peer → List Peer → List Peer
table none others = others
table (some p) others = p ∷ others

-- The next round of the loop, where the function has not returned.
abbrev pub and_next : {W : Type 0} → Flow W → (Option Peer → List Peer → W → Flow W) → Flow W
and_next (go peer others w) rest = rest peer others w
and_next (stop r entries w) rest = stop r entries w
and_next fault rest = fault

module _ {W : Type 0} (ctx : Context) (calls : Calls W) (services : Services W) where
  -- case DTLS_CT_CHANGE_CIPHER_SPEC
  unfoldable pub on_ccs_record : Option Peer → List Peer → Bytes → W → Flow W
  on_ccs_record none others d w = fault
  on_ccs_record (some p) others d w =
      let (r, (p, w)) = handle_ccs services p d (calls.stop_retransmission p w) in
      elim r [
        | ok n ↦ go (some p) others w
        | fail n ↦
            let (p, w) = alert_from_err services p n w in
            let (others, w) = unlink_peer services p others w in stop (fail n) others w
      ]

  -- handle_alert for a peer, and what dtls_handle_message makes of its result
  unfoldable pub alert_for_peer : Peer → List Peer → Bytes → W → Flow W
  alert_for_peer p others d w =
      let level = byte_at d 0 in
      let desc = byte_at d 1 in
      if ltb (length d) 2
      then stop (fail (alert_fatal_create decode_error)) (p ∷ others) w
      else (let w = services.event p.session level desc w in
          let (p', w') = answer_alert services p desc w in
          if (level == level_fatal) || (desc == close_notify)
          then (let (others, w) =
                destroy_peer services p' others (calls.stop_retransmission p' w') in
              stop (fail 1) others w)
          else go (some p') others w')

  -- case DTLS_CT_ALERT
  unfoldable pub on_alert_record : Option Peer → List Peer → Bytes → W → Flow W
  on_alert_record none others d w =
      if ltb (length d) 2
      then stop (fail (alert_fatal_create decode_error)) others w
      else go none others w
  on_alert_record (some p) others d w = alert_for_peer p others d (calls.stop_retransmission p w)

  -- The end of case DTLS_CT_HANDSHAKE with a peer.
  unfoldable pub after_handshake : List Peer → Outcome W → Flow W
  after_handshake others (fail n, (none, w)) = stop (fail n) others w
  after_handshake others (fail n, (some p, w)) =
      let (p, w) = alert_from_err services p n w in stop (fail n) (p ∷ others) w
  after_handshake others (ok n, (none, w)) = go none others w
  after_handshake others (ok n, (some p, w)) =
      if state_eq p.state connected
      then go (some p) others
          (services.event p.session 0 event_connected (calls.stop_retransmission p w))
      else go (some p) others w

  -- The same without one: a peer that handle_handshake has added is found in the table only.
  unfoldable pub after_first : List Peer → Outcome W → Flow W
  after_first others (r, (made, w)) = elim r [
    | ok n ↦ go none (table made others) w
    | fail n ↦
        let (entries, w) = alert_from_err_lookup services (table made others) n w in
        stop (fail n) entries w
  ]

  -- The epoch that a handshake message must have: dtls_security_params(peer)->epoch, or the next one
  -- for the Finished message of a client.
  pub expected_epoch : Peer → Security → ℕ
  expected_epoch p s = elim p.role [
    | client ↦ s.epoch
    | server ↦ if state_eq p.state wait_finished then u16 (s.epoch + 1) else s.epoch
  ]

  -- case DTLS_CT_HANDSHAKE, for a record of that epoch
  unfoldable pub on_handshake_record : Option Peer → List Peer → Session → ℕ → Bytes → W → Flow W
  on_handshake_record none others session epoch d w =
      after_first others (handle_first_handshake ctx calls session wait_clienthello d w)
  on_handshake_record (some p) others session epoch d w = elim p.params0 [
    | none ↦ fault
    | some s ↦
        if not (expected_epoch p s == epoch)
        then go (some p) others w
        else after_handshake others (
            handle_peer_handshake ctx calls services.malloc (services.address p) session p.role
              p.state p d w)
  ]

  -- case DTLS_CT_APPLICATION_DATA
  unfoldable pub on_application_record : Option Peer → List Peer → Bytes → W → Flow W
  on_application_record none others d w = stop (fail 1) others w
  on_application_record (some p) others d w =
      go (some p) others (services.read p.session d (calls.stop_retransmission p w))

  -- The switch over the content type, for the payload `d` of a record.
  unfoldable pub on_payload : Option Peer → List Peer → Session → Bytes → Bytes → W → Flow W
  on_payload peer others session msg d w =
      let type = byte_at msg 0 in
      if type == ct_change_cipher_spec
      then on_ccs_record peer others d w
      else if type == ct_alert
      then on_alert_record peer others d w
      else if type == ct_handshake
      then on_handshake_record peer others session (record_epoch msg) d w
      else if type == ct_application_data
      then on_application_record peer others d w
      else go peer others w

  -- A record that cannot be decrypted.
  unfoldable pub not_decrypted : Peer → List Peer → W → Flow W
  not_decrypted p others w =
      let err = alert_fatal_create decrypt_error in
      if ltb (state_code p.state) (state_code connected)
      then (let (p, w) = alert_from_err services p err w in
          let (others, w) = unlink_peer services (record p { state = closed }) others w in
          stop (fail err) others w)
      else stop (fail err) (p ∷ others) w

  -- The key schedule of the block cipher is that of Record.
  module _ (set_key : Bytes → Option (Bytes → Bytes)) where
    -- One round of the loop, for the record `msg`.
    unfoldable pub on_record : Option Peer → List Peer → Session → Bytes → W → Flow W
    on_record none others session msg w =
        on_payload none others session msg (drop dtls_rh_length msg) w
    on_record (some p) others session msg w =
        let (r, p) = decrypt_verify set_key p msg in
        elim r [
          | fail n ↦ not_decrypted p others w
          | ok d ↦ on_payload (some p) others session msg d w
        ]

    -- while ((rlen = is_record(msg,msglen))) { … } with a count of rounds
    unfoldable pub record_loop : ℕ → Option Peer → List Peer → Session → Bytes → W → Flow W
    record_loop zero peer others session msg w = stop (ok 0) (table peer others) w
    record_loop (suc rounds) peer others session msg w =
        let rlen = is_record msg in
        if rlen == 0
        then stop (ok 0) (table peer others) w
        else and_next (on_record peer others session (take rlen msg) w)
            (λ peer others w. record_loop rounds peer others session (drop rlen msg) w)

    -- dtls_handle_message, for what the table holds for the session
    unfoldable pub dtls_handle_message : List Peer → Session → Bytes → W → Flow W
    dtls_handle_message [] session msg w = record_loop (suc (length msg)) none [] session msg w
    dtls_handle_message (p ∷ others) session msg w =
        record_loop (suc (length msg)) (some p) others session msg w
