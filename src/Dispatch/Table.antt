-- ===== src/Dispatch/Table.antt =====
-- The invariant of Dispatch/Invariant through the cases of dtls_handle_message and its loop.
use tinydtls.Dispatch.{
  closed, wait_changecipherspec, wait_finished, closing, Peer, close, is_down, unlink_peer,
  destroy_peer, alert_from_err, alert_from_err_lookup, handle_ccs, answer_alert, go, stop, Services,
  Flow,
}
use tinydtls.Alert.{
  decrypt_error, alert_fatal_create, fail, ok, Result, level_fatal, close_notify, alert_of_err,
}
use tinydtls.Peer.{state_code, connected, wait_clienthello, state_eq, Session}
use tinydtls.Dispatch.Records.{
  on_alert_record, not_decrypted, table, on_ccs_record, alert_for_peer, after_handshake,
  after_first, expected_epoch, on_handshake_record,
}
use tinydtls.Dispatch.Invariant.{handle_peer_handshake-Leaves, AllLeft, Leaves, Preserved}
use tinydtls.Base.{
  none, some, All, Bool-cases, Bytes, List, Option, Option-cases, [], inl, inr, length, ltb, not, ℕ,
  ◌==◌, ◌||◌, ◌∷◌,
}
use tinydtls.Handshake.{ht_client_hello, Calls, Outcome}
use tinydtls.Header.{dtls_hs_length, msg_type}
use tinydtls.Handshake.Reorder.{handle_first_handshake}
use tinydtls.Numeric.{byte_at}
use tinydtls.Cipher.{Context}
use tinydtls.Crypto.{Role, client, server}

module _ {W : Type 0} (ctx : Context) (calls : Calls W) (services : Services W)
    (set_key : Bytes → Option (Bytes → Bytes)) (session : Session) (M : Bytes → Type 0)
    (Q : Peer → Type 0) (keep : Preserved ctx calls services set_key session M Q) where
  pub alert_from_err-keeps : (p : Peer) (n : ℕ) (w : W) → Q p → Q (alert_from_err services p n w).0
  unfolding alert_from_err
  alert_from_err-keeps p n w h = elim (Option-cases (alert_of_err n)) [
    | inl silent ↦ rw (alert_from_err, silent) h
    | inr (a, sent) ↦
        rw (alert_from_err, sent)
          (keep.alerted (record p { state = closing }) a.0 a.1 w (keep.closing_state p h))
  ]

  lookup-keeps :
      (entries : List Peer) (n : ℕ) (w : W)
      → All Q entries
      → All Q (alert_from_err_lookup services entries n w).0
  unfolding alert_from_err_lookup
  lookup-keeps [] n w h = tt
  lookup-keeps (p ∷ others) n w h = (alert_from_err-keeps p n w h.0, h.1)

  close-keeps : (entries : List Peer) (w : W) → All Q entries → All Q (close services entries w).0
  unfolding close
  close-keeps [] w h = tt
  close-keeps (p ∷ others) w h =
      (keep.closing_state _ (keep.alerted p level_fatal close_notify w h.0), h.1)

  pub unlink_peer-keeps :
      (p : Peer) (others : List Peer) (w : W)
      → All Q others
      → All Q (unlink_peer services p others w).0
  unfolding unlink_peer
  unlink_peer-keeps p others w h = elim (Bool-cases (is_down services p)) [
    | inl down ↦ rw down h
    | inr up ↦ rw up h
  ]

  destroy_peer-keeps :
      (p : Peer) (others : List Peer) (w : W)
      → All Q others
      → All Q (destroy_peer services p others w).0
  unfolding destroy_peer
  destroy_peer-keeps p others w h = elim (Bool-cases (is_down services p)) [
    | inl down ↦ rw down h
    | inr up ↦ rw up (close-keeps others w h)
  ]

  keyed-keeps :
      (step : Result ℕ × (Peer × W))
      → Q step.1.0
      → Q
          (elim step.0 as (λ _. Result ℕ × (Peer × W)) [
            | fail n ↦ (fail n, (step.1.0, step.1.1))
            | ok n ↦ (ok 0, (record step.1.0 { state = wait_finished }, step.1.1))
          ]).1.0
  keyed-keeps (fail n, (p, w)) h = h
  keyed-keeps (ok n, (p, w)) h = keep.finished_state p h

  handle_ccs-keeps : (p : Peer) (d : Bytes) (w : W) → Q p → Q (handle_ccs services p d w).1.0
  unfolding handle_ccs
  handle_ccs-keeps p d w h = elim (Bool-cases (not (state_eq p.state wait_changecipherspec))) [
    | inl early ↦ rw early h
    | inr due ↦ elim (Bool-cases (ltb (length d) 1 || not (byte_at d 0 == 1))) [
      | inl bad ↦ rw (due, bad) h
      | inr good ↦ rw (due, good) (by_role p.role)
    ]
  ]
    where
      by_role :
          (role : Role)
          → Q
              (elim role as (λ _. Result ℕ × (Peer × W)) [
                | client ↦ (ok 0, (record p { state = wait_finished }, w))
                | server ↦
                    let (r, (p, w)) = services.key_block p w in
                    elim r [
                      | fail n ↦ (fail n, (p, w))
                      | ok n ↦ (ok 0, (record p { state = wait_finished }, w))
                    ]
              ]).1.0
      by_role client = keep.finished_state p h
      by_role server = keyed-keeps (services.key_block p w) (keep.keyed p w h)

  answer_alert-keeps : (p : Peer) (desc : ℕ) (w : W) → Q p → Q (answer_alert services p desc w).0
  unfolding answer_alert
  answer_alert-keeps p desc w h = elim (Bool-cases (not (desc == close_notify))) [
    | inl other ↦ rw other h
    | inr closes ↦ elim (Bool-cases (state_eq p.state closing)) [
      | inl again ↦ rw (closes, again) (keep.closed_state p h)
      | inr first ↦
          rw (closes, first)
            (keep.alerted (record p { state = closing }) level_fatal close_notify w
              (keep.closing_state p h))
    ]
  ]

  -- The outcome of a handshake message.
  after_handshake-AllLeft :
      (others : List Peer) (o : Outcome W)
      → Leaves Q o
      → All Q others
      → AllLeft Q (after_handshake ctx calls services others o)
  unfolding after_handshake
  after_handshake-AllLeft others (fail n, (none, w)) h rest = rest
  after_handshake-AllLeft others (fail n, (some p, w)) h rest = (alert_from_err-keeps p n w h, rest)
  after_handshake-AllLeft others (ok n, (none, w)) h rest = rest
  after_handshake-AllLeft others (ok n, (some p, w)) h rest =
      elim (Bool-cases (state_eq p.state connected)) [
        | inl up ↦ rw up (h, rest)
        | inr on_the_way ↦ rw on_the_way (h, rest)
      ]

  after_first-AllLeft :
      (others : List Peer) (o : Outcome W)
      → Leaves Q o
      → All Q others
      → AllLeft Q (after_first ctx calls services others o)
  unfolding after_first
  after_first-AllLeft others (fail n, (none, w)) h rest = lookup-keeps others n w rest
  after_first-AllLeft others (fail n, (some p, w)) h rest = lookup-keeps (p ∷ others) n w (h, rest)
  after_first-AllLeft others (ok n, (none, w)) h rest = rest
  after_first-AllLeft others (ok n, (some p, w)) h rest = (h, rest)

  first_handshake-Leaves :
      (d : Bytes) (w : W)
      → M d
      → Leaves Q (handle_first_handshake ctx calls session wait_clienthello d w)
  unfolding handle_first_handshake
  first_handshake-Leaves d w m = elim (Bool-cases (ltb (length d) dtls_hs_length)) [
    | inl short ↦ rw short tt
    | inr whole ↦ elim (Bool-cases (msg_type d == ht_client_hello)) [
      | inl hello ↦ rw (whole, hello) (keep.first_message d w m)
      | inr other ↦ rw (whole, other) tt
    ]
  ]

  pub on_handshake_record-AllLeft :
      (peer : Option Peer) (others : List Peer) (epoch : ℕ) (d : Bytes) (w : W)
      → M d
      → All Q (table peer others)
      → AllLeft Q (on_handshake_record ctx calls services peer others session epoch d w)
  unfolding on_handshake_record
  on_handshake_record-AllLeft none others epoch d w m h =
      after_first-AllLeft others _ (first_handshake-Leaves d w m) h
  on_handshake_record-AllLeft (some p) others epoch d w m h = elim (Option-cases p.params0) [
    | inl no_params ↦ rw (no_params, on_handshake_record) tt
    | inr (s, params) ↦ elim (Bool-cases (expected_epoch ctx calls services p s == epoch)) [
      | inl right ↦
          rw (params, on_handshake_record, right)
            (after_handshake-AllLeft others _
              (handle_peer_handshake-Leaves ctx calls services set_key session M Q keep
                (services.address p) p.role p d w m h.0)
              h.1)
      | inr wrong ↦ rw (params, on_handshake_record, wrong) h
    ]
  ]

  step_of_ccs :
      (others : List Peer) (step : Result ℕ × (Peer × W))
      → Q step.1.0
      → All Q others
      → AllLeft Q (elim step.0 as (λ _. Flow W) [
        | ok n ↦ go (some step.1.0) others step.1.1
        | fail n ↦
            let (p, w) = alert_from_err services step.1.0 n step.1.1 in
            let (others, w) = unlink_peer services p others w in stop (fail n) others w
      ])
  step_of_ccs others (ok n, (p, w)) h rest = (h, rest)
  step_of_ccs others (fail n, (p, w)) h rest =
      let sent = alert_from_err services p n w in unlink_peer-keeps sent.0 others sent.1 rest

  pub on_ccs_record-AllLeft :
      (peer : Option Peer) (others : List Peer) (d : Bytes) (w : W)
      → All Q (table peer others)
      → AllLeft Q (on_ccs_record ctx calls services peer others d w)
  unfolding on_ccs_record
  on_ccs_record-AllLeft none others d w h = tt
  on_ccs_record-AllLeft (some p) others d w h =
      let w' = calls.stop_retransmission p w in
      step_of_ccs others (handle_ccs services p d w') (handle_ccs-keeps p d w' h.0) h.1

  pub alert_for_peer-AllLeft :
      (p : Peer) (others : List Peer) (d : Bytes) (w : W)
      → Q p
      → All Q others
      → AllLeft Q (alert_for_peer ctx calls services p others d w)
  unfolding alert_for_peer
  alert_for_peer-AllLeft p others d w h rest =
      let level = byte_at d 0 in
      let desc = byte_at d 1 in
      elim (Bool-cases (ltb (length d) 2)) [
        | inl short ↦ rw short (h, rest)
        | inr whole ↦
            let w' = services.event p.session level desc w in
            let answer = answer_alert services p desc w' in
            elim (Bool-cases ((level == level_fatal) || (desc == close_notify))) [
              | inl over ↦
                  rw (whole, over)
                    (destroy_peer-keeps answer.0 others
                      (calls.stop_retransmission answer.0 answer.1) rest)
              | inr goes_on ↦ rw (whole, goes_on) (answer_alert-keeps p desc w' h, rest)
            ]
      ]

  pub on_alert_record-AllLeft :
      (peer : Option Peer) (others : List Peer) (d : Bytes) (w : W)
      → All Q (table peer others)
      → AllLeft Q (on_alert_record ctx calls services peer others d w)
  unfolding on_alert_record
  on_alert_record-AllLeft none others d w h = elim (Bool-cases (ltb (length d) 2)) [
    | inl short ↦ rw short h
    | inr whole ↦ rw whole h
  ]
  on_alert_record-AllLeft (some p) others d w h =
      alert_for_peer-AllLeft p others d (calls.stop_retransmission p w) h.0 h.1

  pub not_decrypted-AllLeft :
      (p : Peer) (others : List Peer) (w : W)
      → Q p
      → All Q others
      → AllLeft Q (not_decrypted ctx calls services p others w)
  unfolding not_decrypted
  not_decrypted-AllLeft p others w h rest =
      let err = alert_fatal_create decrypt_error in
      elim (Bool-cases (ltb (state_code p.state) (state_code connected))) [
        | inl handshake ↦
            let sent = alert_from_err services p err w in
            rw handshake (unlink_peer-keeps (record sent.0 { state = closed }) others sent.1 rest)
        | inr up ↦ rw up (h, rest)
      ]
