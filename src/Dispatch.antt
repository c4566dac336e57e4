-- ===== src/Dispatch.antt =====
-- dtls.c: dtls_handle_message, which takes the records of a datagram one by one, with handle_ccs,
-- handle_alert, dtls_alert_send_from_err, dtls_close and dtls_destroy_peer. What the table of peers
-- holds for the session of the datagram is a list, with the entry that a lookup finds at its head;
-- the local variable `peer` is `some` of that entry, or `none`.
pub mod Records
pub mod Invariant
pub mod Table
pub mod Lineage
pub mod Loop
pub mod Secure
pub mod Verified
pub mod Invited
mod Tests
use tinydtls.Peer.{wait_finished, closed, closing, wait_changecipherspec, Peer, state_eq, Session}
use tinydtls.Alert.{
  fail, ok, Result, level_fatal, close_notify, decode_error, alert_fatal_create, alert_of_err,
}
use tinydtls.Base.{
  Bool, Bytes, List, Option, [], if◌then◌else◌, length, ltb, none, not, some, ℕ, ◌==◌, ◌||◌, ◌∷◌,
}
use tinydtls.Numeric.{byte_at}
use tinydtls.Handshake.{Step}
use tinydtls.Crypto.{client, server}

-- DTLS_CT_* of dtls.h
abbrev pub ct_change_cipher_spec : ℕ
ct_change_cipher_spec = 20

abbrev pub ct_alert : ℕ
ct_alert = 21

abbrev pub ct_handshake : ℕ
ct_handshake = 22

abbrev pub ct_application_data : ℕ
ct_application_data = 23

-- DTLS_EVENT_CONNECTED of alert.h
abbrev pub event_connected : ℕ
event_connected = 0x01DE

-- What the code calls: dtls_send_alert, calculate_key_block, the callbacks, and malloc, with the
-- address of a peer.
pub record Services (W : Type 0) : Type 0 where
  pub send_alert : Peer → ℕ → ℕ → W → Peer × W
  pub key_block : Peer → W → Step W
  pub event : Session → ℕ → ℕ → W → W
  pub read : Session → Bytes → W → W
  pub malloc : W → Option ℕ × W
  pub address : Peer → ℕ

-- The end of a record: the loop goes on with `peer`, the other entries of the session and the rest
-- of the context, or the function returns; `fault` is a read through a null pointer.
pub data Flow (W : Type 0) : Type 0 where
  go : Option Peer → List Peer → W → Flow W
  stop : Result ℕ → List Peer → W → Flow W
  fault : Flow W

module _ {W : Type 0} (services : Services W) where
  -- dtls_close, with what the table holds for the session
  pub close : List Peer → W → List Peer × W
  close [] w = ([], w)
  close (p ∷ others) w =
      let (p, w) = services.send_alert p level_fatal close_notify w in
      (record p { state = closing } ∷ others, w)

  abbrev pub is_down : Peer → Bool
  is_down p = state_eq p.state closed || state_eq p.state closing

  -- dtls_destroy_peer with `unlink`: what the table then holds
  pub unlink_peer : Peer → List Peer → W → List Peer × W
  unlink_peer p others w =
      if is_down p then (others, w) else (let (_, w) = close (p ∷ others) w in (others, w))

  -- dtls_destroy_peer without it, for a peer that is not in the table any more
  pub destroy_peer : Peer → List Peer → W → List Peer × W
  destroy_peer p others w = if is_down p then (others, w) else close others w

  -- The part of dtls_alert_send_from_err that has a peer.
  abbrev pub send_closing : Peer → ℕ × ℕ → W → Peer × W
  send_closing p alert w = services.send_alert (record p { state = closing }) alert.0 alert.1 w

  -- dtls_alert_send_from_err for a peer, and for what a lookup finds. Its callers drop the result.
  pub alert_from_err : Peer → ℕ → W → Peer × W
  alert_from_err p n w = elim (alert_of_err n) [
    | none ↦ (p, w)
    | some alert ↦ send_closing p alert w
  ]

  pub alert_from_err_lookup : List Peer → ℕ → W → List Peer × W
  alert_from_err_lookup [] n w = ([], w)
  alert_from_err_lookup (p ∷ others) n w = let (p, w) = alert_from_err p n w in (p ∷ others, w)

  -- handle_ccs for a peer; without one it reads peer->handshake_params through a null pointer.
  pub handle_ccs : Peer → Bytes → W → Step W
  handle_ccs p d w =
      if not (state_eq p.state wait_changecipherspec)
      then (ok 0, (p, w))
      else if ltb (length d) 1 || not (byte_at d 0 == 1)
      then (fail (alert_fatal_create decode_error), (p, w))
      else elim p.role [
        | client ↦ (ok 0, (record p { state = wait_finished }, w))
        | server ↦
            let (r, (p, w)) = services.key_block p w in
            elim r [
              | fail n ↦ (fail n, (p, w))
              | ok n ↦ (ok 0, (record p { state = wait_finished }, w))
            ]
      ]

  -- The switch of handle_alert over the description.
  pub answer_alert : Peer → ℕ → W → Peer × W
  answer_alert p desc w =
      if not (desc == close_notify)
      then (p, w)
      else if state_eq p.state closing
      then (record p { state = closed }, w)
      else services.send_alert (record p { state = closing }) level_fatal close_notify w
