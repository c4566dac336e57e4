-- ===== src/Connect.antt =====
-- dtls.c: dtls_connect, dtls_connect_peer, dtls_renegotiate and dtls_write, on what the table of peers
-- holds for one session: the list of its entries, the one that a lookup finds at its head.
pub mod First
pub mod Sends
mod Tests
use tinydtls.Base.{Bool, Bytes, List, [], if◌then◌else◌, ltb, none, not, some, ℕ, ◌+◌, ◌∷◌}
use tinydtls.Alert.{Result, fail, ok}
use tinydtls.Crypto.{client, server}
use tinydtls.Peer.{Peer, Session, new_peer, handshake_new, state_eq, connected, clienthello}
use tinydtls.Handshake.{Step}
use tinydtls.Send.{Net, dtls_send, dtls_send_hello_request}
use tinydtls.Dispatch.{ct_application_data}
use tinydtls.Endpoint.{Host, asked_once, dtls_send_client_hello}

-- DTLS_EVENT_CONNECT and DTLS_EVENT_RENEGOTIATE of alert.h
abbrev pub event_connect : ℕ
event_connect = 0x01DC

abbrev pub event_renegotiate : ℕ
event_renegotiate = 0x01DF

-- The result of a call, the entries of the session, and the context.
abbrev pub Called : Type 0
Called = Result ℕ × (List Peer × Net)

-- The parameters of a new handshake, or `none` where there is no memory.
abbrev pub with_new_handshake : Bool → Peer → Peer
with_new_handshake found p = record p { handshake = if found then some handshake_new else none }

-- dtls_send_client_hello without a cookie, and the state where it did not fail.
abbrev pub now_clienthello : Step Net → Step Net
now_clienthello (fail n, (p, w)) = (fail n, (p, w))
now_clienthello (ok n, (p, w)) = (ok n, (record p { state = clienthello }, w))

-- The steps of a call on the entry at the head.
abbrev pub at_head : List Peer → Step Net → Called
at_head others (r, (p, w)) = (r, (p ∷ others, w))

-- return (res >= 0) ? 0 : res;
abbrev pub zero_or_error : Called → Called
zero_or_error (fail n, rest) = (fail n, rest)
zero_or_error (ok n, rest) = (ok 0, rest)

-- The end of dtls_connect: the callback `event`, at the level DTLS_ALERT_LEVEL_INFO
abbrev pub tell : (Session → ℕ → Net → Net) → Session → Called → Called
tell event session (fail n, (entries, w)) = (fail n, (entries, w))
tell event session (ok n, (entries, w)) =
    (ok n, (entries, event session (if ltb 0 n then event_connect else event_renegotiate) w))

module _ (host : Host) where
  -- The end of dtls_renegotiate and of dtls_connect_peer.
  unfoldable pub start_hello : Peer → Net → Step Net
  start_hello p w = now_clienthello (dtls_send_client_hello host [] p w)

  -- dtls_renegotiate. The list reorder_queue of the new parameters is taken to be empty, although
  -- the code does not initialise it here.
  unfoldable pub dtls_renegotiate : List Peer → Net → Called
  dtls_renegotiate [] w = (fail 1, ([], w))
  dtls_renegotiate (p ∷ others) w =
      let found = host.found w.asked in
      let q = with_new_handshake found p in
      let v = asked_once w in
      if not (state_eq p.state connected)
      then (fail 1, (p ∷ others, w))
      else if not found
      then (fail 1, (q ∷ others, v))
      else elim p.role [
        | client ↦ at_head others (start_hello q v)
        | server ↦ at_head others (dtls_send_hello_request host.set_key host.env q v)
      ]

  -- dtls_connect_peer for a peer that is not the entry that a lookup finds; for that entry it is
  -- dtls_renegotiate.
  unfoldable pub connect_new : Peer → List Peer → Net → Called
  connect_new p entries w =
      let found = host.found w.asked in
      let q = with_new_handshake found (record p { role = client }) in
      let v = asked_once w in
      if not found then (fail 1, (q ∷ entries, v)) else at_head entries (start_hello q v)

  module _ (event : Session → ℕ → Net → Net) where
    -- dtls_connect
    unfoldable pub dtls_connect : Session → List Peer → Net → Called
    dtls_connect session (p ∷ others) w = tell event session (dtls_renegotiate (p ∷ others) w)
    dtls_connect session [] w =
        let k = w.asked in
        let v = record w { asked = k + 3 } in
        elim (new_peer (host.found k) (host.found (k + 1)) (host.found (k + 2)) session) [
          | none ↦ (fail 1, ([], v))
          | some p ↦ tell event session (connect_new p [] v)
        ]

    -- dtls_write
    unfoldable pub dtls_write : Session → List Peer → Bytes → Net → Called
    dtls_write session [] buf w = zero_or_error (dtls_connect session [] w)
    dtls_write session (p ∷ others) buf w =
        if not (state_eq p.state connected)
        then (ok 0, (p ∷ others, w))
        else at_head others (dtls_send host.set_key host.env p ct_application_data buf w)
