-- ===== src/Handshake.antt =====
-- dtls.c: handle_handshake_msg and handle_handshake, the state machine of the handshake. The
-- functions that check and send single messages are the fields of `Calls`; `W` is the rest of the
-- context, that is the queue of messages to send again and the network.
pub mod Message
pub mod States
pub mod Moves
pub mod Reach
pub mod Connected
pub mod Reorder
pub mod Waiting
pub mod Order
pub mod Advance
pub mod Sequence
pub mod Quiet
mod Tests
use tinydtls.Alert.{fail, ok, Result, unexpected_message, alert_fatal_create}
use tinydtls.Peer.{Peer, State, Session, Handshake}
use tinydtls.Base.{Bool, Bytes, Option, [], map, none, some, u16, ℕ, ◌++◌, ◌+◌}
use mathlib.Core.Option

-- dtls_handshake_type values of dtls.h
abbrev pub ht_hello_request : ℕ
ht_hello_request = 0

abbrev pub ht_client_hello : ℕ
ht_client_hello = 1

abbrev pub ht_server_hello : ℕ
ht_server_hello = 2

abbrev pub ht_hello_verify_request : ℕ
ht_hello_verify_request = 3

abbrev pub ht_certificate : ℕ
ht_certificate = 11

abbrev pub ht_server_key_exchange : ℕ
ht_server_key_exchange = 12

abbrev pub ht_certificate_request : ℕ
ht_certificate_request = 13

abbrev pub ht_server_hello_done : ℕ
ht_server_hello_done = 14

abbrev pub ht_certificate_verify : ℕ
ht_certificate_verify = 15

abbrev pub ht_client_key_exchange : ℕ
ht_client_key_exchange = 16

abbrev pub ht_finished : ℕ
ht_finished = 20

-- What a call with a peer gives back: its result, the peer, and the rest of the context.
abbrev pub Step : Type 0 → Type 0
Step W = Result ℕ × (Peer × W)

-- What a handler gives back, where there may be no peer.
abbrev pub Outcome : Type 0 → Type 0
Outcome W = Result ℕ × (Option Peer × W)

-- The functions that the two handlers call. A check of a message takes its bytes; `memory`
-- says whether an allocation finds memory. `verify_session` is dtls_verify_peer without a peer.
pub record Calls (W : Type 0) : Type 0 where
  pub stop_retransmission : Peer → W → W
  pub check_server_hello_verify_request : Peer → Bytes → W → Step W
  pub check_server_hello : Peer → Bytes → W → Step W
  pub check_server_certificate : Peer → Bytes → W → Step W
  pub check_server_key_exchange_ecdsa : Peer → Bytes → W → Step W
  pub check_server_key_exchange_psk : Peer → Bytes → W → Step W
  pub check_server_hellodone : Peer → Bytes → W → Step W
  pub check_certificate_request : Peer → Bytes → W → Step W
  pub check_finished : Peer → Bytes → W → Step W
  pub check_client_keyexchange : Peer → Bytes → W → Step W
  pub check_client_certificate_verify : Peer → Bytes → W → Step W
  pub update_parameters : Peer → Bytes → W → Step W
  pub verify_session : Session → Bytes → W → Result ℕ × W
  pub verify_peer : Peer → Session → Bytes → W → Step W
  pub send_ccs : Peer → W → Step W
  pub send_finished : Peer → W → Step W
  pub send_server_hello_msgs : Peer → W → Step W
  pub send_client_hello : Peer → W → Step W
  pub memory : W → Bool × W

-- err = f(…); if (err < 0) return err; with the rest of the code as a function of err, peer and context
abbrev pub after : {W : Type 0} → Step W → (ℕ → Peer → W → Outcome W) → Outcome W
after (fail n, (p, w)) rest = (fail n, (some p, w))
after (ok n, (p, w)) rest = rest n p w

-- peer->handshake_params->cipher; the parameters are there when the code reads them.
abbrev pub cipher_of : Peer → ℕ
cipher_of p = elim p.handshake [ none ↦ 0 | some h ↦ h.hs_cipher ]

-- peer->state = s
abbrev pub enter : State → Peer → Peer
enter s p = record p { state = s }

-- update_hs_hash
unfoldable pub update_hs_hash : Peer → Bytes → Peer
update_hs_hash p d = record p {
  handshake = Option.map (λ (h : Handshake). record h { hs_hash = h.hs_hash ++ d }) p.handshake;
}

-- clear_hs_hash
unfoldable pub clear_hs_hash : Peer → Peer
clear_hs_hash p = record p {
  handshake = Option.map (λ (h : Handshake). record h { hs_hash = [] }) p.handshake;
}

-- The end of handle_handshake_msg, for err >= 0: the receive counter moves on.
--   if (peer && peer->handshake_params && err >= 0) peer->handshake_params->hs_state.mseq_r++;
unfoldable pub finish : {W : Type 0} → ℕ → Peer → W → Outcome W
finish err p w = (
  ok err,
  (
    some (record p {
      handshake =
          Option.map (λ (h : Handshake). record h { mseq_r = u16 (h.mseq_r + 1) }) p.handshake;
    }),
    w,
  ),
)

-- The return of an alert where a message does not fit the state.
pub unexpected : {W : Type 0} → Peer → W → Outcome W
unexpected p w = (fail (alert_fatal_create unexpected_message), (some p, w))
