-- ===== src/Send.antt =====
-- dtls.c: the functions that send a message: dtls_send_multi, dtls_send, dtls_send_handshake_msg_hash,
-- dtls_send_handshake_msg, dtls_send_alert, dtls_send_ccs and dtls_send_hello_request. What comes
-- from outside of the code is a record of answers, `Env`; the context is `Net`.
use tinydtls.Base.{
  ◌-◌, ltb, ◌+◌, concat, ◌==◌, ◌++◌, false, length, [], none, List, true, u8, ◌∷◌, if◌then◌else◌,
  Bool, Option, ℕ, Bytes,
}
use tinydtls.Retransmit.{keep_message}
use tinydtls.Alert.{ok, fail, Result}
use mathlib.Core.Option.{some}
use tinydtls.Dispatch.{ct_handshake, ct_change_cipher_spec, ct_alert}
use tinydtls.Global.{dtls_max_buf}
use tinydtls.Record.{dtls_prepare_record}
use tinydtls.Handshake.{ht_hello_request, update_hs_hash, Step}
use tinydtls.Header.{Security, set_handshake_header}
use tinydtls.Crypto.{Role}
use tinydtls.Netq.{Queue}
use tinydtls.Peer.{Handshake, Session, Peer}
use mathlib.Core.Option

-- What the clock, malloc and the callback `write` answer where the outside was asked k times before, and
-- the address of the peer. `write` gets the session and the datagram, and gives the number of bytes that it
-- has sent, or an error.
pub record Env : Type 0 where
  pub self : ℕ
  pub ticks : ℕ → ℕ
  pub node : ℕ → Option ℕ
  pub write : ℕ → Session → Bytes → Result ℕ

-- The context: how often the outside was asked so far, ctx->sendqueue, and the datagrams that `write`
-- was given.
pub record Net : Type 0 where
  pub asked : ℕ
  pub sendqueue : Queue
  pub sent : List (Session × Bytes)

-- The return of dtls_send_multi: res <= 0 ? res : overall_len - (len - res)
unfoldable pub written : Result ℕ → ℕ → ℕ → Result ℕ
written (fail n) overall_len len = fail n
written (ok res) overall_len len =
    if res == 0
    then ok 0
    else if ltb (overall_len + res) len
    then fail (len - (overall_len + res))
    else ok (overall_len + res - len)

-- update_hs_hash for the parts of a message, where `add_hash` is set
abbrev pub hash_if : Bool → Bytes → Peer → Peer
hash_if add_hash d p = if add_hash then update_hs_hash p d else p

-- peer->handshake_params->hs_state.mseq_s, where there are parameters
abbrev pub mseq_of : Peer → Option ℕ
mseq_of p = Option.map (λ (h : Handshake). h.mseq_s) p.handshake

abbrev pub set_mseq : Option ℕ → Option Handshake → Option Handshake
set_mseq none o = o
set_mseq (some n) o = Option.map (λ (h : Handshake). record h { mseq_s = n }) o

module _ (set_key : Bytes → Option (Bytes → Bytes)) (env : Env) where
  -- dtls_send_multi: the result, the security parameters with the next sequence number, and the context
  unfoldable pub dtls_send_multi :
      Role → Option Security → Session → ℕ → List Bytes → Net → Result ℕ × (Option Security × Net)
  dtls_send_multi role security session type parts w =
      let (prepared, used) = dtls_prepare_record set_key security role type parts dtls_max_buf in
      elim prepared [
        | fail n ↦ (fail n, (used, w))
        | ok sendbuf ↦
            let res = env.write w.asked session sendbuf in
            (
              written res (length (concat parts)) (length sendbuf),
              (
                used,
                record {
                  asked = w.asked + 1;
                  sendqueue =
                      keep_message (env.ticks w.asked) env.self (env.node w.asked) security type
                        parts w.sendqueue;
                  sent = w.sent ++ ((session, sendbuf) ∷ []);
                },
              ),
            )
      ]

  -- dtls_send_multi with the security parameters of the peer, params[0]
  unfoldable pub send_parts : Peer → Session → ℕ → List Bytes → Net → Step Net
  send_parts p session type parts w =
      let (r, (used, w)) = dtls_send_multi p.role p.params0 session type parts w in
      (r, (record p { params0 = used }, w))

  -- dtls_send
  unfoldable pub dtls_send : Peer → ℕ → Bytes → Net → Step Net
  dtls_send p type buf w = send_parts p p.session type (buf ∷ []) w

  -- dtls_send_handshake_msg_hash with a peer; `none` is a null pointer for the data
  unfoldable pub send_handshake_msg_hash : Peer → Session → ℕ → Option Bytes → Bool → Net → Step Net
  send_handshake_msg_hash p session type body add_hash w =
      let d : Bytes = elim body [ none ↦ [] | some d ↦ d ] in
      let parts : List Bytes = elim body [ none ↦ [] | some d ↦ d ∷ [] ] in
      let (buf, mseq) = set_handshake_header type (mseq_of p) (length d) 0 (length d) in
      let counted = record p { handshake = set_mseq mseq p.handshake } in
      send_parts (hash_if add_hash (buf ++ d) counted) session ct_handshake (buf ∷ parts) w

  -- dtls_send_handshake_msg_hash without a peer, as dtls_verify_peer calls it; it has no hash to add to.
  unfoldable pub send_without_peer : Role → Session → ℕ → Bytes → Net → Result ℕ × Net
  send_without_peer role session type body w =
      let (buf, mseq) = set_handshake_header type none (length body) 0 (length body) in
      let (r, (used, w)) = dtls_send_multi role none session ct_handshake (buf ∷ body ∷ []) w in
      (r, w)

  -- dtls_send_handshake_msg
  unfoldable pub send_handshake_msg : Peer → ℕ → Option Bytes → Net → Step Net
  send_handshake_msg p type body w = send_handshake_msg_hash p p.session type body true w

  -- dtls_send_alert, whose result is always 0
  unfoldable pub dtls_send_alert : Peer → ℕ → ℕ → Net → Peer × Net
  dtls_send_alert p level description w =
      let (_, (p, w)) = dtls_send p ct_alert (u8 level ∷ u8 description ∷ []) w in (p, w)

  -- dtls_send_ccs
  unfoldable pub dtls_send_ccs : Peer → Net → Step Net
  dtls_send_ccs p w = dtls_send p ct_change_cipher_spec (1 ∷ []) w

  -- dtls_send_hello_request
  unfoldable pub dtls_send_hello_request : Peer → Net → Step Net
  dtls_send_hello_request p w = send_handshake_msg_hash p p.session ht_hello_request none false w
