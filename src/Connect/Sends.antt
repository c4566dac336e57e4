-- ===== src/Connect/Sends.antt =====
-- dtls.c: dtls_connect for a session without an entry.
use tinydtls.Connect.First.{
  length-client_hello_rest, length-datagram_of, send_first_hello, first_peer, message_of,
  datagram_of, first_body,
}
use tinydtls.Messages.ClientHello.Accepted.{get_cookie_lem}
use tinydtls.Base.{
  sym, ap, ◌*◌, ◌∙◌, ◌-◌, ◌/◌, ◌^◌, true, length-append, drop, ◌<◌, ℕ, append-nil, arith, refl,
  some, Bytes, [], length, take, ◌++◌, ◌+◌, ◌∷◌, ◌≡◌, ◌≤◌,
}
use tinydtls.ServerHello.{tls_compression_null, server_random}
use tinydtls.Messages.ClientHello.{suite_bytes, client_hello_rest, offered, client_extensions}
use tinydtls.Connect.{
  at_head, Called, tell, start_hello, connect_new, dtls_connect, now_clienthello,
}
use tinydtls.Header.Laws.{is_record-set_record_header}
use tinydtls.Retransmit.{clock_second}
use tinydtls.Cookie.{dtls_get_cookie}
use tinydtls.Header.{is_record, set_handshake_header, set_record_header}
use tinydtls.Peer.{new_peer, clienthello, Peer, Session, security_new}
use tinydtls.Alert.{fail, ok}
use tinydtls.Endpoint.{dtls_send_client_hello, Host}
use tinydtls.Numeric.{int_to_uint32, int_to_uint24, int_to_uint48, int_to_uint8, int_to_uint16}
use tinydtls.Handshake.{Step, ht_client_hello}
use tinydtls.Send.{Net}
use tinydtls.Crypto.{client}
use tinydtls.Dispatch.{ct_handshake}

now_clienthello_lem :
    (s : Step Net) (n : ℕ)
    → s.0 ≡ ok n
    → let t = now_clienthello s in
      (t.0 ≡ ok n) × (t.1.0.state ≡ clienthello) × (t.1.0.role ≡ s.1.0.role) × (t.1.1 ≡ s.1.1)
now_clienthello_lem (fail m, (p, w)) n e = absurd (cc e)
now_clienthello_lem (ok m, (p, w)) n e = (e, refl, refl, refl)

-- The datagram of the ClientHello.
abbrev pub hello_datagram : Host → ℕ → Bytes
hello_datagram host k = datagram_of (message_of (first_body host k))

length-first_body :
    (host : Host) (k : ℕ) → length (host.prng k) ≡ 28 → length (first_body host k) ≤ 1200
unfolding server_random int_to_uint32 int_to_uint16
length-first_body host k given = omega (
  arith,
  length-client_hello_rest host.context,
  length-append (int_to_uint32 (host.env.ticks k / clock_second)) (host.prng k),
  length-append (server_random (host.env.ticks k) (host.prng k))
      (client_hello_rest host.context []),
  given,
)

-- The datagram is one whole record with the message, and the cookie in it is empty.
hello_datagram_lem :
    (host : Host) (k : ℕ)
    → length (host.prng k) ≡ 28
    → (is_record (hello_datagram host k) ≡ length (hello_datagram host k))
      × (dtls_get_cookie (drop 13 (hello_datagram host k)) ≡ ok [])
hello_datagram_lem host k given =
    let body = first_body host k in
    let msg = message_of body in
    let hdr = (set_handshake_header ht_client_hello (some 0) (length body) 0 (length body)).0 in
    let twelve : length hdr ≡ 12 =
      unfold set_handshake_header int_to_uint8 int_to_uint16 int_to_uint24 in refl in
    let size : length msg < 2 ^ 16 =
      omega (arith, length-append hdr body, twelve, length-first_body host k given) in
    let whole = is_record-set_record_header ct_handshake security_new msg [] size in
    let random = server_random (host.env.ticks k) (host.prng k) in
    let full : length random ≡ 32 = unfold server_random int_to_uint32 in omega (arith, given) in
    let behind : drop 13 (hello_datagram host k) ≡ msg =
      unfold set_record_header int_to_uint8 int_to_uint16 int_to_uint48 in refl in
    let after =
      int_to_uint16 (2 * length (offered host.context))
      ++ (suite_bytes (offered host.context)
          ++ (int_to_uint8 1
              ++ (int_to_uint8 tls_compression_null ++ client_extensions host.context))) in
    (
      ap
            (λ (m : Bytes). is_record (
              take 11 (set_record_header ct_handshake (some security_new)).0
              ++ (int_to_uint16 (length msg) ++ m)))
            (sym (append-nil msg))
          ∙ whole.0
          ∙ sym (length-datagram_of msg),
      rw behind (
          unfold client_hello_rest in get_cookie_lem hdr random twelve full [] after (omega arith)),
    )

tell_lem :
    (event : Session → ℕ → Net → Net)
    (quiet : (s : Session) (k : ℕ) (w : Net) → (event s k w).sent ≡ w.sent) (session : Session)
    (c : Called) (n : ℕ)
    → c.0 ≡ ok n
    → let t = tell event session c in (t.0 ≡ ok n) × (t.1.0 ≡ c.1.0) × (t.1.1.sent ≡ c.1.1.sent)
tell_lem event quiet session (fail m, (entries, w)) n e = absurd (cc e)
tell_lem event quiet session (ok m, (entries, w)) n e = (e, refl, quiet session _ w)

module _ (host : Host) (event : Session → ℕ → Net → Net)
    (quiet : (s : Session) (k : ℕ) (w : Net) → (event s k w).sent ≡ w.sent)
    (memory : (k : ℕ) → host.found k ≡ true) where
  opened :
      (session : Session) (w : Net)
      → dtls_connect host event session [] w
        ≡ tell event session (
            at_head [] (
              now_clienthello (
                dtls_send_client_hello host []
                  (first_peer session)
                  (record w { asked = w.asked + 4 }))))
  unfolding dtls_connect connect_new new_peer start_hello
  opened session w =
      let four : w.asked + 3 + 1 ≡ w.asked + 4 = omega arith in
      rw
        (
          dtls_connect,
          memory w.asked,
          memory (w.asked + 1),
          memory (w.asked + 2),
          connect_new,
          memory (w.asked + 3),
        )
        (ap
          (λ (k : ℕ). tell event session (
            at_head [] (
              now_clienthello
                (dtls_send_client_hello host [] (first_peer session) (record w { asked = k })))))
          four)

  -- A client calls dtls_connect for a session without an entry, where memory is found, the random source
  -- gives its 28 bytes, `write` takes whole datagrams and the event callback sends nothing: the table then
  -- has one entry, a client in DTLS_STATE_CLIENTHELLO, and one datagram has gone out. It is one whole
  -- record, its payload is a ClientHello in which dtls_get_cookie finds the empty cookie, and the result
  -- is the length of the payload.
  pub dtls_connect-hello_datagram :
      (session : Session) (w : Net)
      → ((k : ℕ) (b : Bytes) → host.env.write k session b ≡ ok (length b))
      → length (host.prng (w.asked + 4)) ≡ 28
      → let out = dtls_connect host event session [] w in
        let datagram = hello_datagram host (w.asked + 4) in
        (out.0 ≡ ok (length datagram - 13))
        × ((p : Peer) × ((out.1.0 ≡ p ∷ []) × ((p.state ≡ clienthello) × (p.role ≡ client))))
        × (out.1.1.sent ≡ w.sent ++ ((session, datagram) ∷ []))
        × (is_record datagram ≡ length datagram)
        × (dtls_get_cookie (drop 13 datagram) ≡ ok [])
  dtls_connect-hello_datagram session w writes given =
      let v = record w { asked = w.asked + 4 } in
      let s = dtls_send_client_hello host [] (first_peer session) v in
      let msg = message_of (first_body host v.asked) in
      let first = send_first_hello host session writes v given in
      let moved = now_clienthello_lem s (length msg) (first.0) in
      let told =
        tell_lem event quiet session (at_head [] (now_clienthello s)) (length msg) (moved.0) in
      let left : length (hello_datagram host v.asked) - 13 ≡ length msg =
        omega (arith, length-datagram_of msg) in
      let datagram = hello_datagram_lem host v.asked given in
      rw (opened session w, left)
        (
          told.0,
          ((now_clienthello s).1.0, (told.1, (moved.1, moved.2 ∙ first.1))),
          told.2 ∙ ap (λ (x : Net). x.sent) (moved.3) ∙ first.2,
          datagram.0,
          datagram.1,
        )
