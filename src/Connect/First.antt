-- ===== src/Connect/First.antt =====
-- dtls.c: dtls_send_client_hello for a new peer, down to the datagram.
use tinydtls.Base.{
  ltb, length-append, take-append_length, replicate, drop, false, ◌<◌, ℕ, append-nil, Option, arith,
  refl, some, Bytes, [], length, take, ◌++◌, ◌+◌, ◌∷◌, ◌≡◌, ◌≤◌,
}
use tinydtls.Messages.ClientHello.{
  in_buffer, client_hello_body, hello_handshake, with_client_random, client_hello,
  client_hello_rest, offered, client_extensions,
}
use tinydtls.ServerHello.{server_random}
use tinydtls.Header.{dtls_version, set_handshake_header, set_record_header}
use tinydtls.Peer.{handshake_new, init, Peer, Session, security_new}
use tinydtls.Alert.{ok}
use tinydtls.Endpoint.{asked_once, send_body, dtls_send_client_hello, Host}
use tinydtls.Numeric.{int_to_uint32, int_to_uint24, int_to_uint48, int_to_uint8, int_to_uint16}
use tinydtls.Handshake.{ht_client_hello}
use tinydtls.Send.{Net, dtls_send_multi, send_parts, send_handshake_msg_hash, written}
use tinydtls.Crypto.{client, Role}
use tinydtls.Global.{dtls_max_buf}
use tinydtls.Dispatch.{ct_handshake}
use tinydtls.Record.{copy_parts, plain_record, dtls_prepare_record}
use tinydtls.Cipher.{Context}

-- What stands behind the random in a ClientHello without a cookie.
pub length-client_hello_rest : (ctx : Context) → length (client_hello_rest ctx []) ≤ 50
unfolding client_hello_rest offered client_extensions int_to_uint8 int_to_uint16
length-client_hello_rest ctx = ground arith

copy_two :
    (a b : Bytes)
    → length a + length b ≤ 1300
    → copy_parts dtls_max_buf 0 (a ∷ b ∷ []) ≡ some (a ++ b)
unfolding copy_parts
copy_two a b short = ground (arith, append-nil b)

plain_two :
    (set_key : Bytes → Option (Bytes → Bytes)) (header a b : Bytes)
    → length a + length b ≤ 1300
    → plain_record set_key dtls_max_buf header (a ∷ b ∷ [])
      ≡ ok (take 11 header ++ (int_to_uint16 (length (a ++ b)) ++ (a ++ b)))
unfolding plain_record
plain_two set_key header a b short = rw (plain_record, copy_two a b short) refl

-- Two parts in one record without a cipher.
two_parts :
    (set_key : Bytes → Option (Bytes → Bytes)) (role : Role) (a b : Bytes)
    → length a + length b ≤ 1300
    → (dtls_prepare_record set_key
        (some security_new)
        role
        ct_handshake
        (a ∷ b ∷ [])
        dtls_max_buf).0
      ≡ ok (
          take 11 (set_record_header ct_handshake (some security_new)).0
          ++ (int_to_uint16 (length (a ++ b)) ++ (a ++ b)))
unfolding dtls_prepare_record security_new
two_parts set_key role a b short =
    plain_two set_key (set_record_header ct_handshake (some security_new)).0 a b short

-- A peer that dtls_new_peer makes, as a client with parameters of a handshake.
abbrev pub first_peer : Session → Peer
first_peer session = record {
  session = session;
  role = client;
  state = init;
  params0 = some security_new;
  params1 = some security_new;
  handshake = some handshake_new;
}

-- The handshake message of a body, and its datagram.
abbrev pub message_of : Bytes → Bytes
message_of body =
    (set_handshake_header ht_client_hello (some 0) (length body) 0 (length body)).0 ++ body

abbrev pub datagram_of : Bytes → Bytes
datagram_of msg =
    take 11 (set_record_header ct_handshake (some security_new)).0
    ++ (int_to_uint16 (length msg) ++ msg)

-- The body of the first ClientHello, where the outside was asked k times before.
abbrev pub first_body : Host → ℕ → Bytes
first_body host k =
    int_to_uint16 dtls_version
    ++ (server_random (host.env.ticks k) (host.prng k) ++ client_hello_rest host.context [])

written_all : (n : ℕ) (m : ℕ) → 0 < m → written (ok m) n m ≡ ok n
unfolding written
written_all n m h = ground arith

pub length-datagram_of : (msg : Bytes) → length (datagram_of msg) ≡ 13 + length msg
unfolding set_record_header int_to_uint8 int_to_uint16 int_to_uint48
length-datagram_of msg = omega arith

module _ (host : Host) (session : Session)
    (writes : (k : ℕ) (b : Bytes) → host.env.write k session b ≡ ok (length b)) where
  -- dtls_send_multi under the first security parameters, for a message with its header.
  send_two :
      (role : Role) (a b : Bytes) (w : Net)
      → length a + length b ≤ 1300
      → let r =
          dtls_send_multi host.set_key host.env role
            (some security_new)
            session
            ct_handshake
            (a ∷ b ∷ [])
            w in
        (r.0 ≡ ok (length (a ++ b)))
        × (r.1.1.sent ≡ w.sent ++ ((session, datagram_of (a ++ b)) ∷ []))
  unfolding dtls_send_multi
  send_two role a b w short =
      let made = two_parts host.set_key role a b short in
      let size = length-datagram_of (a ++ b) in
      let all =
        written_all (length (a ++ b)) (length (datagram_of (a ++ b))) (omega (arith, size)) in
      (
        rw (dtls_send_multi, made, writes w.asked (datagram_of (a ++ b)), append-nil b, all) refl,
        rw (dtls_send_multi, made) refl,
      )

  -- What dtls_send_handshake_msg_hash does with a body, for a new peer.
  send_first :
      (tmp body : Bytes) (w : Net)
      → length body ≤ 1200
      → let p = record (first_peer session) {
        handshake = some (record handshake_new { tmp = tmp });
      } in
        let r =
          send_handshake_msg_hash host.set_key host.env p session ht_client_hello
            (some body)
            false
            w in
        (r.0 ≡ ok (length (message_of body)))
        × (r.1.1.sent ≡ w.sent ++ ((session, datagram_of (message_of body)) ∷ []))
  unfolding send_handshake_msg_hash send_parts handshake_new
  send_first tmp body w short =
      let hdr = (set_handshake_header ht_client_hello (some 0) (length body) 0 (length body)).0 in
      let twelve : length hdr ≡ 12 =
        unfold set_handshake_header int_to_uint8 int_to_uint16 int_to_uint24 in refl in
      send_two client hdr body w (omega (arith, twelve, short))

  -- The body fits into the array.
  client_hello_lem :
      (now : ℕ) (prng : Bytes)
      → length prng ≡ 28
      → let tmp = server_random now prng ++ drop 32 (replicate 64 0) in
        let body =
          int_to_uint16 dtls_version
          ++ (server_random now prng ++ client_hello_rest host.context []) in
        (client_hello host.context handshake_new now prng []
          ≡ some (ok body, record handshake_new { tmp = tmp }))
        × (length body ≤ 113)
  unfolding client_hello hello_handshake client_hello_body in_buffer with_client_random
      handshake_new int_to_uint16
  client_hello_lem now prng given =
      let random = server_random now prng in
      let full : length random ≡ 32 = unfold server_random int_to_uint32 in omega (arith, given) in
      let rest = client_hello_rest host.context [] in
      let kept : take 32 (random ++ drop 32 (replicate 64 0)) ≡ random =
        take-append_length 32 random (drop 32 (replicate 64 0)) full in
      let small : length (int_to_uint16 dtls_version ++ (random ++ rest)) ≤ 113 =
        omega (arith, length-append random rest, full, length-client_hello_rest host.context) in
      let inside : ltb 113 (length (int_to_uint16 dtls_version ++ (random ++ rest))) ≡ false =
        ground (arith, small) in
      (rw (kept, inside) refl, small)

  pub send_first_hello :
      (w : Net)
      → length (host.prng w.asked) ≡ 28
      → let r = dtls_send_client_hello host [] (first_peer session) w in
        (r.0 ≡ ok (length (message_of (first_body host w.asked))))
        × (r.1.0.role ≡ client)
        × (r.1.1.sent
            ≡ w.sent ++ ((session, datagram_of (message_of (first_body host w.asked))) ∷ []))
  unfolding dtls_send_client_hello send_body send_handshake_msg_hash send_parts
  send_first_hello w given =
      let random = server_random (host.env.ticks w.asked) (host.prng w.asked) in
      let tmp = random ++ drop 32 (replicate 64 0) in
      let made = client_hello_lem (host.env.ticks w.asked) (host.prng w.asked) given in
      let sent = send_first tmp (first_body host w.asked) (asked_once w) (omega (arith, made.1)) in
      (
        rw (dtls_send_client_hello, send_body, made.0) (sent.0),
        rw (dtls_send_client_hello, send_body, made.0) refl,
        rw (dtls_send_client_hello, send_body, made.0) (sent.1),
      )
