-- ===== src/ServerHello/Short.antt =====
-- The first test of check_server_hello is too weak.
use tinydtls.Base.{
  Bytes, arith, drop, false, length, length-drop, ltb, none, refl, true, ◌<◌, ◌≡◌, ◌≤◌,
}
use tinydtls.Numeric.{uint16_to_int}
use tinydtls.Peer.{State, Handshake}
use tinydtls.Cipher.{Context}
use tinydtls.Header.{dtls_version}
use tinydtls.ServerHello.{read_random, check_server_hello}

-- A ServerHello message of 24 to 45 bytes with the right version passes the test of its length, and
-- check_server_hello then reads behind its end.
pub check_server_hello_short :
    (ctx : Context) (state : State) (h : Handshake) (msg : Bytes)
    → 24 ≤ length msg
    → length msg < 46
    → uint16_to_int (drop 12 msg) ≡ dtls_version
    → check_server_hello ctx state h msg ≡ none
unfolding check_server_hello read_random
check_server_hello_short ctx state h msg long short version =
    let passes : ltb (length msg) 24 ≡ false = ground (arith, long) in
    let too_short : ltb (length (drop 2 (drop 12 msg))) 32 ≡ true =
      ground (arith, length-drop 2 (drop 12 msg), length-drop 12 msg, short) in
    rw (passes, version, too_short) refl
