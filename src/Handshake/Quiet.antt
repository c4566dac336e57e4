-- ===== src/Handshake/Quiet.antt =====
-- Calls that always succeed and change nothing, and a peer, for the tests.
use tinydtls.Base.{Bytes, [], false, none, refl, replicate, some, true, ℕ, ◌∷◌}
use tinydtls.Peer.{State, Session, handshake_new, Peer, sin}
use tinydtls.Cipher.{Context}
use tinydtls.Handshake.States.{Keeps}
use tinydtls.Handshake.{Step, Calls}
use tinydtls.Alert.{ok}
use tinydtls.Crypto.{client}

abbrev pub done : Peer → ℕ → Step ℕ
done p w = (ok 0, (p, w))

abbrev pub quiet : Calls ℕ
quiet = record {
  stop_retransmission = λ p w. w;
  check_server_hello_verify_request = λ p d w. done p w;
  check_server_hello = λ p d w. done p w;
  check_server_certificate = λ p d w. done p w;
  check_server_key_exchange_ecdsa = λ p d w. done p w;
  check_server_key_exchange_psk = λ p d w. done p w;
  check_server_hellodone = λ p d w. done p w;
  check_certificate_request = λ p d w. done p w;
  check_finished = λ p d w. done p w;
  check_client_keyexchange = λ p d w. done p w;
  check_client_certificate_verify = λ p d w. done p w;
  update_parameters = λ p d w. done p w;
  verify_session = λ s d w. (ok 0, w);
  verify_peer = λ p s d w. done p w;
  send_ccs = done;
  send_finished = done;
  send_server_hello_msgs = done;
  send_client_hello = done;
  memory = λ w. (true, w);
}

-- They leave everything of the peer.
pub quiet-Keeps : {A : Type 0} (f : Peer → A) → Keeps f quiet
quiet-Keeps f = record {
  server_hello_verify_request = λ p d w. refl;
  server_hello = λ p d w. refl;
  server_certificate = λ p d w. refl;
  server_key_exchange_ecdsa = λ p d w. refl;
  server_key_exchange_psk = λ p d w. refl;
  server_hellodone = λ p d w. refl;
  certificate_request = λ p d w. refl;
  finished_message = λ p d w. refl;
  client_keyexchange = λ p d w. refl;
  client_certificate_verify = λ p d w. refl;
  parameters = λ p d w. refl;
  ccs = λ p w. refl;
  finished_sent = λ p w. refl;
  server_hello_msgs = λ p w. refl;
  client_hello = λ p w. refl;
  verified = λ p s d w. refl;
}

abbrev pub psk_build : Context
psk_build = record {
  dtls_psk = true;
  dtls_ecc = false;
  dtls_ma = false;
  get_psk_info = true;
  get_ecdsa_key = false;
  verify_ecdsa_key = false;
}

abbrev pub sample_session : Session
sample_session = record { size = 16; addr = sin 5684 (127 ∷ 0 ∷ 0 ∷ 1 ∷ []); ifindex = 0 }

abbrev pub peer_in : State → Peer
peer_in s = record {
  session = sample_session;
  role = client;
  state = s;
  params0 = none;
  params1 = none;
  handshake = some handshake_new;
}

-- The start of a message of a type.
abbrev pub message : ℕ → Bytes
message type = type ∷ replicate 11 0
