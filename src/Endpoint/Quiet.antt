-- ===== src/Endpoint/Quiet.antt =====
-- An end for tests, with a pre-shared key and a network that takes every datagram.
use tinydtls.Base.{
  ◌∷◌, ◌+◌, arith, length, length-append, length-take, take, ◌++◌, Bytes, replicate, true, ◌≡◌,
  none, [], some,
}
use tinydtls.Endpoint.{Host}
use tinydtls.Handshake.Quiet.{psk_build}
use tinydtls.Alert.{ok, fail}
use tinydtls.Send.{Net}
use tinydtls.Signature.Ecdsa.{Ecc}

abbrev pub pad_hash : Bytes → Bytes
pad_hash m = take 32 (m ++ replicate 32 0)

pub length-pad_hash : (m : Bytes) → length (pad_hash m) ≡ 32
length-pad_hash m =
    omega (arith, length-take 32 (m ++ replicate 32 0), length-append m (replicate 32 0))

abbrev pub no_curve : Ecc
no_curve = record {
  is_valid_key = λ priv. true;
  gen_pub_key = λ priv. ([], []);
  ecdh = λ x y priv. [];
  sign = λ priv digest rand. none;
  validate = λ x y digest r s. true;
}

-- An end with a pre-shared key, whose datagrams all go out.
abbrev pub psk_host : Host
psk_host = record {
  context = psk_build;
  env = record {
    self = 1;
    ticks = λ k. k;
    node = λ k. some (100 + k);
    write = λ k session buf. ok (length buf);
  };
  set_key = λ key. none;
  hash = pad_hash;
  ecc = no_curve;
  prng = λ k. replicate 28 k;
  draws = λ k. [];
  nonces = λ k. [];
  found = λ k. true;
  cookie_secret = replicate 12 3;
  address = λ session. [];
  get_psk_identity = λ session hint. ok (1 ∷ []);
  get_psk_hint = λ session. ok [];
  get_psk_key = λ session id. ok (2 ∷ []);
  get_ecdsa_key = λ session. fail 1;
  verify_ecdsa_key = λ session x y. ok 0;
  beyond = fail 1;
}

abbrev pub no_net : Net
no_net = record { asked = 0; sendqueue = []; sent = [] }
