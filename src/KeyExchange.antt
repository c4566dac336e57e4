-- ===== src/KeyExchange.antt =====
-- dtls.c: the client's key exchange message, the key block, and the Finished message. The hash is
-- the parameter `hash`; `new_a` and `new_p` say whether the PRF finds memory.
pub mod Finished
pub mod KeyBlock
mod Tests
use tinydtls.Crypto.Keys.{other_end}
use tinydtls.Crypto.{
  Seed, Role, max_keyblock_length, dtls_master_secret_length, dtls_random_length,
  dtls_psk_max_client_identity_len, dtls_prf, dtls_psk_pre_master_secret, dtls_kb_size, client,
  server,
}
use tinydtls.Alert.{
  fail, ok, Result, guard, level_fatal, handshake_failure, internal_error, alert_create,
  alert_fatal_create, ◌>>◌, ◌>>=◌,
}
use tinydtls.Peer.{Peer, Handshake, params_next}
use tinydtls.Base.{
  Bool, Bytes, Option, [], drop, if◌then◌else◌, leb, length, ltb, none, some, take, ℕ, ◌*◌, ◌++◌,
  ◌+◌, ◌==◌, ◌∷◌,
}
use tinydtls.Numeric.{byte_at, uint16_to_int}
use tinydtls.Ccm.{start}
use tinydtls.Cipher.{Context, is_tls_psk_with_aes_128_ccm_8, is_ecdsa_cipher}
use tinydtls.Global.{equals}
use tinydtls.Handshake.{after}
use tinydtls.Header.{dtls_hs_length}

abbrev pub dtls_fin_length : ℕ
dtls_fin_length = 12

-- DTLS_EC_KEY_SIZE and DTLS_MA_KEY_SIZE
abbrev pub dtls_ec_key_size : ℕ
dtls_ec_key_size = 32

abbrev pub dtls_ckxec_length : ℕ
dtls_ckxec_length = 1 + 1 + dtls_ec_key_size + dtls_ec_key_size

abbrev pub dtls_ckxpsk_length_min : ℕ
dtls_ckxpsk_length_min = 2

-- prf_label_master, prf_label_key, prf_label_client, prf_label_server and prf_label_finished, in ASCII
abbrev pub label_master : Bytes
label_master = 109 ∷ 97 ∷ 115 ∷ 116 ∷ 101 ∷ 114 ∷ 32 ∷ 115 ∷ 101 ∷ 99 ∷ 114 ∷ 101 ∷ 116 ∷ []

abbrev pub label_key : Bytes
label_key = 107 ∷ 101 ∷ 121 ∷ 32 ∷ 101 ∷ 120 ∷ 112 ∷ 97 ∷ 110 ∷ 115 ∷ 105 ∷ 111 ∷ 110 ∷ []

abbrev pub label_of : Role → Bytes
label_of client = 99 ∷ 108 ∷ 105 ∷ 101 ∷ 110 ∷ 116 ∷ []
label_of server = 115 ∷ 101 ∷ 114 ∷ 118 ∷ 101 ∷ 114 ∷ []

abbrev pub label_finished : Bytes
label_finished = 32 ∷ 102 ∷ 105 ∷ 110 ∷ 105 ∷ 115 ∷ 104 ∷ 101 ∷ 100 ∷ []

-- check_client_keyexchange for a public point: the same code for ECDHE and for MA.
unfoldable pub read_point : Handshake → Bytes → Result Handshake
read_point h msg =
    let body = drop dtls_hs_length msg in
    do
      guard (leb (dtls_hs_length + dtls_ckxec_length) (length msg))
          (alert_fatal_create handshake_failure)
      guard (byte_at body 0 == 1 + 2 * dtls_ec_key_size) (alert_fatal_create handshake_failure)
      guard (byte_at body 1 == 4) (alert_fatal_create handshake_failure)
      ok (record h {
        other_eph_pub_x = take dtls_ec_key_size (drop 2 body);
        other_eph_pub_y = take dtls_ec_key_size (drop (2 + dtls_ec_key_size) body);
      })

-- Its branch for a pre-shared key.
unfoldable pub read_identity : Handshake → Bytes → Result Handshake
read_identity h msg =
    let id_length = uint16_to_int (drop dtls_hs_length msg) in
    do
      guard (leb (dtls_hs_length + dtls_ckxpsk_length_min) (length msg))
          (alert_fatal_create handshake_failure)
      guard (dtls_hs_length + dtls_ckxpsk_length_min + id_length == length msg)
          (alert_fatal_create handshake_failure)
      guard (leb id_length dtls_psk_max_client_identity_len) (alert_fatal_create internal_error)
      ok (record h { identity = take id_length (drop (dtls_hs_length + 2) msg) })

-- check_client_keyexchange. No cipher suite is of two of the kinds.
unfoldable pub check_client_keyexchange : Context → Handshake → Bytes → Result Handshake
check_client_keyexchange ctx h msg =
    if is_ecdsa_cipher ctx h.hs_cipher
    then read_point h msg
    else if is_tls_psk_with_aes_128_ccm_8 ctx h.hs_cipher
    then read_identity h msg
    else ok h

-- The result of the callback get_psk_info for the key, and of dtls_ecdh_pre_master_secret.
module _ (get_psk : Bytes → Result Bytes) (ecdh : Handshake → Option Bytes) where
  -- The switch of calculate_key_block: the pre-master secret.
  pub pre_master : Context → Handshake → Result Bytes
  pre_master ctx h =
      if is_tls_psk_with_aes_128_ccm_8 ctx h.hs_cipher
      then (do
        psk ← get_psk h.identity
        elim (dtls_psk_pre_master_secret psk max_keyblock_length) [
          | none ↦ fail (alert_fatal_create internal_error)
          | some secret ↦ ok secret
        ])
      else if is_ecdsa_cipher ctx h.hs_cipher
      then elim (ecdh h) [
        | none ↦ fail (alert_fatal_create internal_error)
        | some secret ↦ ok secret
      ]
      else fail (alert_fatal_create internal_error)

module _ (hash : Bytes → Bytes) (new_a new_p : Bool) where
  -- The verify_data of the end `role`: the PRF of the master secret over the label of that end and the digest
  -- of the messages. The master secret is at the start of the union `tmp`.
  pub verify_data : Handshake → Role → Bytes
  verify_data h role =
      let seed : Seed = record {
        label = label_of role;
        random1 = label_finished;
        random2 = hash h.hs_hash;
      } in
      (dtls_prf hash new_a new_p (take dtls_master_secret_length h.tmp) seed dtls_fin_length).1

  -- dtls_send_finished: the body that goes out. The callers pass the label of their own role.
  pub finished_body : Handshake → Role → Bytes
  finished_body h role = verify_data h role

  -- check_finished, for the peer's handshake parameters and our role
  pub check_finished : Handshake → Role → Bytes → Result ℕ
  check_finished h role msg =
      let other = other_end role in
      if ltb (length msg) (dtls_hs_length + dtls_fin_length)
      then fail (alert_fatal_create handshake_failure)
      else if equals (drop dtls_hs_length msg) (verify_data h other) dtls_fin_length == 0
      then fail (alert_create level_fatal handshake_failure)
      else ok 0

  -- The two calls of the PRF: the master secret and the key block. The randoms are the halves of `tmp`.
  pub master_of : Handshake → Bytes → Bytes
  master_of h secret =
      let seed : Seed = record {
        label = label_master;
        random1 = take dtls_random_length h.tmp;
        random2 = drop dtls_random_length h.tmp;
      } in
      (dtls_prf hash new_a new_p secret seed dtls_master_secret_length).1

  pub key_block_of : Handshake → Bytes → Bytes
  key_block_of h master =
      let seed : Seed = record {
        label = label_key;
        random1 = drop dtls_random_length h.tmp;
        random2 = take dtls_random_length h.tmp;
      } in
      (dtls_prf hash new_a new_p master seed dtls_kb_size).1

  module _ (get_psk : Bytes → Result Bytes) (ecdh : Handshake → Option Bytes) where
    -- calculate_key_block: the result, the handshake parameters, whose union `tmp` then starts with the master
    -- secret, and the peer, whose second security parameters are those of the next epoch. `new_ok`
    -- says whether there is memory for them. An error after that leaves what the pre-master secret
    -- has overwritten of their key block, which no code reads; here it is as it was.
    unfoldable pub calculate_key_block :
        Bool → Context → Handshake → Peer → Result ℕ × (Handshake × Peer)
    calculate_key_block new_ok ctx h p =
        let (p', next) = params_next new_ok p in
        elim next [
          | none ↦ (fail (alert_fatal_create internal_error), (h, p'))
          | some s ↦ elim (pre_master get_psk ecdh ctx h) [
            | fail n ↦ (fail n, (h, p'))
            | ok secret ↦
                let master = master_of h secret in
                let s' = record s {
                  key_block = key_block_of h master;
                  cipher = h.hs_cipher;
                  compression = h.hs_compression;
                  rseq = 0;
                } in
                (
                  ok 0,
                  (
                    record h { tmp = master ++ drop dtls_master_secret_length h.tmp },
                    record p' { params1 = some s' },
                  ),
                )
          ]
        ]
