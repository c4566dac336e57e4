-- ===== src/KeyExchange/Finished.antt =====
-- The Finished message.
use tinydtls.Base.{
  ℕ, ap, drop-append_length, length-append, ltb, refl, arith, length-drop, sym, take_all, ◌∙◌, Bool,
  Bytes, drop, false, length, replicate, take, true, ◌++◌, ◌↔◌, ◌≡◌, ◌≤◌,
}
use tinydtls.Crypto.Prf.{dtls_prf-no_memory, length-dtls_prf}
use tinydtls.Crypto.{Seed, dtls_master_secret_length, Role, client, server}
use tinydtls.KeyExchange.{
  label_of, label_finished, ok, dtls_fin_length, verify_data, finished_body, check_finished,
}
use tinydtls.Global.{equals}
use tinydtls.Global.Laws.{equals_iff}
use tinydtls.Peer.{Handshake}
use tinydtls.Crypto.Keys.{other_end}

other_end_involutive : (r : Role) → other_end (other_end r) ≡ r
other_end_involutive client = refl
other_end_involutive server = refl

-- The comparison of a long enough message with 12 bytes.
compared :
    (msg v : Bytes)
    → 24 ≤ length msg
    → length v ≡ 12
    → ((equals (drop 12 msg) v 12 ≡ 1) ↔ (take 12 (drop 12 msg) ≡ v))
      × (equals (drop 12 msg) v 12 ≤ 1)
compared msg v long size =
    let (same, most) =
      equals_iff (drop 12 msg) v 12 (omega (arith, length-drop 12 msg)) (omega (arith, size)) in
    let all : take 12 v ≡ v = take_all 12 v (omega (arith, size)) in
    ((λ e. same.0 e ∙ all, λ e. same.1 (e ∙ sym all)), most)

module _ (hash : Bytes → Bytes) (new_a new_p : Bool) (h : Handshake) (role : Role) (msg : Bytes)
    (size : length (verify_data hash new_a new_p h (other_end role)) ≡ 12) where
  accepted :
      check_finished hash new_a new_p h role msg ≡ ok 0
      → (24 ≤ length msg)
        × (take 12 (drop 12 msg) ≡ verify_data hash new_a new_p h (other_end role))
  unfolding check_finished
  accepted e =
      let long : 24 ≤ length msg = ground arith in
      let (same, most) = compared msg (verify_data hash new_a new_p h (other_end role)) long size in
      (long, same.0 (ground (arith, most)))

  accepts :
      24 ≤ length msg
      → take 12 (drop 12 msg) ≡ verify_data hash new_a new_p h (other_end role)
      → check_finished hash new_a new_p h role msg ≡ ok 0
  unfolding check_finished
  accepts long e =
      let (same, most) = compared msg (verify_data hash new_a new_p h (other_end role)) long size in
      let enough : ltb (length msg) 24 ≡ false = ground arith in rw (enough, same.1 e)

module _ (hash : Bytes → Bytes) (digest : (m : Bytes) → length (hash m) ≡ 32) where
  -- Where the PRF has memory it gives 12 bytes.
  length-verify_data :
      (h : Handshake) (role : Role) → length (verify_data hash true true h role) ≡ dtls_fin_length
  unfolding verify_data
  length-verify_data h role =
      let seed : Seed = record {
        label = label_of role;
        random1 = label_finished;
        random2 = hash h.hs_hash;
      } in
      length-dtls_prf hash digest 1 (take dtls_master_secret_length h.tmp) seed 12 (omega arith)

  -- A message is accepted as the Finished message exactly where it has at least 24 bytes and, behind the
  -- header, the verify_data of the other end, for PRF calls that find memory and a digest of 32 bytes.
  pub check_finished_iff :
      (h : Handshake) (role : Role) (msg : Bytes)
      → (check_finished hash true true h role msg ≡ ok 0) ↔ (
          (24 ≤ length msg)
          × (take 12 (drop 12 msg) ≡ verify_data hash true true h (other_end role)))
  check_finished_iff h role msg =
      let size = length-verify_data h (other_end role) in
      (
        accepted hash true true h role msg size,
        λ (long, e). accepts hash true true h role msg size long e,
      )

  -- The Finished message that one end sends is accepted by the other end, for two ends with the same master
  -- secret that have hashed the same messages, whatever the header is.
  pub check_finished-finished_body :
      (h : Handshake) (role : Role) (header : Bytes)
      → length header ≡ 12
      → check_finished hash true true h
          (other_end role)
          (header ++ finished_body hash true true h role)
        ≡ ok 0
  unfolding finished_body
  check_finished-finished_body h role header size =
      let v = verify_data hash true true h role in
      let long = length-verify_data h role in
      let same = other_end_involutive role in
      let size' : length (verify_data hash true true h (other_end (other_end role))) ≡ 12 =
        rw same long in
      accepts hash true true h (other_end role) (header ++ v) size'
        (omega (arith, length-append header v, size, long))
        (rw (drop-append_length 12 header v size, same) (take_all 12 v (omega (arith, long))))

-- Where the first allocation of the PRF fails, a message with zeros for its verify_data is accepted.
pub check_finished-no_memory :
    (hash : Bytes → Bytes) (new_p : Bool) (h : Handshake) (role : Role) (header : Bytes)
    → length header ≡ 12
    → check_finished hash false new_p h role (header ++ replicate 12 0) ≡ ok 0
unfolding verify_data
check_finished-no_memory hash new_p h role header size =
    let zeros =
      dtls_prf-no_memory hash new_p (take dtls_master_secret_length h.tmp)
        (record {
          label = label_of (other_end role);
          random1 = label_finished;
          random2 = hash h.hs_hash;
        })
        12 in
    accepts hash false new_p h role (header ++ replicate 12 0) (ap length zeros)
      (omega (arith, length-append header (replicate 12 0), size))
      (rw (drop-append_length 12 header (replicate 12 0) size) (sym zeros))

-- The result of a success is 0.
pub check_finished-ok :
    (hash : Bytes → Bytes) (new_a new_p : Bool) (h : Handshake) (role : Role) (msg : Bytes) {n : ℕ}
    → check_finished hash new_a new_p h role msg ≡ ok n
    → check_finished hash new_a new_p h role msg ≡ ok 0
unfolding check_finished
check_finished-ok hash new_a new_p h role msg e = ground arith
