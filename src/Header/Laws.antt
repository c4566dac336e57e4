-- ===== src/Header/Laws.antt =====
-- The headers that are written are the headers that are read.
use tinydtls.Numeric.{int_to_uint8, int_to_uint16, int_to_uint24, int_to_uint48}
use tinydtls.Header.{
  is_record, Security, set_record_header, set_handshake_header, msg_type, message_seq,
  fragment_length, record_epoch,
}
use tinydtls.Numeric.RoundTrip.{uint16_to_int-int_to_uint16, uint24_to_int-int_to_uint24}
use tinydtls.Base.{
  length-append, refl, some, take, ℕ, ◌%◌, ◌++◌, ◌+◌, ◌<◌, ◌^◌, Bytes, arith, length, ◌≡◌, ◌≤◌, ◌⊎◌,
}

-- A record that is found lies whole in the datagram and has a header, so that the loop over the
-- records of a datagram moves on by at least 13 bytes.
pub is_record_bounds :
    (msg : Bytes) → (is_record msg ≡ 0) ⊎ ((13 ≤ is_record msg) × (is_record msg ≤ length msg))
unfolding is_record
is_record_bounds msg = ground arith

-- A handshake header that is written has 12 bytes, is read back with its type, its sequence number
-- and the length of its fragment, cut to their widths, and moves the counter on by one.
pub set_handshake_header_lem :
    (type mseq_s len offset frag : ℕ) (body : Bytes)
    → let (h, next) = set_handshake_header type (some mseq_s) len offset frag in
      (length h ≡ 12)
      × (msg_type (h ++ body) ≡ type % 2 ^ 8)
      × (message_seq (h ++ body) ≡ mseq_s % 2 ^ 16)
      × (fragment_length (h ++ body) ≡ frag % 2 ^ 24)
      × (next ≡ some ((mseq_s + 1) % 2 ^ 16))
unfolding set_handshake_header message_seq fragment_length int_to_uint8 int_to_uint16 int_to_uint24
set_handshake_header_lem type mseq_s len offset frag body =
    (refl, refl, uint16_to_int-int_to_uint16 mseq_s _, uint24_to_int-int_to_uint24 frag body, refl)

-- A record whose header has the length of its payload set is found whole, whatever follows it in the
-- datagram, and its epoch is read back.
pub is_record-set_record_header :
    (type : ℕ) (s : Security) (payload rest : Bytes)
    → length payload < 2 ^ 16
    → let h = (set_record_header type (some s)).0 in
      let msg = take 11 h ++ (int_to_uint16 (length payload) ++ (payload ++ rest)) in
      (is_record msg ≡ 13 + length payload) × (record_epoch msg ≡ s.epoch % 2 ^ 16)
unfolding is_record set_record_header record_epoch int_to_uint8 int_to_uint16 int_to_uint48
is_record-set_record_header type s payload rest h = (
  ground (
    arith,
    uint16_to_int-int_to_uint16 (length payload) (payload ++ rest),
    length-append payload rest,
  ),
  uint16_to_int-int_to_uint16 s.epoch _,
)
