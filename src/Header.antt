-- ===== src/Header.antt =====
-- dtls.h and dtls.c: the headers of records and of handshake messages. A setter returns the bytes
-- that it writes; the pointer that it returns is behind them.
pub mod Laws
mod Tests
use tinydtls.Base.{
  Bytes, Option, drop, if◌then◌else◌, leb, length, ltb, none, replicate, shr, some, u16, u64, u8, ℕ,
  ◌&&◌, ◌++◌, ◌+◌, ◌==◌,
}
use tinydtls.Numeric.{
  byte_at, int_to_uint8, int_to_uint16, int_to_uint24, int_to_uint48, uint16_to_int, uint24_to_int,
}

abbrev pub dtls_version : ℕ
dtls_version = 0xfefd

-- sizeof of the packed structs dtls_record_header_t, dtls_handshake_header_t, dtls_client_hello_t
-- and dtls_hello_verify_t
abbrev pub dtls_rh_length : ℕ
dtls_rh_length = 13

abbrev pub dtls_hs_length : ℕ
dtls_hs_length = 12

abbrev pub dtls_ch_length : ℕ
dtls_ch_length = 34

abbrev pub dtls_hv_length : ℕ
dtls_hv_length = 3

-- The length of the record at the start of `msg`, or 0. The check of the content type is not
-- compiled in (DTLS_CHECK_CONTENTTYPE).
unfoldable pub is_record : Bytes → ℕ
is_record msg =
    let rlen = dtls_rh_length + uint16_to_int (drop 11 msg) in
    if leb dtls_rh_length (length msg)
      && (byte_at msg 1 == u8 (shr dtls_version 8))
      && (byte_at msg 2 == u8 dtls_version)
    then (if ltb (length msg) rlen then 0 else rlen)
    else 0

-- dtls_security_parameters_t
pub record Security : Type 0 where
  pub compression : ℕ
  pub cipher : ℕ
  pub epoch : ℕ
  pub rseq : ℕ
  pub key_block : Bytes

-- dtls_set_record_header: the header, and the security parameters with the next sequence number.
unfoldable pub set_record_header : ℕ → Option Security → Bytes × Option Security
set_record_header type none =
    (int_to_uint8 type ++ (int_to_uint16 dtls_version ++ (replicate 8 0 ++ replicate 2 0)), none)
set_record_header type (some s) = (
  int_to_uint8 type
      ++ (int_to_uint16 dtls_version
          ++ (int_to_uint16 s.epoch ++ (int_to_uint48 s.rseq ++ replicate 2 0))),
  some (record s { rseq = u64 (s.rseq + 1) }),
)

-- dtls_set_handshake_header; `mseq_s` is the counter of the peer's handshake parameters, if it has
-- any, and is returned increased.
unfoldable pub set_handshake_header : ℕ → Option ℕ → ℕ → ℕ → ℕ → Bytes × Option ℕ
set_handshake_header type none len frag_offset frag_length = (
  int_to_uint8 type
      ++ (int_to_uint24 len
          ++ (replicate 2 0 ++ (int_to_uint24 frag_offset ++ int_to_uint24 frag_length))),
  none,
)
set_handshake_header type (some mseq_s) len frag_offset frag_length = (
  int_to_uint8 type
      ++ (int_to_uint24 len
          ++ (int_to_uint16 mseq_s ++ (int_to_uint24 frag_offset ++ int_to_uint24 frag_length))),
  some (u16 (mseq_s + 1)),
)

-- The fields of a handshake header.
abbrev pub msg_type : Bytes → ℕ
msg_type d = byte_at d 0

pub message_seq : Bytes → ℕ
message_seq d = uint16_to_int (drop 4 d)

unfoldable pub fragment_length : Bytes → ℕ
fragment_length d = uint24_to_int (drop 9 d)

-- dtls_get_epoch
pub record_epoch : Bytes → ℕ
record_epoch msg = uint16_to_int (drop 3 msg)
