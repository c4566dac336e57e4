-- ===== src/Header/Tests.antt =====
-- Runs of the headers.
use tinydtls.Base.{Bytes, [], arith, length, some, take, ◌%◌, ◌++◌, ◌+◌, ◌^◌, ◌∷◌, ◌≡◌}
use tinydtls.Numeric.{int_to_uint16}
use tinydtls.Header.{is_record, Security, set_record_header, set_handshake_header, record_epoch}
use tinydtls.Header.Laws.{is_record-set_record_header}

abbrev plain : Security
plain = record { compression = 0; cipher = 0; epoch = 1; rseq = 7; key_block = [] }

abbrev body : Bytes
body = 5 ∷ 6 ∷ []

abbrev written : Bytes
written = (set_handshake_header 1 (some 65535) 3 0 3).0

abbrev datagram : Bytes
datagram =
    take 11 (set_record_header 22 (some plain)).0
    ++ (int_to_uint16 (length body) ++ (body ++ 22 ∷ []))

is_record-set_record_header_example :
    (is_record datagram ≡ 13 + length body) × (record_epoch datagram ≡ plain.epoch % 2 ^ 16)
is_record-set_record_header_example =
    is_record-set_record_header 22 plain body (22 ∷ []) (omega arith)
