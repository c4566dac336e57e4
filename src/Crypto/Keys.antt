-- ===== src/Crypto/Keys.antt =====
-- crypto.h: the two ends of a connection cut one key block into the same keys.
use tinydtls.Base.{
  sym, take-append-drop, take_all, length-drop, ◌≤◌, Bytes, arith, length, refl, ◌++◌, ◌≡◌,
}
use tinydtls.Crypto.{
  Role, client, server, kb_remote_write_key, kb_local_write_key, kb_remote_iv, kb_local_iv,
  dtls_kb_size, kb_server_iv, kb_client_iv, kb_server_write_key,
}

abbrev pub other_end : Role → Role
other_end client = server
other_end server = client

-- What one end writes with, the other end reads with.
pub local-eq-remote :
    (kb : Bytes) (r : Role)
    → (kb_local_write_key kb r ≡ kb_remote_write_key kb (other_end r))
      × (kb_local_iv kb r ≡ kb_remote_iv kb (other_end r))
unfolding kb_remote_write_key kb_local_write_key kb_remote_iv kb_local_iv
local-eq-remote kb client = (refl, refl)
local-eq-remote kb server = (refl, refl)

-- The length of the part behind the keys and the first IV.
length-kb_server_iv : (kb : Bytes) → length kb ≡ dtls_kb_size → length (kb_server_iv kb) ≤ 4
length-kb_server_iv kb h = omega (
  arith,
  length-drop 4 (kb_client_iv kb),
  length-drop 16 (kb_server_write_key kb),
  length-drop 16 kb,
  h,
)

rejoin :
    (kb : Bytes)
    → length kb ≡ dtls_kb_size
    → kb_local_write_key kb client
        ++ (kb_local_write_key kb server ++ (kb_local_iv kb client ++ kb_local_iv kb server))
      ≡ kb
unfolding kb_local_write_key kb_local_iv
rejoin kb h = rw (
  take_all 4 (kb_server_iv kb) (length-kb_server_iv kb h),
  take-append-drop 4 (kb_client_iv kb),
  take-append-drop 16 (kb_server_write_key kb),
  take-append-drop 16 kb,
)

-- A block of the size that is derived is the four parts in a row, each used once.
pub key_block_parts :
    (kb : Bytes) (r : Role)
    → length kb ≡ dtls_kb_size
    → (kb_local_write_key kb r ≡ kb_remote_write_key kb (other_end r))
      × (kb_local_iv kb r ≡ kb_remote_iv kb (other_end r))
      × (kb
          ≡ kb_local_write_key kb client
            ++ (kb_local_write_key kb server ++ (kb_local_iv kb client ++ kb_local_iv kb server)))
key_block_parts kb r h = ((local-eq-remote kb r).0, (local-eq-remote kb r).1, sym (rejoin kb h))
