-- ===== src/Record/Tests.antt =====
-- A record between two ends, with a block cipher that pads.
use tinydtls.Record.Fresh.{prepared}
use tinydtls.Record.Nonces.{prepared-AllOwnNonce, AllSealed, AllOwnNonce}
use tinydtls.Base.{
  ℕ, List, concat, Bytes, Option, [], arith, length, length-append, length-take, refl, replicate,
  some, take, ◌++◌, ◌+◌, ◌∷◌, ◌≡◌,
}
use tinydtls.Record.{ok, dtls_prepare_record, open_record}
use tinydtls.Header.{Security}
use tinydtls.Record.Overrun.{prepare_record-length}
use tinydtls.Record.RoundTrip.{open_record-prepare_record}
use tinydtls.Crypto.Keys.{other_end}
use tinydtls.Crypto.{client}

abbrev pad_block : Bytes → Bytes
pad_block b = take 16 (b ++ replicate 16 0)

length-pad_block : (b : Bytes) → length (pad_block b) ≡ 16
length-pad_block b =
    omega (arith, length-take 16 (b ++ replicate 16 0), length-append b (replicate 16 0))

abbrev any_key : Bytes → Option (Bytes → Bytes)
any_key key = some pad_block

abbrev sealing : Security
sealing = record {
  compression = 0;
  cipher = 0xC0A8;
  epoch = 1;
  rseq = 4;
  key_block = replicate 40 8;
}

abbrev payload : Bytes
payload = 1 ∷ 2 ∷ 3 ∷ []

prepare_record-length_example :
    (r : Bytes) × ((dtls_prepare_record any_key (some sealing) client 23 (payload ∷ []) 24).0 ≡ ok r
      × length r ≡ length payload + 29)
prepare_record-length_example =
    prepare_record-length any_key sealing client 23 length-pad_block refl 24 payload refl
      (omega arith)

-- The record that the client prepares.
abbrev sent :
    (r : Bytes) × ((dtls_prepare_record any_key (some sealing) client 23 (payload ∷ []) 1400).0
        ≡ ok r
      × length r ≡ length payload + 29)
sent =
    prepare_record-length any_key sealing client 23 length-pad_block refl 1400 payload refl
      (omega arith)

open_record-prepare_record_example :
    open_record any_key sealing (other_end client) sent.0 ≡ ok (concat (payload ∷ []))
open_record-prepare_record_example =
    open_record-prepare_record any_key sealing client 23 length-pad_block refl 1400 (payload ∷ [])
      sent.1.0

abbrev two_messages : List (ℕ × List Bytes)
two_messages = (23, payload ∷ []) ∷ (21, payload ∷ []) ∷ []

prepared-AllOwnNonce_example :
    AllSealed any_key client sealing.key_block two_messages
      (prepared any_key client (some sealing) two_messages)
    × AllOwnNonce any_key client sealing.key_block
        (prepared any_key client (some sealing) two_messages)
prepared-AllOwnNonce_example =
    prepared-AllOwnNonce any_key client sealing two_messages refl (omega arith)
