-- ===== src/Lib.antt =====
-- tinydtls: a DTLS 1.2 library. A datagram is a sequence of records. The record layer opens a record
-- with the keys of its epoch and hands its content to the handshake, to the alerts or to the
-- application; the handshake agrees on a cipher suite and derives the keys of the next epoch; what is
-- sent and not yet answered waits in a queue to be sent again.
--
-- Base holds the helpers: Boolean tests, lists over the native numbers, machine words and bits.
-- A buffer is the list of its bytes, a pointer into it the rest of the list from there on, and an
-- output parameter a component of the result. A negative error code -n is `fail n` (Alert).
--
-- Which file models which code:
--   Numeric      numeric.h: dtls_int_to_uintN is int_to_uintN, dtls_uintN_to_int is uintN_to_int
--   Global       global.h: memxor and equals
--   Netq         netq.c and t_list.h: netq_insert_node is insert_node, and so on; nodes have addresses
--   Ccm          ccm.c, with the macros SET_COUNTER and CCM_FLAGS as functions
--   Hmac         hmac.c; a context is its pad and the bytes that the hash has taken in
--   Crypto       crypto.c and crypto.h: the PRF, the pre-master secret and the key block
--   Alert        alert.h, and the decoding in dtls_alert_send_from_err of dtls.c
--   Header       dtls.h and dtls.c: the headers of records and of handshake messages
--   Peer         peer.c, peer.h, session.c, state.h: peers, sessions, epochs
--   Record       dtls.c: dtls_prepare_record and decrypt_verify; crypto.c: dtls_encrypt, dtls_decrypt
--   Cipher       dtls.c: the predicates on cipher suites; the handlers of a context are Booleans
--   Cookie       dtls.c: dtls_get_cookie, dtls_create_cookie, dtls_verify_peer
--   Extension    dtls.c: verify_ext_* and dtls_check_tls_extension
--   ClientHello  dtls.c: dtls_update_parameters
--   KeyExchange  dtls.c: check_client_keyexchange, calculate_key_block, check_finished
--   Handshake    dtls.c: handle_handshake_msg, one function for each case of its switch; and in
--                Handshake/Reorder handle_handshake, with the queue of messages that came too early
--   ServerHello  dtls.c: dtls_send_server_hello up to the sending, and check_server_hello
--   Signature    dtls.c: dtls_add_ecdsa_signature_elem, dtls_check_ecdsa_signature_elem; crypto.c:
--                dtls_ec_key_from_uint32_asn1; and in Signature/Ecdsa the functions of crypto.c that
--                call the curve library
--   Connect      dtls.c: dtls_connect, dtls_connect_peer, dtls_renegotiate, dtls_write
--   Messages     dtls.c: for each of the other messages the body that is sent and the check of what is
--                received, one file for each message
--   Send         dtls.c: dtls_send_multi and the functions over it: handshake messages, alerts,
--                ChangeCipherSpec
--   Endpoint     dtls.c: dtls_send_server_hello and the other functions that send one message,
--                dtls_send_server_hello_msgs, check_server_hellodone; and in Endpoint/Answers
--                everything that handle_handshake_msg calls, as a record
--   Dispatch     dtls.c: handle_ccs, handle_alert, dtls_alert_send_from_err, dtls_close,
--                dtls_destroy_peer; and in Dispatch/Records the loop of dtls_handle_message
--   Retransmit   dtls.c: dtls_retransmit, dtls_stop_retransmission, dtls_check_retransmit, and the
--                part of dtls_send_multi that keeps a message
--
-- How the parts interact: Record uses Ccm, the key block of Crypto and the epochs of Peer. Cookie and
-- Crypto use Hmac, and KeyExchange uses Crypto and Peer. Handshake takes the checks of single
-- messages and the sending functions as the fields of the record Calls; the law that they leave the
-- state of the peer alone is the record KeepsState. Endpoint/Answers fills Calls with the functions
-- of KeyExchange, ServerHello, Messages and Cookie, on the parameters of the peer, and with those that
-- send, which use Send; Endpoint/Keeps shows the law, and Endpoint/Datagram puts all of it under
-- dtls_handle_message. Send uses Record for the datagram and Retransmit for what is kept. Dispatch takes
-- a datagram apart with Header, opens its records with Record, hands handshake messages to Handshake/Reorder, and takes the alert that goes out, the key
-- block and the callbacks as the fields of the record Services. The table of peers is, for the
-- session of a datagram, the list of its entries, where an entry that is added hides the older ones.
-- Connect uses Endpoint for the ClientHello and Send for data. Retransmit works on the queue of Netq.
--
-- Parameters: the hash function of sha2 (`hash`), the block cipher of aes (`aes`) and its key schedule
-- (`set_key`), the curve library ecc (the record Ecc, with its laws in EcdsaLaws), the callbacks for keys
-- and identities, the clock, dtls_prng, `write`, and whether an allocation finds memory (Booleans or
-- Options). What changes from call to call is a function of how often the outside was asked: the
-- records Env of Send and Host of Endpoint. Theorems that need it assume a digest of 32 bytes or
-- blocks of 16 bytes. The two loops that draw random numbers until the curve library takes one run
-- over a finite list of numbers.
--
-- Fuel: the output loop of the PRF runs on the number of bytes to go plus one, each round writes 32;
-- netq_delete_all on the number of nodes plus one; the loop over extensions on the number of bytes
-- plus one, each round takes four; the overrunning cipher loop on the length of the message plus one,
-- each round takes two; handing on the messages that were held back on the number of nodes plus one,
-- each round removes one; the loop over the records of a datagram on the number of bytes plus one,
-- each round takes thirteen at least; dtls_check_retransmit on the sum of the sendings that the nodes
-- have left plus one.
--
-- Not modelled: the hash table of peers (uthash), the curve arithmetic, the multilevel authentication
-- engine, clock, random numbers, debug output and Contiki, and the construction and release of a
-- context, which is allocation. Reads behind the end of a buffer give 0, where a definition does not
-- say otherwise; `none` stands for a write or read that the code leaves open there. An assert is taken
-- as compiled out: where one can fail, the code behind it goes on.
pub mod Alert
pub mod Base
pub mod Ccm
pub mod Cipher
pub mod ClientHello
pub mod Connect
pub mod Cookie
pub mod Crypto
pub mod Dispatch
pub mod Endpoint
pub mod Extension
pub mod Global
pub mod Handshake
pub mod Header
pub mod Hmac
pub mod KeyExchange
pub mod Messages
pub mod Netq
pub mod Numeric
pub mod Peer
pub mod Record
pub mod Retransmit
pub mod Send
pub mod ServerHello
pub mod Signature
