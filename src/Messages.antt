-- ===== src/Messages.antt =====
-- dtls.c: the handshake messages but for ServerHello and Finished: for each, the body that is sent
-- and the check of the message that is received.
pub mod Certificate
pub mod ServerKeyExchange
pub mod CertificateRequest
pub mod CertificateVerify
pub mod ClientKeyExchange
pub mod HelloVerify
pub mod ClientHello
mod Tests
