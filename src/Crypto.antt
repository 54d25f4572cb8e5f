-- ===== src/Crypto.antt =====
-- pkg/crypto: secret boxes, and the encrypted container.
pub mod SecretBox
pub mod Container
