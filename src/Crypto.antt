-- ===== src/Crypto.antt =====
-- reverssh/crypto: the ciphers that the packet layer uses.
pub mod Chacha
pub mod Poly1305
pub mod Curve25519
pub mod Ed25519
mod Tests
