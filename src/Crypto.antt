-- ===== src/Crypto.antt =====
-- core/crypto: channel keys, nonces, packet decryption and what a signature covers.
pub mod Keys
pub mod Nonce
pub mod Packet
