-- ===== src/Noise.antt =====
-- The Noise transport security of pkg/noise.
pub mod Replay
pub mod Errors
pub mod Crypto
pub mod Cipher
pub mod Symmetric
pub mod Handshake
