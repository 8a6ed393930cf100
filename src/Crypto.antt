-- ===== src/Crypto.antt =====
-- The crate shawncore-pq-crypto.
pub mod Error
pub mod Primitives
pub mod Wrappers
pub mod Aead
pub mod Kdf
pub mod Auth
pub mod Session
pub mod Entropy
pub mod Ffi
mod Toy
mod Examples
