-- ===== src/Crypto/Examples.antt =====
-- The theorems on shawncore-pq-crypto at concrete sessions, keys and packets.
mod Handshake
mod Packets
mod Encodings
mod Entropy
mod Ffi
