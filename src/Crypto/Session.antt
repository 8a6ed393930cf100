-- ===== src/Crypto/Session.antt =====
-- The session manager, shawncore-pq-crypto/src/session_manager.rs: its state, its operations, and
-- the theorems on them.
pub mod State
pub mod Window
pub mod Replay
pub mod Packet
pub mod Handshake
pub mod Agreement
pub mod Authenticated
pub mod Confirmation
pub mod Mutual
pub mod Unconfirmed
pub mod Traffic
pub mod History
