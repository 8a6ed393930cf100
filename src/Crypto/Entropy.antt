-- ===== src/Crypto/Entropy.antt =====
-- The entropy of shawncore-pq-crypto: the queue that the host fills (entropy_queue.rs), and the pool
-- that it is mixed into and drawn from (entropy_pool.rs).
pub mod Queue
pub mod Fifo
pub mod Pool
pub mod Mixing
pub mod Keystream
pub mod Drain
