-- ===== src/Lib.antt =====
-- ShawnCore: a post-quantum session layer (shawncore-pq-crypto) and synchronization primitives for a
-- real-time host (shawncore-rtos-sync). The host calls both through C interfaces, which check
-- pointers and pass on; the two crates do not call each other.
--
-- The crate shawncore-pq-crypto is modelled under Crypto.
--   Crypto.Primitives: the cryptographic crates (chacha20, hmac, hkdf, sha2, subtle, ml-kem,
--     x25519-dalek, ml-dsa) as a record of functions that every definition takes, and what their
--     documentation promises as records of laws: equality by constant-time comparison, a keystream
--     that undoes itself, key exchanges that agree, signatures that verify.
--   Crypto.Wrappers, Crypto.Kdf, Crypto.Auth, Crypto.Aead: ml_kem_wrapper.rs, x25519_wrapper.rs,
--     ml_dsa_wrapper.rs, hybrid_kdf.rs, auth_handshake.rs and aead_wrapper.rs, function by function.
--     Crypto.Aead.InPlace has the in-place variants, Crypto.Aead.Unambiguous and
--     Crypto.Auth.Unambiguous read the authenticated and hashed encodings back.
--   Crypto.Session: session_manager.rs. State holds the struct SessionManager and its resets, Window
--     the nonces and the replay window, Packet encrypt_packet, decrypt_packet and the key checksums,
--     Handshake the handshake without authentication, Authenticated the one with signatures and key
--     confirmation. Their theorems stand in Replay (the window), Traffic (single packets), History
--     (any sequence of packet calls), Agreement and Mutual (two honest sides), Confirmation (what an
--     attacker's message can do) and Unconfirmed (a session before its peer is confirmed).
--   Crypto.Entropy: entropy_queue.rs (Queue, Fifo) and entropy_pool.rs (Pool; Mixing, Keystream and
--     Drain have its theorems).
--   Crypto.Ffi: ffi.rs and ffi_error.rs, the C interface. The parent has the memory of the host and the
--     pointer checks, Ranges and Memory what they mean; Packets the packet calls, with Sealing, Opening
--     and Delivery; Handshake and Authenticated the handshake calls, with
--     Failure and Outputs; Aead, Keys, Wire and Entropy the others.
--
-- The crate shawncore-rtos-sync is modelled under Rtos.
--   Rtos.Scheduler: bitmap_scheduler.rs and tcb.rs, with Bitmap, Selection, Watchdog and Invariant.
--   Rtos.Ring: ring_buffer.rs; Valid says which queue a ring stands for, Push and Pop treat one call,
--     Queue any sequence of calls.
--   Rtos.Spsc: spsc_queue.rs; Queue compares it with the ring. Concurrent splits push and pop into
--     steps of two threads; Slots, Invariant, Waiting, Moves, Clear, Advance and Preservation lead to
--     Order.
--   Rtos.Spinlock: interrupt_spinlock.rs as a step relation, with Exclusion and Flags.
--   Rtos.StateMachine: state_machine.rs; Transitions lets any number of threads race on the cell,
--     Advance treats the loop of one of them.
--   Rtos.Latency: latency_tracker.rs.
--   Rtos.Ffi: telemetry_queue.rs, and from ffi.rs and ffi_error.rs the codes, the pointer checks and the
--     calls of the telemetry queue, with Telemetry for sequences of them and the queue that
--     they are compared with in TelemetryQueue.
--   Rtos.Pool: static_dma_pool.rs, with Ownership and Tokens for its tokens and FreeList for
--     the slots that are free.
--
-- How code becomes a definition. A method on `&mut self` takes the state and returns its result beside
-- the new state; an output buffer is passed in and returned. Result is the type of Base.Results. A
-- word of w bits is a native number; wrapping and saturating operations and shifts are written out.
-- Key objects of a crate stand for the bytes that encode them. Atomic cells are fields: a call of the
-- ring, the tracker or the pool runs to its end before the next, as their ownership rules say for the
-- first two (the SPSC queue also has its two threads interleaved, one access at a time, each seen by
-- both in that order); the state machine's loop meets other threads and spurious failures at every turn, as a
-- list of moments, and one moment without either is enough for it to end. No other definition needs
-- fuel. The wiping of memory, cache callbacks and fences leave no trace in a value.
--
-- Pointers of the C interface are addresses, 0 for null. The host's memory is a function from addresses
-- to bytes; the objects that are opaque to C (sessions, keys, ciphertexts, signatures) are kept by
-- address beside it, with their sizes and alignments as parameters. How the compiler lays an object
-- out is not modelled: what the memory has at an object's addresses says nothing, and theorems on bytes
-- leave those addresses out. The pool's extraction loop gets as
-- much fuel as the buffer has bytes, and each turn writes at least one.
--
-- Not modelled: the C interface of shawncore-rtos-sync but for its telemetry queue, the destroy calls,
-- size queries, self test and panic hook of the other, the registration of host callbacks, racing calls on the ring and the
-- pools, weak memory orderings, timing and secrecy; tests, benchmarks, fuzz targets and validation tools.
--
-- Base has the shared helpers: native lists, bits, results, byte encodings. Examples modules run the
-- theorems at concrete inputs; Crypto.Toy has the primitives that run there.
pub mod Base
pub mod Crypto
pub mod Rtos
