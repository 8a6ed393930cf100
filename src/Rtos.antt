-- ===== src/Rtos.antt =====
-- The crate shawncore-rtos-sync.
pub mod Error
pub mod Scheduler
pub mod Ring
pub mod Spsc
pub mod Spinlock
pub mod StateMachine
pub mod Latency
pub mod Pool
pub mod Ffi
mod Examples
