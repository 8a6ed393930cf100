-- ===== src/Rtos/Examples.antt =====
-- The theorems on shawncore-rtos-sync at concrete schedulers, rings and pools.
mod Scheduler
mod Ring
mod Machines
mod Spinlock
mod Concurrent
mod Ffi
