-- ===== src/Rtos/Error.antt =====
-- shawncore-rtos-sync/src/error.rs.
pub data AllocatorError : Type 0 where
  out_of_memory address_out_of_bounds invalid_alignment lock_contention : AllocatorError
  double_free not_initialized already_initialized : AllocatorError

pub data IpcError : Type 0 where
  queue_full not_initialized already_initialized invalid_memory : IpcError

pub data SchedulerError : Type 0 where
  task_fault : SchedulerError
