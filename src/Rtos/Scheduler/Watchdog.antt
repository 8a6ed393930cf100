-- ===== src/Rtos/Scheduler/Watchdog.antt =====
-- The watchdog of bitmap_scheduler.rs.
use shawn_core_libraries.Base.{ℕ, true, false, ◌≡◌, ◌≢◌, ap, arith, bit_and}
use shawn_core_libraries.Base.Bits.{bit, bit-le-one, bit-bit_and}
use shawn_core_libraries.Rtos.Scheduler.{
  PerCoreScheduler, Memory, task, intact, has_context, next_ok, select, schedule_tick,
}

-- What must have held when a tick petted the watchdog, and what it left.
pub record Petted (memory : Memory) (s : PerCoreScheduler) (current_rsp : ℕ) (s' : PerCoreScheduler)
    : Type 0 where
  pub required : s.critical_task_mask ≢ 0
  pub checked_in : (i : ℕ) → bit s.critical_task_mask i ≡ 1 → bit s.watchdog_matrix i ≡ 1
  pub current_safe :
      has_context s current_rsp ≡ true → intact memory (task s s.current_task) current_rsp ≡ true
  pub next_safe :
      (task s' s'.current_task).stack_base ≢ 0
      → intact memory (task s' s'.current_task) (task s' s'.current_task).rsp ≡ true
  pub restarted : (s'.watchdog_matrix ≡ 0) × (s'.critical_task_mask ≡ s.critical_task_mask)

-- A mask that another word covers is covered bit by bit.
covers : (w mask i : ℕ) → bit_and w mask ≡ mask → bit mask i ≡ 1 → bit w i ≡ 1
covers w mask i h b = omega (arith, bit-bit_and w mask i, ap (λ x. bit x i) h, bit-le-one w i)

-- A tick pets the watchdog only if some task is critical, every critical task has checked in, the
-- current task passed its check if it was checked, and so did the selected one if its slot holds a
-- task; a new window then starts for the same critical tasks.
pub schedule_tick-Petted :
    (memory : Memory) (s : PerCoreScheduler) (current_rsp : ℕ) {r : ℕ} {s' : PerCoreScheduler}
    → schedule_tick memory s current_rsp ≡ (r, s', true)
    → Petted memory s current_rsp s'
unfolding schedule_tick select next_ok
schedule_tick-Petted memory s current_rsp {r} {s'} h = record {
  required = ground arith;
  checked_in = λ i b. covers s.watchdog_matrix s.critical_task_mask i (ground arith) b;
  current_safe = λ context. ground arith;
  next_safe = λ ne. ground arith;
  restarted = ground arith;
}

-- No other tick touches the check-ins: they only start anew with a petting.
pub schedule_tick_unpetted :
    (memory : Memory) (s : PerCoreScheduler) (current_rsp : ℕ) {r : ℕ} {s' : PerCoreScheduler}
    → schedule_tick memory s current_rsp ≡ (r, s', false)
    → (s'.watchdog_matrix ≡ s.watchdog_matrix) × (s'.critical_task_mask ≡ s.critical_task_mask)
unfolding schedule_tick select
schedule_tick_unpetted memory s current_rsp h = ground arith
