-- ===== src/Rtos/Examples/Scheduler.antt =====
-- The bitmap scheduler with one critical task, at priority 3.
use shawn_core_libraries.Base.{ℕ, Bool, true, ◌≡◌, refl, [], ◌∷◌, set, replicate, arith}
use shawn_core_libraries.Rtos.Scheduler.{
  Tcb, empty_tcb, PerCoreScheduler, Memory, new, max_tasks, valid_stack_pointer, trailing_zeros,
  next_index, next_ok, select, schedule_tick,
}
use shawn_core_libraries.Rtos.Scheduler.Selection.{Selected, schedule_tick-Selected}
use shawn_core_libraries.Rtos.Scheduler.Watchdog.{Petted, schedule_tick-Petted}
use shawn_core_libraries.Rtos.Scheduler.Invariant.{
  IsValid, create, ready, require, check_in, tick, run, run-IsValid,
}

abbrev logger : Tcb
logger = record {
  entry_point = 1;
  stack_base = 4096;
  stack_size = 4096;
  rsp = 8000;
  priority = 3;
  stack_canary = 77;
}

-- Every word is the canary.
abbrev memory : Memory
memory = λ _. 77

abbrev booted : PerCoreScheduler
booted = record new {
  tasks = set (replicate max_tasks empty_tcb) 3 logger;
  ready_bitmap = 8;
  watchdog_matrix = 8;
  critical_task_mask = 8;
}

abbrev ticked : ℕ × PerCoreScheduler × Bool
ticked = schedule_tick memory booted 0

ticks : ticked ≡ (8000, ticked.1, true)
unfolding schedule_tick select next_index trailing_zeros next_ok valid_stack_pointer
ticks = refl

schedule_tick-Selected_example : Selected memory booted 8000 ticked.1
schedule_tick-Selected_example = schedule_tick-Selected memory booted 0 ticks (omega arith)

schedule_tick-Petted_example : Petted memory booted 0 ticked.1
schedule_tick-Petted_example = schedule_tick-Petted memory booted 0 ticks

abbrev running : PerCoreScheduler
running = record booted { current_task = 3 }

run-IsValid_example : IsValid (
    run new (
      create memory logger 77
      ∷ require 8
      ∷ ready 3
      ∷ check_in 3
      ∷ tick memory 0
      ∷ tick memory 8100
      ∷ []))
run-IsValid_example = run-IsValid (
    create memory logger 77
    ∷ require 8
    ∷ ready 3
    ∷ check_in 3
    ∷ tick memory 0
    ∷ tick memory 8100
    ∷ [])
