-- ===== src/Rtos/Scheduler.antt =====
-- The bitmap scheduler, shawncore-rtos-sync/src/bitmap_scheduler.rs and tcb.rs. Memory is the 64-bit
-- word at each address; a function that writes it returns it.
pub mod Bitmap
pub mod Selection
pub mod Watchdog
pub mod Invariant
use shawn_core_libraries.Base.{
  ℕ, zero, suc, ◌+◌, ◌-◌, ◌/◌, ◌%◌, ◌^◌, Bool, true, false, not, ◌&&◌, ◌||◌, Option, none, some,
  List, [], ◌∷◌, get_or, set, replicate, Result, ok, err, if◌then◌else◌, ltb, leb, ◌==◌, bit_and,
  bit_or,
}
use shawn_core_libraries.Rtos.Error.{SchedulerError, task_fault}

abbrev pub max_tasks : ℕ
max_tasks = 16

pub record Tcb : Type 0 where
  pub entry_point : ℕ  -- u64
  pub stack_base : ℕ  -- u64
  pub stack_size : ℕ  -- usize
  pub rsp : ℕ  -- u64
  pub priority : ℕ  -- u8
  pub stack_canary : ℕ  -- u64

abbrev pub empty_tcb : Tcb
empty_tcb = record {
  entry_point = 0;
  stack_base = 0;
  stack_size = 0;
  rsp = 0;
  priority = 15;
  stack_canary = 0;
}

unfoldable pub new_task : (entry_point stack_base stack_size initial_rsp priority : ℕ) → Tcb
new_task entry_point stack_base stack_size initial_rsp priority = record {
  entry_point = entry_point;
  stack_base = stack_base;
  stack_size = stack_size;
  rsp = initial_rsp;
  priority = priority;
  stack_canary = 0;
}

pub record PerCoreScheduler : Type 0 where
  pub tasks : List Tcb  -- 16 of them
  pub ready_bitmap : ℕ  -- u16
  pub current_task : ℕ
  pub watchdog_matrix : ℕ  -- u16
  pub critical_task_mask : ℕ  -- u16

abbrev pub new : PerCoreScheduler
new = record {
  tasks = replicate max_tasks empty_tcb;
  ready_bitmap = 0;
  current_task = 15;
  watchdog_matrix = 0;
  critical_task_mask = 0;
}

abbrev pub Memory : Type 0
Memory = ℕ → ℕ

abbrev pub write : Memory → ℕ → ℕ → Memory
write memory address word j = if j == address then word else memory j

-- `u64::checked_add`.
abbrev pub checked_add : ℕ → ℕ → Option ℕ
checked_add a b = if ltb (2 ^ 64 - 1) (a + b) then none else some (a + b)

unfoldable pub valid_stack_pointer : Tcb → (rsp : ℕ) → Bool
valid_stack_pointer tcb rsp = elim (checked_add tcb.stack_base tcb.stack_size) [
  | none ↦ false
  | some stack_end ↦ elim (checked_add tcb.stack_base 8) [
    | none ↦ false
    | some first_usable_rsp ↦
        not (tcb.stack_base == 0)
        && (tcb.stack_base % 8 == 0
            && (leb 8 tcb.stack_size && (leb first_usable_rsp rsp && leb rsp stack_end)))
  ]
]

-- `self.tasks[index]`, at an index that the callers keep below 16.
abbrev pub task : PerCoreScheduler → ℕ → Tcb
task s index = get_or s.tasks index empty_tcb

unfoldable pub create_task :
    Memory
    → PerCoreScheduler
    → Tcb
    → (canary_value : ℕ) → Result SchedulerError (Unit {0}) × PerCoreScheduler × Memory
unfolding valid_stack_pointer
create_task memory s tcb canary_value =
    if tcb.entry_point == 0
      || (leb 16 tcb.priority
          || (not (valid_stack_pointer tcb tcb.rsp) || not ((task s tcb.priority).stack_base == 0)))
    then (err task_fault, s, memory)
    else (
      ok tt,
      record s {
        tasks = set s.tasks tcb.priority (record tcb { stack_canary = canary_value });
        ready_bitmap = bit_or s.ready_bitmap (2 ^ tcb.priority);
      },
      if tcb.stack_base == 0 then memory else write memory tcb.stack_base canary_value,
    )

unfoldable pub set_ready : PerCoreScheduler → (priority : ℕ) → PerCoreScheduler
set_ready s priority =
    if ltb priority 16 then record s { ready_bitmap = bit_or s.ready_bitmap (2 ^ priority) } else s

-- `!(1 << priority)` of a 16-bit word.
unfoldable pub clear_ready : PerCoreScheduler → (priority : ℕ) → PerCoreScheduler
clear_ready s priority =
    if ltb priority 16
    then record s { ready_bitmap = bit_and s.ready_bitmap (2 ^ 16 - 1 - 2 ^ priority) }
    else s

unfoldable pub task_check_in : PerCoreScheduler → (priority : ℕ) → PerCoreScheduler
task_check_in s priority =
    if ltb priority 16 && not ((task s priority).stack_base == 0)
    then record s { watchdog_matrix = bit_or s.watchdog_matrix (2 ^ priority) }
    else s

-- The fold over the enumerated tasks.
unfoldable pub registered_mask : (index mask : ℕ) → List Tcb → ℕ
registered_mask index mask [] = mask
registered_mask index mask (tcb ∷ tasks) =
    registered_mask (index + 1)
      (if not (tcb.stack_base == 0) then bit_or mask (2 ^ index) else mask) tasks

unfoldable pub set_critical_task_mask : PerCoreScheduler → (mask : ℕ) → PerCoreScheduler
set_critical_task_mask s mask =
    let critical = bit_and mask (registered_mask 0 0 s.tasks) in
    record s { critical_task_mask = critical; watchdog_matrix = bit_and s.watchdog_matrix critical }

-- `trailing_zeros` of a word of `width` bits.
unfoldable pub trailing_zeros : (width word : ℕ) → ℕ
trailing_zeros zero word = 0
trailing_zeros (suc width) word =
    let rest = trailing_zeros width (word / 2) in
    elim (word % 2 == 1) [ true ↦ 0 | false ↦ suc rest ]

-- The stack pointer lies in the stack, and the canary word is intact.
abbrev pub intact : Memory → Tcb → (rsp : ℕ) → Bool
intact memory tcb rsp = valid_stack_pointer tcb rsp && memory tcb.stack_base == tcb.stack_canary

-- Whether the current task is checked at all, and saves its stack pointer.
abbrev pub has_context : PerCoreScheduler → (current_rsp : ℕ) → Bool
has_context s current_rsp =
    ltb s.current_task max_tasks
    && (not (current_rsp == 0) && not ((task s s.current_task).stack_base == 0))

abbrev pub save_rsp : PerCoreScheduler → (current_rsp : ℕ) → PerCoreScheduler
save_rsp s current_rsp = record s {
  tasks = set s.tasks s.current_task (record (task s s.current_task) { rsp = current_rsp });
}

unfoldable pub next_index : PerCoreScheduler → ℕ
next_index s =
    let zeros = trailing_zeros 16 s.ready_bitmap in if leb max_tasks zeros then 15 else zeros

-- The checks of the selected task; an empty slot is allowed only for the idle fallback.
unfoldable pub next_ok : Memory → PerCoreScheduler → (index : ℕ) → Bool
next_ok memory s index =
    if not ((task s index).stack_base == 0)
    then intact memory (task s index) (task s index).rsp
    else not (not (index == 15) || not (bit_and s.ready_bitmap (2 ^ index) == 0))

-- All critical tasks have checked in.
abbrev pub window_complete : PerCoreScheduler → Bool
window_complete s =
    not (s.critical_task_mask == 0)
    && bit_and s.watchdog_matrix s.critical_task_mask == s.critical_task_mask

-- From the selection on. The result: the next stack pointer, the scheduler, and whether the
-- watchdog was petted.
unfoldable pub select : Memory → PerCoreScheduler → ℕ × PerCoreScheduler × Bool
unfolding next_ok
select memory s =
    let next = next_index s in
    if not (next_ok memory s next)
    then (0, s, false)
    else if window_complete s
    then ((task s next).rsp, record s { watchdog_matrix = 0; current_task = next }, true)
    else ((task s next).rsp, record s { current_task = next }, false)

unfoldable pub schedule_tick :
    Memory → PerCoreScheduler → (current_rsp : ℕ) → ℕ × PerCoreScheduler × Bool
schedule_tick memory s current_rsp =
    if leb max_tasks s.current_task
    then (0, s, false)
    else if has_context s current_rsp
    then (if not (intact memory (task s s.current_task) current_rsp)
        then (0, s, false)
        else select memory (save_rsp s current_rsp))
    else select memory s
