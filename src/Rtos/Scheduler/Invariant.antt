-- ===== src/Rtos/Scheduler/Invariant.antt =====
-- The well-formedness of a scheduler of bitmap_scheduler.rs between two calls.
use shawn_core_libraries.Base.{
  ℕ, ◌<◌, true, ◌≡◌, refl, ap, ◌∙◌, ltb, leb, arith, Bool-cases, inl, inr, ◌⊎◌, List, [], ◌∷◌,
  length, length-set, get_or-set, get_or-replicate,
}
use shawn_core_libraries.Base.Bits.{bit, bit-zero}
use shawn_core_libraries.Rtos.Scheduler.{
  Tcb, empty_tcb, PerCoreScheduler, Memory, task, new, valid_stack_pointer, create_task, set_ready,
  clear_ready, task_check_in, set_critical_task_mask, intact, has_context, save_rsp, next_index,
  select, schedule_tick,
}
use shawn_core_libraries.Rtos.Scheduler.Bitmap.{
  registered, set_critical_task_mask_bits, task_check_in_bits,
}
use shawn_core_libraries.Rtos.Scheduler.Selection.{next_index-IsChoice}

-- A registered task stands in the slot of its priority, with its saved stack pointer in its stack;
-- only registered tasks are critical or have checked in.
pub record IsValid (s : PerCoreScheduler) : Type 0 where
  pub count : length s.tasks ≡ 16
  pub current : s.current_task < 16
  pub slots :
      (i : ℕ)
      → registered s.tasks i ≡ true
      → ((task s i).priority ≡ i) × (valid_stack_pointer (task s i) (task s i).rsp ≡ true)
  pub checked : (i : ℕ) → bit s.watchdog_matrix i ≡ 1 → registered s.tasks i ≡ true
  pub critical : (i : ℕ) → bit s.critical_task_mask i ≡ 1 → registered s.tasks i ≡ true

pub new-IsValid : IsValid new
new-IsValid = record {
  count = refl;
  current = omega arith;
  slots = λ i h. ground (arith, get_or-replicate 16 i empty_tcb);
  checked = λ i h. ground (arith, bit-zero i);
  critical = λ i h. ground (arith, bit-zero i);
}

pub create_task-IsValid :
    {s : PerCoreScheduler} (memory : Memory) (tcb : Tcb) (canary : ℕ)
    → IsValid s
    → IsValid (create_task memory s tcb canary).1
unfolding create_task
create_task-IsValid {s} memory tcb canary v = record {
  count =
      ground
        (arith, v.count, length-set s.tasks tcb.priority (record tcb { stack_canary = canary }));
  current = ground (arith, v.current);
  slots = λ i h. ground (
    arith,
    v.count,
    v.slots i,
    get_or-set s.tasks tcb.priority i (record tcb { stack_canary = canary }) empty_tcb,
  );
  checked = λ i h. ground (
    arith,
    v.count,
    v.checked i,
    get_or-set s.tasks tcb.priority i (record tcb { stack_canary = canary }) empty_tcb,
  );
  critical = λ i h. ground (
    arith,
    v.count,
    v.critical i,
    get_or-set s.tasks tcb.priority i (record tcb { stack_canary = canary }) empty_tcb,
  );
}

pub set_ready-IsValid : {s : PerCoreScheduler} (p : ℕ) → IsValid s → IsValid (set_ready s p)
unfolding set_ready
set_ready-IsValid {s} p v = elim (Bool-cases (ltb p 16)) [
  | inl low ↦ rw low (record {
    count = v.count;
    current = v.current;
    slots = v.slots;
    checked = v.checked;
    critical = v.critical;
  })
  | inr high ↦ rw high v
]

pub clear_ready-IsValid : {s : PerCoreScheduler} (p : ℕ) → IsValid s → IsValid (clear_ready s p)
unfolding clear_ready
clear_ready-IsValid {s} p v = elim (Bool-cases (ltb p 16)) [
  | inl low ↦ rw low (record {
    count = v.count;
    current = v.current;
    slots = v.slots;
    checked = v.checked;
    critical = v.critical;
  })
  | inr high ↦ rw high v
]

same_tasks-task_check_in :
    (s : PerCoreScheduler) (p : ℕ)
    → ((task_check_in s p).tasks ≡ s.tasks)
      × ((task_check_in s p).current_task ≡ s.current_task)
      × ((task_check_in s p).critical_task_mask ≡ s.critical_task_mask)
unfolding task_check_in
same_tasks-task_check_in s p = ground arith

pub task_check_in-IsValid : {s : PerCoreScheduler} (p : ℕ) → IsValid s → IsValid (task_check_in s p)
task_check_in-IsValid {s} p v =
    let (tasks, current, mask) = same_tasks-task_check_in s p in
    record {
      count = ap length tasks ∙ v.count;
      current = omega (arith, current, v.current);
      slots = λ i. rw tasks (v.slots i);
      checked = λ i. rw tasks (λ h.
          ground (
            arith,
            task_check_in_bits s p i,
            v.checked i,
            ap (registered s.tasks) {x = p} {y = i},
          ));
      critical = λ i. rw (tasks, mask) (v.critical i);
    }

tasks-set_critical_task_mask :
    (s : PerCoreScheduler) (mask : ℕ) → (set_critical_task_mask s mask).tasks ≡ s.tasks
unfolding set_critical_task_mask
tasks-set_critical_task_mask s mask = refl

pub set_critical_task_mask-IsValid :
    {s : PerCoreScheduler} (mask : ℕ) → IsValid s → IsValid (set_critical_task_mask s mask)
set_critical_task_mask-IsValid {s} mask v =
    let same = tasks-set_critical_task_mask s mask in
    record {
      count = unfold set_critical_task_mask in v.count;
      current = unfold set_critical_task_mask in v.current;
      slots = unfold set_critical_task_mask in v.slots;
      checked = λ i h. ground (arith, set_critical_task_mask_bits s mask i, same);
      critical = λ i h. ground (arith, set_critical_task_mask_bits s mask i, same);
    }

save_rsp-IsValid :
    {s : PerCoreScheduler} (memory : Memory) (rsp : ℕ)
    → IsValid s
    → registered s.tasks s.current_task ≡ true
    → valid_stack_pointer (task s s.current_task) rsp ≡ true
    → IsValid (save_rsp s rsp)
unfolding valid_stack_pointer
save_rsp-IsValid {s} memory rsp v used inside = record {
  count = ground (
    arith,
    v.count,
    length-set s.tasks s.current_task (record (task s s.current_task) { rsp = rsp }),
  );
  current = v.current;
  slots = λ i h. ground (
    arith,
    v.count,
    v.slots i,
    get_or-set s.tasks s.current_task i (record (task s s.current_task) { rsp = rsp }) empty_tcb,
  );
  checked = λ i h. ground (
    arith,
    v.checked i h,
    get_or-set s.tasks s.current_task i (record (task s s.current_task) { rsp = rsp }) empty_tcb,
  );
  critical = λ i h. ground (
    arith,
    v.critical i h,
    get_or-set s.tasks s.current_task i (record (task s s.current_task) { rsp = rsp }) empty_tcb,
  );
}

-- What `select` may change.
record Left (s s' : PerCoreScheduler) : Type 0 where
  tasks : s'.tasks ≡ s.tasks
  current : (s'.current_task ≡ s.current_task) ⊎ (s'.current_task ≡ next_index s)
  matrix : (s'.watchdog_matrix ≡ s.watchdog_matrix) ⊎ (s'.watchdog_matrix ≡ 0)
  mask : s'.critical_task_mask ≡ s.critical_task_mask

select-Left : (memory : Memory) (s : PerCoreScheduler) → Left s (select memory s).1
unfolding select
select-Left memory s = ground arith

Left-IsValid : {s s' : PerCoreScheduler} → Left s s' → IsValid s → IsValid s'
Left-IsValid {s} {s'} l v = record {
  count = ap length l.tasks ∙ v.count;
  current = ground (arith, l.current, v.current, (next_index-IsChoice s).0);
  slots = λ i. rw l.tasks (v.slots i);
  checked =
      λ i. rw l.tasks (λ h. ground (arith, l.matrix, v.checked i, bit-zero i, ap (λ w. bit w i)));
  critical = λ i. rw (l.tasks, l.mask) (v.critical i);
}

schedule_tick-IsValid :
    {s : PerCoreScheduler} (memory : Memory) (rsp : ℕ)
    → IsValid s
    → IsValid (schedule_tick memory s rsp).1
unfolding schedule_tick
schedule_tick-IsValid {s} memory rsp v =
    let plain = Left-IsValid (select-Left memory s) v in
    elim (Bool-cases (leb 16 s.current_task)) [
      | inl out ↦ rw out v
      | inr in_range ↦ elim (Bool-cases (has_context s rsp)) [
        | inr idle ↦ rw (in_range, idle) plain
        | inl saves ↦ elim (Bool-cases (intact memory (task s s.current_task) rsp)) [
          | inr bad ↦ rw (in_range, saves, bad) v
          | inl good ↦
              rw (in_range, saves, good)
                (Left-IsValid (select-Left memory (save_rsp s rsp))
                  (save_rsp-IsValid memory rsp v (ground arith) (ground arith)))
        ]
      ]
    ]

-- The calls of the host. Memory between calls is whatever the tasks made of it.
pub data Call : Type 0 where
  create : Memory → Tcb → (canary : ℕ) → Call
  ready : (priority : ℕ) → Call
  block : (priority : ℕ) → Call
  check_in : (priority : ℕ) → Call
  require : (mask : ℕ) → Call
  tick : Memory → (rsp : ℕ) → Call

pub apply : PerCoreScheduler → Call → PerCoreScheduler
apply s (create memory tcb canary) = (create_task memory s tcb canary).1
apply s (ready p) = set_ready s p
apply s (block p) = clear_ready s p
apply s (check_in p) = task_check_in s p
apply s (require mask) = set_critical_task_mask s mask
apply s (tick memory rsp) = (schedule_tick memory s rsp).1

pub run : PerCoreScheduler → List Call → PerCoreScheduler
run s [] = s
run s (c ∷ cs) = run (apply s c) cs

apply-IsValid : {s : PerCoreScheduler} (c : Call) → IsValid s → IsValid (apply s c)
unfolding apply
apply-IsValid (create memory tcb canary) v = create_task-IsValid memory tcb canary v
apply-IsValid (ready p) v = set_ready-IsValid p v
apply-IsValid (block p) v = clear_ready-IsValid p v
apply-IsValid (check_in p) v = task_check_in-IsValid p v
apply-IsValid (require mask) v = set_critical_task_mask-IsValid mask v
apply-IsValid (tick memory rsp) v = schedule_tick-IsValid memory rsp v

run_from-IsValid : (s : PerCoreScheduler) (cs : List Call) → IsValid s → IsValid (run s cs)
unfolding run
run_from-IsValid s [] v = v
run_from-IsValid s (c ∷ cs) v = run_from-IsValid (apply s c) cs (apply-IsValid c v)

-- Every scheduler that any sequence of calls makes of a new one, whatever the memory holds at each
-- of them, is valid: 16 slots, a current task among them, registered tasks in the slots of their
-- priorities with saved stack pointers in their stacks, and only registered tasks critical or
-- checked in.
pub run-IsValid : (cs : List Call) → IsValid (run new cs)
run-IsValid cs = run_from-IsValid new cs new-IsValid
