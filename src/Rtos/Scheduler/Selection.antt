-- ===== src/Rtos/Scheduler/Selection.antt =====
-- Which task a tick of bitmap_scheduler.rs selects, and its failure on a damaged task.
use shawn_core_libraries.Base.{
  ℕ, ◌<◌, Bool, true, false, ◌≡◌, ◌≢◌, refl, ◌⊎◌, inl, inr, leb, arith, Bool-cases,
}
use shawn_core_libraries.Base.Bits.{bit}
use shawn_core_libraries.Rtos.Scheduler.{
  PerCoreScheduler, Memory, task, intact, has_context, save_rsp, trailing_zeros, next_index,
  next_ok, select, schedule_tick,
}
use shawn_core_libraries.Rtos.Scheduler.Bitmap.{trailing_zeros_below, trailing_zeros_at}

-- The index of the highest-priority ready task, or 15 if none is ready.
abbrev pub IsChoice : (ready index : ℕ) → Type 0
IsChoice ready index =
    ((bit ready index ≡ 1) × ((k : ℕ) → k < index → bit ready k ≡ 0))
    ⊎ ((index ≡ 15) × ((k : ℕ) → k < 16 → bit ready k ≡ 0))

pub next_index-IsChoice :
    (s : PerCoreScheduler) → (next_index s < 16) × IsChoice s.ready_bitmap (next_index s)
unfolding next_index
next_index-IsChoice s = elim (Bool-cases (leb 16 (trailing_zeros 16 s.ready_bitmap))) [
  | inl empty ↦
      rw empty
        (omega arith, inr (refl, λ k h. trailing_zeros_below 16 s.ready_bitmap k (ground arith)))
  | inr found ↦ rw found (
    ground arith,
    inl (
      trailing_zeros_at 16 s.ready_bitmap (ground arith),
      trailing_zeros_below 16 s.ready_bitmap,
    ),
  )
]

-- What a tick that hands over a stack pointer did: it chose the highest-priority ready task, whose
-- saved stack pointer it returns, and if that slot holds a task, the pointer lies in the task's
-- stack and the canary is intact.
pub record Selected (memory : Memory) (s : PerCoreScheduler) (r : ℕ) (s' : PerCoreScheduler)
    : Type 0 where
  pub slot : s'.current_task < 16
  pub chosen : IsChoice s.ready_bitmap s'.current_task
  pub loaded : r ≡ (task s' s'.current_task).rsp
  pub safe :
      (task s' s'.current_task).stack_base ≢ 0 → intact memory (task s' s'.current_task) r ≡ true

select-Selected :
    (memory : Memory) (s : PerCoreScheduler) {r : ℕ} {s' : PerCoreScheduler} {pet : Bool}
    → select memory s ≡ (r, s', pet)
    → 0 < r
    → Selected memory s r s'
unfolding select next_ok
select-Selected memory s {r} {s'} h pos =
    let next : s'.current_task ≡ next_index s = ground arith in
    record {
      slot = omega (arith, next, (next_index-IsChoice s).0);
      chosen = rw next (next_index-IsChoice s).1;
      loaded = ground arith;
      safe = λ ne. ground arith;
    }

-- A tick that returns a stack pointer other than 0 chose the highest-priority ready task of the 16
-- slots, or slot 15 if none is ready; what it returns is that slot's saved stack pointer, and if
-- the slot holds a task, the pointer lies in its stack and the canary is intact.
pub schedule_tick-Selected :
    (memory : Memory) (s : PerCoreScheduler) (current_rsp : ℕ) {r : ℕ} {s' : PerCoreScheduler}
    {pet : Bool}
    → schedule_tick memory s current_rsp ≡ (r, s', pet)
    → 0 < r
    → Selected memory s r s'
unfolding schedule_tick
schedule_tick-Selected memory s current_rsp {r} {s'} {pet} h pos =
    elim (Bool-cases (has_context s current_rsp)) [
      | inl saves ↦
          let found : Selected memory (save_rsp s current_rsp) r s' =
            select-Selected memory (save_rsp s current_rsp) {pet = pet} (ground arith) pos in
          record {
            slot = found.slot;
            chosen = found.chosen;
            loaded = found.loaded;
            safe = found.safe;
          }
      | inr idle ↦ select-Selected memory s {pet = pet} (ground arith) pos
    ]

-- A damaged current task stops the tick: if it is checked at all and its stack pointer lies
-- outside its stack or its canary was overwritten, the result is 0, the scheduler is unchanged and
-- the watchdog is not petted.
pub schedule_tick_corrupt :
    (memory : Memory) (s : PerCoreScheduler) (current_rsp : ℕ)
    → has_context s current_rsp ≡ true
    → intact memory (task s s.current_task) current_rsp ≡ false
    → schedule_tick memory s current_rsp ≡ (0, s, false)
unfolding schedule_tick
schedule_tick_corrupt memory s current_rsp context bad = ground arith
