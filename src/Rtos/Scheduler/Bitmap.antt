-- ===== src/Rtos/Scheduler/Bitmap.antt =====
-- The 16-bit words of bitmap_scheduler.rs, bit by bit.
use shawn_core_libraries.Base.{
  ℕ, zero, suc, ◌+◌, ◌-◌, ◌/◌, ◌%◌, ◌^◌, ◌≤◌, ◌<◌, min, Bool, not, ◌&&◌, ◌≡◌, ap, List, [], ◌∷◌,
  get_or, get_or-cons, if◌then◌else◌, ltb, leb, ◌==◌, bit_and, bit_or, arith, Bool-cases, inl, inr,
}
use shawn_core_libraries.Base.Bits.{
  bit, bit-le-one, bit-zero, bit-bit_or, bit-bit_and, bit-complement, pow-lt-pow, pow_bit,
}
use shawn_core_libraries.Rtos.Scheduler.{
  Tcb, empty_tcb, PerCoreScheduler, set_ready, clear_ready, task_check_in, registered_mask,
  set_critical_task_mask, trailing_zeros,
}

-- `trailing_zeros` is the number of the lowest set bit, or the width.
pub trailing_zeros-le : (width word : ℕ) → trailing_zeros width word ≤ width
unfolding trailing_zeros
trailing_zeros-le zero word = omega arith
trailing_zeros-le (suc width) word = ground (arith, trailing_zeros-le width (word / 2))

pub trailing_zeros_below : (width word k : ℕ) → k < trailing_zeros width word → bit word k ≡ 0
unfolding trailing_zeros bit
trailing_zeros_below zero word k h = absurd (omega arith)
trailing_zeros_below (suc width) word zero h = ground arith
trailing_zeros_below (suc width) word (suc k) h =
    ground (arith, trailing_zeros_below width (word / 2) k)

pub trailing_zeros_at :
    (width word : ℕ) → trailing_zeros width word < width → bit word (trailing_zeros width word) ≡ 1
unfolding trailing_zeros bit
trailing_zeros_at zero word h = absurd (omega arith)
trailing_zeros_at (suc width) word h = elim (Bool-cases (word % 2 == 1)) [
  | inl odd ↦ rw (odd, trailing_zeros) (ground arith)
  | inr even ↦ rw (even, trailing_zeros) (trailing_zeros_at width (word / 2) (ground arith))
]

-- Making a task ready sets its bit and no other; a priority of 16 or more changes nothing.
pub set_ready_bits :
    (s : PerCoreScheduler) (priority i : ℕ)
    → bit (set_ready s priority).ready_bitmap i
      ≡ (if ltb priority 16 && priority == i then 1 else bit s.ready_bitmap i)
unfolding set_ready
set_ready_bits s priority i = ground (
  arith,
  bit-bit_or s.ready_bitmap (2 ^ priority) i,
  pow_bit priority i,
  bit-le-one s.ready_bitmap i,
)

-- Blocking a task clears its bit and no other of the 16.
pub clear_ready_bits :
    (s : PerCoreScheduler) (priority i : ℕ)
    → i < 16
    → bit (clear_ready s priority).ready_bitmap i
      ≡ (if priority == i then 0 else bit s.ready_bitmap i)
unfolding clear_ready
clear_ready_bits s priority i h = ground (
  arith,
  bit-bit_and s.ready_bitmap (2 ^ 16 - 1 - 2 ^ priority) i,
  bit-complement (2 ^ priority) 16 i,
  pow-lt-pow priority 16,
  pow_bit priority i,
  bit-le-one s.ready_bitmap i,
)

-- Whether slot `i` holds a task.
abbrev pub registered : List Tcb → ℕ → Bool
registered tasks i = not ((get_or tasks i empty_tcb).stack_base == 0)

registered_mask_bits :
    (tasks : List Tcb) (index mask i : ℕ)
    → bit (registered_mask index mask tasks) i
      ≡ (if leb index i && registered tasks (i - index) then 1 else bit mask i)
unfolding registered_mask
registered_mask_bits [] index mask i = ground arith
registered_mask_bits (t ∷ tasks) index mask i = ground (
  arith,
  registered_mask_bits tasks (index + 1) mask i,
  registered_mask_bits tasks (index + 1) (bit_or mask (2 ^ index)) i,
  bit-bit_or mask (2 ^ index) i,
  pow_bit index i,
  bit-le-one mask i,
  get_or-cons t tasks (i - index) empty_tcb,
  ap (λ n. get_or tasks n empty_tcb) {x = i - index - 1} {y = i - (index + 1)},
)

-- A task becomes critical exactly if it was asked for and is registered; a check-in is kept
-- exactly for the tasks that are then critical.
pub set_critical_task_mask_bits :
    (s : PerCoreScheduler) (mask i : ℕ)
    → (bit (set_critical_task_mask s mask).critical_task_mask i
        ≡ (if registered s.tasks i then bit mask i else 0))
      × (bit (set_critical_task_mask s mask).watchdog_matrix i
          ≡ (if registered s.tasks i then min (bit s.watchdog_matrix i) (bit mask i) else 0))
unfolding set_critical_task_mask
set_critical_task_mask_bits s mask i = ground (
  arith,
  bit-bit_and mask (registered_mask 0 0 s.tasks) i,
  bit-bit_and s.watchdog_matrix (bit_and mask (registered_mask 0 0 s.tasks)) i,
  registered_mask_bits s.tasks 0 0 i,
  bit-zero i,
  bit-le-one mask i,
  bit-le-one s.watchdog_matrix i,
)

-- A check-in is recorded for a registered task below 16 and for nothing else.
pub task_check_in_bits :
    (s : PerCoreScheduler) (priority i : ℕ)
    → bit (task_check_in s priority).watchdog_matrix i ≡ (
        if (ltb priority 16 && registered s.tasks priority) && priority == i
        then 1
        else bit s.watchdog_matrix i)
unfolding task_check_in
task_check_in_bits s priority i = ground (
  arith,
  bit-bit_or s.watchdog_matrix (2 ^ priority) i,
  pow_bit priority i,
  bit-le-one s.watchdog_matrix i,
)
