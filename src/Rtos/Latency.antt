-- ===== src/Rtos/Latency.antt =====
-- shawncore-rtos-sync/src/latency_tracker.rs, for the one owner that a tracker has while it
-- measures: its exchange loops find the value that they loaded and end in the value they store.
pub mod Totals
use shawn_core_libraries.Base.{ℕ, ◌+◌, ◌-◌, ◌%◌, ◌^◌, Bool, true, false, not, if◌then◌else◌, ltb}

pub record LatencyTracker : Type 0 where
  pub started : Bool
  pub start_time : ℕ  -- u64
  pub max_latency : ℕ  -- u64
  pub total_latency : ℕ  -- u64
  pub samples : ℕ  -- u64

abbrev pub new : LatencyTracker
new = record { started = false; start_time = 0; max_latency = 0; total_latency = 0; samples = 0 }

unfoldable pub mark_start : LatencyTracker → (current_timestamp : ℕ) → LatencyTracker
mark_start t current_timestamp = record t { start_time = current_timestamp; started = true }

-- `u64::saturating_add`.
abbrev pub saturating_add : ℕ → ℕ → ℕ
saturating_add a b = if ltb (2 ^ 64 - 1) (a + b) then 2 ^ 64 - 1 else a + b

unfoldable pub mark_end : LatencyTracker → (current_timestamp : ℕ) → LatencyTracker
mark_end t current_timestamp =
    if not t.started
    then t
    else if ltb current_timestamp t.start_time
    then t
    else let delta = current_timestamp - t.start_time in
      record t {
        started = false;
        max_latency = if ltb t.max_latency delta then delta else t.max_latency;
        total_latency = saturating_add t.total_latency delta;
        samples = (t.samples + 1) % 2 ^ 64;
      }
