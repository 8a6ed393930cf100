-- ===== src/Rtos/Ffi/TelemetryQueue.antt =====
-- The calls of the C interface (ffi.rs) on a queue of telemetry events against a first-in first-out
-- queue.
use shawn_core_libraries.Base.{ℕ, ◌+◌, ◌*◌, ◌%◌, ◌^◌, ◌≤◌, ◌<◌, ◌≡◌, ◌≢◌, true, ◌⊎◌, List, [], ◌∷◌}
use shawn_core_libraries.Rtos.Ring.Contents.{contents}
use shawn_core_libraries.Rtos.Ring.Valid.{IsValid}
use shawn_core_libraries.Rtos.Spsc.{SpscQueue}
use shawn_core_libraries.Rtos.Spsc
use shawn_core_libraries.Rtos.Spsc.Queue.{as_ring}
use shawn_core_libraries.Rtos.Ffi.{Layout, Host, TelemetryEvent, default_event, at}
use shawn_core_libraries.Rtos.Ffi.Telemetry.{TelemetryCall, pushes_from, pops_to, aligned, Events}

-- Two ranges of addresses, one behind the other.
abbrev pub Apart : (first first_len second second_len : ℕ) → Type 0
Apart first first_len second second_len =
    (first + first_len ≤ second) ⊎ (second + second_len ≤ first)

-- The events that a `pop` writes lie apart from the storage of the slots.
abbrev pub BesideStorage : (memory_base size_in_bytes : ℕ) → List TelemetryCall → Type 0
BesideStorage memory_base size_in_bytes [] = Unit {0}
BesideStorage memory_base size_in_bytes (pushes_from event ∷ cs) =
    BesideStorage memory_base size_in_bytes cs
BesideStorage memory_base size_in_bytes (pops_to out_event ∷ cs) =
    Apart out_event 64 memory_base size_in_bytes × BesideStorage memory_base size_in_bytes cs

module _ (layout : Layout) where
  -- What the checks of `init` say of a queue that it accepts.
  pub record Checked (queue memory_base size_in_bytes : ℕ) : Type 0 where
    pub queue_there : aligned layout.queue_align queue ≡ true
    pub base_there : memory_base ≢ 0
    pub pages : memory_base % 4096 ≡ 0
    pub slots_aligned : memory_base % layout.slot_align ≡ 0
    pub slots_fit : 64 * layout.slot_size ≤ size_in_bytes
    pub in_range : memory_base + 64 * layout.slot_size < 2 ^ 64
    pub apart : Apart queue layout.queue_size memory_base size_in_bytes

  -- A queue that has passed the checks of `init` and holds these events.
  record Holding (host : Host) (queue : ℕ) (xs : List TelemetryEvent) : Type 0 where
    there : aligned layout.queue_align queue ≡ true
    valid : IsValid 64 default_event (as_ring (host.queues queue))
    held : contents 64 default_event (as_ring (host.queues queue)) ≡ xs

  -- The host after a push, and after a pop.
  abbrev after_push : Host → (queue : ℕ) → TelemetryEvent → Host
  after_push host queue x = record host {
    queues = at host.queues queue (Spsc.push 64 default_event (host.queues queue) x).1;
  }

  abbrev after_pop : Host → (queue : ℕ) → Events → Host
  after_pop host queue events = record host {
    queues = at host.queues queue (Spsc.pop 64 default_event (host.queues queue)).1;
    events = events;
  }
