-- ===== src/Rtos/Ffi/Telemetry.antt =====
-- The calls of the C interface (ffi.rs) on a queue of telemetry events, from
-- shawncore_rtos_spsc_telemetry_init on.
use shawn_core_libraries.Base.{
  ℕ, ◌+◌, ◌%◌, ◌^◌, ◌≡◌, Bool, true, false, not, ◌&&◌, ◌||◌, if◌then◌else◌, ltb, leb, ◌==◌, none,
  some, List, [], ◌∷◌, arith,
}
use shawn_core_libraries.Rtos.Ring.Valid.{enqueue}
use shawn_core_libraries.Rtos.Spsc.{SpscQueue}
use shawn_core_libraries.Rtos.Spsc
use shawn_core_libraries.Rtos.Ffi.{
  ShawncoreRtosErr, success, invalid_memory, queue_empty, ipc_status, Layout, Host, TelemetryEvent,
  default_event, at, ranges_overlap, spsc_telemetry_push, spsc_telemetry_pop,
}

-- A call, with the address of the event that it reads or writes.
pub data TelemetryCall : Type 0 where
  pushes_from : (event : ℕ) → TelemetryCall
  pops_to : (out_event : ℕ) → TelemetryCall

abbrev pub aligned : (align ptr : ℕ) → Bool
aligned align ptr = not (ptr == 0) && ptr % align == 0

abbrev pub Events : Type 0
Events = ℕ → TelemetryEvent

module _ (layout : Layout) where
  -- The codes of the calls, and the events that the host has afterwards.
  unfoldable pub telemetry_codes :
      Host → (queue : ℕ) → List TelemetryCall → List ShawncoreRtosErr × Events
  telemetry_codes host queue [] = ([], host.events)
  telemetry_codes host queue (pushes_from event ∷ cs) =
      let (code, host') = spsc_telemetry_push layout host queue event in
      let (codes, events) = telemetry_codes host' queue cs in (code ∷ codes, events)
  telemetry_codes host queue (pops_to out_event ∷ cs) =
      let (code, host') = spsc_telemetry_pop layout host queue out_event in
      let (codes, events) = telemetry_codes host' queue cs in (code ∷ codes, events)

  -- A place for an event that lies below 2^64 and apart from the queue object.
  abbrev pub has_room : (queue out_event : ℕ) → Bool
  has_room queue out_event =
      aligned 64 out_event
      && (ltb (queue + layout.queue_size) (2 ^ 64)
          && (ltb (out_event + 64) (2 ^ 64)
              && (leb (queue + layout.queue_size) out_event || leb (out_event + 64) queue)))

  -- The same for a first-in first-out queue of at most 64 events and the events at the addresses.
  unfoldable pub fifo_codes :
      List TelemetryEvent
      → Events
      → (queue : ℕ) → List TelemetryCall
      → List ShawncoreRtosErr × Events
  fifo_codes xs events queue [] = ([], events)
  fifo_codes xs events queue (pushes_from event ∷ cs) =
      let (result, xs') = enqueue 64 xs (events event) in
      let refused = fifo_codes xs events queue cs in
      let done = fifo_codes xs' events queue cs in
      if aligned 64 event
      then (ipc_status result ∷ done.0, done.1)
      else (invalid_memory ∷ refused.0, refused.1)
  fifo_codes [] events queue (pops_to out_event ∷ cs) =
      let rest = fifo_codes [] events queue cs in
      ((if has_room queue out_event then queue_empty else invalid_memory) ∷ rest.0, rest.1)
  fifo_codes (x ∷ xs) events queue (pops_to out_event ∷ cs) =
      let refused = fifo_codes (x ∷ xs) events queue cs in
      let done = fifo_codes xs (at events out_event x) queue cs in
      if has_room queue out_event
      then (success ∷ done.0, done.1)
      else (invalid_memory ∷ refused.0, refused.1)

  pub at_self :
      (queues : ℕ → SpscQueue TelemetryEvent) (queue : ℕ) (q : SpscQueue TelemetryEvent)
      → at queues queue q queue ≡ q
  at_self queues queue q = ground arith

  pub push_refused :
      (host : Host) (queue event : ℕ)
      → aligned 64 event ≡ false
      → spsc_telemetry_push layout host queue event ≡ (invalid_memory, host)
  unfolding spsc_telemetry_push
  push_refused host queue event h = ground arith

  pub push_done :
      (host : Host) (queue event : ℕ)
      → aligned layout.queue_align queue ≡ true
      → aligned 64 event ≡ true
      → spsc_telemetry_push layout host queue event ≡ (
        ipc_status (Spsc.push 64 default_event (host.queues queue) (host.events event)).0,
        record host {
          queues =
              at host.queues queue
                (Spsc.push 64 default_event (host.queues queue) (host.events event)).1;
        },
      )
  unfolding spsc_telemetry_push
  push_done host queue event there h = ground arith

  pub pop_refused :
      (host : Host) (queue out_event : ℕ)
      → has_room queue out_event ≡ false
      → spsc_telemetry_pop layout host queue out_event ≡ (invalid_memory, host)
  unfolding spsc_telemetry_pop ranges_overlap
  pop_refused host queue out_event h = ground arith

  pub pops_nothing :
      (host : Host) (queue out_event : ℕ)
      → aligned layout.queue_align queue ≡ true
      → has_room queue out_event ≡ true
      → (host.queues queue).is_initialized ≡ true
      → (Spsc.pop 64 default_event (host.queues queue)).0 ≡ none
      → spsc_telemetry_pop layout host queue out_event ≡ (
        queue_empty,
        record host {
          queues = at host.queues queue (Spsc.pop 64 default_event (host.queues queue)).1;
        },
      )
  unfolding spsc_telemetry_pop ranges_overlap
  pops_nothing host queue out_event there h ready e = ground arith

  pub pops_event :
      (host : Host) (queue out_event : ℕ) {x : TelemetryEvent}
      → aligned layout.queue_align queue ≡ true
      → has_room queue out_event ≡ true
      → (host.queues queue).is_initialized ≡ true
      → (Spsc.pop 64 default_event (host.queues queue)).0 ≡ some x
      → spsc_telemetry_pop layout host queue out_event ≡ (
        success,
        record host {
          queues = at host.queues queue (Spsc.pop 64 default_event (host.queues queue)).1;
          events = at host.events out_event x;
        },
      )
  unfolding spsc_telemetry_pop ranges_overlap
  pops_event host queue out_event there h ready e = ground arith
