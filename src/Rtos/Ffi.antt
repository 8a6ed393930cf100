-- ===== src/Rtos/Ffi.antt =====
-- The C interface of the crate (ffi.rs, ffi_error.rs): its codes, the checks of pointers, and the
-- calls of the queue of telemetry events (telemetry_queue.rs).
pub mod Telemetry
pub mod TelemetryQueue
use shawn_core_libraries.Base.{
  ℕ, ◌+◌, ◌*◌, ◌%◌, ◌^◌, Bool, true, false, not, ◌&&◌, ◌||◌, if◌then◌else◌, ltb, leb, ◌==◌, List,
  [], ◌∷◌, replicate, Option, none, some, Result, ok, err,
}
use shawn_core_libraries.Rtos.Error.{
  IpcError, queue_full as ipc_queue_full, not_initialized as ipc_not_initialized,
  already_initialized as ipc_already_initialized, invalid_memory as ipc_invalid_memory,
}
use shawn_core_libraries.Rtos.Ring.{CacheAlignedSlot}
use shawn_core_libraries.Rtos.Spsc.{SpscQueue}
use shawn_core_libraries.Rtos.Spsc

pub data ShawncoreRtosErr : Type 0 where
  success out_of_memory address_out_of_bounds invalid_alignment lock_contention : ShawncoreRtosErr
  double_free not_initialized already_initialized queue_full invalid_memory : ShawncoreRtosErr
  queue_empty task_fault invalid_state panic : ShawncoreRtosErr

abbrev pub from_ipc_error : IpcError → ShawncoreRtosErr
from_ipc_error ipc_queue_full = queue_full
from_ipc_error ipc_not_initialized = not_initialized
from_ipc_error ipc_already_initialized = already_initialized
from_ipc_error ipc_invalid_memory = invalid_memory

-- `Ok(_) => Success, Err(e) => e.into()`.
abbrev pub ipc_status : Result IpcError (Unit {0}) → ShawncoreRtosErr
ipc_status (ok done) = success
ipc_status (err e) = from_ipc_error e

-- `checked_add` of `usize`.
abbrev checked_add : ℕ → ℕ → Option ℕ
checked_add a b = if ltb (a + b) (2 ^ 64) then some (a + b) else none

unfoldable pub ranges_overlap : (first first_len second second_len : ℕ) → Bool
ranges_overlap first first_len second second_len = elim (checked_add first first_len) [
  | none ↦ true
  | some first_end ↦ elim (checked_add second second_len) [
    | none ↦ true
    | some second_end ↦ ltb first second_end && ltb second first_end
  ]
]

abbrev pub ptr_is_aligned : (align ptr : ℕ) → Bool
ptr_is_aligned align ptr = ptr % align == 0

-- The size and alignment of an element first.
unfoldable pub valid_dma_region : (size align memory_base size_in_bytes element_count : ℕ) → Bool
valid_dma_region size align memory_base size_in_bytes element_count =
    if memory_base == 0 || not (memory_base % 4096 == 0) || not (memory_base % align == 0)
    then false
    else ltb (element_count * size) (2 ^ 64)
      && leb (element_count * size) size_in_bytes
      && ltb (memory_base + element_count * size) (2 ^ 64)

-- A `u32`, a `u64` and 48 bytes; the four bytes of padding hold nothing.
pub record TelemetryEvent : Type 0 where
  pub event_id : ℕ
  pub timestamp : ℕ
  pub payload : List ℕ

abbrev pub default_event : TelemetryEvent
default_event = record { event_id = 0; timestamp = 0; payload = replicate 48 0 }

-- The sizes and alignments of a queue and of a slot, which the compiler chooses.
pub record Layout : Type 0 where
  pub queue_size : ℕ
  pub queue_align : ℕ
  pub slot_size : ℕ
  pub slot_align : ℕ

-- What the host keeps at an address: a queue, an event, slots. Address 0 is null.
pub record Host : Type 0 where
  pub queues : ℕ → SpscQueue TelemetryEvent
  pub events : ℕ → TelemetryEvent
  pub slots : ℕ → List (CacheAlignedSlot TelemetryEvent)

abbrev pub at {ℓ} : {A : Type ℓ} → (ℕ → A) → ℕ → A → ℕ → A
at f i v j = if j == i then v else f j

module _ (layout : Layout) where
  unfoldable pub spsc_telemetry_init :
      Host → (queue memory_base size_in_bytes : ℕ) → ShawncoreRtosErr × Host
  spsc_telemetry_init host queue memory_base size_in_bytes =
      if queue == 0
        || not (valid_dma_region layout.slot_size layout.slot_align memory_base size_in_bytes 64)
        || ranges_overlap queue layout.queue_size memory_base size_in_bytes
      then (invalid_memory, host)
      else if not (ptr_is_aligned layout.queue_align queue)
      then (invalid_memory, host)
      else let (result, queue') =
          Spsc.init 64 default_event Spsc.new memory_base layout.slot_size layout.slot_align
            size_in_bytes (host.slots memory_base) in
        (ipc_status result, record host { queues = at host.queues queue queue' })

  unfoldable pub spsc_telemetry_push : Host → (queue event : ℕ) → ShawncoreRtosErr × Host
  spsc_telemetry_push host queue event =
      if queue == 0 || event == 0
      then (invalid_memory, host)
      else if not (ptr_is_aligned layout.queue_align queue) || not (ptr_is_aligned 64 event)
      then (invalid_memory, host)
      else let (result, queue') =
          Spsc.push 64 default_event (host.queues queue) (host.events event) in
        (ipc_status result, record host { queues = at host.queues queue queue' })

  -- An event is 64 bytes long.
  unfoldable pub spsc_telemetry_pop : Host → (queue out_event : ℕ) → ShawncoreRtosErr × Host
  spsc_telemetry_pop host queue out_event =
      if queue == 0 || out_event == 0
      then (invalid_memory, host)
      else if not (ptr_is_aligned layout.queue_align queue) || not (ptr_is_aligned 64 out_event)
      then (invalid_memory, host)
      else if ranges_overlap queue layout.queue_size out_event 64
      then (invalid_memory, host)
      else if not (host.queues queue).is_initialized
      then (not_initialized, host)
      else let (popped, queue') = Spsc.pop 64 default_event (host.queues queue) in
        elim popped [
          | some event ↦ (
            success,
            record host {
              queues = at host.queues queue queue';
              events = at host.events out_event event;
            },
          )
          | none ↦ (queue_empty, record host { queues = at host.queues queue queue' })
        ]
