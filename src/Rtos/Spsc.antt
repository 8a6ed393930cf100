-- ===== src/Rtos/Spsc.antt =====
-- shawncore-rtos-sync/src/spsc_queue.rs: the queue between one producer and one consumer, each call
-- of which runs to its end before the next one. Its slots, and what is done to one slot, are those
-- of ring_buffer.rs. The host's cache callbacks and the fences leave no trace in the state.
pub mod Queue
pub mod Concurrent
use shawn_core_libraries.Base.{
  ℕ, ◌-◌, ◌*◌, ◌%◌, ◌^◌, Bool, true, false, not, ◌||◌, Option, none, some, List, [], get_or, set,
  Result, ok, err, if◌then◌else◌, ltb, leb, ◌==◌,
}
use shawn_core_libraries.Rtos.Error.{
  IpcError, queue_full, not_initialized, already_initialized, invalid_memory,
}
use shawn_core_libraries.Rtos.Ring.{
  CacheAlignedSlot, wrapping_add, wrapping_sub, reset_counters, publish, stable_item,
}

-- `buffer` is the storage that `init` published: what its slots hold.
pub record SpscQueue {ℓ} (T : Type ℓ) : Type ℓ where
  pub buffer : List (CacheAlignedSlot T)
  pub head : ℕ  -- usize
  pub tail : ℕ  -- usize
  pub is_initialized : Bool
  pub is_initializing : Bool

abbrev pub new {ℓ} : {T : Type ℓ} → SpscQueue T
new = record { buffer = []; head = 0; tail = 0; is_initialized = false; is_initializing = false }

module _ {ℓ} {T : Type ℓ} (capacity : ℕ) (default : T) where
  -- The address of the storage, the size and alignment of a slot, the size offered, and the slots
  -- that the storage holds.
  unfoldable pub init :
      SpscQueue T
      → (base_ptr slot_size slot_align size_in_bytes : ℕ) → List (CacheAlignedSlot T)
      → Result IpcError (Unit {0}) × SpscQueue T
  unfolding reset_counters
  init q base_ptr slot_size slot_align size_in_bytes memory =
      if base_ptr == 0
      then (err invalid_memory, q)
      else if ltb (2 ^ 64 - 1) (capacity * slot_size)
      then (err invalid_memory, q)
      else if ltb size_in_bytes (capacity * slot_size)
      then (err invalid_memory, q)
      else if not (base_ptr % 4096 == 0) || not (base_ptr % slot_align == 0)
      then (err invalid_memory, q)
      else if q.is_initialized || q.is_initializing
      then (err already_initialized, q)
      else (
        ok tt,
        record q {
          buffer = reset_counters capacity memory;
          is_initialized = true;
          is_initializing = false;
        },
      )

  -- `base_ptr.add(index)`.
  abbrev pub slot_at : SpscQueue T → ℕ → CacheAlignedSlot T
  slot_at q index = get_or q.buffer index (record { data_cell = default; sequence_counter = 0 })

  unfoldable pub push : SpscQueue T → T → Result IpcError (Unit {0}) × SpscQueue T
  unfolding publish
  push q item =
      if not q.is_initialized
      then (err not_initialized, q)
      else if leb capacity (wrapping_sub q.head q.tail)
      then (err queue_full, q)
      else (
        ok tt,
        record q {
          buffer = set q.buffer (q.head % capacity) (publish item (slot_at q (q.head % capacity)));
          head = wrapping_add q.head 1;
        },
      )

  -- The slot's bytes are zeroed and then hold the default.
  unfoldable pub pop : SpscQueue T → Option T × SpscQueue T
  unfolding stable_item
  pop q =
      if not q.is_initialized
      then (none, q)
      else if q.head == q.tail
      then (none, q)
      else elim (stable_item (slot_at q (q.tail % capacity))) [
        | none ↦ (none, q)
        | some item ↦ (
          some item,
          record q {
            buffer =
                set q.buffer (q.tail % capacity)
                  (record (slot_at q (q.tail % capacity)) { data_cell = default });
            tail = wrapping_add q.tail 1;
          },
        )
      ]
