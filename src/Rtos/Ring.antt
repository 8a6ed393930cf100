-- ===== src/Rtos/Ring.antt =====
-- shawncore-rtos-sync/src/ring_buffer.rs: the ring of slots between one producer and one consumer,
-- each call of which runs to its end before the next one. The host's cache callbacks and the fences
-- leave no trace in the state.
pub mod Indices
pub mod Contents
pub mod Valid
pub mod Push
pub mod Pop
pub mod Queue
use shawn_core_libraries.Base.{
  ℕ, zero, suc, ◌+◌, ◌-◌, ◌*◌, ◌%◌, ◌^◌, Bool, true, false, not, ◌||◌, Option, none, some, List, [],
  ◌∷◌, get_or, set, Result, ok, err, if◌then◌else◌, ltb, leb, ◌==◌, bit_and, bit_or,
}
use shawn_core_libraries.Rtos.Error.{
  IpcError, queue_full, not_initialized, already_initialized, invalid_memory,
}

pub record CacheAlignedSlot {ℓ} (T : Type ℓ) : Type ℓ where
  pub data_cell : T
  pub sequence_counter : ℕ  -- usize

-- `buffer` is the storage that `init` published: what its slots hold.
pub record RingBuffer {ℓ} (T : Type ℓ) : Type ℓ where
  pub buffer : List (CacheAlignedSlot T)
  pub head : ℕ  -- usize
  pub tail : ℕ  -- usize
  pub is_initialized : Bool
  pub is_initializing : Bool

abbrev pub new {ℓ} : {T : Type ℓ} → RingBuffer T
new = record { buffer = []; head = 0; tail = 0; is_initialized = false; is_initializing = false }

-- `wrapping_add` and `wrapping_sub` of a 64-bit word.
abbrev pub wrapping_add : ℕ → ℕ → ℕ
wrapping_add a b = (a + b) % 2 ^ 64

abbrev pub wrapping_sub : ℕ → ℕ → ℕ
wrapping_sub a b = (a + 2 ^ 64 - b) % 2 ^ 64

-- The loop of `init`, over the first `n` slots.
unfoldable pub reset_counters {ℓ} :
    {T : Type ℓ} → ℕ → List (CacheAlignedSlot T) → List (CacheAlignedSlot T)
reset_counters zero slots = slots
reset_counters (suc n) [] = []
reset_counters (suc n) (slot ∷ slots) =
    record slot { sequence_counter = 0 } ∷ reset_counters n slots

-- Odd while the slot is written, even after it.
unfoldable pub publish {ℓ} : {T : Type ℓ} → T → CacheAlignedSlot T → CacheAlignedSlot T
publish item slot =
    let writing = record slot {
      sequence_counter = bit_or (wrapping_add slot.sequence_counter 1) 1;
    } in
    let written = record writing { data_cell = item } in
    record written {
      sequence_counter = bit_and (wrapping_add slot.sequence_counter 2) (2 ^ 64 - 1 - 1);
    }

-- The slot is read twice; the second read is of the same state.
unfoldable pub stable_item {ℓ} : {T : Type ℓ} → CacheAlignedSlot T → Option T
stable_item slot =
    let first_sequence = slot.sequence_counter in
    if not (bit_and first_sequence 1 == 0)
    then none
    else let item = slot.data_cell in
      let second_sequence = slot.sequence_counter in
      if not (first_sequence == second_sequence) || not (bit_and second_sequence 1 == 0)
      then none
      else some item

module _ {ℓ} {T : Type ℓ} (capacity : ℕ) (default : T) where
  -- The address of the storage, the size and alignment of a slot, the size offered, and the slots
  -- that the storage holds.
  unfoldable pub init :
      RingBuffer T
      → (base_ptr slot_size slot_align size_in_bytes : ℕ) → List (CacheAlignedSlot T)
      → Result IpcError (Unit {0}) × RingBuffer T
  unfolding reset_counters
  init r base_ptr slot_size slot_align size_in_bytes memory =
      if base_ptr == 0
      then (err invalid_memory, r)
      else if ltb (2 ^ 64 - 1) (capacity * slot_size)
      then (err invalid_memory, r)
      else if ltb size_in_bytes (capacity * slot_size)
      then (err invalid_memory, r)
      else if not (base_ptr % 4096 == 0) || not (base_ptr % slot_align == 0)
      then (err invalid_memory, r)
      else if r.is_initialized || r.is_initializing
      then (err already_initialized, r)
      else (
        ok tt,
        record r {
          buffer = reset_counters capacity memory;
          is_initialized = true;
          is_initializing = false;
        },
      )

  -- `base_ptr.add(idx)`.
  abbrev pub slot_at : RingBuffer T → ℕ → CacheAlignedSlot T
  slot_at r idx = get_or r.buffer idx (record { data_cell = default; sequence_counter = 0 })

  unfoldable pub push : RingBuffer T → T → Result IpcError (Unit {0}) × RingBuffer T
  unfolding publish
  push r item =
      if not r.is_initialized
      then (err not_initialized, r)
      else if leb capacity (wrapping_sub r.head r.tail)
      then (err queue_full, r)
      else (
        ok tt,
        record r {
          buffer = set r.buffer (r.head % capacity) (publish item (slot_at r (r.head % capacity)));
          head = wrapping_add r.head 1;
        },
      )

  unfoldable pub pop : RingBuffer T → Option T × RingBuffer T
  unfolding stable_item
  pop r =
      if not r.is_initialized
      then (none, r)
      else if r.head == r.tail
      then (none, r)
      else elim (stable_item (slot_at r (r.tail % capacity))) [
        | none ↦ (none, r)
        | some item ↦ (
          some item,
          record r {
            buffer =
                set r.buffer (r.tail % capacity)
                  (record (slot_at r (r.tail % capacity)) { data_cell = default });
            tail = wrapping_add r.tail 1;
          },
        )
      ]

  unfoldable pub peek : RingBuffer T → Option T
  unfolding stable_item
  peek r =
      if not r.is_initialized
      then none
      else if r.head == r.tail
      then none
      else stable_item (slot_at r (r.tail % capacity))
