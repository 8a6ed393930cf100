-- ===== src/Rtos/Spsc/Concurrent/Moves.antt =====
-- What one thread of spsc_queue.rs does to the slot it works on leaves the other's slots alone.
use native.Mathlib.Nat.{mod-lt}
use shawn_core_libraries.Base.{
  ℕ, ◌+◌, ◌%◌, ◌<◌, ◌≡◌, ◌≢◌, sym, ap, ◌∙◌, true, ◌++◌, length-set, get_or-set_self, get_or-set_ne,
  bit_and, arith,
}
use shawn_core_libraries.Rtos.Ring.{CacheAlignedSlot}
use shawn_core_libraries.Rtos.Ring.Indices.{IsCapacity, capacity-bounds}
use shawn_core_libraries.Rtos.Spsc.{slot_at}
use shawn_core_libraries.Rtos.Spsc.Concurrent.{
  Producer, Consumer, Machine, head_slot, tail_slot, set_head_slot,
}
use shawn_core_libraries.Rtos.Spsc.Concurrent.Slots.{head_apart}
use shawn_core_libraries.Rtos.Spsc.Concurrent.Invariant.{
  busy, active, wrote, settled, loaded, held, loaded_keep, held_keep, count, waiting, Inv,
}
use shawn_core_libraries.Rtos.Spsc.Concurrent.Waiting.{waiting-set}

module _ {ℓ} {T : Type ℓ} (capacity : ℕ) (default : T) where
  -- The producer writes the slot of `head`.
  pub head_write-Inv :
      (m : Machine T) (slot : CacheAlignedSlot T) (p : Producer T)
      → IsCapacity capacity
      → Inv capacity default m
      → busy m.producer ≡ true
      → settled p (bit_and slot.sequence_counter 1) ≡ 0
      → wrote p slot.data_cell ≡ slot.data_cell
      → Inv capacity default
          (record m { queue = set_head_slot capacity default m.queue slot; producer = p })
  head_write-Inv m slot p c v at_work done stands = record {
    storage = omega (arith, v.storage, length-set m.queue.buffer (m.queue.head % capacity) slot);
    words = v.words;
    used = v.used;
    room = λ h. v.room at_work;
    present = v.present;
    even = λ i below. ap (λ s. bit_and s.sequence_counter 1) (others i below) ∙ v.even i below;
    complete = ap (λ s. settled p (bit_and s.sequence_counter 1)) own ∙ done;
    in_slot = ap (λ s. wrote p s.data_cell) own ∙ stands ∙ sym (ap (λ s. s.data_cell) own);
    sequence = loaded_keep m.consumer v.sequence (λ h. ap (λ s. s.sequence_counter) (oldest h));
    item = held_keep m.consumer v.item (λ h. ap (λ s. s.data_cell) (oldest h));
    history =
        v.history
        ∙ ap (λ xs. m.popped ++ xs)
            (sym (
              waiting-set capacity default m.queue.buffer m.queue.tail
                (count capacity default m.queue) (m.queue.head % capacity) slot m.consumer apart));
  }
    where
      apart :
          (i : ℕ)
          → i < count capacity default m.queue
          → m.queue.head % capacity ≢ (m.queue.tail + i) % capacity
      apart i below =
          head_apart m.queue.head m.queue.tail i c v.words.0 v.words.1 (v.room at_work) below

      others :
          (i : ℕ)
          → i < count capacity default m.queue
          → slot_at capacity default
              (set_head_slot capacity default m.queue slot)
              ((m.queue.tail + i) % capacity)
            ≡ slot_at capacity default m.queue ((m.queue.tail + i) % capacity)
      others i below =
          get_or-set_ne m.queue.buffer (m.queue.head % capacity) ((m.queue.tail + i) % capacity)
            slot _ (apart i below)

      own : head_slot capacity default (set_head_slot capacity default m.queue slot) ≡ slot
      own =
          get_or-set_self m.queue.buffer (m.queue.head % capacity) slot _
            (omega (arith, v.storage, mod-lt m.queue.head (capacity-bounds c).0))

      oldest :
          active m.consumer ≡ true
          → tail_slot capacity default (set_head_slot capacity default m.queue slot)
            ≡ tail_slot capacity default m.queue
      oldest h =
          ap
            (λ i.
              slot_at capacity default (set_head_slot capacity default m.queue slot) (i % capacity))
            {x = m.queue.tail} {y = m.queue.tail + 0} (omega arith)
          ∙ others 0 (v.present h)
          ∙ ap (λ i. slot_at capacity default m.queue (i % capacity)) {x = m.queue.tail + 0}
              {y = m.queue.tail} (omega arith)

  -- The producer passes the test of `push`.
  pub admit-Inv :
      (m : Machine T) (p : Producer T)
      → Inv capacity default m
      → count capacity default m.queue < capacity
      → ((low : ℕ) → settled p low ≡ 0)
      → ((own : T) → wrote p own ≡ own)
      → Inv capacity default (record m { producer = p })
  admit-Inv m p v space done stands = record {
    storage = v.storage;
    words = v.words;
    used = v.used;
    room = λ h. space;
    present = v.present;
    even = v.even;
    complete = done _;
    in_slot = stands _;
    sequence = v.sequence;
    item = v.item;
    history = v.history;
  }

  -- The consumer moves on without a write.
  pub read-Inv :
      (m : Machine T) (c : Consumer T)
      → Inv capacity default m
      → (active c ≡ true → 0 < count capacity default m.queue)
      → loaded c (tail_slot capacity default m.queue).sequence_counter
        ≡ (tail_slot capacity default m.queue).sequence_counter
      → held c (tail_slot capacity default m.queue).data_cell
        ≡ (tail_slot capacity default m.queue).data_cell
      → waiting capacity default m.queue.buffer m.queue.tail
          (count capacity default m.queue)
          m.consumer
        ≡ waiting capacity default m.queue.buffer m.queue.tail (count capacity default m.queue) c
      → Inv capacity default (record m { consumer = c })
  read-Inv m c v occupied same_counter same_item same_waiting = record {
    storage = v.storage;
    words = v.words;
    used = v.used;
    room = v.room;
    present = occupied;
    even = v.even;
    complete = v.complete;
    in_slot = v.in_slot;
    sequence = same_counter;
    item = same_item;
    history = v.history ∙ ap (λ xs. m.popped ++ xs) same_waiting;
  }
