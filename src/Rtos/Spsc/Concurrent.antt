-- ===== src/Rtos/Spsc/Concurrent.antt =====
-- `push` and `pop` of spsc_queue.rs while they run: one producer and one consumer, a step of one of
-- them at a time, in any order, on a queue that `init` has set up. A step is one access to a shared
-- cell; a thread reads a cell that only it writes together with the next one. Steps follow one
-- another as they take effect.
pub mod Slots
pub mod Invariant
pub mod Waiting
pub mod Moves
pub mod Advance
pub mod Clear
pub mod Preservation
pub mod Order
use shawn_core_libraries.Base.{
  ℕ, ◌-◌, ◌%◌, ◌^◌, Bool, true, false, ◌&&◌, List, [], ◌∷◌, ◌++◌, set, leb, ◌==◌, ◌≡◌, bit_and,
  bit_or,
}
use shawn_core_libraries.Rtos.Ring.{CacheAlignedSlot, wrapping_add, wrapping_sub}
use shawn_core_libraries.Rtos.Spsc.{SpscQueue, slot_at}

-- Where the producer stands in `push`: outside; with room for its item; with the slot's counter
-- odd; with the item written; with the counter even again. `sequence` is the counter it loaded.
pub data Producer {ℓ} (T : Type ℓ) : Type ℓ where
  resting : Producer T
  admitted : (item : T) → Producer T
  marked stored : (sequence : ℕ) (item : T) → Producer T
  published : (item : T) → Producer T

-- Where the consumer stands in `pop`: outside; with an item in the queue; with the first load of
-- the counter; with the item read; with the second load compared; with the slot cleared.
pub data Consumer {ℓ} (T : Type ℓ) : Type ℓ where
  idle entered : Consumer T
  sequenced : (first_sequence : ℕ) → Consumer T
  taken : (first_sequence : ℕ) (item : T) → Consumer T
  validated cleared : (item : T) → Consumer T

-- The queue, the two threads, and the items that `push` has accepted and `pop` has returned, oldest
-- first.
pub record Machine {ℓ} (T : Type ℓ) : Type ℓ where
  pub queue : SpscQueue T
  pub producer : Producer T
  pub consumer : Consumer T
  pub pushed : List T
  pub popped : List T

module _ {ℓ} {T : Type ℓ} (capacity : ℕ) (default : T) where
  abbrev pub head_slot : SpscQueue T → CacheAlignedSlot T
  head_slot q = slot_at capacity default q (q.head % capacity)

  abbrev pub tail_slot : SpscQueue T → CacheAlignedSlot T
  tail_slot q = slot_at capacity default q (q.tail % capacity)

  abbrev pub set_head_slot : SpscQueue T → CacheAlignedSlot T → SpscQueue T
  set_head_slot q slot = record q { buffer = set q.buffer (q.head % capacity) slot }

  abbrev pub set_tail_slot : SpscQueue T → CacheAlignedSlot T → SpscQueue T
  set_tail_slot q slot = record q { buffer = set q.buffer (q.tail % capacity) slot }

  pub data Step (m : Machine T) : Machine T → Type ℓ where
    -- `push`: the loads of both indices and the test.
    refuse :
        m.producer ≡ resting
        → leb capacity (wrapping_sub m.queue.head m.queue.tail) ≡ true
        → Step m m
    admit :
        (item : T)
        → m.producer ≡ resting
        → leb capacity (wrapping_sub m.queue.head m.queue.tail) ≡ false
        → Step m (record m { producer = admitted item })
    -- The load of the counter and its odd store; the item; the even store; the index.
    mark :
        (item : T)
        → m.producer ≡ admitted item
        → Step m (record m {
          queue = set_head_slot m.queue (record (head_slot m.queue) {
            sequence_counter = bit_or (wrapping_add (head_slot m.queue).sequence_counter 1) 1;
          });
          producer = marked (head_slot m.queue).sequence_counter item;
        })
    store :
        (sequence : ℕ) (item : T)
        → m.producer ≡ marked sequence item
        → Step m (record m {
          queue = set_head_slot m.queue (record (head_slot m.queue) { data_cell = item });
          producer = stored sequence item;
        })
    publish :
        (sequence : ℕ) (item : T)
        → m.producer ≡ stored sequence item
        → Step m (record m {
          queue = set_head_slot m.queue (record (head_slot m.queue) {
            sequence_counter = bit_and (wrapping_add sequence 2) (2 ^ 64 - 1 - 1);
          });
          producer = published item;
        })
    advance_head :
        (item : T)
        → m.producer ≡ published item
        → Step m (record m {
          queue = record m.queue { head = wrapping_add m.queue.head 1 };
          producer = resting;
          pushed = m.pushed ++ item ∷ [];
        })
    -- `pop`: the loads of both indices and the test.
    find_empty : m.consumer ≡ idle → m.queue.head == m.queue.tail ≡ true → Step m m
    enter :
        m.consumer ≡ idle
        → m.queue.head == m.queue.tail ≡ false
        → Step m (record m { consumer = entered })
    -- The first load of the counter, odd or even; the item; the second load, which differs or not.
    unstable :
        m.consumer ≡ entered
        → bit_and (tail_slot m.queue).sequence_counter 1 == 0 ≡ false
        → Step m (record m { consumer = idle })
    load_first :
        m.consumer ≡ entered
        → bit_and (tail_slot m.queue).sequence_counter 1 == 0 ≡ true
        → Step m (record m { consumer = sequenced (tail_slot m.queue).sequence_counter })
    read_item :
        (first_sequence : ℕ)
        → m.consumer ≡ sequenced first_sequence
        → Step m (record m { consumer = taken first_sequence (tail_slot m.queue).data_cell })
    changed :
        (first_sequence : ℕ) (item : T)
        → m.consumer ≡ taken first_sequence item
        → first_sequence == (tail_slot m.queue).sequence_counter
            && bit_and (tail_slot m.queue).sequence_counter 1 == 0
          ≡ false
        → Step m (record m { consumer = idle })
    validate :
        (first_sequence : ℕ) (item : T)
        → m.consumer ≡ taken first_sequence item
        → first_sequence == (tail_slot m.queue).sequence_counter
            && bit_and (tail_slot m.queue).sequence_counter 1 == 0
          ≡ true
        → Step m (record m { consumer = validated item })
    -- The default in the slot, and the index.
    clear :
        (item : T)
        → m.consumer ≡ validated item
        → Step m (record m {
          queue = set_tail_slot m.queue (record (tail_slot m.queue) { data_cell = default });
          consumer = cleared item;
        })
    advance_tail :
        (item : T)
        → m.consumer ≡ cleared item
        → Step m (record m {
          queue = record m.queue { tail = wrapping_add m.queue.tail 1 };
          consumer = idle;
          popped = m.popped ++ item ∷ [];
        })

  -- Both threads outside, over a queue that is set up and empty.
  abbrev pub launch : SpscQueue T → Machine T
  launch q = record { queue = q; producer = resting; consumer = idle; pushed = []; popped = [] }

  pub data Reachable (q : SpscQueue T) : Machine T → Type ℓ where
    start : Reachable q (launch q)
    next : {m m' : Machine T} → Reachable q m → Step m m' → Reachable q m'
