-- ===== src/Rtos/Examples/Concurrent.antt =====
-- The queue of spsc_queue.rs with two slots, while a push and a pop overlap.
use shawn_core_libraries.Base.{
  ℕ, ◌+◌, ◌≤◌, ◌≡◌, true, refl, [], ◌∷◌, length, take, ◌==◌, ◌&&◌, bit_and, arith,
}
use shawn_core_libraries.Rtos.Ring.{CacheAlignedSlot}
use shawn_core_libraries.Rtos.Spsc.{SpscQueue}
use shawn_core_libraries.Rtos.Spsc
use shawn_core_libraries.Rtos.Spsc.Concurrent.{
  Machine, entered, sequenced, taken, admitted, marked, stored, published, resting, launch,
  Reachable, start, next, admit, mark, store, publish, advance_head, enter, load_first, read_item,
  validate, clear, advance_tail, validated, cleared, idle, tail_slot,
}
use shawn_core_libraries.Rtos.Spsc.Concurrent.Order.{popped_in_order, validation_holds}
use shawn_core_libraries.Rtos.Examples.Ring.{storage, two-IsCapacity, queue}

abbrev slot : (item sequence : ℕ) → CacheAlignedSlot ℕ
slot item sequence = record { data_cell = item; sequence_counter = sequence }

-- The push of 5 up to its return.
abbrev at_5 : Machine ℕ
at_5 = record (launch 2 0 queue) { producer = admitted 5 }

abbrev marked_5 : Machine ℕ
marked_5 = record at_5 {
  queue = record queue { buffer = slot 9 1 ∷ slot 9 0 ∷ [] };
  producer = marked 0 5;
}

abbrev stored_5 : Machine ℕ
stored_5 = record at_5 {
  queue = record queue { buffer = slot 5 1 ∷ slot 9 0 ∷ [] };
  producer = stored 0 5;
}

abbrev published_5 : Machine ℕ
published_5 = record at_5 {
  queue = record queue { buffer = slot 5 2 ∷ slot 9 0 ∷ [] };
  producer = published 5;
}

abbrev pushed_5 : Machine ℕ
pushed_5 = record at_5 {
  queue = record queue { buffer = slot 5 2 ∷ slot 9 0 ∷ []; head = 1 };
  producer = resting;
  pushed = 5 ∷ [];
}

-- A pop of it, and a push of 6 that starts before the pop has read the item.
abbrev found : Machine ℕ
found = record pushed_5 { consumer = entered }

abbrev loaded_first : Machine ℕ
loaded_first = record found { consumer = sequenced 2 }

abbrev at_6 : Machine ℕ
at_6 = record loaded_first { producer = admitted 6 }

abbrev marked_6 : Machine ℕ
marked_6 = record at_6 {
  queue = record queue { buffer = slot 5 2 ∷ slot 9 1 ∷ []; head = 1 };
  producer = marked 0 6;
}

abbrev read_5 : Machine ℕ
read_5 = record marked_6 { consumer = taken 2 5 }

-- The pop returns while the producer is still in its slot.
abbrev valid_5 : Machine ℕ
valid_5 = record marked_6 { consumer = validated 5 }

abbrev cleared_5 : Machine ℕ
cleared_5 = record marked_6 {
  queue = record queue { buffer = slot 0 2 ∷ slot 9 1 ∷ []; head = 1 };
  consumer = cleared 5;
}

abbrev popped_5 : Machine ℕ
popped_5 = record cleared_5 {
  queue = record queue { buffer = slot 0 2 ∷ slot 9 1 ∷ []; head = 1; tail = 1 };
  consumer = idle;
  popped = 5 ∷ [];
}

reaches_pushed : Reachable 2 0 queue pushed_5
unfolding Spsc.init
reaches_pushed =
    next {m = published_5}
      (next {m = stored_5}
        (next {m = marked_5} (next {m = at_5} (next start (admit 5 refl refl)) (mark 5 refl))
          (store 0 5 refl))
        (publish 0 5 refl))
      (advance_head 5 refl)

reaches_read : Reachable 2 0 queue read_5
unfolding Spsc.init
reaches_read =
    next {m = marked_6}
      (next {m = at_6}
        (next {m = loaded_first}
          (next {m = found} (next {m = pushed_5} reaches_pushed (enter refl refl))
            (load_first refl refl))
          (admit 6 refl refl))
        (mark 6 refl))
      (read_item 2 refl)

reaches_popped : Reachable 2 0 queue popped_5
unfolding Spsc.init
reaches_popped =
    next {m = cleared_5}
      (next {m = valid_5} (next {m = read_5} reaches_read (validate 2 5 refl refl)) (clear 5 refl))
      (advance_tail 5 refl)

popped_in_order_example :
    (popped_5.popped ≡ take (length popped_5.popped) popped_5.pushed)
    × (length popped_5.pushed ≤ length popped_5.popped + 2)
unfolding Spsc.init
popped_in_order_example =
    popped_in_order 2 0 8192 64 64 128 storage popped_5 two-IsCapacity (omega arith) refl
      reaches_popped

validation_holds_example :
    (read_5.consumer ≡ entered
      → bit_and (tail_slot 2 0 read_5.queue).sequence_counter 1 == 0 ≡ true)
    × ((first_sequence : ℕ) (item : ℕ)
        → read_5.consumer ≡ taken first_sequence item
        → first_sequence == (tail_slot 2 0 read_5.queue).sequence_counter
            && bit_and (tail_slot 2 0 read_5.queue).sequence_counter 1 == 0
          ≡ true)
unfolding Spsc.init
validation_holds_example =
    validation_holds 2 0 8192 64 64 128 storage read_5 two-IsCapacity (omega arith) refl
      reaches_read
